-- ===== src/Forwarder/Rebalance.antt =====
-- `on_assign` and `on_revoke` (audit_forwarder.py), between the batches of the processor.
use auditlens.Prelude.{
  ℕ, ◌+◌, ◌≡◌, refl, Bool, true, false, not, ◌&&◌, ◌||◌, Option, none, some, List, [], ◌∷◌, ◌++◌,
  arith, any_of, keep_if, if◌then◌else◌,
}
use auditlens.Prelude.Eq.{number_eq, string_eq, pair_eq}
use auditlens.Prelude.Assoc.{lookup, insert, lookup-insert}
use auditlens.Forwarder.{Partition, Offsets, Message, raise_to, reaches}
use auditlens.Forwarder.Offsets.{raise_to-reaches, key_eq, lookup-raise_to, is_handled}

-- `_processed_offsets`, `_revoked_partitions`, and the positions that the broker holds for the group
pub record Rebalance : Type 0 where
  pub processed : Offsets
  pub revoked : List Partition
  pub committed : Offsets

abbrev pub is_revoked : Partition → List Partition → Bool
is_revoked key keys = any_of (key_eq.beq key) keys

-- `_revoked_partitions.discard(key)` for every key
unfoldable pub on_assign : List Partition → Rebalance → Rebalance
on_assign keys r = record r { revoked = keep_if (λ k. not (is_revoked k keys)) r.revoked }

-- the position after a processed offset, if there is one
abbrev pub put_next : Option ℕ → Partition → Offsets → Offsets
put_next none key committed = committed
put_next (some offset) key committed = insert key (offset + 1) committed

-- the offsets to commit, each set at once
unfoldable pub commit_processed : List Partition → Offsets → Offsets → Offsets
commit_processed [] processed committed = committed
commit_processed (key ∷ keys) processed committed =
    commit_processed keys processed (put_next (lookup key processed) key committed)

-- `on_revoke`, and whether the commit raises
unfoldable pub on_revoke : Bool → List Partition → Rebalance → Rebalance
on_revoke raises keys r = record r {
  revoked = keys ++ r.revoked;
  committed = if raises then r.committed else commit_processed keys r.processed r.committed;
}

-- the mirror of the tracked offsets, when the loop over a batch has handled a message
unfoldable pub note_processed : Message → Offsets → Offsets
note_processed m processed =
    if is_handled m then raise_to m.partition m.offset processed else processed

unfoldable pub note_batch : List Message → Offsets → Offsets
note_batch [] processed = processed
note_batch (m ∷ ms) processed = note_batch ms (note_processed m processed)

-- the test of the loop over a batch
abbrev pub skips : Message → Rebalance → Bool
skips m r = is_revoked m.partition r.revoked

any_of-append :
    (p : Partition → Bool) (xs ys : List Partition)
    → any_of p (xs ++ ys) ≡ (any_of p xs || any_of p ys)
any_of-append p [] ys = refl
any_of-append p (x ∷ xs) ys = ground (arith, any_of-append p xs ys)

any_of-kept :
    (j : Partition) (keys ks : List Partition)
    → is_revoked j (keep_if (λ k. not (is_revoked k keys)) ks)
      ≡ (is_revoked j ks && not (is_revoked j keys))
any_of-kept j keys [] = refl
any_of-kept j keys (k ∷ ks) = ground (arith, key_eq.beq_iff j k, any_of-kept j keys ks)

abbrev pub next_of : Option ℕ → Option ℕ
next_of none = none
next_of (some offset) = some (offset + 1)

-- the first, if it is there
abbrev pub if_some : Option ℕ → Option ℕ → Option ℕ
if_some none o = o
if_some (some n) o = some n

lookup-put_next :
    (o : Option ℕ) (key j : Partition) (committed : Offsets)
    → lookup j (put_next o key committed)
      ≡ (if key_eq.beq key j then if_some (next_of o) (lookup j committed) else lookup j committed)
lookup-put_next none key j committed = ground arith
lookup-put_next (some offset) key j committed =
    ground (arith, lookup-insert key j (offset + 1) committed)

lookup-commit_processed :
    (j : Partition) (keys : List Partition) (processed committed : Offsets)
    → lookup j (commit_processed keys processed committed) ≡ (
        if is_revoked j keys
        then if_some (next_of (lookup j processed)) (lookup j committed)
        else lookup j committed)
unfolding commit_processed
lookup-commit_processed j [] processed committed = refl
lookup-commit_processed j (key ∷ keys) processed committed = ground (
  arith,
  key_eq.beq_iff j key,
  key_eq.beq_iff key j,
  lookup-commit_processed j keys processed (put_next (lookup key processed) key committed),
  lookup-put_next (lookup key processed) key j committed,
)

-- A revocation marks exactly its partitions; it moves the position of each of them behind the last
-- offset that was processed there, if there is one and the commit succeeds, and no other position.
-- An assignment afterwards unmarks exactly its own partitions and moves no position.
pub on_revoke_lem :
    (raises : Bool) (gone back : List Partition) (r : Rebalance) (j : Partition)
    → let after = on_revoke raises gone r in
      let later = on_assign back after in
      (is_revoked j after.revoked ≡ (is_revoked j gone || is_revoked j r.revoked))
      × (lookup j after.committed ≡ (
          if is_revoked j gone && not raises
          then if_some (next_of (lookup j r.processed)) (lookup j r.committed)
          else lookup j r.committed))
      × (is_revoked j later.revoked
          ≡ ((is_revoked j gone || is_revoked j r.revoked) && not (is_revoked j back)))
      × (later.committed ≡ after.committed)
unfolding on_revoke on_assign
on_revoke_lem raises gone back r j = (
  any_of-append (key_eq.beq j) gone r.revoked,
  ground (arith, lookup-commit_processed j gone r.processed r.committed),
  ground
      (arith, any_of-kept j back (gone ++ r.revoked), any_of-append (key_eq.beq j) gone r.revoked),
  refl,
)

note_batch-reaches :
    (ms : List Message) (j : Partition) (n : ℕ) (d : Offsets)
    → reaches n (lookup j d) ≡ true
    → reaches n (lookup j (note_batch ms d)) ≡ true
unfolding note_batch note_processed
note_batch-reaches [] j n d h = h
note_batch-reaches (m ∷ ms) j n d h = note_batch-reaches ms j n _ (noted (is_handled m))
  where
    noted :
        (b : Bool) → reaches n (lookup j (if b then raise_to m.partition m.offset d else d)) ≡ true
    noted true = raise_to-reaches m.partition j m.offset n d h
    noted false = h

note_batch-handled :
    (before after : List Message) (m : Message) (d : Offsets)
    → is_handled m ≡ true
    → reaches m.offset (lookup m.partition (note_batch (before ++ m ∷ after) d)) ≡ true
unfolding note_batch note_processed
note_batch-handled [] after m d h = noted (is_handled m) h
  where
    noted :
        (b : Bool)
        → b ≡ true
        → reaches m.offset (
            lookup m.partition
              (note_batch after (if b then raise_to m.partition m.offset d else d)))
          ≡ true
    noted true e = note_batch-reaches after m.partition m.offset _ (
        ground (
          arith,
          lookup-raise_to m.partition m.partition m.offset d,
          key_eq.beq_iff m.partition m.partition,
        ))
    noted false e = let no : ⊥ = ground (arith, e) in elim no [ ]
note_batch-handled (k ∷ before) after m d h = note_batch-handled before after m _ h

-- When the loop over a batch has handled a message, a revocation of its partition moves the
-- position behind it, whatever the gates at the end of the batch find: also past a message whose
-- lane was full, whose delivery fails or which no writer has persisted.
pub on_revoke-handled :
    (before after : List Message) (m : Message) (keys : List Partition) (r : Rebalance)
    → is_handled m ≡ true
    → is_revoked m.partition keys ≡ true
    → reaches (m.offset + 1) (
        lookup m.partition
          (on_revoke false keys
            (record r { processed = note_batch (before ++ m ∷ after) r.processed })).committed)
      ≡ true
unfolding on_revoke
on_revoke-handled before after m keys r h k = ground (
  arith,
  note_batch-handled before after m r.processed h,
  lookup-commit_processed m.partition keys (note_batch (before ++ m ∷ after) r.processed)
      r.committed,
)
