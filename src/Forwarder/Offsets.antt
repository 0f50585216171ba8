-- ===== src/Forwarder/Offsets.antt =====
-- The highest offset of each partition, as the forwarder finds it and as a maximum over the
-- messages (audit_forwarder.py).
use auditlens.Prelude.{
  ℕ, ◌+◌, ◌≡◌, refl, sym, ap, ◌∙◌, Bool, true, false, ◌&&◌, Option, none, some, List, [], ◌∷◌,
  arith, if◌then◌else◌,
}
use auditlens.Prelude.Eq.{number_eq, Eq, string_eq, pair_eq}
use auditlens.Prelude.Assoc.{lookup, insert, Distinct, lookup-insert, insert-Distinct}
use auditlens.Forwarder.{
  reaches, Partition, Offsets, Fate, consume_error, partition_eof, revoked, handled, Message,
  is_above, raise_to, split_noise, Batch, settle, process_message, process_batch, merge_offsets,
  commit,
}

abbrev pub key_eq : Eq Partition
key_eq = pair_eq

-- The larger of two, where one or both may be missing.
abbrev pub highest : Option ℕ → Option ℕ → Option ℕ
highest none y = y
highest (some a) y = if is_above a y then some a else y

highest_assoc : (x y z : Option ℕ) → highest (highest x y) z ≡ highest x (highest y z)
highest_assoc x y z = ground arith

highest_left_comm : (x y z : Option ℕ) → highest x (highest y z) ≡ highest y (highest x z)
highest_left_comm x y z = ground arith

abbrev pub when : Bool → Option ℕ → Option ℕ
when true x = x
when false x = none

-- The highest offset of a partition among the messages that pass a test.
abbrev pub top : (Message → Bool) → Partition → List Message → Option ℕ
top p k [] = none
top p k (m ∷ ms) = highest (when (p m && key_eq.beq m.partition k) (some m.offset)) (top p k ms)

abbrev pub is_short : Message → Bool
is_short m = m.is_noise && m.bulk_accepts

abbrev is_handled_fate : Fate → Bool
is_handled_fate (handled lane raised) = true
is_handled_fate _ = false

abbrev pub is_handled : Message → Bool
is_handled m = is_handled_fate m.fate

-- A message that is short-circuited, or else handled by the processor.
abbrev pub is_tracked : Message → Bool
is_tracked m = if is_short m then true else is_handled m

pub lookup-raise_to :
    (j k : Partition) (o : ℕ) (d : Offsets)
    → lookup k (raise_to j o d) ≡ highest (when (key_eq.beq j k) (some o)) (lookup k d)
unfolding raise_to
lookup-raise_to j k o d = ground (arith, lookup-insert j k o d, key_eq.beq_iff j k)

pub raise_to-Distinct :
    (j : Partition) (o : ℕ) (d : Offsets) → Distinct d → Distinct (raise_to j o d)
unfolding raise_to
raise_to-Distinct j o d h = pick (is_above o (lookup j d))
  where
    pick : (b : Bool) → Distinct (if b then insert j o d else d)
    pick true = insert-Distinct j o d h
    pick false = h

settle-max :
    (strict : Bool) (m : Message) (b : Batch) (f : Fate) (k : Partition)
    → lookup k (settle strict m b f).max_offsets
      ≡ highest
          (when (is_handled_fate f && key_eq.beq m.partition k) (some m.offset))
          (lookup k b.max_offsets)
unfolding settle
settle-max strict m b consume_error k = refl
settle-max strict m b partition_eof k = refl
settle-max strict m b revoked k = refl
settle-max strict m b (handled lane raised) k = lookup-raise_to m.partition k m.offset b.max_offsets

pub process_batch-top :
    (strict : Bool) (ms : List Message) (b : Batch) (k : Partition)
    → lookup k (process_batch strict ms b).max_offsets
      ≡ highest (top is_handled k ms) (lookup k b.max_offsets)
unfolding process_batch process_message
process_batch-top strict [] b k = refl
process_batch-top strict (m ∷ ms) b k =
    let x = when (is_handled m && key_eq.beq m.partition k) (some m.offset) in
    process_batch-top strict ms (process_message strict m b) k
    ∙ ap (highest (top is_handled k ms)) (settle-max strict m b m.fate k)
    ∙ highest_left_comm (top is_handled k ms) x (lookup k b.max_offsets)
    ∙ sym (highest_assoc x (top is_handled k ms) (lookup k b.max_offsets))

either_Distinct :
    (b : Bool) (x y : List Message × Offsets)
    → Distinct x.1
    → Distinct y.1
    → Distinct (if b then x else y).1
either_Distinct true x y hx hy = hx
either_Distinct false x y hx hy = hy

pub split_noise-Distinct : (ms : List Message) → Distinct (split_noise ms).1
unfolding split_noise
split_noise-Distinct [] = tt
split_noise-Distinct (m ∷ ms) =
    let (rest, noise) = split_noise ms in
    let h = split_noise-Distinct ms in
    either_Distinct (is_short m) (rest, raise_to m.partition m.offset noise) (m ∷ rest, noise)
      (raise_to-Distinct m.partition m.offset noise h) h

pub merge_offsets-top :
    (noise d : Offsets) (k : Partition)
    → Distinct noise
    → lookup k (merge_offsets noise d) ≡ highest (lookup k noise) (lookup k d)
unfolding merge_offsets lookup
merge_offsets-top [] d k h = refl
merge_offsets-top ((j, o) ∷ noise) d k h = ground (
  arith,
  merge_offsets-top noise (raise_to j o d) k h.1,
  lookup-raise_to j k o d,
  key_eq.beq_iff j k,
  h.0,
)

pub split_noise-top :
    (ms : List Message) (k : Partition)
    → highest (lookup k (split_noise ms).1) (top is_handled k (split_noise ms).0)
      ≡ top is_tracked k ms
unfolding split_noise lookup
split_noise-top [] k = refl
split_noise-top (m ∷ ms) k =
    let short = (split_noise ms).1 in
    let rest = (split_noise ms).0 in
    ground (
      arith,
      split_noise-top ms k,
      lookup-raise_to m.partition k m.offset short,
      highest_assoc (when (key_eq.beq m.partition k) (some m.offset)) (lookup k short)
          (top is_handled k rest),
      highest_left_comm (lookup k short)
          (when (is_handled m && key_eq.beq m.partition k) (some m.offset)) (top is_handled k rest),
    )

settle-Distinct :
    (strict : Bool) (m : Message) (b : Batch) (f : Fate)
    → Distinct b.max_offsets
    → Distinct (settle strict m b f).max_offsets
unfolding settle
settle-Distinct strict m b consume_error h = h
settle-Distinct strict m b partition_eof h = h
settle-Distinct strict m b revoked h = h
settle-Distinct strict m b (handled lane raised) h =
    raise_to-Distinct m.partition m.offset b.max_offsets h

pub process_batch-Distinct :
    (strict : Bool) (ms : List Message) (b : Batch)
    → Distinct b.max_offsets
    → Distinct (process_batch strict ms b).max_offsets
unfolding process_batch process_message
process_batch-Distinct strict [] b h = h
process_batch-Distinct strict (m ∷ ms) b h =
    process_batch-Distinct strict ms (process_message strict m b)
      (settle-Distinct strict m b m.fate h)

pub merge_offsets-Distinct : (noise d : Offsets) → Distinct d → Distinct (merge_offsets noise d)
unfolding merge_offsets
merge_offsets-Distinct [] d h = h
merge_offsets-Distinct ((j, o) ∷ noise) d h =
    merge_offsets-Distinct noise (raise_to j o d) (raise_to-Distinct j o d h)

-- the position after an offset, or where the partition stood
abbrev pub next_position : Option ℕ → Option ℕ → Option ℕ
next_position none old = old
next_position (some offset) old = some (offset + 1)

pub lookup-commit :
    (d committed : Offsets) (k : Partition)
    → Distinct d
    → lookup k (commit d committed) ≡ next_position (lookup k d) (lookup k committed)
unfolding commit lookup
lookup-commit [] committed k h = refl
lookup-commit ((j, o) ∷ d) committed k h = ground (
  arith,
  lookup-commit d (insert j (o + 1) committed) k h.1,
  lookup-insert j k (o + 1) committed,
  key_eq.beq_iff j k,
  h.0,
)

pub raise_to-reaches :
    (key j : Partition) (o n : ℕ) (d : Offsets)
    → reaches n (lookup j d) ≡ true
    → reaches n (lookup j (raise_to key o d)) ≡ true
raise_to-reaches key j o n d h = ground (arith, lookup-raise_to key j o d)
