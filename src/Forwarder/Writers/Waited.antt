-- ===== src/Forwarder/Writers/Waited.antt =====
-- What the wait for the noise tells of the bulk writer when its writes succeed (audit_forwarder.py).
use mathlib.Core.List.{append-nil, append_assoc}
use auditlens.Prelude.{
  ℕ, ◌≡◌, refl, sym, ap, ◌∙◌, Bool, true, ◌&&◌, Option, none, some, List, [], ◌∷◌, ◌++◌, arith, All,
  take, drop, map, ltb, zero, suc,
}
use auditlens.Prelude.Eq.{number_eq, string_eq, pair_eq}
use auditlens.Prelude.Assoc.{lookup}
use auditlens.Forwarder.{Partition, Offsets, is_above, reaches, caught_up}
use auditlens.Forwarder.Offsets.{key_eq, highest, when, lookup-raise_to}
use auditlens.Forwarder.ShortCircuit.{record_item, record_persisted}
use auditlens.Forwarder.Writers.{
  bulk, Item, Writer, Round, acknowledged, writer_round, writer_rounds,
}

abbrev offset_in : Partition → Option (Partition × ℕ) → Option ℕ
offset_in k none = none
offset_in k (some (j, o)) = when (key_eq.beq j k) (some o)

lookup-record_item :
    (k : Partition) (a : Option (Partition × ℕ)) (d : Offsets)
    → lookup k (record_item a d) ≡ highest (offset_in k a) (lookup k d)
lookup-record_item k none d = refl
lookup-record_item k (some (j, o)) d = lookup-raise_to j k o d

abbrev passes : Option ℕ → Option ℕ → Bool
passes none b = true
passes (some o) b = is_above o b

abbrev is_later : ℕ → Option ℕ → Bool
is_later m none = true
is_later m (some o) = ltb m o

module _ {V : Type 0} (strict : Bool) (k : Partition) where
  abbrev offset_of : Item V → Option ℕ
  offset_of item = offset_in k (acknowledged strict bulk item)

  -- The items of the partition that a write acknowledges come in the order of their offsets, all
  -- above a mark.
  abbrev pub ascending : Option ℕ → List (Item V) → Bool
  ascending mark [] = true
  ascending mark (item ∷ items) =
      passes (offset_of item) mark && ascending (highest (offset_of item) mark) items

  -- No item up to an offset is in the list.
  abbrev pub AreLater : ℕ → List (Item V) → Type 0
  AreLater m items = All (λ item. is_later m (offset_of item) ≡ true) items

  ascending-record_persisted :
      (xs ys : List (Item V)) (d : Offsets)
      → ascending (lookup k d) (xs ++ ys) ≡ true
      → ascending (lookup k (record_persisted (map (acknowledged strict bulk) xs) d)) ys ≡ true
  unfolding record_persisted
  ascending-record_persisted [] ys d h = h
  ascending-record_persisted (x ∷ xs) ys d h =
      ascending-record_persisted xs ys (record_item (acknowledged strict bulk x) d)
        (rw (lookup-record_item k (acknowledged strict bulk x) d) (ground (arith, h)))

  ascending-AreLater :
      (m : ℕ) (mark : Option ℕ) (items : List (Item V))
      → ascending mark items ≡ true
      → reaches m mark ≡ true
      → AreLater m items
  ascending-AreLater m mark [] h r = tt
  ascending-AreLater m mark (item ∷ items) h r = (
    ground (arith, h, r),
    ascending-AreLater m (highest (offset_of item) mark) items (ground (arith, h))
        (ground (arith, h, r)),
  )

  abbrev pub arrivals_of : List (Round V) → List (Item V)
  arrivals_of [] = []
  arrivals_of (r ∷ rs) = r.arrivals ++ arrivals_of rs

  take-drop : (n : ℕ) (xs : List (Item V)) → take n xs ++ drop n xs ≡ xs
  take-drop zero xs = refl
  take-drop (suc n) [] = refl
  take-drop (suc n) (x ∷ xs) = ap (λ ys. x ∷ ys) (take-drop n xs)

  -- the items that were there and that come in
  abbrev all_items : List (Round V) → Writer V → List (Item V)
  all_items rs w = w.queue ++ arrivals_of rs

  module _ (capacity : ℕ) (r : Round V) (rs : List (Round V)) (w : Writer V)
      (good : r.success ≡ true) where
    abbrev round : Writer V
    round = writer_round strict bulk capacity r w

    regroup :
        all_items (r ∷ rs) w
        ≡ take r.taken w.queue ++ ((drop r.taken w.queue ++ r.arrivals) ++ arrivals_of rs)
    regroup =
        ap (λ ys. ys ++ (r.arrivals ++ arrivals_of rs)) (sym (take-drop r.taken w.queue))
        ∙ append_assoc (take r.taken w.queue) (drop r.taken w.queue) (r.arrivals ++ arrivals_of rs)
        ∙ ap (λ ys. take r.taken w.queue ++ ys)
            (sym (append_assoc (drop r.taken w.queue) r.arrivals (arrivals_of rs)))

    round-written : round.written ++ all_items rs round ≡ w.written ++ all_items (r ∷ rs) w
    unfolding writer_round
    round-written = rw good (
        append_assoc w.written (take r.taken w.queue)
          ((drop r.taken w.queue ++ r.arrivals) ++ arrivals_of rs)
        ∙ ap (λ ys. w.written ++ ys) (sym regroup))

    round-ascending :
        ascending (lookup k w.persisted) (all_items (r ∷ rs) w) ≡ true
        → ascending (lookup k round.persisted) (all_items rs round) ≡ true
    unfolding writer_round record_persisted
    round-ascending h = rw good (
        ascending-record_persisted (take r.taken w.queue)
          ((drop r.taken w.queue ++ r.arrivals) ++ arrivals_of rs) w.persisted
          (ap (ascending (lookup k w.persisted)) (sym regroup) ∙ h))

  -- What the rounds leave when no write fails.
  record Kept (rs : List (Round V)) (w after : Writer V) : Type 0 where
    in_order : after.written ++ after.queue ≡ w.written ++ all_items rs w
    is_ascending : ascending (lookup k after.persisted) after.queue ≡ true

  writer_rounds-Kept :
      (capacity : ℕ) (rs : List (Round V)) (w : Writer V)
      → All (λ r. r.success ≡ true) rs
      → ascending (lookup k w.persisted) (all_items rs w) ≡ true
      → Kept rs w (writer_rounds strict bulk capacity rs w)
  unfolding writer_rounds
  writer_rounds-Kept capacity [] w good h = record {
    in_order = ap (λ ys. w.written ++ ys) (sym (append-nil w.queue));
    is_ascending = ap (ascending (lookup k w.persisted)) (sym (append-nil w.queue)) ∙ h;
  }
  writer_rounds-Kept capacity (r ∷ rs) w good h =
      let kept : Kept rs (round capacity r rs w good.0)
          (writer_rounds strict bulk capacity rs (round capacity r rs w good.0)) =
        writer_rounds-Kept capacity rs (round capacity r rs w good.0) good.1
          (round-ascending capacity r rs w good.0 h) in
      record {
        in_order = kept.in_order ∙ round-written capacity r rs w good.0;
        is_ascending = kept.is_ascending;
      }

  -- When no write of the bulk writer fails and the items of a partition that a write acknowledges come in the order of
  -- their offsets, above what is persisted at first: the items that were there or came in are written
  -- in their order or still queued in it, and once the wait for a noise offset of the partition succeeds,
  -- none of those still queued is at that offset or below.
  pub caught_up-writer_rounds :
      (capacity : ℕ) (rs : List (Round V)) (w : Writer V) (m : ℕ)
      → All (λ r. r.success ≡ true) rs
      → ascending (lookup k w.persisted) (w.queue ++ arrivals_of rs) ≡ true
      → let after = writer_rounds strict bulk capacity rs w in
        caught_up ((k, m) ∷ []) after.persisted ≡ true
        → (after.written ++ after.queue ≡ w.written ++ (w.queue ++ arrivals_of rs))
          × AreLater m after.queue
  unfolding caught_up
  caught_up-writer_rounds capacity rs w m good h done =
      let after = writer_rounds strict bulk capacity rs w in
      let kept : Kept rs w after = writer_rounds-Kept capacity rs w good h in
      (
        kept.in_order,
        ascending-AreLater m (lookup k after.persisted) after.queue kept.is_ascending
            (ground (arith, done)),
      )
