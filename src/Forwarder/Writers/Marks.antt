-- ===== src/Forwarder/Writers/Marks.antt =====
-- What the table of acknowledged offsets tells of the items of a writer (audit_forwarder.py).
use auditlens.Prelude.{
  ℕ, ◌≡◌, refl, ap, Bool, true, false, ◌&&◌, ◌||◌, Option, none, some, List, [], ◌∷◌, ◌++◌, arith,
  take, drop, map, leb, any_of, if◌then◌else◌,
}
use auditlens.Prelude.Eq.{number_eq, string_eq, pair_eq}
use auditlens.Prelude.Assoc.{lookup}
use auditlens.Forwarder.{Partition, Offsets, reaches, caught_up}
use auditlens.Forwarder.Offsets.{key_eq, lookup-raise_to}
use auditlens.Forwarder.ShortCircuit.{Flushed, record_item, record_persisted}
use auditlens.Forwarder.Writers.{
  LaneName, Item, Writer, Round, shared, acknowledged, wrote, writer_round, writer_rounds,
  requeue_item, requeue_or_dlq,
}

module _ (k : Partition) (m : ℕ) where
  -- An acknowledgement at an offset of a partition or above.
  abbrev pub covers : Option (Partition × ℕ) → Bool
  covers none = false
  covers (some (j, o)) = key_eq.beq j k && leb m o

  abbrev reached : Offsets → Bool
  reached d = reaches m (lookup k d)

  reached-record_item :
      (a : Option (Partition × ℕ)) (d : Offsets)
      → reached (record_item a d) ≡ (reached d || covers a)
  reached-record_item none d = ground arith
  reached-record_item (some (j, o)) d = ground (arith, lookup-raise_to j k o d)

  reached-record_persisted :
      (items : Flushed) (d : Offsets)
      → reached (record_persisted items d) ≡ (reached d || any_of covers items)
  unfolding record_persisted
  reached-record_persisted [] d = ground arith
  reached-record_persisted (a ∷ items) d =
      ground (arith, reached-record_persisted items (record_item a d), reached-record_item a d)

  any_of-append :
      (xs ys : Flushed) → any_of covers (xs ++ ys) ≡ (any_of covers xs || any_of covers ys)
  any_of-append [] ys = refl
  any_of-append (x ∷ xs) ys = ground (arith, any_of-append xs ys)

module _ {V : Type 0} where
  -- A writer at the start, with what is in its queue and in the table.
  abbrev pub start : List (Item V) → Offsets → Writer V
  start queue persisted = record {
    queue = queue;
    persisted = persisted;
    written = [];
    dlq = [];
    dropped = [];
  }

  requeue_or_dlq-keeps :
      (capacity : ℕ) (items : List (Item V)) (w : Writer V)
      → ((requeue_or_dlq capacity items w).persisted ≡ w.persisted)
        × ((requeue_or_dlq capacity items w).written ≡ w.written)
  unfolding requeue_or_dlq requeue_item
  requeue_or_dlq-keeps capacity [] w = (refl, refl)
  requeue_or_dlq-keeps capacity (item ∷ items) w =
      let rest = requeue_or_dlq-keeps capacity items (requeue_item capacity item w) in
      (ground (arith, rest.0), ground (arith, rest.1))

  module _ (strict : Bool) (lane : LaneName) (k : Partition) (m : ℕ) where
    -- What the other writers acknowledge in the same table.
    abbrev pub others_of : List (Round V) → Flushed
    others_of [] = []
    others_of (r ∷ rs) = shared lane r.others ++ others_of rs

    abbrev pub covers_item : Item V → Bool
    covers_item item = covers k m (acknowledged strict lane item)

    covers-map :
        (items : List (Item V))
        → any_of (covers k m) (map (acknowledged strict lane) items) ≡ any_of covers_item items
    covers-map [] = refl
    covers-map (item ∷ items) = ap (λ b. covers_item item || b) (covers-map items)

    items-append :
        (xs ys : List (Item V))
        → any_of covers_item (xs ++ ys) ≡ (any_of covers_item xs || any_of covers_item ys)
    items-append [] ys = refl
    items-append (x ∷ xs) ys = ground (arith, items-append xs ys)

    -- The table reaches the offset from before, by this writer, or by others.
    abbrev Explained : Bool → Bool → Writer V → Type 0
    Explained before others w =
        reached k m w.persisted ≡ (before || any_of covers_item w.written || others)

    writer_round-Explained :
        (capacity : ℕ) (r : Round V) (w : Writer V) (before others : Bool)
        → Explained before others w
        → Explained before
            (others || any_of (covers k m) (shared lane r.others))
            (writer_round strict lane capacity r w)
    unfolding writer_round
    writer_round-Explained capacity r w before others h = split r.success
      where
        batch : List (Item V)
        batch = take r.taken w.queue

        drained : Writer V
        drained = record w {
          queue = drop r.taken w.queue ++ r.arrivals;
          persisted = record_persisted (shared lane r.others) w.persisted;
        }

        split :
            (success : Bool)
            → Explained before (others || any_of (covers k m) (shared lane r.others)) (
                if success
                then wrote strict lane batch drained
                else requeue_or_dlq capacity batch drained)
        split true = ground (
          arith,
          h,
          reached-record_persisted k m (map (acknowledged strict lane) batch) drained.persisted,
          reached-record_persisted k m (shared lane r.others) w.persisted,
          covers-map batch,
          items-append w.written batch,
        )
        split false = ground (
          arith,
          h,
          requeue_or_dlq-keeps capacity batch drained,
          reached-record_persisted k m (shared lane r.others) w.persisted,
        )

    writer_rounds-Explained :
        (capacity : ℕ) (rs : List (Round V)) (w : Writer V) (before others : Bool)
        → Explained before others w
        → Explained before
            (others || any_of (covers k m) (others_of rs))
            (writer_rounds strict lane capacity rs w)
    unfolding writer_rounds
    writer_rounds-Explained capacity [] w before others h = ground (arith, h)
    writer_rounds-Explained capacity (r ∷ rs) w before others h = ground (
      arith,
      any_of-append k m (shared lane r.others) (others_of rs),
      writer_rounds-Explained capacity rs (writer_round strict lane capacity r w) before
          (others || any_of (covers k m) (shared lane r.others))
          (writer_round-Explained capacity r w before others h),
    )

    -- Over any rounds of a writer, the wait for an offset of a partition succeeds exactly if the table
    -- reached it at the start, or this writer has written an item that it acknowledges at that offset
    -- or above, or another writer that shares the table has acknowledged one: whatever became of the
    -- items below.
    pub caught_up_iff :
        (capacity : ℕ) (rs : List (Round V)) (queue : List (Item V)) (persisted : Offsets)
        → let after = writer_rounds strict lane capacity rs (start queue persisted) in
          caught_up ((k, m) ∷ []) after.persisted ≡ (
            caught_up ((k, m) ∷ []) persisted
            || any_of covers_item after.written
            || any_of (covers k m) (others_of rs))
    unfolding caught_up
    caught_up_iff capacity rs queue persisted = ground (
      arith,
      writer_rounds-Explained capacity rs (start queue persisted) (reached k m persisted) false
          (ground arith),
    )
