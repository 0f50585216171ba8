-- ===== src/Forwarder/Writers/Accounting.antt =====
-- No writer loses count of an item (audit_forwarder.py).
use auditlens.Prelude.{
  ℕ, ◌+◌, ◌≡◌, Bool, true, false, List, [], ◌∷◌, ◌++◌, arith, take, drop, if◌then◌else◌, zero, suc,
}
use auditlens.Forwarder.ShortCircuit.{record_persisted}
use auditlens.Forwarder.Writers.{
  LaneName, shared, Item, Writer, Round, tried_again, requeue_item, requeue_or_dlq, wrote,
  writer_round, writer_rounds,
}

module _ {V : Type 0} (p : V → Bool) where
  -- The items of a kind in a list.
  abbrev pub weigh : List (Item V) → ℕ
  weigh [] = 0
  weigh (item ∷ items) = (if p item.payload then 1 else 0) + weigh items

  weigh-append : (xs ys : List (Item V)) → weigh (xs ++ ys) ≡ weigh xs + weigh ys
  weigh-append [] ys = omega arith
  weigh-append (x ∷ xs) ys = omega (arith, weigh-append xs ys)

  weigh-take-drop : (n : ℕ) (xs : List (Item V)) → weigh (take n xs) + weigh (drop n xs) ≡ weigh xs
  weigh-take-drop zero xs = omega arith
  weigh-take-drop (suc n) [] = omega arith
  weigh-take-drop (suc n) (x ∷ xs) = omega (arith, weigh-take-drop n xs)

  -- The items of a kind wherever they are.
  abbrev pub total : Writer V → ℕ
  total w = weigh w.queue + weigh w.written + weigh w.dlq + weigh w.dropped

  -- The items of a kind that come in.
  abbrev pub incoming : List (Round V) → ℕ
  incoming [] = 0
  incoming (r ∷ rs) = weigh r.arrivals + incoming rs

  total-requeue_item :
      (capacity : ℕ) (item : Item V) (w : Writer V)
      → total (requeue_item capacity item w) ≡ total w + weigh (item ∷ [])
  unfolding requeue_item
  total-requeue_item capacity item w = ground (
    arith,
    weigh-append w.dlq (item ∷ []),
    weigh-append w.queue (tried_again item ∷ []),
    weigh-append w.dropped (tried_again item ∷ []),
  )

  total-requeue_or_dlq :
      (capacity : ℕ) (items : List (Item V)) (w : Writer V)
      → total (requeue_or_dlq capacity items w) ≡ total w + weigh items
  unfolding requeue_or_dlq
  total-requeue_or_dlq capacity [] w = omega arith
  total-requeue_or_dlq capacity (item ∷ items) w = omega (
    arith,
    total-requeue_item capacity item w,
    total-requeue_or_dlq capacity items (requeue_item capacity item w),
  )

  total-writer_round :
      (strict : Bool) (lane : LaneName) (capacity : ℕ) (r : Round V) (w : Writer V)
      → total (writer_round strict lane capacity r w) ≡ total w + weigh r.arrivals
  unfolding writer_round
  total-writer_round strict lane capacity r w = split r.success
    where
      drained : Writer V
      drained = record w {
        queue = drop r.taken w.queue ++ r.arrivals;
        persisted = record_persisted (shared lane r.others) w.persisted;
      }

      split :
          (success : Bool)
          → total (
              if success
              then wrote strict lane (take r.taken w.queue) drained
              else requeue_or_dlq capacity (take r.taken w.queue) drained)
            ≡ total w + weigh r.arrivals
      split true = omega (
        arith,
        weigh-append w.written (take r.taken w.queue),
        weigh-append (drop r.taken w.queue) r.arrivals,
        weigh-take-drop r.taken w.queue,
      )
      split false = omega (
        arith,
        total-requeue_or_dlq capacity (take r.taken w.queue) drained,
        weigh-append (drop r.taken w.queue) r.arrivals,
        weigh-take-drop r.taken w.queue,
      )

  -- Whatever writes fail and however full the queue gets, the items of any kind that were there or
  -- came in are those still queued, those written, those handed to the dead-letter queue and those
  -- dropped: none is lost otherwise and none is there twice.
  pub total-writer_rounds :
      (strict : Bool) (lane : LaneName) (capacity : ℕ) (rs : List (Round V)) (w : Writer V)
      → total (writer_rounds strict lane capacity rs w) ≡ total w + incoming rs
  unfolding writer_rounds
  total-writer_rounds strict lane capacity [] w = omega arith
  total-writer_rounds strict lane capacity (r ∷ rs) w = omega (
    arith,
    total-writer_round strict lane capacity r w,
    total-writer_rounds strict lane capacity rs (writer_round strict lane capacity r w),
  )
