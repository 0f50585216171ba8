-- ===== src/Forwarder/Writers/Passed.antt =====
-- What the writers give up (audit_forwarder.py).
use mathlib.Core.List.{append-nil, append_assoc}
use auditlens.Prelude.{
  ℕ, ◌+◌, ◌≤◌, ◌<◌, ◌≡◌, refl, sym, ap, ◌∙◌, Bool, true, false, List, [], ◌∷◌, ◌++◌, arith, All,
  All-append, length, take, drop, map, ltb, if◌then◌else◌, zero, suc,
}
use auditlens.Prelude.Eq.{number_eq, string_eq, pair_eq}
use auditlens.Forwarder.ShortCircuit.{record_persisted}
use auditlens.Forwarder.Writers.{
  LaneName, shared, Item, Writer, Round, tried_again, requeue_item, requeue_or_dlq, wrote,
  writer_round, writer_rounds,
}

module _ {V : Type 0} where
  -- The counts of retries in a writer.
  pub record IsTried (w : Writer V) : Type 0 where
    pub in_queue : All (λ i. i.retry_count ≤ 3) w.queue
    pub in_dlq : All (λ i. i.retry_count ≡ 3) w.dlq
    pub in_dropped : All (λ i. (1 ≤ i.retry_count) × (i.retry_count ≤ 3)) w.dropped

  requeue_item-IsTried :
      (capacity : ℕ) (item : Item V) (w : Writer V)
      → item.retry_count ≤ 3
      → IsTried w
      → IsTried (requeue_item capacity item w)
  unfolding requeue_item
  requeue_item-IsTried capacity item w h t =
      put (ltb 3 (item.retry_count + 1)) (ltb (length w.queue) capacity) spent-eq unspent-le
    where
      spent-eq : ltb 3 (item.retry_count + 1) ≡ true → item.retry_count ≡ 3
      spent-eq e = ground (arith, e, h)

      unspent-le : ltb 3 (item.retry_count + 1) ≡ false → item.retry_count + 1 ≤ 3
      unspent-le e = ground (arith, e)

      put :
          (spent room : Bool)
          → (spent ≡ true → item.retry_count ≡ 3)
          → (spent ≡ false → item.retry_count + 1 ≤ 3)
          → IsTried (
              if spent
              then record w { dlq = w.dlq ++ item ∷ [] }
              else if room
              then record w { queue = w.queue ++ tried_again item ∷ [] }
              else record w { dropped = w.dropped ++ tried_again item ∷ [] })
      put true room e f = record {
        in_queue = t.in_queue;
        in_dlq = All-append (λ i. i.retry_count ≡ 3) w.dlq (item ∷ []) t.in_dlq (e refl, tt);
        in_dropped = t.in_dropped;
      }
      put false true e f = record {
        in_queue =
            All-append (λ i. i.retry_count ≤ 3) w.queue (tried_again item ∷ []) t.in_queue
              (f refl, tt);
        in_dlq = t.in_dlq;
        in_dropped = t.in_dropped;
      }
      put false false e f = record {
        in_queue = t.in_queue;
        in_dlq = t.in_dlq;
        in_dropped =
            All-append (λ i. (1 ≤ i.retry_count) × (i.retry_count ≤ 3)) w.dropped
              (tried_again item ∷ []) t.in_dropped ((omega arith, f refl), tt);
      }

  All-take : (P : Item V → Type 0) (n : ℕ) (xs : List (Item V)) → All P xs → All P (take n xs)
  All-take P zero xs h = tt
  All-take P (suc n) [] h = tt
  All-take P (suc n) (x ∷ xs) h = (h.0, All-take P n xs h.1)

  All-drop : (P : Item V → Type 0) (n : ℕ) (xs : List (Item V)) → All P xs → All P (drop n xs)
  All-drop P zero xs h = h
  All-drop P (suc n) [] h = tt
  All-drop P (suc n) (x ∷ xs) h = All-drop P n xs h.1

  requeue_or_dlq-IsTried :
      (capacity : ℕ) (items : List (Item V)) (w : Writer V)
      → All (λ i. i.retry_count ≤ 3) items
      → IsTried w
      → IsTried (requeue_or_dlq capacity items w)
  unfolding requeue_or_dlq
  requeue_or_dlq-IsTried capacity [] w h t = t
  requeue_or_dlq-IsTried capacity (item ∷ items) w h t =
      requeue_or_dlq-IsTried capacity items (requeue_item capacity item w) h.1
        (requeue_item-IsTried capacity item w h.0 t)

  -- Items come in with three retries at most; new ones have none.
  abbrev pub IsFresh : Round V → Type 0
  IsFresh r = All (λ i. i.retry_count ≤ 3) r.arrivals

  writer_round-IsTried :
      (strict : Bool) (lane : LaneName) (capacity : ℕ) (r : Round V) (w : Writer V)
      → IsFresh r
      → IsTried w
      → IsTried (writer_round strict lane capacity r w)
  unfolding writer_round
  writer_round-IsTried strict lane capacity r w h t = split r.success
    where
      drained : Writer V
      drained = record w {
        queue = drop r.taken w.queue ++ r.arrivals;
        persisted = record_persisted (shared lane r.others) w.persisted;
      }

      drained-IsTried : IsTried drained
      drained-IsTried = record {
        in_queue =
            All-append (λ i. i.retry_count ≤ 3) (drop r.taken w.queue) r.arrivals
              (All-drop (λ i. i.retry_count ≤ 3) r.taken w.queue t.in_queue) h;
        in_dlq = t.in_dlq;
        in_dropped = t.in_dropped;
      }

      split :
          (success : Bool)
          → IsTried (
              if success
              then wrote strict lane (take r.taken w.queue) drained
              else requeue_or_dlq capacity (take r.taken w.queue) drained)
      split true = record {
        in_queue = drained-IsTried.in_queue;
        in_dlq = t.in_dlq;
        in_dropped = t.in_dropped;
      }
      split false =
          requeue_or_dlq-IsTried capacity (take r.taken w.queue) drained
            (All-take (λ i. i.retry_count ≤ 3) r.taken w.queue t.in_queue) drained-IsTried

  -- When no item had more than three retries as it came in, whatever writes fail: every item in the
  -- dead-letter queue had been retried three times before the write that failed last, its fourth, and
  -- every item that was dropped because the queue was full had failed one to three times; an item in
  -- the queue has been retried three times at most.
  pub writer_rounds-IsTried :
      (strict : Bool) (lane : LaneName) (capacity : ℕ) (rs : List (Round V)) (w : Writer V)
      → All IsFresh rs
      → IsTried w
      → IsTried (writer_rounds strict lane capacity rs w)
  unfolding writer_rounds
  writer_rounds-IsTried strict lane capacity [] w h t = t
  writer_rounds-IsTried strict lane capacity (r ∷ rs) w h t =
      writer_rounds-IsTried strict lane capacity rs (writer_round strict lane capacity r w) h.1
        (writer_round-IsTried strict lane capacity r w h.0 t)

  -- When the queue is full, a failed batch whose items have retries left is dropped as a whole, and
  -- nothing of it goes to the dead-letter queue.
  pub requeue_or_dlq_full :
      (capacity : ℕ) (items : List (Item V)) (w : Writer V)
      → capacity ≤ length w.queue
      → All (λ i. i.retry_count < 3) items
      → requeue_or_dlq capacity items w ≡ record w { dropped = w.dropped ++ map tried_again items }
  unfolding requeue_or_dlq requeue_item
  requeue_or_dlq_full capacity [] w full h =
      ap (λ d. record w { dropped = d }) (sym (append-nil w.dropped))
  requeue_or_dlq_full capacity (item ∷ items) w full h =
      rw (spent, free)
        (requeue_or_dlq_full capacity items
            (record w { dropped = w.dropped ++ tried_again item ∷ [] }) full h.1
          ∙ ap (λ d. record w { dropped = d })
              (append_assoc w.dropped (tried_again item ∷ []) (map tried_again items)))
    where
      spent : ltb 3 (item.retry_count + 1) ≡ false
      spent = ground (arith, h.0)

      free : ltb (length w.queue) capacity ≡ false
      free = ground (arith, full)
