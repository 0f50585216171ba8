-- ===== src/Routing/Accounting.antt =====
-- What the counters of the router say of a batch (topic_router.py).
use auditlens.Prelude.{
  ℕ, ◌+◌, ◌≤◌, ◌≡◌, List, [], ◌∷◌, inl, inr, String, arith, Option-cases, Bool-cases, length,
}
use auditlens.Criticality.{CriticalityLevel}
use auditlens.Criticality.Methods.{MethodRules}
use auditlens.Criticality.Enrich.{Enrichment, classify_event}
use auditlens.Routing.{
  RoutingStats, RawEvent, Message, Producer, TopicRouter, RoutingResult, routed, BatchCounts,
  no_results, tally_result, update_stats, delivery_failures, produce_event, produce_copy,
  produce_both, message_of, fail, all_topic, topic_for, route_classified, route_event, route_all,
  route_batch,
}

-- The events counted for a level.
abbrev pub routed_sum : RoutingStats → ℕ
routed_sum s = s.critical_routed + s.high_routed + s.medium_routed + s.low_routed

-- The counters `s`, reached from `s₀`, against the results `c` that were returned on the way.
pub record IsBooked (s₀ s : RoutingStats) (c : BatchCounts) : Type 0 where
  pub total :
      s.total_events
      ≡ s₀.total_events + c.routed_count + c.dry_run_count + c.skipped_count + c.dropped_count
        + c.error_count
  pub dropped_eq : s.low_dropped ≡ s₀.low_dropped + c.dropped_count
  pub dry_run_eq : s.dry_run_events ≡ s₀.dry_run_events + c.dry_run_count
  pub routed_le : routed_sum s₀ + c.routed_count ≤ routed_sum s
  pub le_routed : routed_sum s ≤ routed_sum s₀ + c.routed_count + c.error_count
  pub errors_le : s₀.errors + c.error_count ≤ s.errors

-- The same while an event is under way, `n` levels credited for it so far.
record IsPending (n : ℕ) (s₀ s : RoutingStats) (c : BatchCounts) : Type 0 where
  total :
      s.total_events
      ≡ s₀.total_events + c.routed_count + c.dry_run_count + c.skipped_count + c.dropped_count
        + c.error_count + 1
  dropped_eq : s.low_dropped ≡ s₀.low_dropped + c.dropped_count
  dry_run_eq : s.dry_run_events ≡ s₀.dry_run_events + c.dry_run_count
  routed_le : routed_sum s₀ + c.routed_count + n ≤ routed_sum s
  le_routed : routed_sum s ≤ routed_sum s₀ + c.routed_count + c.error_count + n
  errors_le : s₀.errors + c.error_count ≤ s.errors

-- A call of the producer moves no counter but `errors`, and that upwards.
record OnlyErrors (s s' : RoutingStats) : Type 0 where
  total : s'.total_events ≡ s.total_events
  dropped_eq : s'.low_dropped ≡ s.low_dropped
  dry_run_eq : s'.dry_run_events ≡ s.dry_run_events
  routed_eq : routed_sum s' ≡ routed_sum s
  errors_le : s.errors ≤ s'.errors

OnlyErrors-IsPending :
    (n : ℕ) (s₀ s s' : RoutingStats) (c : BatchCounts)
    → OnlyErrors s s'
    → IsPending n s₀ s c
    → IsPending n s₀ s' c
OnlyErrors-IsPending n s₀ s s' c o h = omega arith

update_stats-IsPending :
    (level : CriticalityLevel) (s₀ s : RoutingStats) (c : BatchCounts)
    → IsPending 0 s₀ s c
    → IsPending 1 s₀ (update_stats level s) c
unfolding update_stats
update_stats-IsPending level s₀ s c h = ground arith

start-IsPending :
    (s₀ s : RoutingStats) (c : BatchCounts)
    → IsBooked s₀ s c
    → IsPending 0 s₀ (record s { total_events = s.total_events + 1 }) c
start-IsPending s₀ s c h = ground arith

module _ (p : Producer) (s₀ : RoutingStats) (c : BatchCounts) where
  produce_event-OnlyErrors :
      (m : Message) (r : TopicRouter) → OnlyErrors r.stats (produce_event p m r).0.stats
  unfolding produce_event delivery_failures
  produce_event-OnlyErrors m r = ground arith

  produce_event-IsPending :
      (n : ℕ) (m : Message) (r : TopicRouter)
      → IsPending n s₀ r.stats c
      → IsPending n s₀ (produce_event p m r).0.stats c
  produce_event-IsPending n m r h =
      OnlyErrors-IsPending n s₀ r.stats (produce_event p m r).0.stats c
        (produce_event-OnlyErrors m r) h

  abbrev Books : TopicRouter × RoutingResult → Type 0
  Books (r, result) = IsBooked s₀ r.stats (tally_result result c)

  fail-Books : (n : ℕ) (r : TopicRouter) → n ≤ 1 → IsPending n s₀ r.stats c → Books (fail p r)
  unfolding tally_result
  fail-Books n r le h = ground arith

  routed-Books : (r : TopicRouter) → IsPending 1 s₀ r.stats c → Books (r, routed)
  unfolding tally_result
  routed-Books r h = ground arith

  produce_copy-Books :
      (e : RawEvent) (level : CriticalityLevel) (enrichment : Enrichment) (r : TopicRouter)
      → IsPending 1 s₀ r.stats c
      → Books (produce_copy p e level enrichment r)
  unfolding produce_copy
  produce_copy-Books e level enrichment r h = elim (Option-cases (all_topic r.config)) [
    | inl off ↦ rw (off, produce_copy) (routed-Books r h)
    | inr (t, on) ↦
        rw (on, produce_copy)
          (let m = message_of p e level enrichment t in
            let pending = produce_event-IsPending 1 m r h in
            let r' = (produce_event p m r).0 in
            elim (Bool-cases (produce_event p m r).1) [
              | inl yes_done ↦ rw yes_done (routed-Books r' pending)
              | inr not_done ↦ rw not_done (fail-Books 1 r' (omega arith) pending)
            ])
  ]

  produce_both-Books :
      (e : RawEvent) (level : CriticalityLevel) (enrichment : Enrichment) (topic : String)
      (r : TopicRouter)
      → IsPending 0 s₀ r.stats c
      → Books (produce_both p e level enrichment topic r)
  unfolding produce_both
  produce_both-Books e level enrichment topic r h =
      let m = message_of p e level enrichment topic in
      let pending = produce_event-IsPending 0 m r h in
      let r' = (produce_event p m r).0 in
      elim (Bool-cases (produce_event p m r).1) [
        | inl yes_done ↦ rw yes_done (
            produce_copy-Books e level enrichment
              (record r' { stats = update_stats level r'.stats })
              (update_stats-IsPending level s₀ r'.stats c pending))
        | inr not_done ↦ rw not_done (fail-Books 0 r' (omega arith) pending)
      ]

  -- The change of the counters by one event, whatever its result.
  route_classified-Books :
      (e : RawEvent) (level : CriticalityLevel) (enrichment : Enrichment) (r : TopicRouter)
      → IsPending 0 s₀ r.stats c
      → Books (route_classified p e level enrichment r)
  unfolding route_classified tally_result
  route_classified-Books e level enrichment r h =
      ground (arith, produce_both-Books e level enrichment (topic_for r.config level).0 r h)

-- All results of a batch.
abbrev pub results_of : BatchCounts → ℕ
results_of c = c.routed_count + c.dry_run_count + c.skipped_count + c.dropped_count + c.error_count

results_of-tally_result :
    (result : RoutingResult) (c : BatchCounts)
    → results_of (tally_result result c) ≡ results_of c + 1
unfolding tally_result
results_of-tally_result result c = ground arith

module _ (p : Producer) (rules : MethodRules) where
  route_event-IsBooked :
      (e : RawEvent) (r : TopicRouter) (s₀ : RoutingStats) (c : BatchCounts)
      → IsBooked s₀ r.stats c
      → let (r', result) = route_event p rules e r in IsBooked s₀ r'.stats (tally_result result c)
  unfolding route_event
  route_event-IsBooked e r s₀ c h =
      let (level, enrichment) = classify_event rules e.event in
      route_classified-Books p s₀ c e level enrichment
        (record r { stats = record r.stats { total_events = r.stats.total_events + 1 } })
        (start-IsPending s₀ r.stats c h)

  route_all-IsBooked :
      (es : List RawEvent) (r : TopicRouter) (s₀ : RoutingStats) (c : BatchCounts)
      → IsBooked s₀ r.stats c
      → let (r', c') = route_all p rules es r c in IsBooked s₀ r'.stats c'
  unfolding route_all
  route_all-IsBooked [] r s₀ c h = h
  route_all-IsBooked (e ∷ es) r s₀ c h =
      let (r', result) = route_event p rules e r in
      route_all-IsBooked es r' s₀ (tally_result result c) (route_event-IsBooked e r s₀ c h)

  route_all-results_of :
      (es : List RawEvent) (r : TopicRouter) (c : BatchCounts)
      → results_of (route_all p rules es r c).1 ≡ results_of c + length es
  unfolding route_all
  route_all-results_of [] r c = omega arith
  route_all-results_of (e ∷ es) r c =
      let (r', result) = route_event p rules e r in
      omega (
        arith,
        route_all-results_of es r' (tally_result result c),
        results_of-tally_result result c,
      )

  -- After a batch, whatever the producer does: every event has one result, and the results add up
  -- to the events counted; the dropped and the dry-run counters grew by exactly the results of that
  -- kind; the counters of the levels grew by at least the routed results and by at most these and
  -- the errors (an event whose copy for the topic of all events fails is counted for its level and
  -- is an error); and `errors` grew by at least the error results.
  pub route_batch-IsBooked :
      (flushed : ℕ) (es : List RawEvent) (r : TopicRouter)
      → let (r', c) = route_batch p rules flushed es r in
        IsBooked r.stats r'.stats c × (results_of c ≡ length es)
  unfolding route_batch delivery_failures
  route_batch-IsBooked flushed es r =
      let booked = route_all-IsBooked es r r.stats no_results (omega arith) in
      let counted = route_all-results_of es r no_results in
      let r' = (route_all p rules es r no_results).0 in
      elim (Bool-cases r'.config.dry_run) [
        | inl dry ↦ rw dry (booked, omega arith)
        | inr live ↦ rw live (omega arith, omega arith)
      ]
