-- ===== src/Denials/Alerts.antt =====
-- What a flush reports (denial_aggregator.py).
use auditlens.Prelude.{
  ℕ, ◌+◌, ◌≤◌, ◌<◌, ◌≡◌, refl, sym, ap, ap₂, ◌∙◌, subst, Bool, true, false, List, [], ◌∷◌, ◌++◌,
  arith, All, ◌==◌, if◌then◌else◌,
}
use auditlens.Prelude.Eq.{string_eq, pair_eq}
use auditlens.Criticality.{low, AuditEvent, calculate_criticality}
use auditlens.Criticality.Levels.{denied_check_low}
use auditlens.Criticality.Methods.{MethodRules}
use auditlens.Routing.{queued, buffer_full}
use auditlens.Denials.{
  AggregatorConfig, DenialEvent, DenialBucket, BucketKey, Buckets, should_aggregate,
  AggregatedDenialAlert, create_alert, DenialAggregator,
}
use auditlens.Denials.Flush.{
  Sinks, produce, retry_alert, notify, produce_high, produce_alert, flush_buckets,
  flush_all_buckets,
}
use auditlens.Denials.Buckets.{add_all, weigh, count_events, add_all-config, add_all-weigh}
use auditlens.Denials.Bounds.{key_of, IsFiled, add_all-IsFiled}

-- The denials that the alerts of the chosen keys report.
abbrev pub weigh_alerts : (BucketKey → Bool) → List AggregatedDenialAlert → ℕ
weigh_alerts p [] = 0
weigh_alerts p (x ∷ xs) =
    (if p (key_of x.bucket) then x.bucket.denial_count else 0) + weigh_alerts p xs

-- An alert is HIGH exactly when its count reaches the threshold.
abbrev pub IsGraded : ℕ → AggregatedDenialAlert → Type 0
IsGraded threshold x =
    ((threshold ≤ x.bucket.denial_count) → (x.threshold_exceeded ≡ true) × (x.criticality ≡ "HIGH"))
    × ((x.bucket.denial_count < threshold)
        → (x.threshold_exceeded ≡ false) × (x.criticality ≡ "MEDIUM"))

create_alert-IsGraded :
    (c : AggregatorConfig) (now : ℕ) (b : DenialBucket) (t : ℕ)
    → c.high_threshold ≡ t
    → IsGraded t (create_alert c now b)
unfolding create_alert
create_alert-IsGraded c now b t h =
    (λ le. (ground arith, ground arith), λ lt. (ground arith, ground arith))

module _ (sinks : Sinks) where
  produce_alert-config :
      (x : AggregatedDenialAlert) (a : DenialAggregator)
      → (produce_alert sinks x a).config ≡ a.config
  unfolding produce_alert produce_high retry_alert notify produce
  produce_alert-config x a = ground arith

  produce_alert-buckets :
      (x : AggregatedDenialAlert) (a : DenialAggregator)
      → (produce_alert sinks x a).buckets ≡ a.buckets
  unfolding produce_alert produce_high retry_alert notify produce
  produce_alert-buckets x a = ground arith

  -- One round, for a bucket that is not empty.
  flush_buckets-cons :
      (now : ℕ) (k : BucketKey) (b : DenialBucket) (bs : Buckets) (a : DenialAggregator)
      → 1 ≤ b.denial_count
      → flush_buckets sinks now ((k, b) ∷ bs) a ≡ (
        (flush_buckets sinks now bs (produce_alert sinks (create_alert a.config now b) a)).0,
        create_alert a.config now b
            ∷ (flush_buckets sinks now bs (produce_alert sinks (create_alert a.config now b) a)).1,
      )
  unfolding flush_buckets
  flush_buckets-cons now k b bs a h = rw (positive b.denial_count h) refl
    where
      positive : (n : ℕ) → 1 ≤ n → (n == 0) ≡ false
      positive n h = ground arith

  module _ (c : AggregatorConfig) (now : ℕ) where
    flush_buckets-weigh :
        (p : BucketKey → Bool) (bs : Buckets) (a : DenialAggregator)
        → All (IsFiled c) bs
        → weigh_alerts p (flush_buckets sinks now bs a).1 ≡ weigh p bs
    unfolding flush_buckets create_alert
    flush_buckets-weigh p [] a h = refl
    flush_buckets-weigh p ((k, b) ∷ bs) a h =
        let x = create_alert a.config now b in
        ap (λ r. weigh_alerts p r.1) (flush_buckets-cons now k b bs a h.0.1)
        ∙ ap₂ (λ j n. (if p j then b.denial_count else 0) + n) h.0.0.0
            (flush_buckets-weigh p bs (produce_alert sinks x a) h.1)

    flush_buckets-IsGraded :
        (t : ℕ) (bs : Buckets) (a : DenialAggregator)
        → All (IsFiled c) bs
        → a.config.high_threshold ≡ t
        → All (IsGraded t) (flush_buckets sinks now bs a).1
    unfolding flush_buckets
    flush_buckets-IsGraded t [] a h ht = tt
    flush_buckets-IsGraded t ((k, b) ∷ bs) a h ht =
        let x = create_alert a.config now b in
        subst (λ r. All (IsGraded t) r.1) (sym (flush_buckets-cons now k b bs a h.0.1))
          (
            create_alert-IsGraded a.config now b t ht,
            flush_buckets-IsGraded t bs (produce_alert sinks x a) h.1
                (ap (λ c. c.high_threshold) (produce_alert-config x a) ∙ ht),
          )

    flush_buckets-buckets :
        (bs : Buckets) (a : DenialAggregator)
        → All (IsFiled c) bs
        → (flush_buckets sinks now bs a).0.buckets ≡ a.buckets
    unfolding flush_buckets
    flush_buckets-buckets [] a h = refl
    flush_buckets-buckets ((k, b) ∷ bs) a h =
        let x = create_alert a.config now b in
        ap (λ r. r.0.buckets) (flush_buckets-cons now k b bs a h.0.1)
        ∙ flush_buckets-buckets bs (produce_alert sinks x a) h.1
        ∙ produce_alert-buckets x a

flush_all_buckets-alerts :
    (sinks : Sinks) (now : ℕ) (a : DenialAggregator)
    → ((flush_all_buckets sinks now a).1
        ≡ (flush_buckets sinks now a.buckets (record a { buckets = [] })).1)
      × ((flush_all_buckets sinks now a).0.buckets
          ≡ (flush_buckets sinks now a.buckets (record a { buckets = [] })).0.buckets)
unfolding flush_all_buckets
flush_all_buckets-alerts sinks now a = (refl, ground arith)

-- What the aggregator starts with.
abbrev pub new_aggregator : AggregatorConfig → DenialAggregator
new_aggregator c = record {
  config = c;
  buckets = [];
  stats = record {
    events_aggregated = 0;
    alerts_produced = 0;
    high_alerts = 0;
    medium_alerts = 0;
    flush_count = 0;
    delivery_errors = 0;
  };
  calls = 0;
  produced = [];
  webhooks = [];
}

module _ (sinks : Sinks) (c : AggregatorConfig) (now : ℕ) (es : List (ℕ × DenialEvent)) where
  -- Whatever is produced or fails, a flush after any sequence of events of an enabled aggregator
  -- makes alerts that report, for any choice of keys, exactly the events with such a key, and it
  -- leaves no bucket behind.
  pub flush-reports :
      (p : BucketKey → Bool)
      → c.enabled ≡ true
      → (weigh_alerts p (flush_all_buckets sinks now (add_all es (new_aggregator c))).1
          ≡ count_events p es)
        × ((flush_all_buckets sinks now (add_all es (new_aggregator c))).0.buckets ≡ [])
  flush-reports p on =
      let a = add_all es (new_aggregator c) in
      let filed = add_all-IsFiled es (new_aggregator c) tt in
      let (alerts, rest) = flush_all_buckets-alerts sinks now a in
      (
        omega (
          arith,
          ap (weigh_alerts p) alerts,
          flush_buckets-weigh sinks a.config now p a.buckets (record a { buckets = [] }) filed,
          add_all-weigh p es (new_aggregator c) on,
        ),
        rest ∙ flush_buckets-buckets sinks a.config now a.buckets (record a { buckets = [] }) filed,
      )

  -- Each alert of a flush after any sequence of events is HIGH if its count reaches the configured
  -- threshold, and MEDIUM if not.
  pub flush-IsGraded :
      All
        (IsGraded c.high_threshold)
        (flush_all_buckets sinks now (add_all es (new_aggregator c))).1
  flush-IsGraded =
      let a = add_all es (new_aggregator c) in
      let filed = add_all-IsFiled es (new_aggregator c) tt in
      subst (All (IsGraded c.high_threshold)) (sym (flush_all_buckets-alerts sinks now a).0) (
        flush_buckets-IsGraded sinks a.config now c.high_threshold a.buckets
          (record a { buckets = [] }) filed
          (ap (λ d. d.high_threshold) (add_all-config es (new_aggregator c))))

-- An event that is taken out for aggregation is one that the classification finds LOW, and a
-- candidate for a signal.
pub should_aggregate-low :
    (c : AggregatorConfig) (rules : MethodRules) (e : AuditEvent)
    → should_aggregate c rules e ≡ true
    → ((calculate_criticality rules e).criticality ≡ low)
      × ((calculate_criticality rules e).is_signal_candidate ≡ true)
unfolding should_aggregate
should_aggregate-low c rules e h =
    denied_check_low rules e (ground arith) (ground arith) (ground arith)

-- Outside dry-run mode, when the queue takes the summary of a HIGH alert, is full at the copy for
-- the topic of alerts, and takes the record of the retry, the summary is produced twice and counted
-- twice, and the copy is not produced.
pub full_queue-loses_copy :
    (sinks : Sinks) (x : AggregatedDenialAlert) (a : DenialAggregator)
    → a.config.dry_run ≡ false
    → sinks.has_producer ≡ true
    → x.threshold_exceeded ≡ true
    → sinks.producer.attempt a.calls ≡ queued
    → sinks.producer.attempt (a.calls + 1) ≡ buffer_full
    → sinks.producer.attempt (a.calls + 1 + 1) ≡ queued
    → ((produce_alert sinks x a).produced
        ≡ a.produced ++ (a.config.signals_topic, x) ∷ [] ++ (a.config.signals_topic, x) ∷ [])
      × ((produce_alert sinks x a).stats.alerts_produced ≡ a.stats.alerts_produced + 2)
unfolding produce_alert produce_high retry_alert notify produce
full_queue-loses_copy sinks x a dry has high first second third = (ground arith, ground arith)
