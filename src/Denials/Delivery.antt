-- ===== src/Denials/Delivery.antt =====
-- What a flush produces when the producer takes every record (denial_aggregator.py).
use auditlens.Prelude.{
  ℕ, ◌+◌, ◌≡◌, refl, sym, ap, ap₂, ◌∙◌, Bool, true, false, List, [], ◌∷◌, ◌++◌, String, arith,
  length, ◌==◌, if◌then◌else◌,
}
use mathlib.Core.List.{append-nil, append_assoc}
use auditlens.Routing.{queued}
use auditlens.Denials.{
  AggregatorConfig, Buckets, AggregatedDenialAlert, create_alert, DenialAggregator,
}
use auditlens.Denials.Flush.{
  Sinks, produce, notify, produce_high, produce_alert, flush_buckets, flush_all_buckets,
}

-- A summary, followed by a copy for the topic of alerts if the alert is HIGH.
abbrev pub records_for :
    AggregatorConfig → AggregatedDenialAlert → List (String × AggregatedDenialAlert)
records_for c x =
    (c.signals_topic, x) ∷ (if x.threshold_exceeded then (c.alerts_topic, x) ∷ [] else [])

abbrev pub records_of :
    AggregatorConfig → List AggregatedDenialAlert → List (String × AggregatedDenialAlert)
records_of c [] = []
records_of c (x ∷ xs) = records_for c x ++ records_of c xs

-- Nothing fails: there is a producer that takes every record, and the callback returns.
pub record Works (sinks : Sinks) : Type 0 where
  pub takes_all : (n : ℕ) → sinks.producer.attempt n ≡ queued
  pub present : sinks.has_producer ≡ true
  pub returns : (x : AggregatedDenialAlert) → sinks.callback_raises x ≡ false

-- What a flush leaves for the records, the count of alerts and the errors.
pub record Delivers (a a' : DenialAggregator) (xs : List AggregatedDenialAlert) : Type 0 where
  pub records : a'.produced ≡ a.produced ++ records_of a.config xs
  pub counted : a'.stats.alerts_produced ≡ a.stats.alerts_produced + length xs
  pub no_error : a'.stats.delivery_errors ≡ a.stats.delivery_errors
  pub same_config : a'.config ≡ a.config

none-Delivers : (a : DenialAggregator) → Delivers a a []
none-Delivers a = record {
  records = sym (append-nil a.produced);
  counted = omega arith;
  no_error = refl;
  same_config = refl;
}

cons-Delivers :
    (a b c : DenialAggregator) (x : AggregatedDenialAlert) (xs : List AggregatedDenialAlert)
    → Delivers a b (x ∷ [])
    → Delivers b c xs
    → Delivers a c (x ∷ xs)
cons-Delivers a b c x xs h k = record {
  records =
      k.records
      ∙ ap₂ (λ r d. r ++ records_of d xs) h.records h.same_config
      ∙ append_assoc a.produced (records_of a.config (x ∷ [])) (records_of a.config xs)
      ∙ nil_out (records_for a.config x) (append-nil (records_for a.config x));
  counted = omega (arith, h.counted, k.counted);
  no_error = k.no_error ∙ h.no_error;
  same_config = k.same_config ∙ h.same_config;
}
  where
    nil_out :
        (r : List (String × AggregatedDenialAlert))
        → r ++ [] ≡ r
        → a.produced ++ (r ++ [] ++ records_of a.config xs)
          ≡ a.produced ++ (r ++ records_of a.config xs)
    nil_out r h = ap (λ q. a.produced ++ (q ++ records_of a.config xs)) h

module _ (sinks : Sinks) (works : Works sinks) where
  produce_alert-Delivers :
      (x : AggregatedDenialAlert) (a : DenialAggregator)
      → a.config.dry_run ≡ false
      → Delivers a (produce_alert sinks x a) (x ∷ [])
  unfolding produce_alert produce_high notify produce
  produce_alert-Delivers x a dry =
      let q₁ = works.takes_all a.calls in
      let q₂ = works.takes_all (a.calls + 1) in
      let p = works.present in
      let r = works.returns x in
      record {
        records = ground (
          arith,
          q₁,
          q₂,
          p,
          r,
          append_assoc a.produced ((a.config.signals_topic, x) ∷ [])
              ((a.config.alerts_topic, x) ∷ []),
        );
        counted = ground (arith, q₁, q₂, p, r);
        no_error = ground (arith, q₁, q₂, p, r);
        same_config = ground (arith, q₁, q₂, p, r);
      }

  flush_buckets-Delivers :
      (now : ℕ) (bs : Buckets) (a : DenialAggregator)
      → a.config.dry_run ≡ false
      → Delivers a (flush_buckets sinks now bs a).0 (flush_buckets sinks now bs a).1
  unfolding flush_buckets
  flush_buckets-Delivers now [] a dry = none-Delivers a
  flush_buckets-Delivers now ((k, b) ∷ bs) a dry =
      let x = create_alert a.config now b in
      let a₁ = produce_alert sinks x a in
      let here = produce_alert-Delivers x a dry in
      pick (b.denial_count == 0) (flush_buckets-Delivers now bs a dry) (
        cons-Delivers a a₁ _ x _ here
          (flush_buckets-Delivers now bs a₁ (ap (λ c. c.dry_run) here.same_config ∙ dry)))
    where
      pick :
          (z : Bool)
          → Delivers a (flush_buckets sinks now bs a).0 (flush_buckets sinks now bs a).1
          → Delivers a
              (flush_buckets sinks now bs (produce_alert sinks (create_alert a.config now b) a)).0
              (create_alert a.config now b
                ∷ (flush_buckets sinks now bs
                    (produce_alert sinks (create_alert a.config now b) a)).1)
          → Delivers a
              (flush_buckets sinks now bs
                (if z then a else produce_alert sinks (create_alert a.config now b) a)).0
              (if z
                then (flush_buckets sinks now bs
                    (if z then a else produce_alert sinks (create_alert a.config now b) a)).1
                else create_alert a.config now b
                  ∷ (flush_buckets sinks now bs
                      (if z then a else produce_alert sinks (create_alert a.config now b) a)).1)
      pick true skip made = skip
      pick false skip made = made

  -- With a producer that takes every record and outside dry-run mode, a flush produces a summary of
  -- each alert, and after it a copy for the topic of alerts where the alert is HIGH, in the order of
  -- the buckets; it counts every alert as produced and books no error.
  pub flush-Delivers :
      (now : ℕ) (a : DenialAggregator)
      → a.config.dry_run ≡ false
      → Delivers a (flush_all_buckets sinks now a).0 (flush_all_buckets sinks now a).1
  unfolding flush_all_buckets
  flush-Delivers now a dry =
      let d = flush_buckets-Delivers now a.buckets (record a { buckets = [] }) dry in
      record {
        records = ground (arith, d.records);
        counted = ground (arith, d.counted);
        no_error = ground (arith, d.no_error);
        same_config = ground (arith, d.same_config);
      }
