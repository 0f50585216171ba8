-- ===== src/Denials/Flush.antt =====
-- `_flush_all_buckets` and `_produce_alert` of denial_aggregator.py. The producer of
-- Routing is outside, and so is the callback, of which it matters whether it raises.
use auditlens.Prelude.{ℕ, ◌+◌, Bool, not, ◌&&◌, List, [], ◌∷◌, ◌++◌, String, ◌==◌, if◌then◌else◌}
use auditlens.Routing.{Producer, Attempt, queued, buffer_full, raises}
use auditlens.Denials.{Buckets, AggregatedDenialAlert, create_alert, DenialAggregator}

pub record Sinks : Type 0 where
  pub producer : Producer
  pub has_producer : Bool
  pub has_webhook : Bool
  pub callback_raises : AggregatedDenialAlert → Bool

abbrev count_alert : DenialAggregator → DenialAggregator
count_alert a = record a {
  stats = record a.stats { alerts_produced = a.stats.alerts_produced + 1 };
}

abbrev count_error : ℕ → DenialAggregator → DenialAggregator
count_error n a = record a {
  stats = record a.stats { delivery_errors = a.stats.delivery_errors + n };
}

module _ (sinks : Sinks) where
  -- One call of `produce`, and how it ended.
  unfoldable pub produce :
      String → AggregatedDenialAlert → DenialAggregator → DenialAggregator × Attempt
  produce topic alert a =
      let called = record a { calls = a.calls + 1 } in
      elim (sinks.producer.attempt a.calls) [
        | queued ↦ (record called { produced = a.produced ++ (topic, alert) ∷ [] }, queued)
        | buffer_full ↦ (called, buffer_full)
        | raises ↦ (called, raises)
      ]

  -- the handler of `BufferError`: a poll, which reports failed deliveries, and one more try
  unfoldable pub retry_alert : AggregatedDenialAlert → DenialAggregator → DenialAggregator
  unfolding produce
  retry_alert alert a =
      let polled = count_error (sinks.producer.reported a.calls) a in
      let (a', end) = produce a.config.signals_topic alert polled in
      elim end [
        | queued ↦ count_alert a'
        | buffer_full ↦ count_error 1 a'
        | raises ↦ count_error 1 a'
      ]

  -- the callback and the webhook
  unfoldable pub notify : AggregatedDenialAlert → DenialAggregator → DenialAggregator
  notify alert a =
      if sinks.callback_raises alert
      then count_error 1 a
      else if alert.threshold_exceeded && sinks.has_webhook
      then record a { webhooks = a.webhooks ++ alert ∷ [] }
      else a

  -- the copy of a HIGH alert for the topic of alerts
  unfoldable pub produce_high : AggregatedDenialAlert → DenialAggregator → DenialAggregator
  unfolding produce
  produce_high alert a =
      let (a', end) = produce a.config.alerts_topic alert a in
      elim end [
        | queued ↦ notify alert a'
        | buffer_full ↦ retry_alert alert a'
        | raises ↦ count_error 1 a'
      ]

  -- `_produce_alert`
  unfoldable pub produce_alert : AggregatedDenialAlert → DenialAggregator → DenialAggregator
  unfolding produce
  produce_alert alert a =
      let (a', end) = produce a.config.signals_topic alert a in
      let done = count_alert a' in
      if a.config.dry_run then count_alert a else if not sinks.has_producer then a else elim end [
        | queued ↦ if alert.threshold_exceeded then produce_high alert done else notify alert done
        | buffer_full ↦ retry_alert alert a'
        | raises ↦ count_error 1 a'
      ]

  -- The loop over the buckets, with the alerts made so far.
  unfoldable pub flush_buckets :
      ℕ → Buckets → DenialAggregator → DenialAggregator × List AggregatedDenialAlert
  flush_buckets window_end [] a = (a, [])
  flush_buckets window_end ((_, b) ∷ bs) a =
      let alert = create_alert a.config window_end b in
      let next = if b.denial_count == 0 then a else produce_alert alert a in
      let (a', alerts) = flush_buckets window_end bs next in
      (a', if b.denial_count == 0 then alerts else alert ∷ alerts)

abbrev pub count_high : List AggregatedDenialAlert → ℕ
count_high [] = 0
count_high (x ∷ xs) = let rest = count_high xs in if x.threshold_exceeded then rest + 1 else rest

abbrev pub count_medium : List AggregatedDenialAlert → ℕ
count_medium [] = 0
count_medium (x ∷ xs) =
    let rest = count_medium xs in if x.threshold_exceeded then rest else rest + 1

-- `_flush_all_buckets`; the alerts are returned too
unfoldable pub flush_all_buckets :
    Sinks → ℕ → DenialAggregator → DenialAggregator × List AggregatedDenialAlert
flush_all_buckets sinks window_end a =
    let (a', alerts) = flush_buckets sinks window_end a.buckets (record a { buckets = [] }) in
    let high = count_high alerts in
    let medium = count_medium alerts in
    let counted = record a' {
      stats = record a'.stats {
        flush_count = a'.stats.flush_count + 1;
        high_alerts = a'.stats.high_alerts + high;
        medium_alerts = a'.stats.medium_alerts + medium;
      };
    } in
    (if high + medium == 0 then a' else counted, alerts)
