-- ===== src/Signals/Tiers.antt =====
-- Which reasons come with which tier, through every stage of the cascade (event_signals.py).
use auditlens.Prelude.{◌≡◌, Bool, true, false, Option, none, some, arith}
use auditlens.Signals.{
  SignalType, action_required, attention, informational, noise, SignalReason, failure_detected,
  denied_access, destructive_change, security_sensitive_change, privilege_escalation,
  ip_filter_deny, flink_job_failure, flink_job_lifecycle, rtce_destructive_change, rtce_read,
  rtce_config_changed, auth_noise, authorization_check, internal_topic, platform_automation,
  access_changed, config_changed, schema_incompatible, read_only_lookup, operational_event, unknown,
  Signal, Event,
}
use auditlens.Signals.Core.{
  Facts, facts_of, ◌or_then◌, denied_stage, noise_stage, rtce_stage, flink_stage, read_stage,
  failure_stage, escalation_stage,
}
use auditlens.Signals.Cascade.{
  destructive_stage, change_stage, watched_stage, quiet_stage, change_cascade, cascade,
  classify_signal_core,
}
use auditlens.Signals.Classify.{OverrideTests, override_tests, apply_overrides, classify_signal}

-- The tier of each reason. `security_sensitive_change` is a reason in two tiers.
abbrev pub tier_of : SignalReason → Option SignalType
tier_of security_sensitive_change = none
tier_of failure_detected = some action_required
tier_of denied_access = some action_required
tier_of destructive_change = some action_required
tier_of privilege_escalation = some action_required
tier_of ip_filter_deny = some action_required
tier_of flink_job_failure = some action_required
tier_of rtce_destructive_change = some action_required
tier_of flink_job_lifecycle = some attention
tier_of rtce_config_changed = some attention
tier_of access_changed = some attention
tier_of config_changed = some attention
tier_of schema_incompatible = some attention
tier_of auth_noise = some noise
tier_of authorization_check = some noise
tier_of internal_topic = some noise
tier_of rtce_read = some informational
tier_of platform_automation = some informational
tier_of read_only_lookup = some informational
tier_of operational_event = some informational
tier_of unknown = some informational

abbrev two_tiers : SignalType → Bool
two_tiers action_required = true
two_tiers attention = true
two_tiers _ = false

abbrev pub same_type : SignalType → SignalType → Bool
same_type action_required action_required = true
same_type attention attention = true
same_type informational informational = true
same_type noise noise = true
same_type _ _ = false

-- The tier fits the reason.
abbrev pub fits : Signal → Bool
fits s = elim (tier_of s.signal_reason) [
  | none ↦ two_tiers s.signal_type
  | some t ↦ same_type s.signal_type t
]

abbrev fits_if : Option Signal → Bool
fits_if none = true
fits_if (some s) = fits s

fits-or_then :
    (o : Option Signal) (s : Signal) → fits_if o ≡ true → fits s ≡ true → fits (o or_then s) ≡ true
fits-or_then none s h k = k
fits-or_then (some r) s h k = h

module _ (f : Facts) where
  denied-fits : fits_if (denied_stage f) ≡ true
  unfolding denied_stage
  denied-fits = ground arith

  noise-fits : fits_if (noise_stage f) ≡ true
  unfolding noise_stage
  noise-fits = ground arith

  rtce-fits : fits_if (rtce_stage f) ≡ true
  unfolding rtce_stage
  rtce-fits = ground arith

  flink-fits : fits_if (flink_stage f) ≡ true
  unfolding flink_stage
  flink-fits = ground arith

  read-fits : fits_if (read_stage f) ≡ true
  unfolding read_stage
  read-fits = ground arith

  failure-fits : fits_if (failure_stage f) ≡ true
  unfolding failure_stage
  failure-fits = ground arith

  escalation-fits : fits_if (escalation_stage f) ≡ true
  unfolding escalation_stage
  escalation-fits = ground arith

  destructive-fits : fits_if (destructive_stage f) ≡ true
  unfolding destructive_stage
  destructive-fits = ground arith

  change-fits : fits_if (change_stage f) ≡ true
  unfolding change_stage
  change-fits = ground arith

  watched-fits : fits_if (watched_stage f) ≡ true
  unfolding watched_stage
  watched-fits = ground arith

  quiet-fits : fits (quiet_stage f) ≡ true
  unfolding quiet_stage
  quiet-fits = ground arith

  fits-change_cascade : fits (change_cascade f) ≡ true
  unfolding change_cascade
  fits-change_cascade = fits-or_then (escalation_stage f) _ escalation-fits (
      fits-or_then (destructive_stage f) _ destructive-fits (
        fits-or_then (change_stage f) _ change-fits
          (fits-or_then (watched_stage f) _ watched-fits quiet-fits)))

  pub fits-cascade : fits (cascade f) ≡ true
  unfolding cascade
  fits-cascade = fits-or_then (denied_stage f) _ denied-fits (
      fits-or_then (noise_stage f) _ noise-fits (
        fits-or_then (rtce_stage f) _ rtce-fits (
          fits-or_then (flink_stage f) _ flink-fits (
            fits-or_then (read_stage f) _ read-fits
              (fits-or_then (failure_stage f) _ failure-fits fits-change_cascade)))))

fits-apply_overrides :
    (t : OverrideTests) (s : Signal) → fits s ≡ true → fits (apply_overrides t s) ≡ true
unfolding apply_overrides
fits-apply_overrides t s h = ground arith

-- On every event the tier is the one of the reason that is reported; only
-- `security_sensitive_change` can stand in two tiers, as action required or as attention.
pub fits-classify_signal : (e : Event) → fits (classify_signal e) ≡ true
unfolding classify_signal classify_signal_core
fits-classify_signal e =
    fits-apply_overrides (override_tests e) (cascade (facts_of e)) (fits-cascade (facts_of e))
