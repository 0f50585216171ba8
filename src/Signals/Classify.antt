-- ===== src/Signals/Classify.antt =====
-- `classify_signal` of event_signals.py: the cascade and the overrides after it.
use auditlens.Prelude.{
  Bool, true, false, not, ◌&&◌, ◌||◌, lower, has_part, has_any, is_in, str_eq, truthy,
  if◌then◌else◌,
}
use auditlens.Signals.{
  SignalType, security_sensitive_change, internal_topic, platform_automation, schema_incompatible,
  config_changed, Signal, Event, field, field_or, is_internal_topic, is_confluent_platform,
  internal_topic_methods, confluent_platform_high_risk, security_mutation_verbs, method_name_lower,
}
use auditlens.Signals.Core.{act, review, info, ignore, result_text}
use auditlens.Signals.Cascade.{classify_signal_core}

-- The tests of the overrides.
pub record OverrideTests : Type 0 where
  pub is_transparency : Bool
  pub is_internal : Bool
  pub is_platform : Bool
  pub is_registration : Bool
  pub has_failed : Bool

unfoldable pub override_tests : Event → OverrideTests
override_tests e =
    let action = lower (field e "action") in
    let method = method_name_lower e action in
    record {
      is_transparency = has_part "access-transparency" (lower (field_or e "type" "event_type"));
      is_internal =
          is_internal_topic e && (not (truthy method) || is_in method internal_topic_methods);
      is_platform =
          is_confluent_platform e
          && not (is_in action confluent_platform_high_risk)
          && not (has_any security_mutation_verbs action);
      is_registration = str_eq action "schema-registry.registerschema";
      has_failed = has_part "fail" (result_text e);
    }

abbrev pub is_action_required : SignalType → Bool
is_action_required SignalType.action_required = true
is_action_required _ = false

unfoldable pub apply_overrides : OverrideTests → Signal → Signal
apply_overrides t result =
    if t.is_transparency
    then act security_sensitive_change "Investigate immediately"
    else if t.is_internal
    then ignore internal_topic
    else if t.is_platform
    then info platform_automation "No action needed"
    else if is_action_required result.signal_type && t.is_registration && t.has_failed
    then review schema_incompatible "Review schema compatibility settings"
    else if t.is_registration && not t.has_failed
    then review config_changed "Verify schema evolution is expected"
    else result

unfoldable pub classify_signal : Event → Signal
classify_signal e = apply_overrides (override_tests e) (classify_signal_core e)
