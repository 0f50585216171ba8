-- ===== src/Signals/Tests.antt =====
-- Events and their signals, and the theorems at concrete inputs.
use auditlens.Prelude.{
  ◌≡◌, refl, false, some, [], ◌∷◌, String, lower, strip, has_part, has_any, has_prefix,
  has_any_prefix, is_in,
}
use auditlens.Prelude.Assoc.{Dict, lookup}
use auditlens.Signals.{
  noise, privilege_escalation, Signal, Event, field, field_or, digest, is_always_noise,
  is_rtce_event, is_internal_topic, is_confluent_platform, method_name_lower,
}
use auditlens.Signals.Core.{
  act, facts_of, result_text, denied_stage, noise_stage, rtce_stage, flink_stage, read_stage,
  failure_stage,
}
use auditlens.Signals.Cascade.{cascade, change_cascade, classify_signal_core}
use auditlens.Signals.Classify.{override_tests, apply_overrides, classify_signal}

abbrev event : Dict String String → Event
event fields = record {
  fields = fields;
  failure_flag = false;
  denied_flag = false;
  computed = record { impact_type = ""; risk_level = ""; change_type = ""; resource_family = "" };
}

abbrev registration : Event
registration =
    event (
      ("action", "schema-registry.RegisterSchema")
      ∷ ("result", "DENIED")
      ∷ ("impact_type", "")
      ∷ [])

abbrev fetch : Event
fetch = event (("methodName", "kafka.Fetch") ∷ ("result", "Success") ∷ [])

abbrev grant : Event
grant = event (
    ("methodName", "BindRoleForPrincipal")
    ∷ ("auth_role", "OrganizationAdmin")
    ∷ ("auth_role_target", "u-1")
    ∷ [])

fetch-noise : (classify_signal fetch).signal_type ≡ noise
unfolding classify_signal apply_overrides classify_signal_core cascade denied_stage noise_stage
    rtce_stage flink_stage read_stage failure_stage change_cascade facts_of override_tests field
    field_or digest result_text lookup lower strip has_part has_any has_prefix has_any_prefix is_in
    is_always_noise is_rtce_event is_internal_topic is_confluent_platform method_name_lower
fetch-noise = refl

abbrev escalation : Signal
escalation =
    record (act privilege_escalation "Confirm grant approval and review actor's authority") {
      decision_reason =
          some "High-privilege role binding detected: OrganizationAdmin granted to u-1";
    }
