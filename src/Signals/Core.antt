-- ===== src/Signals/Core.antt =====
-- `_classify_signal_core` of event_signals.py: what it computes first, and the cascade, a stage for
-- each group of its rules. The sets of names already warned about only decide what is logged.
use auditlens.Prelude.{
  Bool, not, ◌&&◌, ◌||◌, Option, none, some, List, [], ◌∷◌, String, lower, strip, has_part, has_any,
  has_prefix, has_any_prefix, is_in, str_eq, truthy, or_else, if◌then◌else◌,
}
use auditlens.Signals.{
  action_required, attention, informational, noise, SignalReason, failure_detected, denied_access,
  privilege_escalation, ip_filter_deny, flink_job_failure, flink_job_lifecycle,
  rtce_destructive_change, rtce_read, rtce_config_changed, auth_noise, read_only_lookup, Signal,
  Event, field, field_or, digest, is_always_noise, always_informational_methods,
  flink_failure_methods, flink_lifecycle_methods, flink_cancelled_methods, privileged_roles,
  is_rtce_event, method_name_lower,
}
use Prim.Native.String.{◌++◌}

-- What the cascade computes before its first test.
pub record Facts : Type 0 where
  pub impact : String
  pub risk : String
  pub change : String
  pub family : String
  pub action_text : String
  pub method_name : String
  pub is_rtce : Bool
  pub is_failure : Bool
  pub is_denied : Bool
  pub ipfilter_ip : String
  pub ipfilter_rg : String
  pub auth_role : String
  pub auth_role_target : String

abbrev pub failure_markers : List String
failure_markers = "fail" ∷ "error" ∷ "not_found" ∷ "not found" ∷ "404" ∷ []

unfoldable pub result_text : Event → String
result_text e = lower (or_else (field_or e "result" "resultStatus") (field e "result_display"))

unfoldable pub facts_of : Event → Facts
unfolding result_text
facts_of e =
    let d = digest e in
    let action = lower (field e "action") in
    let method = method_name_lower e action in
    record {
      impact = d.impact_type;
      risk = d.risk_level;
      change = d.change_type;
      family = d.resource_family;
      action_text = action ++ " " ++ lower (field e "normalized_action");
      method_name = method;
      is_rtce = is_rtce_event e method;
      is_failure = e.failure_flag || has_any failure_markers (result_text e);
      is_denied =
          e.denied_flag || has_part "denied" (result_text e) || str_eq d.change_type "denied";
      ipfilter_ip = strip (field e "ipfilter_client_ip");
      ipfilter_rg = strip (field e "ipfilter_resource_group");
      auth_role = strip (field e "auth_role");
      auth_role_target = strip (field e "auth_role_target");
    }

abbrev pub act : SignalReason → String → Signal
act reason advice = record {
  signal_type = action_required;
  signal_reason = reason;
  recommended_action = advice;
  decision_label = "Action Needed";
  decision_reason = none;
}

abbrev pub review : SignalReason → String → Signal
review reason advice = record {
  signal_type = attention;
  signal_reason = reason;
  recommended_action = advice;
  decision_label = "Review";
  decision_reason = none;
}

abbrev pub info : SignalReason → String → Signal
info reason advice = record {
  signal_type = informational;
  signal_reason = reason;
  recommended_action = advice;
  decision_label = "Info";
  decision_reason = none;
}

abbrev pub ignore : SignalReason → Signal
ignore reason = record {
  signal_type = noise;
  signal_reason = reason;
  recommended_action = "No action needed";
  decision_label = "Noise";
  decision_reason = none;
}

-- The first stage that returns decides.
infixr 5 ◌or_then◌
abbrev pub ◌or_then◌ : Option Signal → Signal → Signal
none or_then s = s
(some r) or_then _ = r

-- IP-filter denials, then all other denials.
unfoldable pub denied_stage : Facts → Option Signal
denied_stage f =
    if truthy f.ipfilter_ip && f.is_denied
    then some
        (record (act ip_filter_deny
          "Confirm the client IP belongs to an authorized network range") {
            decision_reason = some (
                "IP filter denied access from "
                ++ f.ipfilter_ip
                ++ (if truthy f.ipfilter_rg then " on resource group " ++ f.ipfilter_rg else ""));
          })
    else if f.is_denied
    then some (act denied_access "Investigate immediately")
    else none

unfoldable pub noise_stage : Facts → Option Signal
noise_stage f = if is_always_noise f.method_name then some (ignore auth_noise) else none

unfoldable pub rtce_stage : Facts → Option Signal
rtce_stage f =
    if not f.is_rtce
    then none
    else if has_any ("delete" ∷ "remove" ∷ "drop" ∷ "destroy" ∷ []) f.method_name
    then some (act rtce_destructive_change "Confirm Real-Time Context Engine deletion was approved")
    else if has_any_prefix ("get" ∷ "list" ∷ "describe" ∷ []) f.method_name
    then some (info rtce_read "No action needed")
    else some (review rtce_config_changed "Verify Real-Time Context Engine change")

unfoldable pub flink_stage : Facts → Option Signal
flink_stage f =
    if is_in f.method_name flink_failure_methods
      || (is_in f.method_name flink_cancelled_methods && f.is_failure)
    then some (act flink_job_failure "Investigate Flink job execution failure")
    else if is_in f.method_name flink_lifecycle_methods
        || is_in f.method_name flink_cancelled_methods
    then some (review flink_job_lifecycle "Review Flink job lifecycle event")
    else none

unfoldable pub read_stage : Facts → Option Signal
read_stage f =
    if has_prefix "get" f.method_name
      || has_prefix "list" f.method_name
      || is_in f.method_name always_informational_methods
    then some (info read_only_lookup "No action needed")
    else none

unfoldable pub failure_stage : Facts → Option Signal
failure_stage f =
    if not f.is_failure
    then none
    else if str_eq f.impact "read_only" || str_eq f.change "read/listed"
    then some (act failure_detected "Review failed read request")
    else if str_eq f.impact "destructive" || str_eq f.change "deleted"
    then some (act failure_detected "Investigate destructive failure")
    else some (act failure_detected "Investigate immediately")

unfoldable pub escalation_stage : Facts → Option Signal
escalation_stage f =
    if has_part "bindroleforprincipal" f.method_name && is_in f.auth_role privileged_roles
    then some
        (record (act privilege_escalation "Confirm grant approval and review actor's authority") {
          decision_reason = some (
              "High-privilege role binding detected: "
              ++ f.auth_role
              ++ (if truthy f.auth_role_target then " granted to " ++ f.auth_role_target else ""));
        })
    else none
