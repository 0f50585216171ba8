-- ===== src/Signals/Cascade.antt =====
-- The later stages of `_classify_signal_core` (event_signals.py) and the whole cascade.
use auditlens.Prelude.{
  ◌&&◌, ◌||◌, Option, none, some, List, [], ◌∷◌, String, has_part, has_any, is_in, str_eq,
  if◌then◌else◌,
}
use auditlens.Signals.{
  destructive_change, security_sensitive_change, auth_noise, authorization_check, access_changed,
  config_changed, read_only_lookup, operational_event, unknown, Signal, Event,
}
use auditlens.Signals.Core.{
  Facts, facts_of, act, review, info, ignore, ◌or_then◌, denied_stage, noise_stage, rtce_stage,
  flink_stage, read_stage, failure_stage, escalation_stage,
}

abbrev pub destructive_verbs : List String
destructive_verbs =
    "delete" ∷ "remove" ∷ "drop" ∷ "destroy" ∷ "terminate" ∷ "unbind" ∷ "revoke" ∷ []

abbrev pub access_verbs : List String
access_verbs =
    "grant" ∷ "revoke" ∷ "assignrole" ∷ "remove role" ∷ "rolebinding" ∷ "bind" ∷ "unbind"
    ∷ "createapikey" ∷ "deleteapikey" ∷ []

abbrev pub config_verbs : List String
config_verbs = "updateconfig" ∷ "alterconfig" ∷ "config" ∷ "patch" ∷ "set" ∷ []

abbrev pub access_families : List String
access_families = "service_account" ∷ "user" ∷ "api_key" ∷ "acl" ∷ "rbac" ∷ "network" ∷ []

abbrev pub watched_families : List String
watched_families =
    "service_account" ∷ "user" ∷ "api_key" ∷ "acl" ∷ "rbac" ∷ "network" ∷ "connector" ∷ "topic"
    ∷ "schema_registry" ∷ "cluster" ∷ "environment" ∷ []

-- Destructive changes and access transparency.
unfoldable pub destructive_stage : Facts → Option Signal
destructive_stage f =
    if str_eq f.risk "critical"
      || str_eq f.impact "destructive"
      || str_eq f.change "deleted"
      || has_any destructive_verbs f.action_text
    then some (act destructive_change "Confirm this was approved")
    else if str_eq f.impact "security_sensitive" && has_part "access-transparency" f.action_text
    then some (act security_sensitive_change "Investigate immediately")
    else none

-- Changes of access and of configuration.
unfoldable pub change_stage : Facts → Option Signal
change_stage f =
    if str_eq f.impact "access_change" || has_any access_verbs f.action_text
    then some (review access_changed "Verify owner and change window")
    else if str_eq f.impact "configuration_change" || has_any config_verbs f.action_text
    then some (review config_changed "Verify owner and change window")
    else none

-- What its risk, its kind of change or its family makes worth a review.
unfoldable pub watched_stage : Facts → Option Signal
watched_stage f =
    if is_in f.risk ("high" ∷ "medium" ∷ [])
      || is_in f.change ("created" ∷ "updated" ∷ "configured" ∷ [])
      || (is_in f.family watched_families && str_eq f.impact "constructive")
    then some (
        review
          (if is_in f.family access_families then security_sensitive_change else config_changed)
          "Review if unexpected")
    else none

-- The rest: routine events, reads, and what no rule knows.
unfoldable pub quiet_stage : Facts → Signal
quiet_stage f =
    if str_eq f.impact "authentication"
    then ignore auth_noise
    else if str_eq f.impact "authorization_check"
    then ignore authorization_check
    else if str_eq f.impact "read_only"
        || str_eq f.change "read/listed"
        || has_any ("list" ∷ "get" ∷ "describe" ∷ "search" ∷ []) f.action_text
    then info read_only_lookup "No action needed"
    else if is_in f.impact ("constructive" ∷ "operational" ∷ [])
    then info operational_event "Review if unexpected"
    else info unknown "Review if unexpected"

-- The rules after the denials, and after the failures.
unfoldable pub change_cascade : Facts → Signal
change_cascade f =
    escalation_stage f
    or_then destructive_stage f
    or_then change_stage f
    or_then watched_stage f
    or_then quiet_stage f

unfoldable pub cascade : Facts → Signal
cascade f =
    denied_stage f
    or_then noise_stage f
    or_then rtce_stage f
    or_then flink_stage f
    or_then read_stage f
    or_then failure_stage f
    or_then change_cascade f

-- `_classify_signal_core`
unfoldable pub classify_signal_core : Event → Signal
classify_signal_core e = cascade (facts_of e)
