-- ===== src/Signals.antt =====
-- src/product/event_signals.py: the data of the signal classification, the fields that it reads
-- and its tests. The cascade is in Core, the overrides in Classify.
pub mod Core
pub mod Cascade
pub mod Classify
pub mod Tiers
pub mod Overrides
mod Tests
use auditlens.Prelude.{
  Bool, true, false, not, ◌&&◌, ◌||◌, Option, none, some, is_some, List, [], ◌∷◌, String, lower,
  strip, has_part, has_any, has_prefix, has_any_prefix, is_in, str_eq, truthy, or_else,
  if◌then◌else◌,
}
use auditlens.Prelude.Eq.{string_eq}
use auditlens.Prelude.Assoc.{Dict, lookup, lookup_or}
use Prim.Native.String.{◌++◌ as cat}

pub data SignalType : Type 0 where
  action_required attention informational noise : SignalType

pub data SignalReason : Type 0 where
  failure_detected denied_access destructive_change security_sensitive_change : SignalReason
  privilege_escalation ip_filter_deny flink_job_failure flink_job_lifecycle : SignalReason
  rtce_destructive_change rtce_read rtce_config_changed : SignalReason
  auth_noise authorization_check internal_topic platform_automation : SignalReason
  access_changed config_changed schema_incompatible : SignalReason
  read_only_lookup operational_event unknown : SignalReason

pub record Signal : Type 0 where
  pub signal_type : SignalType
  pub signal_reason : SignalReason
  pub recommended_action : String
  pub decision_label : String
  pub decision_reason : Option String

-- An event: its text fields (an absent one and `None` read as the empty text), two flags, and what
-- `event_digest` of event_intelligence.py computes where the event has no digest of its own.
pub record Digest : Type 0 where
  pub impact_type : String
  pub risk_level : String
  pub change_type : String
  pub resource_family : String

pub record Event : Type 0 where
  pub fields : Dict String String
  pub failure_flag : Bool
  pub denied_flag : Bool
  pub computed : Digest

-- `_as_text(_field(event, key))`
unfoldable pub field : Event → String → String
field e key = lookup_or "" key e.fields

-- `_as_text(_field(event, a) or _field(event, b))`
unfoldable pub field_or : Event → String → String → String
unfolding field
field_or e a b = or_else (field e a) (field e b)

-- `_digest`
unfoldable pub digest : Event → Digest
unfolding field
digest e =
    if is_some (lookup "impact_type" e.fields)
    then record {
      impact_type = field e "impact_type";
      risk_level = field e "risk_level";
      change_type = field e "change_type";
      resource_family = field e "resource_family";
    }
    else e.computed

abbrev pub bulk_noise_methods : List String
bulk_noise_methods =
    "mds.authorize" ∷ "kafka.fetch" ∷ "kafka.produce" ∷ "flink.authenticate" ∷ "flink.authorize"
    ∷ "schema-registry.authentication" ∷ "schema-registry.authorize" ∷ "kafka.authentication"
    ∷ "scheduledjwksrefresh" ∷ "ksql.authenticate" ∷ "ksql.authorize" ∷ "ip-filter.authorize" ∷ []

-- `_ALWAYS_NOISE_METHODS`: the bulk noise without the authentication methods
unfoldable pub is_always_noise : String → Bool
is_always_noise method =
    is_in method bulk_noise_methods
    && not (
        is_in method
          ("kafka.authentication" ∷ "schema-registry.authentication" ∷ "ksql.authenticate" ∷ []))

abbrev pub always_informational_methods : List String
always_informational_methods =
    "tableflowgettable" ∷ "tableflowlisttables" ∷ "tableflowcatalogconfig" ∷ "listtableflowcatalog"
    ∷ "tableflowgetcatalog" ∷ "tableflowlistcatalogs" ∷ "flinkjobrunning" ∷ "flinkmetrics"
    ∷ "flinkheartbeat" ∷ []

abbrev pub flink_failure_methods : List String
flink_failure_methods =
    "flinkjobfailed" ∷ "flinkstatementfailed" ∷ "flinkjobexception" ∷ "checkpointfailed"
    ∷ "flinkrestartfailed" ∷ []

abbrev pub flink_lifecycle_methods : List String
flink_lifecycle_methods =
    "flinkjobstarted" ∷ "flinkjobfinished" ∷ "flinkjobrestarting" ∷ "checkpointcompleted"
    ∷ "savepointcreated" ∷ "savepointrestored" ∷ []

abbrev pub flink_cancelled_methods : List String
flink_cancelled_methods = "flinkjobcancelled" ∷ []

abbrev pub rtce_markers : List String
rtce_markers = "contextengine" ∷ "realtimecontext" ∷ "rtce" ∷ []

abbrev pub privileged_roles : List String
privileged_roles = "OrganizationAdmin" ∷ "EnvironmentAdmin" ∷ "CloudClusterAdmin" ∷ []

abbrev pub confluent_platform_high_risk : List String
confluent_platform_high_risk = "deleteorganization" ∷ "suspendorganization" ∷ []

abbrev pub security_mutation_verbs : List String
security_mutation_verbs =
    "grant" ∷ "revoke" ∷ "unbind" ∷ "bind" ∷ "deleteapi" ∷ "deleteserviceaccount" ∷ "revokerole"
    ∷ "grantrole" ∷ "assignrole" ∷ "removerolefromresource" ∷ "unbound" ∷ []

abbrev pub internal_topic_prefixes : List String
internal_topic_prefixes = "error-lcc-" ∷ "_confluent" ∷ "__consumer_" ∷ "_schemas" ∷ []

abbrev pub internal_topic_methods : List String
internal_topic_methods =
    "kafka.createtopics" ∷ "kafka.produce" ∷ "kafka.fetch" ∷ "kafka.deletetopics"
    ∷ "kafka.alterconfigs" ∷ "kafka.describeconfigs" ∷ "kafka.createpartitions" ∷ []

-- `_is_rtce_event`
unfoldable pub is_rtce_event : Event → String → Bool
is_rtce_event e method =
    has_any rtce_markers method
    || has_any rtce_markers (lower (field_or e "serviceName" "service_name"))

-- `_is_internal_topic`
unfoldable pub is_internal_topic : Event → Bool
is_internal_topic e =
    let resource =
      lower (or_else (field_or e "resource_name" "resourceName") (field e "authzResourceName")) in
    truthy resource && has_any_prefix internal_topic_prefixes resource

abbrev is_platform_name : String → Bool
is_platform_name s = has_part "externalAccount" s && has_part "Confluent" s

-- `_is_confluent_platform`
unfoldable pub is_confluent_platform : Event → Bool
is_confluent_platform e =
    is_platform_name (field e "principal") || is_platform_name (field e "actor")

-- `_method_name_lower`
unfoldable pub method_name_lower : Event → String → String
method_name_lower e fallback = lower (or_else (field_or e "methodName" "method_name") fallback)
