-- ===== src/Denials.antt =====
-- src/aggregation/denial_aggregator.py: denials gathered in buckets. The flush of the buckets is in
-- Flush. A set is a list without repeats, in the order of first insertion.
pub mod Flush
pub mod Buckets
pub mod Bounds
pub mod Delivery
pub mod Alerts
mod Tests
use auditlens.Prelude.{
  ℕ, ◌+◌, ◌≡◌, refl, Bool, true, false, not, ◌&&◌, Option, none, some, List, [], ◌∷◌, ◌++◌, String,
  upper, truthy, or_else, is_in, ltb, leb, length, take, if◌then◌else◌,
}
use auditlens.Prelude.Eq.{string_eq, pair_eq}
use auditlens.Prelude.Assoc.{Dict, lookup, insert}
use auditlens.Criticality.{AuditEvent, is_false}
use auditlens.Criticality.Methods.{MethodRules}

pub record AggregatorConfig : Type 0 where
  pub high_threshold : ℕ
  pub signals_topic : String
  pub alerts_topic : String
  pub max_sample_events : ℕ
  pub max_unique_values : ℕ
  pub enabled : Bool
  pub dry_run : Bool

-- The fields of an event that are read here, an absent one as the empty text.
pub record DenialEvent : Type 0 where
  pub audit : AuditEvent
  pub id : String
  pub principal_raw : String
  pub principal : String
  pub principal_resource_id : String
  pub principal_normalized : String
  pub principal_type : String
  pub authz_resource_name : String
  pub resource_name : String
  pub resource_type : String
  pub operation : String
  pub client_ip : String
  pub cluster_id : String
  pub environment_id : String
  pub organization_id : String
  pub email : String

pub record DenialBucket : Type 0 where
  pub principal_raw : String
  pub principal_normalized : String
  pub principal_type : String
  pub primary_method : String
  pub primary_resource : String
  pub window_start : ℕ
  pub denial_count : ℕ
  pub operations : List String
  pub resource_types : List String
  pub resource_names : List String
  pub source_ips : List String
  pub sample_event_ids : List String
  pub principal_email : String
  pub method_names : List String
  pub cluster_ids : List String
  pub environment_ids : List String
  pub organization_ids : List String

-- a value for a set that is not full
unfoldable pub keep_unique : ℕ → String → List String → List String
keep_unique max_unique v xs =
    if ltb (length xs) max_unique && truthy v && not (is_in v xs) then xs ++ v ∷ [] else xs

unfoldable pub keep_sample : ℕ → String → List String → List String
keep_sample max_samples v xs = if ltb (length xs) max_samples && truthy v then xs ++ v ∷ [] else xs

unfoldable pub add_denial : DenialEvent → ℕ → ℕ → DenialBucket → DenialBucket
add_denial e max_samples max_unique b = record b {
  denial_count = b.denial_count + 1;
  operations = keep_unique max_unique e.operation b.operations;
  resource_types = keep_unique max_unique e.resource_type b.resource_types;
  resource_names =
      keep_unique max_unique (or_else e.authz_resource_name e.resource_name) b.resource_names;
  source_ips = keep_unique max_unique e.client_ip b.source_ips;
  method_names = keep_unique max_unique e.audit.method_name b.method_names;
  cluster_ids = keep_unique max_unique e.cluster_id b.cluster_ids;
  environment_ids = keep_unique max_unique e.environment_id b.environment_ids;
  organization_ids = keep_unique max_unique e.organization_id b.organization_ids;
  sample_event_ids = keep_sample max_samples e.id b.sample_event_ids;
  principal_email = or_else b.principal_email e.email;
}

pub record AggregatorStats : Type 0 where
  pub events_aggregated : ℕ
  pub alerts_produced : ℕ
  pub high_alerts : ℕ
  pub medium_alerts : ℕ
  pub flush_count : ℕ
  pub delivery_errors : ℕ

-- normalized principal, method, resource
abbrev pub BucketKey : Type 0
BucketKey = String × (String × String)

abbrev pub Buckets : Type 0
Buckets = Dict BucketKey DenialBucket

-- `should_aggregate`
unfoldable pub should_aggregate : AggregatorConfig → MethodRules → AuditEvent → Bool
should_aggregate c rules e =
    if not c.enabled
    then false
    else if is_in (upper e.result_status) rules.security_failure
    then false
    else is_in e.method_name rules.authorization_check && is_false e.granted

abbrev raw_principal : DenialEvent → String
raw_principal e =
    or_else e.principal_raw (or_else e.principal (or_else e.principal_resource_id "unknown"))

unfoldable pub bucket_key : DenialEvent → BucketKey
bucket_key e = (
  or_else e.principal_normalized (raw_principal e),
  (
    or_else e.audit.method_name "unknown",
    or_else e.authz_resource_name (or_else e.resource_name "unknown"),
  ),
)

-- `DenialBucket(…)` at a time
unfoldable pub new_bucket : ℕ → DenialEvent → DenialBucket
unfolding bucket_key
new_bucket now e =
    let (principal, (method, resource)) = bucket_key e in
    record {
      principal_raw = raw_principal e;
      principal_normalized = principal;
      principal_type = or_else e.principal_type "unknown";
      primary_method = method;
      primary_resource = resource;
      window_start = now;
      denial_count = 0;
      operations = [];
      resource_types = [];
      resource_names = [];
      source_ips = [];
      sample_event_ids = [];
      principal_email = "";
      method_names = [];
      cluster_ids = [];
      environment_ids = [];
      organization_ids = [];
    }

pub record AggregatedDenialAlert : Type 0 where
  pub threshold_exceeded : Bool
  pub criticality : String
  pub window_end : ℕ
  pub bucket : DenialBucket
  pub unique_resource_names : List String
  pub threshold : ℕ

-- `_create_alert`
unfoldable pub create_alert : AggregatorConfig → ℕ → DenialBucket → AggregatedDenialAlert
create_alert c window_end b =
    let exceeded = leb c.high_threshold b.denial_count in
    record {
      threshold_exceeded = exceeded;
      criticality = if exceeded then "HIGH" else "MEDIUM";
      window_end = window_end;
      bucket = b;
      unique_resource_names = take 10 b.resource_names;
      threshold = c.high_threshold;
    }

pub record DenialAggregator : Type 0 where
  pub config : AggregatorConfig
  pub buckets : Buckets
  pub stats : AggregatorStats
  pub calls : ℕ
  pub produced : List (String × AggregatedDenialAlert)
  pub webhooks : List AggregatedDenialAlert

abbrev pub bucket_or : DenialBucket → Option DenialBucket → DenialBucket
bucket_or default none = default
bucket_or default (some b) = b

-- the bucket of an event, a new one where there is none, with the event added
unfoldable pub filled_bucket : ℕ → DenialEvent → DenialAggregator → DenialBucket
filled_bucket now e a =
    add_denial e a.config.max_sample_events a.config.max_unique_values
      (bucket_or (new_bucket now e) (lookup (bucket_key e) a.buckets))

-- `add_event`
unfoldable pub add_event : ℕ → DenialEvent → DenialAggregator → DenialAggregator × Bool
add_event now e a = if not a.config.enabled then (a, false) else (
  record a {
    buckets = insert (bucket_key e) (filled_bucket now e a) a.buckets;
    stats = record a.stats { events_aggregated = a.stats.events_aggregated + 1 };
  },
  true,
)
