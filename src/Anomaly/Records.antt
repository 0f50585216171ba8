-- ===== src/Anomaly/Records.antt =====
-- The state of `RateTracker` of rate_tracker.py, what it reads of an event, and what an alert says.
-- The cache of known addresses (cachetools) is an interface.
use auditlens.Prelude.{
  ℕ, Bool, false, not, ◌||◌, Option, none, some, List, [], ◌∷◌, String, lower, upper, has_part,
  is_in,
}
use auditlens.Prelude.Eq.{string_eq, pair_eq}
use auditlens.Prelude.Assoc.{Dict, lookup_or, insert}
use auditlens.Anomaly.{
  AnomalyType, anomaly_eq, normalize_principal, RateCounter, add_event, Rate, get_rate, Suppressor,
}

pub data Severity : Type 0 where
  critical high medium low : Severity

pub record AnomalyAlert : Type 0 where
  pub anomaly_type : AnomalyType
  pub severity : Severity
  pub principal : String
  pub source_ip : String
  pub rate : Rate
  pub threshold : ℕ
  pub window_seconds : ℕ
  pub known_ips : List String

pub record RateTrackerConfig : Type 0 where
  pub window_seconds : ℕ
  pub auth_failure_threshold : ℕ
  pub activity_spike_threshold : ℕ
  pub deletion_threshold : ℕ
  pub api_key_threshold : ℕ
  pub enable_auth_failure_detection : Bool
  pub enable_activity_spike_detection : Bool
  pub enable_deletion_detection : Bool
  pub enable_api_key_detection : Bool
  pub whitelist_principals : List String

-- A cache from principals to sets of addresses: a read may change its order of use.
pub record IpCache (C : Type 0) : Type 0 where
  pub get : String → C → C × Option (List String)
  pub put : String → List String → C → C
  pub trim : List String → List String

abbrev pub Counters : Type 0
Counters = Dict String RateCounter

pub record RateTracker (C : Type 0) : Type 0 where
  pub config : RateTrackerConfig
  pub principal_activity : Counters
  pub principal_auth_failures : Counters
  pub principal_deletions : Counters
  pub principal_api_key_ops : Counters
  pub ip_activity : Counters
  pub ip_auth_failures : Counters
  pub known_ips : C
  pub suppressor : Suppressor

pub record TrackedEvent : Type 0 where
  pub principal : String
  pub client_ip : String
  pub method_name : String
  pub result_status : String
  pub granted : Option Bool

-- `defaultdict`: a new counter where there is none
abbrev pub counter_of : ℕ → String → Counters → RateCounter
counter_of window key cs = lookup_or (record { window_seconds = window; events = [] }) key cs

-- `counters[key].add_event()`
unfoldable pub add_to : ℕ → ℕ → String → Counters → Counters
add_to window now key cs = insert key (add_event now (counter_of window key cs)) cs

-- a rate check on one of the dicts: the new counters, and the rate
unfoldable pub rate_of : ℕ → ℕ → String → Counters → Counters × Rate
rate_of window now key cs =
    let (c, rate) = get_rate now (counter_of window key cs) in (insert key c cs, rate)

unfoldable pub is_auth_failure : TrackedEvent → Bool
is_auth_failure e =
    is_in (upper e.result_status) ("UNAUTHENTICATED" ∷ "PERMISSION_DENIED" ∷ "UNAUTHORIZED" ∷ [])
    || elim e.granted [ none ↦ false | some g ↦ not g ]

unfoldable pub is_api_key_op : TrackedEvent → Bool
is_api_key_op e =
    has_part "apikey" (lower e.method_name) || has_part "api_key" (lower e.method_name)

unfoldable pub is_whitelisted : RateTrackerConfig → String → Bool
is_whitelisted c principal =
    is_in (normalize_principal principal) c.whitelist_principals
    || is_in principal c.whitelist_principals
