-- ===== src/Anomaly/Tests.antt =====
-- The tracker on concrete events (rate_tracker.py).
use auditlens.Prelude.{
  ◌≡◌, refl, true, false, none, some, List, [], ◌∷◌, String, map, is_in, has_prefix, has_part,
  lower, upper, length, ◌*◌, arith,
}
use auditlens.Prelude.Eq.{string_eq, pair_eq}
use auditlens.Prelude.Assoc.{Dict, lookup, lookup_or, insert}
use auditlens.Anomaly.{
  activity_spike, new_source_ip, anomaly_eq, AlertKey, add_event, get_rate, cleanup_events,
  drop_stale, suppress, remember, should_alert, flush_suppression_summary, normalize_principal,
}
use auditlens.Anomaly.Records.{
  RateTrackerConfig, IpCache, RateTracker, TrackedEvent, add_to, rate_of, is_auth_failure,
  is_api_key_op, is_whitelisted,
}
use auditlens.Anomaly.Tracker.{
  raise_alert, check_rate, track_activity, track_auth_failure, track_deletion, track_api_key_op,
  new_ip_alert, add_known_ip, check_new_ip, track_event,
}
use auditlens.Anomaly.Dedup.{
  Requests, answers, spec_answers, new_suppressor, after, refused, answers-spec_answers,
  flush-refused,
}
use auditlens.Anomaly.Detection.{add_all, within, get_rate-add_all}

abbrev alice : AlertKey
alice = (activity_spike, "alice")

abbrev requests : Requests
requests = (alice, 10) ∷ (alice, 12) ∷ (alice, 15) ∷ []

answers-spec_answers_example :
    answers requests (new_suppressor 5 0) ≡ spec_answers 5 requests (λ _. none)
answers-spec_answers_example =
    answers-spec_answers 5 0 requests (omega arith, (omega arith, (omega arith, tt)))

answers_run : answers requests (new_suppressor 5 0) ≡ true ∷ false ∷ true ∷ []
unfolding answers should_alert suppress remember drop_stale lookup insert
answers_run = refl

flush-refused_example :
    (lookup_or 0 alice (flush_suppression_summary 20 (after requests (new_suppressor 5 0))).1
      ≡ refused alice requests (answers requests (new_suppressor 5 0)))
    × (lookup_or 0 alice
          (flush_suppression_summary 20 (after requests (new_suppressor 5 0))).0.suppressed_counts
        ≡ 0)
flush-refused_example = flush-refused 5 0 20 requests alice

get_rate-add_all_example :
    (get_rate 65 (add_all (1 ∷ 30 ∷ 64 ∷ []) (record { window_seconds = 60; events = [] }))).1
    ≡ record {
      count = length (within 60 65 (1 ∷ 30 ∷ 64 ∷ []));
      numerator = length (within 60 65 (1 ∷ 30 ∷ 64 ∷ [])) * 60;
      denominator = 60;
    }
get_rate-add_all_example =
    get_rate-add_all 60 0 65 (1 ∷ 30 ∷ 64 ∷ [])
      (omega arith, (omega arith, (omega arith, omega arith)))

-- A cache that never forgets.
abbrev ip_cache : IpCache (Dict String (List String))
ip_cache = record {
  get = λ p d. (d, lookup p d);
  put = λ p ips d. insert p ips d;
  trim = λ ips. ips;
}

abbrev config : RateTrackerConfig
config = record {
  window_seconds = 60;
  auth_failure_threshold = 2;
  activity_spike_threshold = 2;
  deletion_threshold = 2;
  api_key_threshold = 2;
  enable_auth_failure_detection = true;
  enable_activity_spike_detection = true;
  enable_deletion_detection = true;
  enable_api_key_detection = true;
  whitelist_principals = "root" ∷ [];
}

abbrev tracker : RateTracker (Dict String (List String))
tracker = record {
  config = config;
  principal_activity = [];
  principal_auth_failures = [];
  principal_deletions = [];
  principal_api_key_ops = [];
  ip_activity = [];
  ip_auth_failures = [];
  known_ips = [];
  suppressor = new_suppressor 300 0;
}

abbrev produce : String → TrackedEvent
produce ip = record {
  principal = "User:alice";
  client_ip = ip;
  method_name = "kafka.Produce";
  result_status = "SUCCESS";
  granted = some true;
}

abbrev warm : RateTracker (Dict String (List String))
warm = (track_event ip_cache (produce "10.0.0.1") 10 tracker).0

-- The second event of a window reaches the threshold, and comes from a new address.
track_event_run :
    map (λ a. a.anomaly_type) (track_event ip_cache (produce "10.0.0.2") 11 warm).1
    ≡ activity_spike ∷ new_source_ip ∷ []
unfolding track_event is_whitelisted normalize_principal track_activity track_auth_failure
    track_deletion track_api_key_op check_new_ip new_ip_alert add_known_ip raise_alert check_rate
    add_to rate_of is_auth_failure is_api_key_op add_event get_rate cleanup_events should_alert
    suppress remember drop_stale lookup insert is_in has_prefix has_part lower upper
track_event_run = refl
