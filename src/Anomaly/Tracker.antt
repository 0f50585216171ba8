-- ===== src/Anomaly/Tracker.antt =====
-- `RateTracker` of rate_tracker.py: `track_event` and the other methods. The readings of the clock
-- that one call makes are one number. The cache of known addresses (cachetools) is an argument, as
-- is the choice of the hundred addresses that are kept of a larger set.
use auditlens.Prelude.{
  ℕ, not, ◌||◌, none, some, List, [], ◌∷◌, ◌++◌, String, leb, ◌==◌, length, take, lower, has_part,
  is_in, truthy, if◌then◌else◌,
}
use auditlens.Prelude.Eq.{string_eq, pair_eq}
use auditlens.Anomaly.{
  AnomalyType, auth_failure_spike, activity_spike, new_source_ip, rapid_deletions, api_key_abuse,
  anomaly_eq, normalize_principal, Rate, get_rate, should_alert,
}
use auditlens.Anomaly.Records.{
  Severity, critical, high, medium, AnomalyAlert, IpCache, Counters, RateTracker, TrackedEvent,
  add_to, rate_of, is_auth_failure, is_api_key_op, is_whitelisted,
}

module _ {C : Type 0} (cache : IpCache C) where
  -- `_should_alert` and the list of alerts
  unfoldable pub raise_alert : AnomalyAlert → ℕ → RateTracker C → RateTracker C × List AnomalyAlert
  raise_alert a now t =
      let (s, fresh) =
        should_alert (a.anomaly_type, normalize_principal a.principal) now t.suppressor in
      (record t { suppressor = s }, if fresh then a ∷ [] else [])

  -- The common body of the four `_check_…` methods.
  unfoldable pub check_rate :
      AnomalyType
      → Severity
      → ℕ
      → TrackedEvent
      → ℕ
      → Rate
      → RateTracker C
      → RateTracker C × List AnomalyAlert
  check_rate kind severity threshold e now rate t =
      if leb threshold rate.count
      then raise_alert
          (record {
            anomaly_type = kind;
            severity = severity;
            principal = e.principal;
            source_ip = e.client_ip;
            rate = rate;
            threshold = threshold;
            window_seconds = t.config.window_seconds;
            known_ips = [];
          })
          now t
      else (t, [])

  -- general activity
  unfoldable pub track_activity :
      TrackedEvent → ℕ → RateTracker C → RateTracker C × List AnomalyAlert
  track_activity e now t =
      let w = t.config.window_seconds in
      let t' = record t {
        principal_activity = add_to w now e.principal t.principal_activity;
        ip_activity =
            if truthy e.client_ip then add_to w now e.client_ip t.ip_activity else t.ip_activity;
      } in
      if not t.config.enable_activity_spike_detection
      then (t', [])
      else (let (cs, rate) = rate_of w now e.principal t'.principal_activity in
          check_rate activity_spike high t.config.activity_spike_threshold e now rate
            (record t' { principal_activity = cs }))

  unfoldable pub track_auth_failure :
      TrackedEvent → ℕ → RateTracker C → RateTracker C × List AnomalyAlert
  track_auth_failure e now t =
      let w = t.config.window_seconds in
      let t' = record t {
        principal_auth_failures = add_to w now e.principal t.principal_auth_failures;
        ip_auth_failures =
            if truthy e.client_ip
            then add_to w now e.client_ip t.ip_auth_failures
            else t.ip_auth_failures;
      } in
      if not (is_auth_failure e)
      then (t, [])
      else if not t.config.enable_auth_failure_detection
      then (t', [])
      else (let (cs, rate) = rate_of w now e.principal t'.principal_auth_failures in
          check_rate auth_failure_spike critical t.config.auth_failure_threshold e now rate
            (record t' { principal_auth_failures = cs }))

  unfoldable pub track_deletion :
      TrackedEvent → ℕ → RateTracker C → RateTracker C × List AnomalyAlert
  track_deletion e now t =
      let w = t.config.window_seconds in
      let t' = record t { principal_deletions = add_to w now e.principal t.principal_deletions } in
      if not (has_part "delete" (lower e.method_name))
      then (t, [])
      else if not t.config.enable_deletion_detection
      then (t', [])
      else (let (cs, rate) = rate_of w now e.principal t'.principal_deletions in
          check_rate rapid_deletions critical t.config.deletion_threshold e now rate
            (record t' { principal_deletions = cs }))

  unfoldable pub track_api_key_op :
      TrackedEvent → ℕ → RateTracker C → RateTracker C × List AnomalyAlert
  track_api_key_op e now t =
      let w = t.config.window_seconds in
      let t' = record t {
        principal_api_key_ops = add_to w now e.principal t.principal_api_key_ops;
      } in
      if not (is_api_key_op e)
      then (t, [])
      else if not t.config.enable_api_key_detection
      then (t', [])
      else (let (cs, rate) = rate_of w now e.principal t'.principal_api_key_ops in
          check_rate api_key_abuse high t.config.api_key_threshold e now rate
            (record t' { principal_api_key_ops = cs }))

  -- `_create_new_ip_alert`, where other addresses are known
  unfoldable pub new_ip_alert :
      TrackedEvent → ℕ → List String → RateTracker C → RateTracker C × List AnomalyAlert
  new_ip_alert e now known t =
      if leb 1 (length known)
      then raise_alert
          (record {
            anomaly_type = new_source_ip;
            severity = medium;
            principal = e.principal;
            source_ip = e.client_ip;
            rate = record { count = 0; numerator = 0; denominator = 1 };
            threshold = 0;
            window_seconds = 0;
            known_ips = take 10 known;
          })
          now t
      else (t, [])

  unfoldable pub add_known_ip : TrackedEvent → List String → RateTracker C → RateTracker C
  add_known_ip e known t =
      let ips = e.client_ip ∷ known in
      let kept = if leb 101 (length ips) then cache.trim ips else ips in
      record t { known_ips = cache.put e.principal kept t.known_ips }

  -- a new source address
  unfoldable pub check_new_ip : TrackedEvent → ℕ → RateTracker C → RateTracker C × List AnomalyAlert
  check_new_ip e now t =
      if not (truthy e.client_ip)
      then (t, [])
      else (let (c, found) = cache.get e.principal t.known_ips in
          let known : List String = elim found [ none ↦ [] | some ips ↦ ips ] in
          let t₁ = record t { known_ips = c } in
          if is_in e.client_ip known
          then (t₁, [])
          else (let (t₂, alerts) = new_ip_alert e now known t₁ in
              (add_known_ip e known t₂, alerts)))

  unfoldable pub track_event : TrackedEvent → ℕ → RateTracker C → RateTracker C × List AnomalyAlert
  track_event e now t =
      if not (truthy e.principal) || is_whitelisted t.config e.principal
      then (t, [])
      else (let (t₁, as₁) = track_activity e now t in
          let (t₂, as₂) = track_auth_failure e now t₁ in
          let (t₃, as₃) = track_deletion e now t₂ in
          let (t₄, as₄) = track_api_key_op e now t₃ in
          let (t₅, as₅) = check_new_ip e now t₄ in (t₅, as₁ ++ as₂ ++ as₃ ++ as₄ ++ as₅))

-- the loop of `cleanup` over one of the dicts: counters that are empty now are deleted
unfoldable pub drop_empty : ℕ → Counters → Counters
drop_empty now [] = []
drop_empty now ((k, c) ∷ cs) =
    let (c', rate) = get_rate now c in
    let rest = drop_empty now cs in if rate.count == 0 then rest else (k, c') ∷ rest

unfoldable pub cleanup : {C : Type 0} → ℕ → RateTracker C → RateTracker C
cleanup now t = record t {
  principal_activity = drop_empty now t.principal_activity;
  principal_auth_failures = drop_empty now t.principal_auth_failures;
  principal_deletions = drop_empty now t.principal_deletions;
  principal_api_key_ops = drop_empty now t.principal_api_key_ops;
  ip_activity = drop_empty now t.ip_activity;
  ip_auth_failures = drop_empty now t.ip_auth_failures;
}
