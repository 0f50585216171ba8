-- ===== src/Criticality.antt =====
-- src/classification/criticality.py: the criticality of an audit event. The resolved tables of
-- method names are an argument, since they are read from files at start-up.
pub mod Methods
pub mod Enrich
pub mod Levels
pub mod Stats
mod Tests
use auditlens.Prelude.{
  ℕ, ◌+◌, Bool, true, false, not, ◌&&◌, ◌||◌, Option, none, some, List, [], ◌∷◌, String, upper,
  is_in, str_eq, if◌then◌else◌,
}
use auditlens.Criticality.Methods.{
  MethodRules, Category, deletion, creation, modification, get_method_category, is_sensitive_method,
}

pub data CriticalityLevel : Type 0 where
  critical high medium low : CriticalityLevel

-- `signal_type`, and the case of the code behind `reason` with the text that follows it
pub data SignalKind : Type 0 where
  auth_failure authz_denial access_denied : SignalKind

pub data Reason : Type 0 where
  signal_failure : String → String → Reason
  security_failure : String → Reason
  check_denied denied_sensitive denied : String → Reason
  critical_method high_method medium_method : String → Reason
  deletion_operation authorization_check sensitive_operation : String → Reason
  creation_or_modification authentication read_operation unclassified : String → Reason

pub record ClassificationResult : Type 0 where
  pub criticality : CriticalityLevel
  pub reason : Reason
  pub is_security_event : Bool
  pub is_deletion : Bool
  pub is_creation : Bool
  pub is_modification : Bool
  pub method_category : Category
  pub elevated : Bool
  pub is_signal_candidate : Bool
  pub signal_type : Option SignalKind

-- The fields that the classification reads, absent ones as the empty text.
pub record AuditEvent : Type 0 where
  pub method_name : String
  pub result_status : String
  pub granted : Option Bool

abbrev pub is_deletion_category : Category → Bool
is_deletion_category Category.deletion = true
is_deletion_category _ = false

abbrev pub is_creation_category : Category → Bool
is_creation_category Category.creation = true
is_creation_category _ = false

abbrev pub is_modification_category : Category → Bool
is_modification_category Category.modification = true
is_modification_category _ = false

-- `granted is False`
abbrev pub is_false : Option Bool → Bool
is_false (some false) = true
is_false _ = false

-- The common fields of every result.
abbrev result_of :
    Category → CriticalityLevel → Reason → Bool → Bool → Option SignalKind → ClassificationResult
result_of c level reason security elevated signal = record {
  criticality = level;
  reason = reason;
  is_security_event = security;
  is_deletion = is_deletion_category c;
  is_creation = is_creation_category c;
  is_modification = is_modification_category c;
  method_category = c;
  elevated = elevated;
  is_signal_candidate = elim signal [ none ↦ false | some _ ↦ true ];
  signal_type = signal;
}

-- Priority 1: a security failure.
pub failure_result : Bool → Category → String → String → ClassificationResult
failure_result on_auth_method c name status =
    if on_auth_method
    then result_of c low (signal_failure name status) true false (some auth_failure)
    else result_of c medium (security_failure status) true true (some auth_failure)

-- Priority 2: denied access.
pub denied_result : MethodRules → Category → String → ClassificationResult
denied_result r c name =
    if is_in name r.authorization_check
    then result_of c low (check_denied name) true false (some authz_denial)
    else if is_in name r.critical || is_in name r.high
    then result_of c high (denied_sensitive name) true false (some access_denied)
    else result_of c low (denied name) true false (some access_denied)

-- Priorities 4 and 5: by the words of the name.
pub pattern_level : MethodRules → Category → String → CriticalityLevel × Reason
pattern_level r c name =
    if is_deletion_category c
    then (high, deletion_operation name)
    else if is_in name r.authorization_check
    then (low, authorization_check name)
    else if is_sensitive_method r.keywords name
    then (high, sensitive_operation name)
    else if is_creation_category c || is_modification_category c
    then (medium, creation_or_modification name)
    else if is_in name r.authentication
    then (low, authentication name)
    else if is_in name r.read_only
    then (low, read_operation name)
    else (low, unclassified name)

-- Priorities 3 to 5.
pub method_level : MethodRules → Category → String → CriticalityLevel × Reason
unfolding pattern_level
method_level r c name =
    if is_in name r.critical
    then (critical, critical_method name)
    else if is_in name r.high
    then (high, high_method name)
    else if is_in name r.medium
    then (medium, medium_method name)
    else pattern_level r c name

pub calculate_criticality : MethodRules → AuditEvent → ClassificationResult
unfolding failure_result denied_result method_level
calculate_criticality r e =
    let name = e.method_name in
    let status = upper e.result_status in
    let c = get_method_category r name in
    let failed = is_in status r.security_failure in
    let on_auth_method = is_in name r.authentication || is_in name r.authorization_check in
    let security = failed || is_false e.granted || str_eq status "FAILURE" in
    if failed
    then failure_result on_auth_method c name status
    else if is_false e.granted
    then denied_result r c name
    else (let (level, reason) = method_level r c name in
        result_of c level reason security false none)

-- `get_criticality_stats`
pub record CriticalityStats : Type 0 where
  pub critical_count : ℕ
  pub high_count : ℕ
  pub medium_count : ℕ
  pub low_count : ℕ
  pub total : ℕ
  pub security_events : ℕ
  pub deletions : ℕ
  pub elevated_count : ℕ

abbrev pub no_counts : CriticalityStats
no_counts = record {
  critical_count = 0;
  high_count = 0;
  medium_count = 0;
  low_count = 0;
  total = 0;
  security_events = 0;
  deletions = 0;
  elevated_count = 0;
}

abbrev bump : Bool → ℕ → ℕ
bump b n = if b then n + 1 else n

abbrev add_level : CriticalityLevel → CriticalityStats → CriticalityStats
add_level critical s = record s { critical_count = s.critical_count + 1 }
add_level high s = record s { high_count = s.high_count + 1 }
add_level medium s = record s { medium_count = s.medium_count + 1 }
add_level low s = record s { low_count = s.low_count + 1 }

pub count_result : ClassificationResult → CriticalityStats → CriticalityStats
count_result c s =
    let t = add_level c.criticality s in
    record t {
      total = t.total + 1;
      security_events = bump c.is_security_event t.security_events;
      deletions = bump c.is_deletion t.deletions;
      elevated_count = bump c.elevated t.elevated_count;
    }

pub count_events : MethodRules → List AuditEvent → CriticalityStats → CriticalityStats
count_events r [] s = s
count_events r (e ∷ es) s = count_events r es (count_result (calculate_criticality r e) s)

pub get_criticality_stats : MethodRules → List AuditEvent → CriticalityStats
get_criticality_stats r es = count_events r es no_counts
