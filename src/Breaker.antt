-- ===== src/Breaker.antt =====
-- src/resilience/circuit_breaker.py: the circuit breaker, its counters and its three states.
-- Times are naturals in one unit; a method takes the clock readings that it makes, in order.
pub mod Invariant
pub mod Calls
pub mod Window
pub mod Recovery
mod Tests
use auditlens.Prelude.{
  ℕ, ◌+◌, ◌-◌, Bool, true, false, Option, none, some, List, [], ◌∷◌, ◌++◌, String, ltb, leb, length,
  keep_if, if◌then◌else◌,
}

pub data CircuitState : Type 0 where
  closed opened half_open : CircuitState

pub record CircuitBreakerConfig : Type 0 where
  pub failure_threshold : ℕ
  pub recovery_timeout : ℕ
  pub half_open_requests : ℕ
  pub failure_window : ℕ

pub record CircuitStats : Type 0 where
  pub total_calls : ℕ
  pub successful_calls : ℕ
  pub failed_calls : ℕ
  pub rejected_calls : ℕ
  pub last_failure_time : Option ℕ
  pub last_success_time : Option ℕ
  pub state_changes : ℕ
  pub current_failures : ℕ
  pub half_open_successes : ℕ

pub record CircuitBreaker : Type 0 where
  pub name : String
  pub config : CircuitBreakerConfig
  pub state : CircuitState
  pub stats : CircuitStats
  pub failure_times : List ℕ
  pub opened_at : Option ℕ

abbrev pub no_stats : CircuitStats
no_stats = record {
  total_calls = 0;
  successful_calls = 0;
  failed_calls = 0;
  rejected_calls = 0;
  last_failure_time = none;
  last_success_time = none;
  state_changes = 0;
  current_failures = 0;
  half_open_successes = 0;
}

-- `__init__`
abbrev pub init : String → CircuitBreakerConfig → CircuitBreaker
init name config = record {
  name = name;
  config = config;
  state = closed;
  stats = no_stats;
  failure_times = [];
  opened_at = none;
}

-- `_transition_to`; `now` is read only on the way to OPEN
pub transition_to : CircuitState → ℕ → CircuitBreaker → CircuitBreaker
transition_to opened now b = record b {
  state = opened;
  stats = record b.stats { state_changes = b.stats.state_changes + 1 };
  opened_at = some now;
}
transition_to half_open now b = record b {
  state = half_open;
  stats = record b.stats { state_changes = b.stats.state_changes + 1; half_open_successes = 0 };
}
transition_to closed now b = record b {
  state = closed;
  stats = record b.stats { state_changes = b.stats.state_changes + 1; current_failures = 0 };
  failure_times = [];
}

-- `_should_attempt_reset`: `now - opened_at >= recovery_timeout`
pub should_attempt_reset : ℕ → CircuitBreaker → Bool
should_attempt_reset now b = elim b.opened_at [
  | none ↦ true
  | some t ↦ leb (t + b.config.recovery_timeout) now
]

-- `_time_until_reset`: `max(0.0, recovery_timeout - (now - opened_at))`
pub time_until_reset : ℕ → CircuitBreaker → ℕ
time_until_reset now b = elim b.opened_at [
  | none ↦ 0
  | some t ↦ t + b.config.recovery_timeout - now
]

-- `_cleanup_old_failures`: keeps the times after `now - failure_window`
pub cleanup_old_failures : ℕ → CircuitBreaker → CircuitBreaker
cleanup_old_failures now b = record b {
  failure_times = keep_if (λ t. ltb now (t + b.config.failure_window)) b.failure_times;
}

-- The outcome of the locked first part of `call`.
pub data Admission : Type 0 where
  admitted : Admission
  -- `CircuitOpenError`, with the time that its message shows
  rejected : ℕ → Admission

abbrev count_call : CircuitBreaker → CircuitBreaker
count_call b = record b { stats = record b.stats { total_calls = b.stats.total_calls + 1 } }

abbrev count_rejected : CircuitBreaker → CircuitBreaker
count_rejected b = record b {
  stats = record b.stats { rejected_calls = b.stats.rejected_calls + 1 };
}

-- a call that finds the circuit OPEN; `later` is the reading for the message
abbrev probe : ℕ → ℕ → CircuitBreaker → CircuitBreaker × Admission
probe now later b =
    if should_attempt_reset now b
    then (transition_to half_open now b, admitted)
    else (count_rejected b, rejected (time_until_reset later b))

-- the part of `call` before the function runs
pub admit : ℕ → ℕ → CircuitBreaker → CircuitBreaker × Admission
unfolding should_attempt_reset time_until_reset transition_to
admit now later b = elim b.state [
  | opened ↦ probe now later (count_call b)
  | closed ↦ (count_call b, admitted)
  | half_open ↦ (count_call b, admitted)
]

-- `_record_success`; `stamp` is the wall-clock reading for `last_success_time`
abbrev count_success : ℕ → CircuitBreaker → CircuitBreaker
count_success stamp b = record b {
  stats = record b.stats {
    successful_calls = b.stats.successful_calls + 1;
    last_success_time = some stamp;
  };
}

abbrev half_open_success : CircuitBreaker → CircuitBreaker
half_open_success b = record b {
  stats = record b.stats { half_open_successes = b.stats.half_open_successes + 1 };
}

abbrev close_if_recovered : CircuitBreaker → CircuitBreaker
close_if_recovered b =
    if leb b.config.half_open_requests b.stats.half_open_successes
    then transition_to closed 0 b
    else b

pub record_success : ℕ → CircuitBreaker → CircuitBreaker
unfolding transition_to
record_success stamp b = elim b.state [
  | half_open ↦ close_if_recovered (half_open_success (count_success stamp b))
  | closed ↦
      let c = count_success stamp b in record c { stats = record c.stats { current_failures = 0 } }
  | opened ↦ count_success stamp b
]

-- `_record_failure`; the readings are for `last_failure_time`, the window, and `opened_at`
abbrev count_failure : ℕ → ℕ → CircuitBreaker → CircuitBreaker
count_failure stamp now b = cleanup_old_failures now (record b {
  stats = record b.stats {
    failed_calls = b.stats.failed_calls + 1;
    last_failure_time = some stamp;
    current_failures = b.stats.current_failures + 1;
  };
  failure_times = b.failure_times ++ now ∷ [];
})

abbrev open_if_failing : ℕ → CircuitBreaker → CircuitBreaker
open_if_failing later b =
    if leb b.config.failure_threshold (length b.failure_times)
    then transition_to opened later b
    else b

pub record_failure : ℕ → ℕ → ℕ → CircuitBreaker → CircuitBreaker
unfolding transition_to cleanup_old_failures
record_failure stamp now later b =
    let c = count_failure stamp now b in
    elim b.state [
      | half_open ↦ transition_to opened later c
      | closed ↦ open_if_failing later c
      | opened ↦ c
    ]

pub force_open : ℕ → CircuitBreaker → CircuitBreaker
unfolding transition_to
force_open now b = transition_to opened now b

pub force_close : CircuitBreaker → CircuitBreaker
unfolding transition_to
force_close b = transition_to closed 0 b

-- `get_status`
pub record Status : Type 0 where
  pub name : String
  pub state : CircuitState
  pub total_calls : ℕ
  pub successful_calls : ℕ
  pub failed_calls : ℕ
  pub rejected_calls : ℕ
  pub current_failures : ℕ
  pub state_changes : ℕ
  pub failure_threshold : ℕ
  pub recovery_timeout : ℕ
  pub half_open_requests : ℕ
  pub time_left : Option ℕ

pub get_status : ℕ → CircuitBreaker → Status
unfolding time_until_reset
get_status now b = record {
  name = b.name;
  state = b.state;
  total_calls = b.stats.total_calls;
  successful_calls = b.stats.successful_calls;
  failed_calls = b.stats.failed_calls;
  rejected_calls = b.stats.rejected_calls;
  current_failures = b.stats.current_failures;
  state_changes = b.stats.state_changes;
  failure_threshold = b.config.failure_threshold;
  recovery_timeout = b.config.recovery_timeout;
  half_open_requests = b.config.half_open_requests;
  time_left = elim b.state [ opened ↦ some (time_until_reset now b) | _ ↦ none ];
}
