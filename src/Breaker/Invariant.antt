-- ===== src/Breaker/Invariant.antt =====
-- What holds of a circuit breaker between any two method calls (circuit_breaker.py).
use auditlens.Prelude.{ℕ, ◌+◌, ◌≤◌, ◌<◌, ◌≡◌, true, some, String, arith, is_some, length}
use auditlens.Breaker.{
  closed, opened, half_open, CircuitBreakerConfig, CircuitBreaker, admitted, init, admit,
  record_success, record_failure, force_open, force_close,
}

-- A configuration with which the thresholds mean something.
pub record IsUsable (c : CircuitBreakerConfig) : Type 0 where
  pub some_failures : 0 < c.failure_threshold
  pub some_requests : 0 < c.half_open_requests

pub record IsValid (b : CircuitBreaker) : Type 0 where
  pub usable : IsUsable b.config
  pub open_has_time : b.state ≡ opened → is_some b.opened_at ≡ true
  pub closed_below : b.state ≡ closed → length b.failure_times < b.config.failure_threshold
  pub probing_below :
      b.state ≡ half_open → b.stats.half_open_successes < b.config.half_open_requests

pub init-IsValid : (name : String) (c : CircuitBreakerConfig) → IsUsable c → IsValid (init name c)
init-IsValid name c u = ground arith

pub admit-IsValid : (now later : ℕ) (b : CircuitBreaker) → IsValid b → IsValid (admit now later b).0
unfolding admit
admit-IsValid now later b v = ground arith

pub record_success-IsValid :
    (stamp : ℕ) (b : CircuitBreaker) → IsValid b → IsValid (record_success stamp b)
unfolding record_success
record_success-IsValid stamp b v = ground arith

pub record_failure-IsValid :
    (stamp now later : ℕ) (b : CircuitBreaker)
    → IsValid b
    → IsValid (record_failure stamp now later b)
unfolding record_failure
record_failure-IsValid stamp now later b v = ground arith

pub force_open-IsValid : (now : ℕ) (b : CircuitBreaker) → IsValid b → IsValid (force_open now b)
unfolding force_open
force_open-IsValid now b v = ground arith

pub force_close-IsValid : (b : CircuitBreaker) → IsValid b → IsValid (force_close b)
unfolding force_close
force_close-IsValid b v = ground arith

-- A circuit that is OPEN turns a call away exactly until the recovery timeout has passed.
pub admit_opened :
    (now later : ℕ) {t : ℕ} (b : CircuitBreaker)
    → b.state ≡ opened
    → b.opened_at ≡ some t
    → ((admit now later b).1 ≡ admitted → t + b.config.recovery_timeout ≤ now)
      × (t + b.config.recovery_timeout ≤ now → (admit now later b).1 ≡ admitted)
unfolding admit
admit_opened now later b e o = (ground arith, ground arith)
