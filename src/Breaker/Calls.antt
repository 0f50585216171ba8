-- ===== src/Breaker/Calls.antt =====
-- Concurrent calls through one breaker (circuit_breaker.py). `call` holds the lock only before and
-- after the function runs, so calls interleave at those points.
use auditlens.Prelude.{ℕ, ◌+◌, ◌-◌, ◌<◌, ◌≡◌, String, arith}
use auditlens.Breaker.{
  CircuitState, closed, opened, half_open, CircuitBreakerConfig, CircuitBreaker, admitted, rejected,
  init, admit, record_success, record_failure, force_open, force_close,
}
use auditlens.Breaker.Invariant.{
  IsUsable, IsValid, init-IsValid, admit-IsValid, record_success-IsValid, record_failure-IsValid,
  force_open-IsValid, force_close-IsValid,
}

-- What the function of a call does. A cancellation is no `Exception`: it is not recorded.
pub data Outcome : Type 0 where
  returns : Outcome
  raises : Outcome
  cancelled : Outcome

-- The breaker, the calls whose function runs now, and those that were cancelled.
pub record Pool : Type 0 where
  pub breaker : CircuitBreaker
  pub running : ℕ
  pub lost : ℕ

-- The end of a call, under the lock again.
unfoldable pub finish : Outcome → ℕ → ℕ → ℕ → CircuitBreaker → CircuitBreaker
finish returns stamp now later b = record_success stamp b
finish raises stamp now later b = record_failure stamp now later b
finish cancelled stamp now later b = b

-- The clock readings of one call: at its start, for the message of a rejection, for the wall-clock
-- stamp, for the window of failures, and for `_opened_at`.
pub record Readings : Type 0 where
  pub entry : ℕ
  pub message : ℕ
  pub stamp : ℕ
  pub failed : ℕ
  pub reopened : ℕ

pub data CallResult : Type 0 where
  ran : Outcome → CallResult
  circuit_open : ℕ → CallResult

-- `call`, with no other call between its parts
unfoldable pub call : Readings → Outcome → CircuitBreaker → CircuitBreaker × CallResult
call r o b =
    let (c, a) = admit r.entry r.message b in
    elim a [
      | admitted ↦ (finish o r.stamp r.failed r.reopened c, ran o)
      | rejected left ↦ (c, circuit_open left)
    ]

abbrev lost_by : Outcome → ℕ
lost_by cancelled = 1
lost_by _ = 0

pub data Step : Pool → Pool → Type 0 where
  start :
      (p : Pool) (now later : ℕ)
      → (admit now later p.breaker).1 ≡ admitted
      → Step p (record p { breaker = (admit now later p.breaker).0; running = p.running + 1 })
  refuse :
      (p : Pool) (now later : ℕ) {left : ℕ}
      → (admit now later p.breaker).1 ≡ rejected left
      → Step p (record p { breaker = (admit now later p.breaker).0 })
  end_call :
      (p : Pool) (o : Outcome) (stamp now later : ℕ)
      → 0 < p.running
      → Step p (record {
        breaker = finish o stamp now later p.breaker;
        running = p.running - 1;
        lost = p.lost + lost_by o;
      })

-- Calls, and an operator's `force_open` and `force_close`, in any order.
pub data Reach (s : Pool) : Pool → Type 0 where
  here : Reach s s
  next : {p q : Pool} → Reach s p → Step p q → Reach s q
  opened_by_hand :
      {p : Pool} (now : ℕ) → Reach s p → Reach s (record p { breaker = force_open now p.breaker })
  closed_by_hand : {p : Pool} → Reach s p → Reach s (record p { breaker = force_close p.breaker })

abbrev pub fresh : String → CircuitBreakerConfig → Pool
fresh name c = record { breaker = init name c; running = 0; lost = 0 }

-- Every call that was made is counted once: as succeeded, failed or rejected, or it still runs, or
-- it was cancelled.
abbrev pub IsAccounted : Pool → Type 0
IsAccounted p =
    p.breaker.stats.total_calls
    ≡ p.breaker.stats.successful_calls + p.breaker.stats.failed_calls
      + p.breaker.stats.rejected_calls + p.running + p.lost

finish-IsValid :
    (o : Outcome) (stamp now later : ℕ) (b : CircuitBreaker)
    → IsValid b
    → IsValid (finish o stamp now later b)
unfolding finish
finish-IsValid returns stamp now later b v = record_success-IsValid stamp b v
finish-IsValid raises stamp now later b v = record_failure-IsValid stamp now later b v
finish-IsValid cancelled stamp now later b v = v

Step-IsValid : {p q : Pool} → Step p q → IsValid p.breaker → IsValid q.breaker
Step-IsValid (start p now later h) v = admit-IsValid now later p.breaker v
Step-IsValid (refuse p now later h) v = admit-IsValid now later p.breaker v
Step-IsValid (end_call p o stamp now later h) v = finish-IsValid o stamp now later p.breaker v

Step-IsAccounted : {p q : Pool} → Step p q → IsAccounted p → IsAccounted q
unfolding admit finish record_success record_failure
Step-IsAccounted (start p now later h) a = ground arith
Step-IsAccounted (refuse p now later h) a = ground arith
Step-IsAccounted (end_call p returns stamp now later h) a = ground arith
Step-IsAccounted (end_call p raises stamp now later h) a = ground arith
Step-IsAccounted (end_call p cancelled stamp now later h) a = ground arith

pub Reach-IsValid :
    {p q : Pool} → IsValid p.breaker × IsAccounted p → Reach p q → IsValid q.breaker × IsAccounted q
unfolding force_open force_close
Reach-IsValid h here = h
Reach-IsValid h (next r st) =
    let (v, a) = Reach-IsValid h r in (Step-IsValid st v, Step-IsAccounted st a)
Reach-IsValid h (opened_by_hand {p = p} now r) =
    let (v, a) = Reach-IsValid h r in (force_open-IsValid now p.breaker v, a)
Reach-IsValid h (closed_by_hand {p = p} r) =
    let (v, a) = Reach-IsValid h r in (force_close-IsValid p.breaker v, a)

-- From a new breaker with a usable configuration, whatever calls interleave and whatever an
-- operator forces: the invariant holds and every call is accounted for.
pub fresh-IsAccounted :
    (name : String) (c : CircuitBreakerConfig) (q : Pool)
    → IsUsable c
    → Reach (fresh name c) q
    → IsValid q.breaker × IsAccounted q
fresh-IsAccounted name c q u r = Reach-IsValid (init-IsValid name c u, omega arith) r

-- The documented diagram of the states.
pub data Edge : CircuitState → CircuitState → Type 0 where
  stay : {s : CircuitState} → Edge s s
  trip : Edge closed opened
  probing : Edge opened half_open
  relapse : Edge half_open opened
  recover : Edge half_open closed

admit-Edge : (now later : ℕ) (b : CircuitBreaker) → Edge b.state (admit now later b).0.state
unfolding admit
admit-Edge now later b = grind (arith, stay, probing)

record_success-Edge : (stamp : ℕ) (b : CircuitBreaker) → Edge b.state (record_success stamp b).state
unfolding record_success
record_success-Edge stamp b = grind (arith, stay, recover)

record_failure-Edge :
    (stamp now later : ℕ) (b : CircuitBreaker)
    → Edge b.state (record_failure stamp now later b).state
unfolding record_failure
record_failure-Edge stamp now later b = grind (arith, stay, trip, relapse)

-- Each step of a call keeps the state or follows an edge of the diagram: none leads from CLOSED to
-- HALF_OPEN or from OPEN to CLOSED.
pub Step-Edge : {p q : Pool} → Step p q → Edge p.breaker.state q.breaker.state
unfolding finish
Step-Edge (start p now later h) = admit-Edge now later p.breaker
Step-Edge (refuse p now later h) = admit-Edge now later p.breaker
Step-Edge (end_call p returns stamp now later h) = record_success-Edge stamp p.breaker
Step-Edge (end_call p raises stamp now later h) = record_failure-Edge stamp now later p.breaker
Step-Edge (end_call p cancelled stamp now later h) = stay
