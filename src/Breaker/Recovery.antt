-- ===== src/Breaker/Recovery.antt =====
-- How an open breaker recovers (circuit_breaker.py).
use auditlens.Prelude.{
  ℕ, zero, suc, ◌+◌, ◌-◌, ◌≤◌, subst, ◌≡◌, refl, some, List, [], ◌∷◌, arith, length,
}
use auditlens.Breaker.{
  closed, opened, half_open, CircuitBreaker, admitted, rejected, admit, record_success,
}
use auditlens.Breaker.Calls.{Readings, returns, call, finish}

-- Calls whose function returns, one after the other.
pub calls_returning : List Readings → CircuitBreaker → CircuitBreaker
calls_returning [] b = b
calls_returning (r ∷ rs) b = calls_returning rs (call r returns b).0

-- A breaker that probes, `left` successes short of closing.
pub record IsProbing (left : ℕ) (b : CircuitBreaker) : Type 0 where
  pub is_half_open : b.state ≡ half_open
  pub short : b.stats.half_open_successes + left ≡ b.config.half_open_requests

call-probe :
    (r : Readings) (b : CircuitBreaker) {t : ℕ}
    → b.state ≡ opened
    → b.opened_at ≡ some t
    → t + b.config.recovery_timeout ≤ r.entry
    → 2 ≤ b.config.half_open_requests
    → IsProbing (b.config.half_open_requests - 1) (call r returns b).0
unfolding call finish admit record_success
call-probe r b e o late many = ground arith

call-IsProbing :
    (r : Readings) (b : CircuitBreaker) (left : ℕ)
    → IsProbing (suc (suc left)) b
    → IsProbing (suc left) (call r returns b).0
unfolding call finish admit record_success
call-IsProbing r b left p = ground arith

call-closes :
    (r : Readings) (b : CircuitBreaker)
    → IsProbing 1 b
    → ((call r returns b).0.state ≡ closed) × ((call r returns b).0.failure_times ≡ [])
unfolding call finish admit record_success
call-closes r b p = ground arith

probing_closes :
    (rs : List Readings) (left : ℕ) (b : CircuitBreaker)
    → IsProbing (suc left) b
    → length rs ≡ suc left
    → ((calls_returning rs b).state ≡ closed) × ((calls_returning rs b).failure_times ≡ [])
unfolding calls_returning
probing_closes [] left b p e = absurd (omega arith)
probing_closes (r ∷ []) zero b p e = call-closes r b p
probing_closes (r ∷ []) (suc left) b p e = absurd (omega arith)
probing_closes (r ∷ s ∷ rs) zero b p e = absurd (omega arith)
probing_closes (r ∷ s ∷ rs) (suc left) b p e =
    probing_closes (s ∷ rs) left (call r returns b).0 (call-IsProbing r b left p) (omega arith)

-- An OPEN circuit recovers: once the timeout has passed, as many returning calls as the
-- configuration asks for (two or more), one after the other, leave it CLOSED with no failure
-- remembered.
pub open_recovers :
    (r : Readings) (rs : List Readings) (b : CircuitBreaker) {t : ℕ}
    → b.state ≡ opened
    → b.opened_at ≡ some t
    → t + b.config.recovery_timeout ≤ r.entry
    → 2 ≤ b.config.half_open_requests
    → length (r ∷ rs) ≡ b.config.half_open_requests
    → ((calls_returning (r ∷ rs) b).state ≡ closed)
      × ((calls_returning (r ∷ rs) b).failure_times ≡ [])
unfolding calls_returning
open_recovers r rs b e o late many n =
    probing_closes rs (b.config.half_open_requests - 2) (call r returns b).0
      (let s : b.config.half_open_requests - 1 ≡ suc (b.config.half_open_requests - 2) =
          omega arith in
        subst (λ k. IsProbing k (call r returns b).0) s (call-probe r b e o late many))
      (omega arith)

-- The starts of calls, with no end between them; counts those that were let through.
pub admit_all : List Readings → CircuitBreaker → CircuitBreaker × ℕ
admit_all [] b = (b, 0)
admit_all (r ∷ rs) b =
    let (c, a) = admit r.entry r.message b in
    let (d, n) = admit_all rs c in (d, elim a [ admitted ↦ n + 1 | rejected _ ↦ n ])

-- HALF_OPEN has no limit on the calls under way: however many start before one ends, all are let
-- through.
pub half_open_admits_all :
    (rs : List Readings) (b : CircuitBreaker)
    → b.state ≡ half_open
    → ((admit_all rs b).0.state ≡ half_open) × ((admit_all rs b).1 ≡ length rs)
unfolding admit_all admit
half_open_admits_all [] b e = (e, refl)
half_open_admits_all (r ∷ rs) b e =
    ground (arith, half_open_admits_all rs (admit r.entry r.message b).0)
