-- ===== src/Retry.antt =====
-- src/resilience/retry.py: the policy of delays and the retry loop. The bucket of tokens is in
-- Budget. Delays are naturals in one unit; a delay with its jitter is in quarters of that unit.
pub mod Budget
pub mod Loop
pub mod Delay
mod Tests
use auditlens.Prelude.{
  ℕ, zero, suc, ◌+◌, ◌-◌, ◌*◌, ◌^◌, min, ◌≡◌, Bool, true, false, not, List, [], ◌∷◌, leb,
  if◌then◌else◌,
}
use auditlens.Prelude.Int.{ℤ, pos, negsuc, ◌+ℤ◌}

pub record RetryPolicy (E : Type 0) : Type 0 where
  pub max_retries : ℕ
  pub base_delay : ℕ
  pub max_delay : ℕ
  pub exponential_base : ℕ
  pub jitter : Bool
  pub is_retryable : E → Bool

-- the delay before jitter
unfoldable pub capped_delay : {E : Type 0} → RetryPolicy E → ℕ → ℕ
capped_delay p attempt = min (p.base_delay * p.exponential_base ^ attempt) p.max_delay

-- `max(0, delay)`
abbrev pub at_least_zero : ℤ → ℕ
at_least_zero (pos n) = n
at_least_zero (negsuc n) = 0

-- `get_delay` in quarters. `uniform attempt r` is what `random.uniform(-r, r)` draws, in quarters,
-- for a range of r quarters.
unfoldable pub get_delay : {E : Type 0} → (ℕ → ℕ → ℤ) → RetryPolicy E → ℕ → ℕ
unfolding capped_delay
get_delay uniform p attempt =
    let delay = capped_delay p attempt in
    if p.jitter then at_least_zero (pos (4 * delay) +ℤ uniform attempt delay) else 4 * delay

-- How one call of the function ends.
pub data Attempt (A E : Type 0) : Type 0 where
  returned : A → Attempt A E
  raised : E → Attempt A E

-- The call of `on_retry` and the sleep between two attempts.
pub record Retry (E : Type 0) : Type 0 where
  pub attempt : ℕ
  pub error : E
  pub delay : ℕ

pub data Result (A E : Type 0) : Type 0 where
  value : A → Result A E
  retry_exhausted : ℕ → E → Result A E
  other_error : E → Result A E
  no_result : Result A E

pub record Run (S A E : Type 0) : Type 0 where
  pub final : S
  pub result : Result A E
  pub retries : List (Retry E)

module _ {S A E : Type 0} (func : S → S × Attempt A E) (delay_of : RetryPolicy E → ℕ → ℕ)
    (p : RetryPolicy E) where
  -- One round: the way the call ended, and the rounds after it.
  unfoldable pub finish_attempt : S → Attempt A E → ℕ → Run S A E → Run S A E
  finish_attempt s (returned a) attempt rest = record { final = s; result = value a; retries = [] }
  finish_attempt s (raised e) attempt rest =
      if not (p.is_retryable e)
      then record { final = s; result = other_error e; retries = [] }
      else if leb p.max_retries attempt
      then record { final = s; result = retry_exhausted (attempt + 1) e; retries = [] }
      else record rest {
        retries =
            record { attempt = attempt; error = e; delay = delay_of p attempt } ∷ rest.retries;
      }

  -- The loop over `range(max_retries + 1)`: what is left of the range, and the attempt.
  unfoldable pub attempts : ℕ → ℕ → S → Run S A E
  attempts zero attempt s = record { final = s; result = no_result; retries = [] }
  attempts (suc left) attempt s =
      let (s', outcome) = func s in
      finish_attempt s' outcome attempt (attempts left (suc attempt) s')

  unfoldable pub retry_with_backoff : S → Run S A E
  retry_with_backoff s = attempts (suc p.max_retries) 0 s
