-- ===== src/Retry/Tests.antt =====
-- The retry helpers on concrete policies (retry.py).
use auditlens.Prelude.{
  ℕ, ◌+◌, ◌-◌, ◌*◌, ◌≤◌, ◌≡◌, refl, true, [], ◌∷◌, String, arith, str_eq, ◌==◌, if◌then◌else◌,
}
use auditlens.Prelude.Int.{ℤ, pos}
use auditlens.Retry.{
  RetryPolicy, get_delay, Attempt, returned, raised, value, finish_attempt, attempts,
  retry_with_backoff,
}
use auditlens.Retry.Budget.{RetryBudget, new_budget, acquire_all, grants, grants-le}
use auditlens.Retry.Loop.{IsExplained, retry_with_backoff-IsExplained}

abbrev policy : RetryPolicy String
policy = record {
  max_retries = 3;
  base_delay = 1;
  max_delay = 60;
  exponential_base = 2;
  jitter = true;
  is_retryable = λ e. str_eq e "timeout";
}

-- always the middle of the range
abbrev middle : ℕ → ℕ → ℤ
middle attempt r = pos 0

-- Two timeouts, and then a result.
abbrev flaky : ℕ → ℕ × Attempt ℕ String
flaky n = (n + 1, if n == 2 then returned 7 else raised "timeout")

retry_with_backoff-IsExplained_example :
    IsExplained flaky
      (get_delay middle)
      policy
      0
      0
      (retry_with_backoff flaky (get_delay middle) policy 0)
retry_with_backoff-IsExplained_example =
    retry_with_backoff-IsExplained flaky (get_delay middle) policy 0

flaky_run : (retry_with_backoff flaky (get_delay middle) policy 0).result ≡ value 7
unfolding retry_with_backoff attempts finish_attempt
flaky_run = refl

grants-le_example :
    grants (acquire_all (1 ∷ 1 ∷ 1 ∷ 4 ∷ []) (new_budget 1 2 2 0)).1 * 2 ≤ 2 * 2 + (5 - 0) * 1
grants-le_example =
    grants-le 1 2 2 0 5 (1 ∷ 1 ∷ 1 ∷ 4 ∷ [])
      (omega arith, (omega arith, (omega arith, (omega arith, omega arith))))

abbrev empty_budget : RetryBudget
empty_budget = record { rate = 1; scale = 2; bucket_size = 2; tokens = pos 0; last_refill = 0 }
