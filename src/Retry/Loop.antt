-- ===== src/Retry/Loop.antt =====
-- What `retry_with_backoff` does, told by the calls of the function (retry.py).
use auditlens.Prelude.{
  ℕ, zero, suc, ◌+◌, ◌≤◌, ◌≡◌, refl, subst, Bool, true, false, not, List, [], ◌∷◌, arith, leb,
  length, if◌then◌else◌,
}
use auditlens.Retry.{
  RetryPolicy, Attempt, returned, raised, Retry, Result, value, retry_exhausted, other_error,
  no_result, Run, finish_attempt, attempts, retry_with_backoff,
}

module _ {S A E : Type 0} (func : S → S × Attempt A E) (delay_of : RetryPolicy E → ℕ → ℕ)
    (p : RetryPolicy E) where
  -- Calls from the given attempt on that fail with retryable errors, with the sleeps after them.
  pub data Failing : ℕ → S → List (Retry E) → S → Type 0 where
    done : (n : ℕ) (s : S) → Failing n s [] s
    again :
        (n : ℕ) (s t u : S) (e : E) (rs : List (Retry E))
        → func s ≡ (t, raised e)
        → p.is_retryable e ≡ true
        → Failing (suc n) t rs u
        → Failing n s (record { attempt = n; error = e; delay = delay_of p n } ∷ rs) u

  -- The call that ends the loop after a number of sleeps.
  abbrev pub EndsWith : ℕ → S → S → Result A E → Type 0
  EndsWith n s t (value a) = (n ≤ p.max_retries) × (func s ≡ (t, returned a))
  EndsWith n s t (other_error e) =
      (n ≤ p.max_retries) × (func s ≡ (t, raised e)) × (p.is_retryable e ≡ false)
  EndsWith n s t (retry_exhausted k e) =
      (n ≡ p.max_retries) × (func s ≡ (t, raised e)) × (p.is_retryable e ≡ true) × (k ≡ n + 1)
  EndsWith n s t no_result = ⊥

  -- A run is told by failing calls and the call that ends it.
  pub record IsExplained (n : ℕ) (s : S) (r : Run S A E) : Type 0 where
    pub before : S
    pub failing : Failing n s r.retries before
    pub ends : EndsWith (n + length r.retries) before r.final r.result

  module _ (n : ℕ) (s t : S) (rest : Run S A E) (le : n ≤ p.max_retries) where
    no_retry :
        (r : Result A E)
        → EndsWith n s t r
        → IsExplained n s (record { final = t; result = r; retries = [] })
    no_retry r h = record {
      before = s;
      failing = done n s;
      ends = subst (λ k. EndsWith k s t r) (omega arith) h;
    }

    retried :
        (e : E)
        → func s ≡ (t, raised e)
        → p.is_retryable e ≡ true
        → IsExplained (suc n) t rest
        → IsExplained n s (record rest {
          retries = record { attempt = n; error = e; delay = delay_of p n } ∷ rest.retries;
        })
    retried e h may g = record {
      before = g.before;
      failing = again n s t g.before e rest.retries h may g.failing;
      ends = subst (λ k. EndsWith k g.before rest.final rest.result) (omega arith) g.ends;
    }

    finish_attempt-IsExplained :
        (o : Attempt A E)
        → func s ≡ (t, o)
        → (leb p.max_retries n ≡ false → IsExplained (suc n) t rest)
        → IsExplained n s (finish_attempt func delay_of p t o n rest)
    unfolding finish_attempt
    finish_attempt-IsExplained (returned a) h later = no_retry (value a) (le, h)
    finish_attempt-IsExplained (raised e) h later =
        go (p.is_retryable e) refl (leb p.max_retries n) refl
      where
        go :
            (y : Bool)
            → p.is_retryable e ≡ y
            → (l : Bool) → leb p.max_retries n ≡ l
            → IsExplained n s (
                if not y
                then record { final = t; result = other_error e; retries = [] }
                else if l
                then record { final = t; result = retry_exhausted (n + 1) e; retries = [] }
                else record rest {
                  retries = record { attempt = n; error = e; delay = delay_of p n } ∷ rest.retries;
                })
        go false never l el = no_retry (other_error e) (le, h, never)
        go true may true el = no_retry (retry_exhausted (n + 1) e) (ground arith, h, may, refl)
        go true may false el = retried e h may (later el)

  attempts-IsExplained :
      (left n : ℕ) (s : S)
      → n + left ≡ p.max_retries
      → IsExplained n s (attempts func delay_of p (suc left) n s)
  unfolding attempts
  attempts-IsExplained zero n s h =
      finish_attempt-IsExplained n s (func s).0 _ (omega arith) (func s).1 refl
        (λ not_last. elim (last not_last) [ ])
    where
      last : leb p.max_retries n ≡ false → ⊥
      last not_last = ground arith
  attempts-IsExplained (suc left) n s h =
      finish_attempt-IsExplained n s (func s).0 _ (omega arith) (func s).1 refl
        (λ _. attempts-IsExplained left (suc n) (func s).0 (omega arith))

  -- The function is called until it succeeds or raises what is not retryable, with a sleep of the
  -- attempt's delay after each other error, and at most once more than the allowed retries; only
  -- when all these calls failed is the error that they are exhausted raised, with their number.
  -- A run never ends without a result.
  pub retry_with_backoff-IsExplained :
      (s : S) → IsExplained 0 s (retry_with_backoff func delay_of p s)
  unfolding retry_with_backoff
  retry_with_backoff-IsExplained s = attempts-IsExplained p.max_retries 0 s (omega arith)
