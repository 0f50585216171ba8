-- ===== src/Breaker/Window.antt =====
-- When a closed breaker trips, over whole histories of reports (circuit_breaker.py).
use auditlens.Prelude.{
  ℕ, ◌+◌, ◌≤◌, ◌≡◌, refl, Bool, true, false, ◌||◌, List, [], ◌∷◌, ◌++◌, arith, ltb, leb, length,
  keep_if, keep_if-append, Bool-cases, inl, inr, if◌then◌else◌,
}
use auditlens.Breaker.{closed, opened, CircuitBreaker, record_success, record_failure}

-- The ends of calls that a closed breaker sees.
pub data Report : Type 0 where
  success : ℕ → Report
  failure : ℕ → ℕ → ℕ → Report

pub report : Report → CircuitBreaker → CircuitBreaker
report (success stamp) b = record_success stamp b
report (failure stamp now later) b = record_failure stamp now later b

pub reports : List Report → CircuitBreaker → CircuitBreaker
reports [] b = b
reports (r ∷ rs) b = reports rs (report r b)

-- The clock does not run backwards between failures.
abbrev pub Rising : ℕ → List Report → Type 0
Rising last [] = Unit
Rising last (success _ ∷ rs) = Rising last rs
Rising last (failure _ now _ ∷ rs) = (last ≤ now) × Rising now rs

-- The failures of a history that lie in the window which ends at `now`.
abbrev pub within : ℕ → ℕ → List ℕ → List ℕ
within window now h = keep_if (λ t. ltb now (t + window)) h

-- The specification, on the whole history `h` of failures: some failure is the k-th in its window.
abbrev pub has_burst : ℕ → ℕ → List ℕ → List Report → Bool
has_burst window k h [] = false
has_burst window k h (success _ ∷ rs) = has_burst window k h rs
has_burst window k h (failure _ now _ ∷ rs) =
    leb k (length (within window now (h ++ now ∷ []))) || has_burst window k (h ++ now ∷ []) rs

-- What has left the window stays out of it.
within-within :
    (window last now : ℕ) (h : List ℕ)
    → last ≤ now
    → within window now (within window last h) ≡ within window now h
within-within window last now [] le = refl
within-within window last now (t ∷ h) le = ground (arith, within-within window last now h le)

within-append :
    (window last now : ℕ) (h : List ℕ)
    → last ≤ now
    → within window now (within window last h ++ now ∷ []) ≡ within window now (h ++ now ∷ [])
within-append window last now h le = simp (keep_if-append, within-within window last now h le)

reports-opened :
    (rs : List Report) (b : CircuitBreaker) → b.state ≡ opened → (reports rs b).state ≡ opened
unfolding reports report record_success record_failure
reports-opened [] b e = e
reports-opened (success stamp ∷ rs) b e = reports-opened rs _ (ground arith)
reports-opened (failure stamp now later ∷ rs) b e = reports-opened rs _ (ground arith)

-- A breaker that is closed after the failures of `h`, the last of them at `last`.
pub record HasSeen (window k last : ℕ) (h : List ℕ) (b : CircuitBreaker) : Type 0 where
  pub window_eq : b.config.failure_window ≡ window
  pub threshold_eq : b.config.failure_threshold ≡ k
  pub is_closed : b.state ≡ closed
  pub recent : b.failure_times ≡ within window last h

module _ (window k : ℕ) where
  success-HasSeen :
      (stamp last : ℕ) (h : List ℕ) (b : CircuitBreaker)
      → HasSeen window k last h b
      → HasSeen window k last h (record_success stamp b)
  unfolding record_success
  success-HasSeen stamp last h b s = ground arith

  failure-opened :
      (stamp now later last : ℕ) (h : List ℕ) (b : CircuitBreaker)
      → HasSeen window k last h b
      → last ≤ now
      → leb k (length (within window now (h ++ now ∷ []))) ≡ true
      → (record_failure stamp now later b).state ≡ opened
  unfolding record_failure
  failure-opened stamp now later last h b s le full =
      ground (arith, within-append window last now h le)

  failure-HasSeen :
      (stamp now later last : ℕ) (h : List ℕ) (b : CircuitBreaker)
      → HasSeen window k last h b
      → last ≤ now
      → leb k (length (within window now (h ++ now ∷ []))) ≡ false
      → HasSeen window k now (h ++ now ∷ []) (record_failure stamp now later b)
  unfolding record_failure
  failure-HasSeen stamp now later last h b s le few =
      ground (arith, within-append window last now h le)

  -- From a closed breaker that has seen the given failures (a new one has seen none), with a clock
  -- that does not run back, the state after any history of reports is the specification's: it opens
  -- exactly when some failure is the k-th in its window, however many successes lie between.
  pub reports-has_burst :
      (rs : List Report) (last : ℕ) (h : List ℕ) (b : CircuitBreaker)
      → Rising last rs
      → HasSeen window k last h b
      → (reports rs b).state ≡ (if has_burst window k h rs then opened else closed)
  unfolding reports report
  reports-has_burst [] last h b up s = s.is_closed
  reports-has_burst (success stamp ∷ rs) last h b up s =
      reports-has_burst rs last h (record_success stamp b) up (success-HasSeen stamp last h b s)
  reports-has_burst (failure stamp now later ∷ rs) last h b (le, up) s =
      elim (Bool-cases (leb k (length (within window now (h ++ now ∷ []))))) [
        | inl full ↦ rw full (
            reports-opened rs (record_failure stamp now later b)
              (failure-opened stamp now later last h b s le full))
        | inr few ↦ rw few (
            reports-has_burst rs now (h ++ now ∷ []) (record_failure stamp now later b) up
              (failure-HasSeen stamp now later last h b s le few))
      ]
