-- ===== src/Notifications/Rate/Accounting.antt =====
-- What becomes of the events that the rate limit holds back (notifier.py).
use auditlens.Prelude.{
  ℕ, Bool, ◌+◌, ◌≡◌, refl, Option, none, some, List, [], ◌∷◌, String, arith, str_eq, eq_iff,
  if◌then◌else◌,
}
use auditlens.Prelude.Eq.{string_eq}
use auditlens.Prelude.Assoc.{
  lookup, Distinct, lookup-insert, insert-Distinct, lookup-map_values, map_values-Distinct,
}
use auditlens.Notifications.Rate.{
  RateState, Rates, Summary, roll, current, take_slot, consume_slot, flush_windows, pending_summary,
  due,
}
use auditlens.Notifications.Rate.Windows.{Op, ask, flush, step, passed, let_through}

-- the events that the summaries for a destination tell of
told : String → List (String × Summary) → ℕ
told j [] = 0
told j ((name, summary) ∷ rest) = (if str_eq name j then summary.count else 0) + told j rest

abbrev count_of : Option Summary → ℕ
count_of none = 0
count_of (some summary) = summary.count

abbrev held_in : Option RateState → ℕ
held_in none = 0
held_in (some state) = state.suppressed

-- the events held back that no summary has told of yet
pub held : String → Rates → ℕ
held j rates = held_in (lookup j rates)

-- `enabled now j`: at that time `_flush_expired_windows` finds a destination of the name, and it is
-- enabled.
module _ (limit_of : String → ℕ) (enabled : ℕ → String → Bool) where
  -- the events that one operation reports in summaries
  pub reported_by : String → Op → Rates → ℕ
  reported_by j (ask name item now) rates =
      if str_eq name j then count_of (consume_slot name (limit_of name) item now rates).2 else 0
  reported_by j (flush now) rates = if enabled now j then told j (flush_windows now rates).1 else 0

  unfoldable pub reported : String → List Op → Rates → ℕ
  reported j [] rates = 0
  reported j (op ∷ ops) rates = reported_by j op rates + reported j ops (step limit_of op rates)

  -- the events whose summary is dropped, for want of an enabled destination
  pub discarded_by : String → Op → Rates → ℕ
  discarded_by j (ask name item now) rates = 0
  discarded_by j (flush now) rates = if enabled now j then 0 else told j (flush_windows now rates).1

  unfoldable pub discarded : String → List Op → Rates → ℕ
  discarded j [] rates = 0
  discarded j (op ∷ ops) rates = discarded_by j op rates + discarded j ops (step limit_of op rates)

-- the requests for a destination
abbrev asks : String → Op → ℕ
asks j (ask name item now) = if str_eq name j then 1 else 0
asks j (flush now) = 0

unfoldable pub asked : String → List Op → ℕ
asked j [] = 0
asked j (op ∷ ops) = asks j op + asked j ops

module _ (limit_of : String → ℕ) where
  unfoldable pub after : List Op → Rates → Rates
  after [] rates = rates
  after (op ∷ ops) rates = after ops (step limit_of op rates)

told-due-absent :
    (j : String) (now : ℕ) (rates : Rates) → lookup j rates ≡ none → told j (due now rates) ≡ 0
unfolding told due lookup
told-due-absent j now [] h = refl
told-due-absent j now ((name, state) ∷ rates) h = ground (arith, told-due-absent j now rates)

told-due :
    (j : String) (now : ℕ) (rates : Rates)
    → Distinct rates
    → told j (due now rates) ≡ count_of (pending_summary now (lookup j rates))
unfolding told due lookup
told-due j now [] h = refl
told-due j now ((name, state) ∷ rates) h =
    ground (arith, eq_iff name j, told-due j now rates h.1, told-due-absent name now rates h.0)

module _ (limit_of : String → ℕ) (enabled : ℕ → String → Bool) (j : String) where
  step_balance :
      (op : Op) (rates : Rates)
      → Distinct rates
      → asks j op + held j rates
        ≡ passed limit_of j op rates
          + reported_by limit_of enabled j op rates
          + discarded_by limit_of enabled j op rates
          + held j (step limit_of op rates)
  unfolding passed step consume_slot take_slot flush_windows held reported_by discarded_by
  step_balance (ask name item now) rates h = ground (
    arith,
    eq_iff name j,
    lookup-insert name j (take_slot (limit_of name) item (current now (lookup name rates))).0 rates,
  )
  step_balance (flush now) rates h =
      ground (arith, lookup-map_values (roll now) j rates, told-due j now rates h)

  step-Distinct : (op : Op) (rates : Rates) → Distinct rates → Distinct (step limit_of op rates)
  unfolding step consume_slot flush_windows
  step-Distinct (ask name item now) rates h = insert-Distinct name _ rates h
  step-Distinct (flush now) rates h = map_values-Distinct (roll now) rates h

-- Over any sequence of requests and passes of the timer, from a table that has no name twice, the
-- requests for a destination and those held back before add up to those let through, those told of in
-- summaries, those whose summary is dropped because the destination is gone or disabled when the timer
-- passes, and those still held.
pub asked-balance :
    (limit_of : String → ℕ) (enabled : ℕ → String → Bool) (j : String) (ops : List Op)
    (rates : Rates)
    → Distinct rates
    → asked j ops + held j rates
      ≡ let_through limit_of j ops rates
        + reported limit_of enabled j ops rates
        + discarded limit_of enabled j ops rates
        + held j (after limit_of ops rates)
unfolding asked let_through reported discarded after
asked-balance limit_of enabled j [] rates h = omega arith
asked-balance limit_of enabled j (op ∷ ops) rates h = omega (
  arith,
  step_balance limit_of enabled j op rates h,
  asked-balance limit_of enabled j ops (step limit_of op rates)
      (step-Distinct limit_of enabled j op rates h),
)
