-- ===== src/Notifications/Rate/Windows.antt =====
-- How many events the rate limit lets through in a minute (notifier.py).
use auditlens.Prelude.{
  ℕ, ◌+◌, ◌-◌, ◌≤◌, ◌<◌, Option, none, some, List, [], ◌∷◌, String, arith, leb, str_eq, eq_iff,
  if◌then◌else◌,
}
use auditlens.Prelude.Eq.{string_eq}
use auditlens.Prelude.Assoc.{lookup, lookup-insert, lookup-map_values}
use auditlens.Notifications.Rate.{
  Sample, RateState, Rates, roll, current, take_slot, consume_slot, flush_windows,
}

-- A request for a slot, or a pass of the timer, each with its time.
pub data Op : Type 0 where
  ask : String → Sample → ℕ → Op
  flush : ℕ → Op

module _ (limit_of : String → ℕ) where
  unfoldable pub step : Op → Rates → Rates
  step (ask name item now) rates = (consume_slot name (limit_of name) item now rates).0
  step (flush now) rates = (flush_windows now rates).0

  -- The events of a destination that one operation lets through.
  unfoldable pub passed : String → Op → Rates → ℕ
  passed j (ask name item now) rates =
      if str_eq name j
      then (if (consume_slot name (limit_of name) item now rates).1 then 1 else 0)
      else 0
  passed j (flush now) rates = 0

  unfoldable pub let_through : String → List Op → Rates → ℕ
  let_through j [] rates = 0
  let_through j (op ∷ ops) rates = passed j op rates + let_through j ops (step op rates)

abbrev pub time_of : Op → ℕ
time_of (ask name item now) = now
time_of (flush now) = now

-- All operations fall into the minute that begins at `t`.
abbrev pub Within : ℕ → List Op → Type 0
Within t [] = Unit
Within t (op ∷ ops) = (t ≤ time_of op) × (time_of op < t + 60) × Within t ops

-- What may still go out in the minute that begins at `t`: a window that began before may end in it.
abbrev budget : ℕ → ℕ → Option RateState → ℕ
budget t limit none = limit
budget t limit (some state) =
    if leb t state.window_start then limit - state.sent else limit + (limit - state.sent)

module _ (limit_of : String → ℕ) (t : ℕ) (j : String) where
  passed-le-budget :
      (op : Op) (rates : Rates)
      → t ≤ time_of op
      → time_of op < t + 60
      → passed limit_of j op rates + budget t (limit_of j) (lookup j (step limit_of op rates))
        ≤ budget t (limit_of j) (lookup j rates)
  unfolding passed step consume_slot take_slot flush_windows
  passed-le-budget (ask name item now) rates h k = ground (
    arith,
    eq_iff name j,
    lookup-insert name j (take_slot (limit_of name) item (current now (lookup name rates))).0 rates,
  )
  passed-le-budget (flush now) rates h k = ground (arith, lookup-map_values (roll now) j rates)

  let_through-le-budget :
      (ops : List Op) (rates : Rates)
      → Within t ops
      → let_through limit_of j ops rates ≤ budget t (limit_of j) (lookup j rates)
  unfolding let_through
  let_through-le-budget [] rates h = omega arith
  let_through-le-budget (op ∷ ops) rates h = omega (
    arith,
    passed-le-budget op rates h.0 h.1,
    let_through-le-budget ops (step limit_of op rates) h.2,
  )

-- Whatever state the limiter is in, at most twice the limit of a destination is let through in any
-- minute, whichever requests and passes of the timer fall into it.
pub let_through-le :
    (limit_of : String → ℕ) (t : ℕ) (j : String) (ops : List Op) (rates : Rates)
    → Within t ops
    → let_through limit_of j ops rates ≤ limit_of j + limit_of j
let_through-le limit_of t j ops rates h =
    ground (arith, let_through-le-budget limit_of t j ops rates h)
