-- ===== src/Notifications/Rate.antt =====
-- The rate limit of a destination: `_consume_rate_slot` and `_flush_expired_windows` (notifier.py),
-- on the readings of a monotonic clock in seconds.
pub mod Accounting
pub mod Windows
use auditlens.Prelude.{
  ℕ, ◌+◌, Bool, true, false, Option, none, some, List, [], ◌∷◌, ◌++◌, String, ltb, leb, length,
  if◌then◌else◌,
}
use auditlens.Prelude.Eq.{string_eq}
use auditlens.Prelude.Assoc.{Dict, lookup, insert, map_values}

-- who did what, for the text of a summary
pub record Sample : Type 0 where
  pub actor : String
  pub action : String

-- an entry of `_rate_state`
pub record RateState : Type 0 where
  pub window_start : ℕ
  pub sent : ℕ
  pub suppressed : ℕ
  pub sample : List Sample

abbrev pub Rates : Type 0
Rates = Dict String RateState

pub record Summary : Type 0 where
  pub count : ℕ
  pub sample : List Sample

abbrev pub rate_window : ℕ
rate_window = 60

abbrev pub sample_cap : ℕ
sample_cap = 5

-- `now - state["window_start"] >= RATE_LIMIT_WINDOW_SECONDS`
abbrev pub is_over : ℕ → RateState → Bool
is_over now state = leb (state.window_start + rate_window) now

abbrev pub fresh : ℕ → RateState
fresh now = record { window_start = now; sent = 0; suppressed = 0; sample = [] }

abbrev pub roll : ℕ → RateState → RateState
roll now state = if is_over now state then fresh now else state

abbrev pub current : ℕ → Option RateState → RateState
current now none = fresh now
current now (some state) = roll now state

-- What a window that is over has suppressed.
abbrev pub summary_of : ℕ → RateState → Option Summary
summary_of now state =
    if is_over now state
    then (if ltb 0 state.suppressed
        then some (record { count = state.suppressed; sample = state.sample })
        else none)
    else none

abbrev pub pending_summary : ℕ → Option RateState → Option Summary
pending_summary now none = none
pending_summary now (some state) = summary_of now state

abbrev pub add_sample : Sample → List Sample → List Sample
add_sample item sample = if ltb (length sample) sample_cap then sample ++ item ∷ [] else sample

unfoldable pub take_slot : ℕ → Sample → RateState → RateState × Bool
take_slot limit item state =
    if ltb state.sent limit then (record state { sent = state.sent + 1 }, true) else (
      record state { suppressed = state.suppressed + 1; sample = add_sample item state.sample },
      false,
    )

-- `_consume_rate_slot`: the new states, whether the event may go, and a summary that is due
unfoldable pub consume_slot : String → ℕ → Sample → ℕ → Rates → Rates × Bool × Option Summary
consume_slot name limit item now rates =
    let before = lookup name rates in
    let (state, allowed) = take_slot limit item (current now before) in
    (insert name state rates, allowed, pending_summary now before)

due : ℕ → Rates → List (String × Summary)
due now [] = []
due now ((name, state) ∷ rates) = elim (summary_of now state) [
  | none ↦ due now rates
  | some summary ↦ (name, summary) ∷ due now rates
]

-- `_flush_expired_windows` up to the lookup of the destinations
unfoldable pub flush_windows : ℕ → Rates → Rates × List (String × Summary)
unfolding due
flush_windows now rates = (map_values (roll now) rates, due now rates)
