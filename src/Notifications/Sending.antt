-- ===== src/Notifications/Sending.antt =====
-- `_send_with_retry` (notifier.py). The call of `_dispatch`, the sleep and the monotonic clock act
-- on a state of the outside.
pub mod Deadline
use auditlens.Prelude.{
  ℕ, ◌+◌, Bool, true, false, Option, none, some, List, [], ◌∷◌, leb, ◌==◌, suc, if◌then◌else◌,
}

-- `_dispatch` returns a truth value or raises
pub data Outcome (E : Type 0) : Type 0 where
  returned : Bool → Outcome E
  raised : E → Outcome E

pub data Ending (E : Type 0) : Type 0 where
  delivered abandoned : Ending E
  -- the last error, which is logged
  gave_up : Option E → Ending E

pub record Sending (S E : Type 0) : Type 0 where
  pub final : S
  pub ending : Ending E
  -- the times at which `_dispatch` was called
  pub calls : List ℕ

pub record World (S E : Type 0) : Type 0 where
  pub dispatch : S → S × Outcome E
  pub sleep : ℕ → S → S
  pub clock : S → ℕ

abbrev thread_timeout : ℕ
thread_timeout = 30

-- 0 and `RETRY_BACKOFFS_SECONDS`
abbrev backoffs : List ℕ
backoffs = 0 ∷ 2 ∷ 4 ∷ 8 ∷ []

module _ {S E : Type 0} (w : World S E) where
  abbrev pub pause : ℕ → S → S
  pause backoff s = if backoff == 0 then s else w.sleep backoff s

  abbrev pub called : ℕ → Sending S E → Sending S E
  called time r = record r { calls = time ∷ r.calls }

  abbrev pub stop : S → Ending E → Sending S E
  stop s ending = record { final = s; ending = ending; calls = [] }

  -- the test of the deadline, with what happens otherwise
  abbrev pub unless_late : Bool → S → ℕ → Sending S E → Sending S E
  unless_late true s time r = stop s abandoned
  unless_late false s time r = called time r

  -- what follows a call
  abbrev pub follow : Outcome E → S → Option E → (Option E → Sending S E) → Sending S E
  follow (returned true) s last_err go_on = stop s delivered
  follow (returned false) s last_err go_on = go_on last_err
  follow (raised e) s last_err go_on = go_on (some e)

  -- the loop over the backoffs that are left
  unfoldable pub attempts : ℕ → List ℕ → Option E → S → Sending S E
  attempts deadline [] last_err s = stop s (gave_up last_err)
  attempts deadline (backoff ∷ rest) last_err s =
      let s1 = pause backoff s in
      let (s2, outcome) = w.dispatch s1 in
      unless_late (leb deadline (w.clock s1)) s1 (w.clock s1)
        (follow outcome s2 last_err (λ e. attempts deadline rest e s2))

  -- `_send_with_retry`
  unfoldable pub send_with_retry : S → Sending S E
  send_with_retry s = attempts (w.clock s + thread_timeout) backoffs none s
