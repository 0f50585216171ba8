-- ===== src/Notifications/Sending/Deadline.antt =====
-- When `_send_with_retry` calls, and when it stops (notifier.py).
use auditlens.Prelude.{
  suc, ℕ, ◌+◌, ◌≤◌, ◌<◌, ◌≡◌, refl, Bool, true, false, Option, none, some, List, [], ◌∷◌, arith,
  leb, All, length,
}
use auditlens.Notifications.Sending.{
  Outcome, returned, raised, Ending, delivered, abandoned, gave_up, Sending, World, pause, called,
  unless_late, follow, attempts, send_with_retry,
}

-- What an ending says of the calls that were allowed and of those that were made.
pub EndsRight : {E : Type 0} → ℕ → ℕ → Ending E → Type 0
EndsRight allowed made delivered = (0 < made) × (made ≤ allowed)
EndsRight allowed made abandoned = made < allowed
EndsRight allowed made (gave_up e) = made ≡ allowed

module _ {S E : Type 0} (w : World S E) (deadline : ℕ) where
  pub record IsPrompt (allowed : ℕ) (r : Sending S E) : Type 0 where
    pub in_time : All (λ t. t < deadline) r.calls
    pub ends : EndsRight allowed (length r.calls) r.ending

  called-IsPrompt :
      (n t : ℕ) (r : Sending S E) → t < deadline → IsPrompt n r → IsPrompt (suc n) (called w t r)
  unfolding EndsRight
  called-IsPrompt n t r h g = record { in_time = (h, g.in_time); ends = grown r.ending g.ends }
    where
      grown :
          (e : Ending E)
          → EndsRight n (length r.calls) e
          → EndsRight (suc n) (length (t ∷ r.calls)) e
      grown delivered k = omega (arith, k)
      grown abandoned k = omega (arith, k)
      grown (gave_up e) k = omega (arith, k)

  attempts-IsPrompt :
      (backoffs : List ℕ) (last : Option E) (s : S)
      → IsPrompt (length backoffs) (attempts w deadline backoffs last s)
  unfolding attempts EndsRight
  attempts-IsPrompt [] last s = record { in_time = tt; ends = refl }
  attempts-IsPrompt (backoff ∷ rest) last s =
      tested (leb deadline (w.clock s1)) refl (w.dispatch s1).1 (λ e. attempts-IsPrompt rest e s2)
    where
      s1 : S
      s1 = pause w backoff s

      s2 : S
      s2 = (w.dispatch s1).0

      go_on : Option E → Sending S E
      go_on e = attempts w deadline rest e s2

      followed :
          (o : Outcome E)
          → w.clock s1 < deadline
          → ((e : Option E) → IsPrompt (length rest) (go_on e))
          → IsPrompt (length (backoff ∷ rest)) (called w (w.clock s1) (follow w o s2 last go_on))
      followed (returned true) h ih = record { in_time = (h, tt); ends = omega arith }
      followed (returned false) h ih = called-IsPrompt (length rest) _ _ h (ih last)
      followed (raised e) h ih = called-IsPrompt (length rest) _ _ h (ih (some e))

      tested :
          (b : Bool)
          → leb deadline (w.clock s1) ≡ b
          → (o : Outcome E) → ((e : Option E) → IsPrompt (length rest) (go_on e))
          → IsPrompt
              (length (backoff ∷ rest))
              (unless_late w b s1 (w.clock s1) (follow w o s2 last go_on))
      tested true h o ih = record { in_time = tt; ends = omega arith }
      tested false h o ih = followed o (ground (arith, h)) ih

-- Each call begins within 30 seconds of the start, there are at most four, and the thread gives up
-- only after four; otherwise it ends after a call that succeeded, or because the time is over.
pub send_with_retry-IsPrompt :
    {S E : Type 0} (w : World S E) (s : S) → IsPrompt w (w.clock s + 30) 4 (send_with_retry w s)
unfolding send_with_retry
send_with_retry-IsPrompt w s = attempts-IsPrompt w (w.clock s + 30) _ none s
