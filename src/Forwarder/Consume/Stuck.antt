-- ===== src/Forwarder/Consume/Stuck.antt =====
-- When the consumer reads on (audit_forwarder.py).
use auditlens.Prelude.{
  ℕ, ◌/◌, ◌≡◌, refl, sym, subst, true, false, not, ◌&&◌, List, [], ◌∷◌, arith, All, ltb,
}
use auditlens.Forwarder.Consume.{
  Consumer, Poll, consume_raises, empty_poll, records, Round, Output, held_back, backing_off, idle,
  queued, dropped, check_pressure, polled, received, after_check, consume_round, consume_rounds,
}

-- No message comes of a round.
pub ReadsNothing : Output → Type 0
ReadsNothing held_back = Unit
ReadsNothing backing_off = Unit
ReadsNothing idle = Unit
ReadsNothing (queued rest noise) = ⊥
ReadsNothing (dropped rest noise) = ⊥

-- A pause whose cause is over and that nothing ends.
abbrev pub stuck : Consumer
stuck = record { paused = true; writer_pressure_paused = false; broker_paused = true }

-- A pause for the writers, and no pause.
abbrev pub paused_for_writers : Consumer
paused_for_writers = record { paused = true; writer_pressure_paused = true; broker_paused = true }

abbrev pub reading : Consumer
reading = record { paused = false; writer_pressure_paused = false; broker_paused = false }

record StaysStuck (r : Consumer × Output) : Type 0 where
  same : r.0 ≡ stuck
  nothing : ReadsNothing r.1

stuck-polled : (round : Round) (poll : Poll) → StaysStuck (polled round stuck (received true poll))
unfolding ReadsNothing
stuck-polled round consume_raises = record { same = refl; nothing = tt }
stuck-polled round empty_poll = record { same = refl; nothing = tt }
stuck-polled round (records batch) = record { same = refl; nothing = tt }

check_pressure-stuck :
    (capacity : ℕ) (round : Round)
    → round.pressure ≡ false
    → check_pressure capacity round stuck ≡ stuck
unfolding check_pressure
check_pressure-stuck capacity round h = ground (arith, h)

check_pressure_sticks :
    (capacity : ℕ) (round : Round)
    → round.pressure ≡ false
    → (ltb round.queue_size (capacity / 2) && not round.resume_raises) ≡ false
    → check_pressure capacity round paused_for_writers ≡ stuck
unfolding check_pressure
check_pressure_sticks capacity round h k = ground (arith, h, k)

consume_round-stuck :
    (capacity : ℕ) (round : Round)
    → round.pressure ≡ false
    → StaysStuck (consume_round capacity round stuck)
unfolding consume_round
consume_round-stuck capacity round h =
    subst (λ c. StaysStuck (after_check round c)) (sym (check_pressure-stuck capacity round h))
      (stuck-polled round round.poll)

consume_rounds-stuck :
    (capacity : ℕ) (rounds : List Round)
    → All (λ r. r.pressure ≡ false) rounds
    → All ReadsNothing (consume_rounds capacity rounds stuck)
unfolding consume_rounds
consume_rounds-stuck capacity [] h = tt
consume_rounds-stuck capacity (round ∷ rounds) h =
    let first : StaysStuck (consume_round capacity round stuck) =
      consume_round-stuck capacity round h.0 in
    (
      first.nothing,
      subst (λ c. All ReadsNothing (consume_rounds capacity rounds c)) (sym first.same)
          (consume_rounds-stuck capacity rounds h.1),
    )

-- When the pressure of the writers ends, the pause for it ends with it if the record queue is less
-- than half full and the resumption succeeds.
pub check_pressure-reading :
    (capacity : ℕ) (round : Round)
    → round.pressure ≡ false
    → (ltb round.queue_size (capacity / 2) && not round.resume_raises) ≡ true
    → check_pressure capacity round paused_for_writers ≡ reading
unfolding check_pressure
check_pressure-reading capacity round h k = ground (arith, h, k)

-- When the pressure of the writers ends while the record queue is at least half full, or the
-- resumption fails, then no message is read in that round or in any later one, as long as the
-- writers are not under pressure again and the assignment stays the same: it stays paused although
-- nothing asks for it.
pub relief-ReadsNothing :
    (capacity : ℕ) (round : Round) (rounds : List Round)
    → (ltb round.queue_size (capacity / 2) && not round.resume_raises) ≡ false
    → All (λ r. r.pressure ≡ false) (round ∷ rounds)
    → All ReadsNothing (consume_rounds capacity (round ∷ rounds) paused_for_writers)
unfolding consume_rounds consume_round
relief-ReadsNothing capacity round rounds k h =
    let first : StaysStuck (after_check round (check_pressure capacity round paused_for_writers)) =
      subst (λ c. StaysStuck (after_check round c))
        (sym (check_pressure_sticks capacity round h.0 k)) (stuck-polled round round.poll) in
    (
      first.nothing,
      subst (λ c. All ReadsNothing (consume_rounds capacity rounds c)) (sym first.same)
          (consume_rounds-stuck capacity rounds h.1),
    )
