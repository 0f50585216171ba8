-- ===== src/Forwarder/Consume.antt =====
-- `_consume_thread` and its back-pressure (audit_forwarder.py), one round of its loop at a time. The
-- broker sends nothing while the assignment is paused. What a round finds is its argument.
pub mod Stuck
use auditlens.Prelude.{
  ℕ, ◌*◌, ◌/◌, Bool, true, false, not, ◌&&◌, ◌||◌, Option, none, some, List, [], ◌∷◌, leb, ltb,
  if◌then◌else◌,
}
use auditlens.Forwarder.{Message, Offsets, split_noise}

-- size and capacity of a writer queue
abbrev pub QueueSize : Type 0
QueueSize = ℕ × ℕ

abbrev is_pressed : QueueSize → Bool
is_pressed (size, maxsize) = ltb 0 maxsize && leb (maxsize * 8 / 10) size

-- `_writer_queues_under_pressure`: the queues that exist, when priority queues are enabled
unfoldable pub under_pressure : Bool → List QueueSize → Bool
under_pressure enabled [] = false
under_pressure enabled (q ∷ queues) = enabled && (is_pressed q || under_pressure enabled queues)

-- `paused`, `writer_pressure_paused`, and whether the broker holds the assignment back
pub record Consumer : Type 0 where
  pub paused : Bool
  pub writer_pressure_paused : Bool
  pub broker_paused : Bool

pub data Poll : Type 0 where
  consume_raises empty_poll : Poll
  records : List Message → Poll

-- What a round finds: the pressure of the writers, the size of the record queue and its capacity,
-- whether `pause` and `resume` raise, what `consume` returns if nothing is held back, and whether
-- the record queue takes the batch at once, or after it has drained.
pub record Round : Type 0 where
  pub pressure : Bool
  pub queue_size : ℕ
  pub pause_raises : Bool
  pub resume_raises : Bool
  pub poll : Poll
  pub accepts : Bool
  pub accepts_later : Bool

pub data Output : Type 0 where
  held_back backing_off idle : Output
  queued dropped : List Message → Offsets → Output

abbrev pause_for_writers : Round → Consumer → Consumer
pause_for_writers round c =
    if round.pause_raises
    then c
    else record { paused = true; writer_pressure_paused = true; broker_paused = true }

abbrev resume_for_writers : ℕ → Round → Consumer → Consumer
resume_for_writers capacity round c =
    if ltb round.queue_size (capacity / 2) && not round.resume_raises
    then record { paused = false; writer_pressure_paused = false; broker_paused = false }
    else record c { writer_pressure_paused = false }

-- the back-pressure before each poll
unfoldable pub check_pressure : ℕ → Round → Consumer → Consumer
check_pressure capacity round c =
    if round.pressure && not c.writer_pressure_paused
    then pause_for_writers round c
    else if not round.pressure && c.writer_pressure_paused
    then resume_for_writers capacity round c
    else c

-- the pause and the resumption when the record queue is full
unfoldable pub wait_for_queue : Round → Consumer → Consumer
wait_for_queue round c =
    let held =
      if c.paused || round.pause_raises
      then c
      else record c { paused = true; broker_paused = true } in
    if held.paused
    then record held { paused = false; broker_paused = held.broker_paused && round.resume_raises }
    else held

abbrev pub envelope : Bool → List Message → Output
envelope accepted batch =
    let (rest, noise) = split_noise batch in
    if accepted then queued rest noise else dropped rest noise

unfoldable pub put_batch : Round → List Message → Consumer → Consumer × Output
put_batch round batch c =
    if round.accepts
    then (c, envelope true batch)
    else (wait_for_queue round c, envelope round.accepts_later batch)

abbrev pub polled : Round → Consumer → Poll → Consumer × Output
polled round c consume_raises = (c, backing_off)
polled round c empty_poll = (c, idle)
polled round c (records batch) = put_batch round batch c

-- `consume`: nothing comes while the assignment is paused
abbrev pub received : Bool → Poll → Poll
received true (records batch) = empty_poll
received true empty_poll = empty_poll
received true consume_raises = consume_raises
received false poll = poll

abbrev pub after_check : Round → Consumer → Consumer × Output
after_check round c =
    if c.writer_pressure_paused
    then (c, held_back)
    else polled round c (received c.broker_paused round.poll)

-- one round of the loop
unfoldable pub consume_round : ℕ → Round → Consumer → Consumer × Output
consume_round capacity round c = after_check round (check_pressure capacity round c)

unfoldable pub consume_rounds : ℕ → List Round → Consumer → List Output
consume_rounds capacity [] c = []
consume_rounds capacity (round ∷ rounds) c =
    (consume_round capacity round c).1
    ∷ consume_rounds capacity rounds (consume_round capacity round c).0
