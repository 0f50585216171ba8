-- ===== src/Sinks/Tests.antt =====
-- The sinks on concrete batches (sink_manager.py, base_sink.py, kafka_sink.py).
use auditlens.Prelude.{
  refl, true, Option, none, some, List, [], ◌∷◌, String, All, str_eq, if◌then◌else◌,
}
use auditlens.Prelude.Eq.{string_eq}
use auditlens.Sinks.{result, exception, Failure, DlqSink, SinkCall, write, kafka_write}
use auditlens.Sinks.Buffer.{BufferedSink, Call, write_call, flush_call}
use auditlens.Sinks.DeadLetters.{ids, IsCovered, NoRepeat, write-covers}

abbrev event_id : String → String
event_id e = e

abbrev dlq : DlqSink
dlq = record { enabled = true; is_initialized = true }

abbrev no_error : Failure String → Option String
no_error f = none

abbrev broken : String → Option String
broken e = if str_eq e "b" then some "too large" else none

abbrev events : List String
events = "a" ∷ "b" ∷ []

-- Kafka loses one event, and the other sink raises.
abbrev sinks : List (SinkCall String)
sinks =
    ("kafka", (true, result (kafka_write event_id broken true true events)))
    ∷ ("s3", (true, exception "timeout"))
    ∷ []

write-covers_example :
    All
      (IsCovered event_id events
        (ids event_id (write event_id no_error (some dlq) sinks events).dead_letters))
      sinks
    × NoRepeat event_id
        (ids event_id (write event_id no_error (some dlq) sinks events).dead_letters)
write-covers_example = write-covers event_id no_error dlq sinks events refl

abbrev sink : BufferedSink String
sink = record { buffer_size = 3; flush_interval = 10; buffer = []; last_flush = 0; batches = [] }

abbrev calls : List (Call String)
calls = write_call 1 events ∷ write_call 2 events ∷ write_call 3 ("c" ∷ []) ∷ flush_call 4 ∷ []
