-- ===== src/Sinks.antt =====
-- src/sinks/base_sink.py, sink_manager.py, kafka_sink.py and dlq_sink.py: batches of events go to
-- every enabled sink, and what fails goes to the dead-letter queue. How a produce call or a write
-- of another sink ends is an argument; the events are of any type with an id.
pub mod Buffer
pub mod DeadLetters
mod Tests
use auditlens.Prelude.{
  ℕ, ◌+◌, Bool, true, false, not, ◌&&◌, Option, none, some, List, [], ◌∷◌, ◌++◌, String, length,
  is_in, ltb, ◌==◌, map, if◌then◌else◌,
}
use Prim.Native.String.{◌++◌ as join}

pub data SinkStatus : Type 0 where
  success partial failure skipped : SinkStatus

pub record SinkResult (E : Type 0) : Type 0 where
  pub status : SinkStatus
  pub records_written : ℕ
  pub records_failed : ℕ
  pub failed_records : List E
  pub errors : List String

-- How `write` of a sink ends.
pub data WriteEnd (E : Type 0) : Type 0 where
  result : SinkResult E → WriteEnd E
  exception : String → WriteEnd E

-- an event with the type and the message of its error
abbrev pub Failure : Type 0 → Type 0
Failure E = E × (String × String)

abbrev pub first_error : List String → String
first_error [] = "Unknown error"
first_error (x ∷ xs) = x

module _ {E : Type 0} where
  abbrev pub failures_of : List E → String → String → List (Failure E)
  failures_of es kind message = map (λ e. (e, (kind, message))) es

  -- One sink's part in `write` of the manager: its result, and the failures for the queue.
  unfoldable pub collect : List E → String → WriteEnd E → SinkResult E × List (Failure E)
  collect events name (result r) =
      (r, failures_of r.failed_records (join name "_sink_error") (first_error r.errors))
  collect events name (exception message) = (
    record {
      status = failure;
      records_written = 0;
      records_failed = length events;
      failed_records = events;
      errors = message ∷ [];
    },
    failures_of events (join name "_sink_exception") message,
  )

-- A sink of the manager: its name, whether it is enabled, and how its write of the events ends.
abbrev pub SinkCall : Type 0 → Type 0
SinkCall E = String × (Bool × WriteEnd E)

-- The dead-letter queue: whether it is enabled and has a producer.
pub record DlqSink : Type 0 where
  pub enabled : Bool
  pub is_initialized : Bool

abbrev empty_result : {E : Type 0} → SinkStatus → List String → SinkResult E
empty_result status errors = record {
  status = status;
  records_written = 0;
  records_failed = 0;
  failed_records = [];
  errors = errors;
}

-- What `write` returns, and the failures that it hands to the dead-letter queue.
pub record Written (E : Type 0) : Type 0 where
  pub results : List (String × SinkResult E)
  pub dead_letters : List (Failure E)

module _ {E : Type 0} (id : E → String) where
  -- the tasks of the enabled sinks
  unfoldable pub write_sinks :
      List E → List (SinkCall E) → List (String × SinkResult E) × List (Failure E)
  write_sinks events [] = ([], [])
  write_sinks events ((name, (enabled, end)) ∷ sinks) =
      let (results, failures) = write_sinks events sinks in
      let (r, failed) = collect events name end in
      if enabled then ((name, r) ∷ results, failed ++ failures) else (results, failures)

  -- the failures whose id was not seen before
  unfoldable pub dedupe : List String → List (Failure E) → List (Failure E)
  dedupe seen [] = []
  dedupe seen (f ∷ fs) =
      let known = dedupe seen fs in
      let fresh = dedupe (id f.0 ∷ seen) fs in if is_in (id f.0) seen then known else f ∷ fresh

  -- The loop of `write_failures`; `error_of` is what the produce of a failure raises.
  unfoldable pub write_each : (Failure E → Option String) → List (Failure E) → SinkResult E
  write_each error_of [] = empty_result success []
  write_each error_of (f ∷ fs) =
      let rest = write_each error_of fs in
      elim (error_of f) [
        | none ↦ record rest { records_written = rest.records_written + 1 }
        | some error ↦ record rest {
          status = partial;
          records_failed = rest.records_failed + 1;
          errors = error ∷ rest.errors;
        }
      ]

  unfoldable pub write_failures :
      (Failure E → Option String) → DlqSink → List (Failure E) → SinkResult E
  write_failures error_of dlq fs =
      if not dlq.enabled
      then empty_result skipped []
      else if not dlq.is_initialized
      then empty_result failure ("DLQ sink not initialized" ∷ [])
      else write_each error_of fs

  abbrev is_on : Option DlqSink → Bool
  is_on none = false
  is_on (some dlq) = dlq.enabled

  abbrev is_nil : List (Failure E) → Bool
  is_nil [] = true
  is_nil (_ ∷ _) = false

  abbrev dlq_results :
      (Failure E → Option String) → Option DlqSink → List (Failure E) → List (String × SinkResult E)
  dlq_results error_of none fs = []
  dlq_results error_of (some dlq) fs = ("dlq", write_failures error_of dlq fs) ∷ []

  -- the end of `SinkManager.write`, on a list of failures
  unfoldable pub route_failures :
      (Failure E → Option String)
      → Option DlqSink
      → List (String × SinkResult E)
      → List (Failure E)
      → Written E
  route_failures error_of dlq results fs =
      let unique = dedupe [] fs in
      if not (is_nil fs) && is_on dlq
      then record { results = results ++ dlq_results error_of dlq unique; dead_letters = unique }
      else record { results = results; dead_letters = [] }

  -- `SinkManager.write` of a batch that is not empty, by an initialized manager
  unfoldable pub write :
      (Failure E → Option String) → Option DlqSink → List (SinkCall E) → List E → Written E
  write error_of dlq sinks events =
      let (results, fs) = write_sinks events sinks in route_failures error_of dlq results fs

  -- `KafkaSink.write`: the loop over the events; `error_of` is what a produce raises.
  unfoldable pub produce_each : (E → Option String) → List E → SinkResult E
  produce_each error_of [] = empty_result success []
  produce_each error_of (e ∷ es) =
      let rest = produce_each error_of es in
      elim (error_of e) [
        | none ↦ record rest { records_written = rest.records_written + 1 }
        | some error ↦ record rest {
          records_failed = rest.records_failed + 1;
          failed_records = e ∷ rest.failed_records;
          errors = error ∷ rest.errors;
        }
      ]

  unfoldable pub kafka_write : (E → Option String) → Bool → Bool → List E → SinkResult E
  kafka_write error_of enabled is_initialized es =
      let r = produce_each error_of es in
      if not enabled
      then empty_result skipped []
      else if not is_initialized
      then empty_result failure ("Sink not initialized" ∷ [])
      else record r {
        status =
            if ltb 0 r.records_failed
            then (if ltb 0 r.records_written then partial else failure)
            else success;
      }
