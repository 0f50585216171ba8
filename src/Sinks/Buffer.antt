-- ===== src/Sinks/Buffer.antt =====
-- `BufferedSink` of base_sink.py: events wait in a buffer until it is full or old. The batches that
-- it has handed to `_write_batch` are kept in the model.
use auditlens.Prelude.{
  ℕ, ◌+◌, ◌≡◌, refl, sym, ap, ◌∙◌, Bool, true, false, ◌||◌, List, [], ◌∷◌, ◌++◌, length, leb,
  if◌then◌else◌,
}
use mathlib.Core.List.{append-nil, append_assoc}

pub record BufferedSink (E : Type 0) : Type 0 where
  pub buffer_size : ℕ
  pub flush_interval : ℕ
  pub buffer : List E
  pub last_flush : ℕ
  pub batches : List (List E)

pub data Call (E : Type 0) : Type 0 where
  write_call : ℕ → List E → Call E
  flush_call : ℕ → Call E

module _ {E : Type 0} where
  -- `_flush_buffer`
  unfoldable pub flush_buffer : ℕ → List E → BufferedSink E → BufferedSink E
  flush_buffer now [] s = record s { buffer = [] }
  flush_buffer now (e ∷ es) s = record s {
    buffer = [];
    last_flush = now;
    batches = s.batches ++ (e ∷ es) ∷ [];
  }

  -- `write`
  unfoldable pub buffered_write : ℕ → List E → BufferedSink E → BufferedSink E
  buffered_write now events s =
      let buffer = s.buffer ++ events in
      if leb s.buffer_size (length buffer) || leb (s.last_flush + s.flush_interval) now
      then flush_buffer now buffer s
      else record s { buffer = buffer }

  unfoldable pub run_calls : List (Call E) → BufferedSink E → BufferedSink E
  run_calls [] s = s
  run_calls (write_call now events ∷ cs) s = run_calls cs (buffered_write now events s)
  run_calls (flush_call now ∷ cs) s = run_calls cs (flush_buffer now s.buffer s)

  -- all events of batches, and all that calls bring
  abbrev pub concat : List (List E) → List E
  concat [] = []
  concat (b ∷ bs) = b ++ concat bs

  abbrev pub brought : List (Call E) → List E
  brought [] = []
  brought (write_call now events ∷ cs) = events ++ brought cs
  brought (flush_call now ∷ cs) = brought cs

  concat-append : (bs : List (List E)) (b : List E) → concat (bs ++ b ∷ []) ≡ concat bs ++ b
  concat-append [] b = append-nil b
  concat-append (c ∷ bs) b =
      ap (λ x. c ++ x) (concat-append bs b) ∙ sym (append_assoc c (concat bs) b)

  flush_buffer-events :
      (now : ℕ) (buffer : List E) (s : BufferedSink E)
      → concat (flush_buffer now buffer s).batches ++ (flush_buffer now buffer s).buffer
        ≡ concat s.batches ++ buffer
  unfolding flush_buffer
  flush_buffer-events now [] s = refl
  flush_buffer-events now (e ∷ es) s = append-nil _ ∙ concat-append s.batches (e ∷ es)

  buffered_write-events :
      (now : ℕ) (events : List E) (s : BufferedSink E)
      → concat (buffered_write now events s).batches ++ (buffered_write now events s).buffer
        ≡ concat s.batches ++ s.buffer ++ events
  unfolding buffered_write
  buffered_write-events now events s =
      pick (
        leb s.buffer_size (length (s.buffer ++ events))
        || leb (s.last_flush + s.flush_interval) now)
      ∙ sym (append_assoc (concat s.batches) s.buffer events)
    where
      next : Bool → BufferedSink E
      next b =
          if b
          then flush_buffer now (s.buffer ++ events) s
          else record s { buffer = s.buffer ++ events }

      pick :
          (b : Bool)
          → concat (next b).batches ++ (next b).buffer ≡ concat s.batches ++ (s.buffer ++ events)
      pick true = flush_buffer-events now (s.buffer ++ events) s
      pick false = refl

  -- After any sequence of writes and flushes the batches that were written and the buffer together
  -- hold exactly the events that were brought, each once and in their order.
  pub run_calls-events :
      (cs : List (Call E)) (s : BufferedSink E)
      → concat (run_calls cs s).batches ++ (run_calls cs s).buffer
        ≡ concat s.batches ++ s.buffer ++ brought cs
  unfolding run_calls
  run_calls-events [] s = sym (append-nil _)
  run_calls-events (write_call now events ∷ cs) s =
      run_calls-events cs (buffered_write now events s)
      ∙ ap (λ x. x ++ brought cs) (buffered_write-events now events s)
      ∙ append_assoc (concat s.batches ++ s.buffer) events (brought cs)
  run_calls-events (flush_call now ∷ cs) s =
      run_calls-events cs (flush_buffer now s.buffer s)
      ∙ ap (λ x. x ++ brought cs) (flush_buffer-events now s.buffer s)
