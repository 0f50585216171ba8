-- ===== src/Forwarder.antt =====
-- audit_forwarder.py: from a consumed batch to the commit of its offsets. What happens to a message
-- on its way (parsing, producing, the queue of its lane) is the message's fate.
pub mod Offsets
pub mod Commit
pub mod Durable
pub mod Produce
pub mod Rebalance
pub mod Consume
pub mod Writers
pub mod ShortCircuit
pub mod Waiting
mod Tests
use auditlens.Prelude.{
  ℕ, ◌+◌, arith, ◌≡◌, ◌↔◌, Bool, true, false, not, ◌&&◌, ◌||◌, Option, none, some, List, [], ◌∷◌,
  String, ltb, leb, ◌==◌, if◌then◌else◌,
}
use auditlens.Prelude.Eq.{Eq, number_eq, string_eq, pair_eq}
use auditlens.Prelude.Assoc.{Dict, lookup, insert}

-- topic and number
abbrev pub Partition : Type 0
Partition = String × ℕ

abbrev pub Offsets : Type 0
Offsets = Dict Partition ℕ

-- What `_route_to_queue` answers: a lane of signals, the lane of bulk events, or a full critical lane.
pub data Lane : Type 0 where
  no_writer signal_lane bulk_lane lane_full : Lane

-- How the loop over a batch meets a message; `raised` tells that the processing ended in an
-- exception, after the lane was chosen or before.
pub data Fate : Type 0 where
  consume_error partition_eof revoked : Fate
  handled : Lane → Bool → Fate

-- `is_noise`: `_try_short_circuit_noise` returns it; `bulk_accepts`: there is room in the queue.
pub record Message : Type 0 where
  pub partition : Partition
  pub offset : ℕ
  pub is_noise : Bool
  pub bulk_accepts : Bool
  pub fate : Fate

-- `offset > offsets.get(key, -1)`
abbrev pub is_above : ℕ → Option ℕ → Bool
is_above offset none = true
is_above offset (some old) = ltb old offset

unfoldable pub raise_to : Partition → ℕ → Offsets → Offsets
raise_to key offset d = if is_above offset (lookup key d) then insert key offset d else d

-- `_split_noise`
unfoldable pub split_noise : List Message → List Message × Offsets
split_noise [] = ([], [])
split_noise (m ∷ ms) =
    let (rest, noise) = split_noise ms in
    if m.is_noise && m.bulk_accepts
    then (rest, raise_to m.partition m.offset noise)
    else (m ∷ rest, noise)

pub record Batch : Type 0 where
  pub max_offsets : Offsets
  pub signal_in_flight : Offsets
  pub processing_failure : Bool
  pub unrecoverable_count : ℕ

abbrev pub empty_batch : Batch
empty_batch = record {
  max_offsets = [];
  signal_in_flight = [];
  processing_failure = false;
  unrecoverable_count = 0;
}

abbrev pub is_full : Lane → Bool
is_full lane_full = true
is_full _ = false

abbrev pub is_signal : Lane → Bool
is_signal signal_lane = true
is_signal _ = false

-- One round of the loop over the batch; `strict` is SIGNAL_COMMIT_REQUIRES_PG.
unfoldable pub settle : Bool → Message → Batch → Fate → Batch
settle strict m b consume_error = record b { processing_failure = true }
settle strict m b partition_eof = b
settle strict m b revoked = b
settle strict m b (handled lane raised) = record {
  max_offsets = raise_to m.partition m.offset b.max_offsets;
  signal_in_flight =
      if strict && is_signal lane
      then raise_to m.partition m.offset b.signal_in_flight
      else b.signal_in_flight;
  processing_failure = b.processing_failure || is_full lane;
  unrecoverable_count = if raised then b.unrecoverable_count + 1 else b.unrecoverable_count;
}

unfoldable pub process_message : Bool → Message → Batch → Batch
process_message strict m b = settle strict m b m.fate

unfoldable pub process_batch : Bool → List Message → Batch → Batch
process_batch strict [] b = b
process_batch strict (m ∷ ms) b = process_batch strict ms (process_message strict m b)

unfoldable pub evaluate_batch_commit : ℕ → ℕ → ℕ → Bool → Bool
evaluate_batch_commit flush_remaining errors_before errors_after processing_failed =
    flush_remaining == 0 && errors_after == errors_before && not processing_failed

-- The test of `_await_noise_persisted` and `_await_signal_persisted`.
abbrev pub reaches : ℕ → Option ℕ → Bool
reaches offset none = false
reaches offset (some persisted) = leb offset persisted

unfoldable pub caught_up : Offsets → Offsets → Bool
caught_up [] persisted = true
caught_up ((k, offset) ∷ required) persisted =
    reaches offset (lookup k persisted) && caught_up required persisted

-- What the end of a batch finds: the flush of the producer, the count of delivery errors before and
-- after, what the writers have persisted when the waits end, and whether the commit raises.
pub record Ending : Type 0 where
  pub flush_remaining : ℕ
  pub errors_before : ℕ
  pub errors_after : ℕ
  pub noise_persisted : Offsets
  pub signal_persisted : Offsets
  pub commit_raises : Bool

-- the noise offsets merged into those of the processor
unfoldable pub merge_offsets : Offsets → Offsets → Offsets
merge_offsets [] d = d
merge_offsets ((k, offset) ∷ noise) d = merge_offsets noise (raise_to k offset d)

-- the commit of the offset after each
unfoldable pub commit : Offsets → Offsets → Offsets
commit [] committed = committed
commit ((k, offset) ∷ ds) committed = commit ds (insert k (offset + 1) committed)

abbrev pub is_accepted : Batch → Offsets → Ending → Bool
is_accepted b noise e =
    evaluate_batch_commit e.flush_remaining e.errors_before e.errors_after b.processing_failure
    && caught_up noise e.noise_persisted
    && caught_up b.signal_in_flight e.signal_persisted

-- The batch from the consumer to the commit: the committed offsets after it.
unfoldable pub run_batch : Bool → List Message → Ending → Offsets → Offsets
run_batch strict ms e committed =
    let (rest, noise) = split_noise ms in
    let b = process_batch strict rest empty_batch in
    if is_accepted b noise e && not e.commit_raises
    then commit (merge_offsets noise b.max_offsets) committed
    else committed
