-- ===== src/Forwarder/Tests.antt =====
-- Batches and produce calls on concrete messages (audit_forwarder.py).
use auditlens.Prelude.{
  ltb, ℕ, ◌≡◌, refl, Bool, true, false, some, List, [], ◌∷◌, All, any_of, if◌then◌else◌,
}
use auditlens.Prelude.Eq.{number_eq, string_eq, pair_eq}
use auditlens.Prelude.Assoc.{lookup, insert}
use auditlens.Forwarder.{
  Partition, Lane, no_writer, signal_lane, lane_full, handled, partition_eof, Message, raise_to,
  split_noise, settle, process_message, process_batch, evaluate_batch_commit, caught_up, reaches,
  merge_offsets, commit, Ending, run_batch,
}
use auditlens.Forwarder.Offsets.{top, is_tracked, next_position}
use auditlens.Forwarder.Commit.{is_committed, run_batch-top}
use auditlens.Forwarder.Rebalance.{Rebalance, on_revoke, note_batch, on_revoke-handled}
use auditlens.Forwarder.Consume.{Round, records, consume_rounds}
use auditlens.Forwarder.Consume.Stuck.{ReadsNothing, paused_for_writers, relief-ReadsNothing}
use auditlens.Routing.{Producer, buffer_full, queued}
use auditlens.Forwarder.Produce.{
  DlqConfig, Output, produce_loop, safe_produce, Means, safe_produce-Means,
}
use auditlens.Forwarder.Durable.{is_failing, IsPersisted, is_committed-IsDurable}

abbrev partition : Partition
partition = ("audit", 0)

abbrev handled_at : ℕ → Lane → Bool → Message
handled_at offset lane raised = record {
  partition = partition;
  offset = offset;
  is_noise = false;
  bulk_accepts = false;
  fate = handled lane raised;
}

abbrev noise_at : ℕ → Message
noise_at offset = record {
  partition = partition;
  offset = offset;
  is_noise = true;
  bulk_accepts = true;
  fate = partition_eof;
}

-- An event, a poison pill, and noise between them.
abbrev batch : List Message
batch = handled_at 4 signal_lane false ∷ noise_at 5 ∷ handled_at 6 no_writer true ∷ []

-- One event that found its lane full.
abbrev full_batch : List Message
full_batch = handled_at 3 lane_full false ∷ []

abbrev good_ending : Ending
good_ending = record {
  flush_remaining = 0;
  errors_before = 2;
  errors_after = 2;
  noise_persisted = (partition, 5) ∷ [];
  signal_persisted = (partition, 4) ∷ [];
  commit_raises = false;
}

run_batch-top_example : lookup partition (run_batch true batch good_ending []) ≡ (
    if is_committed true batch good_ending
    then next_position (top is_tracked partition batch) (lookup partition [])
    else lookup partition [])
run_batch-top_example = run_batch-top true batch good_ending [] partition

run_batch_run : lookup partition (run_batch true batch good_ending []) ≡ some 7
unfolding run_batch split_noise process_batch process_message settle raise_to lookup insert
    evaluate_batch_commit caught_up merge_offsets commit
run_batch_run = refl

is_committed-IsDurable_example :
    (good_ending.flush_remaining ≡ 0)
    × (good_ending.errors_after ≡ good_ending.errors_before)
    × (any_of is_failing batch ≡ false)
    × All (IsPersisted good_ending.noise_persisted) batch
unfolding split_noise process_batch process_message settle raise_to lookup insert
    evaluate_batch_commit caught_up
is_committed-IsDurable_example = is_committed-IsDurable true batch good_ending refl

-- The queue is full for the first two calls.
abbrev busy : Producer
busy = record { attempt = λ n. if ltb n 2 then buffer_full else queued; reported = λ n. 0 }

abbrev dlq : DlqConfig
dlq = record { enabled = true; topic = "dlq" }

abbrev no_output : Output ℕ
no_output = record { calls = 0; taken = []; dlq_enqueued = 0; dlq_failed = 0 }

safe_produce-Means_example :
    Means busy dlq 10 "raw" 7 no_output (safe_produce busy dlq "raw" 7 no_output)
safe_produce-Means_example = safe_produce-Means busy dlq "raw" 7 no_output

safe_produce_run : (safe_produce busy dlq "raw" 7 no_output).0.calls ≡ 3
unfolding safe_produce produce_loop
safe_produce_run = refl

abbrev rebalance : Rebalance
rebalance = record {
  processed = (partition, 6) ∷ [];
  revoked = [];
  committed = (partition, 4) ∷ [];
}

on_revoke-handled_example :
    reaches 4 (
      lookup partition
        (on_revoke false
          (partition ∷ [])
          (record rebalance { processed = note_batch full_batch rebalance.processed })).committed)
    ≡ true
on_revoke-handled_example =
    on_revoke-handled [] [] (handled_at 3 lane_full false) (partition ∷ []) rebalance refl refl

-- The writers have room again while the record queue is full.
abbrev relief : Round
relief = record {
  pressure = false;
  queue_size = 100;
  pause_raises = false;
  resume_raises = false;
  poll = records batch;
  accepts = true;
  accepts_later = true;
}

relief-ReadsNothing_example :
    All ReadsNothing (consume_rounds 100 (relief ∷ relief ∷ []) paused_for_writers)
relief-ReadsNothing_example = relief-ReadsNothing 100 relief (relief ∷ []) refl (refl, (refl, tt))
