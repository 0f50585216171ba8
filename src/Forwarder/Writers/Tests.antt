-- ===== src/Forwarder/Writers/Tests.antt =====
-- Rounds of the writers on concrete items (audit_forwarder.py).
use auditlens.Prelude.{
  any_of, ◌||◌, ℕ, ◌+◌, ◌≡◌, refl, Bool, true, false, some, none, List, [], ◌∷◌, ◌++◌, String, All,
  length, map, arith, ◌==◌,
}
use auditlens.Prelude.Assoc.{lookup, insert}
use auditlens.Criticality.Methods.{MethodRules}
use auditlens.Forwarder.{
  Partition, signal_lane, handled, Message, Ending, raise_to, split_noise, settle, process_message,
  process_batch, evaluate_batch_commit, caught_up,
}
use auditlens.Forwarder.ShortCircuit.{record_persisted}
use auditlens.Forwarder.Writers.{
  critical, bulk, target_of, route_to_queue, Item, Writer, Round, requeue_item, requeue_or_dlq,
  writer_round, writer_rounds, tried_again,
}
use auditlens.Forwarder.Writers.Accounting.{total, incoming, total-writer_rounds}
use auditlens.Forwarder.Writers.Passed.{
  IsTried, IsFresh, writer_rounds-IsTried, requeue_or_dlq_full,
}
use auditlens.Forwarder.Writers.Marks.{start, covers, covers_item, others_of, caught_up_iff}
use auditlens.Forwarder.Writers.Waited.{AreLater, caught_up-writer_rounds}
use auditlens.Forwarder.Writers.Routed.{is_committed-route_to_queue}

abbrev partition : Partition
partition = ("audit", 0)

abbrev noise_item : ℕ → Item ℕ
noise_item offset = record {
  payload = offset;
  source = some (partition, offset);
  short_circuit = true;
  retry_count = 0;
}

abbrev idle : Writer ℕ
idle = record { queue = []; persisted = []; written = []; dlq = []; dropped = [] }

-- Three items come in, and the first fails four times.
abbrev outage : List (Round ℕ)
outage =
    record { taken = 0; arrivals = noise_item 4 ∷ noise_item 5 ∷ []; others = []; success = true }
    ∷ record { taken = 1; arrivals = []; others = []; success = false }
    ∷ record { taken = 2; arrivals = noise_item 6 ∷ []; others = []; success = false }
    ∷ record { taken = 3; arrivals = []; others = []; success = false }
    ∷ record { taken = 1; arrivals = []; others = []; success = false }
    ∷ record { taken = 3; arrivals = []; others = []; success = false }
    ∷ []

total-writer_rounds_example :
    total (λ n. n == 4) (writer_rounds false bulk 2 outage idle)
    ≡ total (λ n. n == 4) idle + incoming (λ n. n == 4) outage
total-writer_rounds_example = total-writer_rounds (λ n. n == 4) false bulk 2 outage idle

writer_rounds-IsTried_example : IsTried (writer_rounds false bulk 2 outage idle)
writer_rounds-IsTried_example = writer_rounds-IsTried false bulk 2 outage idle fresh no_items
  where
    fresh : All IsFresh outage
    fresh = ((omega arith, (omega arith, tt)), (tt, ((omega arith, tt), (tt, (tt, (tt, tt))))))

    no_items : IsTried idle
    no_items = record { in_queue = tt; in_dlq = tt; in_dropped = tt }

outage_run :
    let w = writer_rounds false bulk 5 outage idle in
    (length w.queue ≡ 2)
    × (w.dlq ≡ record (noise_item 4) { retry_count = 3 } ∷ [])
    × (w.dropped ≡ [])
unfolding writer_rounds writer_round requeue_or_dlq requeue_item record_persisted raise_to lookup
    insert
outage_run = (refl, refl, refl)

-- The write of the first item fails, then that of the second succeeds.
abbrev passing : List (Round ℕ)
passing =
    record { taken = 1; arrivals = []; others = []; success = false }
    ∷ record { taken = 1; arrivals = []; others = []; success = true }
    ∷ []

abbrev both : Writer ℕ
both = start (noise_item 4 ∷ noise_item 5 ∷ []) []

caught_up_iff_example :
    let after = writer_rounds false bulk 5 passing both in
    caught_up ((partition, 4) ∷ []) after.persisted ≡ (
      caught_up ((partition, 4) ∷ []) []
      || any_of (covers_item false bulk partition 4) after.written
      || any_of (covers partition 4) (others_of false bulk partition 4 passing))
caught_up_iff_example =
    caught_up_iff false bulk partition 4 5 passing (noise_item 4 ∷ noise_item 5 ∷ []) []

-- The wait for the first item succeeds, and it is only in the queue.
passed_run :
    let after = writer_rounds false bulk 5 passing both in
    (caught_up ((partition, 4) ∷ []) after.persisted ≡ true)
    × (after.written ≡ noise_item 5 ∷ [])
    × (after.queue ≡ tried_again (noise_item 4) ∷ [])
unfolding writer_rounds writer_round requeue_or_dlq requeue_item record_persisted raise_to lookup
    insert caught_up
passed_run = (refl, refl, refl)

abbrev signal : ℕ → Item ℕ
signal offset = record {
  payload = offset;
  source = some (partition, offset);
  short_circuit = false;
  retry_count = 0;
}

-- The normal writer has written offset 5, and offset 4 is in the queue of the critical writer.
shared_run :
    let after =
      writer_rounds true critical 5
        (record { taken = 0; arrivals = []; others = some (partition, 5) ∷ []; success = true }
          ∷ [])
        (start (signal 4 ∷ []) []) in
    (caught_up ((partition, 4) ∷ []) after.persisted ≡ true) × (after.written ≡ [])
unfolding writer_rounds writer_round record_persisted raise_to lookup insert caught_up
shared_run = (refl, refl)

-- Two items come in, and one of them is written.
abbrev calm : List (Round ℕ)
calm =
    record { taken = 0; arrivals = noise_item 4 ∷ noise_item 5 ∷ []; others = []; success = true }
    ∷ record { taken = 1; arrivals = []; others = []; success = true }
    ∷ []

caught_up-writer_rounds_example :
    let after = writer_rounds false bulk 5 calm idle in
    (after.written ++ after.queue ≡ noise_item 4 ∷ noise_item 5 ∷ [])
    × AreLater false partition 4 after.queue
unfolding writer_rounds writer_round record_persisted raise_to lookup insert caught_up
caught_up-writer_rounds_example =
    caught_up-writer_rounds false partition 5 calm idle 4 (refl, (refl, tt)) refl refl

abbrev full : Writer ℕ
full = record idle { queue = noise_item 6 ∷ [] }

requeue_or_dlq_full_example :
    requeue_or_dlq 1 (noise_item 4 ∷ noise_item 5 ∷ []) full
    ≡ record full { dropped = full.dropped ++ map tried_again (noise_item 4 ∷ noise_item 5 ∷ []) }
requeue_or_dlq_full_example =
    requeue_or_dlq_full 1 (noise_item 4 ∷ noise_item 5 ∷ []) full (omega arith)
      (omega arith, (omega arith, tt))

abbrev rules : MethodRules
rules = record {
  critical = "DeleteKafkaCluster" ∷ [];
  high = [];
  medium = [];
  read_only = "GetKafkaClusters" ∷ [];
  authentication = [];
  authorization_check = [];
  security_failure = [];
  keywords = [];
  deletion_words = [];
  creation_words = [];
  modification_words = [];
  read_words = [];
}

abbrev deletion : Message
deletion = record {
  partition = partition;
  offset = 7;
  is_noise = false;
  bulk_accepts = false;
  fate = handled signal_lane false;
}

abbrev good_ending : Ending
good_ending = record {
  flush_remaining = 0;
  errors_before = 2;
  errors_after = 2;
  noise_persisted = [];
  signal_persisted = [];
  commit_raises = false;
}

is_committed-route_to_queue_example :
    (route_to_queue rules true (λ lane. false) (λ lane. true) "DeleteKafkaCluster" false).1 ≡ true
unfolding route_to_queue target_of auditlens.Prelude.is_in split_noise process_batch process_message
    settle raise_to lookup insert evaluate_batch_commit caught_up
is_committed-route_to_queue_example =
    is_committed-route_to_queue rules (λ lane. false) (λ lane. true) "DeleteKafkaCluster" false
      false [] [] deletion good_ending false refl refl refl refl
