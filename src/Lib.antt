-- ===== src/Lib.antt =====
-- AuditLens: the processing of audit events.
--
-- The forwarder (`audit_forwarder.py`) consumes audit events of Confluent Cloud in batches, takes
-- out bulk noise for a writer of its own, sends every other event through the parts below, and
-- commits the offsets of the batch if nothing has to be replayed. The classification reads the
-- method name, the status and `granted` of an event and gives it a criticality; the anomaly tracker
-- watches the rates of each principal; the burst detector reports when one actor fails too often;
-- denied authorization checks are added to the denial aggregator, which summarises them at the end
-- of a window; the router produces the event to the topic of its criticality. For the product the
-- intelligence reads impact, risk and family off an event, and the signal classification decides the
-- signal type, the severity tier and the categories under which it is shown; the address baseline
-- and the pattern detector watch what an actor does. The notifier tells people through Slack, Teams,
-- webhooks and mail, and the denial aggregator has a webhook sender of its own. Circuit breaker and
-- retry helpers guard the calls of outside services. The sinks are a library of their own, which
-- writes batches of events to several destinations and hands what fails to a dead-letter queue. The
-- transformer is a second router, which turns an event of CloudEvents into a flat one by its
-- service's handler. Operators triage events and read them through an API that checks their tokens.
--
-- File by file, with the source from the root of the repository:
--   Prelude      names that the modules share: Boolean tests, lists, text as Python's `str`,
--                integers, equality as an interface (Eq), and a `dict` as an association list
--                (Assoc).
--   Forwarder    `audit_forwarder.py`: _split_noise, the loop of _process_thread over a batch and
--                its end, evaluate_batch_commit and the waits for the writers; safe_produce and
--                send_to_dlq in Produce; _try_short_circuit_noise and the marks of the writers in
--                ShortCircuit; on_assign and on_revoke in Rebalance; _consume_thread and its
--                back-pressure in Consume; _route_to_queue, _requeue_or_dlq and _writer_loop in
--                Writers. Theorems: Offsets, Commit, Durable, Produce, Rebalance, Waiting,
--                Consume/Stuck, Writers/Accounting, Writers/Passed, Writers/Routed,
--                Writers/Waited, Writers/Marks.
--   Criticality  `src/classification/methods.py` in Methods and its children (tables of names,
--                their resolution, categories, sensitive words) and
--                `src/classification/criticality.py` in Criticality (calculate_criticality,
--                get_criticality_stats) and Enrich (classify_event). Theorems: Levels, Stats.
--   Signals      `src/product/event_signals.py`: Core has the event and the stages of
--                classify_signal, Cascade the rules in their order, Classify the whole. Theorems:
--                Tiers, Overrides.
--   Intelligence  `src/product/event_intelligence.py`: classify_event and what it reads in
--                Intelligence, the words of a method and the families in Words. Theorems: Risk,
--                Denied (with Signals).
--   Routing      `src/routing/topic_router.py`: route_event, route_batch, _produce_event. Theorems:
--                Delivery, Accounting.
--   Denials      `src/aggregation/denial_aggregator.py`: add_denial, add_event, should_aggregate in
--                Denials, _flush_all_buckets and _produce_alert in Flush. Theorems: Buckets, Bounds,
--                Alerts, Delivery.
--   Sinks        `src/sinks/`: the result types and BufferedSink of base_sink.py (Buffer),
--                SinkManager.write, KafkaSink.write and DLQSink.write_failures. Theorems:
--                DeadLetters, Buffer.
--   Burst        `src/product/burst_detector.py`: record, recent, get_count. Theorems: Window,
--                Bounds.
--   Anomaly      `src/anomaly/rate_tracker.py`: RateCounter and _should_alert in Anomaly,
--                the state in Records, track_event and cleanup in Tracker. Theorems: Dedup, Detection.
--   Breaker      `src/resilience/circuit_breaker.py`: the locked parts of `call`, and in Calls the
--                steps of concurrent calls. Theorems: Invariant, Calls, Window, Recovery.
--   Retry        `src/resilience/retry.py`: get_delay and retry_with_backoff in Retry, the bucket of
--                tokens in Budget. Theorems: Loop, Delay, Budget.
--   Notifications  `src/notifications/notifier.py`: the configuration and the filters of a
--                destination in Config, the duplicates in Duplicates, the limit of a destination in
--                Rate, digests in Digest, the messages of each channel in Messages, the retry of a
--                request in Sending, notify and test_destinations in Notify. Theorems: their children.
--   Transformer  `src/transformer/`: cloudevents.py in CloudEvents, the handlers of the services in
--                Handlers and event_router.py in Router; in Crn the build_crn of crn_parser.py and
--                the parse_crn of `src/product/resource_intelligence.py`. Theorems: Crn/RoundTrip,
--                Router/Isolation, Router/Services.
--   Baseline     `src/product/ip_baseline_tracker.py` and the alert on a new address of the forwarder;
--                `src/product/pattern_detector.py` in Patterns. Theorems: Seen, Patterns/Window.
--   Triage       `src/product/triage_store.py`, with `src/product/auth.py` in Access. Theorems: Triage,
--                Access/Granted.
--   Alerting     `src/alerting/`: the limits and the sending of webhook_sender.py in Alerting and
--                Posting, its messages in Messages, from_env of webhook_config.py. Theorems: Limits,
--                Refused, Messages/TestAlert.
-- A file Tests beside a component has runs at concrete inputs and the theorems applied there.
--
-- Conventions. State is passed explicitly: an operation takes the record of a class's fields and
-- returns the new one with its result. Loops are structural recursion on their lists, and the
-- retry loop on what is left of its range, so that nothing runs on fuel. Times, delays and rates
-- are naturals in one unit that is as fine as needed, where the source has floats; what the source
-- computes of them is a comparison, a sum or a product, and a rate per minute is a fraction; the
-- notifier, the webhook sender and the pattern detector count whole seconds. Numbers are printed
-- below 10^40. A clock that may run backwards is one where a theorem does not assume the contrary. Text is
-- compared as the source does, with `lower`, `upper` and `strip` on ASCII. Sets are lists. Optional
-- fields that the source only tests for truth are texts, empty if absent. A section with a lock is
-- one step.
--
-- Outside the model, as arguments: the clock, the Kafka producer and consumer (how each of their
-- calls ends), the callbacks and called functions (how they end), requests over HTTP and mail, the
-- resolution of names and the parsing of addresses, the draw of random numbers, the cache of known
-- addresses, what the pipeline does to one message of a batch (its fate), what the writers have
-- persisted when a batch ends, whether a write to the database succeeds, files with JSON and YAML, which arrive as data or as a failure, and environment
-- variables. Not modelled, because they are input and output or glue: the scheduling of the threads,
-- the database writer, the web backend, the cloud storage clients, the command line and the scripts.
-- Log lines and metrics are left out.
pub mod Prelude
pub mod Forwarder
pub mod Breaker
pub mod Retry
pub mod Burst
pub mod Anomaly
pub mod Denials
pub mod Criticality
pub mod Routing
pub mod Signals
pub mod Sinks
pub mod Notifications
pub mod Transformer
pub mod Baseline
pub mod Triage
pub mod Alerting
pub mod Intelligence
