-- ===== src/Denials/Tests.antt =====
-- The aggregator on concrete denials (denial_aggregator.py).
use auditlens.Prelude.{
  ℕ, ◌≡◌, refl, Bool, true, false, some, List, [], ◌∷◌, String, map, is_in, ◌==◌, str_eq,
  if◌then◌else◌,
}
use auditlens.Prelude.Eq.{string_eq, pair_eq}
use auditlens.Prelude.Assoc.{lookup, insert}
use auditlens.Criticality.{AuditEvent}
use auditlens.Criticality.Methods.{MethodRules}
use auditlens.Routing.{queued, buffer_full}
use auditlens.Denials.{
  AggregatorConfig, DenialEvent, BucketKey, keep_unique, keep_sample, add_denial, bucket_key,
  new_bucket, filled_bucket, AggregatedDenialAlert, create_alert, DenialAggregator, add_event,
}
use auditlens.Denials.Flush.{
  produce_high, retry_alert, Sinks, produce_alert, flush_buckets, flush_all_buckets,
}
use auditlens.Denials.Buckets.{add_all, count_events}
use auditlens.Denials.Alerts.{weigh_alerts, new_aggregator, flush-reports}

abbrev config : AggregatorConfig
config = record {
  high_threshold = 2;
  signals_topic = "signals";
  alerts_topic = "alerts";
  max_sample_events = 5;
  max_unique_values = 20;
  enabled = true;
  dry_run = false;
}

abbrev rules : MethodRules
rules = record {
  critical = [];
  high = [];
  medium = [];
  read_only = [];
  authentication = [];
  authorization_check = "mds.Authorize" ∷ [];
  security_failure = "UNAUTHENTICATED" ∷ [];
  keywords = [];
  deletion_words = [];
  creation_words = [];
  modification_words = [];
  read_words = [];
}

abbrev denied : AuditEvent
denied = record { method_name = "mds.Authorize"; result_status = ""; granted = some false }

abbrev denial : String → DenialEvent
denial principal = record {
  audit = denied;
  id = "e-1";
  principal_raw = principal;
  principal = "";
  principal_resource_id = "";
  principal_normalized = "";
  principal_type = "";
  authz_resource_name = "";
  resource_name = "orders";
  resource_type = "Topic";
  operation = "Read";
  client_ip = "10.0.0.1";
  cluster_id = "";
  environment_id = "";
  organization_id = "";
  email = "";
}

abbrev events : List (ℕ × DenialEvent)
events = (1, denial "alice") ∷ (2, denial "bob") ∷ (3, denial "alice") ∷ []

abbrev by_alice : BucketKey → Bool
by_alice k = str_eq k.0 "alice"

-- The second call finds the queue full.
abbrev sinks : Sinks
sinks = record {
  producer = record { attempt = λ n. if n == 1 then buffer_full else queued; reported = λ n. 0 };
  has_producer = true;
  has_webhook = true;
  callback_raises = λ x. false;
}

abbrev good_sinks : Sinks
good_sinks = record sinks { producer = record { attempt = λ n. queued; reported = λ n. 0 } }

flush-reports_example :
    (weigh_alerts by_alice (flush_all_buckets sinks 60 (add_all events (new_aggregator config))).1
      ≡ count_events by_alice events)
    × ((flush_all_buckets sinks 60 (add_all events (new_aggregator config))).0.buckets ≡ [])
flush-reports_example = flush-reports sinks config 60 events by_alice refl

abbrev summary : AggregatedDenialAlert → String × ℕ
summary x = (x.criticality, x.bucket.denial_count)

flush_run :
    map summary (flush_all_buckets sinks 60 (add_all events (new_aggregator config))).1
    ≡ ("HIGH", 2) ∷ ("MEDIUM", 1) ∷ []
unfolding flush_all_buckets flush_buckets create_alert add_all add_event filled_bucket add_denial
    new_bucket bucket_key keep_unique keep_sample lookup insert is_in produce_alert produce_high
    retry_alert
flush_run = refl

abbrev alert : AggregatedDenialAlert
alert = create_alert config 60 (record (new_bucket 1 (denial "alice")) { denial_count = 2 })

abbrev filled : DenialAggregator
filled = add_all events (new_aggregator config)
