-- ===== src/Routing/Tests.antt =====
-- A run of the router, and the theorems at concrete inputs.
use auditlens.Prelude.{ℕ, zero, suc, ◌≡◌, true, false, none, some, List, [], ◌∷◌, String}
use auditlens.Criticality.Methods.{MethodRules}
use auditlens.Routing.{
  RouterConfig, RawEvent, Producer, Attempt, queued, buffer_full, TopicRouter, no_events,
  route_batch,
}
use auditlens.Routing.Accounting.{IsBooked, results_of, route_batch-IsBooked}

abbrev config : RouterConfig
config = record {
  critical_topic = "crit";
  high_topic = "high";
  medium_topic = "medium";
  low_topic = "low";
  all_events_topic = some "all";
  dry_run = false;
  enable_critical = true;
  enable_high = true;
  enable_medium = true;
  enable_low = true;
  enable_all_events = true;
  drop_low_events = true;
}

abbrev rules : MethodRules
rules = record {
  critical = "DeleteKafkaCluster" ∷ [];
  high = [];
  medium = [];
  read_only = [];
  authentication = [];
  authorization_check = [];
  security_failure = [];
  keywords = [];
  deletion_words = [];
  creation_words = [];
  modification_words = [];
  read_words = [];
}

-- The second call finds the queue full, and the poll after it reports one failed delivery.
abbrev second_full : ℕ → Attempt
second_full zero = queued
second_full (suc zero) = buffer_full
second_full (suc (suc n)) = queued

abbrev producer : Producer
producer = record { attempt = second_full; reported = λ n. 1 }

abbrev router : TopicRouter
router = record { config = config; stats = no_events; calls = 0; sent = [] }

abbrev raw : String → RawEvent
raw name = record {
  id = "1";
  event = record { method_name = name; result_status = ""; granted = none };
}

abbrev batch : List RawEvent
batch = raw "DeleteKafkaCluster" ∷ raw "ListTopics" ∷ []

route_batch-IsBooked_example :
    let (r', c) = route_batch producer rules 0 batch router in
    IsBooked router.stats r'.stats c × (results_of c ≡ 2)
route_batch-IsBooked_example = route_batch-IsBooked producer rules 0 batch router
