-- ===== src/Notifications/Tests.antt =====
-- Runs of the notifier, and the theorems at concrete inputs.
use auditlens.Prelude.{
  ℕ, ◌+◌, ◌≡◌, refl, true, false, none, some, List, [], ◌∷◌, String, arith, strip, is_in, lower,
  has_prefix, has_any,
}
use auditlens.Prelude.Eq.{string_eq, pair_eq}
use auditlens.Prelude.Assoc.{lookup, insert}
use auditlens.Notifications.{
  items, Event, Filters, Destination, should_notify, risk_rank, risk_passes,
}
use auditlens.Notifications.Config.{
  Network, RawDestination, entry_mapping, entry_not_mapping, filters_mapping, rate_missing,
  parse_destinations, parse_destination, checked_destination, is_placeholder_url,
  validate_webhook_url,
}
use auditlens.Notifications.Config.File.{
  ConfigFile, mapping, destinations_list, Config, load_config,
}
use auditlens.Notifications.Duplicates.{
  Duplicates, Requests, LastSent, check_dedup, record_dedup, prune_dedup, repeats, spec_repeats,
  repeats-spec_repeats,
}
use auditlens.Notifications.Rate.{Sample}
use auditlens.Notifications.Rate.Windows.{Op, ask, flush, let_through}
use auditlens.Notifications.Rate.Accounting.{asked, held, reported, discarded, after, asked-balance}
use auditlens.Notifications.Digest.{
  Snapshot, Digests, Clock, schedule_time, maybe_send_digests, poll_one, take_buffer,
  append_snapshot, may_send,
}
use auditlens.Notifications.Digest.Spec
use auditlens.Notifications.Digest.Spec.{
  append, poll, History, digests, spec_digests, digests-spec_digests,
}
use auditlens.Notifications.Sending.{raised, World, send_with_retry}
use auditlens.Notifications.Sending.Deadline.{IsPrompt, send_with_retry-IsPrompt}
use auditlens.Notifications.Notify.{Notifier, Now, notify_loaded}
use auditlens.Notifications.Notify.Delivery.{sends, blocked, room, sends-notify_loaded}
use auditlens.Notifications.Messages.{event_fingerprint}

abbrev network : Network
network = record {
  scheme = λ url. "https";
  hostname = λ url. "hooks.example";
  resolve = λ host. some (record {
    is_private = false;
    is_loopback = false;
    is_link_local = false;
    is_reserved = false;
    is_unspecified = false;
  });
  resolve_secret = λ name. none;
}

abbrev filters : Filters
filters = record {
  signal_type = "attention" ∷ [];
  min_risk_level = "high";
  action_category = items [];
  exclude_actions = items ("noop" ∷ []);
}

abbrev slack : RawDestination
slack = record {
  name = "";
  type = "Slack";
  webhook_url = "https://hooks.example/x";
  enabled = true;
  filters = filters_mapping filters;
  integration_key = "";
  rate_limit_per_minute = rate_missing;
  mode = "";
  digest_schedule = "25:00";
}

abbrev file : ConfigFile
file = mapping 7 (record {
  destinations = destinations_list (entry_mapping slack ∷ entry_not_mapping ∷ []);
  app_base_url = none;
  pipeline_health_check_enabled = none;
  pipeline_silence_threshold_minutes = none;
})

abbrev config : Config
config = record {
  destinations = [];
  app_base_url = "";
  pipeline_health_check_enabled = true;
  pipeline_silence_threshold_minutes = 30;
  mtime = none;
}

abbrev realtime : Destination
realtime = record {
  name = "unnamed";
  type = "slack";
  webhook_url = "https://hooks.example/x";
  enabled = true;
  filters = filters;
  integration_key = "";
  rate_limit_per_minute = 0;
  mode = "realtime";
  digest_schedule = "09:00";
}

abbrev event : Event
event = record {
  fields =
      ("signal_type", "attention")
      ∷ ("risk_level", "High")
      ∷ ("action", "DeleteTopic")
      ∷ ("event_fingerprint", "fp")
      ∷ [];
  id = some 3;
}

load_config-file :
    (load_config network file config).destinations
    ≡ record realtime { rate_limit_per_minute = 10 } ∷ []
unfolding load_config parse_destinations parse_destination checked_destination is_placeholder_url
    validate_webhook_url schedule_time is_in lower has_prefix has_any
load_config-file = refl

abbrev new_duplicates : Duplicates
new_duplicates = record { dedup = []; call_count = 999 }

abbrev no_sent : LastSent
no_sent key = none

abbrev checks : Requests
checks = (("fp", "a"), 10) ∷ (("fp", "b"), 20) ∷ (("fp", "a"), 309) ∷ (("fp", "a"), 310) ∷ []

repeats-checks : repeats checks new_duplicates ≡ false ∷ false ∷ true ∷ false ∷ []
unfolding repeats check_dedup record_dedup prune_dedup lookup insert
repeats-checks = refl

repeats-spec_repeats_example : repeats checks new_duplicates ≡ spec_repeats checks no_sent
unfolding lookup
repeats-spec_repeats_example =
    repeats-spec_repeats checks 0 new_duplicates no_sent
      (record { distinct = tt; same = λ j now h. refl }) (omega arith)

abbrev sample : Sample
sample = record { actor = "u"; action = "a" }

abbrev limit_of : String → ℕ
limit_of name = 2

abbrev ops : List Op
ops = ask "s" sample 59 ∷ ask "s" sample 60 ∷ ask "s" sample 61 ∷ flush 70 ∷ ask "s" sample 80 ∷ []

asked-balance_example :
    asked "s" ops + held "s" []
    ≡ let_through limit_of "s" ops []
      + reported limit_of (λ now name. false) "s" ops []
      + discarded limit_of (λ now name. false) "s" ops []
      + held "s" (after limit_of ops [])
asked-balance_example = asked-balance limit_of (λ now name. false) "s" ops [] tt

abbrev snapshot : Snapshot
snapshot = record {
  signal_type = "attention";
  actor = "u";
  action = "a";
  resource = "r";
  risk_level = "high";
  timestamp = "t";
}

abbrev no_digests : Digests
no_digests = record { buffer = []; last_sent = [] }

abbrev no_history : History
no_history = record { events = λ name. []; last = λ name. none }

abbrev nine : Clock
nine = record { today = "2026-05-10"; hour = 9; minute = 0 }

abbrev daily : Destination
daily = record realtime { mode = "digest" }

abbrev digest_ops : List Spec.Op
digest_ops =
    append "unnamed" snapshot
    ∷ poll nine (daily ∷ daily ∷ [])
    ∷ append "unnamed" snapshot
    ∷ poll nine (daily ∷ [])
    ∷ []

digests-digest_ops :
    digests digest_ops no_digests
    ≡ record { name = "unnamed"; events = snapshot ∷ []; date = "2026-05-10" } ∷ []
unfolding digests maybe_send_digests poll_one take_buffer append_snapshot may_send schedule_time
    lookup insert
digests-digest_ops = refl

digests-spec_digests_example : digests digest_ops no_digests ≡ spec_digests digest_ops no_history
unfolding lookup
digests-spec_digests_example =
    digests-spec_digests digest_ops no_digests no_history
      (record { kept = λ j. refl; day = λ j. refl })

-- Every call takes three seconds and fails.
abbrev failing : World ℕ String
failing = record {
  dispatch = λ s. (s + 3, raised "HTTP 500");
  sleep = λ n s. s + n;
  clock = λ s. s;
}

send_with_retry-IsPrompt_example : IsPrompt failing 30 4 (send_with_retry failing 0)
send_with_retry-IsPrompt_example = send_with_retry-IsPrompt failing 0

abbrev notifier : Notifier
notifier = record {
  config = record config { destinations = realtime ∷ realtime ∷ [] };
  duplicates = record { dedup = []; call_count = 0 };
  rates = [];
  digests = no_digests;
  rate_timer_started = false;
  digest_timer_started = false;
}

abbrev at_ten : Now
at_ten = record { monotonic = 10; wall = 1000 }

sends-notify_loaded_example :
    sends "unnamed" (notify_loaded at_ten event notifier).1
    ≡ room (blocked at_ten (event_fingerprint event) "unnamed" notifier)
unfolding should_notify risk_passes risk_rank strip is_in lower lookup
sends-notify_loaded_example =
    sends-notify_loaded at_ten event notifier "unnamed" (omega arith) tt refl
