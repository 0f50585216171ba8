-- ===== src/Notifications/Notify.antt =====
-- `notify`, `send_test` and `send_system_alert` (notifier.py). The threads that `notify` starts are
-- a list of tasks, and each of the two clocks is read once for a call.
pub mod Delivery
pub mod Wanted
use auditlens.Prelude.{
  ℕ, Bool, true, false, not, ◌&&◌, ◌||◌, Option, none, some, List, [], ◌∷◌, ◌++◌, String, ltb,
  str_eq, ◌+◌, if◌then◌else◌,
}
use auditlens.Prelude.Eq.{string_eq}
use auditlens.Notifications.{Event, Destination, get, action_of, actor_of, some_in, should_notify}
use auditlens.Notifications.Config.{Network}
use auditlens.Notifications.Config.File.{ConfigFile, Config, maybe_reload}
use auditlens.Notifications.Duplicates.{Duplicates, check_dedup}
use auditlens.Notifications.Rate.{Sample, Rates, Summary, consume_slot, flush_windows}
use auditlens.Notifications.Digest.{Snapshot, Digests, append_snapshot}
use auditlens.Notifications.Messages.{event_fingerprint, resource_display}

-- `AuditLensNotifier`
pub record Notifier : Type 0 where
  pub config : Config
  pub duplicates : Duplicates
  pub rates : Rates
  pub digests : Digests
  pub rate_timer_started : Bool
  pub digest_timer_started : Bool

-- `time.monotonic()` and `time.time()`
pub record Now : Type 0 where
  pub monotonic : ℕ
  pub wall : ℕ

-- `_send_with_retry` and `_send_burst_summary`, on threads of their own
pub data Task : Type 0 where
  send_event : Event → Destination → Task
  send_burst : Destination → Summary → Task

abbrev pub snapshot_of : Event → Snapshot
snapshot_of event = record {
  signal_type = get "signal_type" event;
  actor = actor_of event;
  action = action_of event;
  resource = resource_display event;
  risk_level = get "risk_level" event;
  timestamp = get "timestamp" event;
}

abbrev pub sample_of : Event → Sample
sample_of event = record { actor = actor_of event; action = action_of event }

abbrev pub burst_tasks : Destination → Option Summary → List Task
burst_tasks destination none = []
burst_tasks destination (some summary) = send_burst destination summary ∷ []

-- from the check for duplicates to the start of the thread
unfoldable pub deliver : Now → Event → String → Destination → Notifier → Notifier × List Task
deliver now event fingerprint destination n =
    let (duplicates, repeated) =
      check_dedup (fingerprint, destination.name) now.wall n.duplicates in
    (
      record n { duplicates = duplicates },
      if repeated then [] else send_event event destination ∷ [],
    )

-- the part under the rate limit
unfoldable pub limit_rate : Now → Event → String → Destination → Notifier → Notifier × List Task
limit_rate now event fingerprint destination n =
    let (rates, allowed, pending) =
      consume_slot destination.name destination.rate_limit_per_minute (sample_of event)
        now.monotonic n.rates in
    let limited = record n { rates = rates } in
    let (delivered, tasks) = deliver now event fingerprint destination limited in
    if allowed
    then (delivered, burst_tasks destination pending ++ tasks)
    else (limited, burst_tasks destination pending)

-- one turn of the loop over the destinations
unfoldable pub turn : Now → Event → String → Destination → Notifier → Notifier × List Task
turn now event fingerprint destination n =
    if not destination.enabled
    then (n, [])
    else if not (should_notify event destination)
    then (n, [])
    else if str_eq destination.mode "digest"
    then (record n { digests = append_snapshot destination.name (snapshot_of event) n.digests }, [])
    else if ltb 0 destination.rate_limit_per_minute
    then limit_rate now event fingerprint destination n
    else deliver now event fingerprint destination n

unfoldable pub turns : Now → Event → String → List Destination → Notifier → Notifier × List Task
turns now event fingerprint [] n = (n, [])
turns now event fingerprint (destination ∷ rest) n =
    let (n1, tasks) = turn now event fingerprint destination n in
    let (n2, more) = turns now event fingerprint rest n1 in (n2, tasks ++ more)

-- `_maybe_reload`
abbrev pub reloaded : Network → Option ℕ → ConfigFile → Notifier → Notifier
reloaded net mtime file n = record n { config = maybe_reload net mtime file n.config }

-- `_ensure_rate_timer` and `_ensure_digest_timer`
abbrev pub with_timers : Notifier → Notifier
with_timers n = record n { rate_timer_started = true; digest_timer_started = true }

-- `notify` after the reload
unfoldable pub notify_loaded : Now → Event → Notifier → Notifier × List Task
notify_loaded now event n =
    if some_in n.config.destinations
    then turns now event (event_fingerprint event) n.config.destinations (with_timers n)
    else (n, [])

-- `notify`
pub notify : Network → Option ℕ → ConfigFile → Now → Event → Notifier → Notifier × List Task
notify net mtime file now event n = notify_loaded now event (reloaded net mtime file n)

-- `by_name.get(dest_name)`: the last destination of a name
find_destination : String → List Destination → Option Destination
find_destination name [] = none
find_destination name (d ∷ ds) = elim (find_destination name ds) [
  | some found ↦ some found
  | none ↦ if str_eq d.name name then some d else none
]

burst_for : Option Destination → Summary → List Task
burst_for none summary = []
burst_for (some d) summary = if d.enabled then send_burst d summary ∷ [] else []

summary_tasks : List Destination → List (String × Summary) → List Task
summary_tasks ds [] = []
summary_tasks ds ((name, summary) ∷ rest) =
    burst_for (find_destination name ds) summary ++ summary_tasks ds rest

-- `_flush_expired_windows`
pub flush_expired_windows : ℕ → Notifier → Notifier × List Task
flush_expired_windows now n =
    let (rates, due) = flush_windows now n.rates in
    (record n { rates = rates }, summary_tasks n.config.destinations due)

-- What `_dispatch` does, with the text of an error.
pub data Dispatched : Type 0 where
  dispatched : Bool → Dispatched
  dispatch_error : String → Dispatched

pub data TestStatus : Type 0 where
  skipped sent refused : TestStatus
  error : String → TestStatus

test_status : Dispatched → TestStatus
test_status (dispatched true) = sent
test_status (dispatched false) = refused
test_status (dispatch_error text) = error text

-- `send_test`: the status of every destination
pub send_test : (Destination → Dispatched) → List Destination → List (String × TestStatus)
send_test dispatch [] = []
send_test dispatch (d ∷ ds) =
    (d.name, if d.enabled then test_status (dispatch d) else skipped) ∷ send_test dispatch ds

counts_as_sent : Destination → Dispatched → ℕ
counts_as_sent d (dispatched true) =
    if d.enabled && (str_eq d.type "slack" || str_eq d.type "teams") then 1 else 0
counts_as_sent d _ = 0

-- `send_system_alert`: how many destinations it was sent to
pub send_system_alert : (Destination → Dispatched) → List Destination → ℕ
send_system_alert post [] = 0
send_system_alert post (d ∷ ds) = counts_as_sent d (post d) + send_system_alert post ds
