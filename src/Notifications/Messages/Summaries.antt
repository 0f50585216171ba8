-- ===== src/Notifications/Messages/Summaries.antt =====
-- The events that stand for suppressed ones and for a day's digest: `_send_burst_summary` and
-- `_send_digest`, and the message for each type of destination, `_dispatch` (notifier.py).
use Prim.Native.String.{◌++◌, compare}
use auditlens.Prelude.{
  ℕ, ◌+◌, Bool, false, List, [], ◌∷◌, Option, none, some, String, decimal, join, keep_if, length,
  take, leb, str_eq, truthy, or_else, map, if◌then◌else◌,
}
use auditlens.Prelude.Eq.{string_eq}
use auditlens.Prelude.Assoc.{Dict, lookup_or, insert}
use text.Mathlib.Text.{is_lt}
use auditlens.Notifications.{Event, Destination}
use auditlens.Notifications.Config.{pagerduty_endpoint_url}
use auditlens.Notifications.Rate.{Sample, Summary}
use auditlens.Notifications.Digest.{Snapshot}
use auditlens.Notifications.Messages.{Site}
use auditlens.Notifications.Messages.Slack.{
  SlackMessage, DigestCounts, format_slack, format_slack_digest,
}
use auditlens.Notifications.Messages.Teams.{Element, format_teams}
use auditlens.Notifications.Messages.Services.{PagerDutyEvent, format_pagerduty, format_webhook}

-- a text put into its place, once, in a sorted list
place : String → List String → List String
place s [] = s ∷ []
place s (t ∷ ts) =
    let later = t ∷ place s ts in
    if str_eq s t then t ∷ ts else if is_lt (compare s t) then s ∷ t ∷ ts else later

-- the sorted set of the actors that are named
sorted_actors : List Sample → List String
sorted_actors [] = []
sorted_actors (item ∷ sample) =
    let rest = sorted_actors sample in if truthy item.actor then place item.actor rest else rest

abbrev first_three : List String → String
first_three [] = "(see logs)"
first_three (a ∷ actors) = join ", " (take 3 (a ∷ actors))

-- `_send_burst_summary`: the event, with the time as text and in seconds
pub burst_event : Destination → Summary → String → ℕ → Event
burst_event destination summary timestamp seconds = record {
  fields =
      ("signal_type", "informational")
      ∷ ("event_title", "AuditLens: " ++ decimal summary.count ++ " notification(s) suppressed")
      ∷ (
        "event_summary",
        "Rate limit hit on destination '"
            ++ destination.name
            ++ "'. "
            ++ decimal summary.count
            ++ " additional event(s) in the last minute were not delivered individually. Recent actors: "
            ++ first_three (sorted_actors summary.sample)
            ++ ".",
      )
      ∷ ("action", "rate_limit_burst")
      ∷ ("actor_display_name", destination.name)
      ∷ ("actor", destination.name)
      ∷ ("resource_name", "rate_limit")
      ∷ ("resource_type", "—")
      ∷ ("risk_level", "—")
      ∷ ("result", "—")
      ∷ ("recommended_action", "Tune notifications.yml rate_limit_per_minute if this is frequent.")
      ∷ ("timestamp", timestamp)
      ∷ ("event_fingerprint", "burst:" ++ destination.name ++ ":" ++ decimal seconds)
      ∷ [];
  id = none;
}

-- `Counter`
tally : List String → Dict String ℕ → Dict String ℕ
tally [] counts = counts
tally (s ∷ ss) counts = tally ss (insert s (lookup_or 0 s counts + 1) counts)

by_count : String × ℕ → List (String × ℕ) → List (String × ℕ)
by_count c [] = c ∷ []
by_count c (d ∷ ds) = let later = d ∷ by_count c ds in if leb d.1 c.1 then c ∷ d ∷ ds else later

most_first : List (String × ℕ) → List (String × ℕ)
most_first [] = []
most_first (c ∷ cs) = by_count c (most_first cs)

-- `Counter(…).most_common(n)`: the higher counts first, equal ones in the order of their coming
most_common : ℕ → List String → List (String × ℕ)
most_common n ss = take n (most_first (tally ss []))

abbrev of_signal : String → List Snapshot → List Snapshot
of_signal signal events = keep_if (λ e. str_eq e.signal_type signal) events

abbrev head_of : List (String × ℕ) → Option (String × ℕ)
head_of [] = none
head_of (c ∷ cs) = some c

-- what `_send_digest` counts
pub digest_counts : List Snapshot → String → String → DigestCounts
digest_counts events date_str dashboard_url =
    let action_required = of_signal "action_required" events in
    let attention = of_signal "attention" events in
    record {
      date_str = date_str;
      action_required_count = length action_required;
      attention_count = length attention;
      top_actors = most_common 3 (map (λ e. or_else e.actor "—") action_required);
      top_actions = most_common 3 (map (λ e. or_else e.action "—") attention);
      top_resource = head_of (most_common 1 (map (λ e. or_else e.resource "—") events));
      dashboard_url = dashboard_url;
    }

abbrev counted : String × ℕ → String
counted (name, n) = name ++ " (" ++ decimal n ++ ")"

abbrev top_part : String → List (String × ℕ) → List String → List String
top_part title [] rest = rest
top_part title (c ∷ cs) rest = (title ++ join ", " (map counted (c ∷ cs))) ∷ rest

abbrev resource_part : Option (String × ℕ) → List String → List String
resource_part none rest = rest
resource_part (some c) rest = ("Top resource: " ++ counted c) ∷ rest

digest_summary : DigestCounts → String
digest_summary c = join " · " (
    (decimal c.action_required_count ++ " action_required")
    ∷ (decimal c.attention_count ++ " attention")
    ∷ top_part "Top actors: " c.top_actors (
        top_part "Top actions: " c.top_actions (
          resource_part c.top_resource
            (if truthy c.dashboard_url then ("Dashboard: " ++ c.dashboard_url) ∷ [] else []))))

-- the event of `_send_digest` for a destination that is not of Slack
pub digest_event : Destination → DigestCounts → String → Event
digest_event destination c timestamp = record {
  fields =
      ("signal_type", "informational")
      ∷ ("event_title", "AuditLens Daily Digest — " ++ c.date_str)
      ∷ ("event_summary", digest_summary c)
      ∷ ("action", "daily_digest")
      ∷ ("actor_display_name", destination.name)
      ∷ ("actor", destination.name)
      ∷ ("resource_name", "digest")
      ∷ ("resource_type", "—")
      ∷ ("risk_level", "—")
      ∷ ("result", "—")
      ∷ ("timestamp", timestamp)
      ∷ ("event_fingerprint", "digest:" ++ destination.name ++ ":" ++ c.date_str)
      ∷ [];
  id = none;
}

pub data Payload : Type 0 where
  slack : SlackMessage → Payload
  teams : List Element → Payload
  webhook : Dict String String → Payload
  pagerduty : PagerDutyEvent → Payload

-- `_dispatch`: what is posted and where, `none` for a type that it does not know
pub dispatch_payload : Site → Event → Destination → Option (String × Payload)
dispatch_payload site event d =
    if str_eq d.type "slack"
    then some (d.webhook_url, slack (format_slack site event))
    else if str_eq d.type "teams"
    then some (d.webhook_url, teams (format_teams site event))
    else if str_eq d.type "webhook"
    then some (d.webhook_url, webhook (format_webhook site event))
    else if str_eq d.type "pagerduty"
    then some (pagerduty_endpoint_url, pagerduty (format_pagerduty event d))
    else none

pub data DigestMessage : Type 0 where
  post_slack : SlackMessage → DigestMessage
  send_synthetic : Event → DigestMessage

-- `_send_digest`
pub send_digest : List Snapshot → String → String → String → Destination → DigestMessage
send_digest events date_str dashboard_url timestamp d =
    let c = digest_counts events date_str dashboard_url in
    if str_eq d.type "slack"
    then post_slack (format_slack_digest c)
    else send_synthetic (digest_event d c timestamp)

-- `_post_json` once there is an answer: true for a status of 2xx, an error for another
pub post_result : ℕ → Bool
post_result status = if leb 200 status then leb status 299 else false
