-- ===== src/Notifications/Messages/Slack.antt =====
-- `_format_slack` and `_format_slack_digest` (notifier.py).
use Prim.Native.String.{◌++◌}
use auditlens.Prelude.{
  ℕ, List, [], ◌∷◌, Option, none, some, String, take_text, decimal, join, lower, is_in, truthy, map,
  if◌then◌else◌,
}
use auditlens.Notifications.{Event, get, action_of}
use auditlens.Notifications.Messages.{
  Site, safe, resource_display, actor_display, cluster_display, environment_display,
  format_timestamp, header_text, event_deep_link,
}

-- The blocks of Slack's Block Kit that are used: a header, sections of several texts and of one, a
-- context, and the button "View event →" with its URL.
pub data Block : Type 0 where
  header : String → Block
  fields : List String → Block
  section : String → Block
  context : String → Block
  view_button : String → Block

pub record SlackMessage : Type 0 where
  pub blocks : List Block
  pub text : String

pub block_if : String → Block → List Block → List Block
block_if value block rest = if truthy value then block ∷ rest else rest

-- `f"*{result_raw}*" if is_failure else result_raw`
pub result_text : String → String
result_text result =
    if is_in (lower result) ("failure" ∷ "denied" ∷ "fail" ∷ "failed" ∷ "deny" ∷ [])
    then "*" ++ result ++ "*"
    else result

pub event_fields : Site → Event → List String
event_fields site event =
    ("*Action:*\n" ++ safe (action_of event))
    ∷ ("*Actor:*\n" ++ actor_display event)
    ∷ ("*Resource:*\n" ++ resource_display event)
    ∷ ("*Cluster:*\n" ++ cluster_display event)
    ∷ ("*Environment:*\n" ++ environment_display event)
    ∷ ("*Result:*\n" ++ result_text (safe (get "result" event)))
    ∷ ("*Risk:*\n" ++ safe (get "risk_level" event))
    ∷ ("*Time:*\n" ++ format_timestamp site (get "timestamp" event))
    ∷ []

-- `_format_slack`
pub format_slack : Site → Event → SlackMessage
format_slack site event =
    let summary = get "event_summary" event in
    let recommended = get "recommended_action" event in
    let url = event_deep_link site event in
    record {
      blocks =
          header (take_text 150 (header_text event))
          ∷ fields (event_fields site event)
          ∷ block_if summary (context summary) (
              block_if recommended (section ("⚡ " ++ recommended))
                (block_if url (view_button url) []));
      text = header_text event;
    }

-- what `_send_digest` counts
pub record DigestCounts : Type 0 where
  pub date_str : String
  pub action_required_count : ℕ
  pub attention_count : ℕ
  pub top_actors : List (String × ℕ)
  pub top_actions : List (String × ℕ)
  pub top_resource : Option (String × ℕ)
  pub dashboard_url : String

abbrev pub counted_line : String × ℕ → String
counted_line (name, n) = "• " ++ name ++ " — " ++ decimal n

pub top_block : String → List (String × ℕ) → List Block → List Block
top_block title [] rest = rest
top_block title (c ∷ counts) rest =
    section (title ++ join "\n" (map counted_line (c ∷ counts))) ∷ rest

pub resource_block : Option (String × ℕ) → List Block → List Block
resource_block none rest = rest
resource_block (some (name, n)) rest =
    section ("*Top resource affected:* " ++ name ++ " (" ++ decimal n ++ " event(s))") ∷ rest

-- `_format_slack_digest`
pub format_slack_digest : DigestCounts → SlackMessage
format_slack_digest c = record {
  blocks =
      header ("AuditLens Daily Digest — " ++ c.date_str)
      ∷ section (
          "🔴 *"
          ++ decimal c.action_required_count
          ++ "* action_required  ·  🟡 *"
          ++ decimal c.attention_count
          ++ "* attention")
      ∷ top_block "*Top action_required actors:*\n" c.top_actors (
          top_block "*Top attention actions:*\n" c.top_actions (
            resource_block c.top_resource (
              block_if c.dashboard_url
                (section ("<" ++ c.dashboard_url ++ "|Open AuditLens dashboard →>")) [])));
  text =
      "AuditLens Daily Digest — "
      ++ c.date_str
      ++ ": "
      ++ decimal c.action_required_count
      ++ " action_required, "
      ++ decimal c.attention_count
      ++ " attention";
}
