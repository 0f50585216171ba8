-- ===== src/Notifications/Messages.antt =====
-- The texts of a notification (notifier.py): how a field is shown, and the message of each kind of
-- destination. What `datetime.fromisoformat` and `strftime` make of a time is outside.
pub mod Slack
pub mod Teams
pub mod Services
pub mod Summaries
use Prim.Native.String.{◌++◌}
use auditlens.Prelude.{
  ℕ, ◌&&◌, Option, none, some, String, decimal, lower, upper, strip, str_eq, truthy, or_else,
  if◌then◌else◌,
}
use auditlens.Prelude.Eq.{string_eq}
use auditlens.Notifications.{Event, get}

-- `_AUDITLENS_VERSION`, the notifier's `_app_base_url`, and the time in UTC as it is shown, `none`
-- where `fromisoformat` raises
pub record Site : Type 0 where
  pub version : String
  pub app_base_url : String
  pub show_time : String → Option String

-- `_SIGNAL_EMOJI.get(signal_type, "🟢")`
pub signal_emoji : String → String
signal_emoji signal_type =
    if str_eq signal_type "action_required"
    then "🔴"
    else if str_eq signal_type "attention"
    then "🟡"
    else if str_eq signal_type "noise"
    then "⚪"
    else "🟢"

-- `_safe(value, default)`, with `None` as the empty text
pub safe_or : String → String → String
safe_or default value = or_else (strip value) default

pub safe : String → String
safe value = safe_or "—" value

abbrev slashed : String → String → String → String
slashed type name otherwise = if truthy type && truthy name then type ++ "/" ++ name else otherwise

-- `_resource_display`
unfoldable pub resource_display : Event → String
unfolding safe safe_or
resource_display event =
    let shown = or_else (get "resource_display" event) (get "resource_display_short" event) in
    let name = get "resource_name" event in
    let type = get "resource_type" event in
    if truthy shown then shown else slashed type name (safe (or_else name type))

-- `_actor_display`
pub actor_display : Event → String
actor_display event = safe (or_else (get "actor_display_name" event) (get "actor" event))

named_id : String → String → String
named_id name id =
    if truthy name && truthy id then name ++ " (" ++ id ++ ")" else safe (or_else name id)

-- `_cluster_display`
pub cluster_display : Event → String
cluster_display event = named_id (get "cluster_name" event) (get "cluster_id" event)

-- `_environment_display`
pub environment_display : Event → String
environment_display event = named_id (get "environment_name" event) (get "environment_id" event)

abbrev shown_or : String → Option String → String
shown_or value none = value
shown_or value (some text) = text

-- `text[:-1] + "+00:00"` for a final `Z`
utc_offset : String → String
utc_offset String.[] = String.[]
utc_offset (String.◌∷◌ c rest) =
    if str_eq (String.◌∷◌ c rest) "Z" then "+00:00" else String.◌∷◌ c (utc_offset rest)

-- `_format_timestamp`
pub format_timestamp : Site → String → String
format_timestamp site value =
    if truthy value then shown_or value (site.show_time (utc_offset value)) else "—"

abbrev pub signal_of : Event → String
signal_of event = lower (or_else (get "signal_type" event) "informational")

-- the title of the event, or the default
abbrev pub title_or : String → Event → String
title_or default event = safe_or default (or_else (get "event_title" event) (get "action" event))

-- the first line of a message
pub header_text : Event → String
header_text event =
    signal_emoji (signal_of event)
    ++ " "
    ++ upper (signal_of event)
    ++ " — "
    ++ title_or "Audit event" event

abbrev link_to : String → Option ℕ → String
link_to base none = ""
link_to base (some id) = base ++ "/events?event_id=" ++ decimal id

-- `_event_deep_link`
pub event_deep_link : Site → Event → String
event_deep_link site event =
    if truthy site.app_base_url then link_to site.app_base_url event.id else ""

-- `_event_fingerprint`
pub event_fingerprint : Event → String
event_fingerprint event =
    or_else (get "event_fingerprint" event)
      (get "action" event ++ get "actor" event ++ get "timestamp" event)
