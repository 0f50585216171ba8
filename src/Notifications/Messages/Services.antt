-- ===== src/Notifications/Messages/Services.antt =====
-- `_format_webhook`, `_format_pagerduty` and `_pagerduty_severity` (notifier.py).
use Prim.Native.String.{◌++◌}
use auditlens.Prelude.{
  ◌&&◌, [], ◌∷◌, String, lower, or_else, str_eq, take_text, truthy, if◌then◌else◌,
}
use auditlens.Prelude.Assoc.{Dict}
use auditlens.Notifications.{Event, Destination, get, action_of, actor_of}
use auditlens.Notifications.Messages.{
  Site, safe, resource_display, actor_display, signal_of, title_or, event_fingerprint,
}

-- `_pagerduty_severity`
unfoldable pub pagerduty_severity : String → String → String
pagerduty_severity signal_type risk_level =
    if str_eq (lower signal_type) "action_required"
    then (if str_eq (lower risk_level) "critical" then "critical" else "error")
    else if str_eq (lower signal_type) "attention"
    then "warning"
    else "info"

-- What `_format_pagerduty` fills in; `event_action` and `source` are constant.
pub record PagerDutyEvent : Type 0 where
  pub routing_key : String
  pub dedup_key : String
  pub summary : String
  pub severity : String
  pub custom_details : Dict String String

-- `_format_pagerduty`
pub format_pagerduty : Event → Destination → PagerDutyEvent
format_pagerduty event destination = record {
  routing_key = destination.integration_key;
  dedup_key = event_fingerprint event;
  summary = take_text 1024 (title_or "AuditLens event" event);
  severity = pagerduty_severity (signal_of event) (get "risk_level" event);
  custom_details =
      ("actor", actor_display event)
      ∷ ("action", safe (action_of event))
      ∷ ("resource", resource_display event)
      ∷ ("signal_type", signal_of event)
      ∷ ("risk_level", safe (get "risk_level" event))
      ∷ ("recommended_action", safe (get "recommended_action" event))
      ∷ [];
}

webhook_resource : Event → String
webhook_resource event =
    let shown = or_else (get "resource_display" event) (get "resource_display_short" event) in
    let type = get "resource_type" event in
    let name = get "resource_name" event in
    if truthy shown
    then shown
    else if truthy type && truthy name
    then type ++ "/" ++ name
    else or_else name type

-- `_format_webhook`
pub format_webhook : Site → Event → Dict String String
format_webhook site event =
    ("alert_type", "audit_event")
    ∷ ("signal_type", get "signal_type" event)
    ∷ ("event_title", or_else (get "event_title" event) (get "action" event))
    ∷ ("event_summary", get "event_summary" event)
    ∷ ("action", action_of event)
    ∷ ("actor", actor_of event)
    ∷ ("actor_id", or_else (get "actor" event) (get "actor_id" event))
    ∷ ("resource", webhook_resource event)
    ∷ ("resource_type", get "resource_type" event)
    ∷ ("cluster_id", get "cluster_id" event)
    ∷ ("cluster_name", get "cluster_name" event)
    ∷ ("environment_id", get "environment_id" event)
    ∷ ("environment_name", get "environment_name" event)
    ∷ ("result", get "result" event)
    ∷ ("risk_level", get "risk_level" event)
    ∷ ("recommended_action", get "recommended_action" event)
    ∷ ("timestamp", get "timestamp" event)
    ∷ ("event_fingerprint", get "event_fingerprint" event)
    ∷ ("auditlens_version", site.version)
    ∷ []
