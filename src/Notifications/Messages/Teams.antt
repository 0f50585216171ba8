-- ===== src/Notifications/Messages/Teams.antt =====
-- `_format_teams` (notifier.py). The envelope around the body is constant.
use Prim.Native.String.{◌++◌}
use auditlens.Prelude.{List, [], ◌∷◌, String, str_eq, truthy, if◌then◌else◌}
use auditlens.Notifications.{Event, get, action_of}
use auditlens.Notifications.Messages.{
  Site, safe, resource_display, actor_display, cluster_display, environment_display,
  format_timestamp, signal_of, header_text,
}

-- The elements of the card: the title and the recommendation in a color, the facts, the summary.
pub data Element : Type 0 where
  title : String → String → Element
  facts : List (String × String) → Element
  summary : String → Element
  recommendation : String → String → Element

-- the color of a signal type
pub card_color : String → String
card_color signal_type =
    if str_eq signal_type "action_required"
    then "attention"
    else if str_eq signal_type "attention"
    then "warning"
    else "default"

pub event_facts : Site → Event → List (String × String)
event_facts site event =
    ("Action", safe (action_of event))
    ∷ ("Actor", actor_display event)
    ∷ ("Resource", resource_display event)
    ∷ ("Cluster", cluster_display event)
    ∷ ("Environment", environment_display event)
    ∷ ("Result", safe (get "result" event))
    ∷ ("Risk", safe (get "risk_level" event))
    ∷ ("Time", format_timestamp site (get "timestamp" event))
    ∷ []

pub element_if : String → Element → List Element → List Element
element_if value element rest = if truthy value then element ∷ rest else rest

-- `_format_teams`, the body of its card
pub format_teams : Site → Event → List Element
format_teams site event =
    let color = card_color (signal_of event) in
    let text = get "event_summary" event in
    let recommended = get "recommended_action" event in
    title color (header_text event)
    ∷ facts (event_facts site event)
    ∷ element_if text (summary text)
        (element_if recommended (recommendation color ("⚡ " ++ recommended)) [])
