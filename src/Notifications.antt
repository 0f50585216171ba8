-- ===== src/Notifications.antt =====
-- src/notifications/notifier.py: which destinations an event goes to. An event is a dict of texts,
-- and a missing key reads as the empty text: every use takes `None` and `""` alike. The children
-- model the configuration, the duplicates, the rate limit, the digests, the messages and the calls.
pub mod Config
pub mod Duplicates
pub mod Rate
pub mod Digest
pub mod Messages
pub mod Sending
pub mod Notify
mod Tests
use auditlens.Prelude.{
  ℕ, Bool, true, false, not, ◌&&◌, Option, none, some, List, [], ◌∷◌, String, ltb, lower, strip,
  is_in, has_part, truthy, or_else, str_eq, if◌then◌else◌,
}
use auditlens.Prelude.Eq.{string_eq}
use auditlens.Prelude.Assoc.{Dict, lookup_or}

pub record Event : Type 0 where
  pub fields : Dict String String
  -- `int(event.get("id"))` where it is positive
  pub id : Option ℕ

-- `event.get(key) or ""`
abbrev pub get : String → Event → String
get key event = lookup_or "" key event.fields

abbrev pub some_in {ℓ} : {A : Type ℓ} → List A → Bool
some_in [] = false
some_in (_ ∷ _) = true

-- What a filter of names may be in the file: a list of texts, or one text, in which `in` looks for a
-- part. A missing key is the empty list.
pub data Names : Type 0 where
  items : List String → Names
  scalar : String → Names

-- `x in names`
abbrev names_contain : String → Names → Bool
names_contain x (items xs) = is_in x xs
names_contain x (scalar s) = has_part x s

-- `bool(names)`
abbrev names_given : Names → Bool
names_given (items xs) = some_in xs
names_given (scalar s) = truthy s

-- The configuration makes sure that `signal_type` is a list.
pub record Filters : Type 0 where
  pub signal_type : List String
  pub min_risk_level : String
  pub action_category : Names
  pub exclude_actions : Names

-- `NotificationDestination`
pub record Destination : Type 0 where
  pub name : String
  pub type : String
  pub webhook_url : String
  pub enabled : Bool
  pub filters : Filters
  pub integration_key : String
  pub rate_limit_per_minute : ℕ
  pub mode : String
  pub digest_schedule : String

-- `_RISK_ORDER`, one higher, so that an unknown level of the event is 0
unfoldable pub risk_rank : String → Option ℕ
risk_rank level =
    if str_eq level "informational"
    then some 1
    else if str_eq level "low"
    then some 2
    else if str_eq level "medium"
    then some 3
    else if str_eq level "high"
    then some 4
    else if str_eq level "critical"
    then some 5
    else none

abbrev rank_or : ℕ → String → ℕ
rank_or default level = elim (risk_rank level) [ none ↦ default | some rank ↦ rank ]

-- `_RISK_ORDER.get(event_risk, -1) >= _RISK_ORDER.get(min_risk, 0)`
unfoldable pub risk_passes : String → String → Bool
risk_passes event_risk min_risk =
    not (ltb (rank_or 0 (lower (strip event_risk))) (rank_or 1 (lower min_risk)))

-- `event.get("action") or event.get("methodName") or ""`
abbrev pub action_of : Event → String
action_of event = or_else (get "action" event) (get "methodName" event)

-- `event.get("actor_display_name") or event.get("actor") or ""`
abbrev pub actor_of : Event → String
actor_of event = or_else (get "actor_display_name" event) (get "actor" event)

-- `if xs` on a list

-- `should_notify`
unfoldable pub should_notify : Event → Destination → Bool
should_notify event destination =
    let filters = destination.filters in
    let signal_type = strip (get "signal_type" event) in
    if not (truthy signal_type)
    then false
    else if not (is_in signal_type filters.signal_type)
    then false
    else if truthy filters.min_risk_level
        && not (risk_passes (get "risk_level" event) filters.min_risk_level)
    then false
    else if names_given filters.action_category
        && not (names_contain (get "action_category" event) filters.action_category)
    then false
    else not (
        names_given filters.exclude_actions
        && names_contain (action_of event) filters.exclude_actions)
