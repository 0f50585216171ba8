-- ===== src/Alerting.antt =====
-- src/alerting/webhook_sender.py, with the configuration of webhook_config.py. Times are whole
-- seconds. The HTTP requests, in the order of the tries, are answered by an argument.
pub mod Posting
pub mod Messages
pub mod Limits
pub mod Refused
mod Tests
use Prim.Native.String.{◌++◌ as cat}
use auditlens.Prelude.{
  ℕ, ◌+◌, ◌/◌, Bool, true, false, not, ◌&&◌, Option, none, some, List, [], ◌∷◌, String, ltb, leb,
  ◌==◌, lower, upper, or_else, str_eq, truthy, if◌then◌else◌,
}
use auditlens.Prelude.Eq.{Eq, string_eq, number_eq}
use auditlens.Prelude.Assoc.{Dict, lookup, lookup_or, insert}
use auditlens.Alerting.Posting.{Post, send_webhook}

pub data WebhookType : Type 0 where
  slack pagerduty teams generic : WebhookType

pub record WebhookConfig : Type 0 where
  pub webhook_type : WebhookType
  pub url : String
  pub enabled : Bool
  pub max_alerts_per_minute : ℕ
  pub cooldown_seconds : ℕ
  pub send_critical : Bool
  pub send_high : Bool
  pub send_medium : Bool
  pub send_low : Bool

-- the variables of the environment under a prefix
pub record WebhookEnv : Type 0 where
  pub url : Option String
  pub type_name : Option String
  pub enabled : Option String
  pub send_critical : Option String
  pub send_high : Option String
  pub send_medium : Option String
  pub send_low : Option String

abbrev env_or : String → Option String → String
env_or default none = default
env_or default (some s) = s

abbrev flag_or : String → Option String → Bool
flag_or default value = str_eq (lower (env_or default value)) "true"

-- `WebhookType(...)`, or GENERIC
abbrev webhook_type_of : String → WebhookType
webhook_type_of name =
    if str_eq name "slack"
    then slack
    else if str_eq name "pagerduty"
    then pagerduty
    else if str_eq name "teams"
    then teams
    else generic

-- `WebhookConfig.from_env`
pub from_env : WebhookEnv → Option WebhookConfig
from_env env =
    let url = env_or "" env.url in
    if not (truthy url)
    then none
    else some (record {
      webhook_type = webhook_type_of (lower (env_or "generic" env.type_name));
      url = url;
      enabled = flag_or "true" env.enabled;
      max_alerts_per_minute = 10;
      cooldown_seconds = 60;
      send_critical = flag_or "true" env.send_critical;
      send_high = flag_or "true" env.send_high;
      send_medium = flag_or "false" env.send_medium;
      send_low = flag_or "false" env.send_low;
    })

-- `alert_counts`, `last_alert_time` and `current_minute_bucket`
pub record Sender : Type 0 where
  pub alert_counts : Dict ℕ ℕ
  pub last_alert_time : Dict String ℕ
  pub current_minute_bucket : ℕ

abbrev pub new_sender : Sender
new_sender = record { alert_counts = []; last_alert_time = []; current_minute_bucket = 0 }

abbrev pub minute_of : ℕ → ℕ
minute_of time = time / 60

-- whether the level of an alert is one that is not sent
unfoldable pub is_muted : WebhookConfig → String → Bool
is_muted config criticality =
    let level = upper criticality in
    if str_eq level "CRITICAL" && not config.send_critical
    then true
    else if str_eq level "HIGH" && not config.send_high
    then true
    else if str_eq level "MEDIUM" && not config.send_medium
    then true
    else str_eq level "LOW" && not config.send_low

-- the counts of a new minute start at nothing
unfoldable pub enter_minute : ℕ → Sender → Sender
enter_minute minute s =
    if minute == s.current_minute_bucket
    then s
    else record s { alert_counts = []; current_minute_bucket = minute }

abbrev cooling : ℕ → ℕ → Option ℕ → Bool
cooling cooldown now none = false
cooling cooldown now (some last) = ltb now (last + cooldown)

unfoldable pub under_limits : WebhookConfig → String → ℕ → Sender → Bool
under_limits config key now s =
    ltb (lookup_or 0 (minute_of now) s.alert_counts) config.max_alerts_per_minute
    && not (cooling config.cooldown_seconds now (lookup key s.last_alert_time))

-- `should_send_alert`, for a sender that has a configuration
unfoldable pub should_send_alert : WebhookConfig → String → String → ℕ → Sender → Sender × Bool
should_send_alert config criticality key now s =
    if not config.enabled
    then (s, false)
    else if is_muted config criticality
    then (s, false)
    else (let entered = enter_minute (minute_of now) s in
        (entered, under_limits config key now entered))

-- the state after a success, at its time
unfoldable pub count_sent : String → ℕ → Sender → Sender
count_sent key time s =
    let minute = minute_of time in
    record s {
      alert_counts = insert minute (lookup_or 0 minute s.alert_counts + 1) s.alert_counts;
      last_alert_time = insert key time s.last_alert_time;
    }

-- One alert: its level and key, the time of the check, the time after the request, and the answers.
pub record Alert : Type 0 where
  pub criticality : String
  pub key : String
  pub now : ℕ
  pub later : ℕ
  pub posts : ℕ → Post

abbrev pub sent_or_not : Alert → Sender → Bool → Sender × Bool
sent_or_not a s ok = if ok then (count_sent a.key a.later s, true) else (s, false)

abbrev pub finish_alert : Alert → Sender → Bool → (Sender × Bool) × ℕ
finish_alert a s true = (sent_or_not a s (send_webhook a.posts).0, (send_webhook a.posts).1)
finish_alert a s false = ((s, false), 0)

-- what `send_critical_event_alert` and `send_aggregated_denial_alert` do around their messages: the
-- new state, whether the alert was sent, and the number of requests
unfoldable pub send_alert : WebhookConfig → Alert → Sender → (Sender × Bool) × ℕ
send_alert config a s =
    let (checked, wanted) = should_send_alert config a.criticality a.key a.now s in
    finish_alert a checked wanted

-- the keys
pub critical_key : String → String
critical_key method_name = cat "critical_event:" method_name

pub denial_key : String → String
denial_key principal = cat "aggregated_denial:" principal
