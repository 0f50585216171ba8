-- ===== src/Alerting/Messages.antt =====
-- The messages of webhook_sender.py and the operations that send them. A missing key of a dict is
-- `none`; dicts of JSON are records.
pub mod TestAlert
use Prim.Native.Char.{code}
use Prim.Native.String.{◌++◌}
use auditlens.Prelude.{
  ℕ, ◌-◌, Bool, true, false, not, ◌&&◌, Option, none, some, List, [], ◌∷◌, String, ltb, leb, ◌==◌,
  decimal, join, length, or_else, str_eq, take, take_text, truthy, if◌then◌else◌,
}
use auditlens.Alerting.{
  WebhookType, slack, WebhookConfig, Sender, should_send_alert, Alert, send_alert, critical_key,
  denial_key,
}
use auditlens.Alerting.Posting.{Post}

pub record Field : Type 0 where
  pub title : String
  pub value : String
  pub short : Bool

pub record Attachment : Type 0 where
  pub fallback : String
  pub color : String
  pub title : String
  pub text : String
  pub fields : List Field
  pub footer : String
  pub ts : ℕ

abbrev footer_text : String
footer_text = "Confluent Audit Log Intelligence"

abbrev field : String → String → Bool → Field
field title value short = record { title = title; value = value; short = short }

abbrev pub get_or {ℓ} : {A : Type ℓ} → A → Option A → A
get_or default none = default
get_or default (some a) = a

-- an event; `source_ip` is empty where it is missing
pub record CriticalEvent : Type 0 where
  pub method_name : Option String
  pub principal : Option String
  pub result_status : Option String
  pub source_ip : String
  pub client_ip : Option String
  pub time : Option String
  pub criticality : Option String
  pub classification_reason : Option String

-- `color_map.get(criticality, default)` of the two maps
pub event_color : String → String
event_color criticality =
    if str_eq criticality "CRITICAL"
    then "#dc3545"
    else if str_eq criticality "HIGH"
    then "#fd7e14"
    else if str_eq criticality "MEDIUM"
    then "#ffc107"
    else if str_eq criticality "LOW"
    then "#28a745"
    else "#6c757d"

pub denial_color : String → String
denial_color criticality =
    if str_eq criticality "CRITICAL"
    then "#dc3545"
    else if str_eq criticality "HIGH"
    then "#fd7e14"
    else if str_eq criticality "MEDIUM"
    then "#ffc107"
    else "#fd7e14"

-- `text.replace('Z', '+00:00')`
unfoldable pub replace_z : String → String
replace_z String.[] = String.[]
replace_z (String.◌∷◌ c s) =
    let rest = replace_z s in if code c == 90 then "+00:00" ++ rest else String.◌∷◌ c rest

pub reason_field : Option String → List Field
reason_field none = []
reason_field (some reason) = field "Reason" reason false ∷ []

abbrev pub text_of_event : CriticalEvent → ℕ → Attachment
text_of_event e ts =
    let method = get_or "unknown" e.method_name in
    let principal = get_or "unknown" e.principal in
    let criticality = get_or "UNKNOWN" e.criticality in
    record {
      fallback = criticality ++ ": " ++ method ++ " by " ++ principal;
      color = event_color criticality;
      title = ":rotating_light: " ++ criticality ++ " Audit Event Detected";
      text = "*" ++ method ++ "* triggered by *" ++ principal ++ "*";
      fields =
          field "Method" method true
          ∷ field "Principal" (take_text 50 principal) true
          ∷ field "Status" (get_or "unknown" e.result_status) true
          ∷ field "Source IP" (or_else e.source_ip (get_or "unknown" e.client_ip)) true
          ∷ reason_field e.classification_reason;
      footer = footer_text;
      ts = ts;
    }

abbrev pub attachment_at : CriticalEvent → Option ℕ → Option Attachment
attachment_at e none = none
attachment_at e (some ts) = some (text_of_event e ts)

-- `_format_slack_message`, with `datetime.fromisoformat` and the current time as text; `none` where
-- the time of the event makes it raise
unfoldable pub format_slack_message :
    (String → Option ℕ) → String → CriticalEvent → Option Attachment
format_slack_message parse_iso now_text e =
    attachment_at e (parse_iso (replace_z (get_or now_text e.time)))

pub record GenericMessage : Type 0 where
  pub severity : String
  pub timestamp : String
  pub method : Option String
  pub principal : Option String
  pub status : Option String
  pub source_ip : String
  pub classification_reason : String

-- `_format_generic_message`
pub format_generic_message : String → CriticalEvent → GenericMessage
format_generic_message now_text e = record {
  severity = get_or "CRITICAL" e.criticality;
  timestamp = get_or now_text e.time;
  method = e.method_name;
  principal = e.principal;
  status = e.result_status;
  source_ip = or_else e.source_ip (get_or "" e.client_ip);
  classification_reason = get_or "" e.classification_reason;
}

-- the dict of an aggregated alert
pub record DenialSummary : Type 0 where
  pub principal : Option String
  pub denial_count : Option ℕ
  pub criticality : Option String
  pub window_start : String
  pub window_end : String
  pub operations : List String
  pub unique_operations : List String
  pub source_ips : List String
  pub environment_ids : List String
  pub cluster_ids : List String
  pub threshold : Option ℕ

abbrev or_list : List String → List String → List String
or_list [] ys = ys
or_list (x ∷ xs) ys = x ∷ xs

-- the first five, and how many more there are
pub display : List String → String
display xs =
    let shown = join ", " (take 5 xs) in
    if ltb 5 (length xs) then shown ++ " (+" ++ decimal (length xs - 5) ++ " more)" else shown

pub field_if : List String → Field → List Field → List Field
field_if [] f rest = rest
field_if (x ∷ xs) f rest = f ∷ rest

-- `_format_slack_aggregated_denial`, at a time
pub format_slack_aggregated_denial : ℕ → DenialSummary → Attachment
format_slack_aggregated_denial now a =
    let principal = get_or "unknown" a.principal in
    let count = get_or 0 a.denial_count in
    let criticality = get_or "HIGH" a.criticality in
    let threshold = get_or 10 a.threshold in
    let operations = or_list a.operations a.unique_operations in
    record {
      fallback = criticality ++ ": " ++ decimal count ++ " auth denials by " ++ principal;
      color = denial_color criticality;
      title = ":lock: " ++ criticality ++ " - Aggregated Authorization Denials";
      text = "*" ++ decimal count ++ "* authorization denials detected for *" ++ principal ++ "*";
      fields =
          field "Principal" (take_text 50 principal) true
          ∷ field "Denial Count" (decimal count) true
          ∷ field "Threshold Exceeded"
              ((if leb threshold count then "Yes (threshold: " else "No (threshold: ")
                ++ decimal threshold
                ++ ")")
              true
          ∷ field "Window"
              (if truthy a.window_start && truthy a.window_end
                then take_text 19 a.window_start ++ " to " ++ take_text 19 a.window_end
                else "N/A")
              true
          ∷ field_if operations (field "Operations" (display operations) false) (
              field_if a.source_ips (field "Source IPs" (display a.source_ips) true) (
                field_if a.environment_ids
                  (field "Environments" (join ", " (take 3 a.environment_ids)) true) []));
      footer = footer_text;
      ts = now;
    }

-- what a sender does: the new state with whether the alert was sent and the requests, or an exception
pub data SendOutcome : Type 0 where
  raises : Sender → SendOutcome
  returns : (Sender × Bool) × ℕ → SendOutcome

abbrev pub is_slack : WebhookType → Bool
is_slack slack = true
is_slack _ = false

abbrev pub alert_about : CriticalEvent → ℕ → ℕ → (ℕ → Post) → Alert
alert_about e now later posts = record {
  criticality = "CRITICAL";
  key = critical_key (get_or "unknown" e.method_name);
  now = now;
  later = later;
  posts = posts;
}

-- the message of an alert that is wanted is formatted before it is posted
abbrev pub unless_raises : Bool → Option Attachment → Sender → (Sender × Bool) × ℕ → SendOutcome
unless_raises true none checked r = raises checked
unless_raises true (some message) checked r = returns r
unless_raises false message checked r = returns r

-- `send_critical_event_alert`
unfoldable pub send_critical_event_alert :
    (String → Option ℕ)
    → String
    → WebhookConfig
    → CriticalEvent
    → ℕ
    → ℕ
    → (ℕ → Post)
    → Sender
    → SendOutcome
send_critical_event_alert parse_iso now_text config e now later posts s =
    let a = alert_about e now later posts in
    let (checked, wanted) = should_send_alert config a.criticality a.key now s in
    unless_raises (wanted && is_slack config.webhook_type)
      (format_slack_message parse_iso now_text e) checked (send_alert config a s)

-- `send_aggregated_denial_alert`
pub send_aggregated_denial_alert :
    WebhookConfig → DenialSummary → ℕ → ℕ → (ℕ → Post) → Sender → (Sender × Bool) × ℕ
send_aggregated_denial_alert config a now later posts s =
    send_alert config
      (record {
        criticality = get_or "HIGH" a.criticality;
        key = denial_key (get_or "unknown" a.principal);
        now = now;
        later = later;
        posts = posts;
      })
      s

-- the event of `send_test_alert`, with `datetime.now(timezone.utc).isoformat()`
abbrev pub test_event : String → CriticalEvent
test_event iso = record {
  method_name = some "TestAlert";
  principal = some "System:test";
  result_status = some "SUCCESS";
  source_ip = "127.0.0.1";
  client_ip = none;
  time = some (iso ++ "Z");
  criticality = some "CRITICAL";
  classification_reason = some "Test alert to verify webhook configuration";
}

-- `send_test_alert`
unfoldable pub send_test_alert :
    (String → Option ℕ) → String → WebhookConfig → ℕ → ℕ → (ℕ → Post) → Sender → SendOutcome
send_test_alert parse_iso iso config now later posts s =
    send_critical_event_alert parse_iso iso config (test_event iso) now later posts s
