-- ===== src/Transformer/CloudEvents/Classification.antt =====
-- `_classify_event` (cloudevents.py), and what its flags say of each other.
use auditlens.Prelude.{
  Bool, true, false, ◌&&◌, ◌||◌, Option, none, some, String, lower, has_part, has_prefix, str_eq,
  truthy, if◌then◌else◌,
}
use auditlens.Transformer.CloudEvents.{AuditEvent}

abbrev pub text_of : Option String → String
text_of none = ""
text_of (some s) = s

-- the branches that set `event_category`
unfoldable pub category_of : String → String
category_of event_type =
    if has_part "/authentication" event_type
    then "authentication"
    else if has_part "/authorization" event_type
    then "authorization"
    else if has_part "/request" event_type
    then "request"
    else if has_part "access-transparency" event_type
    then "access-transparency"
    else "unknown"

abbrev calls_kafka : Option String → Bool
calls_kafka none = false
calls_kafka (some method) = truthy method && has_prefix "kafka." method

-- the branches that set `service_category`
unfoldable pub service_of : String → Option String → String
service_of event_type method_name =
    if has_part "kafka.server" event_type || calls_kafka method_name
    then "kafka"
    else if has_part "sg.server" event_type || has_part "schema" (lower event_type)
    then "schema-registry"
    else if has_part "ksql.server" event_type
    then "ksqldb"
    else if has_part "flink.server" event_type
    then "flink"
    else if has_part "confluent.cloud" event_type
    then "organization"
    else "unknown"

abbrev pub is_refused : Option Bool → Bool
is_refused (some false) = true
is_refused _ = false

abbrev pub has_failed : Option String → Bool
has_failed none = false
has_failed (some status) =
    str_eq status "FAILURE" || str_eq status "UNAUTHENTICATED" || str_eq status "PERMISSION_DENIED"

abbrev pub is_watched : String → Bool
is_watched category =
    str_eq category "authentication"
    || str_eq category "authorization"
    || str_eq category "access-transparency"

-- `_classify_event`, on an event whose `is_access_transparency` is not set yet
unfoldable pub classify : AuditEvent → AuditEvent
classify event =
    let category = category_of (text_of event.type) in
    record event {
      event_category = some category;
      is_access_transparency = str_eq category "access-transparency";
      service_category = some (service_of (text_of event.type) event.method_name);
      is_security_relevant =
          is_watched category || is_refused event.granted || has_failed event.result_status;
      is_failure = is_refused event.granted || has_failed event.result_status;
    }
