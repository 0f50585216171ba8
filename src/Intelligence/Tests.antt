-- ===== src/Intelligence/Tests.antt =====
-- Runs of the classification, and the theorems at concrete inputs.
use auditlens.Prelude.{
  ◌∷◌, ◌&&◌, ◌≡◌, refl, Bool, true, false, ◌&&◌, String, [], is_in, str_eq, if◌then◌else◌,
}
use auditlens.Prelude.Assoc.{lookup}
use auditlens.Signals.{Event, digest, action_required, attention, informational, noise}
use auditlens.Signals.Classify.{classify_signal, override_tests}
use auditlens.Intelligence.{
  Payload, no_entries, Model, is_denied, classify_event, impact_types, critical_families, facts_of,
  impact_of, impact_of_change, is_security_resource, first, classify_facts,
}
use auditlens.Intelligence.Risk.{destroys, classify_event-critical}
use auditlens.Intelligence.Denied.{classify_signal-classify_event}

abbrev refused : Payload
refused = record {
  method_name = "GetKafkaCluster";
  method_name_snake = "";
  data_method = "";
  action = "";
  kind = "io.confluent.cloud/request";
  event_type = "";
  granted_false = false;
  result_status = "";
  result = "";
  result_display = "";
  data_result = "";
  data_result_status = "";
  authentication_result = "";
  authorization_result = "FAILURE";
  data_cloud = no_entries;
  data_cloud_text = "";
  cloud = no_entries;
  resource_type = "";
  resource_type_snake = "";
  resource_name = "";
  authz_resource_name = "";
}

abbrev no_model : Model
no_model = record {
  is_denied = false;
  is_failure = false;
  action = "";
  resource_type = "";
  resource_display = "";
  resource_name = "";
}

refused_is_denied : is_denied refused no_model ≡ true
unfolding is_denied first auditlens.Intelligence.result_text is_in auditlens.Prelude.has_any
    auditlens.Prelude.lower auditlens.Prelude.strip auditlens.Prelude.upper
refused_is_denied = refl

abbrev signal_event : Event
signal_event = record {
  fields = [];
  failure_flag = false;
  denied_flag = false;
  computed = classify_event refused no_model;
}

-- A new cluster is an access change: "kafkacluster" has "acl" in it.
new_cluster : is_security_resource "cluster" "CreateKafkaCluster" "" ≡ true
unfolding is_security_resource is_in auditlens.Prelude.has_any auditlens.Prelude.lower
new_cluster = refl

classify_event-critical_example :
    let f = facts_of refused no_model in
    let c = classify_event refused no_model in
    (str_eq c.impact_type "destructive" ≡ destroys f)
    × (str_eq c.risk_level "critical" ≡ (
        destroys f
        && is_in f.family (
            "cluster" ∷ "environment" ∷ "organization" ∷ "schema_registry" ∷ "service_account"
            ∷ "user" ∷ "api_key" ∷ "rbac" ∷ "acl" ∷ [])))
classify_event-critical_example = classify_event-critical refused no_model

same_digest : digest signal_event ≡ classify_event refused no_model
unfolding digest lookup
same_digest = refl

classify_signal-classify_event_example :
    let t = override_tests signal_event in
    (classify_signal signal_event).signal_type ≡ (
      if t.is_transparency
      then action_required
      else if t.is_internal
      then noise
      else if t.is_platform
      then informational
      else if t.is_registration
      then attention
      else action_required)
classify_signal-classify_event_example =
    classify_signal-classify_event refused no_model signal_event same_digest refused_is_denied
