-- ===== src/Transformer/CloudEvents/Parser.antt =====
-- `parse`, `_parse_data` and `_extract_principal` (cloudevents.py).
use auditlens.Prelude.{ℕ, false, Option, none, some, List, [], ◌∷◌, String, truthy, if◌then◌else◌}
use auditlens.Prelude.Eq.{string_eq}
use auditlens.Prelude.Assoc.{Dict, lookup}
use auditlens.Transformer.Crn.{CrnComponents, parse_crn}
use auditlens.Transformer.CloudEvents.{
  RawPrincipal, principal_missing, principal_text, principal_object, principal_other,
  RawAuthentication, RawRbac, RawAuthorization, RawRequest, RawAddress, address_missing,
  address_other, address_object, address_text, RawResult, RawData, RawEvent, AuditEvent,
}
use auditlens.Transformer.CloudEvents.Classification.{classify}

abbrev text_or : String → Option String → String
text_or default none = default
text_or default (some s) = s

-- `AuditEvent(id=…)`
pub empty_event : String → AuditEvent
empty_event id = record {
  id = id;
  specversion = "1.0";
  source = none;
  subject = none;
  type = none;
  time = none;
  time_epoch_ms = none;
  datacontenttype = none;
  source_organization_id = none;
  source_environment_id = none;
  source_cluster_type = none;
  source_cluster_id = none;
  subject_resource_type = none;
  subject_resource_id = none;
  service_name = none;
  method_name = none;
  resource_name = none;
  principal = none;
  principal_resource_id = none;
  identity = none;
  auth_mechanism = none;
  api_key_identifier = none;
  granted = none;
  operation = none;
  resource_type = none;
  authz_resource_name = none;
  pattern_type = none;
  rbac_role = none;
  rbac_scope = none;
  acl_permission_type = none;
  acl_host = none;
  client_id = none;
  correlation_id = none;
  request_id = none;
  connection_id = none;
  client_ip = none;
  result_status = none;
  result_message = none;
  result_data = none;
  event_category = none;
  service_category = none;
  is_security_relevant = false;
  is_failure = false;
  is_access_transparency = false;
  data_json = none;
}

abbrev nonempty_or : Option String → Option String → Option String
nonempty_or none rest = rest
nonempty_or (some s) rest = if truthy s then some s else rest

-- the first key with a `resourceId` that is not empty
pub resource_principal : List String → Dict String String → Option String
resource_principal [] ids = none
resource_principal (key ∷ keys) ids = nonempty_or (lookup key ids) (resource_principal keys ids)

abbrev first_some : Option String → Option String → Option String
first_some none rest = rest
first_some (some s) rest = some s

-- `_extract_principal`
pub extract_principal : RawPrincipal → Option String
extract_principal principal_missing = none
extract_principal (principal_text s) = some s
extract_principal (principal_object ids email json) =
    first_some
      (resource_principal
        ("confluentServiceAccount" ∷ "confluentUser" ∷ "identityPool" ∷ "group" ∷ []) ids)
      (first_some email (some json))
extract_principal (principal_other s) = some s

abbrev in_section : {A : Type 0} → Option A → AuditEvent → (A → AuditEvent) → AuditEvent
in_section none event f = event
in_section (some a) event f = f a

with_metadata : Option (Option String × Option String) → AuditEvent → AuditEvent
with_metadata metadata event =
    in_section metadata event (λ m. record event { auth_mechanism = m.0; api_key_identifier = m.1 })

with_authentication : Option RawAuthentication → AuditEvent → AuditEvent
with_authentication section event = in_section section event (λ authn.
    with_metadata authn.metadata (record event {
      principal = extract_principal authn.principal;
      principal_resource_id = authn.principal_resource_id;
      identity = authn.identity;
    }))

with_rbac : Option RawRbac → AuditEvent → AuditEvent
with_rbac section event =
    in_section section event
      (λ rbac. record event { rbac_role = rbac.role; rbac_scope = rbac.outer_scope })

with_acl : Option (Option String × Option String) → AuditEvent → AuditEvent
with_acl section event =
    in_section section event (λ acl. record event { acl_permission_type = acl.0; acl_host = acl.1 })

with_authorization : Option RawAuthorization → AuditEvent → AuditEvent
with_authorization section event = in_section section event (λ authz. with_acl authz.acl (
    with_rbac authz.rbac (record event {
      granted = authz.granted;
      operation = authz.operation;
      resource_type = authz.resource_type;
      authz_resource_name = authz.resource_name;
      pattern_type = authz.pattern_type;
    })))

with_request : Option RawRequest → AuditEvent → AuditEvent
with_request section event = in_section section event (λ request. record event {
  client_id = request.client_id;
  correlation_id = nonempty_or request.correlation_id request.correlation_id_camel;
})

with_request_metadata : Option (Option String × Option String) → AuditEvent → AuditEvent
with_request_metadata section event =
    in_section section event
      (λ metadata. record event { request_id = metadata.0; connection_id = metadata.1 })

with_client_address : RawAddress → AuditEvent → AuditEvent
with_client_address address_missing event = event
with_client_address address_other event = event
with_client_address (address_object ip) event = record event { client_ip = ip }
with_client_address (address_text ip) event = record event { client_ip = some ip }

with_result : Option RawResult → AuditEvent → AuditEvent
with_result section event = in_section section event (λ result. record event {
  result_status = result.status;
  result_message = result.message;
  result_data = nonempty_or result.data_text none;
})

-- `_parse_data`
pub parse_data : AuditEvent → RawData → AuditEvent
parse_data event data_of = with_result data_of.result (
    with_client_address data_of.client_address (
      with_request_metadata data_of.request_metadata (
        with_request data_of.request (
          with_authorization data_of.authorization (
            with_authentication data_of.authentication (record event {
              service_name = data_of.service_name;
              method_name = data_of.method_name;
              resource_name = data_of.resource_name;
            }))))))

abbrev with_payload : Option RawData → AuditEvent → AuditEvent
with_payload none event = event
with_payload (some payload) event = record (parse_data event payload) {
  data_json = some payload.json;
}

abbrev epoch_of : (String → Option ℕ) → Option String → Option ℕ
epoch_of parse_time none = none
epoch_of parse_time (some time) = if truthy time then parse_time time else none

abbrev crn_in : Option String → CrnComponents
crn_in s = parse_crn (text_or "" s)

-- the fields of the envelope
pub parse_envelope : (String → Option ℕ) → RawEvent → AuditEvent
parse_envelope parse_time raw = record (empty_event (text_or "" raw.id)) {
  specversion = text_or "1.0" raw.specversion;
  source = raw.source;
  subject = raw.subject;
  type = raw.type;
  time = raw.time;
  time_epoch_ms = epoch_of parse_time raw.time;
  datacontenttype = raw.datacontenttype;
  source_organization_id = (crn_in raw.source).organization_id;
  source_environment_id = (crn_in raw.source).environment_id;
  source_cluster_type = (crn_in raw.source).cluster_type;
  source_cluster_id = (crn_in raw.source).cluster_id;
  subject_resource_type = (crn_in raw.subject).resource_type;
  subject_resource_id = (crn_in raw.subject).resource_id;
}

-- `parse` up to the classification
pub before_classification : (String → Option ℕ) → RawEvent → AuditEvent
before_classification parse_time raw = with_payload raw.payload (parse_envelope parse_time raw)

-- `parse`
unfoldable pub parse : (String → Option ℕ) → RawEvent → AuditEvent
parse parse_time raw = classify (before_classification parse_time raw)
