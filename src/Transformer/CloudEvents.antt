-- ===== src/Transformer/CloudEvents.antt =====
-- `CloudEventsParser` (src/transformer/cloudevents.py). The raw event is a record with an option for
-- each key that is read; a section that is missing or empty is `none`. The parser of times and
-- `json.dumps` are outside: a record carries the text that `dumps` makes of it.
pub mod Classification
pub mod Parser
use auditlens.Prelude.{
  ℕ, Bool, true, false, not, ◌&&◌, ◌||◌, Option, none, some, List, [], ◌∷◌, String, lower, has_part,
  has_prefix, is_in, str_eq, truthy, if◌then◌else◌,
}
use auditlens.Prelude.Eq.{string_eq}
use auditlens.Prelude.Assoc.{Dict, lookup}
use auditlens.Transformer.Crn.{CrnComponents, parse_crn}

pub data RawPrincipal : Type 0 where
  principal_missing : RawPrincipal
  principal_text : String → RawPrincipal
  -- the keys whose value is an object with a `resourceId`, `email`, and the whole as JSON
  principal_object : Dict String String → Option String → String → RawPrincipal
  -- another value, as `str` shows it
  principal_other : String → RawPrincipal

pub record RawAuthentication : Type 0 where
  pub principal : RawPrincipal
  pub principal_resource_id : Option String
  pub identity : Option String
  -- `mechanism` and `identifier` of its metadata
  pub metadata : Option (Option String × Option String)

pub record RawRbac : Type 0 where
  pub role : Option String
  -- the first of `scope.outerScope`, or what `str` shows of it when it is no list
  pub outer_scope : Option String

pub record RawAuthorization : Type 0 where
  pub granted : Option Bool
  pub operation : Option String
  pub resource_type : Option String
  pub resource_name : Option String
  pub pattern_type : Option String
  pub rbac : Option RawRbac
  -- `permissionType` and `host`
  pub acl : Option (Option String × Option String)

pub record RawRequest : Type 0 where
  pub client_id : Option String
  pub correlation_id : Option String
  pub correlation_id_camel : Option String

pub data RawAddress : Type 0 where
  -- missing, empty or no list; the first item is an object with or without `ip`, a text, or other
  address_missing address_other : RawAddress
  address_object : Option String → RawAddress
  address_text : String → RawAddress

pub record RawResult : Type 0 where
  pub status : Option String
  pub message : Option String
  -- its `data` as text, JSON for an object
  pub data_text : Option String

pub record RawData : Type 0 where
  pub service_name : Option String
  pub method_name : Option String
  pub resource_name : Option String
  pub authentication : Option RawAuthentication
  pub authorization : Option RawAuthorization
  pub request : Option RawRequest
  -- `request_id` and `connection_id`
  pub request_metadata : Option (Option String × Option String)
  pub client_address : RawAddress
  pub result : Option RawResult
  pub json : String

pub record RawEvent : Type 0 where
  pub id : Option String
  pub specversion : Option String
  pub source : Option String
  pub subject : Option String
  pub type : Option String
  pub time : Option String
  pub datacontenttype : Option String
  pub payload : Option RawData

-- `AuditEvent`
pub record AuditEvent : Type 0 where
  pub id : String
  pub specversion : String
  pub source : Option String
  pub subject : Option String
  pub type : Option String
  pub time : Option String
  pub time_epoch_ms : Option ℕ
  pub datacontenttype : Option String
  pub source_organization_id : Option String
  pub source_environment_id : Option String
  pub source_cluster_type : Option String
  pub source_cluster_id : Option String
  pub subject_resource_type : Option String
  pub subject_resource_id : Option String
  pub service_name : Option String
  pub method_name : Option String
  pub resource_name : Option String
  pub principal : Option String
  pub principal_resource_id : Option String
  pub identity : Option String
  pub auth_mechanism : Option String
  pub api_key_identifier : Option String
  pub granted : Option Bool
  pub operation : Option String
  pub resource_type : Option String
  pub authz_resource_name : Option String
  pub pattern_type : Option String
  pub rbac_role : Option String
  pub rbac_scope : Option String
  pub acl_permission_type : Option String
  pub acl_host : Option String
  pub client_id : Option String
  pub correlation_id : Option String
  pub request_id : Option String
  pub connection_id : Option String
  pub client_ip : Option String
  pub result_status : Option String
  pub result_message : Option String
  pub result_data : Option String
  pub event_category : Option String
  pub service_category : Option String
  pub is_security_relevant : Bool
  pub is_failure : Bool
  pub is_access_transparency : Bool
  pub data_json : Option String
