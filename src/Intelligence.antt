-- ===== src/Intelligence.antt =====
-- src/product/event_intelligence.py: what an event is taken for. The values of a payload and of the
-- event beside it are their texts, as `_as_text` gives them, empty where they are missing.
pub mod Words
pub mod Risk
pub mod Denied
mod Tests
use Prim.Native.String.{◌++◌}
use auditlens.Prelude.{
  Bool, true, false, not, ◌&&◌, ◌||◌, List, [], ◌∷◌, String, has_any, has_any_prefix, has_part,
  has_prefix, is_in, lower, str_eq, strip, truthy, upper, if◌then◌else◌,
}
use auditlens.Signals.{Digest}
use auditlens.Intelligence.Words.{change_type, compact, resource_family_from_text}

-- `cloudResources`: an empty object, one without a resource, or the two types of its resource
pub data CloudResources : Type 0 where
  no_entries no_resource : CloudResources
  with_resource : String → String → CloudResources

pub record Payload : Type 0 where
  pub method_name : String
  pub method_name_snake : String
  pub data_method : String
  pub action : String
  pub kind : String
  pub event_type : String
  pub granted_false : Bool
  pub result_status : String
  pub result : String
  pub result_display : String
  pub data_result : String
  -- `status` of the result, if that is an object
  pub data_result_status : String
  pub authentication_result : String
  pub authorization_result : String
  pub data_cloud : CloudResources
  pub data_cloud_text : String
  pub cloud : CloudResources
  pub resource_type : String
  pub resource_type_snake : String
  pub resource_name : String
  pub authz_resource_name : String

-- the attributes of the event; without an event they are false and empty
pub record Model : Type 0 where
  pub is_denied : Bool
  pub is_failure : Bool
  pub action : String
  pub resource_type : String
  pub resource_display : String
  pub resource_name : String

-- `_first`
unfoldable pub first : List String → String
first [] = ""
first (value ∷ values) =
    let rest = first values in if truthy (strip value) then strip value else rest

-- `_method` and `_event_type`
pub method_of : Payload → String
method_of p = first (p.method_name ∷ p.method_name_snake ∷ p.data_method ∷ p.action ∷ [])

pub event_type_of : Payload → String
event_type_of p = first (p.kind ∷ p.event_type ∷ [])

-- `_result_text`
pub result_text : Payload → String
result_text p = first (
    p.result_status ∷ p.result ∷ p.result_display ∷ p.data_result ∷ p.authentication_result
    ∷ p.authorization_result ∷ [])

-- `_is_denied`
unfoldable pub is_denied : Payload → Model → Bool
is_denied p e =
    (e.is_denied || p.granted_false)
    || has_any ("deny" ∷ "denied" ∷ "forbid" ∷ "unauthoriz" ∷ []) (lower (result_text p))
    || is_in (upper p.authorization_result) ("DENY" ∷ "FAILURE" ∷ [])
    || is_in (upper p.data_result_status) ("DENY" ∷ "FAILURE" ∷ "UNAUTHENTICATED" ∷ [])

abbrev failure_marks : List String
failure_marks =
    "fail" ∷ "error" ∷ "denied" ∷ "forbid" ∷ "unauthoriz" ∷ "not_found" ∷ "not found" ∷ "404" ∷ []

-- `_is_failure`
unfoldable pub is_failure : Payload → Model → Bool
is_failure p e = e.is_failure || is_denied p e || has_any failure_marks (lower (result_text p))

abbrev chosen_cloud : CloudResources → CloudResources → CloudResources
chosen_cloud no_entries cloud = cloud
chosen_cloud no_resource cloud = no_resource
chosen_cloud (with_resource a b) cloud = with_resource a b

abbrev is_statement : CloudResources → Bool
is_statement (with_resource a b) = str_eq (upper (first (a ∷ b ∷ []))) "STATEMENT"
is_statement _ = false

abbrev searched_text : Payload → Model → String
searched_text p e =
    first (e.resource_type ∷ p.resource_type ∷ p.resource_type_snake ∷ [])
    ++ " "
    ++ method_of p
    ++ " "
    ++ event_type_of p
    ++ " "
    ++ first (p.resource_name ∷ p.authz_resource_name ∷ e.resource_display ∷ e.resource_name ∷ [])

-- `_resource_family`
unfoldable pub resource_family : Payload → Model → String
resource_family p e =
    let family = resource_family_from_text (searched_text p e) in
    if is_statement (chosen_cloud p.data_cloud p.cloud)
    then "flink"
    else if not (str_eq family "unknown")
    then family
    else resource_family_from_text p.data_cloud_text

-- `_is_security_resource`
unfoldable pub is_security_resource : String → String → String → Bool
is_security_resource family method event_type =
    is_in family
      ("api_key" ∷ "acl" ∷ "rbac" ∷ "service_account" ∷ "user" ∷ "network" ∷ "organization" ∷ [])
    || has_any
        ("access-transparency" ∷ "role" ∷ "permission" ∷ "invite" ∷ "grant" ∷ "revoke" ∷ "apikey"
          ∷ "api key" ∷ "acl" ∷ [])
        (lower (family ++ " " ++ method ++ " " ++ event_type))

-- What `classify_event` computes before its cascades.
pub record Facts : Type 0 where
  pub method : String
  pub event_type : String
  pub denied : Bool
  pub failed : Bool
  pub change : String
  pub family : String
  pub security : Bool

unfoldable pub facts_of : Payload → Model → Facts
facts_of p e =
    let method = if truthy (method_of p) then method_of p else e.action in
    let event_type = event_type_of p in
    record {
      method = method;
      event_type = event_type;
      denied = is_denied p e;
      failed = is_failure p e;
      change = change_type method event_type (is_denied p e);
      family = resource_family p e;
      security = is_security_resource (resource_family p e) method event_type;
    }

abbrev pub is_transparency : Facts → Bool
is_transparency f = has_part "access-transparency" (lower f.event_type)

abbrev pub registry_reads : List String
registry_reads =
    "schema-registry.get" ∷ "schema-registry.list" ∷ "schema-registry.lookup"
    ∷ "schema-registry.describe" ∷ []

abbrev pub acl_methods : List String
acl_methods = "kafka.CreateAcls" ∷ "kafka.DeleteAcls" ∷ "kafka.DescribeAcls" ∷ []

abbrev pub access_marks : List String
access_marks =
    "grant" ∷ "revoke" ∷ "invite" ∷ "assign" ∷ "removerole" ∷ "rolebinding" ∷ "createapikey"
    ∷ "deleteapikey" ∷ []

abbrev access_or : Facts → String → String
access_or f other = if f.security then "access_change" else other

-- the cascade by the kind of change
unfoldable pub impact_of_change : Facts → String
impact_of_change f =
    if str_eq f.change "deleted"
    then "destructive"
    else if str_eq f.change "created"
    then access_or f "constructive"
    else if str_eq f.change "updated"
    then access_or f "configuration_change"
    else if str_eq f.change "configured"
    then (if str_eq f.family "flink"
          && has_any ("stopstatement" ∷ "pausestatement" ∷ "resumestatement" ∷ [])
              (compact f.method)
        then "operational"
        else access_or f "configuration_change")
    else if str_eq f.change "read/listed"
    then "read_only"
    else if has_any ("pause" ∷ "restore" ∷ "signin" ∷ []) (compact f.method)
    then "operational"
    else "unknown"

-- the cascade of the impact
unfoldable pub impact_of : Facts → String
impact_of f =
    let method = lower f.method in
    let event_type = lower f.event_type in
    if is_transparency f
    then "security_sensitive"
    else if f.denied
    then "security_sensitive"
    else if has_prefix "schema-registry." method && has_any_prefix registry_reads method
    then "read_only"
    else if is_in f.method acl_methods && not (has_part "authorization" event_type)
    then "access_change"
    else if has_part "authorization" event_type || has_part "authorize" method
    then "authorization_check"
    else if has_part "authentication" event_type
        || has_any ("authenticate" ∷ "authentication" ∷ []) method
    then "authentication"
    else if has_any access_marks (compact f.method)
    then "access_change"
    else impact_of_change f

abbrev pub critical_families : List String
critical_families =
    "cluster" ∷ "environment" ∷ "organization" ∷ "schema_registry" ∷ "service_account" ∷ "user"
    ∷ "api_key" ∷ "rbac" ∷ "acl" ∷ []

-- the cascade of the risk
unfoldable pub risk_of : Facts → String → String
risk_of f impact =
    if str_eq impact "security_sensitive" && (f.denied || f.failed || is_transparency f)
    then "high"
    else if str_eq impact "destructive" && is_in f.family critical_families
    then "critical"
    else if is_in impact ("destructive" ∷ "access_change" ∷ [])
    then "high"
    else if is_in impact ("configuration_change" ∷ "constructive" ∷ []) && f.security
    then "high"
    else if is_in impact ("configuration_change" ∷ "constructive" ∷ "security_sensitive" ∷ [])
    then "medium"
    else if is_in impact
        ("authentication" ∷ "authorization_check" ∷ "read_only" ∷ "operational" ∷ [])
    then (if f.failed then "medium" else "informational")
    else "low"

abbrev pub impact_types : List String
impact_types =
    "constructive" ∷ "destructive" ∷ "configuration_change" ∷ "access_change" ∷ "authentication"
    ∷ "authorization_check" ∷ "read_only" ∷ "operational" ∷ "security_sensitive" ∷ "unknown" ∷ []

unfoldable pub classify_facts : Facts → Digest
classify_facts f =
    let impact = impact_of f in
    record {
      impact_type = if is_in impact impact_types then impact else "unknown";
      risk_level = risk_of f impact;
      change_type = f.change;
      resource_family = f.family;
    }

-- `classify_event`
unfoldable pub classify_event : Payload → Model → Digest
classify_event p e = classify_facts (facts_of p e)
