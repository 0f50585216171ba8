-- ===== src/Transformer/Handlers.antt =====
-- The handlers of src/transformer/event_router.py.
use auditlens.Prelude.{
  Bool, true, false, ◌||◌, Option, none, some, List, [], ◌∷◌, ◌++◌, String, has_part, str_eq,
  truthy, if◌then◌else◌,
}
use auditlens.Prelude.Eq.{string_eq}
use auditlens.Prelude.Assoc.{Dict}
use auditlens.Transformer.CloudEvents.{AuditEvent}
use auditlens.Transformer.CloudEvents.Classification.{text_of}

-- what a handler adds: a text or `None`, or `True`
pub data Value : Type 0 where
  text : Option String → Value
  flag : Bool → Value

pub data Outcome (A : Type 0) : Type 0 where
  returned : A → Outcome A
  raised : String → Outcome A

-- `EventHandler`
pub record Handler : Type 0 where
  pub name : String
  pub can_handle : AuditEvent → Outcome Bool
  pub handle : AuditEvent → Outcome (Dict String Value)

abbrev pub is_text : String → Option String → Bool
is_text s none = false
is_text s (some t) = str_eq t s

abbrev service_handler : String → (AuditEvent → Dict String Value) → Handler
service_handler service handle = record {
  name = service;
  can_handle = λ event. returned (is_text service event.service_category);
  handle = λ event. returned (handle event);
}

-- One operation type, if there is one.
abbrev operation : String → Option String → Dict String Value
operation key none = []
operation key (some type) = (key, text (some type)) ∷ []

abbrev named_text : String → Option String → Dict String Value
named_text key none = []
named_text key (some s) = if truthy s then (key, text (some s)) ∷ [] else []

pub kafka_operation : String → Option String
kafka_operation method =
    if has_part "Authentication" method
    then some "authentication"
    else if has_part "Produce" method || has_part "Write" method
    then some "produce"
    else if has_part "Fetch" method || has_part "Read" method
    then some "consume"
    else if has_part "Metadata" method || has_part "Describe" method
    then some "metadata"
    else if has_part "CreateTopics" method
    then some "topic_create"
    else if has_part "DeleteTopics" method
    then some "topic_delete"
    else if has_part "AlterConfigs" method
    then some "config_alter"
    else if has_part "CreateAcls" method || has_part "DeleteAcls" method
    then some "acl_management"
    else none

-- `KafkaEventHandler`
pub kafka_handler : Handler
kafka_handler = service_handler "kafka" (λ event.
    (if is_text "Topic" event.resource_type
      then named_text "kafka_topic" event.authz_resource_name
      else [])
    ++ operation "kafka_operation_type" (kafka_operation (text_of event.method_name)))

pub schema_operation : String → Option String
schema_operation method =
    if has_part "GetSchema" method || has_part "GetSubject" method
    then some "read"
    else if has_part "RegisterSchema" method
    then some "register"
    else if has_part "DeleteSubject" method || has_part "DeleteSchema" method
    then some "delete"
    else if has_part "UpdateCompatibility" method
    then some "compatibility_update"
    else none

-- `SchemaRegistryEventHandler`
pub schema_registry_handler : Handler
schema_registry_handler = service_handler "schema-registry" (λ event.
    (if is_text "subject" event.subject_resource_type
      then named_text "schema_subject" event.subject_resource_id
      else [])
    ++ operation "schema_operation_type" (schema_operation (text_of event.method_name)))

pub ksql_operation : String → Option String
ksql_operation method =
    if has_part "ExecuteStatement" method
    then some "execute_statement"
    else if has_part "RunQuery" method
    then some "run_query"
    else if has_part "TerminateQuery" method
    then some "terminate_query"
    else none

-- `KsqlDBEventHandler`
pub ksqldb_handler : Handler
ksqldb_handler =
    service_handler "ksqldb"
      (λ event. operation "ksql_operation_type" (ksql_operation (text_of event.method_name)))

pub flink_operation : String → Option String
flink_operation method =
    if has_part "CreateStatement" method || has_part "ExecuteStatement" method
    then some "execute_statement"
    else if has_part "GetStatement" method
    then some "get_statement"
    else if has_part "DeleteStatement" method
    then some "delete_statement"
    else none

-- `FlinkEventHandler`
pub flink_handler : Handler
flink_handler = service_handler "flink" (λ event.
    (if is_text "compute-pool" event.subject_resource_type
      then ("flink_compute_pool", text event.subject_resource_id) ∷ []
      else [])
    ++ operation "flink_operation_type" (flink_operation (text_of event.method_name)))

pub organization_operation : String → Option String
organization_operation method =
    if has_part "ServiceAccount" method
    then some "service_account"
    else if has_part "ApiKey" method
    then some "api_key"
    else if has_part "User" method || has_part "Invitation" method
    then some "user_management"
    else if has_part "RoleBinding" method
    then some "rbac"
    else if has_part "Environment" method
    then some "environment"
    else if has_part "Cluster" method || has_part "Kafka" method
    then some "cluster_management"
    else if has_part "Network" method || has_part "Peering" method || has_part "PrivateLink" method
    then some "networking"
    else if has_part "Connector" method
    then some "connector"
    else none

-- `OrganizationEventHandler`
pub organization_handler : Handler
organization_handler =
    service_handler "organization"
      (λ event. operation "org_operation_type" (organization_operation (text_of event.method_name)))

-- `AccessTransparencyHandler`
pub access_transparency_handler : Handler
access_transparency_handler = record {
  name = "access-transparency";
  can_handle = λ event. returned event.is_access_transparency;
  handle = λ event. returned (
      ("access_transparency_event", flag true)
      ∷ ("confluent_access", flag true)
      ∷ ("security_alert_level", text (some "info"))
      ∷ []);
}

-- the handlers of a new `EventRouter`
unfoldable pub default_handlers : List Handler
unfolding kafka_handler schema_registry_handler ksqldb_handler flink_handler organization_handler
    access_transparency_handler
default_handlers =
    kafka_handler ∷ schema_registry_handler ∷ ksqldb_handler ∷ flink_handler ∷ organization_handler
    ∷ access_transparency_handler ∷ []
