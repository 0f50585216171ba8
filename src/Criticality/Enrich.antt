-- ===== src/Criticality/Enrich.antt =====
-- The texts of a classification, and `classify_event` (criticality.py).
use auditlens.Prelude.{Bool, Option, none, some, String}
use auditlens.Criticality.Methods.{
  MethodRules, Category, deletion, creation, modification, read, other,
}
use auditlens.Criticality.{
  CriticalityLevel, critical, high, medium, low, SignalKind, auth_failure, authz_denial,
  access_denied, Reason, signal_failure, security_failure, check_denied, denied_sensitive, denied,
  critical_method, high_method, medium_method, deletion_operation, authorization_check,
  sensitive_operation, creation_or_modification, authentication, read_operation, unclassified,
  AuditEvent, calculate_criticality,
}
use Prim.Native.String.{◌++◌}

-- `CriticalityLevel.value`
pub level_text : CriticalityLevel → String
level_text critical = "CRITICAL"
level_text high = "HIGH"
level_text medium = "MEDIUM"
level_text low = "LOW"

pub category_text : Category → String
category_text deletion = "deletion"
category_text creation = "creation"
category_text modification = "modification"
category_text read = "read"
category_text other = "other"

pub signal_text : SignalKind → String
signal_text auth_failure = "auth_failure"
signal_text authz_denial = "authz_denial"
signal_text access_denied = "access_denied"

pub reason_text : Reason → String
reason_text (signal_failure name status) =
    "Signal-driven auth failure: " ++ name ++ " (" ++ status ++ ")"
reason_text (security_failure status) = "Security failure: " ++ status
reason_text (check_denied name) = "Authorization check denied: " ++ name
reason_text (denied_sensitive name) = "Access denied on sensitive operation: " ++ name
reason_text (denied name) = "Access denied: " ++ name
reason_text (critical_method name) = "Critical method: " ++ name
reason_text (high_method name) = "High-priority method: " ++ name
reason_text (medium_method name) = "Medium-priority method: " ++ name
reason_text (deletion_operation name) = "Deletion operation: " ++ name
reason_text (authorization_check name) = "Authorization check: " ++ name
reason_text (sensitive_operation name) = "Sensitive operation: " ++ name
reason_text (creation_or_modification name) = "Creation/modification: " ++ name
reason_text (authentication name) = "Authentication: " ++ name
reason_text (read_operation name) = "Read operation: " ++ name
reason_text (unclassified name) = "Unclassified method: " ++ name

-- What is merged into the event before it is routed.
pub record Enrichment : Type 0 where
  pub criticality : String
  pub classification_reason : String
  pub is_security_event : Bool
  pub is_deletion : Bool
  pub is_creation : Bool
  pub is_modification : Bool
  pub method_category : String
  pub criticality_elevated : Bool
  pub is_signal_candidate : Bool
  pub signal_type : Option String

abbrev signal_name : Option SignalKind → Option String
signal_name none = none
signal_name (some k) = some (signal_text k)

pub classify_event : MethodRules → AuditEvent → CriticalityLevel × Enrichment
classify_event r e =
    let c = calculate_criticality r e in
    (
      c.criticality,
      record {
        criticality = level_text c.criticality;
        classification_reason = reason_text c.reason;
        is_security_event = c.is_security_event;
        is_deletion = c.is_deletion;
        is_creation = c.is_creation;
        is_modification = c.is_modification;
        method_category = category_text c.method_category;
        criticality_elevated = c.elevated;
        is_signal_candidate = c.is_signal_candidate;
        signal_type = signal_name c.signal_type;
      },
    )
