-- ===== src/Transformer/Router/Services.antt =====
-- Which of the handlers of a new router take a parsed event (cloudevents.py, event_router.py).
use auditlens.Prelude.{
  ℕ, ◌≡◌, refl, ◌∙◌, Bool, true, false, Option, some, List, [], ◌∷◌, ◌++◌, String, arith, length,
  str_eq, if◌then◌else◌,
}
use auditlens.Transformer.CloudEvents.{RawEvent, AuditEvent}
use auditlens.Transformer.CloudEvents.Parser.{parse, before_classification}
use auditlens.Transformer.CloudEvents.Classification.{text_of, category_of, service_of, classify}
use auditlens.Transformer.Handlers.{returned, default_handlers}
use auditlens.Transformer.Router.{start, route}
use auditlens.Transformer.Router.Isolation.{applying, failing, Adds, route-Adds}

abbrev service_names : List String
service_names = "kafka" ∷ "schema-registry" ∷ "ksqldb" ∷ "flink" ∷ "organization" ∷ []

-- The handler of the service, then the one of accesses by personnel.
abbrev pub handler_names : String → Bool → List String
handler_names service is_access =
    (if str_eq service "unknown" then [] else service ∷ [])
    ++ (if is_access then "access-transparency" ∷ [] else [])

data IsService : String → Type 0 where
  kafka : IsService "kafka"
  schema_registry : IsService "schema-registry"
  ksqldb : IsService "ksqldb"
  flink : IsService "flink"
  organization : IsService "organization"
  unknown : IsService "unknown"

service_of-IsService : (t : String) (m : Option String) → IsService (service_of t m)
unfolding service_of
service_of-IsService t m =
    ground (arith, kafka, schema_registry, ksqldb, flink, organization, unknown)

abbrev tagged : AuditEvent → String → Bool → AuditEvent
tagged event service is_access = record event {
  service_category = some service;
  is_access_transparency = is_access;
}

verdicts-tagged :
    (event : AuditEvent) (service : String) (is_access : Bool)
    → IsService service
    → (applying (tagged event service is_access) default_handlers ≡ handler_names service is_access)
      × (failing (tagged event service is_access) default_handlers ≡ 0)
unfolding applying failing default_handlers
verdicts-tagged event service true kafka = (refl, refl)
verdicts-tagged event service false kafka = (refl, refl)
verdicts-tagged event service true schema_registry = (refl, refl)
verdicts-tagged event service false schema_registry = (refl, refl)
verdicts-tagged event service true ksqldb = (refl, refl)
verdicts-tagged event service false ksqldb = (refl, refl)
verdicts-tagged event service true flink = (refl, refl)
verdicts-tagged event service false flink = (refl, refl)
verdicts-tagged event service true organization = (refl, refl)
verdicts-tagged event service false organization = (refl, refl)
verdicts-tagged event service true unknown = (refl, refl)
verdicts-tagged event service false unknown = (refl, refl)

-- A raw event that is parsed is handled by the handler of the service that its type and method
-- name tell, if any, then by the handler for accesses if its type tells one, and by no other; none
-- of the handlers fails, and the result has the parsed event.
pub route-handler_names :
    (parse_time : String → Option ℕ) (raw : RawEvent)
    → let event = before_classification parse_time raw in
      let r = route (λ e. returned (parse parse_time e)) default_handlers raw in
      (r.event ≡ parse parse_time raw)
      × (r.handlers_applied
          ≡ handler_names
              (service_of (text_of event.type) event.method_name)
              (str_eq (category_of (text_of event.type)) "access-transparency"))
      × (length r.errors ≡ 0)
unfolding parse classify
route-handler_names parse_time raw =
    let added : Adds (applying (parse parse_time raw) default_handlers)
        (failing (parse parse_time raw) default_handlers)
        (start raw (returned (parse parse_time raw)))
        (route (λ e. returned (parse parse_time e)) default_handlers raw) =
      route-Adds (λ e. returned (parse parse_time e)) default_handlers raw in
    let verdicts = verdicts-tagged (parse parse_time raw) _ _ (service_of-IsService _ _) in
    (added.same_event, added.applied ∙ verdicts.0, omega (arith, added.failed, verdicts.1))
