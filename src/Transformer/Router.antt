-- ===== src/Transformer/Router.antt =====
-- `EventRouter` (src/transformer/event_router.py). An error of the parser or of a handler is a text.
pub mod Isolation
pub mod Services
use Prim.Native.String.{◌++◌ as cat}
use auditlens.Prelude.{
  Bool, true, false, Option, none, some, List, [], ◌∷◌, ◌++◌, String, if◌then◌else◌,
}
use auditlens.Prelude.Eq.{string_eq}
use auditlens.Prelude.Assoc.{Dict, insert}
use auditlens.Transformer.CloudEvents.{RawEvent, AuditEvent}
use auditlens.Transformer.CloudEvents.Parser.{empty_event}
use auditlens.Transformer.Handlers.{Value, Outcome, returned, raised, Handler}

-- `RoutingResult`
pub record RoutingResult : Type 0 where
  pub event : AuditEvent
  pub handlers_applied : List String
  pub enrichments : Dict String Value
  pub errors : List String

-- `enrichments.update(more)`
unfoldable pub update : Dict String Value → Dict String Value → Dict String Value
update [] enrichments = enrichments
update ((key, value) ∷ more) enrichments = update more (insert key value enrichments)

abbrev pub failed : String → String → RoutingResult → RoutingResult
failed name message r = record r {
  errors = r.errors ++ cat "Handler " (cat name (cat ": " message)) ∷ [];
}

abbrev pub handled : String → Outcome (Dict String Value) → RoutingResult → RoutingResult
handled name (raised message) r = failed name message r
handled name (returned more) r = record r {
  enrichments = update more r.enrichments;
  handlers_applied = r.handlers_applied ++ name ∷ [];
}

-- the body of the loop, with what `can_handle` does and what `handle` would do
abbrev pub asked :
    String → Outcome Bool → Outcome (Dict String Value) → RoutingResult → RoutingResult
asked name (raised message) outcome r = failed name message r
asked name (returned false) outcome r = r
asked name (returned true) outcome r = handled name outcome r

unfoldable pub apply_handlers : List Handler → RoutingResult → RoutingResult
apply_handlers [] r = r
apply_handlers (handler ∷ handlers) r =
    apply_handlers handlers
      (asked handler.name (handler.can_handle r.event) (handler.handle r.event) r)

abbrev pub start : RawEvent → Outcome AuditEvent → RoutingResult
start raw (returned event) = record {
  event = event;
  handlers_applied = [];
  enrichments = [];
  errors = [];
}
start raw (raised message) = record {
  event = empty_event (elim raw.id [ none ↦ "unknown" | some id ↦ id ]);
  handlers_applied = [];
  enrichments = [];
  errors = cat "Parse error: " message ∷ [];
}

-- `route`, with how the parser ends
unfoldable pub route : (RawEvent → Outcome AuditEvent) → List Handler → RawEvent → RoutingResult
route parse handlers raw = apply_handlers handlers (start raw (parse raw))

-- `process_batch`
pub process_batch :
    (RawEvent → Outcome AuditEvent) → List Handler → List RawEvent → List RoutingResult
process_batch parse handlers [] = []
process_batch parse handlers (raw ∷ raws) =
    route parse handlers raw ∷ process_batch parse handlers raws

-- `add_handler`
pub add_handler : Handler → List Handler → List Handler
add_handler handler handlers = handlers ++ handler ∷ []
