-- ===== src/Transformer/Tests.antt =====
-- Runs of the parser and the router, and the theorems at concrete inputs.
use auditlens.Prelude.{ℕ, refl, true, Option, none, some, ◌∷◌, String, is_in}
use auditlens.Transformer.Crn.{parse_crn}
use auditlens.Transformer.Crn.Segments.{lacks}
use auditlens.Transformer.Crn.RoundTrip.{CrnParts, IsBuildable, IsRead, build, parse_crn-build_crn}
use auditlens.Transformer.CloudEvents.{RawEvent, AuditEvent}
use auditlens.Transformer.CloudEvents.Parser.{parse}
use auditlens.Transformer.Handlers.{Outcome, returned, raised, Handler, default_handlers}
use auditlens.Transformer.Router.{start, route}
use auditlens.Transformer.Router.Isolation.{applying, failing, Adds, route-Adds}

abbrev topic : CrnParts
topic = record {
  organization_id = "org-1";
  environment_id = "";
  cluster_type = "kafka";
  cluster_id = "lkc-a=b";
  resource_type = "topic";
  resource_id = "orders";
}

topic-IsBuildable : IsBuildable topic
unfolding is_in lacks
topic-IsBuildable = record {
  cluster_named = refl;
  resource_named = refl;
  organization_plain = refl;
  environment_plain = refl;
  cluster_plain = refl;
  resource_plain = refl;
}

parse_crn-build_crn_example : IsRead topic (parse_crn (build topic))
parse_crn-build_crn_example = parse_crn-build_crn topic topic-IsBuildable

abbrev raw : RawEvent
raw = record {
  id = some "e1";
  specversion = none;
  source = some "crn://confluent.cloud/kafka=lkc-1";
  subject = none;
  type = some "io.confluent.kafka.server/authentication";
  time = none;
  datacontenttype = none;
  payload = none;
}

abbrev no_time : String → Option ℕ
no_time time = none

abbrev parsed : RawEvent → Outcome AuditEvent
parsed e = returned (parse no_time e)

abbrev broken : Handler
broken = record {
  name = "broken";
  can_handle = λ event. returned true;
  handle = λ event. raised "no";
}

route-Adds_example :
    Adds
      (applying (start raw (parsed raw)).event (broken ∷ default_handlers))
      (failing (start raw (parsed raw)).event (broken ∷ default_handlers))
      (start raw (parsed raw))
      (route parsed (broken ∷ default_handlers) raw)
route-Adds_example = route-Adds parsed (broken ∷ default_handlers) raw
