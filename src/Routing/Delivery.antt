-- ===== src/Routing/Delivery.antt =====
-- What the router sends, and where (topic_router.py).
use auditlens.Prelude.{◌≡◌, ◌⊎◌, true, false, ◌&&◌, some, All}
use auditlens.Criticality.Methods.{MethodRules}
use auditlens.Criticality.Enrich.{classify_event}
use auditlens.Routing.{RouterConfig, Message, Producer, TopicRouter, is_low, topic_for, all_topic}

-- A message that may have been sent under a configuration: its level is that of its event; it is
-- on the enabled topic of that level, or on the topic of all events; it is sent by no dry run; and
-- it is no LOW event that is to be dropped.
pub record IsRightful (rules : MethodRules) (c : RouterConfig) (m : Message) : Type 0 where
  pub classified : classify_event rules m.event ≡ (m.level, m.enrichment)
  pub on_topic : (topic_for c m.level ≡ (m.topic, true)) ⊎ (all_topic c ≡ some m.topic)
  pub enabled : (topic_for c m.level).1 ≡ true
  pub not_dry : c.dry_run ≡ false
  pub not_dropped : is_low m.level && c.drop_low_events ≡ false

module _ (p : Producer) (rules : MethodRules) (config : RouterConfig) where
  -- The router has this configuration, and all that it has sent is rightful.
  pub record IsSound (r : TopicRouter) : Type 0 where
    pub config_eq : r.config ≡ config
    pub rightful : All (IsRightful rules config) r.sent
