-- ===== src/Routing.antt =====
-- src/routing/topic_router.py: events go to the topic of their criticality. The Kafka producer is
-- outside: `Producer` says how each of its calls ends and how many failed deliveries each reports.
pub mod Accounting
pub mod Delivery
mod Tests
use auditlens.Prelude.{
  ℕ, ◌+◌, Bool, true, false, not, ◌&&◌, Option, none, some, List, [], ◌∷◌, ◌++◌, String, truthy,
  if◌then◌else◌,
}
use auditlens.Criticality.{CriticalityLevel, critical, high, medium, low, AuditEvent}
use auditlens.Criticality.Methods.{MethodRules}
use auditlens.Criticality.Enrich.{Enrichment, classify_event}

pub record RouterConfig : Type 0 where
  pub critical_topic : String
  pub high_topic : String
  pub medium_topic : String
  pub low_topic : String
  pub all_events_topic : Option String
  pub dry_run : Bool
  pub enable_critical : Bool
  pub enable_high : Bool
  pub enable_medium : Bool
  pub enable_low : Bool
  pub enable_all_events : Bool
  pub drop_low_events : Bool

pub data RoutingResult : Type 0 where
  routed dry_run_result skipped dropped error : RoutingResult

pub record RoutingStats : Type 0 where
  pub total_events : ℕ
  pub critical_routed : ℕ
  pub high_routed : ℕ
  pub medium_routed : ℕ
  pub low_routed : ℕ
  pub low_dropped : ℕ
  pub dry_run_events : ℕ
  pub errors : ℕ

abbrev pub no_events : RoutingStats
no_events = record {
  total_events = 0;
  critical_routed = 0;
  high_routed = 0;
  medium_routed = 0;
  low_routed = 0;
  low_dropped = 0;
  dry_run_events = 0;
  errors = 0;
}

-- An event with its id, and what is produced for it.
pub record RawEvent : Type 0 where
  pub id : String
  pub event : AuditEvent

pub record Message : Type 0 where
  pub topic : String
  pub key : Option String
  pub level : CriticalityLevel
  pub event : AuditEvent
  pub enrichment : Enrichment

-- How a call of `produce` ends; `raises` is any error but a full queue.
pub data Attempt : Type 0 where
  queued buffer_full raises : Attempt

-- The n-th call's end, and the failed deliveries that a `poll` after it reports.
pub record Producer : Type 0 where
  pub attempt : ℕ → Attempt
  pub reported : ℕ → ℕ

pub record TopicRouter : Type 0 where
  pub config : RouterConfig
  pub stats : RoutingStats
  pub calls : ℕ
  pub sent : List Message

-- `_default_delivery_callback`, for a number of failed deliveries
pub delivery_failures : ℕ → TopicRouter → TopicRouter
delivery_failures n r = record r { stats = record r.stats { errors = r.stats.errors + n } }

-- `_topic_map`
pub topic_for : RouterConfig → CriticalityLevel → String × Bool
topic_for c critical = (c.critical_topic, c.enable_critical)
topic_for c high = (c.high_topic, c.enable_high)
topic_for c medium = (c.medium_topic, c.enable_medium)
topic_for c low = (c.low_topic, c.enable_low)

abbrev pub is_low : CriticalityLevel → Bool
is_low low = true
is_low _ = false

-- `_update_stats`
pub update_stats : CriticalityLevel → RoutingStats → RoutingStats
update_stats critical s = record s { critical_routed = s.critical_routed + 1 }
update_stats high s = record s { high_routed = s.high_routed + 1 }
update_stats medium s = record s { medium_routed = s.medium_routed + 1 }
update_stats low s = record s { low_routed = s.low_routed + 1 }

-- the topic for all events, if it is enabled and has a name
pub all_topic : RouterConfig → Option String
all_topic c =
    if not c.enable_all_events
    then none
    else elim c.all_events_topic [ none ↦ none | some t ↦ if truthy t then some t else none ]

module _ (p : Producer) where
  -- One call of the producer; the flag tells whether the message was queued.
  abbrev queue : Message → TopicRouter → TopicRouter
  queue m r = record r { calls = r.calls + 1; sent = r.sent ++ m ∷ [] }

  abbrev count_produce : TopicRouter → TopicRouter
  count_produce r = record r { calls = r.calls + 1 }

  -- the second and last try
  abbrev retry_produce : Message → TopicRouter → TopicRouter × Bool
  retry_produce m r = elim (p.attempt r.calls) [
    | queued ↦ (queue m r, true)
    | buffer_full ↦ (count_produce r, false)
    | raises ↦ (count_produce r, false)
  ]

  -- `_produce_event`; the flag is false where it raises
  unfoldable pub produce_event : Message → TopicRouter → TopicRouter × Bool
  unfolding delivery_failures
  produce_event m r = elim (p.attempt r.calls) [
    | queued ↦ (queue m r, true)
    | buffer_full ↦ retry_produce m (delivery_failures (p.reported r.calls) (count_produce r))
    | raises ↦ (count_produce r, false)
  ]

  abbrev pub message_of : RawEvent → CriticalityLevel → Enrichment → String → Message
  message_of e level enrichment topic = record {
    topic = topic;
    key = if truthy e.id then some e.id else none;
    level = level;
    event = e.event;
    enrichment = enrichment;
  }

  -- the handler of `route_event`
  abbrev pub fail : TopicRouter → TopicRouter × RoutingResult
  fail r = (record r { stats = record r.stats { errors = r.stats.errors + 1 } }, error)

  -- the copy for the topic of all events
  pub produce_copy :
      RawEvent → CriticalityLevel → Enrichment → TopicRouter → TopicRouter × RoutingResult
  produce_copy e level enrichment r = elim (all_topic r.config) [
    | none ↦ (r, routed)
    | some t ↦
        (let (r', done) = produce_event (message_of e level enrichment t) r in
          if done then (r', routed) else fail r')
  ]

  pub produce_both :
      RawEvent → CriticalityLevel → Enrichment → String → TopicRouter → TopicRouter × RoutingResult
  produce_both e level enrichment topic r =
      let (r', done) = produce_event (message_of e level enrichment topic) r in
      if done
      then produce_copy e level enrichment (record r' { stats = update_stats level r'.stats })
      else fail r'

  -- `route_event` after the classification
  pub route_classified :
      RawEvent → CriticalityLevel → Enrichment → TopicRouter → TopicRouter × RoutingResult
  route_classified e level enrichment r =
      let (topic, enabled) = topic_for r.config level in
      if is_low level && r.config.drop_low_events
      then (record r { stats = record r.stats { low_dropped = r.stats.low_dropped + 1 } }, dropped)
      else if not enabled
      then (r, skipped)
      else if r.config.dry_run
      then (
        record r { stats = record r.stats { dry_run_events = r.stats.dry_run_events + 1 } },
        dry_run_result,
      )
      else produce_both e level enrichment topic r

  pub route_event : MethodRules → RawEvent → TopicRouter → TopicRouter × RoutingResult
  route_event rules e r =
      let (level, enrichment) = classify_event rules e.event in
      route_classified e level enrichment
        (record r { stats = record r.stats { total_events = r.stats.total_events + 1 } })

-- The results of `route_batch`.
pub record BatchCounts : Type 0 where
  pub routed_count : ℕ
  pub dry_run_count : ℕ
  pub skipped_count : ℕ
  pub dropped_count : ℕ
  pub error_count : ℕ

abbrev pub no_results : BatchCounts
no_results = record {
  routed_count = 0;
  dry_run_count = 0;
  skipped_count = 0;
  dropped_count = 0;
  error_count = 0;
}

pub tally_result : RoutingResult → BatchCounts → BatchCounts
tally_result routed c = record c { routed_count = c.routed_count + 1 }
tally_result dry_run_result c = record c { dry_run_count = c.dry_run_count + 1 }
tally_result skipped c = record c { skipped_count = c.skipped_count + 1 }
tally_result dropped c = record c { dropped_count = c.dropped_count + 1 }
tally_result error c = record c { error_count = c.error_count + 1 }

module _ (p : Producer) (rules : MethodRules) where
  pub route_all : List RawEvent → TopicRouter → BatchCounts → TopicRouter × BatchCounts
  route_all [] r c = (r, c)
  route_all (e ∷ es) r c =
      let (r', result) = route_event p rules e r in route_all es r' (tally_result result c)

  -- `route_batch`; the `flush` at its end reports a number of failed deliveries
  pub route_batch : ℕ → List RawEvent → TopicRouter → TopicRouter × BatchCounts
  route_batch flushed es r =
      let (r', c) = route_all es r no_results in
      (if r'.config.dry_run then r' else delivery_failures flushed r', c)
