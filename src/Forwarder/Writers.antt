-- ===== src/Forwarder/Writers.antt =====
-- `_route_to_queue`, `_requeue_or_dlq` and `_writer_loop` (audit_forwarder.py). What the loop does
-- with a full and an empty queue, and whether the write to the database succeeds, is an argument;
-- what it did is kept in lists. The queues of the lanes are bounded.
pub mod Accounting
pub mod Passed
pub mod Routed
pub mod Marks
pub mod Waited
mod Tests
use auditlens.Prelude.{
  ℕ, ◌+◌, Bool, true, false, not, ◌&&◌, ◌||◌, Option, none, some, List, [], ◌∷◌, ◌++◌, String, ltb,
  length, take, drop, map, is_in, if◌then◌else◌,
}
use auditlens.Criticality.Methods.{MethodRules}
use auditlens.Forwarder.{Lane, no_writer, signal_lane, bulk_lane, lane_full, Partition, Offsets}
use auditlens.Forwarder.ShortCircuit.{Flushed, record_persisted}

pub data LaneName : Type 0 where
  critical normal bulk : LaneName

-- the lane of a method; a dry run counts as bulk
unfoldable pub target_of : MethodRules → String → Bool → LaneName
target_of r method validate_only =
    if validate_only
    then bulk
    else if is_in method r.critical || is_in method r.high
    then critical
    else if is_in method r.read_only
        || is_in method r.authentication
        || is_in method r.authorization_check
    then bulk
    else normal

abbrev lane_of : LaneName → Lane
lane_of critical = signal_lane
lane_of normal = signal_lane
lane_of bulk = bulk_lane

-- without room after the timeout: the critical lane refuses, the others drop the event
abbrev when_full : LaneName → Lane × Bool
when_full critical = (lane_full, false)
when_full normal = (signal_lane, false)
when_full bulk = (bulk_lane, false)

-- `_route_to_queue`: what it answers, and whether the event is in the queue, with whether a lane has
-- room at once, and within the timeout
unfoldable pub route_to_queue :
    MethodRules → Bool → (LaneName → Bool) → (LaneName → Bool) → String → Bool → Lane × Bool
route_to_queue r enabled room room_later method validate_only =
    let target = target_of r method validate_only in
    if not enabled
    then (no_writer, false)
    else if room target || room_later target
    then (lane_of target, true)
    else when_full target

-- An item of a queue: its tags of the source if it has them (`_topic` and so on of a short-circuited
-- item, `_source_topic` and so on of another), and `_retry_count`.
pub record Item (V : Type 0) : Type 0 where
  pub payload : V
  pub source : Option (Partition × ℕ)
  pub short_circuit : Bool
  pub retry_count : ℕ

-- A queue with the table of acknowledged offsets that its writer advances, and what became of its items.
pub record Writer (V : Type 0) : Type 0 where
  pub queue : List (Item V)
  pub persisted : Offsets
  pub written : List (Item V)
  pub dlq : List (Item V)
  pub dropped : List (Item V)

-- One round of the loop: how many items it takes, what others put into the queue meanwhile, what the
-- other writers acknowledge meanwhile, and whether the write succeeds.
pub record Round (V : Type 0) : Type 0 where
  pub taken : ℕ
  pub arrivals : List (Item V)
  pub others : Flushed
  pub success : Bool

-- The writers of the critical and the normal lane share `_signal_persisted_offsets`; that of the bulk
-- lane has `_noise_persisted_offsets` for itself.
abbrev pub shared : LaneName → Flushed → Flushed
shared critical others = others
shared normal others = others
shared bulk others = []

abbrev pub max_retries : ℕ
max_retries = 3

module _ {V : Type 0} where
  abbrev pub tried_again : Item V → Item V
  tried_again item = record item { retry_count = item.retry_count + 1 }

  unfoldable pub requeue_item : ℕ → Item V → Writer V → Writer V
  requeue_item capacity item w =
      if ltb max_retries (item.retry_count + 1)
      then record w { dlq = w.dlq ++ item ∷ [] }
      else if ltb (length w.queue) capacity
      then record w { queue = w.queue ++ tried_again item ∷ [] }
      else record w { dropped = w.dropped ++ tried_again item ∷ [] }

  -- `_requeue_or_dlq`
  unfoldable pub requeue_or_dlq : ℕ → List (Item V) → Writer V → Writer V
  requeue_or_dlq capacity [] w = w
  requeue_or_dlq capacity (item ∷ items) w =
      requeue_or_dlq capacity items (requeue_item capacity item w)

  -- what is acknowledged after a write: the short-circuited items of the bulk lane, and if the commit
  -- waits for them (SIGNAL_COMMIT_REQUIRES_PG) the other items of the other lanes
  abbrev pub acknowledged : Bool → LaneName → Item V → Option (Partition × ℕ)
  acknowledged strict bulk item = if item.short_circuit then item.source else none
  acknowledged strict critical item = if strict && not item.short_circuit then item.source else none
  acknowledged strict normal item = if strict && not item.short_circuit then item.source else none

  abbrev pub wrote : Bool → LaneName → List (Item V) → Writer V → Writer V
  wrote strict lane batch w = record w {
    written = w.written ++ batch;
    persisted = record_persisted (map (acknowledged strict lane) batch) w.persisted;
  }

  -- a round of `_writer_loop`
  unfoldable pub writer_round : Bool → LaneName → ℕ → Round V → Writer V → Writer V
  writer_round strict lane capacity r w =
      let batch = take r.taken w.queue in
      let drained = record w {
        queue = drop r.taken w.queue ++ r.arrivals;
        persisted = record_persisted (shared lane r.others) w.persisted;
      } in
      if r.success then wrote strict lane batch drained else requeue_or_dlq capacity batch drained

  unfoldable pub writer_rounds : Bool → LaneName → ℕ → List (Round V) → Writer V → Writer V
  writer_rounds strict lane capacity [] w = w
  writer_rounds strict lane capacity (r ∷ rs) w =
      writer_rounds strict lane capacity rs (writer_round strict lane capacity r w)
