-- ===== src/Baseline.antt =====
-- src/product/ip_baseline_tracker.py and the alert on a new address (audit_forwarder.py). Patterns is
-- src/product/pattern_detector.py. Texts of addresses are parsed outside (`ipaddress`): an IPv4
-- address is its number. The queues are drained by threads that write to the database.
pub mod Seen
pub mod Patterns
mod Tests
use Prim.Native.String.{◌++◌ as cat}
use auditlens.Prelude.{
  ℕ, ◌+◌, ◌-◌, ◌*◌, ◌/◌, ◌^◌, Bool, true, false, not, ◌&&◌, ◌||◌, Option, none, some, List, [], ◌∷◌,
  ◌++◌, String, ltb, leb, ◌==◌, any_of, length, strip, or_else, truthy, is_some, if◌then◌else◌,
}
use auditlens.Prelude.Eq.{Eq, string_eq, pair_eq}
use auditlens.Prelude.Assoc.{Dict, lookup_or, insert}

-- actor and address
abbrev pub Pair : Type 0
Pair = String × String

abbrev pub pair_key : Eq Pair
pair_key = pair_eq

-- a cidr block, its provider and region
pub record Cidr : Type 0 where
  pub base : ℕ
  pub prefix_len : ℕ
  pub provider : String
  pub region : String

abbrev pub block : ℕ → ℕ → ℕ → ℕ → String → String → Cidr
block a b c prefix_len provider region = record {
  base = ((a * 256 + b) * 256 + c) * 256;
  prefix_len = prefix_len;
  provider = provider;
  region = region;
}

-- `_CLOUD_CIDRS`
abbrev pub cloud_cidrs : List Cidr
cloud_cidrs =
    block 34 64 0 11 "gcp" "us"
    ∷ block 35 190 0 17 "gcp" "us"
    ∷ block 34 80 0 12 "gcp" "asia"
    ∷ block 34 96 0 12 "gcp" "global"
    ∷ block 35 186 0 17 "gcp" "us"
    ∷ block 52 0 0 8 "aws" "us-east"
    ∷ block 54 0 0 8 "aws" "global"
    ∷ block 34 0 0 8 "aws" "global"
    ∷ block 3 0 0 8 "aws" "global"
    ∷ block 18 0 0 8 "aws" "global"
    ∷ block 13 0 0 8 "aws" "us"
    ∷ block 40 0 0 8 "azure" "global"
    ∷ block 20 0 0 8 "azure" "global"
    ∷ block 52 224 0 11 "azure" "us"
    ∷ block 134 238 0 16 "confluent" "us"
    ∷ []

-- `addr in network`
abbrev pub in_block : ℕ → Cidr → Bool
in_block addr c = addr / 2 ^ (32 - c.prefix_len) == c.base / 2 ^ (32 - c.prefix_len)

-- the loop of `detect_cloud_provider`
unfoldable pub first_block : ℕ → List Cidr → Option (String × String)
first_block addr [] = none
first_block addr (c ∷ cs) =
    let rest = first_block addr cs in if in_block addr c then some (c.provider, c.region) else rest

-- `detect_cloud_provider`, `none` for what is no IPv4 address
unfoldable pub detect_cloud_provider : Option ℕ → Option (String × String)
detect_cloud_provider none = none
detect_cloud_provider (some addr) = first_block addr cloud_cidrs

pub record BaselineItem : Type 0 where
  pub pair : Pair
  pub is_new : Bool
  pub cloud : Option (String × String)
  pub ts : ℕ

-- `_seen` and the queue of writes
pub record Tracker : Type 0 where
  pub seen : List Pair
  pub queue : List BaselineItem

abbrev queue_max : ℕ
queue_max = 5000

abbrev pub is_seen : Pair → List Pair → Bool
is_seen key seen = any_of (pair_key.beq key) seen

-- `_seed_from_db`; `none` where the database fails
pub seed_from_db : Option (List Pair) → Tracker → Tracker
seed_from_db none t = t
seed_from_db (some rows) t = record t { seen = rows ++ t.seen }

abbrev pub add_seen : Pair → List Pair → List Pair
add_seen key seen = if is_seen key seen then seen else key ∷ seen

-- `put_nowait`; a full queue drops the item
abbrev put_nowait : BaselineItem → List BaselineItem → List BaselineItem
put_nowait item queue = if ltb (length queue) queue_max then queue ++ item ∷ [] else queue

-- `record`, with what the parser makes of the address
unfoldable pub record_pair : (String → Option ℕ) → Pair → ℕ → Tracker → Tracker × Bool
record_pair parse_ip (actor, source_ip) ts t =
    if truthy actor && truthy source_ip
    then (let is_new = not (is_seen (actor, source_ip) t.seen) in
        (
          record {
            seen = add_seen (actor, source_ip) t.seen;
            queue =
                put_nowait
                  (record {
                    pair = (actor, source_ip);
                    is_new = is_new;
                    cloud = detect_cloud_provider (parse_ip source_ip);
                    ts = ts;
                  })
                  t.queue;
          },
          is_new,
        ))
    else (t, false)

-- `is_new_ip`
pub is_new_ip : Pair → Tracker → Bool
is_new_ip (actor, source_ip) t =
    if truthy actor && truthy source_ip then not (is_seen (actor, source_ip) t.seen) else false

-- What the alert on a new address looks up; the trusted networks and whether one has the address.
pub record AlertFacts : Type 0 where
  pub whitelisted : Bool
  pub some_trusted : Bool
  pub in_trusted : Bool
  pub alert_on_new_ip : Bool
  pub is_private : Bool
  pub has_destinations : Bool

-- `_should_alert`, with the time of the last alert about the pair, 0 if there is none
unfoldable pub should_alert_ip : ℕ → ℕ → ℕ → AlertFacts → Bool
should_alert_ip window now last facts =
    not facts.whitelisted
    && not (facts.some_trusted && facts.in_trusted)
    && leb (last + window) now
    && (facts.alert_on_new_ip || facts.some_trusted || not facts.is_private)

-- the tracker and `_ip_alert_dedup`
pub record IpWatch : Type 0 where
  pub tracker : Tracker
  pub alerted : Dict Pair ℕ

abbrev alert_new : ℕ → ℕ → Pair → AlertFacts → IpWatch → IpWatch × Bool
alert_new window now key facts w =
    if facts.has_destinations && should_alert_ip window now (lookup_or 0 key w.alerted) facts
    then (record w { alerted = insert key now w.alerted }, true)
    else (w, false)

-- One event in the processor: the new state, and whether there is an alert.
unfoldable pub watch_ip : (String → Option ℕ) → ℕ → ℕ → Pair → AlertFacts → IpWatch → IpWatch × Bool
watch_ip parse_ip window now key facts w =
    let (tracker, is_new) = record_pair parse_ip key now w.tracker in
    let seen = record w { tracker = tracker } in
    if is_new then alert_new window now key facts seen else (seen, false)
