-- ===== src/Burst.antt =====
-- src/product/burst_detector.py: one alert when an actor's failures in the window reach a count.
-- Times are naturals in one unit. The notifier is outside: what it is asked to send is a result.
pub mod Window
pub mod Bounds
mod Tests
use auditlens.Prelude.{
  ℕ, ◌+◌, Bool, true, false, Option, none, some, List, [], ◌∷◌, ◌++◌, String, not, ltb, leb, length,
  truthy, if◌then◌else◌,
}
use auditlens.Prelude.Eq.{string_eq}
use auditlens.Prelude.Assoc.{Dict, lookup_or, insert}

pub record BurstDetector : Type 0 where
  pub count_threshold : ℕ
  pub window_seconds : ℕ
  pub has_notifier : Bool
  -- actor -> timestamps, oldest first
  pub failures : Dict String (List ℕ)

pub data Created : Type 0 where
  created : BurstDetector → Created
  value_error : String → Created

-- `__init__`
pub create : ℕ → ℕ → Bool → Created
create count_threshold window_seconds has_notifier =
    if ltb count_threshold 1
    then value_error "count_threshold must be >= 1"
    else if ltb window_seconds 1
    then value_error "window_seconds must be >= 1"
    else created (record {
      count_threshold = count_threshold;
      window_seconds = window_seconds;
      has_notifier = has_notifier;
      failures = [];
    })

-- What `_dispatch` puts into the text of the alert.
pub record BurstAlert : Type 0 where
  pub actor : String
  pub count : ℕ
  pub window : ℕ
  pub threshold : ℕ

-- `while timestamps and timestamps[0] < cutoff: timestamps.pop(0)`, the cutoff `now - window`
unfoldable pub drop_old : ℕ → ℕ → List ℕ → List ℕ
drop_old window now [] = []
drop_old window now (t ∷ ts) =
    let rest = drop_old window now ts in if ltb (t + window) now then rest else t ∷ ts

-- `_dispatch`; an error of the notifier is logged and dropped
pub dispatch : String → ℕ → BurstDetector → Option BurstAlert
dispatch actor count d =
    if d.has_notifier
    then some (record {
      actor = actor;
      count = count;
      window = d.window_seconds;
      threshold = d.count_threshold;
    })
    else none

-- The actor's timestamps with the new one, the old ones dropped.
pub recent : String → ℕ → BurstDetector → List ℕ
recent actor now d = drop_old d.window_seconds now (lookup_or [] actor d.failures) ++ now ∷ []

-- the part of `record` under the lock
pub store : String → List ℕ → BurstDetector → BurstDetector × Bool
store actor timestamps d =
    if leb d.count_threshold (length timestamps)
    then (record d { failures = insert actor [] d.failures }, true)
    else (record d { failures = insert actor timestamps d.failures }, false)

-- The new state, the result of `record`, and what goes to the notifier.
pub record_event : String → ℕ → BurstDetector → BurstDetector × Bool × Option BurstAlert
record_event actor now d =
    if truthy actor
    then (let timestamps = recent actor now d in
        let (d', fired) = store actor timestamps d in
        (d', fired, if fired then dispatch actor (length timestamps) d else none))
    else (d, false, none)

pub actor_count : String → BurstDetector → ℕ
actor_count actor d = length (lookup_or [] actor d.failures)
