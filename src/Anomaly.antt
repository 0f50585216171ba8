-- ===== src/Anomaly.antt =====
-- src/anomaly/rate_tracker.py: the sliding-window counters and the suppression of repeated alerts.
-- The tracker over them is in Tracker. Times are naturals in one unit.
pub mod Records
pub mod Tracker
pub mod Dedup
pub mod Detection
mod Tests
use auditlens.Prelude.{
  ℕ, ◌+◌, ◌*◌, ◌≡◌, ◌↔◌, refl, Bool, true, false, ◌&&◌, Option, none, some, List, [], ◌∷◌, ◌++◌,
  String, arith, ltb, leb, ◌==◌, length, keep_if, has_prefix, truthy, if◌then◌else◌,
}
use auditlens.Prelude.Eq.{Eq, string_eq, pair_eq}
use auditlens.Prelude.Assoc.{Dict, lookup, lookup_or, insert}
use text.Mathlib.Text.{get?}
use Prim.Native.String.{slice, len}

pub data AnomalyType : Type 0 where
  auth_failure_spike activity_spike new_source_ip unusual_hour : AnomalyType
  rapid_deletions api_key_abuse : AnomalyType

abbrev rank : AnomalyType → ℕ
rank auth_failure_spike = 0
rank activity_spike = 1
rank new_source_ip = 2
rank unusual_hour = 3
rank rapid_deletions = 4
rank api_key_abuse = 5

pub rank_iff : (a b : AnomalyType) → ((rank a == rank b) ≡ true) ↔ (a ≡ b)
rank_iff a b = (λ h. ground arith, λ h. ground arith)

instance abbrev pub anomaly_eq : Eq AnomalyType
anomaly_eq = record { beq = λ a b. rank a == rank b; beq_iff = rank_iff }

-- `_normalize_principal_for_compare`
unfoldable pub normalize_principal : String → String
normalize_principal p = if has_prefix "User:" p then slice p 5 (len p) else p

pub record RateCounter : Type 0 where
  pub window_seconds : ℕ
  pub events : List ℕ

-- `_cleanup`: keeps the events after `now - window_seconds`
unfoldable pub cleanup_events : ℕ → RateCounter → RateCounter
cleanup_events now c = record c {
  events = keep_if (λ ts. ltb now (ts + c.window_seconds)) c.events;
}

unfoldable pub add_event : ℕ → RateCounter → RateCounter
unfolding cleanup_events
add_event now c = cleanup_events now (record c { events = c.events ++ now ∷ [] })

-- The count, and the rate per minute as a fraction: `count / window_seconds * 60`. A window of 0
-- seconds, for which the source raises, gives the denominator 0 and is no window of the tracker.
pub record Rate : Type 0 where
  pub count : ℕ
  pub numerator : ℕ
  pub denominator : ℕ

unfoldable pub get_rate : ℕ → RateCounter → RateCounter × Rate
unfolding cleanup_events
get_rate now c =
    let c' = cleanup_events now c in
    (
      c',
      record {
        count = length c'.events;
        numerator = length c'.events * 60;
        denominator = c.window_seconds;
      },
    )

abbrev pub AlertKey : Type 0
AlertKey = AnomalyType × String

-- `_recent_alerts`, `_suppressed_counts` and `_alert_cooldown`.
pub record Suppressor : Type 0 where
  pub cooldown : ℕ
  pub recent_alerts : Dict AlertKey ℕ
  pub suppressed_counts : Dict AlertKey ℕ
  pub last_flush_at : ℕ

-- the entries newer than `now - 2 * cooldown`
unfoldable pub drop_stale : ℕ → ℕ → Dict AlertKey ℕ → Dict AlertKey ℕ
drop_stale cooldown now d = keep_if (λ e. ltb now (e.1 + cooldown * 2)) d

abbrev pub is_recent : ℕ → ℕ → Option ℕ → Bool
is_recent cooldown now none = false
is_recent cooldown now (some last) = ltb now (last + cooldown)

-- a repeat is counted
unfoldable pub suppress : AlertKey → Suppressor → Suppressor
suppress key s = record s {
  suppressed_counts = insert key (lookup_or 0 key s.suppressed_counts + 1) s.suppressed_counts;
}

-- an alert is noted, and the old entries dropped
unfoldable pub remember : AlertKey → ℕ → Suppressor → Suppressor
remember key now s = record s {
  recent_alerts = drop_stale s.cooldown now (insert key now s.recent_alerts);
}

-- `_should_alert`
unfoldable pub should_alert : AlertKey → ℕ → Suppressor → Suppressor × Bool
should_alert key now s =
    if is_recent s.cooldown now (lookup key s.recent_alerts)
    then (suppress key s, false)
    else (remember key now s, true)

-- `flush_suppression_summary`
unfoldable pub flush_suppression_summary : ℕ → Suppressor → Suppressor × List (AlertKey × ℕ)
flush_suppression_summary now s = (
  record s { suppressed_counts = []; last_flush_at = now },
  keep_if (λ e. ltb 0 e.1) s.suppressed_counts,
)
