-- ===== src/Burst/Bounds.antt =====
-- The memory of the burst detector is bounded, and its actors do not meet (burst_detector.py).
use auditlens.Prelude.{
  ℕ, ◌≤◌, ◌<◌, ◌≡◌, ◌≢◌, Bool, List, [], ◌∷◌, String, arith, length, truthy, eq_iff, Bool-cases,
  inl, inr,
}
use auditlens.Prelude.Eq.{string_eq}
use auditlens.Prelude.Assoc.{lookup, lookup-insert}
use auditlens.Burst.{
  BurstDetector, created, create, drop_old, recent, store, record_event, actor_count,
}

-- Every actor has fewer timestamps than the threshold.
pub record IsBounded (d : BurstDetector) : Type 0 where
  pub some_threshold : 0 < d.count_threshold
  pub some_window : 0 < d.window_seconds
  pub below : (a : String) → actor_count a d < d.count_threshold

-- The constructor refuses a threshold or a window below 1, and a detector that it makes is bounded.
pub create-IsBounded :
    (k w : ℕ) (n : Bool) (d : BurstDetector) → create k w n ≡ created d → IsBounded d
unfolding create actor_count lookup
create-IsBounded k w n d h = record {
  some_threshold = ground arith;
  some_window = ground arith;
  below = λ a. ground arith;
}

pub length-drop_old-le : (w now : ℕ) (ts : List ℕ) → length (drop_old w now ts) ≤ length ts
unfolding drop_old
length-drop_old-le w now [] = omega arith
length-drop_old-le w now (t ∷ ts) = ground (arith, length-drop_old-le w now ts)

store-below :
    (actor a : String) (ts : List ℕ) (d : BurstDetector)
    → 0 < d.count_threshold
    → actor_count a d < d.count_threshold
    → actor_count a (store actor ts d).0 < d.count_threshold
unfolding store actor_count
store-below actor a ts d k h =
    ground (arith, lookup-insert actor a ts d.failures, lookup-insert actor a [] d.failures)

store_thresholds :
    (actor : String) (ts : List ℕ) (d : BurstDetector)
    → ((store actor ts d).0.count_threshold ≡ d.count_threshold)
      × ((store actor ts d).0.window_seconds ≡ d.window_seconds)
unfolding store
store_thresholds actor ts d = ground arith

-- `record` keeps every actor's list shorter than the threshold.
pub record_event-IsBounded :
    (actor : String) (now : ℕ) (d : BurstDetector)
    → IsBounded d
    → IsBounded (record_event actor now d).0
unfolding record_event
record_event-IsBounded actor now d b = elim (Bool-cases (truthy actor)) [
  | inl named ↦ rw named (record {
    some_threshold = omega (arith, store_thresholds actor (recent actor now d) d, b.some_threshold);
    some_window = omega (arith, store_thresholds actor (recent actor now d) d, b.some_window);
    below = λ a. omega (
      arith,
      store_thresholds actor (recent actor now d) d,
      store-below actor a (recent actor now d) d b.some_threshold (b.below a),
    );
  })
  | inr empty ↦ rw empty b
]

-- What is reported of one actor leaves the count of every other actor as it was.
pub actor_count-record_event_ne :
    (actor a : String) (now : ℕ) (d : BurstDetector)
    → a ≢ actor
    → actor_count a (record_event actor now d).0 ≡ actor_count a d
unfolding record_event store actor_count
actor_count-record_event_ne actor a now d ne = ground (
  arith,
  eq_iff actor a,
  lookup-insert actor a (recent actor now d) d.failures,
  lookup-insert actor a [] d.failures,
)
