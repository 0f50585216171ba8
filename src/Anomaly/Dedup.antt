-- ===== src/Anomaly/Dedup.antt =====
-- `_should_alert` of rate_tracker.py against a specification that forgets nothing, and the count of
-- the alerts it suppresses.
use auditlens.Prelude.{
  ℕ, ◌+◌, ◌*◌, ◌≤◌, ◌≡◌, suc, refl, Bool, true, false, Option, none, some, List, [], ◌∷◌, arith,
  ltb, if◌then◌else◌,
}
use auditlens.Prelude.Eq.{Eq, string_eq, pair_eq}
use auditlens.Prelude.Assoc.{
  Dict, lookup, lookup_or, insert, Distinct, lookup-insert, lookup_or-insert, keep_if-Distinct,
  insert-Distinct, lookup-keep_if,
}
use auditlens.Anomaly.{
  anomaly_eq, AlertKey, Suppressor, drop_stale, is_recent, suppress, remember, should_alert,
  flush_suppression_summary,
}

abbrev pub Requests : Type 0
Requests = List (AlertKey × ℕ)

abbrev key_eq : Eq AlertKey
key_eq = pair_eq

-- The results of `_should_alert` over a sequence of calls.
unfoldable pub answers : Requests → Suppressor → List Bool
answers [] s = []
answers ((key, now) ∷ rs) s = (should_alert key now s).1 ∷ answers rs (should_alert key now s).0

-- When each key was last answered with an alert.
abbrev pub LastAlert : Type 0
LastAlert = AlertKey → Option ℕ

abbrev pub note_alert : AlertKey → ℕ → LastAlert → LastAlert
note_alert key now l j = if key_eq.beq key j then some now else l j

-- An alert is let through unless one of its key was, less than the cooldown ago.
pub spec_answers : ℕ → Requests → LastAlert → List Bool
spec_answers c [] l = []
spec_answers c ((key, now) ∷ rs) l =
    let repeats = is_recent c now (l key) in
    let quiet = spec_answers c rs l in
    let loud = spec_answers c rs (note_alert key now l) in
    if repeats then false ∷ quiet else true ∷ loud

abbrev pub Rising : ℕ → Requests → Type 0
Rising last [] = Unit
Rising last ((key, now) ∷ rs) = (last ≤ now) × Rising now rs

-- The kept entries answer every later question as the full record does.
pub record Agrees (last : ℕ) (s : Suppressor) (l : LastAlert) : Type 0 where
  pub distinct : Distinct s.recent_alerts
  pub same :
      (j : AlertKey) (now : ℕ)
      → last ≤ now
      → is_recent s.cooldown now (lookup j s.recent_alerts) ≡ is_recent s.cooldown now (l j)

is_recent-drop_stale :
    (c now later : ℕ) (j : AlertKey) (d : Dict AlertKey ℕ)
    → Distinct d
    → now ≤ later
    → is_recent c later (lookup j (drop_stale c now d)) ≡ is_recent c later (lookup j d)
unfolding drop_stale
is_recent-drop_stale c now later j d h le =
    ground (arith, lookup-keep_if (λ e. ltb now (e.1 + c * 2)) j d h)

module _ (last now : ℕ) (key : AlertKey) (s : Suppressor) (l : LastAlert) (g : Agrees last s l)
    (le : last ≤ now) where
  suppress-Agrees : Agrees now (suppress key s) l
  unfolding suppress
  suppress-Agrees = record {
    distinct = g.distinct;
    same = λ j later h. g.same j later (omega arith);
  }

  remember-Agrees : Agrees now (remember key now s) (note_alert key now l)
  unfolding remember drop_stale
  remember-Agrees = record {
    distinct = keep_if-Distinct _ _ (insert-Distinct key now s.recent_alerts g.distinct);
    same = λ j later h. ground (
      arith,
      is_recent-drop_stale s.cooldown now later j (insert key now s.recent_alerts)
          (insert-Distinct key now s.recent_alerts g.distinct) h,
      lookup-insert key j now s.recent_alerts,
      g.same j later,
    );
  }

-- From any state that agrees with the history.
answers-Agrees :
    (last : ℕ) (rs : Requests) (s : Suppressor) (l : LastAlert)
    → Agrees last s l
    → Rising last rs
    → answers rs s ≡ spec_answers s.cooldown rs l
unfolding answers should_alert spec_answers suppress remember
answers-Agrees last [] s l g h = refl
answers-Agrees last ((key, now) ∷ rs) s l g h = ground (
  arith,
  g.same key now h.0,
  answers-Agrees now rs (suppress key s) l (suppress-Agrees last now key s l g h.0) h.1,
  answers-Agrees now rs (remember key now s) (note_alert key now l)
      (remember-Agrees last now key s l g h.0) h.1,
)

-- What `RateTracker` starts with.
abbrev pub new_suppressor : ℕ → ℕ → Suppressor
new_suppressor c now = record {
  cooldown = c;
  recent_alerts = [];
  suppressed_counts = [];
  last_flush_at = now;
}

-- From a new tracker, as long as the clock does not run backwards, an alert is let through exactly
-- when none of its type and principal was let through less than the cooldown ago, although stale
-- entries are dropped on the way.
pub answers-spec_answers :
    (c start : ℕ) (rs : Requests)
    → Rising start rs
    → answers rs (new_suppressor c start) ≡ spec_answers c rs (λ _. none)
unfolding lookup
answers-spec_answers c start rs h =
    answers-Agrees start rs (new_suppressor c start) (λ _. none)
      (record { distinct = tt; same = λ j later le. refl }) h

-- The state after a sequence of calls.
unfoldable pub after : Requests → Suppressor → Suppressor
after [] s = s
after ((key, now) ∷ rs) s = after rs (should_alert key now s).0

-- The calls for a key that were answered with no.
unfoldable pub refused : AlertKey → Requests → List Bool → ℕ
refused j [] bs = 0
refused j (r ∷ rs) [] = 0
refused j (r ∷ rs) (b ∷ bs) =
    let rest = refused j rs bs in if key_eq.beq r.0 j then (if b then rest else suc rest) else rest

after-counts :
    (j : AlertKey) (rs : Requests) (s : Suppressor)
    → lookup_or 0 j (after rs s).suppressed_counts
      ≡ lookup_or 0 j s.suppressed_counts + refused j rs (answers rs s)
unfolding after refused answers should_alert suppress remember
after-counts j [] s = omega arith
after-counts j ((key, now) ∷ rs) s = ground (
  arith,
  after-counts j rs (suppress key s),
  after-counts j rs (remember key now s),
  lookup_or-insert 0 key j (lookup_or 0 key s.suppressed_counts + 1) s.suppressed_counts,
  key_eq.beq_iff key j,
)

after-Distinct :
    (rs : Requests) (s : Suppressor)
    → Distinct s.suppressed_counts
    → Distinct (after rs s).suppressed_counts
unfolding after should_alert suppress remember
after-Distinct [] s h = h
after-Distinct ((key, now) ∷ rs) s h = ground (
  arith,
  after-Distinct rs (suppress key s)
      (insert-Distinct key (lookup_or 0 key s.suppressed_counts + 1) s.suppressed_counts h),
  after-Distinct rs (remember key now s) h,
)

flush-counts :
    (j : AlertKey) (now : ℕ) (s : Suppressor)
    → Distinct s.suppressed_counts
    → lookup_or 0 j (flush_suppression_summary now s).1 ≡ lookup_or 0 j s.suppressed_counts
unfolding flush_suppression_summary
flush-counts j now s h = ground (arith, lookup-keep_if (λ e. ltb 0 e.1) j s.suppressed_counts h)

-- A summary after any sequence of calls on a new tracker reports under each type and principal
-- exactly the alerts of it that were suppressed, and leaves nothing for the next one.
pub flush-refused :
    (c start now : ℕ) (rs : Requests) (j : AlertKey)
    → (lookup_or 0 j (flush_suppression_summary now (after rs (new_suppressor c start))).1
        ≡ refused j rs (answers rs (new_suppressor c start)))
      × (lookup_or 0 j
            (flush_suppression_summary now (after rs (new_suppressor c start))).0.suppressed_counts
          ≡ 0)
unfolding lookup flush_suppression_summary
flush-refused c start now rs j = (
  omega (
    arith,
    flush-counts j now (after rs (new_suppressor c start))
        (after-Distinct rs (new_suppressor c start) tt),
    after-counts j rs (new_suppressor c start),
  ),
  refl,
)
