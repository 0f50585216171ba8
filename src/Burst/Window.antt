-- ===== src/Burst/Window.antt =====
-- The burst detector against a specification that forgets nothing (burst_detector.py).
use auditlens.Prelude.{
  ℕ, ◌+◌, ◌≤◌, ◌≡◌, refl, ap, Bool, true, false, List, [], ◌∷◌, ◌++◌, String, arith, leb, length,
  keep_if, truthy, str_eq, Bool-cases, inl, inr, if◌then◌else◌,
}
use auditlens.Prelude.Eq.{string_eq}
use auditlens.Prelude.Assoc.{lookup_or, insert, lookup_or-insert}
use auditlens.Burst.{BurstDetector, drop_old, recent, store, record_event}

-- Every failure of each actor since the last alert about it.
abbrev pub Log : Type 0
Log = String → List ℕ

abbrev pub update : Log → String → List ℕ → Log
update s a h b = if str_eq a b then h else s b

-- The failures of a history that lie in the window which ends at `now`.
abbrev pub in_window : ℕ → ℕ → List ℕ → List ℕ
in_window w now h = keep_if (λ t. leb now (t + w)) h

module _ (k w : ℕ) where
  abbrev pub spec_after : String → List ℕ → ℕ → Log → Log × Bool
  spec_after a h now s =
      if leb k (length (in_window w now h)) then (update s a [], true) else (update s a h, false)

  -- One failure: an alert when the k-th of the window is reached, and a new count from there.
  pub spec_step : String → ℕ → Log → Log × Bool
  spec_step a now s = if truthy a then spec_after a (s a ++ now ∷ []) now s else (s, false)

  pub spec_run : List (String × ℕ) → Log → List Bool
  spec_run [] s = []
  spec_run ((a, now) ∷ es) s = (spec_step a now s).1 ∷ spec_run es (spec_step a now s).0

-- The results of `record` over a sequence of calls.
unfoldable pub run : List (String × ℕ) → BurstDetector → List Bool
run [] d = []
run ((a, now) ∷ es) d = (record_event a now d).1 ∷ run es (record_event a now d).0

-- The clock does not run backwards.
abbrev pub Rising : ℕ → List (String × ℕ) → Type 0
Rising last [] = Unit
Rising last ((a, now) ∷ es) = (last ≤ now) × Rising now es

-- A list that ascends from `lo` to at most `hi`.
abbrev pub AscendsTo : ℕ → List ℕ → ℕ → Type 0
AscendsTo lo [] hi = lo ≤ hi
AscendsTo lo (t ∷ ts) hi = (lo ≤ t) × AscendsTo t ts hi

AscendsTo-append :
    (lo : ℕ) (ts : List ℕ) (hi now : ℕ)
    → AscendsTo lo ts hi
    → hi ≤ now
    → AscendsTo lo (ts ++ now ∷ []) now
AscendsTo-append lo [] hi now h le = omega arith
AscendsTo-append lo (t ∷ ts) hi now h le = (h.0, AscendsTo-append t ts hi now h.1 le)

AscendsTo-later :
    (lo : ℕ) (ts : List ℕ) (hi now : ℕ) → AscendsTo lo ts hi → hi ≤ now → AscendsTo lo ts now
AscendsTo-later lo [] hi now h le = omega arith
AscendsTo-later lo (t ∷ ts) hi now h le = (h.0, AscendsTo-later t ts hi now h.1 le)

in_window_all :
    (w now lo : ℕ) (ts : List ℕ) (hi : ℕ)
    → AscendsTo lo ts hi
    → now ≤ lo + w
    → in_window w now ts ≡ ts
in_window_all w now lo [] hi h le = refl
in_window_all w now lo (t ∷ ts) hi h le = ground (arith, in_window_all w now t ts hi h.1)

-- On an ascending list dropping the head while it is old is filtering.
drop_old-eq-in_window :
    (w now lo : ℕ) (ts : List ℕ) (hi : ℕ)
    → AscendsTo lo ts hi
    → drop_old w now ts ≡ in_window w now ts
unfolding drop_old
drop_old-eq-in_window w now lo [] hi h = refl
drop_old-eq-in_window w now lo (t ∷ ts) hi h =
    ground (arith, drop_old-eq-in_window w now t ts hi h.1, in_window_all w now t ts hi h.1)

-- What has been dropped once would be dropped later.
drop_old-drop_old :
    (w now later y : ℕ) (ts : List ℕ)
    → now ≤ later
    → drop_old w later (drop_old w now ts ++ y ∷ []) ≡ drop_old w later (ts ++ y ∷ [])
unfolding drop_old
drop_old-drop_old w now later y [] le = refl
drop_old-drop_old w now later y (t ∷ ts) le = ground (arith, drop_old-drop_old w now later y ts le)

drop_old-append_now :
    (w now : ℕ) (ts : List ℕ) → drop_old w now ts ++ now ∷ [] ≡ drop_old w now (ts ++ now ∷ [])
unfolding drop_old
drop_old-append_now w now [] = ground arith
drop_old-append_now w now (t ∷ ts) = ground (arith, drop_old-append_now w now ts)

-- The detector and the log agree on all that a later call can see.
pub record Agrees (k w last : ℕ) (d : BurstDetector) (s : Log) : Type 0 where
  pub threshold_eq : d.count_threshold ≡ k
  pub window_eq : d.window_seconds ≡ w
  pub same :
      (a : String) (now : ℕ)
      → last ≤ now
      → drop_old w now (lookup_or [] a d.failures) ≡ drop_old w now (s a)
  pub ascends : (a : String) → AscendsTo 0 (s a) last

Agrees-later :
    (k w last now : ℕ) (d : BurstDetector) (s : Log)
    → Agrees k w last d s
    → last ≤ now
    → Agrees k w now d s
Agrees-later k w last now d s g le = record {
  threshold_eq = g.threshold_eq;
  window_eq = g.window_eq;
  same = λ a later h. g.same a later (omega arith);
  ascends = λ a. AscendsTo-later 0 (s a) last now (g.ascends a) le;
}

module _ (k w last now : ℕ) (actor : String) (d : BurstDetector) (s : Log) (g : Agrees k w last d s)
    (le : last ≤ now) where
  recent-eq : recent actor now d ≡ drop_old w now (s actor) ++ now ∷ []
  unfolding recent
  recent-eq = rw (g.window_eq, g.same actor now le)

  recent-eq-in_window : recent actor now d ≡ in_window w now (s actor ++ now ∷ [])
  recent-eq-in_window = rw recent-eq (
      rw drop_old-append_now (
        drop_old-eq-in_window w now 0 (s actor ++ now ∷ []) now
          (AscendsTo-append 0 (s actor) last now (g.ascends actor) le)))

  -- below the threshold
  kept-Agrees :
      Agrees k w now
        (record d { failures = insert actor (recent actor now d) d.failures })
        (update s actor (s actor ++ now ∷ []))
  kept-Agrees = record {
    threshold_eq = g.threshold_eq;
    window_eq = g.window_eq;
    same = λ a later h. elim (Bool-cases (str_eq actor a)) [
      | inl hit ↦
          simp (lookup_or-insert, hit)
            (rw recent-eq (drop_old-drop_old w now later now (s actor) h))
      | inr other ↦ simp (lookup_or-insert, other) (g.same a later (omega arith))
    ];
    ascends = λ a. elim (Bool-cases (str_eq actor a)) [
      | inl hit ↦ rw hit (AscendsTo-append 0 (s actor) last now (g.ascends actor) le)
      | inr other ↦ rw other (AscendsTo-later 0 (s a) last now (g.ascends a) le)
    ];
  }

  -- after an alert
  reset-Agrees :
      Agrees k w now (record d { failures = insert actor [] d.failures }) (update s actor [])
  reset-Agrees = record {
    threshold_eq = g.threshold_eq;
    window_eq = g.window_eq;
    same = λ a later h. elim (Bool-cases (str_eq actor a)) [
      | inl hit ↦ simp (lookup_or-insert, hit)
      | inr other ↦ simp (lookup_or-insert, other) (g.same a later (omega arith))
    ];
    ascends = λ a. elim (Bool-cases (str_eq actor a)) [
      | inl hit ↦ rw hit (omega arith)
      | inr other ↦ rw other (AscendsTo-later 0 (s a) last now (g.ascends a) le)
    ];
  }

  store_full :
      leb k (length (recent actor now d)) ≡ true
      → store actor (recent actor now d) d
        ≡ (record d { failures = insert actor [] d.failures }, true)
  unfolding store
  store_full h = ground (arith, g.threshold_eq)

  store_few :
      leb k (length (recent actor now d)) ≡ false
      → store actor (recent actor now d) d
        ≡ (record d { failures = insert actor (recent actor now d) d.failures }, false)
  unfolding store
  store_few h = ground (arith, g.threshold_eq)

  store-Agrees :
      ((store actor (recent actor now d) d).1
        ≡ (spec_after k w actor (s actor ++ now ∷ []) now s).1)
      × Agrees k w now
          (store actor (recent actor now d) d).0
          (spec_after k w actor (s actor ++ now ∷ []) now s).0
  store-Agrees = elim (Bool-cases (leb k (length (in_window w now (s actor ++ now ∷ []))))) [
    | inl full ↦ rw (store_full (rw recent-eq-in_window full), full) (refl, reset-Agrees)
    | inr few ↦ rw (store_few (rw recent-eq-in_window few), few) (refl, kept-Agrees)
  ]

module _ (k w : ℕ) where
  step-Agrees :
      (a : String) (now last : ℕ) (d : BurstDetector) (s : Log)
      → Agrees k w last d s
      → last ≤ now
      → ((record_event a now d).1 ≡ (spec_step k w a now s).1)
        × Agrees k w now (record_event a now d).0 (spec_step k w a now s).0
  unfolding record_event spec_step
  step-Agrees a now last d s g le = elim (Bool-cases (truthy a)) [
    | inl named ↦ rw named (store-Agrees k w last now a d s g le)
    | inr empty ↦ rw empty (refl, Agrees-later k w last now d s g le)
  ]

  -- On any sequence of failures of any actors, with a clock that does not run backwards, `record`
  -- alerts exactly when the specification does: when the failures of that actor since its last
  -- alert, counted over the whole history, reach `k` in the window `w`. The specification keeps
  -- every failure and never drops one; the two start from states that agree, such as new ones.
  pub run-spec_run :
      (es : List (String × ℕ)) (last : ℕ) (d : BurstDetector) (s : Log)
      → Agrees k w last d s
      → Rising last es
      → run es d ≡ spec_run k w es s
  unfolding run spec_run
  run-spec_run [] last d s g up = refl
  run-spec_run ((a, now) ∷ es) last d s g (le, up) =
      let (same, g') = step-Agrees a now last d s g le in
      rw same (
        ap (λ r. (spec_step k w a now s).1 ∷ r)
          (run-spec_run es now (record_event a now d).0 (spec_step k w a now s).0 g' up))
