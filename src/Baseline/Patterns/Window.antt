-- ===== src/Baseline/Patterns/Window.antt =====
-- The pattern detector against a specification that forgets nothing (pattern_detector.py).
use auditlens.Prelude.{
  ℕ, ◌+◌, ◌≤◌, ◌≡◌, refl, sym, ap, ap₂, ◌∙◌, Bool, List, [], ◌∷◌, ◌++◌, arith, ltb, ◌==◌, length,
  keep_if-append, length-append, if◌then◌else◌,
}
use auditlens.Prelude.Eq.{string_eq, pair_eq}
use auditlens.Prelude.Assoc.{lookup_or, lookup_or-insert}
use auditlens.Baseline.Patterns.{
  PatternKey, pattern_eq, PatternDetector, prune, counted, record_key,
}

-- Every event of each key, with its time.
abbrev pub Log : Type 0
Log = PatternKey → List ℕ

abbrev pub add : PatternKey → ℕ → Log → Log
add key now log j = if pattern_eq.beq key j then log j ++ now ∷ [] else log j

abbrev pub Calls : Type 0
Calls = List (PatternKey × ℕ)

-- Whether each call crosses the threshold.
unfoldable pub crossings : Calls → PatternDetector → List Bool
crossings [] d = []
crossings ((key, now) ∷ calls) d =
    (record_key key now d).1 ∷ crossings calls (record_key key now d).0

-- How many times are less than ten minutes ago.
abbrev recent : ℕ → List ℕ → ℕ
recent now [] = 0
recent now (t ∷ ts) = (if ltb now (t + 600) then 1 else 0) + recent now ts

-- It does when it is the eleventh event of its key within the last 600 seconds.
pub spec_crossings : Calls → Log → List Bool
spec_crossings [] log = []
spec_crossings ((key, now) ∷ calls) log =
    (recent now (log key) + 1 == 11) ∷ spec_crossings calls (add key now log)

abbrev pub Rising : ℕ → Calls → Type 0
Rising last [] = Unit
Rising last ((key, now) ∷ calls) = (last ≤ now) × Rising now calls

-- The kept times are those of the log that a later call can still count.
pub record Agrees (last : ℕ) (d : PatternDetector) (log : Log) : Type 0 where
  pub same :
      (j : PatternKey) (now : ℕ)
      → last ≤ now
      → prune now (lookup_or [] j d.counts) ≡ prune now (log j)

prune-prune :
    (now later : ℕ) (ts : List ℕ) → now ≤ later → prune later (prune now ts) ≡ prune later ts
unfolding prune
prune-prune now later [] h = refl
prune-prune now later (t ∷ ts) h = ground (arith, prune-prune now later ts h)

length-prune : (now : ℕ) (ts : List ℕ) → length (prune now ts) ≡ recent now ts
unfolding prune
length-prune now [] = refl
length-prune now (t ∷ ts) = ground (arith, length-prune now ts)

prune-append : (now : ℕ) (xs ys : List ℕ) → prune now (xs ++ ys) ≡ prune now xs ++ prune now ys
unfolding prune
prune-append now xs ys = keep_if-append _ xs ys

module _ (last now : ℕ) (key : PatternKey) (d : PatternDetector) (log : Log) (g : Agrees last d log)
    (le : last ≤ now) where
  counted_later :
      (later : ℕ)
      → now ≤ later
      → prune later (counted key now d) ≡ prune later (log key ++ now ∷ [])
  unfolding counted
  counted_later later h =
      prune-append later (prune now (lookup_or [] key d.counts)) (now ∷ [])
      ∙ ap (λ ts. ts ++ prune later (now ∷ []))
          (prune-prune now later (lookup_or [] key d.counts) h ∙ g.same key later (omega arith))
      ∙ sym (prune-append later (log key) (now ∷ []))

  record_key-Agrees : Agrees now (record_key key now d).0 (add key now log)
  unfolding record_key
  record_key-Agrees = record {
    same = λ j later h. ground (
      arith,
      pattern_eq.beq_iff key j,
      lookup_or-insert [] key j (counted key now d) d.counts,
      counted_later later h,
      g.same j later (omega arith),
    );
  }

  crosses_same : (record_key key now d).1 ≡ (recent now (log key) + 1 == 11)
  unfolding record_key counted
  crosses_same =
      ap (λ n. n == 11) (length-append (prune now (lookup_or [] key d.counts)) (now ∷ []))
      ∙ ap (λ ts. length ts + 1 == 11) (g.same key now le)
      ∙ ap (λ n. n + 1 == 11) (length-prune now (log key))

-- Over any sequence of events with a clock that does not run back, an event is found to cross the
-- threshold exactly when it is the eleventh of its key within the last 600 seconds, counted over all
-- events ever seen. The detector starts from a state that agrees with these events, such as a new one
-- with none.
pub crossings-spec_crossings :
    (calls : Calls) (last : ℕ) (d : PatternDetector) (log : Log)
    → Agrees last d log
    → Rising last calls
    → crossings calls d ≡ spec_crossings calls log
unfolding crossings spec_crossings
crossings-spec_crossings [] last d log g r = refl
crossings-spec_crossings ((key, now) ∷ calls) last d log g r =
    ap₂ (λ b bs. b ∷ bs) (crosses_same last now key d log g r.0)
      (crossings-spec_crossings calls now _ _ (record_key-Agrees last now key d log g r.0) r.1)
