-- ===== src/Notifications/Duplicates.antt =====
-- `_check_and_record_dedup` and `_prune_dedup_locked` (notifier.py), with one reading of the clock
-- for each call, and a specification that never prunes.
use auditlens.Prelude.{
  ℕ, ◌+◌, ◌≤◌, ◌<◌, ◌≡◌, refl, ◌∙◌, Bool, true, false, not, ◌&&◌, Option, none, some, List, [], ◌∷◌,
  String, arith, ltb, leb, ◌==◌, keep_if, Bool-cases, inl, inr, if◌then◌else◌,
}
use auditlens.Prelude.Eq.{Eq, string_eq, pair_eq}
use auditlens.Prelude.Assoc.{
  Dict, lookup, insert, Distinct, lookup-insert, keep_if-Distinct, insert-Distinct, lookup-keep_if,
}

-- the fingerprint of an event and the name of a destination
abbrev pub Key : Type 0
Key = String × String

-- `_dedup` and `_call_count`
pub record Duplicates : Type 0 where
  pub dedup : Dict Key ℕ
  pub call_count : ℕ

abbrev dedup_window : ℕ
dedup_window = 300

abbrev prune_every : ℕ
prune_every = 1000

-- `last and (time.time() - last) < DEDUP_WINDOW_SECONDS`
abbrev pub is_repeat : ℕ → Option ℕ → Bool
is_repeat now none = false
is_repeat now (some last) = not (last == 0) && ltb now (last + 300)

-- `_prune_dedup_locked`
unfoldable pub prune_dedup : ℕ → Dict Key ℕ → Dict Key ℕ
prune_dedup now dedup = keep_if (λ e. not (ltb (e.1 + 300) now)) dedup

unfoldable pub record_dedup : Key → ℕ → Duplicates → Duplicates
record_dedup key now d =
    let recorded = insert key now d.dedup in
    if leb prune_every (d.call_count + 1)
    then record { dedup = prune_dedup now recorded; call_count = 0 }
    else record { dedup = recorded; call_count = d.call_count + 1 }

-- `_check_and_record_dedup`: the new state, and whether the event repeats
unfoldable pub check_dedup : Key → ℕ → Duplicates → Duplicates × Bool
check_dedup key now d =
    if is_repeat now (lookup key d.dedup) then (d, true) else (record_dedup key now d, false)

abbrev pub Requests : Type 0
Requests = List (Key × ℕ)

-- The results of the check over a sequence of calls.
unfoldable pub repeats : Requests → Duplicates → List Bool
repeats [] d = []
repeats ((key, now) ∷ rs) d = (check_dedup key now d).1 ∷ repeats rs (check_dedup key now d).0

-- When each key was last let through.
abbrev pub LastSent : Type 0
LastSent = Key → Option ℕ

abbrev pub key_eq : Eq Key
key_eq = pair_eq

abbrev pub note_sent : Key → ℕ → LastSent → LastSent
note_sent key now l j = if key_eq.beq key j then some now else l j

-- An event repeats when its key was let through less than the window ago.
pub spec_repeats : Requests → LastSent → List Bool
spec_repeats [] l = []
spec_repeats ((key, now) ∷ rs) l =
    let quiet = spec_repeats rs l in
    let loud = spec_repeats rs (note_sent key now l) in
    if is_repeat now (l key) then true ∷ quiet else false ∷ loud

abbrev pub Rising : ℕ → Requests → Type 0
Rising last [] = Unit
Rising last ((key, now) ∷ rs) = (last ≤ now) × Rising now rs

-- The kept entries answer every later question as the full record does.
pub record Agrees (last : ℕ) (d : Duplicates) (l : LastSent) : Type 0 where
  pub distinct : Distinct d.dedup
  pub same :
      (j : Key) (now : ℕ) → last ≤ now → is_repeat now (lookup j d.dedup) ≡ is_repeat now (l j)

is_repeat-prune_dedup :
    (now later : ℕ) (j : Key) (d : Dict Key ℕ)
    → Distinct d
    → now ≤ later
    → is_repeat later (lookup j (prune_dedup now d)) ≡ is_repeat later (lookup j d)
unfolding prune_dedup
is_repeat-prune_dedup now later j d h le =
    ground (arith, lookup-keep_if (λ e. not (ltb (e.1 + 300) now)) j d h)

module _ (last now : ℕ) (key : Key) (d : Duplicates) (l : LastSent) (g : Agrees last d l)
    (le : last ≤ now) where
  later-Agrees : Agrees now d l
  later-Agrees = record { distinct = g.distinct; same = λ j later h. g.same j later (omega arith) }

  insert-Agrees :
      (count : ℕ)
      → Agrees now
          (record { dedup = insert key now d.dedup; call_count = count })
          (note_sent key now l)
  insert-Agrees count = record {
    distinct = insert-Distinct key now d.dedup g.distinct;
    same = λ j later h. ground (arith, lookup-insert key j now d.dedup, g.same j later);
  }

prune_dedup-Agrees :
    (now : ℕ) (d : Duplicates) (l : LastSent)
    → Agrees now d l
    → Agrees now (record { dedup = prune_dedup now d.dedup; call_count = 0 }) l
unfolding prune_dedup
prune_dedup-Agrees now d l g = record {
  distinct = (keep_if-Distinct _ d.dedup g.distinct);
  same = λ j later h. is_repeat-prune_dedup now later j d.dedup g.distinct h ∙ g.same j later h;
}

record_dedup-Agrees :
    (last now : ℕ) (key : Key) (d : Duplicates) (l : LastSent)
    → Agrees last d l
    → last ≤ now
    → Agrees now (record_dedup key now d) (note_sent key now l)
unfolding record_dedup
record_dedup-Agrees last now key d l g le = elim (Bool-cases (leb prune_every (d.call_count + 1))) [
  | inl full ↦ rw full (prune_dedup-Agrees now _ _ (insert-Agrees last now key d l g le 0))
  | inr room ↦ rw room (insert-Agrees last now key d l g le (d.call_count + 1))
]

-- What a check leaves, at the time of the check.
module _ (now : ℕ) (key : Key) (d : Duplicates) (distinct : Distinct d.dedup) where
  self-Agrees : Agrees now d (λ j. lookup j d.dedup)
  self-Agrees = record { distinct = distinct; same = λ j later h. refl }

  recorded-Agrees : Agrees now (record_dedup key now d) (note_sent key now (λ j. lookup j d.dedup))
  recorded-Agrees = record_dedup-Agrees now now key d _ self-Agrees (omega arith)

  pub check_dedup-Distinct : Distinct (check_dedup key now d).0.dedup
  unfolding check_dedup
  check_dedup-Distinct = elim (Bool-cases (is_repeat now (lookup key d.dedup))) [
    | inl again ↦ rw again distinct
    | inr first ↦ rw first recorded-Agrees.distinct
  ]

  pub check_dedup-lookup :
      (j : Key)
      → 0 < now
      → is_repeat now (lookup j (check_dedup key now d).0.dedup)
        ≡ (if key_eq.beq key j then true else is_repeat now (lookup j d.dedup))
  unfolding check_dedup
  check_dedup-lookup j h =
      ground (arith, key_eq.beq_iff key j, recorded-Agrees.same j now (omega arith))

pub check_dedup-answer :
    (key : Key) (now : ℕ) (d : Duplicates)
    → (check_dedup key now d).1 ≡ is_repeat now (lookup key d.dedup)
unfolding check_dedup
check_dedup-answer key now d = ground arith

-- Over any sequence of checks with a clock that does not run back, pruning is not seen: an event
-- repeats exactly when its fingerprint was let through to that destination under 300 seconds ago.
-- The table and the specification start from states that agree, such as empty ones.
pub repeats-spec_repeats :
    (rs : Requests) (last : ℕ) (d : Duplicates) (l : LastSent)
    → Agrees last d l
    → Rising last rs
    → repeats rs d ≡ spec_repeats rs l
unfolding repeats check_dedup spec_repeats
repeats-spec_repeats [] last d l g r = refl
repeats-spec_repeats ((key, now) ∷ rs) last d l g r = ground (
  arith,
  g.same key now r.0,
  repeats-spec_repeats rs now d l (later-Agrees last now key d l g r.0) r.1,
  repeats-spec_repeats rs now (record_dedup key now d) (note_sent key now l)
      (record_dedup-Agrees last now key d l g r.0) r.1,
)
