-- ===== src/Baseline/Patterns.antt =====
-- src/product/pattern_detector.py: one write to the database when an actor's action on a resource
-- exceeds a count in the window. The hash of the key is left out: a key is the
-- text that is hashed.
pub mod Window
use Prim.Native.Char.{code}
use Prim.Native.String.{◌++◌ as cat}
use auditlens.Prelude.{
  right_slashes, ℕ, ◌+◌, Bool, true, false, not, ◌&&◌, ◌||◌, Option, none, some, List, [], ◌∷◌,
  ◌++◌, String, ltb, ◌==◌, length, keep_if, has_prefix, or_else, truthy, if◌then◌else◌,
}
use auditlens.Prelude.Eq.{Eq, string_eq, pair_eq}
use auditlens.Prelude.Assoc.{Dict, lookup_or, insert}

-- the text of a key
abbrev pub PatternKey : Type 0
PatternKey = String

abbrev pub pattern_eq : Eq PatternKey
pattern_eq = string_eq

-- `_pattern_key`
pub pattern_key : String → String → String → PatternKey
pattern_key actor action resource = cat actor (cat ":" (cat action (cat ":" resource)))

-- the fields that are read; a missing one is empty
pub record PatternEvent : Type 0 where
  pub actor : String
  pub principal : String
  pub principal_normalized : String
  pub action : String
  pub method_name : String
  pub resource_name : String
  pub resource_name_camel : String
  pub authz_resource_name : String

pub record PatternItem : Type 0 where
  pub key : PatternKey
  pub count : ℕ
  pub ts : ℕ

-- `_counts` and the queue
pub record PatternDetector : Type 0 where
  pub counts : Dict PatternKey (List ℕ)
  pub queue : List PatternItem

abbrev pub window_seconds : ℕ
window_seconds = 600

abbrev pub threshold : ℕ
threshold = 10

abbrev queue_max : ℕ
queue_max = 1000

-- the part of a text after the last character with a code, if there is one
abbrev after_last_or : Option String → String → Bool → Option String
after_last_or (some found) s here = some found
after_last_or none s here = if here then some s else none

after_last : ℕ → String → Option String
after_last c String.[] = none
after_last c (String.◌∷◌ d s) = after_last_or (after_last c s) s (code d == c)

abbrev or_whole : String → Option String → String
or_whole s none = s
or_whole s (some tail) = tail

abbrev last_part : String → String
last_part s = or_whole s (after_last 47 s)

-- the resource of a CRN: the value of its last segment
pub short_resource : String → String
short_resource resource =
    let last = last_part (right_slashes resource) in
    if has_prefix "crn://" resource then or_whole last (after_last 61 last) else resource

abbrev actor_of : PatternEvent → String
actor_of e = or_else e.actor (or_else e.principal e.principal_normalized)

abbrev action_of : PatternEvent → String
action_of e = or_else e.action e.method_name

abbrev resource_of : PatternEvent → String
resource_of e =
    short_resource (or_else e.resource_name (or_else e.resource_name_camel e.authz_resource_name))

-- `[t for t in timestamps if now - t < self.WINDOW_SECONDS]`
unfoldable pub prune : ℕ → List ℕ → List ℕ
prune now timestamps = keep_if (λ t. ltb now (t + window_seconds)) timestamps

-- the timestamps of a key with the new one
unfoldable pub counted : PatternKey → ℕ → PatternDetector → List ℕ
counted key now d = prune now (lookup_or [] key d.counts) ++ now ∷ []

abbrev put_nowait : PatternItem → List PatternItem → List PatternItem
put_nowait item queue = if ltb (length queue) queue_max then queue ++ item ∷ [] else queue

-- The new state, and whether the threshold is crossed: then a write is queued, if there is room.
unfoldable pub record_key : PatternKey → ℕ → PatternDetector → PatternDetector × Bool
record_key key now d =
    let timestamps = counted key now d in
    let crosses = length timestamps == threshold + 1 in
    (
      record {
        counts = insert key timestamps d.counts;
        queue =
            if crosses
            then put_nowait (record { key = key; count = length timestamps; ts = now }) d.queue
            else d.queue;
      },
      crosses,
    )

-- `record`
unfoldable pub record_pattern : PatternEvent → ℕ → PatternDetector → PatternDetector × Bool
record_pattern e now d =
    if truthy (actor_of e) && truthy (action_of e)
    then record_key (pattern_key (actor_of e) (action_of e) (resource_of e)) now d
    else (d, false)

-- the upsert of the writer: a new row, or one more window
pub record PatternRow : Type 0 where
  pub first_seen_at : ℕ
  pub last_seen_at : ℕ
  pub occurrence_count : ℕ
  pub window_count : ℕ

abbrev updated : PatternItem → Option PatternRow → PatternRow
updated item none = record {
  first_seen_at = item.ts;
  last_seen_at = item.ts;
  occurrence_count = item.count;
  window_count = 1;
}
updated item (some row) = record row {
  last_seen_at = item.ts;
  occurrence_count = row.occurrence_count + 1;
  window_count = row.window_count + 1;
}

-- `_upsert_pattern`, on the table as a function of the keys
pub upsert_pattern : PatternItem → (PatternKey → Option PatternRow) → PatternKey → Option PatternRow
upsert_pattern item table key =
    if pattern_eq.beq item.key key then some (updated item (table key)) else table key
