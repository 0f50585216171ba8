-- ===== src/Notifications/Digest/Spec.antt =====
-- The digests against a specification that keeps every event (notifier.py).
use auditlens.Prelude.{
  ◌≡◌, refl, ap, ap₂, Bool, not, ◌&&◌, Option, some, List, [], ◌∷◌, ◌++◌, String, arith, str_eq,
  eq_iff, keep_last, keep_last-append, Bool-cases, inl, inr, if◌then◌else◌,
}
use auditlens.Prelude.Eq.{string_eq}
use auditlens.Prelude.Assoc.{lookup, lookup_or, insert, lookup-insert, lookup_or-insert}
use auditlens.Notifications.{Destination}
use auditlens.Notifications.Digest.{
  Snapshot, Digests, buffer_max, append_snapshot, Clock, sent_on, may_send, DigestTask, task_of,
  take_buffer, poll_one, maybe_send_digests,
}

-- An accepted event, or a pass of the timer over the destinations.
pub data Op : Type 0 where
  append : String → Snapshot → Op
  poll : Clock → List Destination → Op

-- The digests that a sequence of operations sends.
unfoldable pub digests : List Op → Digests → List DigestTask
digests [] s = []
digests (append name snapshot ∷ ops) s = digests ops (append_snapshot name snapshot s)
digests (poll now destinations ∷ ops) s =
    (maybe_send_digests now destinations s).1
    ++ digests ops (maybe_send_digests now destinations s).0

-- For each name, all events since its last digest, and the day of that digest.
pub record History : Type 0 where
  pub events : String → List Snapshot
  pub last : String → Option String

abbrev pub update {ℓ} : {A : Type ℓ} → (String → A) → String → A → String → A
update f name a j = if str_eq name j then a else f j

abbrev pub spec_append : String → Snapshot → History → History
spec_append name snapshot h = record h {
  events = update h.events name (h.events name ++ snapshot ∷ []);
}

abbrev pub spec_take : String → String → History → History
spec_take name today h = record {
  events = update h.events name [];
  last = update h.last name (some today);
}

-- A digest of the last thousand events, once a day.
pub spec_poll_one : Clock → Destination → History → History × List DigestTask
spec_poll_one now destination h =
    let name = destination.name in
    if may_send now destination && not (sent_on now.today (h.last name))
    then (spec_take name now.today h, task_of name (keep_last buffer_max (h.events name)) now.today)
    else (h, [])

pub spec_poll : Clock → List Destination → History → History × List DigestTask
spec_poll now [] h = (h, [])
spec_poll now (destination ∷ rest) h = (
  (spec_poll now rest (spec_poll_one now destination h).0).0,
  (spec_poll_one now destination h).1 ++ (spec_poll now rest (spec_poll_one now destination h).0).1,
)

pub spec_digests : List Op → History → List DigestTask
spec_digests [] h = []
spec_digests (append name snapshot ∷ ops) h = spec_digests ops (spec_append name snapshot h)
spec_digests (poll now destinations ∷ ops) h =
    (spec_poll now destinations h).1 ++ spec_digests ops (spec_poll now destinations h).0

-- The buffers hold the last events of the history.
pub record Agrees (s : Digests) (h : History) : Type 0 where
  pub kept : (j : String) → lookup_or [] j s.buffer ≡ keep_last buffer_max (h.events j)
  pub day : (j : String) → lookup j s.last_sent ≡ h.last j

module _ (s : Digests) (h : History) (g : Agrees s h) where
  append-Agrees :
      (name : String) (snapshot : Snapshot)
      → Agrees (append_snapshot name snapshot s) (spec_append name snapshot h)
  unfolding append_snapshot
  append-Agrees name snapshot = record { kept = kept_after; day = g.day }
    where
      kept_after :
          (j : String)
          → lookup_or [] j (
              insert name
                (keep_last buffer_max (lookup_or [] name s.buffer ++ snapshot ∷ []))
                s.buffer)
            ≡ keep_last buffer_max (update h.events name (h.events name ++ snapshot ∷ []) j)
      kept_after j = ground (
        arith,
        eq_iff name j,
        lookup_or-insert [] name j
            (keep_last buffer_max (lookup_or [] name s.buffer ++ snapshot ∷ [])) s.buffer,
        g.kept name,
        g.kept j,
        keep_last-append buffer_max (h.events name) snapshot,
      )

  take-Agrees : (name today : String) → Agrees (take_buffer name today s) (spec_take name today h)
  unfolding take_buffer
  take-Agrees name today = record {
    kept = λ j. ground (arith, lookup_or-insert [] name j [] s.buffer, g.kept j);
    day = λ j. ground (arith, lookup-insert name j today s.last_sent, g.day j);
  }

-- The same tasks, and states that still agree.
record Step (r : Digests × List DigestTask) (q : History × List DigestTask) : Type 0 where
  agrees : Agrees r.0 q.0
  same : r.1 ≡ q.1

poll_one-Step :
    (now : Clock) (destination : Destination) (s : Digests) (h : History)
    → Agrees s h
    → Step (poll_one now destination s) (spec_poll_one now destination h)
unfolding poll_one spec_poll_one
poll_one-Step now destination s h g = elim (Bool-cases due) [
  | inl yes_due ↦ rw (ap guard (g.day name)) rw yes_due (record {
    agrees = take-Agrees s h g name now.today;
    same = ap (λ es. task_of name es now.today) (g.kept name);
  })
  | inr no_due ↦ rw (ap guard (g.day name)) rw no_due (record { agrees = g; same = refl })
]
  where
    name : String
    name = destination.name

    guard : Option String → Bool
    guard last = may_send now destination && not (sent_on now.today last)

    due : Bool
    due = guard (h.last name)

poll-Step :
    (now : Clock) (destinations : List Destination) (s : Digests) (h : History)
    → Agrees s h
    → Step (maybe_send_digests now destinations s) (spec_poll now destinations h)
unfolding maybe_send_digests spec_poll
poll-Step now [] s h g = record { agrees = g; same = refl }
poll-Step now (destination ∷ rest) s h g =
    let first : Step (poll_one now destination s) (spec_poll_one now destination h) =
      poll_one-Step now destination s h g in
    let others : Step (maybe_send_digests now rest (poll_one now destination s).0)
        (spec_poll now rest (spec_poll_one now destination h).0) =
      poll-Step now rest _ _ first.agrees in
    record { agrees = others.agrees; same = ap₂ (λ a b. a ++ b) first.same others.same }

-- Whatever events come and whenever the timer passes, the digests sent are those of a specification
-- that keeps every event: one a day for each name, once its time is reached, with the last thousand
-- events since the digest before. The two start from states that agree, such as new ones.
pub digests-spec_digests :
    (ops : List Op) (s : Digests) (h : History) → Agrees s h → digests ops s ≡ spec_digests ops h
unfolding digests spec_digests
digests-spec_digests [] s h g = refl
digests-spec_digests (append name snapshot ∷ ops) s h g =
    digests-spec_digests ops _ _ (append-Agrees s h g name snapshot)
digests-spec_digests (poll now destinations ∷ ops) s h g =
    let step : Step (maybe_send_digests now destinations s) (spec_poll now destinations h) =
      poll-Step now destinations s h g in
    ap₂ (λ a b. a ++ b) step.same (digests-spec_digests ops _ _ step.agrees)
