-- ===== src/Notifications/Digest.antt =====
-- The daily digest: `_append_to_digest_buffer` and `_maybe_send_digests` (notifier.py). The thread
-- that sends a digest is a result. The lock is held where a buffer is read and emptied.
pub mod Spec
use Prim.Native.Nat.{◌-◌, ◌*◌}
use Prim.Native.Char.{Char, code}
use auditlens.Prelude.{
  ℕ, ◌+◌, Bool, true, false, not, ◌&&◌, ◌||◌, Option, none, some, List, [], ◌∷◌, ◌++◌, String, ltb,
  leb, ◌==◌, str_eq, keep_last, is_some, or_else, truthy, if◌then◌else◌,
}
use auditlens.Prelude.Eq.{string_eq}
use auditlens.Prelude.Assoc.{Dict, lookup, lookup_or, insert}
use auditlens.Notifications.{Event, Destination, get, action_of, actor_of, some_in}

pub record Snapshot : Type 0 where
  pub signal_type : String
  pub actor : String
  pub action : String
  pub resource : String
  pub risk_level : String
  pub timestamp : String

-- `_digest_buffer` and `_digest_last_sent`
pub record Digests : Type 0 where
  pub buffer : Dict String (List Snapshot)
  pub last_sent : Dict String String

abbrev pub buffer_max : ℕ
buffer_max = 1000

-- `_append_to_digest_buffer`
unfoldable pub append_snapshot : String → Snapshot → Digests → Digests
append_snapshot name snapshot s = record s {
  buffer =
      insert name (keep_last buffer_max (lookup_or [] name s.buffer ++ snapshot ∷ [])) s.buffer;
}

digit : Char → Option ℕ
digit c = if leb 48 (code c) && leb (code c) 57 then some (code c - 48) else none

two_digits : Option ℕ → Option ℕ → Option ℕ
two_digits (some a) (some b) = some (a * 10 + b)
two_digits _ _ = none

-- `$` matches at the end, or before a last newline
at_end : String → Bool
at_end String.[] = true
at_end (String.◌∷◌ c rest) = code c == 10 && not (truthy rest)

clock_time : Option ℕ → Bool → Option ℕ → Bool → Option (ℕ × ℕ)
clock_time (some hour) true (some minute) true =
    if ltb hour 24 && ltb minute 60 then some (hour, minute) else none
clock_time _ _ _ _ = none

-- `_DIGEST_TIME_RE` and the two numbers of a text that it matches
unfoldable pub schedule_time : String → Option (ℕ × ℕ)
unfolding digit two_digits at_end clock_time
schedule_time (String.◌∷◌ a (String.◌∷◌ b (String.◌∷◌ colon (String.◌∷◌ c (String.◌∷◌ d rest))))) =
    clock_time (two_digits (digit a) (digit b)) (code colon == 58) (two_digits (digit c) (digit d))
      (at_end rest)
schedule_time _ = none

-- `datetime.now(timezone.utc)`
pub record Clock : Type 0 where
  pub today : String
  pub hour : ℕ
  pub minute : ℕ

-- not `(now.hour, now.minute) < (target_h, target_m)`
abbrev pub reached : Clock → ℕ × ℕ → Bool
reached now (h, m) = not (ltb now.hour h || (now.hour == h && ltb now.minute m))

abbrev pub time_reached : Clock → Option (ℕ × ℕ) → Bool
time_reached now none = false
time_reached now (some time) = reached now time

abbrev pub sent_on : String → Option String → Bool
sent_on today none = false
sent_on today (some day) = str_eq day today

-- the guards of the loop over the destinations, but for the day of the last digest
unfoldable pub may_send : Clock → Destination → Bool
may_send now destination =
    str_eq destination.mode "digest"
    && destination.enabled
    && time_reached now (schedule_time destination.digest_schedule)

-- What the new thread is given, but for the destination's other fields.
pub record DigestTask : Type 0 where
  pub name : String
  pub events : List Snapshot
  pub date : String

abbrev pub task_of : String → List Snapshot → String → List DigestTask
task_of name [] today = []
task_of name (e ∷ events) today = record { name = name; events = e ∷ events; date = today } ∷ []

-- the part under the lock
unfoldable pub take_buffer : String → String → Digests → Digests
take_buffer name today s = record {
  buffer = insert name [] s.buffer;
  last_sent = insert name today s.last_sent;
}

-- one turn of the loop
unfoldable pub poll_one : Clock → Destination → Digests → Digests × List DigestTask
poll_one now destination s =
    let name = destination.name in
    if may_send now destination && not (sent_on now.today (lookup name s.last_sent))
    then (take_buffer name now.today s, task_of name (lookup_or [] name s.buffer) now.today)
    else (s, [])

-- `_maybe_send_digests`
unfoldable pub maybe_send_digests : Clock → List Destination → Digests → Digests × List DigestTask
maybe_send_digests now [] s = (s, [])
maybe_send_digests now (destination ∷ rest) s =
    let (s', tasks) = poll_one now destination s in
    let (s'', more) = maybe_send_digests now rest s' in (s'', tasks ++ more)
