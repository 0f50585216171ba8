-- ===== src/Notifications/Notify/Delivery.antt =====
-- To whom `notify` sends an event (notifier.py).
use auditlens.Prelude.{
  ℕ, ◌+◌, ◌≤◌, ◌<◌, ◌≡◌, refl, Bool, true, not, ◌&&◌, any_of, ltb, Option, none, some, List, [],
  ◌∷◌, ◌++◌, String, arith, str_eq, eq_iff, Bool-cases, inl, inr, if◌then◌else◌,
}
use auditlens.Prelude.Eq.{string_eq, pair_eq}
use auditlens.Prelude.Assoc.{lookup, Distinct}
use auditlens.Notifications.{Event, Destination, should_notify, some_in}
use auditlens.Notifications.Messages.{event_fingerprint}
use auditlens.Notifications.Duplicates.{
  is_repeat, key_eq, check_dedup-answer, check_dedup-lookup, check_dedup-Distinct,
}
use auditlens.Notifications.Rate.{Rates, Summary, consume_slot}
use auditlens.Notifications.Notify.{
  Notifier, Now, Task, send_event, send_burst, burst_tasks, deliver, limit_rate, turn, turns,
  sample_of, notify_loaded, with_timers,
}

-- the deliveries of events to destinations of a name
pub sends : String → List Task → ℕ
sends name [] = 0
sends name (send_event event d ∷ tasks) = (if str_eq d.name name then 1 else 0) + sends name tasks
sends name (send_burst d summary ∷ tasks) = sends name tasks

sends-append :
    (name : String) (xs ys : List Task) → sends name (xs ++ ys) ≡ sends name xs + sends name ys
unfolding sends
sends-append name [] ys = omega arith
sends-append name (send_event event d ∷ xs) ys = omega (arith, sends-append name xs ys)
sends-append name (send_burst d summary ∷ xs) ys = sends-append name xs ys

sends-burst_tasks :
    (name : String) (d : Destination) (o : Option Summary) → sends name (burst_tasks d o) ≡ 0
unfolding sends
sends-burst_tasks name d none = refl
sends-burst_tasks name d (some summary) = refl

-- whether a destination of the name would be told of a duplicate
abbrev pub blocked : Now → String → String → Notifier → Bool
blocked now fingerprint name n = is_repeat now.wall (lookup (fingerprint, name) n.duplicates.dedup)

abbrev pub room : Bool → ℕ
room b = if b then 0 else 1

module _ (now : Now) (event : Event) (fingerprint : String) (later : 0 < now.wall)
    (name : String) where
  deliver-room :
      (d : Destination) (n : Notifier)
      → Distinct n.duplicates.dedup
      → sends name (deliver now event fingerprint d n).1
          + room (blocked now fingerprint name (deliver now event fingerprint d n).0)
        ≡ room (blocked now fingerprint name n)
  unfolding deliver sends
  deliver-room d n h = ground (
    arith,
    key_eq.beq_iff (fingerprint, d.name) (fingerprint, name),
    eq_iff d.name name,
    check_dedup-answer (fingerprint, d.name) now.wall n.duplicates,
    check_dedup-lookup now.wall (fingerprint, d.name) n.duplicates h (fingerprint, name) later,
  )

  limit_rate-room :
      (d : Destination) (n : Notifier)
      → Distinct n.duplicates.dedup
      → sends name (limit_rate now event fingerprint d n).1
          + room (blocked now fingerprint name (limit_rate now event fingerprint d n).0)
        ≡ room (blocked now fingerprint name n)
  unfolding limit_rate
  limit_rate-room d n h = ground (
    arith,
    deliver-room d (record n { rates = slot.0 }) h,
    sends-append name (burst_tasks d slot.2)
        (deliver now event fingerprint d (record n { rates = slot.0 })).1,
    sends-burst_tasks name d slot.2,
  )
    where
      slot : Rates × Bool × Option Summary
      slot = consume_slot d.name d.rate_limit_per_minute (sample_of event) now.monotonic n.rates

  turn-room :
      (d : Destination) (n : Notifier)
      → Distinct n.duplicates.dedup
      → sends name (turn now event fingerprint d n).1
          + room (blocked now fingerprint name (turn now event fingerprint d n).0)
        ≡ room (blocked now fingerprint name n)
  unfolding turn sends
  turn-room d n h = ground (arith, deliver-room d n h, limit_rate-room d n h)

module _ (now : Now) (event : Event) (fingerprint : String) where
  -- The duplicates' keys stay distinct.
  turn-Distinct :
      (d : Destination) (n : Notifier)
      → Distinct n.duplicates.dedup
      → Distinct (turn now event fingerprint d n).0.duplicates.dedup
  unfolding turn limit_rate deliver
  turn-Distinct d n h =
      ground (arith, check_dedup-Distinct now.wall (fingerprint, d.name) n.duplicates h)

  turns-room :
      (name : String) (ds : List Destination) (n : Notifier)
      → 0 < now.wall
      → Distinct n.duplicates.dedup
      → sends name (turns now event fingerprint ds n).1
          + room (blocked now fingerprint name (turns now event fingerprint ds n).0)
        ≡ room (blocked now fingerprint name n)
  unfolding turns sends
  turns-room name [] n later h = omega arith
  turns-room name (d ∷ ds) n later h = omega (
    arith,
    turn-room now event fingerprint later name d n h,
    turns-room name ds (turn now event fingerprint d n).0 later (turn-Distinct d n h),
    sends-append name (turn now event fingerprint d n).1
        (turns now event fingerprint ds (turn now event fingerprint d n).0).1,
  )

some_in_any {ℓ} : {A : Type ℓ} (p : A → Bool) (xs : List A) → any_of p xs ≡ true → some_in xs ≡ true
some_in_any p [] h = h
some_in_any p (x ∷ xs) h = refl

-- A destination of the name that takes the event at once, without a limit.
abbrev pub takes_event : Event → String → Destination → Bool
takes_event event name d =
    str_eq d.name name
    && d.enabled
    && should_notify event d
    && not (str_eq d.mode "digest")
    && not (ltb 0 d.rate_limit_per_minute)

module _ (now : Now) (event : Event) (fingerprint : String) (later : 0 < now.wall)
    (name : String) where
  turn_blocks :
      (d : Destination) (n : Notifier)
      → Distinct n.duplicates.dedup
      → takes_event event name d ≡ true
      → blocked now fingerprint name (turn now event fingerprint d n).0 ≡ true
  unfolding turn deliver
  turn_blocks d n h t = ground (
    arith,
    key_eq.beq_iff (fingerprint, d.name) (fingerprint, name),
    eq_iff d.name name,
    check_dedup-lookup now.wall (fingerprint, d.name) n.duplicates h (fingerprint, name) later,
  )

  stays_blocked :
      (ds : List Destination) (n : Notifier)
      → Distinct n.duplicates.dedup
      → blocked now fingerprint name n ≡ true
      → blocked now fingerprint name (turns now event fingerprint ds n).0 ≡ true
  stays_blocked ds n h b = ground (arith, turns-room now event fingerprint name ds n later h)

  turns_block :
      (ds : List Destination) (n : Notifier)
      → Distinct n.duplicates.dedup
      → any_of (takes_event event name) ds ≡ true
      → blocked now fingerprint name (turns now event fingerprint ds n).0 ≡ true
  unfolding turns
  turns_block [] n h t = let no : ⊥ = ground (arith, t) in elim no [ ]
  turns_block (d ∷ ds) n h t = elim (Bool-cases (takes_event event name d)) [
    | inl takes ↦
        stays_blocked ds _ (turn-Distinct now event fingerprint d n h) (turn_blocks d n h takes)
    | inr other ↦ turns_block ds _ (turn-Distinct now event fingerprint d n h) (rw other at t)
  ]

-- One call starts at most one delivery for each name, and none when the event repeats for it; so
-- of two destinations with one name the second is not sent the event.
pub sends-notify_loaded-le :
    (now : Now) (event : Event) (n : Notifier) (name : String)
    → 0 < now.wall
    → Distinct n.duplicates.dedup
    → sends name (notify_loaded now event n).1 ≤ room (blocked now (event_fingerprint event) name n)
unfolding notify_loaded sends
sends-notify_loaded-le now event n name later h = ground (
  arith,
  turns-room now event (event_fingerprint event) name n.config.destinations (with_timers n) later h,
)

-- Exactly one delivery is started for a name when an enabled destination of that name matches the
-- event, takes events one by one and has no limit, unless the event repeats for the name. The wall
-- clock is past 0, and the table of duplicates has no key twice.
pub sends-notify_loaded :
    (now : Now) (event : Event) (n : Notifier) (name : String)
    → 0 < now.wall
    → Distinct n.duplicates.dedup
    → any_of (takes_event event name) n.config.destinations ≡ true
    → sends name (notify_loaded now event n).1 ≡ room (blocked now (event_fingerprint event) name n)
unfolding notify_loaded
sends-notify_loaded now event n name later h t = ground (
  arith,
  some_in_any (takes_event event name) n.config.destinations t,
  turns-room now event (event_fingerprint event) name n.config.destinations (with_timers n) later h,
  turns_block now event (event_fingerprint event) later name n.config.destinations (with_timers n) h
      t,
)
