-- ===== src/Baseline/Seen.antt =====
-- When an address is new, and how often there is an alert about it (ip_baseline_tracker.py,
-- audit_forwarder.py).
use auditlens.Prelude.{
  ℕ, ◌+◌, ◌≤◌, ◌≡◌, Bool, true, false, ◌&&◌, Option, List, [], ◌∷◌, String, arith, if◌then◌else◌,
}
use auditlens.Prelude.Eq.{string_eq, pair_eq}
use auditlens.Baseline.{
  Pair, pair_key, Tracker, is_seen, record_pair, AlertFacts, IpWatch, watch_ip,
}

-- An event as the processor hands it on: its pair, its time and what is looked up for it.
abbrev pub Events : Type 0
Events = List (Pair × ℕ × AlertFacts)

-- How many alerts about a pair are still possible: none once it has been seen.
abbrev pub room : Bool → ℕ
room b = if b then 0 else 1

module _ (parse_ip : String → Option ℕ) (window : ℕ) where
  -- The alerts about a pair over a sequence of events.
  unfoldable pub alerts : Pair → Events → IpWatch → ℕ
  alerts j [] w = 0
  alerts j ((key, now, facts) ∷ es) w =
      (if (watch_ip parse_ip window now key facts w).1 && pair_key.beq key j then 1 else 0)
      + alerts j es (watch_ip parse_ip window now key facts w).0

  record_pair-seen :
      (key j : Pair) (now : ℕ) (t : Tracker)
      → (is_seen j (record_pair parse_ip key now t).0.seen ≡ (
          if (record_pair parse_ip key now t).1 && pair_key.beq key j
          then true
          else is_seen j t.seen))
        × ((if (record_pair parse_ip key now t).1 && pair_key.beq key j
              then is_seen j t.seen
              else false)
            ≡ false)
  unfolding record_pair
  record_pair-seen (actor, ip) j now t =
      ground (arith, pair_key.beq_iff j (actor, ip), pair_key.beq_iff (actor, ip) j)

  watch_ip-room :
      (key j : Pair) (now : ℕ) (facts : AlertFacts) (w : IpWatch)
      → (if (watch_ip parse_ip window now key facts w).1 && pair_key.beq key j then 1 else 0)
          + room (is_seen j (watch_ip parse_ip window now key facts w).0.tracker.seen)
        ≤ room (is_seen j w.tracker.seen)
  unfolding watch_ip
  watch_ip-room key j now facts w = ground (arith, record_pair-seen key j now w.tracker)

  -- However often an actor comes from an address, there is at most one alert about the pair, and
  -- none when the tracker has seen it before.
  pub alerts-le :
      (j : Pair) (es : Events) (w : IpWatch) → alerts j es w ≤ room (is_seen j w.tracker.seen)
  unfolding alerts
  alerts-le j [] w = omega arith
  alerts-le j ((key, now, facts) ∷ es) w = omega (
    arith,
    watch_ip-room key j now facts w,
    alerts-le j es (watch_ip parse_ip window now key facts w).0,
  )
