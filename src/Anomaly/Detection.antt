-- ===== src/Anomaly/Detection.antt =====
-- The rate counter against a count of the whole history, and what every alert of `track_event`
-- says (rate_tracker.py).
use auditlens.Prelude.{
  ℕ, ◌+◌, ◌*◌, ◌≤◌, ◌≡◌, refl, sym, ap, ◌∙◌, Bool, true, false, List, [], ◌∷◌, ◌++◌, String, arith,
  ltb, leb, length, keep_if, All, All-append, if◌then◌else◌,
}
use mathlib.Core.List.{append-nil, append_assoc}
use auditlens.Anomaly.{AnomalyType, RateCounter, cleanup_events, add_event, Rate, get_rate}
use auditlens.Anomaly.Records.{Severity, AnomalyAlert, IpCache, RateTracker, TrackedEvent}
use auditlens.Anomaly.Tracker.{
  raise_alert, check_rate, track_activity, track_auth_failure, track_deletion, track_api_key_op,
  new_ip_alert, check_new_ip, track_event,
}

-- `add_event` once for each time.
unfoldable pub add_all : List ℕ → RateCounter → RateCounter
add_all [] c = c
add_all (t ∷ ts) c = add_all ts (add_event t c)

abbrev pub Rising : ℕ → List ℕ → ℕ → Type 0
Rising last [] now = last ≤ now
Rising last (t ∷ ts) now = (last ≤ t) × Rising t ts now

abbrev pub within : ℕ → ℕ → List ℕ → List ℕ
within w now ts = keep_if (λ t. ltb now (t + w)) ts

-- What an earlier clean-up drops, a later one would drop.
within-within :
    (w now later : ℕ) (ts us : List ℕ)
    → now ≤ later
    → within w later (within w now ts ++ us) ≡ within w later (ts ++ us)
within-within w now later [] us le = refl
within-within w now later (t ∷ ts) us le = ground (arith, within-within w now later ts us le)

Rising-le : (last : ℕ) (ts : List ℕ) (now : ℕ) → Rising last ts now → last ≤ now
Rising-le last [] now h = h
Rising-le last (t ∷ ts) now h = omega (arith, Rising-le t ts now h.1, h.0)

add_all-window : (ts : List ℕ) (c : RateCounter) → (add_all ts c).window_seconds ≡ c.window_seconds
unfolding add_all add_event cleanup_events
add_all-window [] c = refl
add_all-window (t ∷ ts) c = add_all-window ts (add_event t c)

add_all-within :
    (last now : ℕ) (ts : List ℕ) (c : RateCounter)
    → Rising last ts now
    → within c.window_seconds now (add_all ts c).events
      ≡ within c.window_seconds now (c.events ++ ts)
unfolding add_all cleanup_events add_event
add_all-within last now [] c h = ap (within c.window_seconds now) (sym (append-nil c.events))
add_all-within last now (t ∷ ts) c h =
    add_all-within t now ts (add_event t c) h.1
    ∙ within-within c.window_seconds t now (c.events ++ t ∷ []) ts (Rising-le t ts now h.1)
    ∙ ap (within c.window_seconds now) (append_assoc c.events (t ∷ []) ts)

get_rate-eq :
    (w now : ℕ) (c : RateCounter) (ts : List ℕ)
    → c.window_seconds ≡ w
    → within c.window_seconds now c.events ≡ ts
    → (get_rate now c).1 ≡ record { count = length ts; numerator = length ts * 60; denominator = w }
unfolding get_rate cleanup_events
get_rate-eq w now c ts hw he = cc (hw, he)

-- However often a counter cleaned up on the way, if the clock did not run backwards the count it
-- reports is that of all added times in the window that ends now, and the rate is sixty times that
-- over the length of the window.
pub get_rate-add_all :
    (w last now : ℕ) (ts : List ℕ)
    → Rising last ts now
    → (get_rate now (add_all ts (record { window_seconds = w; events = [] }))).1 ≡ record {
      count = length (within w now ts);
      numerator = length (within w now ts) * 60;
      denominator = w;
    }
get_rate-add_all w last now ts h =
    let c : RateCounter = record { window_seconds = w; events = [] } in
    get_rate-eq w now (add_all ts c) (within w now ts) (add_all-window ts c) (
      ap (λ v. within v now (add_all ts c).events) (add_all-window ts c)
      ∙ add_all-within last now ts c h)

-- The alert is about the event, and the reported count reaches the threshold.
abbrev pub IsJustified : TrackedEvent → AnomalyAlert → Type 0
IsJustified e a =
    (a.principal ≡ e.principal) × (a.source_ip ≡ e.client_ip) × (a.threshold ≤ a.rate.count)

record IsSound {C : Type 0} (e : TrackedEvent) (r : RateTracker C × List AnomalyAlert)
    : Type 0 where
  justified : All (IsJustified e) r.1

leb_le : (a b : ℕ) → leb a b ≡ true → a ≤ b
leb_le a b h = ground arith

zero_le : 0 ≤ 0
zero_le = omega arith

module _ {C : Type 0} (cache : IpCache C) (e : TrackedEvent) (now : ℕ) where
  -- both branches of a test
  all_if :
      (b : Bool) (x y : RateTracker C × List AnomalyAlert)
      → IsSound e x
      → IsSound e y
      → IsSound e (if b then x else y)
  all_if true x y hx hy = hx
  all_if false x y hx hy = hy

  when_true :
      (b : Bool) (x y : RateTracker C × List AnomalyAlert)
      → (b ≡ true → IsSound e x)
      → IsSound e y
      → IsSound e (if b then x else y)
  when_true true x y hx hy = hx refl
  when_true false x y hx hy = hy

  same_alerts :
      (r : RateTracker C × List AnomalyAlert) (t : RateTracker C) → IsSound e r → IsSound e (t, r.1)
  same_alerts r t h = record { justified = h.justified }

  no_alert : (t : RateTracker C) → IsSound e (t, [])
  no_alert t = record { justified = tt }

  raise_alert-IsJustified :
      (a : AnomalyAlert) (t : RateTracker C)
      → IsJustified e a
      → IsSound e (raise_alert cache a now t)
  unfolding raise_alert
  raise_alert-IsJustified a t h = record { justified = ground arith }

  check_rate-IsJustified :
      (kind : AnomalyType) (severity : Severity) (threshold : ℕ) (rate : Rate) (t : RateTracker C)
      → IsSound e (check_rate cache kind severity threshold e now rate t)
  unfolding check_rate
  check_rate-IsJustified kind severity threshold rate t =
      search (when_true, no_alert, raise_alert-IsJustified, leb_le)

  track_activity-IsJustified : (t : RateTracker C) → IsSound e (track_activity cache e now t)
  unfolding track_activity
  track_activity-IsJustified t = search (all_if, no_alert, check_rate-IsJustified)

  track_auth_failure-IsJustified :
      (t : RateTracker C) → IsSound e (track_auth_failure cache e now t)
  unfolding track_auth_failure
  track_auth_failure-IsJustified t = search (all_if, no_alert, check_rate-IsJustified)

  track_deletion-IsJustified : (t : RateTracker C) → IsSound e (track_deletion cache e now t)
  unfolding track_deletion
  track_deletion-IsJustified t = search (all_if, no_alert, check_rate-IsJustified)

  track_api_key_op-IsJustified : (t : RateTracker C) → IsSound e (track_api_key_op cache e now t)
  unfolding track_api_key_op
  track_api_key_op-IsJustified t = search (all_if, no_alert, check_rate-IsJustified)

  new_ip_alert-IsJustified :
      (known : List String) (t : RateTracker C) → IsSound e (new_ip_alert cache e now known t)
  unfolding new_ip_alert
  new_ip_alert-IsJustified known t = search (all_if, no_alert, raise_alert-IsJustified, zero_le)

  check_new_ip-IsJustified : (t : RateTracker C) → IsSound e (check_new_ip cache e now t)
  unfolding check_new_ip
  check_new_ip-IsJustified t = search (all_if, no_alert, same_alerts, new_ip_alert-IsJustified)

  join_alerts :
      (t : RateTracker C) (xs ys : List AnomalyAlert)
      → IsSound e (t, xs)
      → IsSound e (t, ys)
      → IsSound e (t, xs ++ ys)
  join_alerts t xs ys hx hy = record {
    justified = All-append (IsJustified e) xs ys hx.justified hy.justified;
  }

  track_event-IsSound : (t : RateTracker C) → IsSound e (track_event cache e now t)
  unfolding track_event
  track_event-IsSound t =
      search
        (
          all_if, no_alert, join_alerts, same_alerts, track_activity-IsJustified,
          track_auth_failure-IsJustified, track_deletion-IsJustified, track_api_key_op-IsJustified,
          check_new_ip-IsJustified,
        )
        depth 9

  -- Every alert that one event gives is about the event's principal and address, and the count it
  -- reports reaches the threshold it names.
  pub track_event-IsJustified :
      (t : RateTracker C) → All (IsJustified e) (track_event cache e now t).1
  track_event-IsJustified t = (track_event-IsSound t).justified
