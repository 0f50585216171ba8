-- ===== src/Alerting/Limits.antt =====
-- How many alerts go out in a minute, and how far apart those about one thing are
-- (webhook_sender.py).
use auditlens.Prelude.{
  ℕ, ◌+◌, ◌-◌, ◌≤◌, ◌<◌, ◌≡◌, refl, Bool, true, false, not, ◌&&◌, List, [], ◌∷◌, arith, ltb, ◌==◌,
  if◌then◌else◌,
}
use auditlens.Prelude.Eq.{number_eq, string_eq}
use auditlens.Prelude.Assoc.{lookup_or, lookup_or-insert}
use auditlens.Alerting.{
  WebhookConfig, Sender, minute_of, is_muted, enter_minute, under_limits, should_send_alert,
  count_sent, Alert, sent_or_not, finish_alert, send_alert,
}
use auditlens.Alerting.Posting.{send_webhook}

-- The clock does not run back.
abbrev pub Rising : ℕ → List Alert → Type 0
Rising last [] = Unit
Rising last (a ∷ alerts) = (last ≤ a.now) × (a.now ≤ a.later) × Rising a.later alerts

module _ (config : WebhookConfig) where
  -- The alerts that are sent and whose check falls into a minute.
  unfoldable pub sent_in : ℕ → List Alert → Sender → ℕ
  sent_in m [] s = 0
  sent_in m (a ∷ alerts) s =
      (if (send_alert config a s).0.1 && minute_of a.now == m then 1 else 0)
      + sent_in m alerts (send_alert config a s).0.0

  -- What may still go out in a minute.
  abbrev room : ℕ → ℕ → Sender → ℕ
  room m last s =
      if ltb m (minute_of last)
      then 0
      else if s.current_minute_bucket == m
      then config.max_alerts_per_minute - lookup_or 0 m s.alert_counts
      else config.max_alerts_per_minute

  enter_minute-room :
      (m last now : ℕ) (s : Sender)
      → s.current_minute_bucket ≤ minute_of last
      → last ≤ now
      → room m now (enter_minute (minute_of now) s) ≤ room m last s
  unfolding enter_minute
  enter_minute-room m last now s g h = ground (arith, g, h)

  should_send_alert-room :
      (m last : ℕ) (a : Alert) (s : Sender)
      → s.current_minute_bucket ≤ minute_of last
      → last ≤ a.now
      → room m a.now (should_send_alert config a.criticality a.key a.now s).0 ≤ room m last s
  unfolding should_send_alert
  should_send_alert-room m last a s g h = split (not config.enabled) (is_muted config a.criticality)
    where
      entered : Sender
      entered = enter_minute (minute_of a.now) s

      split :
          (off muted : Bool)
          → room m a.now
              (if◌then◌else◌ {A = Sender × Bool} off
                (s, false)
                (if muted
                  then (s, false)
                  else (entered, under_limits config a.key a.now entered))).0
            ≤ room m last s
      split true muted = ground (arith, g, h)
      split false true = ground (arith, g, h)
      split false false = enter_minute-room m last a.now s g h

  should_send_alert-allows :
      (a : Alert) (s : Sender)
      → (should_send_alert config a.criticality a.key a.now s).1 ≡ true
      → (lookup_or 0
            (minute_of a.now)
            (should_send_alert config a.criticality a.key a.now s).0.alert_counts
          < config.max_alerts_per_minute)
        × ((should_send_alert config a.criticality a.key a.now s).0.current_minute_bucket
            ≡ minute_of a.now)
  unfolding should_send_alert enter_minute under_limits
  should_send_alert-allows a s h = ground (arith, h)

  count_sent-room :
      (m : ℕ) (a : Alert) (s : Sender)
      → a.now ≤ a.later
      → lookup_or 0 (minute_of a.now) s.alert_counts < config.max_alerts_per_minute
      → s.current_minute_bucket ≡ minute_of a.now
      → (if minute_of a.now == m then 1 else 0) + room m a.later (count_sent a.key a.later s)
        ≤ room m a.now s
  unfolding count_sent
  count_sent-room m a s h k e = ground (
    arith,
    h,
    k,
    e,
    lookup_or-insert 0 (minute_of a.later) m (lookup_or 0 (minute_of a.later) s.alert_counts + 1)
        s.alert_counts,
  )

  sent_or_not-room :
      (m : ℕ) (a : Alert) (s : Sender) (ok : Bool)
      → a.now ≤ a.later
      → lookup_or 0 (minute_of a.now) s.alert_counts < config.max_alerts_per_minute
      → s.current_minute_bucket ≡ minute_of a.now
      → (if (sent_or_not a s ok).1 && minute_of a.now == m then 1 else 0)
          + room m a.later (sent_or_not a s ok).0
        ≤ room m a.now s
  sent_or_not-room m a s true h k e = count_sent-room m a s h k e
  sent_or_not-room m a s false h k e = ground (arith, h)

  send_alert-room :
      (m last : ℕ) (a : Alert) (s : Sender)
      → s.current_minute_bucket ≤ minute_of last
      → last ≤ a.now
      → a.now ≤ a.later
      → (if (send_alert config a s).0.1 && minute_of a.now == m then 1 else 0)
          + room m a.later (send_alert config a s).0.0
        ≤ room m last s
  unfolding send_alert
  send_alert-room m last a s g h k = split checked.1 (should_send_alert-allows a s)
    where
      checked : Sender × Bool
      checked = should_send_alert config a.criticality a.key a.now s

      entered-room : room m a.now checked.0 ≤ room m last s
      entered-room = should_send_alert-room m last a s g h

      split :
          (wanted : Bool)
          → (wanted ≡ true
              → (lookup_or 0 (minute_of a.now) checked.0.alert_counts
                  < config.max_alerts_per_minute)
                × (checked.0.current_minute_bucket ≡ minute_of a.now))
          → (if (finish_alert a checked.0 wanted).0.1 && minute_of a.now == m then 1 else 0)
              + room m a.later (finish_alert a checked.0 wanted).0.0
            ≤ room m last s
      split true allows = omega (
        arith,
        sent_or_not-room m a checked.0 (send_webhook a.posts).0 k (allows refl).0 (allows refl).1,
        entered-room,
      )
      split false allows = ground (arith, k, entered-room)

  should_send_alert-bucket :
      (last : ℕ) (a : Alert) (s : Sender)
      → s.current_minute_bucket ≤ minute_of last
      → last ≤ a.now
      → (should_send_alert config a.criticality a.key a.now s).0.current_minute_bucket
        ≤ minute_of a.now
  unfolding should_send_alert enter_minute
  should_send_alert-bucket last a s g h = split (not config.enabled) (is_muted config a.criticality)
    where
      entered : Sender
      entered = enter_minute (minute_of a.now) s

      split :
          (off muted : Bool)
          → (if◌then◌else◌ {A = Sender × Bool} off
              (s, false)
              (if muted
                then (s, false)
                else (entered, under_limits config a.key a.now entered))).0.current_minute_bucket
            ≤ minute_of a.now
      split true muted = omega (arith, g, h)
      split false true = omega (arith, g, h)
      split false false = ground (arith, g, h)

  finish_alert-bucket :
      (a : Alert) (s : Sender) (wanted : Bool)
      → (finish_alert a s wanted).0.0.current_minute_bucket ≡ s.current_minute_bucket
  unfolding count_sent
  finish_alert-bucket a s true = sent (send_webhook a.posts).0
    where
      sent : (ok : Bool) → (sent_or_not a s ok).0.current_minute_bucket ≡ s.current_minute_bucket
      sent true = refl
      sent false = refl
  finish_alert-bucket a s false = refl

  send_alert-bucket :
      (last : ℕ) (a : Alert) (s : Sender)
      → s.current_minute_bucket ≤ minute_of last
      → last ≤ a.now
      → a.now ≤ a.later
      → (send_alert config a s).0.0.current_minute_bucket ≤ minute_of a.later
  unfolding send_alert
  send_alert-bucket last a s g h k =
      let checked = should_send_alert config a.criticality a.key a.now s in
      omega
        (arith, k, finish_alert-bucket a checked.0 checked.1, should_send_alert-bucket last a s g h)

  -- With a clock that does not run back and does not start before the sender's minute, no more alerts
  -- than configured are checked within one minute and then sent. An alert may be sent in a later
  -- minute than that of its check.
  pub sent_in-le :
      (m last : ℕ) (alerts : List Alert) (s : Sender)
      → s.current_minute_bucket ≤ minute_of last
      → Rising last alerts
      → sent_in m alerts s ≤ config.max_alerts_per_minute
  unfolding sent_in
  sent_in-le m last alerts s g r = omega (arith, within last alerts s g r, room-le last s)
    where
      room-le : (last : ℕ) (s : Sender) → room m last s ≤ config.max_alerts_per_minute
      room-le last s = ground arith

      within :
          (last : ℕ) (alerts : List Alert) (s : Sender)
          → s.current_minute_bucket ≤ minute_of last
          → Rising last alerts
          → sent_in m alerts s ≤ room m last s
      within last [] s g r = omega arith
      within last (a ∷ alerts) s g r = omega (
        arith,
        send_alert-room m last a s g r.0 r.1,
        within a.later alerts (send_alert config a s).0.0 (send_alert-bucket last a s g r.0 r.1)
            r.2,
      )
