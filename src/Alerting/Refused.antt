-- ===== src/Alerting/Refused.antt =====
-- What an endpoint sees that accepts nothing (webhook_sender.py).
use auditlens.Prelude.{
  ℕ, ◌+◌, ◌*◌, ◌≤◌, ◌<◌, ◌≡◌, refl, sym, subst, ap, Bool, true, false, not, List, [], ◌∷◌, String,
  arith, All, length, ◌==◌, if◌then◌else◌,
}
use auditlens.Prelude.Eq.{number_eq, string_eq}
use auditlens.Prelude.Assoc.{lookup, lookup_or}
use auditlens.Alerting.{
  WebhookConfig, Sender, new_sender, minute_of, is_muted, enter_minute, under_limits,
  should_send_alert, Alert, sent_or_not, finish_alert, send_alert,
}
use auditlens.Alerting.Posting.{Post, raised_error, after_post, try_posts, send_webhook}

-- A request is made once at least and three times at most.
send_webhook-requests :
    (posts : ℕ → Post) → (1 ≤ (send_webhook posts).1) × ((send_webhook posts).1 ≤ 3)
unfolding send_webhook try_posts
send_webhook-requests posts = first (posts 0) (posts 1) (posts 2)
  where
    first :
        (p q r : Post)
        → (1 ≤ (after_post p 1 (after_post q 2 (after_post r 3 (raised_error, 3)))).1)
          × ((after_post p 1 (after_post q 2 (after_post r 3 (raised_error, 3)))).1 ≤ 3)
    first p q r = ground arith

-- Nothing has been sent yet.
record IsIdle (s : Sender) : Type 0 where
  no_counts : s.alert_counts ≡ []
  no_times : s.last_alert_time ≡ []

true-ne-false : ¬ (true ≡ false)
true-ne-false h = let no : ⊥ = ground (arith, h) in no

module _ (config : WebhookConfig) where
  -- The requests of a sequence of alerts.
  unfoldable pub requests : List Alert → Sender → ℕ
  requests [] s = 0
  requests (a ∷ alerts) s = (send_alert config a s).1 + requests alerts (send_alert config a s).0.0

  enter_minute-IsIdle : (minute : ℕ) (s : Sender) → IsIdle s → IsIdle (enter_minute minute s)
  unfolding enter_minute
  enter_minute-IsIdle minute s i = enter (minute == s.current_minute_bucket)
    where
      enter :
          (same : Bool)
          → IsIdle
              (if same then s else record s { alert_counts = []; current_minute_bucket = minute })
      enter true = i
      enter false = record { no_counts = refl; no_times = i.no_times }

  under_limits-IsIdle :
      (key : String) (now : ℕ) (s : Sender)
      → 0 < config.max_alerts_per_minute
      → IsIdle s
      → under_limits config key now s ≡ true
  unfolding under_limits lookup
  under_limits-IsIdle key now s h i = ground (
    arith,
    h,
    ap (λ counts. lookup_or 0 (minute_of now) counts) i.no_counts,
    ap (λ times. lookup key times) i.no_times,
  )

  -- A check that lets an alert through, with nothing sent so far.
  record Passes (r : Sender × Bool) : Type 0 where
    wanted : r.1 ≡ true
    idle : IsIdle r.0

  should_send_alert-Passes :
      (a : Alert) (s : Sender)
      → config.enabled ≡ true
      → 0 < config.max_alerts_per_minute
      → is_muted config a.criticality ≡ false
      → IsIdle s
      → Passes (should_send_alert config a.criticality a.key a.now s)
  unfolding should_send_alert
  should_send_alert-Passes a s e h m i = split config.enabled (is_muted config a.criticality) e m
    where
      entered : Sender
      entered = enter_minute (minute_of a.now) s

      entered-IsIdle : IsIdle entered
      entered-IsIdle = enter_minute-IsIdle (minute_of a.now) s i

      split :
          (on muted : Bool)
          → on ≡ true
          → muted ≡ false
          → Passes (
              if not on
              then (s, false)
              else if muted
              then (s, false)
              else (entered, under_limits config a.key a.now entered))
      split true false e m = record {
        wanted = under_limits-IsIdle a.key a.now entered h entered-IsIdle;
        idle = entered-IsIdle;
      }
      split true true e m = elim (true-ne-false m) [ ]
      split false muted e m = elim (true-ne-false (sym e)) [ ]

  record IsRefused (r : (Sender × Bool) × ℕ) : Type 0 where
    idle : IsIdle r.0.0
    not_sent : r.0.1 ≡ false
    at_least : 1 ≤ r.1
    at_most : r.1 ≤ 3

  finish_alert-IsRefused :
      (a : Alert) (r : Sender × Bool)
      → (send_webhook a.posts).0 ≡ false
      → Passes r
      → IsRefused (finish_alert a r.0 r.1)
  finish_alert-IsRefused a r f p =
      subst (λ b. IsRefused (finish_alert a r.0 b)) (sym p.wanted)
        (subst (λ ok. IsRefused (sent_or_not a r.0 ok, (send_webhook a.posts).1)) (sym f)
          (record {
            idle = p.idle;
            not_sent = refl;
            at_least = (send_webhook-requests a.posts).0;
            at_most = (send_webhook-requests a.posts).1;
          }))

  -- An alert that the configuration asks for and that the endpoint does not accept.
  pub record Fails (a : Alert) : Type 0 where
    pub asked_for : is_muted config a.criticality ≡ false
    pub refused : (send_webhook a.posts).0 ≡ false

  bounded :
      (alerts : List Alert) (s : Sender)
      → config.enabled ≡ true
      → 0 < config.max_alerts_per_minute
      → All Fails alerts
      → IsIdle s
      → (length alerts ≤ requests alerts s) × (requests alerts s ≤ 3 * length alerts)
  unfolding requests send_alert
  bounded [] s e h all i = (omega arith, omega arith)
  bounded (a ∷ alerts) s e h all i =
      let checked = should_send_alert config a.criticality a.key a.now s in
      let one : IsRefused (finish_alert a checked.0 checked.1) =
        finish_alert-IsRefused a checked all.0.refused
          (should_send_alert-Passes a s e h all.0.asked_for i) in
      let rest : (length alerts ≤ requests alerts (finish_alert a checked.0 checked.1).0.0)
          × (requests alerts (finish_alert a checked.0 checked.1).0.0 ≤ 3 * length alerts) =
        bounded alerts (finish_alert a checked.0 checked.1).0.0 e h all.1 one.idle in
      (omega (arith, one.at_least, rest.0), omega (arith, one.at_most, rest.1))

  -- While an endpoint accepts nothing, every alert that is asked for is posted to it, once to three
  -- times, whatever the limit of alerts in a minute, the cooldown and the times of the calls: a
  -- failure counts for neither.
  pub requests_refused :
      (alerts : List Alert)
      → config.enabled ≡ true
      → 0 < config.max_alerts_per_minute
      → All Fails alerts
      → (length alerts ≤ requests alerts new_sender)
        × (requests alerts new_sender ≤ 3 * length alerts)
  requests_refused alerts e h all =
      bounded alerts new_sender e h all (record { no_counts = refl; no_times = refl })
