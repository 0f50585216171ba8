-- ===== src/Alerting/Tests.antt =====
-- Runs of the webhook sender, and the theorems at concrete inputs.
use Prim.Native.Char.{code}
use Prim.Native.String.{◌++◌}
use text.Mathlib.TextLemmas.{nil-append, cons-append}
use auditlens.Prelude.{
  ℕ, ◌*◌, ◌≤◌, ◌≡◌, refl, ap, ◌∙◌, ◌||◌, ◌==◌, ◌+◌, Bool, true, false, Option, none, some, List, [],
  ◌∷◌, String, arith, length, str_eq, has_part, if◌then◌else◌,
}
use auditlens.Alerting.{slack, send_alert, WebhookConfig, new_sender, is_muted, Alert}
use auditlens.Alerting.Posting.{Post, response, timeout, send_webhook, try_posts}
use auditlens.Alerting.Limits.{sent_in, sent_in-le}
use auditlens.Alerting.Refused.{requests, requests_refused}

abbrev config : WebhookConfig
config = record {
  webhook_type = slack;
  url = "https://hooks";
  enabled = true;
  max_alerts_per_minute = 10;
  cooldown_seconds = 60;
  send_critical = true;
  send_high = true;
  send_medium = false;
  send_low = false;
}

abbrev alert : ℕ → (ℕ → Post) → Alert
alert now posts = record {
  criticality = "HIGH";
  key = "k";
  now = now;
  later = now + 1;
  posts = posts;
}

abbrev accepting : ℕ → Post
accepting i = response 200

abbrev down : ℕ → Post
down i = response 503

abbrev slow : ℕ → Post
slow i = timeout

-- A time out is tried three times, an error of the server once.
slow_posts : send_webhook slow ≡ (false, 3)
unfolding send_webhook try_posts
slow_posts = refl

down_posts : send_webhook down ≡ (false, 1)
unfolding send_webhook try_posts
down_posts = refl

sent_in-le_example :
    sent_in config 2 (alert 120 accepting ∷ alert 179 accepting ∷ []) new_sender
    ≤ config.max_alerts_per_minute
sent_in-le_example =
    sent_in-le config 2 100 (alert 120 accepting ∷ alert 179 accepting ∷ []) new_sender
      (omega arith) (omega arith, omega arith, (omega arith, omega arith, tt))

abbrev one_a_minute : WebhookConfig
one_a_minute = record config { max_alerts_per_minute = 1; cooldown_seconds = 0 }

-- With a limit of one, the first alert is checked at 119 and sent at 120, the second checked at 121:
-- both are sent in the minute that begins at 120, but no two are checked in one.
both_sent :
    let first = send_alert one_a_minute (alert 119 accepting) new_sender in
    (first.0.1 ≡ true) × ((send_alert one_a_minute (alert 121 accepting) first.0.0).0.1 ≡ true)
unfolding send_alert auditlens.Alerting.should_send_alert is_muted auditlens.Prelude.upper
    auditlens.Alerting.under_limits auditlens.Prelude.Assoc.lookup auditlens.Alerting.enter_minute
    send_webhook try_posts auditlens.Alerting.count_sent auditlens.Prelude.Assoc.insert
both_sent = (refl, refl)

requests_refused_example :
    (length (alert 120 down ∷ alert 121 slow ∷ [])
      ≤ requests config (alert 120 down ∷ alert 121 slow ∷ []) new_sender)
    × (requests config (alert 120 down ∷ alert 121 slow ∷ []) new_sender
        ≤ 3 * length (alert 120 down ∷ alert 121 slow ∷ []))
unfolding is_muted auditlens.Prelude.upper
requests_refused_example =
    requests_refused config (alert 120 down ∷ alert 121 slow ∷ []) refl (omega arith) (
      record { asked_for = refl; refused = ap (λ r. r.0) down_posts },
      (record { asked_for = refl; refused = ap (λ r. r.0) slow_posts }, tt),
    )

-- A parser that reads times without an offset only.
has_plus : String → Bool
has_plus String.[] = false
has_plus (String.◌∷◌ c s) = code c == 43 || has_plus s

abbrev reads_local : String → Option ℕ
reads_local s = if has_plus s then none else some 0

has_plus-append : (s t : String) → has_plus t ≡ true → has_plus (s ++ t) ≡ true
unfolding has_plus
has_plus-append String.[] t h = ap has_plus (nil-append t) ∙ h
has_plus-append (String.◌∷◌ c s) t h =
    rw (cons-append c s t) (ground (arith, h, has_plus-append s t))

local-rejects : (t : String) → reads_local ((t ++ "+00:00") ++ "+00:00") ≡ none
unfolding has_plus
local-rejects t =
    ap (λ b. if b then none else some 0) (has_plus-append (t ++ "+00:00") "+00:00" refl)
