-- ===== src/Alerting/Messages/TestAlert.antt =====
-- What the test alert does on Slack (webhook_sender.py).
use Prim.Native.Char.{code}
use Prim.Native.String.{◌++◌}
use text.Mathlib.TextLemmas.{nil-append, cons-append}
use auditlens.Prelude.{
  ℕ, ◌≡◌, sym, ap, ◌∙◌, Bool, true, not, ◌&&◌, Option, none, String, arith, ◌==◌,
}
use auditlens.Alerting.{WebhookConfig, slack, Sender, should_send_alert, send_alert, critical_key}
use auditlens.Alerting.Posting.{Post}
use auditlens.Alerting.Messages.{
  replace_z, format_slack_message, send_critical_event_alert, send_test_alert, raises, test_event,
  unless_raises, attachment_at, is_slack, alert_about,
}

-- a text without a Z
unfoldable pub lacks_z : String → Bool
lacks_z String.[] = true
lacks_z (String.◌∷◌ c s) = not (code c == 90) && lacks_z s

replace_z-append : (s t : String) → lacks_z s ≡ true → replace_z (s ++ t) ≡ s ++ replace_z t
unfolding replace_z lacks_z
replace_z-append String.[] t h = ap replace_z (nil-append t) ∙ sym (nil-append (replace_z t))
replace_z-append (String.◌∷◌ c s) t h =
    rw (cons-append c s t)
      (rw (cons-append c s (replace_z t)) (ground (arith, h, replace_z-append s t)))

-- On Slack the test alert raises whenever it is to be sent, with a parser of times that rejects two
-- offsets in a row: the current time already ends in its offset, and a Z is put behind it.
pub send_test_alert-raises :
    (parse_iso : String → Option ℕ) (stamp : String) (config : WebhookConfig) (now later : ℕ)
    (posts : ℕ → Post) (s : Sender)
    → ((t : String) → parse_iso ((t ++ "+00:00") ++ "+00:00") ≡ none)
    → lacks_z (stamp ++ "+00:00") ≡ true
    → config.webhook_type ≡ slack
    → (should_send_alert config "CRITICAL" (critical_key "TestAlert") now s).1 ≡ true
    → send_test_alert parse_iso (stamp ++ "+00:00") config now later posts s
      ≡ raises (should_send_alert config "CRITICAL" (critical_key "TestAlert") now s).0
unfolding send_test_alert send_critical_event_alert format_slack_message replace_z
send_test_alert-raises parse_iso stamp config now later posts s rejects clean type wanted =
    let no_time : parse_iso (replace_z ((stamp ++ "+00:00") ++ "Z")) ≡ none =
      ap parse_iso (replace_z-append (stamp ++ "+00:00") "Z" clean) ∙ rejects stamp in
    let checked = should_send_alert config "CRITICAL" (critical_key "TestAlert") now s in
    let event = test_event (stamp ++ "+00:00") in
    let message = format_slack_message parse_iso (stamp ++ "+00:00") event in
    let posted = send_alert config (alert_about event now later posts) s in
    ap (λ b. unless_raises (b && is_slack config.webhook_type) message checked.0 posted) wanted
    ∙ ap (λ w. unless_raises (is_slack w) message checked.0 posted) type
    ∙ ap (λ o. unless_raises true (attachment_at event o) checked.0 posted) no_time
