-- ===== src/Intelligence/Denied.antt =====
-- What a denial becomes, through the intelligence and the signals (event_intelligence.py,
-- event_signals.py).
use auditlens.Prelude.{◌≡◌, refl, ap, ◌∙◌, Bool, true, false, String, arith, str_eq, if◌then◌else◌}
use auditlens.Signals.{Event, digest, action_required, attention, informational, noise}
use auditlens.Signals.Core.{facts_of as signal_facts}
use auditlens.Signals.Classify.{override_tests, classify_signal}
use auditlens.Signals.Overrides.{classify_signal_denied}
use auditlens.Intelligence.{
  Payload, Model, Facts, facts_of, is_denied, impact_of, risk_of, classify_facts, classify_event,
  is_transparency,
}
use auditlens.Intelligence.Risk.{impact_known}
use auditlens.Intelligence.Words.{change_type}

sensitive :
    (transparency denied : Bool) (rest : String)
    → denied ≡ true
    → (if transparency then "security_sensitive" else if denied then "security_sensitive" else rest)
      ≡ "security_sensitive"
sensitive true denied rest h = refl
sensitive false denied rest h = ap (λ b. if b then "security_sensitive" else rest) h

impact_of_denied : (f : Facts) → f.denied ≡ true → impact_of f ≡ "security_sensitive"
unfolding impact_of
impact_of_denied f h = sensitive (is_transparency f) f.denied _ h

risk_of_denied : (f : Facts) → f.denied ≡ true → risk_of f "security_sensitive" ≡ "high"
unfolding risk_of
risk_of_denied f h = ground (arith, h)

change_type_denied :
    (method event_type : String) (denied : Bool)
    → denied ≡ true
    → change_type method event_type denied ≡ "denied"
unfolding change_type
change_type_denied method event_type true h = refl
change_type_denied method event_type false h = let no : ⊥ = ground (arith, h) in elim no [ ]

-- A denial, however it is told, is a denied change that is sensitive for security, with a high risk.
pub classify_event_denied :
    (p : Payload) (e : Model)
    → is_denied p e ≡ true
    → ((classify_event p e).change_type ≡ "denied")
      × ((classify_event p e).impact_type ≡ "security_sensitive")
      × ((classify_event p e).risk_level ≡ "high")
unfolding classify_event classify_facts facts_of
classify_event_denied p e h =
    let f = facts_of p e in
    (
      change_type_denied f.method f.event_type f.denied h,
      impact_known f ∙ impact_of_denied f h,
      ap (risk_of f) (impact_of_denied f h) ∙ risk_of_denied f h,
    )

-- When a denial has no word for it in the fields that the signals read, and no flag, its digest still
-- makes it one: the signal is that of a denied event, which needs action but for the overrides.
pub classify_signal-classify_event :
    (p : Payload) (m : Model) (e : Event)
    → digest e ≡ classify_event p m
    → is_denied p m ≡ true
    → let t = override_tests e in
      (classify_signal e).signal_type ≡ (
        if t.is_transparency
        then action_required
        else if t.is_internal
        then noise
        else if t.is_platform
        then informational
        else if t.is_registration
        then attention
        else action_required)
unfolding signal_facts
classify_signal-classify_event p m e same h = classify_signal_denied e (
    ground (
      arith,
      ap (λ d. str_eq d.change_type "denied") same,
      ap (λ c. str_eq c "denied") (classify_event_denied p m h).0,
    ))
