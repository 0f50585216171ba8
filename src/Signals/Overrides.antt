-- ===== src/Signals/Overrides.antt =====
-- What becomes of denials, failures and noise after the overrides (event_signals.py).
use auditlens.Prelude.{
  ◌≡◌, ◌⊎◌, inl, inr, refl, true, false, ◌||◌, none, some, arith, truthy, str_eq, Bool-cases,
  if◌then◌else◌,
}
use auditlens.Signals.{
  action_required, attention, informational, noise, denied_access, ip_filter_deny, config_changed,
  privilege_escalation, Signal, Event, is_always_noise,
}
use auditlens.Signals.Core.{
  Facts, facts_of, denied_stage, noise_stage, rtce_stage, flink_stage, read_stage, failure_stage,
  escalation_stage,
}
use auditlens.Signals.Cascade.{
  destructive_stage, change_stage, watched_stage, quiet_stage, change_cascade, cascade,
  classify_signal_core,
}
use auditlens.Signals.Classify.{override_tests, apply_overrides, classify_signal}

-- The cascade answers a denial first: as an IP-filter denial if the client's address is known.
pub cascade_denied :
    (f : Facts)
    → f.is_denied ≡ true
    → ((cascade f).signal_type ≡ action_required)
      × ((cascade f).signal_reason
          ≡ (if truthy f.ipfilter_ip then ip_filter_deny else denied_access))
unfolding cascade denied_stage
cascade_denied f h = elim (Bool-cases (truthy f.ipfilter_ip)) [
  | inl ip ↦ rw (h, ip) (refl, refl)
  | inr bare ↦ rw (h, bare) (refl, refl)
]

pub classify_signal_denied :
    (e : Event)
    → (facts_of e).is_denied ≡ true
    → let t = override_tests e in
      (classify_signal e).signal_type ≡ (
        if t.is_transparency
        then action_required
        else if t.is_internal
        then noise
        else if t.is_platform
        then informational
        else if t.is_registration
        then attention
        else action_required)
unfolding classify_signal classify_signal_core apply_overrides
classify_signal_denied e h = ground (arith, cascade_denied (facts_of e) h)

-- The override for successful schema registrations takes denied ones too: one whose result text has
-- no "fail" is reported as a configuration change.
pub denied_registration :
    (e : Event)
    → (facts_of e).is_denied ≡ true
    → (override_tests e).is_transparency ≡ false
    → (override_tests e).is_internal ≡ false
    → (override_tests e).is_platform ≡ false
    → (override_tests e).is_registration ≡ true
    → (override_tests e).has_failed ≡ false
    → ((classify_signal e).signal_type ≡ attention)
      × ((classify_signal e).signal_reason ≡ config_changed)
unfolding classify_signal apply_overrides
denied_registration e d t i p r f = ground arith

-- What is noise comes from one of these stages.
module _ (f : Facts) where
  quiet-noise :
      (quiet_stage f).signal_type ≡ noise
      → (str_eq f.impact "authentication" || str_eq f.impact "authorization_check") ≡ true
  unfolding quiet_stage
  quiet-noise h = ground arith

  change_cascade-noise :
      (change_cascade f).signal_type ≡ noise
      → (str_eq f.impact "authentication" || str_eq f.impact "authorization_check") ≡ true
  unfolding change_cascade escalation_stage destructive_stage change_stage watched_stage
  change_cascade-noise h = ground (arith, quiet-noise)

  cascade-noise :
      (cascade f).signal_type ≡ noise
      → (f.is_denied ≡ false)
        × ((is_always_noise f.method_name ≡ true)
            ⊎ ((f.is_failure ≡ false)
                × ((str_eq f.impact "authentication" || str_eq f.impact "authorization_check")
                    ≡ true)))
  unfolding cascade denied_stage noise_stage rtce_stage flink_stage read_stage failure_stage
  cascade-noise h = ground (arith, change_cascade-noise)

-- An event is noise only if it is activity on an internal topic, or is not denied and then either
-- has a method that is always noise, or did not fail and is a routine authentication or
-- authorization check. An access-transparency event is never noise.
pub classify_signal_noise :
    (e : Event)
    → (classify_signal e).signal_type ≡ noise
    → let f = facts_of e in
      ((override_tests e).is_transparency ≡ false)
      × (((override_tests e).is_internal ≡ true)
          ⊎ ((f.is_denied ≡ false)
              × ((is_always_noise f.method_name ≡ true)
                  ⊎ ((f.is_failure ≡ false)
                      × ((str_eq f.impact "authentication" || str_eq f.impact "authorization_check")
                          ≡ true)))))
unfolding classify_signal classify_signal_core apply_overrides
classify_signal_noise e h = ground (arith, cascade-noise (facts_of e))

-- With none of the earlier rules in its way and no override, a binding of an admin role is reported
-- as a privilege escalation, before the rules on destructive and on access changes.
pub classify_signal_escalation :
    (e : Event) {s : Signal}
    → let f = facts_of e in
      let t = override_tests e in
      escalation_stage f ≡ some s
      → (f.is_denied || is_always_noise f.method_name || f.is_rtce || f.is_failure) ≡ false
      → flink_stage f ≡ none
      → read_stage f ≡ none
      → (t.is_transparency || t.is_internal || t.is_platform || t.is_registration) ≡ false
      → (classify_signal e ≡ s)
        × (s.signal_reason ≡ privilege_escalation)
        × (s.signal_type ≡ action_required)
unfolding classify_signal classify_signal_core apply_overrides cascade change_cascade denied_stage
    noise_stage rtce_stage failure_stage escalation_stage
classify_signal_escalation e h q fl rd o = ground arith
