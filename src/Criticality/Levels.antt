-- ===== src/Criticality/Levels.antt =====
-- Which events get which level (criticality.py).
use auditlens.Prelude.{◌≡◌, ◌↔◌, ◌⊎◌, Bool, true, false, ◌||◌, none, arith, upper, is_in}
use auditlens.Criticality.Methods.{MethodRules, get_method_category, is_sensitive_method}
use auditlens.Criticality.{
  critical, high, medium, low, AuditEvent, is_false, is_deletion_category, is_creation_category,
  is_modification_category, calculate_criticality,
}

module _ (r : MethodRules) (e : AuditEvent) where
  -- the tests, on the event
  abbrev pub is_failed : Bool
  is_failed = is_in (upper e.result_status) r.security_failure

  abbrev pub is_auth_method : Bool
  is_auth_method = is_in e.method_name r.authentication || is_in e.method_name r.authorization_check

  abbrev pub is_listed : Bool
  is_listed = is_in e.method_name r.critical || is_in e.method_name r.high

  -- An event is CRITICAL exactly when its method is in the critical table, its status is no
  -- security failure and its access was not denied: no failure or denial produces CRITICAL.
  pub critical_iff :
      (calculate_criticality r e).criticality ≡ critical
      ↔ (is_in e.method_name r.critical ≡ true) × (is_failed ≡ false) × (is_false e.granted ≡ false)
  unfolding calculate_criticality
  critical_iff = (λ h. ground arith, λ h. ground arith)

  -- Only a security failure is elevated, and only on a method that is no authentication and no
  -- authorization check; it is then MEDIUM.
  pub elevated_iff :
      ((calculate_criticality r e).elevated ≡ true ↔ (is_failed ≡ true) × (is_auth_method ≡ false))
      × ((calculate_criticality r e).elevated ≡ true
          → (calculate_criticality r e).criticality ≡ medium)
  unfolding calculate_criticality
  elevated_iff = ((λ h. ground arith, λ h. ground arith), λ h. ground arith)

  -- An event is a signal candidate exactly when it has a signal type, and that is so exactly for
  -- security failures and denied accesses; each of these is a security event.
  pub signal_candidate_iff :
      ((calculate_criticality r e).is_signal_candidate ≡ true
        ↔ (is_failed || is_false e.granted) ≡ true)
      × ((calculate_criticality r e).is_signal_candidate ≡ false
          ↔ (calculate_criticality r e).signal_type ≡ none)
      × ((calculate_criticality r e).is_signal_candidate ≡ true
          → (calculate_criticality r e).is_security_event ≡ true)
  unfolding calculate_criticality
  signal_candidate_iff = (
    (λ h. ground arith, λ h. ground arith),
    (λ h. ground arith, λ h. ground arith),
    λ h. ground arith,
  )

  -- A denied access whose status is no security failure is HIGH exactly on a method of the
  -- critical or the high table that is no authorization check, and LOW otherwise.
  pub denied_level :
      is_failed ≡ false
      → is_false e.granted ≡ true
      → ((calculate_criticality r e).criticality ≡ high
          ↔ (is_listed ≡ true) × (is_in e.method_name r.authorization_check ≡ false))
        × (((calculate_criticality r e).criticality ≡ high)
            ⊎ ((calculate_criticality r e).criticality ≡ low))
  unfolding calculate_criticality
  denied_level f d = ((λ h. ground arith, λ h. ground arith), ground arith)

  -- A denied authorization check whose status is no security failure is LOW, and a signal.
  pub denied_check_low :
      is_failed ≡ false
      → is_false e.granted ≡ true
      → is_in e.method_name r.authorization_check ≡ true
      → ((calculate_criticality r e).criticality ≡ low)
        × ((calculate_criticality r e).is_signal_candidate ≡ true)
  unfolding calculate_criticality
  denied_check_low f d c = (ground arith, ground arith)

  -- A deletion by its name that neither failed nor was denied is HIGH or CRITICAL, unless the
  -- table of medium methods lists it.
  pub deletion_level :
      is_failed ≡ false
      → is_false e.granted ≡ false
      → is_deletion_category (get_method_category r e.method_name) ≡ true
      → ((calculate_criticality r e).criticality ≡ critical)
        ⊎ ((calculate_criticality r e).criticality ≡ high)
        ⊎ ((is_in e.method_name r.medium ≡ true)
            × ((calculate_criticality r e).criticality ≡ medium))
  unfolding calculate_criticality
  deletion_level f d del = ground arith

  -- A method that only the read-only table lists, on an event that neither failed nor was denied,
  -- is LOW exactly when the words of its name make it no deletion, creation or modification and
  -- hold no sensitive keyword: the words come before the table.
  pub read_only_low_iff :
      is_failed ≡ false
      → is_false e.granted ≡ false
      → is_listed ≡ false
      → is_in e.method_name r.medium ≡ false
      → is_auth_method ≡ false
      → is_in e.method_name r.read_only ≡ true
      → (calculate_criticality r e).criticality ≡ low
        ↔ (is_deletion_category (get_method_category r e.method_name) ≡ false)
          × (is_creation_category (get_method_category r e.method_name) ≡ false)
          × (is_modification_category (get_method_category r e.method_name) ≡ false)
          × (is_sensitive_method r.keywords e.method_name ≡ false)
  unfolding calculate_criticality
  read_only_low_iff f d l m a o = (λ h. ground arith, λ h. ground arith)
