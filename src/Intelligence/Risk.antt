-- ===== src/Intelligence/Risk.antt =====
-- Impact and risk (event_intelligence.py).
use auditlens.Prelude.{
  ◌≡◌, refl, sym, ap, ◌∙◌, Bool, true, false, not, ◌&&◌, ◌||◌, String, [], ◌∷◌, arith, is_in, lower,
  has_any, has_any_prefix, has_part, has_prefix, str_eq, eq_iff, if◌then◌else◌,
}
use auditlens.Intelligence.{
  Payload, Model, Facts, facts_of, is_transparency, impact_of, impact_of_change, risk_of,
  critical_families, impact_types, classify_facts, classify_event, registry_reads, acl_methods,
  access_marks,
}
use auditlens.Intelligence.Words.{compact}

-- The two cascades of the impact, with their tests as arguments.
change_cascade :
    (deleted created updated configured flink read paused security : Bool)
    → is_in
        (if deleted
          then "destructive"
          else if created
          then (if security then "access_change" else "constructive")
          else if updated
          then (if security then "access_change" else "configuration_change")
          else if configured
          then (if flink
              then "operational"
              else if security
              then "access_change"
              else "configuration_change")
          else if read
          then "read_only"
          else if paused
          then "operational"
          else "unknown")
        impact_types
      ≡ true
unfolding is_in
change_cascade true created updated configured flink read paused security = refl
change_cascade false true updated configured flink read paused true = refl
change_cascade false true updated configured flink read paused false = refl
change_cascade false false true configured flink read paused true = refl
change_cascade false false true configured flink read paused false = refl
change_cascade false false false true true read paused security = refl
change_cascade false false false true false read paused true = refl
change_cascade false false false true false read paused false = refl
change_cascade false false false false flink true paused security = refl
change_cascade false false false false flink false true security = refl
change_cascade false false false false flink false false security = refl

impact_cascade :
    (a b c d e f g : Bool) (rest : String)
    → is_in rest impact_types ≡ true
    → is_in
        (if a
          then "security_sensitive"
          else if b
          then "security_sensitive"
          else if c
          then "read_only"
          else if d
          then "access_change"
          else if e
          then "authorization_check"
          else if f
          then "authentication"
          else if g
          then "access_change"
          else rest)
        impact_types
      ≡ true
unfolding is_in
impact_cascade true b c d e f g rest h = refl
impact_cascade false true c d e f g rest h = refl
impact_cascade false false true d e f g rest h = refl
impact_cascade false false false true e f g rest h = refl
impact_cascade false false false false true f g rest h = refl
impact_cascade false false false false false true g rest h = refl
impact_cascade false false false false false false true rest h = refl
impact_cascade false false false false false false false rest h = h

impact_of_change-is_in : (f : Facts) → is_in (impact_of_change f) impact_types ≡ true
unfolding impact_of_change
impact_of_change-is_in f =
    change_cascade (str_eq f.change "deleted") (str_eq f.change "created")
      (str_eq f.change "updated") (str_eq f.change "configured")
      (str_eq f.family "flink"
        && has_any ("stopstatement" ∷ "pausestatement" ∷ "resumestatement" ∷ []) (compact f.method))
      (str_eq f.change "read/listed")
      (has_any ("pause" ∷ "restore" ∷ "signin" ∷ []) (compact f.method)) f.security

impact_of-is_in : (f : Facts) → is_in (impact_of f) impact_types ≡ true
unfolding impact_of
impact_of-is_in f =
    impact_cascade (is_transparency f) f.denied
      (has_prefix "schema-registry." (lower f.method)
        && has_any_prefix registry_reads (lower f.method))
      (is_in f.method acl_methods && not (has_part "authorization" (lower f.event_type)))
      (has_part "authorization" (lower f.event_type) || has_part "authorize" (lower f.method))
      (has_part "authentication" (lower f.event_type)
        || has_any ("authenticate" ∷ "authentication" ∷ []) (lower f.method))
      (has_any access_marks (compact f.method)) (impact_of_change f) (impact_of_change-is_in f)

not_both :
    (impact : String)
    → str_eq impact "security_sensitive" ≡ true
    → str_eq impact "destructive" ≡ false
not_both impact h = ap (λ s. str_eq s "destructive") ((eq_iff impact "security_sensitive").0 h)

abbrev critical : String → Bool
critical s = str_eq s "critical"

-- The cascade of the risk, with its tests as arguments.
cascade :
    (s bad d grave : Bool) (rest : String)
    → (s ≡ true → d ≡ false)
    → critical rest ≡ false
    → critical (if s && bad then "high" else if d && grave then "critical" else rest) ≡ (d && grave)
cascade true true d grave rest h r = sym (ap (λ b. b && grave) (h refl))
cascade true false true true rest h r = refl
cascade true false true false rest h r = ground (arith, r)
cascade true false false grave rest h r = ground (arith, r)
cascade false bad true true rest h r = refl
cascade false bad true false rest h r = ground (arith, r)
cascade false bad false grave rest h r = ground (arith, r)

mild :
    (a b c d failed : Bool)
    → critical (
        if a
        then "high"
        else if b
        then "high"
        else if c
        then "medium"
        else if d
        then (if failed then "medium" else "informational")
        else "low")
      ≡ false
mild true b c d failed = refl
mild false true c d failed = refl
mild false false true d failed = refl
mild false false false true true = refl
mild false false false true false = refl
mild false false false false failed = refl

risk_of-critical :
    (f : Facts) (impact : String)
    → critical (risk_of f impact)
      ≡ (str_eq impact "destructive" && is_in f.family critical_families)
unfolding risk_of
risk_of-critical f impact =
    cascade (str_eq impact "security_sensitive") (f.denied || f.failed || is_transparency f)
      (str_eq impact "destructive") (is_in f.family critical_families) _ (not_both impact)
      (mild (is_in impact ("destructive" ∷ "access_change" ∷ []))
        (is_in impact ("configuration_change" ∷ "constructive" ∷ []) && f.security)
        (is_in impact ("configuration_change" ∷ "constructive" ∷ "security_sensitive" ∷ []))
        (is_in impact ("authentication" ∷ "authorization_check" ∷ "read_only" ∷ "operational" ∷ []))
        f.failed)

pub impact_known : (f : Facts) → (classify_facts f).impact_type ≡ impact_of f
unfolding classify_facts
impact_known f = ap (λ b. if b then impact_of f else "unknown") (impact_of-is_in f)

abbrev destructive : String → Bool
destructive s = str_eq s "destructive"

-- The two cascades of the impact, and what makes them destructive.
change_destructive :
    (deleted created updated configured flink read paused security : Bool)
    → destructive (
        if deleted
        then "destructive"
        else if created
        then (if security then "access_change" else "constructive")
        else if updated
        then (if security then "access_change" else "configuration_change")
        else if configured
        then (if flink
            then "operational"
            else if security
            then "access_change"
            else "configuration_change")
        else if read
        then "read_only"
        else if paused
        then "operational"
        else "unknown")
      ≡ deleted
change_destructive true created updated configured flink read paused security = refl
change_destructive false true updated configured flink read paused true = refl
change_destructive false true updated configured flink read paused false = refl
change_destructive false false true configured flink read paused true = refl
change_destructive false false true configured flink read paused false = refl
change_destructive false false false true true read paused security = refl
change_destructive false false false true false read paused true = refl
change_destructive false false false true false read paused false = refl
change_destructive false false false false flink true paused security = refl
change_destructive false false false false flink false true security = refl
change_destructive false false false false flink false false security = refl

impact_destructive :
    (a b c d e f g : Bool) (rest : String)
    → destructive (
        if a
        then "security_sensitive"
        else if b
        then "security_sensitive"
        else if c
        then "read_only"
        else if d
        then "access_change"
        else if e
        then "authorization_check"
        else if f
        then "authentication"
        else if g
        then "access_change"
        else rest)
      ≡ (not (a || b || c || d || e || f || g) && destructive rest)
impact_destructive true b c d e f g rest = refl
impact_destructive false true c d e f g rest = refl
impact_destructive false false true d e f g rest = refl
impact_destructive false false false true e f g rest = refl
impact_destructive false false false false true f g rest = refl
impact_destructive false false false false false true g rest = refl
impact_destructive false false false false false false true rest = refl
impact_destructive false false false false false false false rest = refl

-- An event with a change of deletion that is no access transparency, was not denied, is about no read
-- of the schema registry, and whose method and type tell of no access or authentication.
abbrev pub destroys : Facts → Bool
destroys f =
    str_eq f.change "deleted"
    && not f.denied
    && not (is_transparency f)
    && not (has_any access_marks (compact f.method))
    && not (has_part "authentication" (lower f.event_type))
    && not (has_any ("authenticate" ∷ "authentication" ∷ []) (lower f.method))
    && not (has_part "authorization" (lower f.event_type))
    && not (has_part "authorize" (lower f.method))
    && not (is_in f.method acl_methods)
    && not (
        has_prefix "schema-registry." (lower f.method)
        && has_any_prefix registry_reads (lower f.method))

impact_of-destroys : (f : Facts) → destructive (impact_of f) ≡ destroys f
unfolding impact_of impact_of_change
impact_of-destroys f = ground (
  arith,
  impact_destructive (is_transparency f) f.denied
      (has_prefix "schema-registry." (lower f.method)
        && has_any_prefix registry_reads (lower f.method))
      (is_in f.method acl_methods && not (has_part "authorization" (lower f.event_type)))
      (has_part "authorization" (lower f.event_type) || has_part "authorize" (lower f.method))
      (has_part "authentication" (lower f.event_type)
        || has_any ("authenticate" ∷ "authentication" ∷ []) (lower f.method))
      (has_any access_marks (compact f.method)) (impact_of_change f),
  change_destructive (str_eq f.change "deleted") (str_eq f.change "created")
      (str_eq f.change "updated") (str_eq f.change "configured")
      (str_eq f.family "flink"
        && has_any ("stopstatement" ∷ "pausestatement" ∷ "resumestatement" ∷ []) (compact f.method))
      (str_eq f.change "read/listed")
      (has_any ("pause" ∷ "restore" ∷ "signin" ∷ []) (compact f.method)) f.security,
)

-- An event's impact is destructive exactly when it is a deletion as `destroys` says, and its risk is
-- critical exactly when, besides, its family is one of nine: a cluster, an environment, an
-- organization, a schema registry, a service account, a user, an API key, RBAC or an ACL.
pub classify_event-critical :
    (p : Payload) (e : Model)
    → let f = facts_of p e in
      let c = classify_event p e in
      (str_eq c.impact_type "destructive" ≡ destroys f)
      × (str_eq c.risk_level "critical" ≡ (
          destroys f
          && is_in f.family (
              "cluster" ∷ "environment" ∷ "organization" ∷ "schema_registry" ∷ "service_account"
              ∷ "user" ∷ "api_key" ∷ "rbac" ∷ "acl" ∷ [])))
unfolding classify_event classify_facts
classify_event-critical p e =
    let f = facts_of p e in
    (
      ap destructive (impact_known f) ∙ impact_of-destroys f,
      risk_of-critical f (impact_of f)
          ∙ ap (λ b. b && is_in f.family critical_families) (impact_of-destroys f),
    )
