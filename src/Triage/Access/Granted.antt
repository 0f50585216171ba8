-- ===== src/Triage/Access/Granted.antt =====
-- Whom the access check lets in (auth.py).
use mathlib.Core.Option.{none-ne-some, some-injective}
use auditlens.Prelude.{
  ℕ, ◌≡◌, refl, sym, ap, subst, ◌∙◌, Bool, true, false, ◌&&◌, Option, none, some, List, [], ◌∷◌,
  ◌++◌, String, arith, All, str_eq, eq_iff, truthy, Bool-cases, inl, inr, if◌then◌else◌,
}
use auditlens.Prelude.Eq.{string_eq}
use auditlens.Prelude.Assoc.{insert, Distinct, insert-Distinct, All-insert}
use auditlens.Triage.Access.{
  AccessToken, RawToken, Tokens, Role, token_of, blank_in, checked_token, parsed_token, and_then,
  add_tokens, AuthConfig, from_json, Headers, extract_token, match_token, TokenFile, absent,
  present, is_newer, refresh_if_needed, AuthResult, granted, matched, presented, check_headers,
  authenticate, anonymous, missing_credentials,
}

-- A configured token: not blank, with an actor and no blank scope, under its own text.
pub IsToken : String × AccessToken → Type 0
IsToken (key, t) =
    (key ≡ t.token)
    × (truthy key ≡ true)
    × (truthy t.actor_id ≡ true)
    × (blank_in (t.organizations ++ t.environments ++ t.clusters) ≡ false)

pub record IsConfigured (tokens : Tokens) : Type 0 where
  pub entries : All IsToken tokens
  pub distinct : Distinct tokens

and_then-some {ℓ} :
    {A B : Type ℓ} (o : Option A) (f : A → Option B) (b : B)
    → and_then o f ≡ some b
    → (a : A) × (o ≡ some a) × (f a ≡ some b)
and_then-some none f b h = elim (none-ne-some b h) [ ]
and_then-some (some a) f b h = (a, refl, h)

checked_token-IsConfigured :
    (t : AccessToken) (tokens result : Tokens)
    → IsConfigured tokens
    → checked_token t tokens ≡ some result
    → IsConfigured result
unfolding IsToken
checked_token-IsConfigured t tokens result g h = subst IsConfigured same (record {
  entries = All-insert IsToken t.token t tokens (ground (arith, h)) g.entries;
  distinct = insert-Distinct t.token t tokens g.distinct;
})
  where
    same : insert t.token t tokens ≡ result
    same = ground (arith, h)

parsed_token-IsConfigured :
    (raw : RawToken) (role : Option Role) (token : Option String) (tokens result : Tokens)
    → IsConfigured tokens
    → parsed_token raw role token tokens ≡ some result
    → IsConfigured result
parsed_token-IsConfigured raw (some role) (some token) tokens result g h =
    checked_token-IsConfigured (token_of raw role token) tokens result g h
parsed_token-IsConfigured raw (some role) none tokens result g h = elim (none-ne-some result h) [ ]
parsed_token-IsConfigured raw none (some token) tokens result g h = elim (none-ne-some result h) [ ]
parsed_token-IsConfigured raw none none tokens result g h = elim (none-ne-some result h) [ ]

add_tokens-IsConfigured :
    (raws : List RawToken) (tokens result : Tokens)
    → IsConfigured tokens
    → add_tokens raws tokens ≡ some result
    → IsConfigured result
unfolding add_tokens
add_tokens-IsConfigured [] tokens result g h = subst IsConfigured (some-injective tokens result h) g
add_tokens-IsConfigured (raw ∷ raws) tokens result g h =
    let step : (a : Tokens) × (parsed_token raw raw.role raw.token tokens ≡ some a)
        × (add_tokens raws a ≡ some result) =
      and_then-some (parsed_token raw raw.role raw.token tokens) (add_tokens raws) result h in
    add_tokens-IsConfigured raws step.0 result
      (parsed_token-IsConfigured raw raw.role raw.token tokens step.0 g step.1) step.2

-- A list that is accepted gives tokens that are not blank, each under its own text, no text twice,
-- each with an actor and without blank scopes.
pub from_json-IsConfigured :
    (content : Option (List RawToken)) (token_file : Bool) (mtime : Option ℕ) (config : AuthConfig)
    → from_json content token_file mtime ≡ some config
    → IsConfigured config.tokens
unfolding from_json
from_json-IsConfigured none token_file mtime config h = elim (none-ne-some config h) [ ]
from_json-IsConfigured (some raws) token_file mtime config h =
    let step : (tokens : Tokens) × (add_tokens raws [] ≡ some tokens)
        × (some (record {
          enabled = true;
          tokens = tokens;
          token_file = token_file;
          token_file_mtime = mtime;
        })
            ≡ some config) =
      and_then-some (add_tokens raws []) _ config h in
    subst (λ c. IsConfigured c.tokens) (some-injective _ config step.2)
      (add_tokens-IsConfigured raws [] step.0 (record { entries = tt; distinct = tt }) step.1)

from_json-enabled :
    (content : Option (List RawToken)) (token_file : Bool) (mtime : Option ℕ) (config : AuthConfig)
    → from_json content token_file mtime ≡ some config
    → config.enabled ≡ true
unfolding from_json
from_json-enabled none token_file mtime config h = elim (none-ne-some config h) [ ]
from_json-enabled (some raws) token_file mtime config h =
    let step : (tokens : Tokens) × (add_tokens raws [] ≡ some tokens)
        × (some (record {
          enabled = true;
          tokens = tokens;
          token_file = token_file;
          token_file_mtime = mtime;
        })
            ≡ some config) =
      and_then-some (add_tokens raws []) _ config h in
    sym (ap (λ c. c.enabled) (some-injective _ config step.2))

match_token-token :
    (provided : String) (tokens : Tokens) (actor : AccessToken)
    → All IsToken tokens
    → match_token provided tokens ≡ some actor
    → provided ≡ actor.token
unfolding match_token IsToken
match_token-token provided [] actor all h = elim (none-ne-some actor h) [ ]
match_token-token provided ((stored, t) ∷ tokens) actor all h =
    elim (Bool-cases (str_eq stored provided)) [
      | inl same ↦
          sym ((eq_iff stored provided).0 same)
          ∙ all.0.0
          ∙ ap (λ a. a.token)
              (some-injective t actor
                (sym (ap (λ b. if b then some t else match_token provided tokens) same) ∙ h))
      | inr other ↦
          match_token-token provided tokens actor all.1
            (sym (ap (λ b. if b then some t else match_token provided tokens) other) ∙ h)
    ]

granted-injective : (a b : AccessToken) → granted a ≡ granted b → a ≡ b
granted-injective a b h = ap (λ r. elim r [ granted t ↦ t | _ ↦ a ]) h

is_granted : AuthResult → Bool
is_granted (granted actor) = true
is_granted _ = false

refuse {ℓ} : {A : Type ℓ} → false ≡ true → A
refuse h = elim (ne h) [ ]
  where
    ne : ¬ (false ≡ true)
    ne = λ e. ground (arith, e)

matched-some :
    (found : Option AccessToken) (actor : AccessToken)
    → matched found ≡ granted actor
    → found ≡ some actor
unfolding is_granted
matched-some none actor h = refuse (ap is_granted h)
matched-some (some t) actor h = ap some (granted-injective t actor h)

presented-token :
    (token : Option String) (tokens : Tokens) (actor : AccessToken)
    → All IsToken tokens
    → presented token tokens ≡ granted actor
    → token ≡ some actor.token
unfolding is_granted
presented-token none tokens actor all h = refuse (ap is_granted h)
presented-token (some token) tokens actor all h = elim (Bool-cases (truthy token)) [
  | inl given ↦ ap some (
      match_token-token token tokens actor all (
        matched-some (match_token token tokens) actor (
          sym
            (ap (λ b. if b then matched (match_token token tokens) else missing_credentials) given)
          ∙ h)))
  | inr blank ↦ refuse (
      ap is_granted (
        sym (ap (λ b. if b then matched (match_token token tokens) else missing_credentials) blank)
        ∙ h))
]

-- What a check relies on: it is switched on, with tokens that were accepted.
pub record IsReady (config : AuthConfig) : Type 0 where
  pub is_on : config.enabled ≡ true
  pub accepted : IsConfigured config.tokens

from_json-IsReady :
    (content : Option (List RawToken)) (token_file : Bool) (mtime : Option ℕ) (config : AuthConfig)
    → from_json content token_file mtime ≡ some config
    → IsReady config
from_json-IsReady content token_file mtime config h = record {
  is_on = from_json-enabled content token_file mtime config h;
  accepted = from_json-IsConfigured content token_file mtime config h;
}

refresh_if_needed-IsReady :
    (file : TokenFile) (config result : AuthConfig)
    → IsReady config
    → refresh_if_needed file config ≡ some result
    → IsReady result
unfolding refresh_if_needed
refresh_if_needed-IsReady absent config result r h =
    subst IsReady (some-injective config result h) r
refresh_if_needed-IsReady (present mtime content) config result r h =
    elim (Bool-cases
      (config.enabled && config.token_file && is_newer mtime config.token_file_mtime)) [
        | inl newer ↦ from_json-IsReady content true (some mtime) result (
            sym (ap (λ b. if b then from_json content true (some mtime) else some config) newer)
            ∙ h)
        | inr same ↦
            subst IsReady
              (some-injective config result (
                sym (ap (λ b. if b then from_json content true (some mtime) else some config) same)
                ∙ h))
              r
      ]

check_headers-token :
    (headers : Headers) (config : AuthConfig) (actor : AccessToken)
    → IsReady config
    → check_headers headers config ≡ granted actor
    → extract_token headers ≡ some actor.token
unfolding check_headers
check_headers-token headers config actor r h =
    presented-token (extract_token headers) config.tokens actor r.accepted.entries (
      sym (
        ap (λ b. if b then presented (extract_token headers) config.tokens else granted anonymous)
          r.is_on)
      ∙ h)

-- Where the check is switched on with tokens that were accepted, a request gets an actor only if it
-- presents that actor's own token, and the configuration after the check is again switched on with
-- accepted tokens, whatever the file holds by then.
pub authenticate-extract_token :
    (file : TokenFile) (headers : Headers) (config after : AuthConfig) (actor : AccessToken)
    → IsReady config
    → authenticate file headers config ≡ some (after, granted actor)
    → (extract_token headers ≡ some actor.token) × IsReady after
unfolding authenticate
authenticate-extract_token file headers config after actor r h =
    let step : (c : AuthConfig) × (refresh_if_needed file config ≡ some c)
        × (some (c, check_headers headers c) ≡ some (after, granted actor)) =
      and_then-some (refresh_if_needed file config) _ (after, granted actor) h in
    let same = some-injective _ (after, granted actor) step.2 in
    let ready = refresh_if_needed-IsReady file config step.0 r step.1 in
    (
      check_headers-token headers step.0 actor ready (ap (λ p. p.1) same),
      subst IsReady (ap (λ p. p.0) same) ready,
    )
