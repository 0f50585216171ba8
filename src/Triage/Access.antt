-- ===== src/Triage/Access.antt =====
-- src/product/auth.py: access tokens, their file, and the check of a request. An entry of the JSON
-- list is a record; what is missing and makes the code raise is `none`.
pub mod Granted
use auditlens.Prelude.{
  ℕ, ◌≡◌, refl, ap, ◌∙◌, Bool, true, false, not, ◌&&◌, ◌||◌, Option, none, some, List, [], ◌∷◌,
  ◌++◌, String, arith, All, All-append, any_of, ltb, leb, is_in, is_some, or_else, str_eq, eq_iff,
  strip, truthy, strip_prefix, Bool-cases, Option-cases, inl, inr, if◌then◌else◌,
}
use auditlens.Prelude.Eq.{string_eq}
use auditlens.Prelude.Assoc.{Dict, lookup, insert, Distinct}

pub data Role : Type 0 where
  viewer responder exporter admin : Role

pub record AccessToken : Type 0 where
  pub token : String
  pub actor_id : String
  pub role : Role
  pub organizations : List String
  pub environments : List String
  pub clusters : List String

-- `can_export` and `can_view`
pub can_export : AccessToken → Bool
can_export t = elim t.role [ exporter ↦ true | admin ↦ true | viewer ↦ false | responder ↦ false ]

pub can_view : AccessToken → Bool
can_view t = elim t.role [ exporter ↦ true | admin ↦ true | viewer ↦ true | responder ↦ true ]

-- `_scope_match`
unfoldable pub scope_match : List String → Option String → Bool
scope_match allowed none = is_in "*" allowed
scope_match allowed (some value) = is_in "*" allowed || is_in value allowed

-- `scope_allows`
pub scope_allows : AccessToken → Option String → Option String → Option String → Bool
scope_allows t organization_id environment_id cluster_id =
    scope_match t.organizations organization_id
    && scope_match t.environments environment_id
    && scope_match t.clusters cluster_id

pub record RawToken : Type 0 where
  pub role : Option Role
  -- `role.value`
  pub role_text : String
  pub token : Option String
  pub actor_id : String
  pub name : String
  pub organizations : List String
  pub environments : List String
  pub clusters : List String

abbrev pub Tokens : Type 0
Tokens = Dict String AccessToken

abbrev pub token_of : RawToken → Role → String → AccessToken
token_of raw role token = record {
  token = strip token;
  actor_id = strip (or_else raw.actor_id (or_else raw.name raw.role_text));
  role = role;
  organizations = raw.organizations;
  environments = raw.environments;
  clusters = raw.clusters;
}

abbrev pub blank_in : List String → Bool
blank_in scopes = any_of (λ v. not (truthy (strip v))) scopes

-- the checks of an entry, `none` where it raises
abbrev pub checked_token : AccessToken → Tokens → Option Tokens
checked_token t tokens =
    if not (truthy t.token)
    then none
    else if not (truthy t.actor_id)
    then none
    else if blank_in (t.organizations ++ t.environments ++ t.clusters)
    then none
    else if is_some (lookup t.token tokens)
    then none
    else some (insert t.token t tokens)

abbrev pub parsed_token : RawToken → Option Role → Option String → Tokens → Option Tokens
parsed_token raw (some role) (some token) tokens = checked_token (token_of raw role token) tokens
parsed_token raw _ _ tokens = none

abbrev pub and_then {ℓ} : {A B : Type ℓ} → Option A → (A → Option B) → Option B
and_then none f = none
and_then (some a) f = f a

-- the loop over the list
unfoldable pub add_tokens : List RawToken → Tokens → Option Tokens
add_tokens [] tokens = some tokens
add_tokens (raw ∷ raws) tokens =
    and_then (parsed_token raw raw.role raw.token tokens) (add_tokens raws)

-- `AuthConfig`
pub record AuthConfig : Type 0 where
  pub enabled : Bool
  pub tokens : Tokens
  pub token_file : Bool
  pub token_file_mtime : Option ℕ

-- `from_json`; the JSON is `none` where it is no list of objects
unfoldable pub from_json : Option (List RawToken) → Bool → Option ℕ → Option AuthConfig
from_json none token_file mtime = none
from_json (some raws) token_file mtime = and_then (add_tokens raws []) (λ tokens.
    some (record {
      enabled = true;
      tokens = tokens;
      token_file = token_file;
      token_file_mtime = mtime;
    }))

pub record Headers : Type 0 where
  pub authorization : Option String
  pub api_key : Option String

abbrev stripped : Option String → Option String
stripped none = none
stripped (some s) = some (strip s)

abbrev bearer : Option String → Option String
bearer none = none
bearer (some header) = stripped (strip_prefix "Bearer " header)

abbrev key_of : Option String → Option String
key_of none = none
key_of (some key) = if truthy key then some (strip key) else none

-- `_extract_token`
unfoldable pub extract_token : Headers → Option String
extract_token headers = elim (bearer headers.authorization) [
  | some token ↦ some token
  | none ↦ key_of headers.api_key
]

-- `_match_token`
unfoldable pub match_token : String → Tokens → Option AccessToken
match_token provided [] = none
match_token provided ((stored, actor) ∷ tokens) =
    if str_eq stored provided then some actor else match_token provided tokens

-- What `refresh_if_needed` finds: no file, or one with a time of modification and what it holds.
pub data TokenFile : Type 0 where
  absent : TokenFile
  present : ℕ → Option (List RawToken) → TokenFile

abbrev is_newer : ℕ → Option ℕ → Bool
is_newer mtime none = true
is_newer mtime (some known) = ltb known mtime

-- `refresh_if_needed`, `none` where it raises
unfoldable pub refresh_if_needed : TokenFile → AuthConfig → Option AuthConfig
refresh_if_needed absent config = some config
refresh_if_needed (present mtime content) config =
    if config.enabled && config.token_file && is_newer mtime config.token_file_mtime
    then from_json content true (some mtime)
    else some config

pub data AuthResult : Type 0 where
  granted : AccessToken → AuthResult
  missing_credentials invalid_credentials : AuthResult

abbrev pub anonymous : AccessToken
anonymous = record {
  token = "anonymous-dev";
  actor_id = "anonymous-dev";
  role = viewer;
  organizations = "*" ∷ [];
  environments = "*" ∷ [];
  clusters = "*" ∷ [];
}

abbrev pub matched : Option AccessToken → AuthResult
matched none = invalid_credentials
matched (some actor) = granted actor

abbrev pub presented : Option String → Tokens → AuthResult
presented none tokens = missing_credentials
presented (some token) tokens =
    if truthy token then matched (match_token token tokens) else missing_credentials

unfoldable pub check_headers : Headers → AuthConfig → AuthResult
check_headers headers config =
    if config.enabled then presented (extract_token headers) config.tokens else granted anonymous

-- `authenticate`: the configuration after the refresh and the answer, `none` where it raises
unfoldable pub authenticate : TokenFile → Headers → AuthConfig → Option (AuthConfig × AuthResult)
authenticate file headers config =
    and_then (refresh_if_needed file config) (λ c. some (c, check_headers headers c))

-- `require_view` and `require_export`
pub require_view : AccessToken → Bool
require_view = can_view

pub require_export : AccessToken → Bool
require_export = can_export
