-- ===== src/Triage/Tests.antt =====
-- Runs of the triage store and the access check, and the theorems at concrete inputs.
use auditlens.Prelude.{
  ◌≡◌, refl, Bool, true, false, Option, some, none, List, [], ◌∷◌, String, str_eq, All,
  if◌then◌else◌,
}
use auditlens.Prelude.Assoc.{lookup, insert}
use auditlens.Triage.{
  write_error, set_to, get_triage-set_triage, Store, no_file, new_entry, get_triage, set_triage,
  restart,
}
use auditlens.Triage.Access.{
  RawToken, responder, AuthConfig, from_json, add_tokens, AccessToken, Headers, extract_token,
  absent, authenticate, refresh_if_needed, check_headers, match_token,
}
use auditlens.Triage.Access.Granted.{from_json-IsConfigured, IsReady, authenticate-extract_token}

abbrev empty : Store
empty = record { cache = none; file = no_file }

get_triage-set_triage_example :
    let r = set_triage "e1" "resolved" (some "ann") none "10:00" false empty in
    let entry = new_entry "resolved" (some "ann") none "10:00" in
    let expected = if str_eq "e1" "e1" then entry else (get_triage "e1" empty).0 in
    (r.0 ≡ (if false then set_to entry else write_error))
    × ((get_triage "e1" r.1).0 ≡ expected)
    × ((get_triage "e1" (restart r.1)).0
        ≡ (if false then expected else (get_triage "e1" (restart empty)).0))
unfolding auditlens.Prelude.is_in
get_triage-set_triage_example =
    get_triage-set_triage "e1" "e1" "resolved" (some "ann") none "10:00" false empty refl

abbrev raw : RawToken
raw = record {
  role = some responder;
  role_text = "responder";
  token = some " abc ";
  actor_id = "";
  name = "ann";
  organizations = [];
  environments = [];
  clusters = "*" ∷ [];
}

abbrev ann : AccessToken
ann = record {
  token = "abc";
  actor_id = "ann";
  role = responder;
  organizations = [];
  environments = [];
  clusters = "*" ∷ [];
}

abbrev config : AuthConfig
config = record {
  enabled = true;
  tokens = ("abc", ann) ∷ [];
  token_file = true;
  token_file_mtime = none;
}

loaded : from_json (some (raw ∷ [])) true none ≡ some config
unfolding from_json add_tokens lookup insert auditlens.Prelude.strip
loaded = refl

abbrev headers : Headers
headers = record { authorization = some "Bearer abc"; api_key = none }

config-IsReady : IsReady config
config-IsReady = record {
  is_on = refl;
  accepted = from_json-IsConfigured (some (raw ∷ [])) true none config loaded;
}

authenticate-extract_token_example : (extract_token headers ≡ some "abc") × IsReady config
unfolding authenticate refresh_if_needed check_headers match_token extract_token
    auditlens.Prelude.strip_prefix auditlens.Prelude.strip
authenticate-extract_token_example =
    authenticate-extract_token absent headers config config ann config-IsReady refl
