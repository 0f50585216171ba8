-- ===== src/Notifications/Config.antt =====
-- `_load_config`, `_parse_destination` and the checks of a webhook's address (notifier.py). The YAML
-- file arrives as values of the shapes that the code tells apart; the parts of an address, the name
-- server and the secret store are outside.
pub mod File
pub mod Valid
use auditlens.Prelude.{
  ℕ, Bool, true, false, not, ◌&&◌, ◌||◌, Option, none, some, List, [], ◌∷◌, String, ltb, lower,
  is_in, str_eq, leb, ◌==◌, any_of, has_any, has_prefix, strip, truthy, or_else, is_some,
  if◌then◌else◌,
}
use auditlens.Prelude.Int.{ℤ, pos, negsuc}
use auditlens.Notifications.{items, Filters, Destination, some_in}
use auditlens.Notifications.Digest.{schedule_time}

-- `ipaddress.ip_address(ip)`
pub record Address : Type 0 where
  pub is_private : Bool
  pub is_loopback : Bool
  pub is_link_local : Bool
  pub is_reserved : Bool
  pub is_unspecified : Bool

pub record Network : Type 0 where
  -- `urlparse(url).scheme`, and `.hostname or ""`
  pub scheme : String → String
  pub hostname : String → String
  -- `socket.gethostbyname`, `none` where it raises
  pub resolve : String → Option Address
  -- `resolve_asm_reference`, `none` where it raises
  pub resolve_secret : String → Option String

abbrev placeholder_url_markers : List String
placeholder_url_markers =
    "replace_me" ∷ "replace_with" ∷ "company.webhook" ∷ "your-siem" ∷ "services/replace" ∷ []

-- `_is_placeholder_url`, the markers in lower case
unfoldable pub is_placeholder_url : String → Bool
is_placeholder_url value = not (truthy value) || has_any placeholder_url_markers (lower value)

abbrev pub is_internal : Address → Bool
is_internal ip =
    ip.is_private || ip.is_loopback || ip.is_link_local || ip.is_reserved || ip.is_unspecified

pub data UrlCheck : Type 0 where
  accepted not_https no_hostname unresolved internal_address : UrlCheck

abbrev check_address : Option Address → UrlCheck
check_address none = unresolved
check_address (some ip) = if is_internal ip then internal_address else accepted

-- `_validate_webhook_url`, with a constructor for each of its errors
unfoldable pub validate_webhook_url : Network → String → UrlCheck
validate_webhook_url net url =
    if not (str_eq (net.scheme url) "https")
    then not_https
    else if not (truthy (net.hostname url))
    then no_hostname
    else check_address (net.resolve (net.hostname url))

abbrev pub is_accepted : UrlCheck → Bool
is_accepted accepted = true
is_accepted _ = false

pub data RawFilters : Type 0 where
  filters_missing filters_not_mapping : RawFilters
  filters_mapping : Filters → RawFilters

pub data RawRate : Type 0 where
  -- the key is missing, `int` raises, or what `int` returns
  rate_missing rate_not_int : RawRate
  rate_int : ℤ → RawRate

-- A mapping under `destinations`; a missing or empty text is the empty text.
pub record RawDestination : Type 0 where
  pub name : String
  pub type : String
  pub webhook_url : String
  pub enabled : Bool
  pub filters : RawFilters
  pub integration_key : String
  pub rate_limit_per_minute : RawRate
  pub mode : String
  pub digest_schedule : String

pub data RawEntry : Type 0 where
  entry_not_mapping : RawEntry
  entry_mapping : RawDestination → RawEntry

abbrev valid_types : List String
valid_types = "slack" ∷ "teams" ∷ "webhook" ∷ "pagerduty" ∷ []

abbrev pub pagerduty_endpoint_url : String
pagerduty_endpoint_url = "https://events.pagerduty.com/v2/enqueue"

abbrev secret_or : String → Option String → String
secret_or url none = url
secret_or url (some secret) = secret

-- the `asm:` references
abbrev resolved_url : Network → String → String
resolved_url net url = if has_prefix "asm:" url then secret_or url (net.resolve_secret url) else url

abbrev no_filters : Filters
no_filters = record {
  signal_type = [];
  min_risk_level = "";
  action_category = items [];
  exclude_actions = items [];
}

-- `entry.get("filters") or {}`
abbrev filters_of : RawFilters → Option Filters
filters_of filters_missing = some no_filters
filters_of filters_not_mapping = none
filters_of (filters_mapping filters) = some filters

abbrev pub rate_limit_default : ℕ
rate_limit_default = 10

abbrev pub rate_of : RawRate → ℕ
rate_of (rate_int (pos n)) = n
rate_of _ = rate_limit_default

abbrev mode_of : String → String
mode_of raw =
    let mode = lower (or_else raw "realtime") in
    if str_eq mode "realtime" || str_eq mode "digest" then mode else "realtime"

abbrev schedule_of : String → String
schedule_of raw =
    let schedule = or_else raw "09:00" in
    if is_some (schedule_time schedule) then schedule else "09:00"

-- the URL or key that must not be a placeholder
abbrev check_target : String → String → String → String
check_target type webhook_url integration_key =
    if str_eq type "pagerduty" then integration_key else webhook_url

-- the address that is posted to
abbrev pub target_url : String → String → String
target_url type webhook_url =
    if str_eq type "pagerduty" then pagerduty_endpoint_url else webhook_url

abbrev destination_of : RawDestination → String → String → Filters → Destination
destination_of entry type webhook_url filters = record {
  name = or_else entry.name "unnamed";
  type = type;
  webhook_url = webhook_url;
  enabled = entry.enabled;
  filters = filters;
  integration_key = entry.integration_key;
  rate_limit_per_minute = rate_of entry.rate_limit_per_minute;
  mode = if str_eq type "pagerduty" then "realtime" else mode_of entry.mode;
  digest_schedule = schedule_of entry.digest_schedule;
}

-- the tests of `_parse_destination` once the filters are known to be a mapping
unfoldable pub checked_destination :
    Network → RawDestination → String → String → Filters → Option Destination
checked_destination net entry type webhook_url filters =
    if not (is_in type valid_types)
    then none
    else if is_placeholder_url (check_target type webhook_url entry.integration_key)
    then none
    else if not (is_accepted (validate_webhook_url net (target_url type webhook_url)))
    then none
    else if not (some_in filters.signal_type)
    then none
    else some (destination_of entry type webhook_url filters)

abbrev pub parse_filtered : Network → RawDestination → Option Filters → Option Destination
parse_filtered net entry none = none
parse_filtered net entry (some filters) =
    checked_destination net entry (lower entry.type) (resolved_url net entry.webhook_url) filters

-- `_parse_destination`
unfoldable pub parse_destination : Network → RawEntry → Option Destination
parse_destination net entry_not_mapping = none
parse_destination net (entry_mapping entry) = parse_filtered net entry (filters_of entry.filters)

abbrev pub add_some {ℓ} : {A : Type ℓ} → Option A → List A → List A
add_some none xs = xs
add_some (some x) xs = x ∷ xs

unfoldable pub parse_destinations : Network → List RawEntry → List Destination
parse_destinations net [] = []
parse_destinations net (entry ∷ entries) =
    add_some (parse_destination net entry) (parse_destinations net entries)
