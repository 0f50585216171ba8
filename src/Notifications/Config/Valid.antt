-- ===== src/Notifications/Config/Valid.antt =====
-- What every configured destination fulfils (notifier.py).
use auditlens.Prelude.{
  ◌≡◌, refl, true, false, ◌||◌, Option, none, some, List, [], ◌∷◌, String, arith, All, subst, lower,
  or_else, is_in, is_some, str_eq, eq_iff, Option-cases, Bool-cases, inl, inr, if◌then◌else◌,
}
use mathlib.Core.Option.{none-ne-some}
use auditlens.Notifications.{Filters, Destination, some_in}
use auditlens.Notifications.Digest.{schedule_time}
use auditlens.Notifications.Config.{
  Address, Network, is_internal, is_placeholder_url, validate_webhook_url, is_accepted,
  RawDestination, RawEntry, entry_not_mapping, entry_mapping, valid_types, check_target, target_url,
  checked_destination, parse_destination, parse_destinations, destination_of, add_some,
  parse_filtered, filters_of, schedule_of, mode_of,
}
use auditlens.Notifications.Config.File.{
  ConfigFile, missing, unreadable, other_value, mapping, Config, load_config, RawDestinations,
  destinations_missing, destinations_not_list, destinations_list,
}

-- The address of an HTTPS server that is not an internal one.
pub record IsPublic (net : Network) (url : String) : Type 0 where
  pub https : net.scheme url ≡ "https"
  pub address : Address
  pub resolves : net.resolve (net.hostname url) ≡ some address
  pub external : is_internal address ≡ false

pub record IsValid (net : Network) (d : Destination) : Type 0 where
  pub known_type : is_in d.type valid_types ≡ true
  pub configured : is_placeholder_url (check_target d.type d.webhook_url d.integration_key) ≡ false
  pub target : IsPublic net (target_url d.type d.webhook_url)
  pub some_signal : some_in d.filters.signal_type ≡ true
  pub known_mode : (str_eq d.mode "realtime" || str_eq d.mode "digest") ≡ true
  pub never_digest : str_eq d.type "pagerduty" ≡ true → d.mode ≡ "realtime"
  pub some_schedule : is_some (schedule_time d.digest_schedule) ≡ true

validate-IsPublic :
    (net : Network) (url : String)
    → is_accepted (validate_webhook_url net url) ≡ true
    → IsPublic net url
unfolding validate_webhook_url
validate-IsPublic net url h = elim (Option-cases (net.resolve (net.hostname url))) [
  | inl none_found ↦ let no : ⊥ = ground (arith, h, none_found) in elim no [ ]
  | inr (ip, found) ↦ record {
    https = ground (arith, h, eq_iff (net.scheme url) "https");
    address = ip;
    resolves = found;
    external = ground (arith, h, found);
  }
]

schedule_of_valid : (raw : String) → is_some (schedule_time (schedule_of raw)) ≡ true
unfolding schedule_time
schedule_of_valid raw = checked (or_else raw "09:00")
  where
    checked :
        (s : String)
        → is_some (schedule_time (if is_some (schedule_time s) then s else "09:00")) ≡ true
    checked s = elim (Bool-cases (is_some (schedule_time s))) [
      | inl good ↦ rw good good
      | inr bad ↦ rw bad refl
    ]

mode_of_valid :
    (raw : String) → (str_eq (mode_of raw) "realtime" || str_eq (mode_of raw) "digest") ≡ true
mode_of_valid raw = checked (lower (or_else raw "realtime"))
  where
    checked :
        (m : String)
        → let mode = if str_eq m "realtime" || str_eq m "digest" then m else "realtime" in
          (str_eq mode "realtime" || str_eq mode "digest") ≡ true
    checked m = elim (Bool-cases (str_eq m "realtime" || str_eq m "digest")) [
      | inl good ↦ rw good good
      | inr bad ↦ rw bad refl
    ]

module _ (net : Network) (entry : RawDestination) (type url : String) (filters : Filters) where
  abbrev result : Destination
  result = destination_of entry type url filters

  -- An entry that passes the tests.
  record Passes : Type 0 where
    known_type : is_in type valid_types ≡ true
    configured : is_placeholder_url (check_target type url entry.integration_key) ≡ false
    reachable : is_accepted (validate_webhook_url net (target_url type url)) ≡ true
    some_signal : some_in filters.signal_type ≡ true

  result-IsValid : Passes → IsValid net result
  result-IsValid h = record {
    known_type = h.known_type;
    configured = h.configured;
    target = validate-IsPublic net _ h.reachable;
    some_signal = h.some_signal;
    known_mode = elim (Bool-cases (str_eq type "pagerduty")) [
      | inl pd ↦ rw pd refl
      | inr other ↦ rw other (mode_of_valid entry.mode)
    ];
    never_digest = λ pd. rw pd refl;
    some_schedule = schedule_of_valid entry.digest_schedule;
  }

  checked-IsValid :
      (d : Destination) → checked_destination net entry type url filters ≡ some d → IsValid net d
  unfolding checked_destination
  checked-IsValid d h = subst (IsValid net) same (
      result-IsValid (record {
        known_type = ground (arith, h);
        configured = ground (arith, h);
        reachable = ground (arith, h);
        some_signal = ground (arith, h);
      }))
    where
      same : result ≡ d
      same = ground (arith, h)

parse_destination-IsValid :
    (net : Network) (entry : RawEntry) (d : Destination)
    → parse_destination net entry ≡ some d
    → IsValid net d
unfolding parse_destination
parse_destination-IsValid net entry_not_mapping d h = elim (none-ne-some d h) [ ]
parse_destination-IsValid net (entry_mapping entry) d h = filtered (filters_of entry.filters) h
  where
    filtered : (o : Option Filters) → parse_filtered net entry o ≡ some d → IsValid net d
    filtered none e = elim (none-ne-some d e) [ ]
    filtered (some filters) e = checked-IsValid net entry _ _ filters d e

pub parse_destinations-IsValid :
    (net : Network) (entries : List RawEntry) → All (IsValid net) (parse_destinations net entries)
unfolding parse_destinations
parse_destinations-IsValid net [] = tt
parse_destinations-IsValid net (entry ∷ entries) =
    added (parse_destination net entry) (parse_destination-IsValid net entry)
      (parse_destinations-IsValid net entries)
  where
    added :
        (o : Option Destination)
        → ((d : Destination) → o ≡ some d → IsValid net d)
        → All (IsValid net) (parse_destinations net entries)
        → All (IsValid net) (add_some o (parse_destinations net entries))
    added none f rest = rest
    added (some d) f rest = (f d refl, rest)

-- Whatever the file holds, every destination after a load has a known type, no placeholder for its
-- URL or key, an HTTPS target whose address is not internal, a signal type to match, a known mode
-- and schedule, and is no digest when it is of PagerDuty.
pub load_config-IsValid :
    (net : Network) (file : ConfigFile) (config : Config)
    → All (IsValid net) (load_config net file config).destinations
unfolding load_config
load_config-IsValid net missing config = tt
load_config-IsValid net unreadable config = tt
load_config-IsValid net (other_value mtime) config = parse_destinations-IsValid net []
load_config-IsValid net (mapping mtime raw) config = loaded raw.destinations
  where
    open raw use {app_base_url, pipeline_health_check_enabled, pipeline_silence_threshold_minutes}

    loaded :
        (destinations : RawDestinations)
        → All
            (IsValid net)
            (load_config net
              (mapping mtime (record raw { destinations = destinations }))
              config).destinations
    loaded destinations_missing = parse_destinations-IsValid net []
    loaded destinations_not_list = tt
    loaded (destinations_list entries) = parse_destinations-IsValid net entries
