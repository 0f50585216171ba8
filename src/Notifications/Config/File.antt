-- ===== src/Notifications/Config/File.antt =====
-- `_load_config` and `_maybe_reload` (notifier.py): what is read of notifications.yml, and when.
use auditlens.Prelude.{
  right_slashes, ℕ, Bool, true, false, Option, none, some, List, [], String, ltb, ◌==◌, any_of,
  strip, if◌then◌else◌,
}
use auditlens.Prelude.Int.{ℤ, pos}
use auditlens.Notifications.{Destination}
use auditlens.Notifications.Config.{Network, RawEntry, parse_destinations}

pub data RawDestinations : Type 0 where
  destinations_missing destinations_not_list : RawDestinations
  destinations_list : List RawEntry → RawDestinations

-- The top of the file; the options are `none` where the key is missing or of another type.
pub record RawConfig : Type 0 where
  pub destinations : RawDestinations
  pub app_base_url : Option String
  pub pipeline_health_check_enabled : Option Bool
  pub pipeline_silence_threshold_minutes : Option ℤ

pub data ConfigFile : Type 0 where
  -- no such file; an error of YAML or of the system; what was read at a time of modification
  missing unreadable : ConfigFile
  other_value : ℕ → ConfigFile
  mapping : ℕ → RawConfig → ConfigFile

-- the fields of `AuditLensNotifier` that the file sets
pub record Config : Type 0 where
  pub destinations : List Destination
  pub app_base_url : String
  pub pipeline_health_check_enabled : Bool
  pub pipeline_silence_threshold_minutes : ℕ
  pub mtime : Option ℕ

abbrev base_url_of : Option String → String
base_url_of none = ""
base_url_of (some url) = right_slashes (strip url)

abbrev threshold_of : Option ℤ → ℕ
threshold_of (some (pos n)) = if ltb 0 n then n else 30
threshold_of _ = 30

abbrev with_settings : RawConfig → Config → Config
with_settings raw config = record config {
  app_base_url = base_url_of raw.app_base_url;
  pipeline_health_check_enabled = elim raw.pipeline_health_check_enabled [
    | none ↦ true
    | some enabled ↦ enabled
  ];
  pipeline_silence_threshold_minutes = threshold_of raw.pipeline_silence_threshold_minutes;
}

abbrev disabled : Option ℕ → Config → Config
disabled mtime config = record config { destinations = []; mtime = mtime }

abbrev loaded : Network → ℕ → List RawEntry → Config → Config
loaded net mtime entries config = record config {
  destinations = parse_destinations net entries;
  mtime = some mtime;
}

unfoldable pub load_mapping : Network → ℕ → RawConfig → Config → Config
load_mapping net mtime raw config = elim raw.destinations [
  | destinations_missing ↦ loaded net mtime [] (with_settings raw config)
  | destinations_not_list ↦ disabled (some mtime) config
  | destinations_list entries ↦ loaded net mtime entries (with_settings raw config)
]

-- `_load_config`
unfoldable pub load_config : Network → ConfigFile → Config → Config
unfolding load_mapping
load_config net missing config = disabled none config
load_config net unreadable config = disabled none config
load_config net (other_value mtime) config = loaded net mtime [] (record config {
  app_base_url = "";
  pipeline_health_check_enabled = true;
  pipeline_silence_threshold_minutes = 30;
})
load_config net (mapping mtime raw) config = load_mapping net mtime raw config

abbrev same_time : ℕ → Option ℕ → Bool
same_time mtime none = false
same_time mtime (some last) = mtime == last

-- `_maybe_reload`: the time of modification, `none` where it cannot be read, and what a reload finds
unfoldable pub maybe_reload : Network → Option ℕ → ConfigFile → Config → Config
maybe_reload net none file config = config
maybe_reload net (some mtime) file config =
    if same_time mtime config.mtime then config else load_config net file config

-- `has_destinations`
pub has_destinations : Config → Bool
has_destinations config = any_of (λ d. d.enabled) config.destinations
