-- ===== src/Transformer/Crn.antt =====
-- Confluent resource names: `parse_crn` of src/product/resource_intelligence.py, and `build_crn` and
-- the extraction of a cluster from src/transformer/crn_parser.py. `None` and the empty text are told
-- apart in what is parsed, not in what is built.
pub mod Segments
pub mod Parsing
pub mod RoundTrip
use Prim.Native.Char.{Char, code}
use Prim.Native.String.{◌++◌}
use auditlens.Prelude.{
  ℕ, Bool, true, false, ◌&&◌, Option, none, some, List, [], ◌∷◌, String, ◌==◌, str_eq, has_prefix,
  strip_prefix, has_part, is_some, join, truthy, if◌then◌else◌,
}
use auditlens.Prelude.Eq.{string_eq}
use auditlens.Prelude.Assoc.{Dict, lookup, insert}

-- `CRNComponents`
pub record CrnComponents : Type 0 where
  pub raw : String
  pub is_valid : Bool
  pub organization_id : Option String
  pub environment_id : Option String
  pub cluster_type : Option String
  pub cluster_id : Option String
  pub resource_type : Option String
  pub resource_id : Option String
  pub all_components : Dict String String

abbrev pub crn_prefix : String
crn_prefix = "crn://confluent.cloud"

abbrev pub put_first : Char → List String → List String
put_first c [] = String.◌∷◌ c String.[] ∷ []
put_first c (part ∷ parts) = String.◌∷◌ c part ∷ parts

-- `s.split(c)`, the separator given by its code
unfoldable pub split : ℕ → String → List String
split c String.[] = String.[] ∷ []
split c (String.◌∷◌ d s) =
    let rest = split c s in if code d == c then String.[] ∷ rest else put_first d rest

abbrev pub extend_key : Char → Option (String × String) → Option (String × String)
extend_key c none = none
extend_key c (some (key, value)) = some (String.◌∷◌ c key, value)

-- `segment.split("=", 1)` where `"=" in segment`
unfoldable pub key_value : String → Option (String × String)
key_value String.[] = none
key_value (String.◌∷◌ c s) =
    let rest = key_value s in if code c == 61 then some (String.[], s) else extend_key c rest

abbrev pub add_segment : Option (String × String) → Dict String String → Dict String String
add_segment none components = components
add_segment (some (key, value)) components = insert key value components

-- the loop over the segments of the path
unfoldable pub add_segments : List String → Dict String String → Dict String String
add_segments [] components = components
add_segments (segment ∷ segments) components =
    add_segments segments (add_segment (key_value segment) components)

abbrev pub cluster_types : List String
cluster_types = "kafka" ∷ "schema-registry" ∷ "ksqldb" ∷ "flink" ∷ "connect" ∷ "cloud-cluster" ∷ []

abbrev pub resource_types : List String
resource_types =
    "topic" ∷ "group" ∷ "transactional-id" ∷ "cluster-link" ∷ "subject" ∷ "connector" ∷ "statement"
    ∷ "compute-pool" ∷ "service-account" ∷ "user" ∷ "api-key" ∷ "identity-pool"
    ∷ "identity-provider" ∷ "network" ∷ "peering" ∷ "private-link" ∷ []

abbrev pub found_as : String → Option String → Option (String × String) → Option (String × String)
found_as type none rest = rest
found_as type (some id) rest = some (type, id)

-- the first of the types that is a key, with its value
unfoldable pub first_of : List String → Dict String String → Option (String × String)
first_of [] components = none
first_of (type ∷ types) components =
    found_as type (lookup type components) (first_of types components)

-- the type that the prefix of a cluster's id tells
pub type_of_id : String → Option String
type_of_id id =
    if has_prefix "lkc-" id
    then some "kafka"
    else if has_prefix "lsrc-" id
    then some "schema-registry"
    else if has_prefix "lksqlc-" id
    then some "ksqldb"
    else if has_prefix "lfcp-" id
    then some "flink"
    else none

unfoldable pub cluster_type_of : Option (String × String) → Option String
cluster_type_of none = none
cluster_type_of (some (type, id)) =
    if str_eq type "cloud-cluster" then (if truthy id then type_of_id id else none) else some type

abbrev pub type_in : Option (String × String) → Option String
type_in none = none
type_in (some (type, id)) = some type

abbrev pub id_in : Option (String × String) → Option String
id_in none = none
id_in (some (type, id)) = some id

abbrev empty_crn : String → Bool → CrnComponents
empty_crn raw is_valid = record {
  raw = raw;
  is_valid = is_valid;
  organization_id = none;
  environment_id = none;
  cluster_type = none;
  cluster_id = none;
  resource_type = none;
  resource_id = none;
  all_components = [];
}

-- what is found in the components
abbrev pub crn_of : String → Dict String String → CrnComponents
crn_of crn components = record {
  raw = crn;
  is_valid = true;
  organization_id = lookup "organization" components;
  environment_id = lookup "environment" components;
  cluster_type = cluster_type_of (first_of cluster_types components);
  cluster_id = id_in (first_of cluster_types components);
  resource_type = type_in (first_of resource_types components);
  resource_id = id_in (first_of resource_types components);
  all_components = components;
}

abbrev pub parse_path : String → Option String → CrnComponents
parse_path crn none = empty_crn crn false
parse_path crn (some path) =
    if truthy path then crn_of crn (add_segments (split 47 path) []) else empty_crn crn true

-- `parse_crn`, with `None` as the empty text
unfoldable pub parse_crn : String → CrnComponents
parse_crn crn = parse_path crn (strip_prefix (crn_prefix ++ "/") crn)

-- `f"{key}={value}"`
abbrev pub segment_of : String → String → String
segment_of key value = key ++ "=" ++ value

abbrev pub part_if : Bool → String → List String → List String
part_if present part rest = if present then part ∷ rest else rest

-- `build_crn`
pub build_crn : String → String → String → String → String → String → String
build_crn organization_id environment_id cluster_type cluster_id resource_type resource_id =
    join "/" (
      crn_prefix
      ∷ part_if (truthy organization_id) (segment_of "organization" organization_id) (
          part_if (truthy environment_id) (segment_of "environment" environment_id) (
            part_if (truthy cluster_type && truthy cluster_id) (segment_of cluster_type cluster_id)
              (part_if (truthy resource_type && truthy resource_id)
                (segment_of resource_type resource_id) []))))
