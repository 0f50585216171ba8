-- ===== src/Transformer/Crn/RoundTrip.antt =====
-- `parse_crn` reads what `build_crn` writes (resource_intelligence.py, crn_parser.py).
use auditlens.Prelude.{
  ◌≡◌, refl, sym, ap, subst, ◌∙◌, Bool, true, false, not, ◌&&◌, Option, none, some, List, [], ◌∷◌,
  String, arith, All, str_eq, eq_iff, is_in, join, truthy, Bool-cases, inl, inr, if◌then◌else◌,
}
use auditlens.Prelude.Eq.{string_eq}
use auditlens.Prelude.Assoc.{Dict, lookup}
use auditlens.Transformer.Crn.{
  CrnComponents, crn_prefix, cluster_types, resource_types, found_as, first_of, cluster_type_of,
  crn_of, parse_crn, build_crn,
}
use auditlens.Transformer.Crn.Segments.{
  lacks, truthy-segment_of, is_in-all_of, Pairs, segments, Separable, put_if, put_pairs,
  add_segments-segments, segments-lack, lookup-put_if,
}
use auditlens.Transformer.Crn.Parsing.{some_part, parse_crn-parts, first_of-only}

-- the types of clusters that a name tells apart by themselves
abbrev pub named_clusters : List String
named_clusters = "kafka" ∷ "schema-registry" ∷ "ksqldb" ∷ "flink" ∷ "connect" ∷ []

abbrev pub when_given : Bool → String → Option String
when_given b s = if b then some s else none

-- What a name is built from.
pub record CrnParts : Type 0 where
  pub organization_id : String
  pub environment_id : String
  pub cluster_type : String
  pub cluster_id : String
  pub resource_type : String
  pub resource_id : String

-- The types are known ones, and no id has a slash.
pub record IsBuildable (p : CrnParts) : Type 0 where
  pub cluster_named : is_in p.cluster_type named_clusters ≡ true
  pub resource_named : is_in p.resource_type resource_types ≡ true
  pub organization_plain : lacks 47 p.organization_id ≡ true
  pub environment_plain : lacks 47 p.environment_id ≡ true
  pub cluster_plain : lacks 47 p.cluster_id ≡ true
  pub resource_plain : lacks 47 p.resource_id ≡ true

-- The parts are found again, an empty id as an absent one.
pub record IsRead (p : CrnParts) (c : CrnComponents) : Type 0 where
  pub organization : c.organization_id ≡ when_given (truthy p.organization_id) p.organization_id
  pub environment : c.environment_id ≡ when_given (truthy p.environment_id) p.environment_id
  pub cluster_type : c.cluster_type ≡ when_given (truthy p.cluster_id) p.cluster_type
  pub cluster_id : c.cluster_id ≡ when_given (truthy p.cluster_id) p.cluster_id
  pub resource_type : c.resource_type ≡ when_given (truthy p.resource_id) p.resource_type
  pub resource_id : c.resource_id ≡ when_given (truthy p.resource_id) p.resource_id

abbrev pub build : CrnParts → String
build p =
    build_crn p.organization_id p.environment_id p.cluster_type p.cluster_id p.resource_type
      p.resource_id

abbrev pairs_of : CrnParts → Pairs
pairs_of p =
    (truthy p.organization_id, "organization", p.organization_id)
    ∷ (truthy p.environment_id, "environment", p.environment_id)
    ∷ (truthy p.cluster_type && truthy p.cluster_id, p.cluster_type, p.cluster_id)
    ∷ (truthy p.resource_type && truthy p.resource_id, p.resource_type, p.resource_id)
    ∷ []

-- A type can be told from the other parts of a name.
abbrev is_plain : String → Bool
is_plain t =
    truthy t
    && lacks 61 t
    && lacks 47 t
    && not (str_eq t "organization")
    && not (str_eq t "environment")

cluster_facts :
    (t : String)
    → is_in t named_clusters ≡ true
    → (is_plain t && is_in t cluster_types && not (str_eq t "cloud-cluster")) ≡ true
unfolding is_in lacks
cluster_facts t h =
    is_in-all_of (λ x. is_plain x && is_in x cluster_types && not (str_eq x "cloud-cluster")) t
      named_clusters refl h

resource_facts :
    (t : String)
    → is_in t resource_types ≡ true
    → (is_plain t && not (is_in t cluster_types)) ≡ true
unfolding is_in lacks
resource_facts t h =
    is_in-all_of (λ x. is_plain x && not (is_in x cluster_types)) t resource_types refl h

cluster_plain_facts :
    (t : String)
    → is_in t cluster_types ≡ true
    → (is_plain t && not (is_in t resource_types)) ≡ true
unfolding is_in lacks
cluster_plain_facts t h =
    is_in-all_of (λ x. is_plain x && not (is_in x resource_types)) t cluster_types refl h

-- Texts that a test tells apart.
differs : (q : String → Bool) (t u : String) → q t ≡ true → q u ≡ false → str_eq u t ≡ false
differs q t u h k = elim (Bool-cases (str_eq u t)) [
  | inl same ↦ let no : ⊥ = ground (arith, h, sym k ∙ ap q ((eq_iff u t).0 same)) in elim no [ ]
  | inr other ↦ other
]

module _ (p : CrnParts) (h : IsBuildable p) where
  abbrev found : Dict String String
  found = put_pairs (pairs_of p) []

  pairs-Separable : All Separable (pairs_of p)
  unfolding lacks
  pairs-Separable = (
    (refl, refl, h.organization_plain),
    (
      (refl, refl, h.environment_plain),
      (
        (
          ground (arith, cluster_facts p.cluster_type h.cluster_named),
          ground (arith, cluster_facts p.cluster_type h.cluster_named),
          h.cluster_plain,
        ),
        (
          (
            ground (arith, resource_facts p.resource_type h.resource_named),
            ground (arith, resource_facts p.resource_type h.resource_named),
            h.resource_plain,
          ),
          tt,
        ),
      ),
    ),
  )

  lookup-found :
      (j : String)
      → lookup j found ≡ (
          if truthy p.resource_id && str_eq p.resource_type j
          then some p.resource_id
          else if truthy p.cluster_id && str_eq p.cluster_type j
          then some p.cluster_id
          else if truthy p.environment_id && str_eq "environment" j
          then some p.environment_id
          else if truthy p.organization_id && str_eq "organization" j
          then some p.organization_id
          else none)
  unfolding lookup
  lookup-found j = ground (
    arith,
    cluster_facts p.cluster_type h.cluster_named,
    resource_facts p.resource_type h.resource_named,
    lookup-put_if j (truthy p.organization_id) "organization" p.organization_id [],
    lookup-put_if j (truthy p.environment_id) "environment" p.environment_id
        (put_if (truthy p.organization_id) "organization" p.organization_id []),
    lookup-put_if j (truthy p.cluster_type && truthy p.cluster_id) p.cluster_type p.cluster_id (
        put_if (truthy p.environment_id) "environment" p.environment_id
          (put_if (truthy p.organization_id) "organization" p.organization_id [])),
    lookup-put_if j (truthy p.resource_type && truthy p.resource_id) p.resource_type p.resource_id (
        put_if (truthy p.cluster_type && truthy p.cluster_id) p.cluster_type p.cluster_id (
          put_if (truthy p.environment_id) "environment" p.environment_id
            (put_if (truthy p.organization_id) "organization" p.organization_id []))),
  )

  resource_no_cluster : is_in p.resource_type cluster_types ≡ false
  resource_no_cluster = ground (arith, resource_facts p.resource_type h.resource_named)

  cluster_no_resource : is_in p.cluster_type resource_types ≡ false
  cluster_no_resource = ground (
    arith,
    cluster_plain_facts p.cluster_type
        (ground (arith, cluster_facts p.cluster_type h.cluster_named)),
  )

  lookup-cluster :
      (t : String)
      → is_in t cluster_types ≡ true
      → lookup t found
        ≡ (if str_eq p.cluster_type t then when_given (truthy p.cluster_id) p.cluster_id else none)
  unfolding is_in
  lookup-cluster t k =
      lookup-found t
      ∙ rw (differs (λ x. is_in x cluster_types) t p.resource_type k resource_no_cluster) rw
          (differs (λ x. is_in x cluster_types) t "environment" k refl) rw
          (differs (λ x. is_in x cluster_types) t "organization" k refl) (ground arith)

  lookup-resource :
      (t : String)
      → is_in t resource_types ≡ true
      → lookup t found ≡ (
          if str_eq p.resource_type t
          then when_given (truthy p.resource_id) p.resource_id
          else none)
  unfolding is_in
  lookup-resource t k =
      lookup-found t
      ∙ rw (differs (λ x. is_in x resource_types) t p.cluster_type k cluster_no_resource) rw
          (differs (λ x. is_in x resource_types) t "environment" k refl) rw
          (differs (λ x. is_in x resource_types) t "organization" k refl) (ground arith)

  cluster_found :
      first_of cluster_types found
      ≡ found_as p.cluster_type (when_given (truthy p.cluster_id) p.cluster_id) none
  cluster_found =
      first_of-only cluster_types p.cluster_type _ found lookup-cluster
        (ground (arith, cluster_facts p.cluster_type h.cluster_named))

  resource_found :
      first_of resource_types found
      ≡ found_as p.resource_type (when_given (truthy p.resource_id) p.resource_id) none
  resource_found =
      first_of-only resource_types p.resource_type _ found lookup-resource h.resource_named

  crn_of-IsRead : (crn : String) → IsRead p (crn_of crn found)
  unfolding cluster_type_of
  crn_of-IsRead crn = record {
    organization =
        lookup-found "organization"
        ∙ ground (
          arith,
          cluster_facts p.cluster_type h.cluster_named,
          resource_facts p.resource_type h.resource_named,
        );
    environment =
        lookup-found "environment"
        ∙ ground (
          arith,
          cluster_facts p.cluster_type h.cluster_named,
          resource_facts p.resource_type h.resource_named,
        );
    cluster_type = rw cluster_found (ground (arith, cluster_facts p.cluster_type h.cluster_named));
    cluster_id = rw cluster_found (ground arith);
    resource_type = rw resource_found (ground arith);
    resource_id = rw resource_found (ground arith);
  }

  segments-truthy : All (λ s. truthy s ≡ true) (segments (pairs_of p))
  segments-truthy = ground (
    arith,
    truthy-segment_of "organization" p.organization_id,
    truthy-segment_of "environment" p.environment_id,
    truthy-segment_of p.cluster_type p.cluster_id,
    truthy-segment_of p.resource_type p.resource_id,
  )

  -- A name that is built of ids without slashes, a cluster of a type that names tell apart and a
  -- resource of a known type is parsed into the same parts; an empty id is read as absent.
  pub parse_crn-build_crn : IsRead p (parse_crn (build p))
  unfolding build_crn
  parse_crn-build_crn = subst (IsRead p) (sym parsed) (record {
    organization = read.organization;
    environment = read.environment;
    cluster_type = read.cluster_type;
    cluster_id = read.cluster_id;
    resource_type = read.resource_type;
    resource_id = read.resource_id;
  })
    where
      parts : List String
      parts = segments (pairs_of p)

      crn : String
      crn = join "/" (crn_prefix ∷ parts)

      read : IsRead p (crn_of crn found)
      read = crn_of-IsRead crn

      parsed : parse_crn crn ≡ record (crn_of crn found) { is_valid = some_part parts }
      parsed =
          parse_crn-parts parts (segments-lack (pairs_of p) pairs-Separable) segments-truthy
          ∙ ap (λ d. record (crn_of crn d) { is_valid = some_part parts })
              (add_segments-segments (pairs_of p) [] pairs-Separable)
