-- ===== src/Transformer/Crn/Parsing.antt =====
-- `parse_crn` on the segments of a name, and the first type that is a key (resource_intelligence.py,
-- crn_parser.py).
use Prim.Native.String.{◌++◌}
use text.Mathlib.TextLemmas.{cons-append, append_assoc}
use auditlens.Prelude.{
  strip_prefix, ◌≡◌, refl, sym, ap, ◌∙◌, Bool, true, false, Option, none, some, List, [], ◌∷◌,
  String, arith, All, str_eq, eq_iff, eq_refl, is_in, join, truthy, Bool-cases, inl, inr,
  if◌then◌else◌,
}
use auditlens.Prelude.Eq.{string_eq}
use auditlens.Prelude.Assoc.{Dict, lookup}
use auditlens.Transformer.Crn.{
  crn_prefix, add_segments, found_as, first_of, cluster_type_of, crn_of, parse_path, parse_crn,
}
use auditlens.Transformer.Crn.Segments.{lacks, strip_prefix-append, split-join}

truthy-join : (p : String) (ps : List String) → truthy p ≡ true → truthy (join "/" (p ∷ ps)) ≡ true
unfolding join
truthy-join p [] h = h
truthy-join (String.◌∷◌ c p) (q ∷ ps) h = ap truthy (cons-append c p _)
truthy-join String.[] (q ∷ ps) h = let no : ⊥ = ground (arith, h) in elim no [ ]

abbrev pub some_part : List String → Bool
some_part [] = false
some_part (_ ∷ _) = true

pub parse_crn-parts :
    (parts : List String)
    → All (λ s. lacks 47 s ≡ true) parts
    → All (λ s. truthy s ≡ true) parts
    → parse_crn (join "/" (crn_prefix ∷ parts))
      ≡ record (crn_of (join "/" (crn_prefix ∷ parts)) (add_segments parts [])) {
        is_valid = some_part parts;
      }
unfolding parse_crn join first_of lookup cluster_type_of add_segments strip_prefix
parse_crn-parts [] h k = refl
parse_crn-parts (p ∷ ps) h k =
    ap (parse_path crn) (
      ap (strip_prefix (crn_prefix ++ "/")) (sym (append_assoc crn_prefix "/" rest))
      ∙ strip_prefix-append (crn_prefix ++ "/") rest)
    ∙ rw (truthy-join p ps k.0) rw (split-join p ps h) refl
  where
    rest : String
    rest = join "/" (p ∷ ps)

    crn : String
    crn = crn_prefix ++ "/" ++ rest

-- The first of the types when only one of them, or none, is a key.
first_of-none :
    (types : List String) (d : Dict String String)
    → ((t : String) → is_in t types ≡ true → lookup t d ≡ none)
    → first_of types d ≡ none
unfolding first_of is_in
first_of-none [] d h = refl
first_of-none (t ∷ types) d h =
    rw (h t (rw (eq_refl t) refl)) (first_of-none types d (λ u k. h u (ground (arith, k))))

pub first_of-only :
    (types : List String) (key : String) (value : Option String) (d : Dict String String)
    → ((t : String) → is_in t types ≡ true → lookup t d ≡ (if str_eq key t then value else none))
    → is_in key types ≡ true
    → first_of types d ≡ found_as key value none
unfolding first_of is_in
first_of-only [] key value d h k = let no : ⊥ = ground (arith, k) in elim no [ ]
first_of-only (t ∷ types) key none d h k = first_of-none (t ∷ types) d (λ u m. h u m ∙ ground arith)
first_of-only (t ∷ types) key (some id) d h k = elim (Bool-cases (str_eq key t)) [
  | inl same ↦ rw (h t (rw (eq_refl t) refl)) rw same (ground (arith, eq_iff key t, same))
  | inr other ↦
      rw (h t (rw (eq_refl t) refl)) rw other
        (first_of-only types key (some id) d (λ u m. h u (ground (arith, m))) (rw other at k))
]
