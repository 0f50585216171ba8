-- ===== src/Transformer/Crn/Segments.antt =====
-- Texts taken apart at a separator and put together again, for the segments of a resource name
-- (resource_intelligence.py, crn_parser.py).
use Prim.Native.Char.{code}
use Prim.Native.String.{◌++◌}
use text.Mathlib.TextLemmas.{nil-append, cons-append}
use auditlens.Prelude.{
  strip_prefix, ℕ, ◌≡◌, refl, ap, ◌∙◌, Bool, true, false, not, ◌&&◌, some, List, [], ◌∷◌, String,
  arith, All, ◌==◌, str_eq, eq_iff, is_in, join, truthy, Bool-cases, inl, inr, if◌then◌else◌,
}
use auditlens.Prelude.Eq.{string_eq}
use auditlens.Prelude.Assoc.{Dict, lookup, insert, lookup-insert}
use auditlens.Transformer.Crn.{split, key_value, add_segment, add_segments, segment_of, part_if}

-- no character of a text has the code
unfoldable pub lacks : ℕ → String → Bool
lacks c String.[] = true
lacks c (String.◌∷◌ d s) = not (code d == c) && lacks c s

-- A literal of one character before a text.
slash-append : (t : String) → "/" ++ t ≡ String.◌∷◌ "/" t
slash-append t = cons-append "/" String.[] t ∙ ap (String.◌∷◌ "/") (nil-append t)

equals-append : (t : String) → "=" ++ t ≡ String.◌∷◌ "=" t
equals-append t = cons-append "=" String.[] t ∙ ap (String.◌∷◌ "=") (nil-append t)

pub strip_prefix-append : (p s : String) → strip_prefix p (p ++ s) ≡ some s
unfolding strip_prefix
strip_prefix-append String.[] s = ap some (nil-append s)
strip_prefix-append (String.◌∷◌ c p) s =
    rw (cons-append c p s) (ground (arith, strip_prefix-append p s))

split-lacks : (c : ℕ) (s : String) → lacks c s ≡ true → split c s ≡ s ∷ []
unfolding split lacks
split-lacks c String.[] h = refl
split-lacks c (String.◌∷◌ d s) h = ground (arith, split-lacks c s)

split-append : (s t : String) → lacks 47 s ≡ true → split 47 (s ++ "/" ++ t) ≡ s ∷ split 47 t
unfolding split lacks
split-append String.[] t h = ap (split 47) (nil-append _ ∙ slash-append t)
split-append (String.◌∷◌ d s) t h =
    rw (cons-append d s ("/" ++ t)) (ground (arith, split-append s t))

pub split-join :
    (part : String) (parts : List String)
    → All (λ s. lacks 47 s ≡ true) (part ∷ parts)
    → split 47 (join "/" (part ∷ parts)) ≡ part ∷ parts
unfolding join
split-join part [] h = split-lacks 47 part h.0
split-join part (next ∷ parts) h =
    split-append part _ h.0 ∙ ap (λ ps. part ∷ ps) (split-join next parts h.1)

key_value-segment_of :
    (key value : String)
    → lacks 61 key ≡ true
    → key_value (segment_of key value) ≡ some (key, value)
unfolding key_value lacks
key_value-segment_of String.[] value h = ap key_value (nil-append _ ∙ equals-append value)
key_value-segment_of (String.◌∷◌ c key) value h =
    rw (cons-append c key ("=" ++ value)) (ground (arith, key_value-segment_of key value))

lacks-segment_of :
    (key value : String)
    → lacks 47 key ≡ true
    → lacks 47 value ≡ true
    → lacks 47 (segment_of key value) ≡ true
unfolding lacks
lacks-segment_of String.[] value h k = ap (lacks 47) (nil-append _ ∙ equals-append value) ∙ k
lacks-segment_of (String.◌∷◌ c key) value h k =
    rw (cons-append c key ("=" ++ value)) (ground (arith, lacks-segment_of key value))

pub truthy-segment_of : (key value : String) → truthy (segment_of key value) ≡ true
truthy-segment_of String.[] value = ap truthy (nil-append _ ∙ equals-append value)
truthy-segment_of (String.◌∷◌ c key) value = ap truthy (cons-append c key ("=" ++ value))

abbrev pub all_of : (String → Bool) → List String → Bool
all_of p [] = true
all_of p (x ∷ xs) = p x && all_of p xs

pub is_in-all_of :
    (p : String → Bool) (t : String) (xs : List String)
    → all_of p xs ≡ true
    → is_in t xs ≡ true
    → p t ≡ true
unfolding is_in
is_in-all_of p t [] h k = let no : ⊥ = ground (arith, k) in elim no [ ]
is_in-all_of p t (x ∷ xs) h k = elim (Bool-cases (str_eq t x)) [
  | inl same ↦ ap p ((eq_iff t x).0 same) ∙ ground (arith, h)
  | inr other ↦ is_in-all_of p t xs (ground (arith, h)) (rw other at k)
]

-- What a built name is made of: the pairs that are present, in order.
abbrev pub Pairs : Type 0
Pairs = List (Bool × String × String)

abbrev pub segments : Pairs → List String
segments [] = []
segments ((present, key, value) ∷ pairs) = part_if present (segment_of key value) (segments pairs)

abbrev pub Separable : Bool × String × String → Type 0
Separable (present, key, value) =
    (lacks 61 key ≡ true) × (lacks 47 key ≡ true) × (lacks 47 value ≡ true)

abbrev pub put_if : Bool → String → String → Dict String String → Dict String String
put_if present key value d = if present then insert key value d else d

abbrev pub put_pairs : Pairs → Dict String String → Dict String String
put_pairs [] d = d
put_pairs ((present, key, value) ∷ pairs) d = put_pairs pairs (put_if present key value d)

pub add_segments-segments :
    (pairs : Pairs) (d : Dict String String)
    → All Separable pairs
    → add_segments (segments pairs) d ≡ put_pairs pairs d
unfolding add_segments
add_segments-segments [] d h = refl
add_segments-segments ((true, key, value) ∷ pairs) d h =
    ap (λ o. add_segments (segments pairs) (add_segment o d)) (key_value-segment_of key value h.0.0)
    ∙ add_segments-segments pairs (insert key value d) h.1
add_segments-segments ((false, key, value) ∷ pairs) d h = add_segments-segments pairs d h.1

pub segments-lack :
    (pairs : Pairs) → All Separable pairs → All (λ s. lacks 47 s ≡ true) (segments pairs)
segments-lack [] h = tt
segments-lack ((true, key, value) ∷ pairs) h =
    (lacks-segment_of key value h.0.1 h.0.2, segments-lack pairs h.1)
segments-lack ((false, key, value) ∷ pairs) h = segments-lack pairs h.1

pub lookup-put_if :
    (j : String) (present : Bool) (key value : String) (d : Dict String String)
    → lookup j (put_if present key value d)
      ≡ (if present && str_eq key j then some value else lookup j d)
lookup-put_if j true key value d = lookup-insert key j value d
lookup-put_if j false key value d = refl
