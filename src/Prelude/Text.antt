-- ===== src/Prelude/Text.antt =====
-- What the program uses of Python's `str`: `lower` and `upper` on the ASCII letters (other
-- characters are left alone), `in`, `startswith`, and membership in a set of literals.
use Prim.Native.Nat.{ℕ, zero, suc, ◌-◌, ◌*◌, ◌/◌}
use Prim.Native.Char.{Char, code}
use Prim.Native.String.{String, ◌++◌, char_at}
use mathlib.Core.Bool.{Bool, true, false, not, ◌&&◌, ◌||◌}
use mathlib.Core.Option.{Option, none, some}
use mathlib.Core.List.{List, [], ◌∷◌}
use text.Mathlib.Text.{find?, starts_with, ◌==◌ as str_eq}
use auditlens.Prelude.Tests.{ltb, leb, ◌==◌, is_some, if◌then◌else◌}

-- truth of a text: `if s`
abbrev pub truthy : String → Bool
truthy String.[] = false
truthy (String.◌∷◌ _ _) = true

lower_char : Char → Char
lower_char c =
    if leb 65 (code c) && leb (code c) 90
    then char_at "abcdefghijklmnopqrstuvwxyz" (code c - 65)
    else c

upper_char : Char → Char
upper_char c =
    if leb 97 (code c) && leb (code c) 122
    then char_at "ABCDEFGHIJKLMNOPQRSTUVWXYZ" (code c - 97)
    else c

-- `s.lower()`
unfoldable pub lower : String → String
unfolding lower_char
lower String.[] = String.[]
lower (String.◌∷◌ c s) = String.◌∷◌ (lower_char c) (lower s)

-- `s.upper()`
unfoldable pub upper : String → String
unfolding upper_char
upper String.[] = String.[]
upper (String.◌∷◌ c s) = String.◌∷◌ (upper_char c) (upper s)

is_space : Char → Bool
is_space c = code c == 32 || (leb 9 (code c) && leb (code c) 13)

-- `s.lstrip()`
left_strip : String → String
left_strip String.[] = String.[]
left_strip (String.◌∷◌ c s) = let rest = left_strip s in if is_space c then rest else String.◌∷◌ c s

-- `s.rstrip()`
right_strip : String → String
right_strip String.[] = String.[]
right_strip (String.◌∷◌ c s) =
    let rest = right_strip s in
    if is_space c && not (truthy rest) then String.[] else String.◌∷◌ c rest

-- `s.strip()`, on ASCII white space
unfoldable pub strip : String → String
unfolding left_strip right_strip is_space
strip s = right_strip (left_strip s)

-- `s.rstrip("/")`
unfoldable pub right_slashes : String → String
right_slashes String.[] = String.[]
right_slashes (String.◌∷◌ c s) =
    let rest = right_slashes s in
    if code c == b'/' && not (truthy rest) then String.[] else String.◌∷◌ c rest

-- `part in s`
unfoldable pub has_part : String → String → Bool
has_part part s = is_some (find? s part)

-- `s.startswith(prefix)`
unfoldable pub has_prefix : String → String → Bool
has_prefix prefix s = starts_with s prefix

-- `any(part in s for part in parts)`
unfoldable pub has_any : List String → String → Bool
unfolding has_part
has_any [] s = false
has_any (part ∷ parts) s = has_part part s || has_any parts s

-- `s.startswith((p, q, …))`
unfoldable pub has_any_prefix : List String → String → Bool
unfolding has_prefix
has_any_prefix [] s = false
has_any_prefix (p ∷ ps) s = has_prefix p s || has_any_prefix ps s

-- `s in names`
unfoldable pub is_in : String → List String → Bool
is_in s [] = false
is_in s (name ∷ names) = str_eq s name || is_in s names

-- `s[len(prefix):]` where `s.startswith(prefix)`
unfoldable pub strip_prefix : String → String → Option String
strip_prefix String.[] s = some s
strip_prefix (String.◌∷◌ c prefix) String.[] = none
strip_prefix (String.◌∷◌ c prefix) (String.◌∷◌ d s) =
    let rest = strip_prefix prefix s in if code c == code d then rest else none

-- `s[:n]`
unfoldable pub take_text : ℕ → String → String
take_text zero s = String.[]
take_text (suc n) String.[] = String.[]
take_text (suc n) (String.◌∷◌ c s) = String.◌∷◌ c (take_text n s)

-- `f"{n}"` with at most the given number of digits
decimal_digits : ℕ → ℕ → String
decimal_digits zero n = String.[]
decimal_digits (suc k) n = elim (ltb n 10) [
  | true ↦ String.◌∷◌ (char_at "0123456789" n) String.[]
  | false ↦
      decimal_digits k (n / 10) ++ String.◌∷◌ (char_at "0123456789" (n - n / 10 * 10)) String.[]
]

-- `f"{n}"`, for numbers below 10^40
unfoldable pub decimal : ℕ → String
unfolding decimal_digits
decimal n = decimal_digits 40 n

-- `sep.join(parts)`
unfoldable pub join : String → List String → String
join sep [] = String.[]
join sep (part ∷ []) = part
join sep (part ∷ rest) = part ++ sep ++ join sep rest

-- `a or b`
abbrev pub or_else : String → String → String
or_else a b = if truthy a then a else b
