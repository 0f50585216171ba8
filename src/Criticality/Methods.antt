-- ===== src/Criticality/Methods.antt =====
-- src/classification/methods.py: the tables of method names, how they are resolved, and the two
-- classifications by the words of a name. The YAML file and the data file are arguments.
mod Critical
mod High
mod Medium
mod Routine
pub use Critical.*
pub use High.*
pub use Medium.*
pub use Routine.*
use Prim.Native.Char.{Char, code}
use auditlens.Prelude.{
  ℕ, Bool, true, false, not, ◌&&◌, ◌||◌, Option, none, some, List, [], ◌∷◌, ◌++◌, map, String, leb,
  ◌==◌, lower, upper, has_part, is_in, truthy, any_of, if◌then◌else◌,
}

-- The sets of names after `_get_methods`, and the patterns and keywords.
pub record MethodRules : Type 0 where
  pub critical : List String
  pub high : List String
  pub medium : List String
  pub read_only : List String
  pub authentication : List String
  pub authorization_check : List String
  pub security_failure : List String
  pub keywords : List String
  pub deletion_words : List String
  pub creation_words : List String
  pub modification_words : List String
  pub read_words : List String

-- What the YAML file defines; `none` where it has no such key.
pub record YamlRules : Type 0 where
  pub critical? : Option (List String)
  pub high? : Option (List String)
  pub medium? : Option (List String)
  pub read_only? : Option (List String)
  pub authentication? : Option (List String)
  pub authorization_check? : Option (List String)
  pub security_failure? : Option (List String)
  pub keywords? : Option (List String)
  pub deletion? : Option (List String)
  pub creation? : Option (List String)
  pub modification? : Option (List String)
  pub read? : Option (List String)

-- What the schema watcher has found, by level.
pub record Extras : Type 0 where
  pub critical_extra : List String
  pub high_extra : List String
  pub medium_extra : List String
  pub low_extra : List String

-- `_get_methods`: the file's set in place of the default, and the extras of the level
unfoldable pub get_methods : Option (List String) → List String → List String → List String
get_methods none default extra = default ++ extra
get_methods (some base) default extra = base ++ extra

-- the default patterns
abbrev pub deletion_patterns : List String
deletion_patterns = "Delete" ∷ "Remove" ∷ "Purge" ∷ "Drop" ∷ []

abbrev pub creation_patterns : List String
creation_patterns = "Create" ∷ "Add" ∷ "New" ∷ "Register" ∷ []

abbrev pub modification_patterns : List String
modification_patterns = "Update" ∷ "Alter" ∷ "Modify" ∷ "Change" ∷ "Set" ∷ []

abbrev pub read_patterns : List String
read_patterns = "Get" ∷ "List" ∷ "Describe" ∷ "Fetch" ∷ "Read" ∷ "Find" ∷ "Show" ∷ []

unfoldable pub resolve : YamlRules → Extras → MethodRules
unfolding get_methods
resolve y x = record {
  critical = get_methods y.critical? critical_methods x.critical_extra;
  high = get_methods y.high? high_methods x.high_extra;
  medium = get_methods y.medium? medium_methods x.medium_extra;
  read_only = get_methods y.read_only? read_only_methods x.low_extra;
  authentication = get_methods y.authentication? authentication_methods [];
  authorization_check = get_methods y.authorization_check? authorization_check_methods [];
  security_failure = get_methods y.security_failure? security_failure_statuses [];
  keywords = get_methods y.keywords? sensitive_keywords [];
  deletion_words = get_methods y.deletion? deletion_patterns [];
  creation_words = get_methods y.creation? creation_patterns [];
  modification_words = get_methods y.modification? modification_patterns [];
  read_words = get_methods y.read? read_patterns [];
}

pub data Category : Type 0 where
  deletion creation modification read other : Category

-- `for pattern in patterns: if pattern.upper() in name_upper`
unfoldable pub has_pattern : List String → String → Bool
has_pattern [] name_upper = false
has_pattern (p ∷ ps) name_upper = has_part (upper p) name_upper || has_pattern ps name_upper

unfoldable pub get_method_category : MethodRules → String → Category
get_method_category r name =
    if not (truthy name)
    then other
    else if has_pattern r.deletion_words (upper name)
    then deletion
    else if has_pattern r.creation_words (upper name)
    then creation
    else if has_pattern r.modification_words (upper name)
    then modification
    else if has_pattern r.read_words (upper name)
    then read
    else other

abbrev is_upper_char : Char → Bool
is_upper_char c = leb 65 (code c) && leb (code c) 90

abbrev is_word_char : Char → Bool
is_word_char c = (leb 97 (code c) && leb (code c) 122) || (leb 48 (code c) && leb (code c) 57)

-- `re.sub(r'([a-z0-9])([A-Z])', r'\1 \2', name)`; the flag tells of the character before
space_words : Bool → String → String
space_words after String.[] = String.[]
space_words after (String.◌∷◌ c s) =
    let rest = String.◌∷◌ c (space_words (is_word_char c) s) in
    if after && is_upper_char c then Prim.Native.String.◌++◌ " " rest else rest

-- the words between characters that are no word characters; `word` is the part read so far
split_from : (Char → Bool) → String → String → List String
split_from keep word String.[] = if truthy word then word ∷ [] else []
split_from keep word (String.◌∷◌ c s) =
    let longer = split_from keep (Prim.Native.String.◌++◌ word (String.◌∷◌ c String.[])) s in
    let next = split_from keep "" s in
    if keep c then longer else if truthy word then word ∷ next else next

-- `set(re.sub(r'[^a-z0-9]+', ' ', spaced.lower()).split())`
unfoldable pub name_tokens : String → List String
unfolding space_words split_from
name_tokens name = split_from is_word_char "" (lower (space_words false name))

abbrev is_key_char : Char → Bool
is_key_char c = not (code c == 32) && not (code c == 95) && not (leb 9 (code c) && leb (code c) 13)

-- `keyword.replace('_', ' ').lower().split()`
unfoldable pub keyword_tokens : String → List String
unfolding split_from
keyword_tokens keyword = split_from is_key_char "" (lower keyword)

-- `all(token in tokens for token in parts)`
unfoldable pub all_in : List String → List String → Bool
all_in [] tokens = true
all_in (p ∷ ps) tokens = is_in p tokens && all_in ps tokens

unfoldable pub has_keyword : List String → List String → Bool
unfolding all_in
has_keyword [] tokens = false
has_keyword (k ∷ ks) tokens = all_in (keyword_tokens k) tokens || has_keyword ks tokens

unfoldable pub is_sensitive_method : List String → String → Bool
is_sensitive_method keywords name =
    if not (truthy name) then false else has_keyword keywords (name_tokens name)
