-- ===== src/Intelligence/Words.antt =====
-- The words of a method, its kind of change and its family of resources (event_intelligence.py), on
-- ASCII.
use Prim.Native.Char.{Char, code}
use Prim.Native.String.{◌++◌}
use auditlens.Prelude.{
  Bool, false, not, ◌&&◌, ◌||◌, List, [], ◌∷◌, String, any_of, has_any, has_part, is_in, leb, lower,
  truthy, if◌then◌else◌,
}

abbrev between : Char → Char → Char → Bool
between low high c = leb (code low) (code c) && leb (code c) (code high)

abbrev is_upper : Char → Bool
is_upper c = between "A" "Z" c

abbrev is_lower_or_digit : Char → Bool
is_lower_or_digit c = between "a" "z" c || between "0" "9" c

starts_upper : String → Bool
starts_upper String.[] = false
starts_upper (String.◌∷◌ c s) = is_upper c

abbrev push : String × List String → List String
push (w, ws) = if truthy w then w ∷ ws else ws

-- the word at the head of a text, in lower case, and the words after it
scan : String → String × List String
scan String.[] = (String.[], [])
scan (String.◌∷◌ c s) =
    let rest = scan s in
    let letter = lower (String.◌∷◌ c String.[]) in
    if not (is_upper c || is_lower_or_digit c)
    then (String.[], push rest)
    else if is_lower_or_digit c && starts_upper s
    then (letter, push rest)
    else (letter ++ rest.0, rest.1)

-- `_split_words`: separated by what is no letter or digit, and before a capital after another letter
unfoldable pub split_words : String → List String
unfolding scan starts_upper
split_words s = push (scan s)

-- `_compact`
unfoldable pub compact : String → String
compact String.[] = String.[]
compact (String.◌∷◌ c s) =
    let rest = compact s in
    if is_upper c || is_lower_or_digit c then lower (String.◌∷◌ c String.[]) ++ rest else rest

abbrev some_word : List String → List String → Bool
some_word names words = any_of (λ w. is_in w names) words

-- `_change_type`
unfoldable pub change_type : String → String → Bool → String
change_type method event_type denied =
    let words = split_words method in
    if denied
    then "denied"
    else if has_part "authentication" event_type
        || some_word ("authenticate" ∷ "authentication" ∷ []) words
    then "authenticated"
    else if has_part "authorization" event_type
        || some_word ("authorize" ∷ "authorization" ∷ []) words
    then "authorized"
    else if some_word ("delete" ∷ "deleted" ∷ "terminate" ∷ "destroy" ∷ "remove" ∷ []) words
    then "deleted"
    else if some_word ("create" ∷ "created" ∷ "invite" ∷ "provision" ∷ []) words
    then "created"
    else if some_word ("stop" ∷ "pause" ∷ "resume" ∷ "restore" ∷ []) words
    then "configured"
    else if some_word
          ("update" ∷ "updated" ∷ "alter" ∷ "patch" ∷ "set" ∷ "configure" ∷ "configured" ∷ "enable"
            ∷ "disable" ∷ [])
          words
        || has_part "config" (compact method)
    then "updated"
    else if some_word ("list" ∷ "get" ∷ "describe" ∷ "read" ∷ "fetch" ∷ "consume" ∷ "search" ∷ [])
        words
    then "read/listed"
    else if some_word ("produce" ∷ "write" ∷ []) words
    then "configured"
    else "unknown"

-- the table of `_resource_family_from_text`
abbrev pub family_markers : List (String × List String)
family_markers =
    ("schema_registry", "schema" ∷ "schema-registry" ∷ "schema_registry" ∷ [])
    ∷ ("tableflow", "tableflow" ∷ "iceberg" ∷ [])
    ∷ ("connector", "connector" ∷ "connect" ∷ [])
    ∷ ("service_account", "serviceaccount" ∷ "service-account" ∷ "service account" ∷ [])
    ∷ ("api_key", "apikey" ∷ "api-key" ∷ "api key" ∷ [])
    ∷ ("rbac", "rolebinding" ∷ "role-binding" ∷ "rbac" ∷ "role binding" ∷ [])
    ∷ ("acl", "createacl" ∷ "deleteacl" ∷ "describeacl" ∷ "listacl" ∷ " acl" ∷ "/acl=" ∷ [])
    ∷ ("topic", "topic" ∷ [])
    ∷ ("ksql", "ksql" ∷ [])
    ∷ ("flink", "flink" ∷ "compute-pool" ∷ "workspace" ∷ "statement" ∷ [])
    ∷ ("cluster", "cluster" ∷ "lkc-" ∷ "cloud-cluster" ∷ [])
    ∷ ("environment", "environment" ∷ "env-" ∷ [])
    ∷ ("user", "user" ∷ "identity" ∷ [])
    ∷ ("network", "network" ∷ "privatelink" ∷ "private-link" ∷ [])
    ∷ ("billing", "billing" ∷ "invoice" ∷ "payment" ∷ [])
    ∷ ("organization", "organization" ∷ "org" ∷ [])
    ∷ []

-- the loop over the table
unfoldable pub family_in : List (String × List String) → String → String
family_in [] text = "unknown"
family_in ((family, markers) ∷ pairs) text =
    let rest = family_in pairs text in if has_any markers text then family else rest

-- `_resource_family_from_text`
pub resource_family_from_text : String → String
resource_family_from_text value = family_in family_markers (lower value)
