-- ===== src/Forwarder/ShortCircuit.antt =====
-- `_try_short_circuit_noise`, `_record_noise_persisted` and `_record_signal_persisted`
-- (audit_forwarder.py), with the table of bulk methods of src/product/event_normalization.py.
use auditlens.Prelude.{
  ℕ, ◌≡◌, Bool, false, not, ◌&&◌, ◌||◌, Option, none, some, List, [], ◌∷◌, String, arith, lower,
  upper, is_in, truthy, or_else, if◌then◌else◌,
}
use auditlens.Prelude.Eq.{number_eq, string_eq, pair_eq}
use auditlens.Forwarder.{Partition, Offsets, raise_to}

-- A section is `none` where it is no object; `none` in it stands for a value of another type.
pub record RawPayload : Type 0 where
  -- `data`: its method, and its two sections
  pub data_method : Option String
  pub granted_false : Bool
  pub authorization_result : Option String
  pub result_status : Option String
  -- the method names at the top
  pub method_name : String
  pub method : String

pub data RawRecord : Type 0 where
  -- no value, not JSON or no object
  undecodable : RawRecord
  decoded : RawPayload → RawRecord

-- `BULK_NOISE_METHODS`
abbrev pub bulk_noise_methods : List String
bulk_noise_methods =
    "mds.authorize" ∷ "kafka.fetch" ∷ "kafka.produce" ∷ "flink.authenticate" ∷ "flink.authorize"
    ∷ "schema-registry.authentication" ∷ "schema-registry.authorize" ∷ "kafka.authentication"
    ∷ "scheduledjwksrefresh" ∷ "ksql.authenticate" ∷ "ksql.authorize" ∷ "ip-filter.authorize" ∷ []

-- `is_bulk_noise`
unfoldable pub is_bulk_noise : String → Bool
is_bulk_noise method = if truthy method then is_in (lower method) bulk_noise_methods else false

abbrev text_of : Option String → String
text_of none = ""
text_of (some s) = s

abbrev method_of : RawPayload → String
method_of p = or_else (text_of p.data_method) (or_else p.method_name p.method)

abbrev upper_in : List String → Option String → Bool
upper_in names none = false
upper_in names (some s) = is_in (upper s) names

-- the three denials that are looked for
unfoldable pub is_raw_denial : RawPayload → Bool
is_raw_denial p =
    p.granted_false
    || upper_in ("DENY" ∷ "FAILURE" ∷ []) p.authorization_result
    || upper_in ("DENY" ∷ "FAILURE" ∷ "UNAUTHENTICATED" ∷ []) p.result_status

-- `_try_short_circuit_noise`
unfoldable pub try_short_circuit_noise : RawRecord → Option RawPayload
try_short_circuit_noise undecodable = none
try_short_circuit_noise (decoded p) =
    if not (truthy (method_of p))
    then none
    else if not (is_in (lower (method_of p)) bulk_noise_methods)
    then none
    else if is_raw_denial p
    then none
    else some p

-- A record is short-circuited exactly when its method is one of the bulk methods and none of the
-- three denials is told of it; then it is handed on unchanged.
pub try_short_circuit_noise_iff :
    (p : RawPayload)
    → try_short_circuit_noise (decoded p)
      ≡ (if is_bulk_noise (method_of p) && not (is_raw_denial p) then some p else none)
unfolding try_short_circuit_noise is_bulk_noise
try_short_circuit_noise_iff p = ground arith

-- What a writer has flushed: the tags of an item, `none` where they are missing.
abbrev pub Flushed : Type 0
Flushed = List (Option (Partition × ℕ))

abbrev pub record_item : Option (Partition × ℕ) → Offsets → Offsets
record_item none persisted = persisted
record_item (some (key, offset)) persisted = raise_to key offset persisted

-- `_record_noise_persisted` and `_record_signal_persisted`
unfoldable pub record_persisted : Flushed → Offsets → Offsets
record_persisted [] persisted = persisted
record_persisted (item ∷ items) persisted = record_persisted items (record_item item persisted)
