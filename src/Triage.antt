-- ===== src/Triage.antt =====
-- src/product/triage_store.py and src/product/auth.py (Access). The store is the cache and the file
-- of the same path.
pub mod Access
mod Tests
use auditlens.Prelude.{
  ◌≡◌, Bool, true, false, not, Option, none, some, List, [], ◌∷◌, String, arith, is_in, or_else,
  str_eq, if◌then◌else◌,
}
use auditlens.Prelude.Eq.{string_eq}
use auditlens.Prelude.Assoc.{Dict, lookup, insert, lookup-insert}

-- `None` as a note or an actor is `none`
pub record Entry : Type 0 where
  pub triage_status : String
  pub triage_actor : Option String
  pub triage_timestamp : Option String
  pub triage_note : Option String

abbrev pub Entries : Type 0
Entries = Dict String Entry

-- what the file holds: nothing, what is no object or cannot be read (an OSError, or JSON that does not
-- parse), or entries. A file that is not UTF-8, for which the source raises, is left out.
pub data File : Type 0 where
  no_file unreadable : File
  stored : Entries → File

pub record Store : Type 0 where
  pub cache : Option Entries
  pub file : File

abbrev pub valid_triage_statuses : List String
valid_triage_statuses =
    "open" ∷ "acknowledged" ∷ "approved" ∷ "investigating" ∷ "resolved" ∷ "false_positive" ∷ []

-- `DEFAULT_TRIAGE`
abbrev pub default_triage : Entry
default_triage = record {
  triage_status = "open";
  triage_actor = none;
  triage_timestamp = none;
  triage_note = none;
}

abbrev entries_of : File → Entries
entries_of no_file = []
entries_of unreadable = []
entries_of (stored entries) = entries

abbrev read_entries : Option Entries → File → Entries
read_entries none file = entries_of file
read_entries (some entries) file = entries

-- `_read_store`: the entries, and the store with its cache filled
unfoldable pub read_store : Store → Entries × Store
read_store s =
    let entries = read_entries s.cache s.file in (entries, record s { cache = some entries })

-- the part of `_write_store` after the file has been replaced
unfoldable pub write_store : Entries → Store → Store
write_store entries s = record { cache = some entries; file = stored entries }

abbrev entry_or_default : Option Entry → Entry
entry_or_default none = default_triage
entry_or_default (some entry) = entry

-- `get_triage`
unfoldable pub get_triage : String → Store → Entry × Store
get_triage id s = let (entries, s') = read_store s in (entry_or_default (lookup id entries), s')

pub data SetTriage : Type 0 where
  value_error write_error : SetTriage
  set_to : Entry → SetTriage

abbrev actor_or : Option String → String
actor_or none = "api"
actor_or (some actor) = or_else actor "api"

abbrev pub new_entry : String → Option String → Option String → String → Entry
new_entry status actor note now = record {
  triage_status = status;
  triage_actor = some (actor_or actor);
  triage_timestamp = some now;
  triage_note = note;
}

-- `set_triage`, with the time as text, and whether the file can be written. The entry is put into the
-- cached entries themselves before the file is written.
unfoldable pub set_triage :
    String → String → Option String → Option String → String → Bool → Store → SetTriage × Store
set_triage id status actor note now writes s =
    if not (is_in status valid_triage_statuses)
    then (value_error, s)
    else (let entry = new_entry status actor note now in
        let (entries, s') = read_store s in
        let cached = record s' { cache = some (insert id entry entries) } in
        if writes
        then (set_to entry, write_store (insert id entry entries) cached)
        else (write_error, cached))

-- a new process: the cache is empty
pub restart : Store → Store
restart s = record s { cache = none }

-- A known status is what is found from then on, whether or not the file can be written, and no other
-- event's triage changes. After a restart of the process it is found if it was written; if not, the
-- caller got an error and what the file had before is back.
pub get_triage-set_triage :
    (id j status : String) (actor note : Option String) (now : String) (writes : Bool) (s : Store)
    → is_in status valid_triage_statuses ≡ true
    → let r = set_triage id status actor note now writes s in
      let entry = new_entry status actor note now in
      let expected = if str_eq id j then entry else (get_triage j s).0 in
      (r.0 ≡ (if writes then set_to entry else write_error))
      × ((get_triage j r.1).0 ≡ expected)
      × ((get_triage j (restart r.1)).0
          ≡ (if writes then expected else (get_triage j (restart s)).0))
unfolding get_triage set_triage read_store write_store restart
get_triage-set_triage id j status actor note now writes s h =
    ground
      (arith, h, lookup-insert id j (new_entry status actor note now) (read_entries s.cache s.file))
