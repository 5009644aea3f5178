-- ===== src/Config.antt =====
-- banc-host/src/config.rs: the rig's topology, how it is found and when it is refused.
-- A path is its components, the innermost first. Files are read, and TOML parsed, by functions that
-- are arguments; `Table` is the type of the TOML tables that are passed through untouched.
pub mod Valid
pub mod Locate
mod Tests
use banc.Common.{
  ℕ, Bool, true, false, not, ◌&&◌, ◌||◌, Option, none, some, List, [], ◌∷◌, ◌==◌, if◌then◌else◌,
  Result, ok, err, ◌>>=◌, ◌>>◌, guard, map_err, find, all, is_nil, map, any,
}
use banc.Common.Text.{Text, text_eq, trim, len, is_ascii_hexdigit, codes}

abbrev pub FilePath : Type 0
FilePath = List Text

abbrev pub config_file : Text
config_file = codes "banc-rig.toml"

pub record LeaseConfig : Type 0 where
  pub addr : Text
  pub token_file : Text

pub record RigMeta : Type 0 where
  pub name : Option Text
  pub lock_file : Option Text
  pub lease : Option LeaseConfig

pub record TargetConfig (Table : Type 0) : Type 0 where
  pub chip : Text
  pub probe : Option Text
  pub probe_host : Option Text
  pub token_file : Option Text
  pub params : Table

pub record AssistantConfig : Type 0 where
  pub name : Text
  pub serial : Option Text
  pub product : Option Text
  pub addr : Option Text
  pub token_file : Option Text
  pub unique_id : Option Text

pub record InstrumentConfig (Table : Type 0) : Type 0 where
  pub name : Text
  pub kind : Text
  pub address : Option Text
  pub params : Table

pub record RigConfig (Table : Type 0) : Type 0 where
  pub rig : RigMeta
  pub target : Option (TargetConfig Table)
  pub assistants : List AssistantConfig
  pub instruments : List (InstrumentConfig Table)

pub data ConfigError : Type 0 where
  assistant_empty_name instrument_empty_name : ConfigError
  assistant_duplicate instrument_duplicate : Text → ConfigError
  two_transports network_without_token empty_addr : Text → ConfigError
  matches_any token_without_addr : Text → ConfigError
  bad_unique_id : Text → Text → ConfigError
  lease_empty_addr : ConfigError

abbrev pub is_some : {A : Type 0} → Option A → Bool
is_some none = false
is_some (some a) = true

unfoldable pub is_network : AssistantConfig → Bool
is_network a = is_some a.addr

abbrev pub is_blank : Text → Bool
is_blank t = is_nil (trim t)

-- `a.addr.as_deref().unwrap_or("")`.
abbrev or_empty : Option Text → Text
or_empty none = []
or_empty (some t) = t

unfoldable pub contains : List Text → Text → Bool
contains seen name = any (λ n. text_eq n name) seen

-- A loop over names with the set of those seen, which is cleared before each loop.
unfoldable pub check_names :
    ConfigError → (Text → ConfigError) → List Text → List Text → Result ConfigError (Unit {0})
check_names blank duplicate seen [] = ok tt
check_names blank duplicate seen (name ∷ names) = do
  guard (not (is_blank name)) blank
  guard (not (contains seen name)) (duplicate name)
  check_names blank duplicate (name ∷ seen) names

check_network : AssistantConfig → Result ConfigError (Unit {0})
check_network a = do
  guard (not (is_some a.serial) && not (is_some a.product)) (two_transports a.name)
  guard (is_some a.token_file) (network_without_token a.name)
  guard (not (is_blank (or_empty a.addr))) (empty_addr a.name)

check_usb : AssistantConfig → Result ConfigError (Unit {0})
check_usb a = do
  guard (is_some a.serial || is_some a.product) (matches_any a.name)
  guard (not (is_some a.token_file)) (token_without_addr a.name)

unfoldable pub check_unique_id : AssistantConfig → Result ConfigError (Unit {0})
check_unique_id a = elim a.unique_id [
  | none ↦ ok tt
  | some id ↦ guard (len id == 16 && all is_ascii_hexdigit id) (bad_unique_id a.name id)
]

unfoldable pub check_transport : AssistantConfig → Result ConfigError (Unit {0})
unfolding is_network check_network check_usb
check_transport a = if is_network a then check_network a else check_usb a

unfoldable pub check_assistant : AssistantConfig → Result ConfigError (Unit {0})
check_assistant a = do check_transport a; check_unique_id a

unfoldable pub check_assistants : List AssistantConfig → Result ConfigError (Unit {0})
check_assistants [] = ok tt
check_assistants (a ∷ as') = do check_assistant a; check_assistants as'

unfoldable pub check_lease : Option LeaseConfig → Result ConfigError (Unit {0})
check_lease none = ok tt
check_lease (some lease) = guard (not (is_blank lease.addr)) lease_empty_addr

-- How the program comes to fail on a config that is there.
pub data LoadError (E : Type 0) : Type 0 where
  not_a_file : FilePath → LoadError E
  no_current_dir : E → LoadError E
  unreadable : E → LoadError E
  unparsable : FilePath → E → LoadError E
  invalid : FilePath → ConfigError → LoadError E

module _ {Table : Type 0} where
  unfoldable pub validate : RigConfig Table → Result ConfigError (Unit {0})
  validate c = do
    check_names assistant_empty_name assistant_duplicate [] (map (λ a. a.name) c.assistants)
    check_names instrument_empty_name instrument_duplicate [] (map (λ i. i.name) c.instruments)
    check_assistants c.assistants
    check_lease c.rig.lease

  unfoldable pub assistant : RigConfig Table → Text → Option AssistantConfig
  assistant c name = find (λ a. text_eq a.name name) c.assistants

  unfoldable pub instrument : RigConfig Table → Text → Option (InstrumentConfig Table)
  instrument c name = find (λ i. text_eq i.name name) c.instruments

  unfoldable pub load :
      {E : Type 0}
      → (FilePath → Result E Text)
      → (Text → Result E (RigConfig Table))
      → FilePath
      → Result (LoadError E) (RigConfig Table)
  load read_to_string from_str path = do
    text ← map_err unreadable (read_to_string path)
    config ← map_err (unparsable path) (from_str text)
    map_err (invalid path) (validate config)
    ok config

-- The search from a directory upward; the root has no component and no parent.
unfoldable pub search_up : (FilePath → Bool) → FilePath → Option FilePath
search_up is_file [] = if is_file (config_file ∷ []) then some (config_file ∷ []) else none
search_up is_file (name ∷ parent) =
    let above = search_up is_file parent in
    if is_file (config_file ∷ name ∷ parent) then some (config_file ∷ name ∷ parent) else above

-- `BANC_RIG`, if it is set, else the search from the current directory.
unfoldable pub locate :
    {E : Type 0}
    → Option FilePath
    → Result E FilePath
    → (FilePath → Bool)
    → Result (LoadError E) (Option FilePath)
unfolding search_up
locate (some path) current_dir is_file = do guard (is_file path) (not_a_file path); ok (some path)
locate none current_dir is_file = do
  dir ← map_err no_current_dir current_dir
  ok (search_up is_file dir)
