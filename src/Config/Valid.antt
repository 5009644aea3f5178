-- ===== src/Config/Valid.antt =====
-- banc-host/src/config.rs: what `validate` lets through, and what a valid config is good for.
use banc.Common.{
  ◌≡◌, ◌≢◌, ◌↔◌, ◌⊎◌, refl, true, false, Option, none, some, List, [], ◌∷◌, arith, Result, ok, ◌>>◌,
  All, map, all,
}
use banc.Common.Text.{Text, text_eq_iff, trim, len, is_ascii_hexdigit}
use banc.Config.{
  RigConfig, AssistantConfig, LeaseConfig, ConfigError, validate, check_names, check_assistant,
  check_transport, check_unique_id, check_assistants, check_lease, contains, is_blank,
  assistant_empty_name, assistant_duplicate, instrument_empty_name, instrument_duplicate,
}

-- No name is blank, and none stands twice or is among those seen.
abbrev pub NotAmong : Text → List Text → Type 0
NotAmong name = All (λ n. n ≢ name)

abbrev pub FreshNames : List Text → List Text → Type 0
FreshNames seen [] = Unit {0}
FreshNames seen (name ∷ names) =
    (trim name ≢ []) × NotAmong name seen × FreshNames (name ∷ seen) names

abbrev pub HasUniqueId : Option Text → Type 0
HasUniqueId none = Unit {0}
HasUniqueId (some id) = (len id ≡ 16) × All (λ c. is_ascii_hexdigit c ≡ true) id

abbrev pub HasTransport : AssistantConfig → Type 0
HasTransport a =
    ((addr : Text) × (token : Text) × (a.addr ≡ some addr)
      × (trim addr ≢ [])
      × (a.token_file ≡ some token)
      × (a.serial ≡ none)
      × (a.product ≡ none))
    ⊎ ((a.addr ≡ none) × (a.token_file ≡ none) × ((a.serial ≢ none) ⊎ (a.product ≢ none)))

-- An entry is a network node, with an address and a token and no USB match, or a USB node, with a
-- match and no token; an id to pin the device, if there is one, has 16 hex digits.
abbrev pub IsReachable : AssistantConfig → Type 0
IsReachable a = HasTransport a × HasUniqueId a.unique_id

abbrev pub HasLease : Option LeaseConfig → Type 0
HasLease none = Unit {0}
HasLease (some lease) = trim lease.addr ≢ []

pub record IsValid {Table : Type 0} (c : RigConfig Table) : Type 0 where
  pub assistant_names : FreshNames [] (map (λ a. a.name) c.assistants)
  pub instrument_names : FreshNames [] (map (λ i. i.name) c.instruments)
  pub reachable : All IsReachable c.assistants
  pub lease : HasLease c.rig.lease

blank_iff : (t : Text) → (is_blank t ≡ false) ↔ (trim t ≢ [])
blank_iff t = ground arith

contains_iff : (seen : List Text) (name : Text) → (contains seen name ≡ false) ↔ NotAmong name seen
unfolding contains
contains_iff [] name = ((λ _. tt), (λ _. refl))
contains_iff (n ∷ seen) name = ground (arith, text_eq_iff n name, contains_iff seen name)

check_names-ok_iff :
    (blank : ConfigError) (duplicate : Text → ConfigError) (seen names : List Text)
    → (check_names blank duplicate seen names ≡ ok tt) ↔ FreshNames seen names
unfolding check_names
check_names-ok_iff blank duplicate seen [] = ((λ _. tt), (λ _. refl))
check_names-ok_iff blank duplicate seen (name ∷ names) = ground (
  arith,
  blank_iff name,
  contains_iff seen name,
  check_names-ok_iff blank duplicate (name ∷ seen) names,
)

hexdigits_iff :
    (id : Text) → (all is_ascii_hexdigit id ≡ true) ↔ All (λ c. is_ascii_hexdigit c ≡ true) id
hexdigits_iff [] = ((λ _. tt), (λ _. refl))
hexdigits_iff (c ∷ id) = ground (arith, hexdigits_iff id)

unique_id-ok_iff :
    (a : AssistantConfig) (id : Option Text)
    → a.unique_id ≡ id
    → (check_unique_id a ≡ ok tt) ↔ HasUniqueId a.unique_id
unfolding check_unique_id
unique_id-ok_iff a none e = rw e ((λ _. tt), (λ _. refl))
unique_id-ok_iff a (some id) e = rw e (ground (arith, hexdigits_iff id))

transport-ok_iff : (a : AssistantConfig) → (check_transport a ≡ ok tt) ↔ HasTransport a
unfolding check_transport
transport-ok_iff a = ((λ e. ground arith), (λ h. ground arith))

check_assistant-ok_iff : (a : AssistantConfig) → (check_assistant a ≡ ok tt) ↔ IsReachable a
unfolding check_assistant
check_assistant-ok_iff a = ground (arith, transport-ok_iff a, unique_id-ok_iff a a.unique_id refl)

check_assistants-ok_iff :
    (as' : List AssistantConfig) → (check_assistants as' ≡ ok tt) ↔ All IsReachable as'
unfolding check_assistants
check_assistants-ok_iff [] = ((λ _. tt), (λ _. refl))
check_assistants-ok_iff (a ∷ as') =
    ground (arith, check_assistant-ok_iff a, check_assistants-ok_iff as')

check_lease-ok_iff : (l : Option LeaseConfig) → (check_lease l ≡ ok tt) ↔ HasLease l
unfolding check_lease
check_lease-ok_iff none = ((λ _. tt), (λ _. refl))
check_lease-ok_iff (some lease) = ground (arith, blank_iff lease.addr)

chain_iff :
    {a b c d : Result ConfigError (Unit {0})}
    → ((do a; b; c; d) ≡ ok tt) ↔ ((a ≡ ok tt) × (b ≡ ok tt) × (c ≡ ok tt) × (d ≡ ok tt))
chain_iff {a} {b} {c} {d} = ((λ e. ground arith), (λ h. ground arith))

-- `validate` accepts exactly the configs that it is meant to: those with names that are not blank
-- and do not repeat, with assistants that are each reachable over one transport with what it needs,
-- and with an address for the lease server, if there is one.
pub validate-ok_iff : {Table : Type 0} (c : RigConfig Table) → (validate c ≡ ok tt) ↔ IsValid c
unfolding validate
validate-ok_iff c =
    let n =
      check_names-ok_iff assistant_empty_name assistant_duplicate []
        (map (λ a. a.name) c.assistants) in
    let i =
      check_names-ok_iff instrument_empty_name instrument_duplicate []
        (map (λ i. i.name) c.instruments) in
    let a = check_assistants-ok_iff c.assistants in
    let l = check_lease-ok_iff c.rig.lease in
    (
      (λ e.
          let (p, q, r, s) = chain_iff.0 e in
          record {
            assistant_names = n.0 p;
            instrument_names = i.0 q;
            reachable = a.0 r;
            lease = l.0 s;
          }),
      (λ v.
          chain_iff.1
            (n.1 v.assistant_names, i.1 v.instrument_names, a.1 v.reachable, l.1 v.lease)),
    )
