-- ===== src/Config/Locate.antt =====
-- banc-host/src/config.rs: which config is found, and which entry a name gives.
use banc.Common.{
  ◌≡◌, ◌≢◌, Bool, none, some, List, [], ◌∷◌, arith, if◌then◌else◌, Result, ok, err, All, All-imp,
  All-imp₂, All-of_map, map, find,
}
use banc.Common.Text.{Text, text_eq, text_eq_iff}
use banc.Config.{
  FilePath, RigConfig, not_a_file, config_file, validate, assistant, instrument, search_up, locate,
}
use banc.Config.Valid.{NotAmong, FreshNames, validate-ok_iff}

-- The config file's path in a directory and in each above it, the nearest first.
abbrev pub candidates : FilePath → List FilePath
candidates [] = (config_file ∷ []) ∷ []
candidates (name ∷ parent) = (config_file ∷ name ∷ parent) ∷ candidates parent

search_up-find :
    (is_file : FilePath → Bool) (dir : FilePath)
    → search_up is_file dir ≡ find is_file (candidates dir)
unfolding search_up
search_up-find is_file [] = ground arith
search_up-find is_file (name ∷ parent) = ground (arith, search_up-find is_file parent)

-- With `BANC_RIG` set, that path is the config, and one that is no file is an error and not the
-- absence of a rig. With it unset, the config is the nearest one in the current directory or above
-- it, and there is no rig exactly where none of these has one.
pub locate_cases :
    {E : Type 0} (is_file : FilePath → Bool) (path dir : FilePath) (cwd : Result E FilePath)
    → (locate (some path) cwd is_file
        ≡ (if is_file path then ok (some path) else err (not_a_file path)))
      × (locate {E = E} none (ok dir) is_file ≡ ok (find is_file (candidates dir)))
unfolding locate
locate_cases is_file path dir cwd = (ground arith, rw (search_up-find is_file dir))

fresh-NotAmong : (seen names : List Text) → FreshNames seen names → All (λ n. NotAmong n seen) names
fresh-NotAmong seen [] h = tt
fresh-NotAmong seen (name ∷ names) h =
    (h.1, All-imp names (λ n k. k.1) (fresh-NotAmong (name ∷ seen) names h.2))

module _ {A : Type 0} (name : A → Text) where
  abbrev Finds : List A → A → Type 0
  Finds xs a = find (λ b. text_eq (name b) (name a)) xs ≡ some a

  skip : (x : A) (xs : List A) (a : A) → name x ≢ name a → Finds xs a → Finds (x ∷ xs) a
  skip x xs a ne h = ground (arith, text_eq_iff (name x) (name a))

  lookup_own : (seen : List Text) (xs : List A) → FreshNames seen (map name xs) → All (Finds xs) xs
  lookup_own seen [] h = tt
  lookup_own seen (x ∷ xs) h =
      let later = fresh-NotAmong (name x ∷ seen) (map name xs) h.2 in
      let others = All-of_map name (λ n. NotAmong n (name x ∷ seen)) xs later in
      (
        ground (arith, text_eq_iff (name x) (name x)),
        All-imp₂ (λ a. NotAmong (name a) (name x ∷ seen)) (Finds xs) (Finds (x ∷ xs)) xs
            (λ a k f. skip x xs a k.0 f) others (lookup_own (name x ∷ seen) xs h.2),
      )

-- In a config that was let through, every entry can be reached by its name: a lookup with the name
-- of an assistant gives that very assistant, and so for the instruments.
pub lookup_valid :
    {Table : Type 0} (c : RigConfig Table)
    → validate c ≡ ok tt
    → All (λ a. assistant c a.name ≡ some a) c.assistants
      × All (λ i. instrument c i.name ≡ some i) c.instruments
unfolding assistant instrument
lookup_valid c e =
    let v = (validate-ok_iff c).0 e in
    (
      lookup_own (λ a. a.name) [] c.assistants v.assistant_names,
      lookup_own (λ i. i.name) [] c.instruments v.instrument_names,
    )
