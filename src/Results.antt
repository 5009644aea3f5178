-- ===== src/Results.antt =====
-- banc-host/src/results.rs: one machine-readable line for each trial.
-- JSON is an argument: `to_string` is what serde_json makes of a record, if it can.
pub mod Suite
use banc.Common.{
  ℕ, Bool, true, false, Option, none, some, List, [], ◌∷◌, ◌++◌, ◌==◌, ◌&&◌, if◌then◌else◌, all,
}
use banc.Common.Text.{Text, len, is_ascii_hexdigit, codes}

abbrev pub schema_version : ℕ
schema_version = 1

pub data Outcome : Type 0 where
  passed failed skipped : Outcome

pub record TestRecord : Type 0 where
  pub schema : ℕ
  pub suite : Text
  pub test : Text
  pub outcome : Outcome
  pub reason : Option Text
  pub attempts : ℕ
  pub duration_ms : ℕ
  pub finished_at : ℕ
  pub evidence : Option Text

-- `now` is the clock in Unix seconds, 0 where it stands before the epoch.
unfoldable pub new : ℕ → Text → Text → Outcome → TestRecord
new now suite test outcome = record {
  schema = schema_version;
  suite = suite;
  test = test;
  outcome = outcome;
  reason = none;
  attempts = 1;
  duration_ms = 0;
  finished_at = now;
  evidence = none;
}

-- What the file system does on the way: whether the directory is there or made, the file opened, and
-- the line written.
pub record Disk : Type 0 where
  pub dir_made : Bool
  pub opened : Bool
  pub written : Bool

-- The content of `results.jsonl` after an append.
unfoldable pub append : (TestRecord → Option Text) → Disk → Text → TestRecord → Text
append to_string disk file rec = elim (to_string rec) [
  | none ↦ file
  | some line ↦
      if disk.dir_made && disk.opened && disk.written then file ++ line ++ (10 ∷ []) else file
]

-- `str::rsplit_once`.
unfoldable pub rsplit_once : ℕ → Text → Option (Text × Text)
rsplit_once c [] = none
rsplit_once c (x ∷ s) = elim (rsplit_once c s) [
  | some (a, b) ↦ some (x ∷ a, b)
  | none ↦ if x == c then some ([], s) else none
]

-- The name of the suite, from the file stem of the test binary, if the process has one.
unfoldable pub suite_name : Option Text → Text
suite_name none = codes "unknown"
suite_name (some stem) = elim (rsplit_once b'-' stem) [
  | some (name, hash) ↦ if len hash == 16 && all is_ascii_hexdigit hash then name else stem
  | none ↦ stem
]
