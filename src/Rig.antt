-- ===== src/Rig.antt =====
-- banc-host/src/rig.rs: how a process comes to hold the rig.
-- Files, the environment, TOML and the way a path's text splits are arguments; so are the two ways to
-- hold a rig, the network lease and the lock on a file, where they are only called.
pub mod Acquiring
pub mod Lock
pub mod Token
pub mod Fixtures
pub mod Leased
mod Tests
use banc.Common.{
  ℕ, ◌+◌, Bool, true, false, Option, none, some, List, [], ◌∷◌, ◌++◌, not, is_nil, leb,
  if◌then◌else◌, Result, ok, err, ◌>>=◌, ◌>>◌, guard, map_err, take, drop,
}
use banc.Common.Text.{Text, codes, trim, decimal}
use banc.Common.Time.{Instant, Duration, from_secs}
use banc.Config.{FilePath, RigConfig, LeaseConfig, LoadError, locate, load}

abbrev pub default_lock_timeout : Duration
default_lock_timeout = from_secs 300

-- What a process is given from outside; `parse` is `str::parse::<u64>`.
pub record Env (E Table : Type 0) : Type 0 where
  pub banc_rig : Option FilePath
  pub current_dir : Result E FilePath
  pub is_file : FilePath → Bool
  pub read_to_string : FilePath → Result E Text
  pub from_str : Text → Result E (RigConfig Table)
  pub components : Text → FilePath
  pub is_absolute : Text → Bool
  pub lock_timeout_secs : Option Text
  pub parse : Text → Option ℕ
  pub lease_holder : Option Text
  pub hostname : Option Text
  pub pid : ℕ

pub data TokenError (E : Type 0) : Type 0 where
  unreadable : FilePath → E → TokenError E
  empty : FilePath → TokenError E

-- Why `Rig::acquire` did not return a rig; `fail` with the step at which it failed.
pub data Failure (E : Type 0) : Type 0 where
  bad_config : LoadError E → Failure E
  bad_token : TokenError E → Failure E
  no_lease no_flock : E → Failure E

pub data Acquire (E : Type 0) : Type 0 where
  skip : Acquire E
  fail : Failure E → Acquire E

pub data Exclusive (L K : Type 0) : Type 0 where
  flock : L → Exclusive L K
  lease : K → Exclusive L K

pub record Rig (Table L K : Type 0) : Type 0 where
  pub config : RigConfig Table
  pub base_dir : FilePath
  pub lock : Exclusive L K

-- `Path::parent`, or ".", which stands for no component.
abbrev pub parent_or_here : FilePath → FilePath
parent_or_here [] = []
parent_or_here (name ∷ parent) = parent

module _ {E Table : Type 0} (env : Env E Table) where
  unfoldable pub holder_identity : Text
  holder_identity = elim env.lease_holder [
    | some h ↦ h
    | none ↦ elim env.hostname [
      | some host ↦ host ++ codes ":" ++ decimal env.pid
      | none ↦ codes "?" ++ codes ":" ++ decimal env.pid
    ]
  ]

  -- A path, or what it is under the directory of the config.
  unfoldable pub resolve : Text → FilePath → FilePath
  resolve path base_dir =
      if env.is_absolute path then env.components path else env.components path ++ base_dir

  unfoldable pub read_token : Text → FilePath → Result (TokenError E) Text
  unfolding resolve
  read_token path base_dir = do
    text ← map_err (unreadable (resolve path base_dir)) (env.read_to_string (resolve path base_dir))
    guard (not (is_nil (trim text))) (empty (resolve path base_dir))
    ok (trim text)

  unfoldable pub lock_path : RigConfig Table → FilePath → FilePath
  unfolding resolve
  lock_path config base_dir = elim config.rig.lock_file [
    | some path ↦ resolve path base_dir
    | none ↦ codes "banc.lock" ∷ codes "target" ∷ base_dir
  ]

  unfoldable pub timeout : Duration
  timeout = elim env.lock_timeout_secs [
    | none ↦ default_lock_timeout
    | some text ↦ elim (env.parse text) [ none ↦ default_lock_timeout | some n ↦ from_secs n ]
  ]

  module _ {L K : Type 0} (take_flock : FilePath → Duration → Result E L)
      (acquire_lease : (addr token holder : Text) → Duration → Result E K) where
    -- The lock that the config asks for.
    unfoldable pub exclusive : RigConfig Table → FilePath → Result (Failure E) (Exclusive L K)
    exclusive config base_dir = elim config.rig.lease [
      | some l ↦ do
        token ← map_err bad_token (read_token l.token_file base_dir)
        k ← map_err no_lease (acquire_lease l.addr token holder_identity timeout)
        ok (lease k)
      | none ↦ do
        k ← map_err no_flock (take_flock (lock_path config base_dir) timeout)
        ok (flock k)
    ]

    unfoldable pub configured : FilePath → Result (Failure E) (Rig Table L K)
    configured path = do
      config ← map_err bad_config (load env.read_to_string env.from_str path)
      lock ← exclusive config (parent_or_here path)
      ok (record { config = config; base_dir = parent_or_here path; lock = lock })

    -- `Rig::acquire`.
    unfoldable pub acquire : Result (Acquire E) (Rig Table L K)
    unfolding configured
    acquire = elim (locate env.banc_rig env.current_dir env.is_file) [
      | err e ↦ err (fail (bad_config e))
      | ok none ↦ err skip
      | ok (some path) ↦ map_err fail (configured path)
    ]

-- The note of a holder, as JSON makes it and reads it (`to_string`, `from_str`), is an argument.
pub record LockHolder : Type 0 where
  pub holder : Text
  pub pid : ℕ
  pub since : ℕ

-- One round of the loop of `RigLock::take`: what `try_lock_exclusive` answers, the instant read after
-- it, and what the lock file then has, if it can be read.
pub record Attempt (E : Type 0) : Type 0 where
  pub locked : Result E Bool
  pub now : Instant
  pub content : Option (List ℕ)

pub data Taken (E : Type 0) : Type 0 where
  taken : Taken E
  failed : E → Taken E
  -- Another has held it for all of the time; with its note, where that is legible.
  held_over : Option LockHolder → Taken E
  sleeping : Taken E

abbrev pub read_lock_holder : (List ℕ → Option LockHolder) → Option (List ℕ) → Option LockHolder
read_lock_holder from_str none = none
read_lock_holder from_str (some text) = from_str text

unfoldable pub take_loop :
    {E : Type 0} → (List ℕ → Option LockHolder) → Instant → List (Attempt E) → Taken E
take_loop from_str deadline [] = sleeping
take_loop from_str deadline (a ∷ as') =
    let rest = take_loop from_str deadline as' in
    elim a.locked [
      | err e ↦ failed e
      | ok true ↦ taken
      | ok false ↦
          if leb deadline a.now then held_over (read_lock_holder from_str a.content) else rest
    ]

-- The file after the holder's note is written: whether it could be cut to nothing, the note, if it
-- has a JSON text, and how many bytes of that were written from the start.
unfoldable pub write_note : (truncated : Bool) → Option (List ℕ) → (written : ℕ) → List ℕ → List ℕ
write_note truncated none written file = if truncated then [] else file
write_note truncated (some json) written file =
    if truncated then take written json else take written json ++ drop written file

-- What `Drop for RigLock` leaves in the file.
unfoldable pub drop_lock : (truncated : Bool) → List ℕ → List ℕ
drop_lock truncated file = if truncated then [] else file

pub data FlockStatus : Type 0 where
  free : FlockStatus
  held : Option LockHolder → FlockStatus

-- How the lock file opens.
pub data Opened (E : Type 0) : Type 0 where
  opened : (locked : Result E Bool) → Opened E
  not_found : Opened E
  unopened : E → Opened E

unfoldable pub flock_status :
    {E : Type 0} → (List ℕ → Option LockHolder) → Opened E → Option (List ℕ) → Result E FlockStatus
flock_status from_str not_found content = ok free
flock_status from_str (unopened e) content = err e
flock_status from_str (opened (err e)) content = err e
flock_status from_str (opened (ok true)) content = ok free
flock_status from_str (opened (ok false)) content = ok (held (read_lock_holder from_str content))
