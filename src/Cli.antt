-- ===== src/Cli.antt =====
-- banc/src/bin/banc.rs: the command line tool, up to the checks of `doctor` and the command `probe`.
-- What the machine, the network and the servers answer is `World`; what is printed is data.
pub mod Doctor
pub mod Probe
pub mod Main
pub mod Counting
pub mod Health
pub mod Parts
pub mod Exits
pub mod Probing
mod Tests
use banc.Common.{
  ℕ, Bool, true, false, Option, none, some, List, [], ◌∷◌, ◌==◌, ◌&&◌, if◌then◌else◌, map, find,
  Result, ok, err, ◌>>=◌, map_err,
}
use banc.Common.Text.{Text, codes}
use mathlib.Core.List.{reverse}
use banc.Config.{FilePath, RigConfig, LeaseConfig, LoadError, locate, load}
use banc.Lease.{LeaseReply}
use banc.Lease.Client.{ClientError, LeaseStatus, query_status}
use banc.Rig.{
  Env, TokenError, read_token, lock_path, LockHolder, FlockStatus, free, held, Opened, flock_status,
  parent_or_here,
}

abbrev pub ExitCode : Type 0
ExitCode = ℕ

abbrev pub success : ExitCode
success = 0

abbrev pub failure : ExitCode
failure = 1

-- What answers the tool: the lease server at an address, to the token; the lock file, how it opens
-- and what it has; the note of a holder, as JSON; the name service and a connect to an address that
-- it gives; the directories of `PATH`; the place for artifacts that the environment names; and the
-- file system.
pub record World (E Addr : Type 0) : Type 0 where
  pub ask_status : (addr token : Text) → Result E LeaseReply
  pub open_lock : FilePath → Opened E
  pub lock_content : FilePath → Option (List ℕ)
  pub holder_from_str : List ℕ → Option LockHolder
  pub to_socket_addrs : Text → Result E (List Addr)
  pub connect_timeout : Addr → Result E (Unit {0})
  pub path : Option (List FilePath)
  pub banc_artifacts : Option FilePath
  pub create_dir_all : FilePath → Result E (Unit {0})
  pub write : FilePath → Result E (Unit {0})
  pub remove_file : FilePath → Result E (Unit {0})

-- The text after the first "://".
abbrev pub after_scheme : Text → Option Text
after_scheme (a ∷ b ∷ c ∷ t) =
    let later = after_scheme (b ∷ c ∷ t) in
    if a == b':' && b == b'/' && c == b'/' then some t else later
after_scheme t = none

abbrev pub trim_slashes : Text → Text
trim_slashes [] = []
trim_slashes (c ∷ t) = if c == b'/' then trim_slashes t else c ∷ t

-- `trim_end_matches('/')` of what follows a scheme.
unfoldable pub host_port : Text → Text
host_port addr = elim (after_scheme addr) [
  | none ↦ reverse (trim_slashes (reverse addr))
  | some rest ↦ reverse (trim_slashes (reverse rest))
]

pub data TcpError (E : Type 0) : Type 0 where
  unresolved : E → TcpError E
  unconnected : E → TcpError E
  no_addresses : TcpError E

-- What `rig_status` prints on its output.
pub data Report : Type 0 where
  lease_held : (holder addr : Text) (expires_in_s : ℕ) → Report
  lease_free : (addr : Text) → Report
  flock_free : FilePath → Report
  flock_held : Option LockHolder → FilePath → Report

module _ {E Table Addr : Type 0} (env : Env E Table) (world : World E Addr) where
  unfoldable pub load_config : Result ExitCode (RigConfig Table × FilePath)
  load_config = elim (locate env.banc_rig env.current_dir env.is_file) [
    | err e ↦ err failure
    | ok none ↦ err 2
    | ok (some path) ↦ elim (load env.read_to_string env.from_str path) [
      | err e ↦ err failure
      | ok config ↦ ok (config, parent_or_here path)
    ]
  ]

  -- `query_status` with the token of the lease.
  unfoldable pub lease_status :
      LeaseConfig → FilePath → Result (TokenError E) (Result (ClientError E) LeaseStatus)
  lease_status lease base_dir = do
    token ← read_token env lease.token_file base_dir
    ok (query_status (world.ask_status lease.addr token))

  unfoldable pub lock_status : FilePath → Result E FlockStatus
  lock_status path =
      flock_status world.holder_from_str (world.open_lock path) (world.lock_content path)

  report_lease : LeaseConfig → LeaseStatus → Report
  report_lease lease status = elim status.holder [
    | some holder ↦ lease_held holder lease.addr status.expires_in_s
    | none ↦ lease_free lease.addr
  ]

  report_lock : FilePath → FlockStatus → Report
  report_lock path free = flock_free path
  report_lock path (held note) = flock_held note path

  -- The rest of `rig_status`, with the config.
  status_of : RigConfig Table → FilePath → Option Report × ExitCode
  unfolding report_lease report_lock lease_status lock_status
  status_of config base_dir = elim config.rig.lease [
    | some lease ↦ elim (lease_status lease base_dir) [
      | err e ↦ (none, failure)
      | ok (err e) ↦ (none, failure)
      | ok (ok status) ↦ (some (report_lease lease status), success)
    ]
    | none ↦ elim (lock_status (lock_path env config base_dir)) [
      | err e ↦ (none, failure)
      | ok status ↦ (some (report_lock (lock_path env config base_dir) status), success)
    ]
  ]

  unfoldable pub rig_status : Option Report × ExitCode
  unfolding load_config status_of
  rig_status = elim load_config [
    | err code ↦ (none, code)
    | ok (config, base_dir) ↦ status_of config base_dir
  ]

  unfoldable pub which_probe_rs : Option FilePath
  which_probe_rs = elim world.path [
    | none ↦ none
    | some dirs ↦ find env.is_file (map (λ dir. codes "probe-rs" ∷ dir) dirs)
  ]

  -- The loop of `tcp_reach`, with the last error.
  unfoldable pub connect_any : Option E → List Addr → Result (TcpError E) (Unit {0})
  connect_any none [] = err no_addresses
  connect_any (some e) [] = err (unconnected e)
  connect_any last (sa ∷ addrs) = elim (world.connect_timeout sa) [
    | ok u ↦ ok tt
    | err e ↦ connect_any (some e) addrs
  ]

  unfoldable pub tcp_reach : Text → Result (TcpError E) (Unit {0})
  unfolding host_port connect_any
  tcp_reach addr = elim (world.to_socket_addrs (host_port addr)) [
    | err e ↦ err (unresolved e)
    | ok addrs ↦ connect_any none addrs
  ]
