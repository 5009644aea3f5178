-- ===== src/Probe/Target.antt =====
-- banc-probe/src/lib.rs, banc-probe/src/remote.rs and the handle of banc-probe/src/local.rs: a target
-- behind the probe-rs library or behind its command line. What probe-rs and the thread do is data
-- or an argument; `exec` runs a command on a machine in a state of type `S`.
use banc.Common.{
  ℕ, Bool, Option, none, some, List, [], ◌∷◌, ◌++◌, if◌then◌else◌, Result, ok, err, ◌>>=◌, map_err,
  length,
}
use banc.Common.Text.{Text, codes}

pub record TargetSpec : Type 0 where
  pub chip : Text
  pub probe : Option Text
  pub probe_host : Option Text
  pub probe_rs_bin : Option Text

pub record RemoteCliTarget : Type 0 where
  pub bin : Text
  pub host : Text
  pub chip : Text
  pub probe : Option Text

unfoldable pub new : TargetSpec → Text → RemoteCliTarget
new spec host = record {
  bin = elim spec.probe_rs_bin [ some bin ↦ bin | none ↦ codes "probe-rs" ];
  host = host;
  chip = spec.chip;
  probe = spec.probe;
}

-- A program with its arguments.
pub record Command : Type 0 where
  pub bin : Text
  pub args : List Text

unfoldable pub command : RemoteCliTarget → Text → Command
command t subcommand = record {
  bin = t.bin;
  args =
      subcommand
      ∷ codes "--host"
      ∷ t.host
      ∷ codes "--chip"
      ∷ t.chip
      ∷ elim t.probe [ none ↦ [] | some probe ↦ codes "--probe" ∷ probe ∷ [] ];
}

abbrev pub arg : Command → Text → Command
arg c a = record c { args = c.args ++ (a ∷ []) }

-- What a program that ran has left.
pub record Output : Type 0 where
  pub success : Bool
  pub stdout : List ℕ
  pub stderr : List ℕ

pub data RemoteError (E : Type 0) : Type 0 where
  spawning : (what : Text) → E → RemoteError E
  ended_badly : (what : Text) → Output → RemoteError E

module _ {E S : Type 0} (exec : Command → S → Result E Output × S) where
  unfoldable pub finish : Text → Result E Output → Result (RemoteError E) (Unit {0})
  finish what (err e) = err (spawning what e)
  finish what (ok output) = if output.success then ok tt else err (ended_badly what output)

  unfoldable pub run : Command → Text → S → Result (RemoteError E) (Unit {0}) × S
  unfolding finish
  run cmd what s = let r = exec cmd s in (finish what r.0, r.1)

  unfoldable pub remote_reset : RemoteCliTarget → S → Result (RemoteError E) (Unit {0}) × S
  unfolding run command
  remote_reset t s = run (command t (codes "reset")) (codes "remote reset") s

  unfoldable pub remote_flash :
      RemoteCliTarget → (elf : Text) → S → Result (RemoteError E) (Unit {0}) × S
  unfolding run command remote_reset
  remote_flash t elf s =
      let downloaded = run (arg (command t (codes "download")) elf) (codes "remote flash") s in
      elim downloaded.0 [ ok u ↦ remote_reset t downloaded.1 | err e ↦ (err e, downloaded.1) ]

-- What becomes of a command to the worker: the thread is gone, it drops the command unanswered, or
-- it answers.
pub data Served (A : Type 0) : Type 0 where
  gone dropped : Served A
  answered : Result Text A → Served A

pub data LocalError : Type 0 where
  worker_gone worker_dropped : LocalError
  worker_failed : Text → LocalError

-- `flash`, `reset` and the reply to `start_rtt` of a `LocalTarget`.
unfoldable pub await_reply : {A : Type 0} → Served A → Result LocalError A
await_reply gone = err worker_gone
await_reply dropped = err worker_dropped
await_reply (answered (ok a)) = ok a
await_reply (answered (err e)) = err (worker_failed e)

pub data SessionError (E : Type 0) : Type 0 where
  bad_selector : Text → E → SessionError E
  no_open : E → SessionError E
  not_one : (found : ℕ) → SessionError E
  no_attach : (chip : Text) → E → SessionError E

pub data Opened (T : Type 0) : Type 0 where
  local : T → Opened T
  remote : RemoteCliTarget → Opened T

-- `open_session`, over probe-rs: the parser of selectors, the probes that are there, opening by a
-- selector or one of these, and attaching to a chip.
module _ {E Selector Info Probe Session : Type 0} (from_str : Text → Result E Selector)
    (list_all : List Info) (open_selected : Selector → Result E Probe)
    (open_listed : Info → Result E Probe) (attach : Probe → Text → Result E Session) where
  unfoldable pub only_probe : List Info → Result (SessionError E) Probe
  only_probe [] = err (not_one 0)
  only_probe (p ∷ []) = map_err no_open (open_listed p)
  only_probe (p ∷ q ∷ ps) = err (not_one (length (p ∷ q ∷ ps)))

  unfoldable pub open_probe : Option Text → Result (SessionError E) Probe
  unfolding only_probe
  open_probe none = only_probe list_all
  open_probe (some sel) = do
    selector ← map_err (bad_selector sel) (from_str sel)
    map_err no_open (open_selected selector)

  unfoldable pub open_session : TargetSpec → Result (SessionError E) Session
  unfolding open_probe
  open_session spec = do
    probe ← open_probe spec.probe
    map_err (no_attach spec.chip) (attach probe spec.chip)

  -- `Target::open`; the session belongs to the worker's thread.
  unfoldable pub open_target : TargetSpec → Result (SessionError E) (Opened Session)
  unfolding open_session new
  open_target spec = elim spec.probe_host [
    | none ↦ do session ← open_session spec; ok (local session)
    | some host ↦ ok (remote (new spec host))
  ]

pub data TargetError (E : Type 0) : Type 0 where
  at_worker : LocalError → TargetError E
  at_remote : RemoteError E → TargetError E
  rtt_not_wired : TargetError E

-- `Target::flash`, `reset` and `start_rtt`; `served` is what becomes of the command to the worker of
-- a local target.
module _ {E S T : Type 0} (exec : Command → S → Result E Output × S) where
  unfoldable pub flash :
      Opened T
      → (served : Served (Unit {0})) → (elf : Text) → S
      → Result (TargetError E) (Unit {0}) × S
  unfolding await_reply remote_flash
  flash (local t) served elf s = (map_err at_worker (await_reply served), s)
  flash (remote t) served elf s = let r = remote_flash exec t elf s in (map_err at_remote r.0, r.1)

  unfoldable pub reset :
      Opened T → (served : Served (Unit {0})) → S → Result (TargetError E) (Unit {0}) × S
  unfolding await_reply remote_reset
  reset (local t) served s = (map_err at_worker (await_reply served), s)
  reset (remote t) served s = let r = remote_reset exec t s in (map_err at_remote r.0, r.1)

unfoldable pub start_rtt :
    {E T A : Type 0} → Opened T → (served : Served A) → Result (TargetError E) A
unfolding await_reply
start_rtt (local t) served = map_err at_worker (await_reply served)
start_rtt (remote t) served = err rtt_not_wired
