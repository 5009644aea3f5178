-- ===== src/Cli/Doctor.antt =====
-- banc/src/bin/banc.rs: `Doctor` and `doctor`.
use banc.Common.{
  ℕ, ◌+◌, ◌%◌, ◌^◌, Bool, not, none, some, List, [], ◌∷◌, ◌++◌, ◌==◌, ◌&&◌, any, length,
  if◌then◌else◌, Result, ok, err, ◌>>=◌, ◌>>◌, map_err,
}
use banc.Common.Text.{Text, codes, decimal}
use banc.Config.{FilePath, RigConfig, LeaseConfig, TargetConfig, AssistantConfig, InstrumentConfig}
use banc.Lease.Client.{ClientError, LeaseStatus}
use banc.Rig.{Env, TokenError, read_token, lock_path, FlockStatus, free, held}
use banc.Cli.{
  ExitCode, success, failure, World, TcpError, load_config, lease_status, lock_status,
  which_probe_rs, tcp_reach,
}

-- What a line is about.
pub data What : Type 0 where
  config : (targets assistants instruments : ℕ) → What
  probe_rs probe_token : What
  probe_rs_at : FilePath → What
  lease_server : (addr : Text) → What
  rig_lock artifacts : FilePath → What
  probe_server : (chip host : Text) → What
  local_probe : (chip : Text) → What
  assistant instrument : (name addr : Text) → What
  usb_assistant : (name : Text) → What
  unaddressed : (name kind : Text) → What

pub data Problem (E : Type 0) : Type 0 where
  token : TokenError E → Problem E
  status : ClientError E → Problem E
  io : E → Problem E
  tcp : TcpError E → Problem E
  not_on_path : Problem E

-- A line that is printed; the detail of a check that is well may be empty, and is not shown then.
pub data Line (E : Type 0) : Type 0 where
  well : What → (detail : Text) → Line E
  ill : What → Problem E → Line E
  noted : What → Line E

-- The two counters, which wrap around, and the lines so far.
pub record Doctor (E : Type 0) : Type 0 where
  pub failed : ℕ
  pub passed : ℕ
  pub lines : List (Line E)

module _ {E : Type 0} where
  abbrev pub start : Doctor E
  start = record { failed = 0; passed = 0; lines = [] }

  unfoldable pub pass : What → Text → Doctor E → Doctor E
  pass what detail d = record d {
    passed = (d.passed + 1) % 2 ^ 32;
    lines = d.lines ++ (well what detail ∷ []);
  }

  unfoldable pub fail : What → Problem E → Doctor E → Doctor E
  fail what p d = record d {
    failed = (d.failed + 1) % 2 ^ 32;
    lines = d.lines ++ (ill what p ∷ []);
  }

  unfoldable pub note : What → Doctor E → Doctor E
  note what d = record d { lines = d.lines ++ (noted what ∷ []) }

  unfoldable pub check : What → Result (Problem E) Text → Doctor E → Doctor E
  unfolding pass fail
  check what (ok detail) d = pass what detail d
  check what (err p) d = fail what p d

-- `r.map(|()| String::new())`, with the problem as `Doctor` has it.
abbrev pub silent : {E F A : Type 0} → (F → Problem E) → Result F A → Result (Problem E) Text
silent p (ok a) = ok []
silent p (err e) = err (p e)

-- `FlockStatus` and a lease's holder in words.
abbrev pub lock_detail : FlockStatus → Text
lock_detail free = codes "free"
lock_detail (held (some h)) =
    codes "held by '" ++ h.holder ++ codes "' (pid " ++ decimal h.pid ++ codes ")"
lock_detail (held none) = codes "held by an unidentified process"

abbrev pub lease_detail : LeaseStatus → Text
lease_detail s = elim s.holder [
  | some h ↦ codes "held by '" ++ h ++ codes "'"
  | none ↦ codes "free"
]

-- An address that the tool can try to reach: it has a colon and no slash.
unfoldable pub is_network_address : Text → Bool
is_network_address addr = any (λ c. c == b':') addr && not (any (λ c. c == b'/') addr)

module _ {E Table Addr : Type 0} (env : Env E Table) (world : World E Addr) where
  unfoldable pub lease_answer : LeaseConfig → FilePath → Result (Problem E) Text
  unfolding lease_status
  lease_answer lease base_dir = do
    answer ← map_err token (lease_status env world lease base_dir)
    s ← map_err status answer
    ok (lease_detail s)

  unfoldable pub lock_answer : FilePath → Result (Problem E) Text
  lock_answer path = do s ← map_err io (lock_status env world path); ok (lock_detail s)

  unfoldable pub check_lock : RigConfig Table → FilePath → Doctor E → Doctor E
  unfolding check lease_answer lock_answer
  check_lock c base_dir d = elim c.rig.lease [
    | some lease ↦ check (lease_server lease.addr) (lease_answer lease base_dir) d
    | none ↦ check (rig_lock (lock_path env c base_dir)) (lock_answer (lock_path env c base_dir)) d
  ]

  unfoldable pub check_probe_rs : Doctor E → Doctor E
  unfolding pass fail which_probe_rs
  check_probe_rs d = elim (which_probe_rs env world) [
    | some path ↦ pass (probe_rs_at path) [] d
    | none ↦ fail probe_rs not_on_path d
  ]

  unfoldable pub check_probe_host : TargetConfig Table → Doctor E → Doctor E
  unfolding check note
  check_probe_host t d = elim t.probe_host [
    | some host ↦ check (probe_server t.chip host) (silent tcp (tcp_reach env world host)) d
    | none ↦ note (local_probe t.chip) d
  ]

  unfoldable pub check_probe_token : TargetConfig Table → FilePath → Doctor E → Doctor E
  unfolding check
  check_probe_token t base_dir d = elim t.token_file [
    | some file ↦ check probe_token (silent token (read_token env file base_dir)) d
    | none ↦ d
  ]

  unfoldable pub check_target : RigConfig Table → FilePath → Doctor E → Doctor E
  unfolding check_probe_rs check_probe_host check_probe_token
  check_target c base_dir d = elim c.target [
    | none ↦ d
    | some t ↦ check_probe_token t base_dir (check_probe_host t (check_probe_rs d))
  ]

  -- The token of an assistant, if it names one, and then its address.
  unfoldable pub reach : AssistantConfig → Text → FilePath → Result (Problem E) Text
  reach a addr base_dir = elim a.token_file [
    | none ↦ silent tcp (tcp_reach env world addr)
    | some file ↦ do
      secret ← map_err token (read_token env file base_dir)
      silent tcp (tcp_reach env world addr)
  ]

  unfoldable pub check_assistants : List AssistantConfig → FilePath → Doctor E → Doctor E
  unfolding check note reach
  check_assistants [] base_dir d = d
  check_assistants (a ∷ as') base_dir d = check_assistants as' base_dir (elim a.addr [
    | some addr ↦ check (assistant a.name addr) (reach a addr base_dir) d
    | none ↦ note (usb_assistant a.name) d
  ])

  unfoldable pub check_instrument : InstrumentConfig Table → Doctor E → Doctor E
  unfolding check note is_network_address
  check_instrument i d = elim i.address [
    | none ↦ note (unaddressed i.name i.kind) d
    | some addr ↦
        if is_network_address addr
        then check (instrument i.name addr) (silent tcp (tcp_reach env world addr)) d
        else note (unaddressed i.name i.kind) d
  ]

  unfoldable pub check_instruments : List (InstrumentConfig Table) → Doctor E → Doctor E
  unfolding check_instrument
  check_instruments [] d = d
  check_instruments (i ∷ is) d = check_instruments is (check_instrument i d)

  unfoldable pub artifacts_dir : FilePath → FilePath
  artifacts_dir base_dir = elim world.banc_artifacts [
    | some path ↦ path
    | none ↦ codes "banc-artifacts" ∷ codes "target" ∷ base_dir
  ]

  unfoldable pub writable : FilePath → Result E (Unit {0})
  writable dir = do
    world.create_dir_all dir
    world.write (codes ".banc-doctor" ∷ dir)
    world.remove_file (codes ".banc-doctor" ∷ dir)

  -- The line on a config that was loaded.
  abbrev pub sound : RigConfig Table → What
  sound c =
      config (elim c.target [ none ↦ 0 | some t ↦ 1 ]) (length c.assistants) (length c.instruments)

  -- All the checks of `doctor` on a config, in its order.
  unfoldable pub examine : RigConfig Table → FilePath → Doctor E
  unfolding pass check check_lock check_target check_assistants check_instruments artifacts_dir
      writable
  examine c base_dir =
      check (artifacts (artifacts_dir base_dir)) (silent io (writable (artifacts_dir base_dir))) (
        check_instruments c.instruments (
          check_assistants c.assistants base_dir
            (check_target c base_dir (check_lock c base_dir (pass (sound c) [] start)))))

  unfoldable pub doctor : List (Line E) × ExitCode
  unfolding load_config examine
  doctor = elim (load_config env world) [
    | err code ↦ ([], code)
    | ok (c, base_dir) ↦
        ((examine c base_dir).lines, if (examine c base_dir).failed == 0 then success else failure)
  ]
