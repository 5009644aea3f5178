-- ===== src/Cli/Health.antt =====
-- banc/src/bin/banc.rs: what `doctor` finds, and its exit code.
use banc.Common.{
  ◌≡◌, ◌↔◌, inl, inr, refl, true, false, Option, none, some, [], arith, Result, ok, err, All,
  Result-cases,
}
use banc.Common.Text.{Text}
use banc.Config.{FilePath, RigConfig, LeaseConfig, TargetConfig, AssistantConfig, InstrumentConfig}
use banc.Lease.Client.{query_status}
use banc.Rig.{Env, read_token, lock_path}
use banc.Cli.{World, lease_status, lock_status, which_probe_rs, tcp_reach}
use Prim.{absurd}
use banc.Cli.Doctor.{
  lease_server, rig_lock, lease_detail, lock_detail, Problem, check, silent, lease_answer,
  lock_answer, check_lock, is_network_address, artifacts_dir, writable,
}
use banc.Cli.Counting.{Answered, Given, Counts, check-Counts, means}

pub silent-Answered :
    {E F A : Type 0} (p : F → Problem E) (r : Result F A) → Answered (silent p r) ↔ Answered r
silent-Answered p (ok a) = ((λ e. (a, refl)), (λ e. ([], refl)))
silent-Answered p (err e) = ((λ a. ground (arith, a)), (λ a. ground (arith, a)))

module _ {E Table Addr : Type 0} (env : Env E Table) (world : World E Addr) where
  abbrev pub Readable : FilePath → Text → Type 0
  Readable base_dir file = Answered (read_token env file base_dir)

  abbrev pub Reachable : Text → Type 0
  Reachable addr = Answered (tcp_reach env world addr)

  -- The lease server answers a status query to the token, or the lock file can be examined.
  abbrev pub LockAnswers : FilePath → FilePath → Option LeaseConfig → Type 0
  LockAnswers base_dir lock none = Answered (lock_status env world lock)
  LockAnswers base_dir lock (some lease) =
      (secret : Text) × (read_token env lease.token_file base_dir ≡ ok secret)
      × Answered (query_status (world.ask_status lease.addr secret))

  abbrev pub TargetReady : FilePath → TargetConfig Table → Type 0
  TargetReady base_dir t =
      ((path : FilePath) × (which_probe_rs env world ≡ some path))
      × Given Reachable t.probe_host
      × Given (Readable base_dir) t.token_file

  abbrev pub AssistantReady : FilePath → AssistantConfig → Type 0
  AssistantReady base_dir a =
      Given (λ addr. Given (Readable base_dir) a.token_file × Reachable addr) a.addr

  abbrev pub InstrumentReady : InstrumentConfig Table → Type 0
  InstrumentReady i =
      Given (λ addr. elim (is_network_address addr) [ true ↦ Reachable addr | false ↦ Unit {0} ])
        i.address

  abbrev pub Healthy : RigConfig Table → FilePath → Type 0
  Healthy c base_dir =
      LockAnswers base_dir (lock_path env c base_dir) c.rig.lease
      × Given (TargetReady base_dir) c.target
      × All (AssistantReady base_dir) c.assistants
      × All InstrumentReady c.instruments
      × Answered (writable env world (artifacts_dir env world base_dir))

  lease-Answered :
      (lease : LeaseConfig) (base_dir lock : FilePath)
      → Answered (lease_answer env world lease base_dir) ↔ LockAnswers base_dir lock (some lease)
  unfolding lease_answer lease_status
  lease-Answered lease base_dir lock =
      elim (Result-cases (read_token env lease.token_file base_dir)) [
        | inr (e, f) ↦ (
          (λ (a, g). absurd (ground (arith, f, g))),
          (λ (s, g, a). absurd (ground (arith, f, g))),
        )
        | inl (secret, f) ↦
            elim (Result-cases (query_status (world.ask_status lease.addr secret))) [
              | inl (status, g) ↦ (
                (λ a. (secret, f, (status, g))),
                (λ a. (lease_detail status, ground (arith, f, g))),
              )
              | inr (e, g) ↦ (
                (λ (a, h). absurd (ground (arith, f, g, h))),
                (λ (s, h, (a, k)). absurd (ground (arith, f, g, h, k))),
              )
            ]
      ]

  lock-Answered :
      (path : FilePath)
      → Answered (lock_answer env world path) ↔ Answered (lock_status env world path)
  unfolding lock_answer
  lock-Answered path = elim (Result-cases (lock_status env world path)) [
    | inl (s, f) ↦ ((λ a. (s, f)), (λ a. (lock_detail s, ground (arith, f))))
    | inr (e, f) ↦
        ((λ (a, g). absurd (ground (arith, f, g))), (λ (a, g). absurd (ground (arith, f, g))))
  ]

  pub lock-Counts :
      (c : RigConfig Table) (base_dir : FilePath)
      → Counts
          (check_lock env world c base_dir)
          1
          (LockAnswers base_dir (lock_path env c base_dir) c.rig.lease)
  unfolding check_lock
  lock-Counts c base_dir = by_lease c.rig.lease
    where
      lock : FilePath
      lock = lock_path env c base_dir

      by_lease :
          (o : Option LeaseConfig)
          → Counts
              (λ d. elim o [
                | some lease ↦
                    check (lease_server lease.addr) (lease_answer env world lease base_dir) d
                | none ↦ check (rig_lock lock) (lock_answer env world lock) d
              ])
              1
              (LockAnswers base_dir lock o)
      by_lease none =
          means (check (rig_lock lock) (lock_answer env world lock)) 1 1
            (Answered (lock_answer env world lock)) (LockAnswers base_dir lock none) (omega arith)
            (lock-Answered lock) (check-Counts (rig_lock lock) (lock_answer env world lock))
      by_lease (some lease) =
          means (check (lease_server lease.addr) (lease_answer env world lease base_dir)) 1 1
            (Answered (lease_answer env world lease base_dir))
            (LockAnswers base_dir lock (some lease)) (omega arith)
            (lease-Answered lease base_dir lock)
            (check-Counts (lease_server lease.addr) (lease_answer env world lease base_dir))
