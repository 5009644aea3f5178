-- ===== src/Cli/Exits.antt =====
-- banc/src/bin/banc.rs: what the exit codes of the tool say.
use banc.Common.{
  ◌+◌, ◌^◌, ◌<◌, ◌≡◌, ◌≢◌, ◌↔◌, ◌⊎◌, inl, inr, Option, none, List, [], ◌∷◌, arith, ◌==◌,
  if◌then◌else◌, Result, ok, err, length, Option-cases, Result-cases,
}
use banc.Common.Text.{Text, codes, text_eq}
use banc.Config.{FilePath, RigConfig, locate, load}
use banc.Rig.{Env, lock_path, parent_or_here}
use banc.Cli.{World, load_config, rig_status, status_of, lock_status, lease_status}
use banc.Cli.Doctor.{
  Doctor, silent, io, sound, start, pass, check, artifacts, check_lock, check_target,
  check_assistants, check_instruments, artifacts_dir, writable, examine, doctor,
}
use banc.Cli.Counting.{Counts, check-Counts, means, then_Counts}
use banc.Cli.Health.{Healthy, silent-Answered, lock-Counts}
use banc.Cli.Parts.{target-Counts, assistants-Counts, instruments-Counts}
use banc.Cli.Probe.{ℤ}
use banc.Cli.Main.{main}

module _ {E Table Addr : Type 0} (env : Env E Table) (world : World E Addr) where
  rest_of : RigConfig Table → FilePath → Doctor E → Doctor E
  rest_of c base_dir d =
      check (artifacts (artifacts_dir env world base_dir))
        (silent io (writable env world (artifacts_dir env world base_dir)))
        (check_instruments env world c.instruments (
          check_assistants env world c.assistants base_dir
            (check_target env world c base_dir (check_lock env world c base_dir d))))

  rest-Counts :
      (c : RigConfig Table) (base_dir : FilePath)
      → Counts
          (rest_of c base_dir)
          (length c.assistants + length c.instruments + 5)
          (Healthy env world c base_dir)
  unfolding rest_of
  rest-Counts c base_dir =
      let dir = artifacts_dir env world base_dir in
      let locked = lock-Counts env world c base_dir in
      let targeted =
        then_Counts (check_lock env world c base_dir) (check_target env world c base_dir) 1 3 _ _
          locked (target-Counts env world c base_dir) in
      let assisted =
        then_Counts (λ d. check_target env world c base_dir (check_lock env world c base_dir d))
          (check_assistants env world c.assistants base_dir) 4 (length c.assistants) _ _ targeted
          (assistants-Counts env world c.assistants base_dir) in
      let measured =
        then_Counts
          (λ d.
            check_assistants env world c.assistants base_dir
              (check_target env world c base_dir (check_lock env world c base_dir d)))
          (check_instruments env world c.instruments) (4 + length c.assistants)
          (length c.instruments) _ _ assisted (instruments-Counts env world c.instruments) in
      let stored =
        then_Counts
          (λ d. check_instruments env world c.instruments (
            check_assistants env world c.assistants base_dir
              (check_target env world c base_dir (check_lock env world c base_dir d))))
          (check (artifacts dir) (silent io (writable env world dir)))
          (4 + length c.assistants + length c.instruments) 1 _ _ measured
          (check-Counts (artifacts dir) (silent io (writable env world dir))) in
      means (rest_of c base_dir) _ _ _ _ (omega arith)
        (
          (λ ((((l, t), a), i), w).
              (l, t, a, i, (silent-Answered io (writable env world dir)).0 w)),
          (λ (l, t, a, i, w).
              ((((l, t), a), i), (silent-Answered io (writable env world dir)).1 w)),
        )
        stored

  -- On a config that is found and let through, `banc doctor` ends with success exactly where the rig
  -- is healthy: its lease server answers the token or its lock file can be examined, probe-rs is
  -- found and the probe server reachable with a readable token where there is a target, and each
  -- assistant and instrument with a network address is reachable, its token readable; and artifacts
  -- can be written. It ends with 1 elsewhere. That needs fewer than 2 ^ 32 things to check.
  pub doctor_exit :
      (run : List Text → Result E (Option ℤ)) (c : RigConfig Table) (base_dir : FilePath)
      → load_config env world ≡ ok (c, base_dir)
      → length c.assistants + length c.instruments + 5 < 2 ^ 32
      → ((main env world run (codes "doctor" ∷ []) ≡ 0) ↔ Healthy env world c base_dir)
        × ((main env world run (codes "doctor" ∷ []) ≡ 0)
            ⊎ (main env world run (codes "doctor" ∷ []) ≡ 1))
  unfolding main doctor text_eq examine
  doctor_exit run c base_dir e lt =
      let (k, le, adds, zero_iff) = rest-Counts c base_dir in
      let d : Doctor E = pass (sound env world c) [] start in
      let f : (rest_of c base_dir d).failed ≡ k =
        let h = adds d (unfold pass in omega arith) in (unfold pass in omega (arith, h)) in
      let g : (doctor env world).1 ≡ (if k == 0 then 0 else 1) =
        (unfold rest_of in ground (arith, e, f)) in
      (
        (
          (λ z. zero_iff.0 (ground (arith, g, z))),
          (λ h. let z = zero_iff.1 h in ground (arith, g, z)),
        ),
        ground (arith, g),
      )

  status_codes :
      (c : RigConfig Table) (base_dir : FilePath)
      → ((status_of env world c base_dir).1 ≡ 0) ⊎ ((status_of env world c base_dir).1 ≡ 1)
  unfolding status_of
  status_codes c base_dir = elim (Option-cases c.rig.lease) [
    | inl n ↦ elim (Result-cases (lock_status env world (lock_path env c base_dir))) [
      | inl (s, f) ↦ ground (arith, n, f)
      | inr (x, f) ↦ ground (arith, n, f)
    ]
    | inr (lease, g) ↦ elim (Result-cases (lease_status env world lease base_dir)) [
      | inr (x, f) ↦ ground (arith, g, f)
      | inl (answer, f) ↦ elim (Result-cases answer) [
        | inl (s, h) ↦ ground (arith, g, f, h)
        | inr (x, h) ↦ ground (arith, g, f, h)
      ]
    ]
  ]

  -- How `load_config` ends.
  pub load_cases :
      ((load_config env world ≡ err 2)
        × (locate env.banc_rig env.current_dir env.is_file ≡ ok none))
      ⊎ ((load_config env world ≡ err 1)
          × (locate env.banc_rig env.current_dir env.is_file ≢ ok none))
      ⊎ ((c : RigConfig Table) × (base_dir : FilePath) × (load_config env world ≡ ok (c, base_dir))
          × (locate env.banc_rig env.current_dir env.is_file ≢ ok none))
  unfolding load_config
  load_cases = elim (Result-cases (locate env.banc_rig env.current_dir env.is_file)) [
    | inr (e, f) ↦ inr (inl (ground (arith, f), ground (arith, f)))
    | inl (o, f) ↦ elim (Option-cases o) [
      | inl n ↦ inl (ground (arith, f, n), ground (arith, f, n))
      | inr (path, g) ↦ elim (Result-cases (load env.read_to_string env.from_str path)) [
        | inr (e, h) ↦ inr (inl (ground (arith, f, g, h), ground (arith, f, g)))
        | inl (c, h) ↦
            inr (inr (c, parent_or_here path, ground (arith, f, g, h), ground (arith, f, g)))
      ]
    ]
  ]

  -- `doctor` and `rig status` end with 2 exactly where no config is found, and never for a config
  -- that is there: a machine without a rig is told from one whose rig is broken.
  pub no_rig_exit :
      (run : List Text → Result E (Option ℤ))
      → ((main env world run (codes "doctor" ∷ []) ≡ 2)
          ↔ (locate env.banc_rig env.current_dir env.is_file ≡ ok none))
        × ((main env world run (codes "rig" ∷ codes "status" ∷ []) ≡ 2)
            ↔ (locate env.banc_rig env.current_dir env.is_file ≡ ok none))
  unfolding main doctor text_eq rig_status
  no_rig_exit run = elim load_cases [
    | inl (e, n) ↦ ground (arith, e, n)
    | inr (inl (e, n)) ↦ ground (arith, e, n)
    | inr (inr (c, base_dir, e, n)) ↦ ground (arith, e, n, status_codes c base_dir)
  ]
