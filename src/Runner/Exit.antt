-- ===== src/Runner/Exit.antt =====
-- banc-host/src/runner.rs: `run` as the `main` of a test binary.
-- libtest_mimic, which runs the trials that its arguments select, is a parameter: of its exit code the
-- program relies on what the documentation says, that it is a success where no trial has failed and
-- only there.
use banc.Common.{
  ℕ, ◌≡◌, ◌≢◌, ◌↔◌, refl, sym, ap, ◌∙◌, true, false, Option, none, some, List, [], ◌∷◌, arith,
  Result, ok, err, All, map, is_ok,
}
use Prim.{absurd}
use banc.Common.Text.{Text}
use banc.Common.Time.{Duration}
use banc.Common.Failed.{FailedType}
use banc.Config.{FilePath, LoadError}
use banc.Rig.{Env, Rig, Failure, acquire, bad_config}
use banc.Runner.{World, RigState, BancTest, Completion, ignored_with, rig_unavailable, Log, run}
use banc.Runner.Acquired.{rig_state, Lacks, trials_without_rig}

pub record Harness (F : FailedType) : Type 1 where
  pub ExitCode : Type 0
  pub success : ExitCode
  pub exit_code : List (Result (F.Failed) (Completion F)) → ExitCode
  pub success_iff :
      (ends : List (Result (F.Failed) (Completion F)))
      → (exit_code ends ≡ success) ↔ All (λ r. is_ok r ≡ true) ends

module _ (F : FailedType) (H : Harness F) where
  open F use {Failed, from}
  open H use {ExitCode, success, exit_code, success_iff}

  -- `run`: the trials that are selected, and the exit code of what they come to.
  unfoldable pub run_exit : (ℕ → RigState) → World → Text → List (BancTest F) → ExitCode
  run_exit acquired w suite tests = exit_code (map (λ r. r.0) (run F acquired w suite none tests))

  ends_alike :
      (end : Result Failed (Completion F)) (rs : List (Result Failed (Completion F) × Log))
      → is_ok end ≡ true
      → All (λ r. r.0 ≡ end) rs
      → All (λ r. is_ok r ≡ true) (map (λ r. r.0) rs)
  ends_alike end [] h a = tt
  ends_alike end (r ∷ rs) h a = (ap is_ok a.0 ∙ h, ends_alike end rs h a.1)

  failing :
      (acquired : ℕ → RigState) (w : World) (suite : Text) (t : BancTest F) (ts : List (BancTest F))
      (end : Result Failed (Completion F))
      → is_ok end ≡ false
      → All (λ r. r.0 ≡ end) (run F acquired w suite none (t ∷ ts))
      → run_exit acquired w suite (t ∷ ts) ≢ success
  unfolding run_exit run
  failing acquired w suite t ts end h a p =
      let all_ok = (success_iff _).0 p in
      let first = sym (ap is_ok a.0) ∙ all_ok.0 in absurd (ground (arith, h, first))

  module _ {E Table L K : Type 0} (env : Env E Table)
      (take_flock : FilePath → Duration → Result E L)
      (acquire_lease : (addr token holder : Text) → Duration → Result E K)
      (artifacts_dir : Rig Table L K → Text) (reason : Text) (show : Failure E → Text) where
    abbrev pub shared : ℕ → RigState
    shared n = rig_state artifacts_dir reason show (acquire env take_flock acquire_lease)

    -- The exit of a test binary on a machine without a usable rig, with one trial at least: it is a
    -- success where no config is found, so that a machine that is no rig skips the suite, and a
    -- failure where there is a config that cannot be found or loaded, so that a broken rig is noticed.
    pub exit_without_rig :
        (w : World) (suite : Text) (t : BancTest F) (ts : List (BancTest F))
        (lack : Option (LoadError E))
        → Lacks env lack
        → (run_exit shared w suite (t ∷ ts) ≡ success) ↔ (lack ≡ none)
    unfolding run_exit
    exit_without_rig w suite t ts none h = (
      (λ p. refl),
      (λ p. (success_iff _).1 (
          ends_alike (ok (ignored_with reason)) _ refl (
            trials_without_rig F env take_flock acquire_lease artifacts_dir reason show w suite
              (t ∷ ts) none h))),
    )
    exit_without_rig w suite t ts (some e) h = (
      (λ p. absurd (
          failing shared w suite t ts (err (from (rig_unavailable (show (bad_config e))))) refl
            (trials_without_rig F env take_flock acquire_lease artifacts_dir reason show w suite
              (t ∷ ts) (some e) h)
            p)),
      (λ p. ground (arith, p)),
    )
