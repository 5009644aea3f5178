-- ===== src/Runner/Tests.antt =====
-- banc-host/src/runner.rs: a test that passes with its third attempt, and processes with two trials.
use banc.Common.{
  ℕ, ◌+◌, ◌≡◌, refl, Option, none, some, [], ◌∷◌, ltb, if◌then◌else◌, Result, ok, err,
}
use banc.Common.Text.{Text, codes}
use banc.Common.Failed.{plain_failed}
use banc.Evidence
use banc.Evidence.{Inner}
use banc.Runner.{
  World, ready, BancTest, Tried, completed, attempt_loop, trial, run, results_dir, conclude,
}
use banc.Common.{All, inl, false}
use banc.Common.Time.{Duration}
use banc.Config.{FilePath, not_a_file, locate}
use banc.Rig.{Env, Rig, Failure, acquire}
use banc.Common.{arith, ◌↔◌, Bool, true, is_ok, ◌&&◌, List}
use banc.Config.{LoadError}
use banc.Runner.{Completion}
use banc.Runner.Exit.{Harness, run_exit, shared, exit_without_rig}
use banc.Runner.Acquired.{rig_state, Lacks, ended, trials_without_rig}
use banc.Runner.Trials.{Recorded, trial-Recorded}

abbrev pub world : World
world = record {
  artifacts_env = none;
  before_us = λ a. a;
  after_us = λ a. a + 5;
  elapsed_ms = 12;
  unix_now = 1_700_000_000;
  write_file = λ dir name content. ok dir;
}

-- What the attempts do: the third one passes.
abbrev third : ℕ → Result (Option Text) (Unit {0})
third a = if ltb a 3 then err (some (codes "flaky")) else ok tt

abbrev flaky : BancTest plain_failed
flaky = record { name = codes "flaky"; attempts = 5; f = λ a ev. (third a, ev) }

abbrev stubborn : BancTest plain_failed
stubborn = record { name = codes "stubborn"; attempts = 2; f = λ a ev. (third a, ev) }

abbrev before : Tried plain_failed
before = record { result = ok tt; attempts_used = 1; evidence = Evidence.new (codes "flaky") }

trial-Recorded_example :
    Recorded plain_failed
      (results_dir world (ready (codes "art")))
      (codes "suite")
      (codes "flaky")
      (trial plain_failed world (codes "suite") (ready (codes "art")) flaky)
trial-Recorded_example =
    trial-Recorded plain_failed world (codes "suite") (ready (codes "art")) flaky

flaky_completes :
    (trial plain_failed world (codes "suite") (ready (codes "art")) flaky).0 ≡ ok completed
unfolding trial conclude attempt_loop
flaky_completes = refl

-- A machine on which `BANC_RIG` names a file that is not there.
abbrev misnamed : Env Text ℕ
misnamed = record {
  banc_rig = some (codes "gone.toml" ∷ []);
  current_dir = ok [];
  is_file = λ path. false;
  read_to_string = λ path. err (codes "unused");
  from_str = λ text. err (codes "unused");
  components = λ text. text ∷ [];
  is_absolute = λ text. false;
  lock_timeout_secs = none;
  parse = λ text. none;
  lease_holder = none;
  hostname = none;
  pid = 41;
}

abbrev take_flock : FilePath → Duration → Result Text ℕ
take_flock path wait = err (codes "unused")

abbrev lease_server : (addr token holder : Text) → Duration → Result Text ℕ
lease_server addr token holder wait = ok 7

abbrev artifacts : Rig ℕ ℕ ℕ → Text
artifacts rig = codes "art"

abbrev show : Failure Text → Text
show e = codes "not a file"

not_there : Lacks misnamed (some (not_a_file (codes "gone.toml" ∷ [])))
unfolding locate
not_there = inl refl

trials_without_rig_example :
    All
      (λ r.
        r.0 ≡ ended plain_failed (codes "no rig") show (some (not_a_file (codes "gone.toml" ∷ []))))
      (run plain_failed
        (λ n. rig_state artifacts (codes "no rig") show (acquire misnamed take_flock lease_server))
        world
        (codes "suite")
        none
        (flaky ∷ stubborn ∷ []))
trials_without_rig_example =
    trials_without_rig plain_failed misnamed take_flock lease_server artifacts (codes "no rig") show
      world (codes "suite") (flaky ∷ stubborn ∷ []) (some (not_a_file (codes "gone.toml" ∷ [])))
      not_there

-- A harness whose exit code is whether no trial has failed.
abbrev none_failed : List (Result (Option Text) (Completion plain_failed)) → Bool
none_failed [] = true
none_failed (r ∷ rs) = is_ok r && none_failed rs

none_failed_iff :
    (ends : List (Result (Option Text) (Completion plain_failed)))
    → (none_failed ends ≡ true) ↔ All (λ r. is_ok r ≡ true) ends
none_failed_iff [] = ((λ p. tt), (λ p. refl))
none_failed_iff (r ∷ rs) = ground (arith, none_failed_iff rs)

abbrev harness : Harness plain_failed
harness = record {
  ExitCode = Bool;
  success = true;
  exit_code = none_failed;
  success_iff = none_failed_iff;
}

exit_without_rig_example :
    (run_exit plain_failed harness
        (shared plain_failed harness misnamed take_flock lease_server artifacts
          (codes "no rig")
          show)
        world
        (codes "suite")
        (flaky ∷ stubborn ∷ [])
      ≡ true)
    ↔ (◌≡◌ {A = Option (LoadError Text)} (some (not_a_file (codes "gone.toml" ∷ []))) none)
exit_without_rig_example =
    exit_without_rig plain_failed harness misnamed take_flock lease_server artifacts
      (codes "no rig") show world (codes "suite") flaky (stubborn ∷ [])
      (some (not_a_file (codes "gone.toml" ∷ []))) not_there
