-- ===== src/Device/Verdict.antt =====
-- banc-host/src/device.rs: the verdict of a device test, and looking at it.
use banc.Common.{
  ◌≡◌, ◌≢◌, ◌↔◌, inl, inr, refl, Bool, true, false, none, some, arith, Result, ok, err, Bool-cases,
}
use banc.Common.Text.{Text}
use banc.Common.Failed.{FailedType}
use banc.Device.{
  DeviceSuite, DeviceTest, TaskOutcome, exited, join_failed, spawn_failed, State, idle, running,
  done, start, verdict, verdict_in, failure_context, test, command, missing_dir, never_started,
  outcome_result, finished, failed_as, message_of, Command,
}

module _ (F : FailedType) where
  verdict_in-again :
      (s : State) (d : DeviceTest)
      → d.state ≡ s
      → let (r, d') = verdict_in F s d in verdict F d' ≡ (r, d')
  unfolding verdict
  verdict_in-again idle d e = refl
  verdict_in-again (running o) d e = refl
  verdict_in-again (done r) d e = refl

  -- The verdict is settled when it is first asked for: asked again, it is the same, and the handle
  -- stays as it is.
  pub verdict-verdict : (d : DeviceTest) → let (r, d') = verdict F d in verdict F d' ≡ (r, d')
  unfolding verdict
  verdict-verdict d = verdict_in-again d.state d refl

  -- Asking for the context of a failure does not change what the verdict will be.
  pub verdict-failure_context :
      (b : Bool) (d : DeviceTest) → (verdict F (failure_context F b d).1).0 ≡ (verdict F d).0
  unfolding failure_context
  verdict-failure_context b d = elim (Bool-cases (finished F b d.state)) [
    | inl yes' ↦ rw (yes', verdict-verdict d)
    | inr no' ↦ rw no'
  ]

  outcome_message :
      (r : Result Text (Unit {0})) (m : Text) → message_of F (failed_as F r) ≡ some m → r ≡ err m
  outcome_message (ok u) m e = cc
  outcome_message (err t) m e = ground (arith, F.message-from t)

  context_in :
      (b : Bool) (s : State) (d : DeviceTest) (m : Text)
      → finished F b s ≡ true
      → message_of F (verdict_in F s d).0 ≡ some m
      → (s ≢ idle) × ((verdict_in F s d).0 ≡ err (F.from m))
  unfolding finished verdict_in
  context_in b idle d m f e = cc
  context_in b (running o) d m f e = ((λ p. cc), rw (outcome_message (outcome_result d o) m e))
  context_in b (done r) d m f e = ((λ p. cc), rw (outcome_message r m e))

  -- Where a context is given, the device test was started and its verdict is the failure with that
  -- text.
  pub failure_context_sound :
      (b : Bool) (d : DeviceTest) (m : Text)
      → (failure_context F b d).0 ≡ some m
      → (d.state ≢ idle) × ((verdict F d).0 ≡ err (F.from m))
  unfolding failure_context verdict
  failure_context_sound b d m e = elim (Bool-cases (finished F b d.state)) [
    | inl yes' ↦ context_in b d.state d m yes' (given yes')
    | inr no' ↦ absurd (nothing no')
  ]
    where
      given : finished F b d.state ≡ true → message_of F (verdict_in F d.state d).0 ≡ some m
      given f = ground arith

      nothing : finished F b d.state ≡ false → ⊥
      nothing f = ground arith

-- The handle after a start.
abbrev after_start : Bool → TaskOutcome → DeviceSuite → Text → DeviceTest
after_start present o suite path = record {
  suite = suite;
  test_path = path;
  state = elim present [ true ↦ running o | false ↦ done (err (missing_dir suite)) ];
}

start-eq :
    (is_dir : Text → Bool) (spawn : Command → TaskOutcome) (suite : DeviceSuite) (path : Text)
    → start is_dir spawn (test suite path)
      ≡ some (after_start (is_dir suite.crate_dir) (spawn (command (test suite path))) suite path)
unfolding start test
start-eq is_dir spawn suite path = ground arith

start_twice :
    (is_dir : Text → Bool) (spawn : Command → TaskOutcome) (b : Bool) (o : TaskOutcome)
    (suite : DeviceSuite) (path : Text)
    → start is_dir spawn (after_start b o suite path) ≡ none
unfolding start
start_twice is_dir spawn true o suite path = refl
start_twice is_dir spawn false o suite path = refl

module _ (F : FailedType) (suite : DeviceSuite) (path : Text) where
  exit_iff :
      (o : TaskOutcome)
      → ((verdict F (after_start true o suite path)).0 ≡ ok tt)
        ↔ ((status : Text) × (o ≡ exited true status))
  unfolding verdict
  exit_iff (join_failed e) = ((λ p. cc), (λ p. cc (p.1)))
  exit_iff (spawn_failed e) = ((λ p. cc), (λ p. cc (p.1)))
  exit_iff (exited true s) = ((λ p. (s, refl)), (λ p. refl))
  exit_iff (exited false s) = ((λ p. cc), (λ p. cc (p.1)))

  missing_fails :
      (o : TaskOutcome)
      → (verdict F (after_start false o suite path)).0 ≡ err (F.from (missing_dir suite))
  unfolding verdict
  missing_fails o = refl

  fresh_fails : (verdict F (test suite path)).0 ≡ err (F.from (never_started path))
  unfolding verdict test
  fresh_fails = refl

  -- A test that was never started fails. It can be started, but not again after that, and where the
  -- crate's directory is missing its verdict is then a failure that says so.
  pub start_missing :
      (is_dir : Text → Bool) (spawn : Command → TaskOutcome)
      → is_dir suite.crate_dir ≡ false
      → ((verdict F (test suite path)).0 ≡ err (F.from (never_started path)))
        × ((d : DeviceTest) × (start is_dir spawn (test suite path) ≡ some d)
            × (start is_dir spawn d ≡ none)
            × ((verdict F d).0 ≡ err (F.from (missing_dir suite))))
  start_missing is_dir spawn e =
      let o = spawn (command (test suite path)) in
      (
        fresh_fails,
        (
          after_start (is_dir suite.crate_dir) o suite path,
          start-eq is_dir spawn suite path,
          start_twice is_dir spawn (is_dir suite.crate_dir) o suite path,
          rw e (missing_fails o),
        ),
      )

  -- Where the directory is there, a test can be started, but not again after that, and its verdict is
  -- a pass exactly where the child that runs with the command line of that one test exits with
  -- success.
  pub start-verdict :
      (is_dir : Text → Bool) (spawn : Command → TaskOutcome)
      → is_dir suite.crate_dir ≡ true
      → (d : DeviceTest) × (start is_dir spawn (test suite path) ≡ some d)
        × (start is_dir spawn d ≡ none)
        × (((verdict F d).0 ≡ ok tt)
            ↔ ((status : Text) × (spawn (command (test suite path)) ≡ exited true status)))
  start-verdict is_dir spawn e =
      let o = spawn (command (test suite path)) in
      (
        after_start (is_dir suite.crate_dir) o suite path,
        start-eq is_dir spawn suite path,
        start_twice is_dir spawn (is_dir suite.crate_dir) o suite path,
        rw e (exit_iff o),
      )
