-- ===== src/Device/Paired.antt =====
-- banc-host/src/device.rs with banc-host/src/runner.rs: the tests that `paired_suite!` makes of its
-- scenarios, in the runner.
use banc.Common.{
  ℕ, ◌≤◌, ◌<◌, ◌≡◌, ◌≢◌, Bool, Option, none, some, List, arith, map, ◌++◌, Result, ok, ltb,
  if◌then◌else◌, Option-cases, inl, inr, sym, ◌∙◌, refl,
}
use banc.Common.Text.{Text, codes}
use banc.Common.Failed.{FailedType}
use banc.Evidence.{Inner}
use banc.Device.{DeviceSuite, DeviceTest, idle, test, verdict, scenario}
use banc.Device.Scenario.{scenario-ok_iff}
use banc.Runner
use banc.Runner.{World, RigState, ready, BancTest, Completion, completed, attempts, run, trial, Log}
use banc.Runner.Trials.{completed_only, loop_of}
use banc.Runner.Passing.{attempt_loop_passed}

module _ (F : FailedType) where
  open F use {Failed}

  -- A scenario: its body on the attempt, the evidence and the handle, and whether the device has
  -- finished by the time that the context of a failure is asked for.
  pub record Scenario : Type 0 where
    pub name : Text
    pub attempts : Option ℕ
    pub device_test : Option Text
    pub body : ℕ → Inner → DeviceTest → Result Failed (Unit {0}) × DeviceTest × Inner
    pub is_finished : ℕ → Bool

  unfoldable pub device_test_of : Scenario → Text
  device_test_of sc = elim sc.device_test [ some path ↦ path | none ↦ codes "tests::" ++ sc.name ]

  -- The body on a handle, and its evidence.
  abbrev pub on_handle : Scenario → ℕ → Inner → DeviceTest → Result Failed (Unit {0}) × DeviceTest
  on_handle sc attempt ev d = let r = sc.body attempt ev d in (r.0, r.1)

  unfoldable pub paired_test : DeviceSuite → Scenario → BancTest F
  unfolding device_test_of
  paired_test suite sc =
      let t = Runner.new F sc.name (λ attempt ev. (
        scenario F suite (device_test_of sc) (on_handle sc attempt ev) (sc.is_finished attempt),
        (sc.body attempt ev (test suite (device_test_of sc))).2,
      )) in
      elim sc.attempts [ none ↦ t | some n ↦ attempts F t n ]

  -- `main` of a paired suite, with the trials that the harness selects.
  unfoldable pub paired_suite :
      DeviceSuite
      → List Scenario
      → (ℕ → RigState)
      → World
      → Text
      → List (Result Failed (Completion F) × Log)
  paired_suite suite scenarios acquire w name =
      run F acquire w name none (map (paired_test suite) scenarios)

  -- The attempts that a scenario is allowed.
  abbrev pub allowed : Scenario → ℕ
  allowed sc = elim sc.attempts [ none ↦ 1 | some n ↦ if ltb n 1 then 1 else n ]

  -- Both halves of a scenario passed in one attempt: the body, with a device test that it started, and
  -- that device test, with a handle of its own.
  abbrev pub BothPassed : DeviceSuite → Scenario → ℕ → Inner → Type 0
  BothPassed suite sc attempt ev =
      let r = on_handle sc attempt ev (test suite (device_test_of sc)) in
      (r.0 ≡ ok tt) × (r.1.state ≢ idle) × ((verdict F r.1).0 ≡ ok tt)

  paired_attempts :
      (suite : DeviceSuite) (sc : Scenario) → (paired_test suite sc).attempts ≡ allowed sc
  unfolding paired_test Runner.new attempts
  paired_attempts suite sc = ground arith

  allowed_pos : (sc : Scenario) → 0 < allowed sc
  allowed_pos sc = ground arith

  paired_f :
      (suite : DeviceSuite) (sc : Scenario) (attempt : ℕ) (ev : Inner)
      → ((paired_test suite sc).f attempt ev).0
        ≡ scenario F suite (device_test_of sc) (on_handle sc attempt ev) (sc.is_finished attempt)
  unfolding paired_test Runner.new attempts
  paired_f suite sc attempt ev = elim (Option-cases sc.attempts) [
    | inl e ↦ ground (arith, e)
    | inr (n, e) ↦ ground (arith, e)
  ]

  -- No paired test completes on one half alone: where its trial completes, the rig was ready, and in
  -- one attempt, the one that is recorded and among those allowed, the body passed and the device
  -- test that this attempt had started passed as well.
  pub paired_completed :
      (w : World) (name : Text) (state : RigState) (suite : DeviceSuite) (sc : Scenario)
      → (trial F w name state (paired_test suite sc)).0 ≡ ok completed
      → (dir : Text) × (state ≡ ready dir)
        × (k : ℕ) × (k ≡ (loop_of F w (paired_test suite sc)).attempts_used)
        × (1 ≤ k)
        × (k ≤ allowed sc)
        × (ev : Inner) × BothPassed suite sc k ev
  paired_completed w name state suite sc e =
      let (dir, r, p) = completed_only F w name state (paired_test suite sc) e in
      let a = paired_attempts suite sc in
      let k = (loop_of F w (paired_test suite sc)).attempts_used in
      let (ev, lo, hi, q) =
        attempt_loop_passed F w (paired_test suite sc) (paired_test suite sc).attempts 1 _
          (omega (arith, a, allowed_pos sc)) p in
      let both =
        (scenario-ok_iff F suite (device_test_of sc) (on_handle sc k ev) (sc.is_finished k)).0
          (sym (paired_f suite sc k ev) ∙ q) in
      (dir, r, k, refl, lo, omega (arith, a, hi), ev, both)
