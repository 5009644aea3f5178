-- ===== src/Device.antt =====
-- banc-host/src/device.rs: the handle on the device half of a paired scenario, and the scenario that
-- `paired_suite!` makes of a body.
-- The child process is what its task will give when it is awaited; whether it has finished by the
-- time `failure_context` looks is an argument.
pub mod Verdict
pub mod Scenario
pub mod Paired
mod Tests
use banc.Common.{
  Bool, true, false, Option, none, some, List, [], ◌∷◌, ◌++◌, Result, ok, err, if◌then◌else◌,
}
use banc.Common.Text.{Text, codes}
use banc.Common.Failed.{FailedType, unwrap_or}

pub record DeviceSuite : Type 0 where
  pub crate_dir : Text
  pub test_target : Text
  pub cargo_args : List Text
  pub program : Text

-- What the task of the child gives: an error of the join, an error of the spawn, or how the child
-- exited, with its status as it is shown.
pub data TaskOutcome : Type 0 where
  join_failed : Text → TaskOutcome
  spawn_failed : Text → TaskOutcome
  exited : (success : Bool) (status : Text) → TaskOutcome

pub data State : Type 0 where
  idle : State
  running : TaskOutcome → State
  done : Result Text (Unit {0}) → State

pub record DeviceTest : Type 0 where
  pub suite : DeviceSuite
  pub test_path : Text
  pub state : State

unfoldable pub new : Text → Text → DeviceSuite
new crate_dir test_target = record {
  crate_dir = crate_dir;
  test_target = test_target;
  cargo_args = [];
  program = codes "cargo";
}

unfoldable pub test : DeviceSuite → Text → DeviceTest
test suite test_path = record { suite = suite; test_path = test_path; state = idle }

pub record Command : Type 0 where
  pub program : Text
  pub args : List Text
  pub current_dir : Text

unfoldable pub command : DeviceTest → Command
command d = record {
  program = d.suite.program;
  args =
      (codes "test" ∷ d.suite.cargo_args)
      ++ (codes "--test" ∷ d.suite.test_target ∷ codes "--" ∷ codes "--exact" ∷ d.test_path ∷ []);
  current_dir = d.suite.crate_dir;
}

abbrev pub missing_dir : DeviceSuite → Text
missing_dir suite = codes "device crate dir " ++ suite.crate_dir ++ codes " does not exist"

-- `none` is the panic of a second start. `is_dir` asks the file system, and `spawn` is what a child
-- with this command line comes to.
start_in : State → (Text → Bool) → (Command → TaskOutcome) → DeviceTest → Option DeviceTest
unfolding command
start_in idle is_dir spawn d = some (
    if is_dir d.suite.crate_dir
    then record d { state = running (spawn (command d)) }
    else record d { state = done (err (missing_dir d.suite)) })
start_in _ is_dir spawn d = none

unfoldable pub start : (Text → Bool) → (Command → TaskOutcome) → DeviceTest → Option DeviceTest
unfolding start_in
start is_dir spawn d = start_in d.state is_dir spawn d

-- The text that `verdict` makes of the outcome of the child.
unfoldable pub outcome_result : DeviceTest → TaskOutcome → Result Text (Unit {0})
outcome_result d (join_failed e) = err (codes "device test task failed: " ++ e)
outcome_result d (spawn_failed e) =
    err
      (codes "spawning " ++ d.suite.program ++ codes " in " ++ d.suite.crate_dir ++ codes ": " ++ e)
outcome_result d (exited true status) = ok tt
outcome_result d (exited false status) = err (
    codes "device-side test '"
    ++ d.test_path
    ++ codes "' reported failure ("
    ++ status
    ++ codes ")")

abbrev pub never_started : Text → Text
never_started test_path = codes "device test '" ++ test_path ++ codes "' was never started"

module _ (F : FailedType) where
  open F use {Failed, from, message}

  abbrev failed_as : Result Text (Unit {0}) → Result Failed (Unit {0})
  failed_as (ok u) = ok u
  failed_as (err e) = err (from e)

  -- `mem::replace` leaves `Idle` behind, and every return but the first puts a `Done` back.
  verdict_in : State → DeviceTest → Result Failed (Unit {0}) × DeviceTest
  unfolding outcome_result
  verdict_in idle d = (err (from (never_started d.test_path)), record d { state = idle })
  verdict_in (running o) d =
      (failed_as (outcome_result d o), record d { state = done (outcome_result d o) })
  verdict_in (done r) d = (failed_as r, record d { state = done r })

  unfoldable pub verdict : DeviceTest → Result Failed (Unit {0}) × DeviceTest
  unfolding verdict_in
  verdict d = verdict_in d.state d

  -- Whether `failure_context` goes on to the verdict.
  finished : Bool → State → Bool
  finished is_finished idle = false
  finished is_finished (running o) = is_finished
  finished is_finished (done (ok u)) = false
  finished is_finished (done (err e)) = true

  abbrev message_of : Result Failed (Unit {0}) → Option Text
  message_of (ok u) = none
  message_of (err f) = some (unwrap_or (message f) (codes "device test failed"))

  unfoldable pub failure_context : Bool → DeviceTest → Option Text × DeviceTest
  unfolding finished
  failure_context is_finished d =
      if finished is_finished d.state then (message_of (verdict d).0, (verdict d).1) else (none, d)

  -- A scenario of `paired_suite!`: the body runs on a fresh handle and leaves it as it will; then
  -- comes the context of its failure, or the verdict of the device.
  unfoldable pub scenario :
      DeviceSuite
      → Text
      → (DeviceTest → Result Failed (Unit {0}) × DeviceTest)
      → Bool
      → Result Failed (Unit {0})
  unfolding test
  scenario suite test_path body is_finished =
      let after = body (test suite test_path) in
      elim after.0 [
        | ok u ↦ (verdict after.1).0
        | err e ↦
            let msg = unwrap_or (message e) (codes "test failed") in
            elim (failure_context is_finished after.1).0 [
              | some dev_err ↦ err (from (msg ++ (10 ∷ codes "device side: ") ++ dev_err))
              | none ↦ err (from msg)
            ]
      ]
