-- ===== src/Device/Tests.antt =====
-- banc-host/src/device.rs: a scenario whose halves fail, and one that passes in its second attempt.
use banc.Common.{
  ℕ, ◌≤◌, none, if◌then◌else◌, ltb, ◌≡◌, refl, true, false, Option, some, ◌++◌, Result, ok, err,
}
use banc.Common.Text.{Text, codes}
use banc.Common.Failed.{plain_failed}
use banc.Device.{
  DeviceSuite, DeviceTest, running, exited, new, test, verdict, failure_context, scenario,
  outcome_result,
}
use banc.Device.Paired.{Scenario, BothPassed, allowed, paired_test, paired_completed}
use banc.Evidence.{Inner}
use banc.Runner.{World, ready, completed, trial, conclude, attempt_loop, attempts}
use banc.Runner
use banc.Runner.Trials.{loop_of}
use banc.Runner.Tests.{world}

abbrev suite : DeviceSuite
suite = new (codes "device") (codes "hil")

abbrev path : Text
path = codes "gpio::blinks"

-- A body that has started a device test, which fails, and then fails itself.
abbrev failing_body : DeviceTest → Result (Option Text) (Unit {0}) × DeviceTest
failing_body d =
    (err (some (codes "no edge")), record d { state = running (exited false (codes "1")) })

abbrev device_text : Text
device_text =
    codes "device-side test '" ++ path ++ codes "' reported failure (" ++ codes "1" ++ codes ")"

device_says :
    (failure_context plain_failed true (failing_body (test suite path)).1).0 ≡ some device_text
unfolding failure_context verdict outcome_result test
device_says = refl

-- A body that misses its first edge, and whose second attempt starts a device test that passes.
abbrev blinks : Scenario plain_failed
blinks = record {
  name = codes "blinks";
  attempts = some 3;
  device_test = none;
  body = λ attempt ev d.
      if ltb attempt 2
      then (err (some (codes "no edge")), d, ev)
      else (ok tt, record d { state = running (exited true (codes "0")) }, ev);
  is_finished = λ attempt. false;
}

blinks_completes :
    (trial plain_failed world
      (codes "hil")
      (ready (codes "art"))
      (paired_test plain_failed suite blinks)).0
    ≡ ok completed
unfolding trial conclude attempt_loop paired_test Runner.new attempts scenario verdict
    failure_context test outcome_result
blinks_completes = refl

paired_completed_example :
    (dir : Text) × (ready (codes "art") ≡ ready dir)
    × (k : ℕ) × (k
        ≡ (loop_of plain_failed world (paired_test plain_failed suite blinks)).attempts_used)
    × (1 ≤ k)
    × (k ≤ allowed plain_failed blinks)
    × (ev : Inner) × BothPassed plain_failed suite blinks k ev
paired_completed_example =
    paired_completed plain_failed world (codes "hil") (ready (codes "art")) suite blinks
      blinks_completes
