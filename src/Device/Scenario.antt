-- ===== src/Device/Scenario.antt =====
-- banc-host/src/device.rs: a paired scenario and its device half.
use banc.Common.{◌≡◌, ◌≢◌, ◌↔◌, Bool, some, ◌++◌, ◌∷◌, arith, subst, Result, ok, err}
use banc.Common.Text.{Text, codes}
use banc.Common.Failed.{FailedType, unwrap_or}
use banc.Device.{
  DeviceSuite, DeviceTest, State, idle, test, verdict, verdict_in, failure_context, scenario,
}
use banc.Device.Verdict.{failure_context_sound}

module _ (F : FailedType) (suite : DeviceSuite) (path : Text) where
  open F use {Failed, from, message}

  started : (s : State) (d : DeviceTest) → (verdict_in F s d).0 ≡ ok tt → s ≢ idle
  unfolding verdict_in
  started s d e p = cc (subst (λ s. (verdict_in F s d).0 ≡ ok tt) p e)

  verdict-ok→started : (d : DeviceTest) → (verdict F d).0 ≡ ok tt → d.state ≢ idle
  unfolding verdict
  verdict-ok→started d e = started d.state d e

  -- A scenario passes exactly where its body passes, the device test has been started, and the
  -- verdict of the device is a pass.
  pub scenario-ok_iff :
      (body : DeviceTest → Result Failed (Unit {0}) × DeviceTest) (b : Bool)
      → let after = body (test suite path) in
        (scenario F suite path body b ≡ ok tt)
        ↔ ((after.0 ≡ ok tt) × (after.1.state ≢ idle) × ((verdict F after.1).0 ≡ ok tt))
  unfolding scenario
  scenario-ok_iff body b =
      let after = body (test suite path) in
      (
        (λ e. let (p, q) = halves e in (p, verdict-ok→started after.1 q, q)),
        (λ h. ground (arith, h.0, h.2)),
      )
    where
      halves :
          scenario F suite path body b ≡ ok tt
          → ((body (test suite path)).0 ≡ ok tt)
            × ((verdict F (body (test suite path)).1).0 ≡ ok tt)
      halves e = ground arith

  -- Where the body fails and the device has failed too by then, the scenario's failure says both:
  -- the body's message, and the text with which the device's verdict fails.
  pub scenario_names_device :
      (body : DeviceTest → Result Failed (Unit {0}) × DeviceTest) (b : Bool) (f : Failed) (m : Text)
      → let after = body (test suite path) in
        after.0 ≡ err f
        → (failure_context F b after.1).0 ≡ some m
        → (scenario F suite path body b
            ≡ err (
                from (
                  unwrap_or (message f) (codes "test failed")
                  ++ (10 ∷ codes "device side: ")
                  ++ m)))
          × ((verdict F after.1).0 ≡ err (from m))
  unfolding scenario
  scenario_names_device body b f m e c =
      (ground arith, (failure_context_sound F b (body (test suite path)).1 m c).1)
