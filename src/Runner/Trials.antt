-- ===== src/Runner/Trials.antt =====
-- banc-host/src/runner.rs: how a trial ends and what is recorded of it.
use banc.Common.{
  ℕ, ◌≡◌, refl, Option, none, some, List, [], ◌∷◌, arith, Result, ok, err, map, length,
}
use banc.Common.Text.{Text}
use banc.Common.Failed.{FailedType}
use banc.Evidence.{Inner, is_empty, tail}
use banc.Evidence
use banc.Results
use banc.Results.{TestRecord, Outcome, passed, failed, skipped}
use banc.Runner.{
  World, RigState, ready, skip, fail, Log, BancTest, Tried, Completion, completed, ignored_with,
  attempt_loop, trial, run, conclude, record_trial, results_dir, get_or_init,
}

module _ (F : FailedType) where
  open F use {Failed, from, message}

  -- The outcome that stands in a record for the end of a trial.
  abbrev pub outcome_of : Result Failed (Completion F) → Outcome
  outcome_of (ok completed) = passed
  outcome_of (ok (ignored_with reason)) = skipped
  outcome_of (err e) = failed

  -- What was recorded of a trial: one line, with its name and outcome, if there is somewhere to write.
  abbrev pub Recorded : Option Text → Text → Text → Result Failed (Completion F) × Log → Type 0
  Recorded none suite name (end, log) = log ≡ []
  Recorded (some dir) suite name (end, log) =
      (rec : TestRecord) × (log ≡ (dir, rec) ∷ [])
      × (rec.suite ≡ suite)
      × (rec.test ≡ name)
      × (rec.outcome ≡ outcome_of end)

  logged :
      (d : Option Text) (rec : TestRecord) (end : Result Failed (Completion F))
      → rec.outcome ≡ outcome_of end
      → Recorded d rec.suite rec.test (end, elim d [ none ↦ [] | some dir ↦ (dir, rec) ∷ [] ])
  logged none rec end e = refl
  logged (some dir) rec end e = (rec, refl, refl, refl, e)

  ended-Recorded :
      (w : World) (dir suite name : Text) (r : Result Failed (Unit {0})) (used : ℕ) (ev : Inner)
      → Recorded
          (results_dir w (ready dir))
          suite
          name
          (conclude F w dir suite name (record { result = r; attempts_used = used; evidence = ev }))
  unfolding conclude record_trial Results.new
  ended-Recorded w dir suite name (ok u) used ev = logged (results_dir w (ready dir)) _ _ refl
  ended-Recorded w dir suite name (err e) used ev = logged (results_dir w (ready dir)) _ _ refl

  -- Whatever a trial comes to, one record is appended if there is a directory for it, and nothing
  -- otherwise; it has the name of the suite and of the test, and the outcome that the trial reports.
  pub trial-Recorded :
      (w : World) (suite : Text) (state : RigState) (test : BancTest F)
      → Recorded (results_dir w state) suite test.name (trial F w suite state test)
  unfolding trial record_trial Results.new
  trial-Recorded w suite (skip reason) test = logged (results_dir w (skip reason)) _ _ refl
  trial-Recorded w suite (fail e) test = logged (results_dir w (fail e)) _ _ refl
  trial-Recorded w suite (ready dir) test = ended-Recorded w dir suite test.name _ _ _

  run_with :
      (acquire : ℕ → RigState) (w : World) (suite : Text) (state : RigState)
      (ts : List (BancTest F))
      → run F acquire w suite (some state) ts ≡ map (trial F w suite state) ts
  unfolding run get_or_init
  run_with acquire w suite state [] = refl
  run_with acquire w suite state (t ∷ ts) = rw (run_with acquire w suite state ts) refl

  -- The trials of one process all see the rig as it was acquired for the first of them, and give what
  -- `trial` gives for that rig.
  pub run_once :
      (acquire : ℕ → RigState) (w : World) (suite : Text) (t : BancTest F) (ts : List (BancTest F))
      → run F acquire w suite none (t ∷ ts) ≡ map (trial F w suite (acquire (length ts))) (t ∷ ts)
  unfolding run get_or_init
  run_once acquire w suite t ts = rw (run_with acquire w suite (acquire (length ts)) ts) refl

  abbrev pub loop_of : World → BancTest F → Tried F
  loop_of w test =
      attempt_loop F w test test.attempts 1
        (record { result = ok tt; attempts_used = 1; evidence = Evidence.new test.name })

  -- A trial that completes had the rig, and the attempts of its test ended in success: a rig that is
  -- skipped or has failed never lets a test pass.
  pub completed_only :
      (w : World) (suite : Text) (state : RigState) (test : BancTest F)
      → (trial F w suite state test).0 ≡ ok completed
      → (dir : Text) × (state ≡ ready dir) × ((loop_of w test).result ≡ ok tt)
  unfolding trial conclude
  completed_only w suite (skip reason) test e = ground arith
  completed_only w suite (fail r) test e = ground arith
  completed_only w suite (ready dir) test e = (dir, refl, ground arith)
