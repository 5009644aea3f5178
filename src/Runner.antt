-- ===== src/Runner.antt =====
-- banc-host/src/runner.rs: trials with the rig, attempts, evidence and results.
-- A test's future, run to its end on a fresh runtime, is a function of the attempt and the evidence
-- so far; the clock, the process id and the file system are arguments.
pub mod Attempts
pub mod Passing
pub mod Trials
pub mod Acquired
pub mod Exit
pub mod Tests
use banc.Common.{
  ℕ, zero, suc, ◌+◌, ◌≤◌, Bool, true, false, Option, none, some, List, [], ◌∷◌, ◌++◌, ltb,
  if◌then◌else◌, Result, ok, err, length,
}
use banc.Common.Text.{Text, codes, decimal}
use banc.Common.Failed.{FailedType, unwrap_or}
use banc.Evidence
use banc.Evidence.{Inner, record_line, is_empty, tail}
use banc.Results
use banc.Results.{TestRecord, Outcome, passed, failed, skipped}

-- Outcome of the once-per-process rig acquisition; of a rig the runner reads the artifacts directory.
pub data RigState : Type 0 where
  ready : (artifacts_dir : Text) → RigState
  skip : (reason : Text) → RigState
  fail : (error : Text) → RigState

-- What the surroundings answer while a trial runs: `BANC_ARTIFACTS`, the times at which the runner
-- writes to the evidence of an attempt, before it and after it, the time that the trial took and its
-- end, and whether the evidence file could be written, or else the error.
pub record World : Type 0 where
  pub artifacts_env : Option Text
  pub before_us : ℕ → ℕ
  pub after_us : ℕ → ℕ
  pub elapsed_ms : ℕ
  pub unix_now : ℕ
  pub write_file : (dir name content : Text) → Result Text Text

unfoldable pub results_dir : World → RigState → Option Text
results_dir w state = elim w.artifacts_env [
  | some dir ↦ some dir
  | none ↦ elim state [ ready dir ↦ some dir | _ ↦ none ]
]

-- What is appended to the results, and under which directory.
abbrev pub Log : Type 0
Log = List (Text × TestRecord)

unfoldable pub record_trial : World → RigState → TestRecord → Log
unfolding results_dir
record_trial w state rec = elim (results_dir w state) [ none ↦ [] | some dir ↦ (dir, rec) ∷ [] ]

-- `{e:#}` of a rig failure is kept as its text.
abbrev pub rig_unavailable : Text → Text
rig_unavailable e = codes "rig unavailable: " ++ e

module _ (F : FailedType) where
  open F use {Failed, from, message}

  pub record BancTest : Type 0 where
    pub name : Text
    pub attempts : ℕ
    pub f : ℕ → Inner → Result Failed (Unit {0}) × Inner

  unfoldable pub new : Text → (ℕ → Inner → Result Failed (Unit {0}) × Inner) → BancTest
  new name f = record { name = name; attempts = 1; f = f }

  unfoldable pub attempts : BancTest → ℕ → BancTest
  attempts test n = record test { attempts = if ltb n 1 then 1 else n }

  abbrev pub message_or : Failed → Text
  message_or f = unwrap_or (message f) (codes "test failed")

  pub record Tried : Type 0 where
    pub result : Result Failed (Unit {0})
    pub attempts_used : ℕ
    pub evidence : Inner

  marker : World → ℕ → Inner → Inner
  marker w attempt ev =
      if ltb 1 attempt
      then record_line ev (w.before_us attempt) (codes "runner")
          (codes "--- attempt " ++ decimal attempt ++ codes " ---")
      else ev

  failed_attempt : World → ℕ → Failed → Inner → Inner
  failed_attempt w attempt e ev =
      record_line ev (w.after_us attempt) (codes "runner")
        (codes "attempt " ++ decimal attempt ++ codes " failed: " ++ message_or e)

  -- The loop over `1..=test.attempts`, with the attempts left, the next one, and the variables as the
  -- last one left them.
  unfoldable pub attempt_loop : World → BancTest → ℕ → ℕ → Tried → Tried
  unfolding marker failed_attempt
  attempt_loop w test zero attempt s = s
  attempt_loop w test (suc left) attempt s =
      let r = test.f attempt (marker w attempt s.evidence) in
      elim r.0 [
        | ok u ↦ record { result = ok u; attempts_used = attempt; evidence = r.1 }
        | err e ↦ attempt_loop w test left (attempt + 1) (record {
          result = err e;
          attempts_used = attempt;
          evidence = if ltb attempt test.attempts then failed_attempt w attempt e r.1 else r.1;
        })
      ]

  pub data Completion : Type 0 where
    completed : Completion
    ignored_with : Text → Completion

  -- The failure text with the tail of the evidence, and where the evidence file is, if it is written.
  with_evidence : World → Text → Inner → Text → Text × Option Text
  with_evidence w dir ev msg =
      elim (w.write_file dir (Evidence.persist ev).0 (Evidence.persist ev).1) [
        | ok path ↦ (
          msg
              ++ (10 ∷ codes "--- evidence (tail) ---")
              ++ (10 ∷ tail ev 40)
              ++ codes "full log: "
              ++ path,
          some path,
        )
        | err e ↦ (
          msg
              ++ (10 ∷ codes "--- evidence (tail; persist failed: ")
              ++ e
              ++ codes ") ---"
              ++ (10 ∷ tail ev 40),
          none,
        )
      ]

  unfoldable pub failure_report : World → Text → Inner → Text → Text × Option Text
  unfolding with_evidence
  failure_report w dir ev msg = if is_empty ev then (msg, none) else with_evidence w dir ev msg

  -- The end of a trial that had the rig.
  unfoldable pub conclude : World → Text → Text → Text → Tried → Result Failed Completion × Log
  conclude w dir suite name t =
      let rec = record (Results.new w.unix_now suite name passed) {
        attempts = t.attempts_used;
        duration_ms = w.elapsed_ms;
      } in
      elim t.result [
        | ok u ↦ (ok completed, record_trial w (ready dir) rec)
        | err e ↦
            let report = failure_report w dir t.evidence (message_or e) in
            (
              err (from report.0),
              record_trial w (ready dir) (record rec {
                outcome = failed;
                reason = some (message_or e);
                evidence = report.1;
              }),
            )
      ]

  unfoldable pub trial : World → Text → RigState → BancTest → Result Failed Completion × Log
  trial w suite (skip reason) test = (
    ok (ignored_with reason),
    record_trial w (skip reason)
        (record (Results.new w.unix_now suite test.name skipped) { reason = some reason }),
  )
  trial w suite (fail e) test = (
    err (from (rig_unavailable e)),
    record_trial w (fail e) (record (Results.new w.unix_now suite test.name failed) {
      reason = some (rig_unavailable e);
    }),
  )
  trial w suite (ready dir) test = conclude w dir suite test.name (
      attempt_loop w test test.attempts 1
        (record { result = ok tt; attempts_used = 1; evidence = Evidence.new test.name }))

  -- The `OnceLock`: the rig is acquired when the first trial asks for it, by `acquire`.
  get_or_init : Option RigState → RigState → RigState
  get_or_init none acquire = acquire
  get_or_init (some state) acquire = state

  -- The trials that the harness selects, one after the other in one process; `acquire n` is what
  -- `Rig::acquire` would give if it were called before the trial that has `n` others behind it.
  unfoldable pub run :
      (ℕ → RigState)
      → World
      → Text
      → Option RigState
      → List BancTest
      → List (Result Failed Completion × Log)
  unfolding get_or_init
  run acquire w suite cell [] = []
  run acquire w suite cell (t ∷ ts) =
      let state = get_or_init cell (acquire (length ts)) in
      trial w suite state t ∷ run acquire w suite (some state) ts
