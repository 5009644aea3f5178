-- ===== src/Runner/Passing.antt =====
-- banc-host/src/runner.rs: what a passing test says of its attempts.
use banc.Common.{
  ℕ, zero, suc, ◌+◌, ◌≤◌, ◌<◌, ◌≡◌, refl, arith, ltb, if◌then◌else◌, ok, err, Result-cases, inl,
  inr,
}
use Prim.{absurd}
use banc.Common.Failed.{FailedType}
use banc.Evidence.{Inner}
use banc.Runner.{World, BancTest, Tried, attempt_loop, marker, failed_attempt}

module _ (F : FailedType) (w : World) (test : BancTest F) where
  open F use {Failed}

  -- An attempt among `left` from `a` on that succeeded, on some evidence.
  abbrev pub Succeeded : ℕ → ℕ → ℕ → Type 0
  Succeeded left a used =
      (ev : Inner) × (a ≤ used) × (used < a + left) × ((test.f used ev).0 ≡ ok tt)

  after : ℕ → Failed → Tried F → Tried F
  after a e s =
      let r = test.f a (marker F w a s.evidence) in
      record {
        result = err e;
        attempts_used = a;
        evidence = if ltb a test.attempts then failed_attempt F w a e r.1 else r.1;
      }

  step_ok :
      (left a : ℕ) (s : Tried F)
      → (test.f a (marker F w a s.evidence)).0 ≡ ok tt
      → (attempt_loop F w test (suc left) a s).attempts_used ≡ a
  unfolding attempt_loop
  step_ok left a s h = ground (arith, h)

  step_err :
      (left a : ℕ) (s : Tried F) (x : Failed)
      → (test.f a (marker F w a s.evidence)).0 ≡ err x
      → attempt_loop F w test (suc left) a s ≡ attempt_loop F w test left (a + 1) (after a x s)
  unfolding attempt_loop after
  step_err left a s x h = ground (arith, h)

  loop_passed :
      (left a : ℕ) (s : Tried F) (e : Failed)
      → s.result ≡ err e
      → (attempt_loop F w test left a s).result ≡ ok tt
      → Succeeded left a (attempt_loop F w test left a s).attempts_used
  loop_passed zero a s e f p = absurd (unfold attempt_loop in ground (arith, f, p))
  loop_passed (suc left) a s e f p = elim (Result-cases (test.f a (marker F w a s.evidence)).0) [
    | inl (u, h) ↦ rw (step_ok left a s h) (marker F w a s.evidence, omega arith, omega arith, h)
    | inr (x, h) ↦
        let q = step_err left a s x h in
        let ih = loop_passed left (a + 1) (after a x s) x (unfold after in refl) (rw q at p) in
        rw q (ih.0, omega (arith, ih.1), omega (arith, ih.2), ih.3)
  ]

  -- A test that is allowed an attempt and passes was passed by the attempt that it records.
  pub attempt_loop_passed :
      (left a : ℕ) (s : Tried F)
      → 0 < left
      → (attempt_loop F w test left a s).result ≡ ok tt
      → Succeeded left a (attempt_loop F w test left a s).attempts_used
  attempt_loop_passed zero a s h p = absurd (omega arith)
  attempt_loop_passed (suc left) a s h p =
      elim (Result-cases (test.f a (marker F w a s.evidence)).0) [
        | inl (u, h) ↦
            rw (step_ok left a s h) (marker F w a s.evidence, omega arith, omega arith, h)
        | inr (x, h) ↦
            let q = step_err left a s x h in
            let ih = loop_passed left (a + 1) (after a x s) x (unfold after in refl) (rw q at p) in
            rw q (ih.0, omega (arith, ih.1), omega (arith, ih.2), ih.3)
      ]
