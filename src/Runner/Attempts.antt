-- ===== src/Runner/Attempts.antt =====
-- banc-host/src/runner.rs: the attempts of a test.
use banc.Common.{
  ℕ, zero, suc, ◌+◌, ◌-◌, ◌≤◌, ◌<◌, ◌≡◌, refl, ◌∙◌, false, arith, ltb, if◌then◌else◌, Result, ok,
  err, is_ok,
}
use banc.Common.Failed.{FailedType}
use banc.Evidence.{Inner}
use banc.Runner.{World, BancTest, Tried, attempt_loop, marker, failed_attempt}

module _ (F : FailedType) (w : World) (test : BancTest F) (g : ℕ → Result (F.Failed) (Unit {0}))
    (depends : (a : ℕ) (ev : Inner) → (test.f a ev).0 ≡ g a) where
  -- The variables after an attempt that fails.
  after_failure : ℕ → F.Failed → Tried F → Tried F
  after_failure a e s =
      let r = test.f a (marker F w a s.evidence) in
      record {
        result = err e;
        attempts_used = a;
        evidence = if ltb a test.attempts then failed_attempt F w a e r.1 else r.1;
      }

  step_ok :
      (left a : ℕ) (s : Tried F)
      → g a ≡ ok tt
      → ((attempt_loop F w test (suc left) a s).result ≡ ok tt)
        × ((attempt_loop F w test (suc left) a s).attempts_used ≡ a)
  unfolding attempt_loop
  step_ok left a s e = ground (arith, depends a (marker F w a s.evidence))

  step_err :
      (left a : ℕ) (s : Tried F) (e : F.Failed)
      → g a ≡ err e
      → attempt_loop F w test (suc left) a s
        ≡ attempt_loop F w test left (a + 1) (after_failure a e s)
  unfolding attempt_loop after_failure
  step_err left a s e p = ground (arith, depends a (marker F w a s.evidence))

  err_of : (a : ℕ) → is_ok (g a) ≡ false → (e : F.Failed) × (g a ≡ err e)
  err_of a h = ground arith

  loop_first :
      (k left a : ℕ) (s : Tried F)
      → ((j : ℕ) → a ≤ j → j < a + k → is_ok (g j) ≡ false)
      → g (a + k) ≡ ok tt
      → k < left
      → ((attempt_loop F w test left a s).result ≡ ok tt)
        × ((attempt_loop F w test left a s).attempts_used ≡ a + k)
  loop_first k zero a s fails hit h = absurd (omega arith)
  loop_first zero (suc left) a s fails hit h =
      let e : a + 0 ≡ a = omega arith in
      let (p, q) = step_ok left a s (rw e at hit) in (p, q ∙ omega arith)
  loop_first (suc k) (suc left) a s fails hit h =
      let e : a + suc k ≡ a + 1 + k = omega arith in
      let (f, p) = err_of a (fails a (omega arith) (omega arith)) in
      let (q, r) =
        loop_first k left (a + 1) (after_failure a f s)
          (λ j lo hi. fails j (omega arith) (omega arith)) (rw e at hit) (omega arith) in
      rw (step_err left a s f p) (q, r ∙ omega arith)

  loop_none :
      (left a : ℕ) (s : Tried F)
      → ((j : ℕ) → a ≤ j → j ≤ a + left → is_ok (g j) ≡ false)
      → ((attempt_loop F w test (suc left) a s).result ≡ g (a + left))
        × ((attempt_loop F w test (suc left) a s).attempts_used ≡ a + left)
  loop_none zero a s fails =
      let e : a + 0 ≡ a = omega arith in
      let (f, p) = err_of a (fails a (omega arith) (omega arith)) in
      rw (step_err zero a s f p, e) (last f p)
    where
      last :
          (f : F.Failed)
          → g a ≡ err f
          → ((attempt_loop F w test zero (a + 1) (after_failure a f s)).result ≡ g a)
            × ((attempt_loop F w test zero (a + 1) (after_failure a f s)).attempts_used ≡ a)
      last f p = unfold attempt_loop after_failure in (cc, refl)
  loop_none (suc left) a s fails =
      let e : a + suc left ≡ a + 1 + left = omega arith in
      let (f, p) = err_of a (fails a (omega arith) (omega arith)) in
      let (q, r) =
        loop_none left (a + 1) (after_failure a f s)
          (λ j lo hi. fails j (omega arith) (omega arith)) in
      rw (step_err (suc left) a s f p, e) (q, r)

  -- A test whose attempts do as `g` says, whatever the evidence, passes with the first attempt that
  -- succeeds, if it is one of those allowed, and makes no further one.
  pub attempt_loop_first :
      (k : ℕ) (s : Tried F)
      → k < test.attempts
      → ((j : ℕ) → 1 ≤ j → j < 1 + k → is_ok (g j) ≡ false)
      → g (1 + k) ≡ ok tt
      → ((attempt_loop F w test test.attempts 1 s).result ≡ ok tt)
        × ((attempt_loop F w test test.attempts 1 s).attempts_used ≡ 1 + k)
  attempt_loop_first k s h fails hit = loop_first k test.attempts 1 s fails hit h

  exhausted :
      (m n : ℕ) (s : Tried F)
      → suc n ≡ m
      → ((j : ℕ) → 1 ≤ j → j ≤ m → is_ok (g j) ≡ false)
      → ((attempt_loop F w test m 1 s).result ≡ g m)
        × ((attempt_loop F w test m 1 s).attempts_used ≡ m)
  exhausted zero n s e fails = absurd (omega arith)
  exhausted (suc m) n s e fails =
      let e' : 1 + m ≡ suc m = omega arith in
      rw e' at (loop_none m 1 s (λ j lo hi. fails j lo (omega arith)))

  -- If every attempt that it is allowed fails, and it is allowed one at least, it makes them all and
  -- fails as the last one did.
  pub attempt_loop_exhausted :
      (s : Tried F)
      → 1 ≤ test.attempts
      → ((j : ℕ) → 1 ≤ j → j ≤ test.attempts → is_ok (g j) ≡ false)
      → ((attempt_loop F w test test.attempts 1 s).result ≡ g test.attempts)
        × ((attempt_loop F w test test.attempts 1 s).attempts_used ≡ test.attempts)
  attempt_loop_exhausted s pos fails =
      exhausted test.attempts (test.attempts - 1) s (omega arith) fails
