-- ===== src/Cli/Counting.antt =====
-- banc/src/bin/banc.rs: how many failures the parts of `doctor` count.
use banc.Common.{
  ℕ, ◌+◌, ◌%◌, ◌^◌, ◌≤◌, ◌<◌, ◌≡◌, ◌↔◌, refl, Option, none, some, arith, Result, ok, err,
}
use banc.Common.Text.{Text}
use banc.Cli.Doctor.{What, Problem, Doctor, pass, fail, note, check}

abbrev pub Answered : {F A : Type 0} → Result F A → Type 0
Answered {F} {A} r = (a : A) × (r ≡ ok a)

-- What there is, if it is there.
abbrev pub Given : {A : Type 0} → (A → Type 0) → Option A → Type 0
Given P none = Unit {0}
Given P (some a) = P a

module _ {E : Type 0} where
  -- A part of the examination counts at most `n` failures more, and none exactly where `P` holds.
  abbrev pub Counts : (Doctor E → Doctor E) → ℕ → Type 0 → Type 0
  Counts f n P =
      (k : ℕ) × (k ≤ n)
      × ((d : Doctor E) → d.failed < 2 ^ 32 → (f d).failed ≡ (d.failed + k) % 2 ^ 32)
      × ((k ≡ 0) ↔ P)

  pub check-Counts :
      (what : What) (r : Result (Problem E) Text) → Counts (check what r) 1 (Answered r)
  unfolding check pass fail
  check-Counts what (ok detail) =
      (0, omega arith, (λ d h. omega arith), ((λ e. (detail, refl)), (λ a. refl)))
  check-Counts what (err p) =
      (1, omega arith, (λ d h. omega arith), ((λ e. ground (arith, e)), (λ a. ground (arith, a))))

  pub note-Counts : (what : What) → Counts (note what) 0 (Unit {0})
  unfolding note
  note-Counts what = (0, omega arith, (λ d h. omega arith), ((λ e. tt), (λ u. refl)))

  pub same-Counts : Counts (λ d. d) 0 (Unit {0})
  same-Counts = (0, omega arith, (λ d h. omega arith), ((λ e. tt), (λ u. refl)))

  pub means :
      (f : Doctor E → Doctor E) (m n : ℕ) (P Q : Type 0)
      → m ≤ n
      → (P ↔ Q)
      → Counts f m P
      → Counts f n Q
  means f m n P Q le pq (k, lt, adds, zero_iff) =
      (k, omega arith, adds, ((λ e. pq.0 (zero_iff.0 e)), (λ q. zero_iff.1 (pq.1 q))))

  pub wider : (f : Doctor E → Doctor E) (m n : ℕ) (P : Type 0) → m ≤ n → Counts f m P → Counts f n P
  wider f m n P le c = means f m n P P le ((λ p. p), (λ p. p)) c

  pub then_Counts :
      (f g : Doctor E → Doctor E) (m n : ℕ) (P Q : Type 0)
      → Counts f m P
      → Counts g n Q
      → Counts (λ d. g (f d)) (m + n) (P × Q)
  then_Counts f g m n P Q (k, le, adds, iff) (l, le', adds', iff') = (
    k + l,
    omega arith,
    (λ d h. let e = adds d h in let e' = adds' (f d) (omega arith) in omega (arith, e, e')),
    (
      (λ e. (iff.0 (omega arith), iff'.0 (omega arith))),
      (λ (p, q). let a = iff.1 p in let b = iff'.1 q in omega (arith, a, b)),
    ),
  )

  -- A check of what there may be, in place of `f`, which counts nothing.
  pub optional_check :
      {A : Type 0} (what : A → What) (r : A → Result (Problem E) Text) (P : A → Type 0)
      (f : Doctor E → Doctor E)
      → ((a : A) → Answered (r a) ↔ P a)
      → Counts f 0 (Unit {0})
      → (o : Option A)
      → Counts (λ d. elim o [ some a ↦ check (what a) (r a) d | none ↦ f d ]) 1 (Given P o)
  optional_check what r P f iff c none =
      means f 0 1 (Unit {0}) (Unit {0}) (omega arith) ((λ u. u), (λ u. u)) c
  optional_check what r P f iff c (some a) =
      means (check (what a) (r a)) 1 1 (Answered (r a)) (P a) (omega arith) (iff a)
        (check-Counts (what a) (r a))
