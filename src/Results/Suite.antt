-- ===== src/Results/Suite.antt =====
-- banc-host/src/results.rs: the suite's name, and what an append leaves.
use banc.Common.{
  ℕ, ◌≡◌, ◌≢◌, ◌⊎◌, inl, inr, refl, true, none, some, [], ◌∷◌, ◌++◌, arith, ◌==◌, ◌&&◌, all, All,
  Option-cases, Bool-cases,
}
use banc.Common.Text.{Text, len, is_ascii_hexdigit}
use banc.Results.{rsplit_once, suite_name}

rsplit_absent : (c : ℕ) (s : Text) → All (λ x. x ≢ c) s → rsplit_once c s ≡ none
unfolding rsplit_once
rsplit_absent c [] h = refl
rsplit_absent c (x ∷ s) h = ground (arith, rsplit_absent c s h.1)

rsplit_last : (c : ℕ) (a b : Text) → All (λ x. x ≢ c) b → rsplit_once c (a ++ (c ∷ b)) ≡ some (a, b)
unfolding rsplit_once
rsplit_last c [] b h = ground (arith, rsplit_absent c b h)
rsplit_last c (x ∷ a) b h = ground (arith, rsplit_last c a b h)

rsplit_sound : (c : ℕ) (s a b : Text) → rsplit_once c s ≡ some (a, b) → s ≡ a ++ (c ∷ b)
unfolding rsplit_once
rsplit_sound c [] a b e = cc
rsplit_sound c (x ∷ s) a b e = elim (Option-cases (rsplit_once c s)) [
  | inl n ↦ ground arith
  | inr ((a', b'), p) ↦ ground (arith, rsplit_sound c s a' b' p)
]

hexdigits-no_dash : (h : Text) → all is_ascii_hexdigit h ≡ true → All (λ x. x ≢ b'-') h
hexdigits-no_dash [] e = tt
hexdigits-no_dash (x ∷ h) e = ground (arith, hexdigits-no_dash h)

abbrev pub IsStripped : Text → Text → Type 0
IsStripped stem name =
    (name ≡ stem)
    ⊎ ((h : Text) × (stem ≡ name ++ (b'-' ∷ h)) × (len h ≡ 16) × (all is_ascii_hexdigit h ≡ true))

suite_name-split :
    (stem a h : Text)
    → rsplit_once b'-' stem ≡ some (a, h)
    → IsStripped stem (suite_name (some stem))
unfolding suite_name
suite_name-split stem a h p = elim (Bool-cases (len h == 16 && all is_ascii_hexdigit h)) [
  | inl y ↦ inr (h, ground (arith, rsplit_sound b'-' stem a h p), ground arith, ground arith)
  | inr n ↦ inl (ground arith)
]

suite_name-IsStripped : (stem : Text) → IsStripped stem (suite_name (some stem))
unfolding suite_name
suite_name-IsStripped stem = elim (Option-cases (rsplit_once b'-' stem)) [
  | inl n ↦ inl (ground arith)
  | inr ((a, h), p) ↦ suite_name-split stem a h p
]

-- Cargo's disambiguator is a dash and 16 hex digits at the end of the stem. It is stripped wherever
-- it is there, also from a name that has dashes of its own, and nothing else is ever stripped.
pub suite_name_strips :
    (name hash stem : Text)
    → len hash ≡ 16
    → all is_ascii_hexdigit hash ≡ true
    → (suite_name (some (name ++ (b'-' ∷ hash))) ≡ name) × IsStripped stem (suite_name (some stem))
suite_name_strips name hash stem l e = (strips, suite_name-IsStripped stem)
  where
    strips : suite_name (some (name ++ (b'-' ∷ hash))) ≡ name
    strips =
        unfold suite_name in ground (arith, rsplit_last b'-' name hash (hexdigits-no_dash hash e))
