-- ===== src/Common/Bits.antt =====
-- Facts about `|` and `^` on bytes, checked by evaluation over all of them.
use Prim.Native.Nat.{ℕ, zero, suc, ◌<◌, bit_or, bit_xor}
use mathlib.Core.Path.{◌≡◌, refl}
use mathlib.Core.Logic.{◌↔◌}
use mathlib.Core.Bool.{Bool, true, false, ◌&&◌}
use native.Mathlib.Omega.{arith}
use banc.Common.Tests.{◌==◌, if◌then◌else◌, ltb}

-- Whether a test holds of every number under a bound.
every : (ℕ → Bool) → ℕ → Bool
every test zero = true
every test (suc bound) = if test bound then every test bound else false

every_at : (test : ℕ → Bool) (bound n : ℕ) → n < bound → every test bound ≡ true → test n ≡ true
unfolding every
every_at test zero n below holds = absurd (omega arith)
every_at test (suc bound) n below holds = ground (arith, every_at test bound n)

-- A test on two bytes that holds of all pairs.
pairs_sound :
    (p : ℕ → ℕ → Bool) (x y : ℕ)
    → every (λ x. every (p x) 256) 256 ≡ true
    → x < 256
    → y < 256
    → p x y ≡ true
pairs_sound p x y h hx hy = every_at (p x) 256 y hy (every_at (λ x. every (p x) 256) 256 x hx h)

-- `x ^ y` is a byte, and 0 exactly where `x` and `y` are one.
xor_test : ℕ → ℕ → Bool
xor_test x y = ltb (bit_xor x y) 256 && (if x == y then bit_xor x y == 0 else ltb 0 (bit_xor x y))

-- `x | y` is a byte, and 0 exactly where both are.
or_test : ℕ → ℕ → Bool
or_test x y =
    ltb (bit_or x y) 256 && (if x == 0 && y == 0 then bit_or x y == 0 else ltb 0 (bit_or x y))

xor_table : every (λ x. every (xor_test x) 256) 256 ≡ true
unfolding every xor_test
xor_table = refl

or_table : every (λ x. every (or_test x) 256) 256 ≡ true
unfolding every or_test
or_table = refl

pub bit_xor_byte :
    (x y : ℕ) → x < 256 → y < 256 → (bit_xor x y < 256) × ((bit_xor x y ≡ 0) ↔ (x ≡ y))
unfolding xor_test
bit_xor_byte x y hx hy = ground (arith, pairs_sound xor_test x y xor_table hx hy)

pub bit_or_byte :
    (x y : ℕ) → x < 256 → y < 256 → (bit_or x y < 256) × ((bit_or x y ≡ 0) ↔ ((x ≡ 0) × (y ≡ 0)))
unfolding or_test
bit_or_byte x y hx hy = ground (arith, pairs_sound or_test x y or_table hx hy)
