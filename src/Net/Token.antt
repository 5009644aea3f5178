-- ===== src/Net/Token.antt =====
-- banc-host/src/net/mod.rs: the comparison of tokens, without an early exit.
use banc.Common.{
  ℕ, ◌<◌, ◌≡◌, ◌↔◌, refl, subst, true, List, [], ◌∷◌, arith, length, All, bit_or, bit_xor,
}
use banc.Common.Text.{Text, IsText, as_bytes, as_bytes_inj, as_bytes-IsByte}
use banc.Common.Bits.{bit_xor_byte, bit_or_byte}
use banc.Net.{xor_fold, token_eq}

abbrev IsByte : ℕ → Type 0
IsByte b = b < 256

-- The fold stays 0 exactly where the lists agree all along.
xor_fold-eq-zero :
    (acc : ℕ) (a b : List ℕ)
    → IsByte acc
    → All IsByte a
    → All IsByte b
    → length a ≡ length b
    → (xor_fold acc a b ≡ 0) ↔ ((acc ≡ 0) × (a ≡ b))
unfolding xor_fold
xor_fold-eq-zero acc [] [] hacc ha hb e = ((λ z. (z, refl)), (λ z. z.0))
xor_fold-eq-zero acc [] (y ∷ b) hacc ha hb e = absurd (omega arith)
xor_fold-eq-zero acc (x ∷ a) [] hacc ha hb e = absurd (omega arith)
xor_fold-eq-zero acc (x ∷ a) (y ∷ b) hacc ha hb e =
    let xor = bit_xor_byte x y ha.0 hb.0 in
    let or = bit_or_byte acc (bit_xor x y) hacc xor.0 in
    let rest = xor_fold-eq-zero (bit_or acc (bit_xor x y)) a b or.0 ha.1 hb.1 (omega arith) in
    ((λ z. ground (arith, rest.0 z)), (λ z. ground arith))

token_eq_true→bytes :
    (a b : Text) → IsText a → IsText b → token_eq a b ≡ true → as_bytes a ≡ as_bytes b
unfolding token_eq
token_eq_true→bytes a b ha hb e =
    let (p, z) = split in
    ((xor_fold-eq-zero 0 (as_bytes a) (as_bytes b) (omega arith) (as_bytes-IsByte a ha)
        (as_bytes-IsByte b hb) p).0
      z).1
  where
    split : (length (as_bytes a) ≡ length (as_bytes b)) × (xor_fold 0 (as_bytes a) (as_bytes b) ≡ 0)
    split = ground arith

token_eq_refl : (a : Text) → IsText a → token_eq a a ≡ true
unfolding token_eq
token_eq_refl a ha =
    let z =
      (xor_fold-eq-zero 0 (as_bytes a) (as_bytes a) (omega arith) (as_bytes-IsByte a ha)
          (as_bytes-IsByte a ha) refl).1
        (refl, refl) in
    ground (arith, z)

-- For texts, the token comparison answers true exactly where the tokens are the same.
pub token_eq_iff : (a b : Text) → IsText a → IsText b → (token_eq a b ≡ true) ↔ (a ≡ b)
token_eq_iff a b ha hb = (
  (λ e. as_bytes_inj a b ha hb (token_eq_true→bytes a b ha hb e)),
  (λ e. subst (λ t. token_eq a t ≡ true) e (token_eq_refl a ha)),
)
