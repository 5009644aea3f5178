-- ===== src/Common/Text.antt =====
-- `str` and `String`: a text is the list of its characters, each a code point.
use Prim.Native.Char.{code}
use Prim.Native.String.{String}
use Prim.Native.Nat.{ℕ, zero, suc, ◌+◌, ◌/◌, ◌%◌, ◌<◌}
use mathlib.Core.Path.{◌≡◌, refl, sym, ap₂}
use mathlib.Core.Logic.{◌↔◌}
use mathlib.Core.Bool.{Bool, true, false, ◌&&◌, ◌||◌}
use mathlib.Core.List.{List, [], ◌∷◌, ◌++◌, reverse}
use native.Mathlib.Omega.{arith}
use banc.Common.Lists.{length, All}
use banc.Common.Tests.{◌==◌, leb, ltb, if◌then◌else◌}

abbrev pub Text : Type 0
Text = List ℕ

-- The characters of a literal.
abbrev pub codes : String → Text
codes String.[] = []
codes (String.◌∷◌ c s) = code c ∷ codes s

unfoldable pub text_eq : Text → Text → Bool
text_eq [] [] = true
text_eq (a ∷ s) (b ∷ t) = a == b && text_eq s t
text_eq _ _ = false

pub text_eq_iff : (s t : Text) → (text_eq s t ≡ true) ↔ (s ≡ t)
unfolding text_eq
text_eq_iff [] [] = ((λ _. refl), (λ _. refl))
text_eq_iff [] (b ∷ t) = ((λ h. cc), (λ h. cc))
text_eq_iff (a ∷ s) [] = ((λ h. cc), (λ h. cc))
text_eq_iff (a ∷ s) (b ∷ t) = ground (arith, text_eq_iff s t)

-- `char::is_whitespace`: the characters with the Unicode property White_Space.
unfoldable pub is_whitespace : ℕ → Bool
is_whitespace c =
    leb 9 c && leb c 13
    || c == 32
    || c == 0x85
    || c == 0xa0
    || c == 0x1680
    || leb 0x2000 c && leb c 0x200a
    || c == 0x2028
    || c == 0x2029
    || c == 0x202f
    || c == 0x205f
    || c == 0x3000

unfoldable pub trim_start : Text → Text
trim_start [] = []
trim_start (c ∷ s) = if is_whitespace c then trim_start s else c ∷ s

-- `str::trim_end` and `str::trim`.
unfoldable pub trim_end : Text → Text
trim_end s = reverse (trim_start (reverse s))

unfoldable pub trim : Text → Text
trim s = trim_end (trim_start s)

-- `char::is_ascii_hexdigit` and `char::is_ascii_alphanumeric`.
abbrev pub is_ascii_digit : ℕ → Bool
is_ascii_digit c = leb b'0' c && leb c b'9'

abbrev pub is_ascii_hexdigit : ℕ → Bool
is_ascii_hexdigit c = is_ascii_digit c || leb b'a' c && leb c b'f' || leb b'A' c && leb c b'F'

abbrev pub is_ascii_alphanumeric : ℕ → Bool
is_ascii_alphanumeric c = is_ascii_digit c || leb b'a' c && leb c b'z' || leb b'A' c && leb c b'Z'

-- A character in UTF-8, and `str::as_bytes`.
unfoldable pub encode_utf8 : ℕ → List ℕ
encode_utf8 c =
    if ltb c 0x80
    then c ∷ []
    else if ltb c 0x800
    then (0xc0 + c / 64) ∷ (0x80 + c % 64) ∷ []
    else if ltb c 0x10000
    then (0xe0 + c / 4096) ∷ (0x80 + c / 64 % 64) ∷ (0x80 + c % 64) ∷ []
    else (0xf0 + c / 262144) ∷ (0x80 + c / 4096 % 64) ∷ (0x80 + c / 64 % 64) ∷ (0x80 + c % 64) ∷ []

unfoldable pub as_bytes : Text → List ℕ
unfolding encode_utf8
as_bytes [] = []
as_bytes (c ∷ s) = encode_utf8 c ++ as_bytes s

-- `str::len`, which counts bytes.
abbrev pub len : Text → ℕ
len s = length (as_bytes s)

-- Every element is a Unicode code point, as in any `str`.
abbrev pub IsText : Text → Type 0
IsText = All (λ c. c < 0x110000)

pub as_bytes-IsByte : (s : Text) → IsText s → All (λ b. b < 256) (as_bytes s)
unfolding as_bytes
as_bytes-IsByte [] h = tt
as_bytes-IsByte (c ∷ s) h = ground (arith, as_bytes-IsByte s h.1)

-- No two characters' encodings begin alike.
encode_utf8_inj :
    (c d : ℕ) (s t : List ℕ)
    → c < 0x110000
    → d < 0x110000
    → encode_utf8 c ++ s ≡ encode_utf8 d ++ t
    → (c ≡ d) × (s ≡ t)
unfolding encode_utf8
encode_utf8_inj c d s t hc hd e = ground arith

encode_utf8-ne-nil : (c : ℕ) (s : List ℕ) → encode_utf8 c ++ s ≡ [] → ⊥
unfolding encode_utf8
encode_utf8-ne-nil c s e = ground arith

-- Two texts with the same bytes are the same.
pub as_bytes_inj : (s t : Text) → IsText s → IsText t → as_bytes s ≡ as_bytes t → s ≡ t
unfolding as_bytes
as_bytes_inj [] [] hs ht e = refl
as_bytes_inj [] (d ∷ t) hs ht e = absurd (encode_utf8-ne-nil d (as_bytes t) (sym e))
as_bytes_inj (c ∷ s) [] hs ht e = absurd (encode_utf8-ne-nil c (as_bytes s) e)
as_bytes_inj (c ∷ s) (d ∷ t) hs ht e =
    let (p, q) = encode_utf8_inj c d (as_bytes s) (as_bytes t) hs.0 ht.0 e in
    ap₂ ◌∷◌ p (as_bytes_inj s t hs.1 ht.1 q)

-- Decimal digits of a number below 10 ^ fuel, which a number's own value always is.
decimal_digits : ℕ → ℕ → Text
decimal_digits zero n = []
decimal_digits (suc fuel) n =
    let rest = decimal_digits fuel (n / 10) in
    if ltb n 10 then (b'0' + n) ∷ [] else rest ++ ((b'0' + n % 10) ∷ [])

unfoldable pub decimal : ℕ → Text
unfolding decimal_digits
decimal n = decimal_digits (suc n) n
