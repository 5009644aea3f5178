-- ===== src/Evidence/Names.antt =====
-- banc-host/src/evidence.rs: the file name that a test's name becomes.
use banc.Common.{ℕ, ◌<◌, ◌≡◌, ◌≢◌, ◌⊎◌, refl, true, [], ◌∷◌, arith, All, length}
use banc.Common.Text.{Text, is_ascii_alphanumeric}
use banc.Evidence.{sanitize}

-- A character that cannot separate, name or leave a directory, nor be a blank or a control.
abbrev Harmless : ℕ → Type 0
Harmless c = (32 < c) × (c < 127) × (c ≢ b'/') × (c ≢ b'\\') × (c ≢ b'.') × (c ≢ b':')

-- Whatever a test is called, its file name is as long as its name and has harmless characters only,
-- so that no path separator and no `..` survives.
pub sanitize-Harmless : (t : Text) → (length (sanitize t) ≡ length t) × All Harmless (sanitize t)
unfolding sanitize
sanitize-Harmless [] = (refl, tt)
sanitize-Harmless (c ∷ t) = ground (arith, sanitize-Harmless t)

-- A name of ASCII letters, digits, dashes and underscores alone is kept as it is.
pub sanitize_fixed :
    (t : Text)
    → All (λ c. (is_ascii_alphanumeric c ≡ true) ⊎ (c ≡ b'-') ⊎ (c ≡ b'_')) t
    → sanitize t ≡ t
unfolding sanitize
sanitize_fixed [] h = refl
sanitize_fixed (c ∷ t) h = ground (arith, sanitize_fixed t h.1)
