-- ===== src/Rig/Token.antt =====
-- banc-host/src/rig.rs: what `read_token` makes of a file.
use banc.Common.{◌≡◌, ◌≢◌, inl, inr, [], arith, ok, err, Result-cases}
use banc.Common.Text.{Text, trim}
use banc.Config.{FilePath}
use banc.Rig.{Env, TokenError, unreadable, empty, read_token, resolve}

module _ {E Table : Type 0} (env : Env E Table) (path : Text) (base : FilePath) where
  -- What the file has, without the white space around it, and it is not empty.
  abbrev pub IsSecret : Text → Type 0
  IsSecret token =
      (text : Text) × (env.read_to_string (resolve env path base) ≡ ok text)
      × (token ≡ trim text)
      × (token ≢ [])

  -- The file cannot be read, or has white space only.
  abbrev pub NoSecret : TokenError E → Type 0
  NoSecret (unreadable file e) =
      (file ≡ resolve env path base) × (env.read_to_string (resolve env path base) ≡ err e)
  NoSecret (empty file) =
      (file ≡ resolve env path base)
      × ((text : Text) × (env.read_to_string (resolve env path base) ≡ ok text) × (trim text ≡ []))

  pub read_token-IsSecret : (token : Text) → read_token env path base ≡ ok token → IsSecret token
  unfolding read_token
  read_token-IsSecret token e = elim (Result-cases (env.read_to_string (resolve env path base))) [
    | inl (text, f) ↦ (text, f, ground arith, ground arith)
    | inr (x, f) ↦ ground arith
  ]

  pub IsSecret-read_token : (token : Text) → IsSecret token → read_token env path base ≡ ok token
  unfolding read_token
  IsSecret-read_token token (text, f, same, full) = ground arith

  pub read_token-NoSecret : (x : TokenError E) → read_token env path base ≡ err x → NoSecret x
  unfolding read_token
  read_token-NoSecret (unreadable file y) e =
      elim (Result-cases (env.read_to_string (resolve env path base))) [
        | inl (text, f) ↦ ground arith
        | inr (z, f) ↦ (ground arith, ground arith)
      ]
  read_token-NoSecret (empty file) e =
      elim (Result-cases (env.read_to_string (resolve env path base))) [
        | inl (text, f) ↦ (ground arith, (text, f, ground arith))
        | inr (z, f) ↦ ground arith
      ]
