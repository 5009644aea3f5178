-- ===== src/Common/Failed.antt =====
-- `libtest_mimic::Failed`, which the program makes from a text and reads the text of. Its crate is
-- not part of the program: what is relied on is that a failure made from a text has that text.
use mathlib.Core.Path.{◌≡◌, refl}
use mathlib.Core.Option.{Option, none, some}
use banc.Common.Text.{Text}

pub record FailedType : Type 1 where
  pub Failed : Type 0
  pub from : Text → Failed
  pub message : Failed → Option Text
  pub message-from : (t : Text) → message (from t) ≡ some t

-- `f.message().unwrap_or(default)`.
abbrev pub unwrap_or {ℓ} : {A : Type ℓ} → Option A → A → A
unwrap_or none d = d
unwrap_or (some a) d = a

-- A failure that is its message, or has none.
abbrev pub plain_failed : FailedType
plain_failed = record {
  Failed = Option Text;
  from = some;
  message = λ f. f;
  message-from = λ t. refl;
}
