-- ===== src/Instrument.antt =====
-- banc-instrument/src/lib.rs: a sweep over setpoints.
-- `apply` and `body` may change what they like: the state `S` of the bench and of the suite is passed
-- from each call to the next. `context` is that of an error.
pub mod Sweep
use banc.Common.{Option, none, some, List, [], ◌∷◌, Result, ok, err}
use banc.Common.Text.{Text, codes}

module _ {P S E B : Type 0} (context : Text → E → E) (apply : P → S → Result E (Unit {0}) × S)
    (body : P → S → Result E B × S) where
  -- What one setpoint gives, from the answer of `apply`.
  measured : P → Result E (Unit {0}) × S → Result E B × S
  measured p (ok u, s) = body p s
  measured p (err e, s) = (err (context (codes "applying setpoint") e), s)

  unfoldable pub for_each_setpoint : List P → S → List (P × Result E B) × S
  unfolding measured
  for_each_setpoint [] s = ([], s)
  for_each_setpoint (p ∷ ps) s =
      let m = measured p (apply p s) in
      let rest = for_each_setpoint ps m.1 in ((p, m.0) ∷ rest.0, rest.1)
