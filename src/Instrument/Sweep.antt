-- ===== src/Instrument/Sweep.antt =====
-- banc-instrument/src/lib.rs: what a sweep reports.
use banc.Common.{◌≡◌, refl, List, [], ◌∷◌, ◌++◌, map, Result}
use banc.Common.Text.{Text}
use banc.Instrument.{for_each_setpoint, measured}

module _ {P S E B : Type 0} (context : Text → E → E) (apply : P → S → Result E (Unit {0}) × S)
    (body : P → S → Result E B × S) where
  -- The whole profile is reported whatever fails: there is one result for each setpoint, in their
  -- order.
  pub all_reported :
      (ps : List P) (s : S) → map (λ r. r.0) (for_each_setpoint context apply body ps s).0 ≡ ps
  unfolding for_each_setpoint
  all_reported [] s = refl
  all_reported (p ∷ ps) s = rw (all_reported ps (measured context apply body p (apply p s)).1) refl

  -- A sweep in two parts is the sweep of the first and then, from the state that it leaves and
  -- whatever failed in it, the sweep of the second.
  pub for_each_setpoint-append :
      (ps qs : List P) (s : S)
      → for_each_setpoint context apply body (ps ++ qs) s ≡ (
        (for_each_setpoint context apply body ps s).0
            ++ (for_each_setpoint context apply body qs
                (for_each_setpoint context apply body ps s).1).0,
        (for_each_setpoint context apply body qs (for_each_setpoint context apply body ps s).1).1,
      )
  unfolding for_each_setpoint
  for_each_setpoint-append [] qs s = refl
  for_each_setpoint-append (p ∷ ps) qs s =
      rw (for_each_setpoint-append ps qs (measured context apply body p (apply p s)).1) refl
