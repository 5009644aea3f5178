-- ===== src/Expect/Duality.antt =====
-- banc-host/src/expect.rs: the two assertions on one source.
use banc.Common.{◌≡◌, refl, Bool, Option, none, some, List, [], ◌∷◌, arith, Result, ok, err}
use banc.Common.Time.{Duration}
use banc.Expect.{
  EventSource, ExpectError, deadline, closed, unexpected, matching_loop, quiet_loop,
  expect_matching, expect_quiet,
}

-- What the quiet assertion makes of the outcome of the other.
abbrev pub as_quiet : {A : Type 0} → Result (ExpectError A) A → Result (ExpectError A) (Unit {0})
as_quiet (ok ev) = err (unexpected ev)
as_quiet (err (deadline d)) = ok tt
as_quiet (err closed) = err closed
as_quiet (err (unexpected ev)) = err (unexpected ev)

module _ {A : Type 0} (pred : A → Bool) (limit : Duration) where
  loops :
      (closes : Option Duration) (events : List (Duration × A))
      → quiet_loop pred limit closes events ≡ as_quiet (matching_loop pred limit closes events)
  unfolding quiet_loop matching_loop
  loops none [] = refl
  loops (some t) [] = ground arith
  loops closes ((t, ev) ∷ events) = ground (arith, loops closes events)

  -- On every source, over the same time, silence holds exactly where waiting for the event would
  -- have met its deadline, it is broken by the very event that the wait would have returned, and a
  -- source that closes fails both.
  pub expect_quiet-expect_matching :
      (source : EventSource A)
      → expect_quiet pred source limit ≡ as_quiet (expect_matching pred source limit)
  unfolding expect_quiet expect_matching
  expect_quiet-expect_matching source = loops source.closes source.events
