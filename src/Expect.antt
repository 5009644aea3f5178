-- ===== src/Expect.antt =====
-- banc-host/src/expect.rs: assertions on a stream of events.
-- A source is what it will yield from the call on: each event with the time at which it is there,
-- counted from the call, and the time at which the source closes, if it does. `tokio::time::timeout`
-- polls the loop before its timer, so what is there when the time is up is still seen.
pub mod Duality
pub mod First
mod Tests
use banc.Common.{ℕ, Bool, true, false, Option, none, some, List, [], ◌∷◌, leb, Result, ok, err}
use banc.Common.Time.{Duration}

pub record EventSource (A : Type 0) : Type 0 where
  pub events : List (Duration × A)
  pub closes : Option Duration

-- `shown` is the event in its `Debug` form; the model keeps the event.
pub data ExpectError (A : Type 0) : Type 0 where
  deadline : Duration → ExpectError A
  closed : ExpectError A
  unexpected : A → ExpectError A

module _ {A : Type 0} (pred : A → Bool) where
  -- A source with no event left: it closes in time, or the timer ends the wait.
  at_end :
      {B : Type 0}
      → Duration
      → Option Duration
      → Result (ExpectError A) B
      → Result (ExpectError A) B
  at_end limit none elapsed = elapsed
  at_end limit (some t) elapsed = elim (leb t limit) [ true ↦ err closed | false ↦ elapsed ]

  matching_loop : Duration → Option Duration → List (Duration × A) → Result (ExpectError A) A
  unfolding at_end
  matching_loop limit closes [] = at_end limit closes (err (deadline limit))
  matching_loop limit closes ((t, ev) ∷ events) = elim (leb t limit) [
    | true ↦ elim (pred ev) [ true ↦ ok ev | false ↦ matching_loop limit closes events ]
    | false ↦ err (deadline limit)
  ]

  unfoldable pub expect_matching : EventSource A → Duration → Result (ExpectError A) A
  unfolding matching_loop
  expect_matching source limit = matching_loop limit source.closes source.events

  quiet_loop : Duration → Option Duration → List (Duration × A) → Result (ExpectError A) (Unit {0})
  unfolding at_end
  quiet_loop limit closes [] = at_end limit closes (ok tt)
  quiet_loop limit closes ((t, ev) ∷ events) = elim (leb t limit) [
    | true ↦ elim (pred ev) [ true ↦ err (unexpected ev) | false ↦ quiet_loop limit closes events ]
    | false ↦ ok tt
  ]

  unfoldable pub expect_quiet : EventSource A → Duration → Result (ExpectError A) (Unit {0})
  unfolding quiet_loop
  expect_quiet source window = quiet_loop window source.closes source.events
