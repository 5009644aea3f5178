-- ===== src/Expect/First.antt =====
-- banc-host/src/expect.rs: what each assertion says of the source.
use banc.Common.{
  ◌≤◌, ◌<◌, ◌≡◌, ◌↔◌, ◌⊎◌, inl, inr, refl, Bool, true, false, Option, none, some, List, [], ◌∷◌,
  ◌++◌, arith, ok, All, ap, Bool-cases,
}
use native.Mathlib.Decide.{dec_le}
use banc.Common.Time.{Duration}
use banc.Expect.{EventSource, at_end, matching_loop, quiet_loop, expect_matching, expect_quiet}

-- The events come in the order of time, from `t` on, and the source closes after them, if it does.
abbrev pub IsTimely : {A : Type 0} → Duration → Option Duration → List (Duration × A) → Type 0
IsTimely t none [] = Unit {0}
IsTimely t (some c) [] = t ≤ c
IsTimely t closes ((u, ev) ∷ events) = (t ≤ u) × IsTimely u closes events

-- The source stays open up to and with `limit`.
abbrev pub StaysOpen : Duration → Option Duration → Type 0
StaysOpen limit none = Unit {0}
StaysOpen limit (some c) = limit < c

module _ {A : Type 0} (pred : A → Bool) (limit : Duration) where
  -- No event that is there in time matches.
  abbrev pub Silent : List (Duration × A) → Type 0
  Silent [] = Unit {0}
  Silent ((t, ev) ∷ events) = ((limit < t) ⊎ (pred ev ≡ false)) × Silent events

  late :
      (closes : Option Duration) (t : Duration) (events : List (Duration × A))
      → limit < t
      → IsTimely t closes events
      → Silent events × StaysOpen limit closes
  late none t [] h o = (tt, tt)
  late (some c) t [] h o = (tt, omega arith)
  late closes t ((u, ev) ∷ events) h o =
      let h' : limit < u = omega arith in
      let rest = late closes u events h' o.1 in ((inl h', rest.0), rest.1)

  end_iff :
      (closes : Option Duration)
      → (at_end pred limit closes (ok tt) ≡ ok tt) ↔ StaysOpen limit closes
  unfolding at_end
  end_iff none = ((λ _. tt), (λ _. refl))
  end_iff (some c) = ((λ e. ground arith), (λ h. ground arith))

  quiet→silent :
      (closes : Option Duration) (t : Duration) (events : List (Duration × A))
      → IsTimely t closes events
      → quiet_loop pred limit closes events ≡ ok tt
      → Silent events × StaysOpen limit closes
  unfolding quiet_loop
  quiet→silent closes t [] o e = (tt, (end_iff closes).0 e)
  quiet→silent closes t ((u, ev) ∷ events) o e = elim (dec_le u limit) [
    | yes h ↦
        let (misses, rest) = step h in
        let later = quiet→silent closes u events o.1 rest in ((inr misses, later.0), later.1)
    | no h ↦
        let later = late closes u events (omega arith) o.1 in
        ((inl (omega arith), later.0), later.1)
  ]
    where
      step : u ≤ limit → (pred ev ≡ false) × (quiet_loop pred limit closes events ≡ ok tt)
      step h = ground arith

  silent→quiet :
      (closes : Option Duration) (events : List (Duration × A))
      → Silent events
      → StaysOpen limit closes
      → quiet_loop pred limit closes events ≡ ok tt
  unfolding quiet_loop
  silent→quiet closes [] s o = (end_iff closes).1 o
  silent→quiet closes ((u, ev) ∷ events) s o = elim (dec_le u limit) [
    | yes h ↦ ground (arith, s.0, silent→quiet closes events s.1 o)
    | no h ↦ ground arith
  ]

  -- On a source whose events come in the order of time, and which closes after them if it does,
  -- an assertion of silence passes exactly where no event that is there within the window matches
  -- and the source stays open for the whole window: loss of observation is never taken for
  -- silence.
  pub expect_quiet-ok_iff :
      (source : EventSource A)
      → IsTimely 0 source.closes source.events
      → (expect_quiet pred source limit ≡ ok tt)
        ↔ (Silent source.events × StaysOpen limit source.closes)
  unfolding expect_quiet
  expect_quiet-ok_iff source o = (
    quiet→silent source.closes 0 source.events o,
    (λ h. silent→quiet source.closes source.events h.0 h.1),
  )

  -- Events of which none matches, all there in time.
  abbrev Passed : List (Duration × A) → Type 0
  Passed = All (λ e. (e.0 ≤ limit) × (pred e.1 ≡ false))

  matching_first :
      (closes : Option Duration) (events : List (Duration × A)) (ev : A)
      → matching_loop pred limit closes events ≡ ok ev
      → (pre : List (Duration × A)) × (t : Duration) × (post : List (Duration × A)) × (events
          ≡ pre ++ ((t, ev) ∷ post))
        × Passed pre
        × (t ≤ limit)
        × (pred ev ≡ true)
  unfolding matching_loop at_end
  matching_first none [] ev e = cc
  matching_first (some c) [] ev e = absurd (ground arith)
  matching_first closes ((u, x) ∷ events) ev e = elim (Bool-cases (pred x)) [
    | inl hit ↦ ([], u, events, ground arith, tt, ground arith, ground arith)
    | inr miss ↦
        let (pre, t, post, p, q, r, s) = matching_first closes events ev (ground arith) in
        ((u, x) ∷ pre, t, post, ap (◌∷◌ (u, x)) p, (((ground arith), miss), q), r, s)
  ]

  -- The event that a wait returns is the first of the source that matches, and it is there by the
  -- deadline.
  pub expect_matching_first :
      (source : EventSource A) (ev : A)
      → expect_matching pred source limit ≡ ok ev
      → (pre : List (Duration × A)) × (t : Duration) × (post : List (Duration × A)) × (source.events
          ≡ pre ++ ((t, ev) ∷ post))
        × Passed pre
        × (t ≤ limit)
        × (pred ev ≡ true)
  unfolding expect_matching
  expect_matching_first source ev e = matching_first source.closes source.events ev e
