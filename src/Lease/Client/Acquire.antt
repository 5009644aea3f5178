-- ===== src/Lease/Client/Acquire.antt =====
-- banc-host/src/net/lease.rs: the wait of `LeaseClient::acquire`.
use banc.Common.{
  ℕ, ◌+◌, ◌≤◌, ◌<◌, ◌≡◌, ◌≢◌, refl, List, [], ◌∷◌, ◌++◌, arith, Result, ok, err, length, inl, inr,
  ◌⊎◌, ap,
}
use native.Mathlib.Decide.{dec_le}
use banc.Common.Text.{Text}
use banc.Common.Time.{Instant, Duration, from_secs}
use banc.Lease.{LeaseReply, granted, busy}
use banc.Lease.Client.{
  Answer, Acquired, got, refused, waiting, failed, gave_up, unexpected, acquire_loop,
}

-- Every answer says that the rig is busy, before the deadline.
abbrev pub Waits : {E : Type 0} → Instant → List (Answer E) → Type 0
Waits deadline [] = Unit {0}
Waits deadline (a ∷ as') =
    ((other : Text) × (s : ℕ) × (a.reply ≡ ok (busy other s)))
    × (a.at < deadline)
    × Waits deadline as'

-- Answers that come no earlier than `t`, a second's sleep between them.
abbrev pub Spaced : {E : Type 0} → Instant → List (Answer E) → Type 0
Spaced t [] = Unit {0}
Spaced t (a ∷ as') = (t ≤ a.at) × Spaced (a.at + from_secs 1) as'

module _ {E : Type 0} (deadline : Instant) (timeout : Duration) where
  -- How a wait that is over came to its end: the answer that decided it, after answers that all
  -- said busy in time.
  abbrev pub Decided : List (Answer E) → Acquired E → Type 0
  Decided as' r =
      (pre : List (Answer E)) × (a : Answer E) × (post : List (Answer E)) × (as'
        ≡ pre ++ (a ∷ post))
      × Waits deadline pre
      × (((id : ℕ) × (a.reply ≡ ok (granted id)) × (r ≡ got id))
          ⊎ ((other : Text) × (s : ℕ) × (a.reply ≡ ok (busy other s))
              × (deadline ≤ a.at)
              × (r ≡ refused (gave_up other s timeout)))
          ⊎ ((e : E) × (a.reply ≡ err e) × (r ≡ refused (failed e)))
          ⊎ ((other : LeaseReply) × (a.reply ≡ ok other) × (r ≡ refused (unexpected other))))

  abbrev Outcome : List (Answer E) → Type 0
  Outcome as' =
      ((acquire_loop deadline timeout as' ≡ waiting) × Waits deadline as')
      ⊎ Decided as' (acquire_loop deadline timeout as')

  pub busy_waits :
      (other : Text) (s : ℕ) (at : Instant) (as' : List (Answer E))
      → at < deadline
      → acquire_loop deadline timeout (record { reply = ok (busy other s); at = at } ∷ as')
        ≡ acquire_loop deadline timeout as'
  unfolding acquire_loop
  busy_waits other s at as' lt = ground arith

  busy_stops :
      (other : Text) (s : ℕ) (at : Instant) (as' : List (Answer E))
      → deadline ≤ at
      → acquire_loop deadline timeout (record { reply = ok (busy other s); at = at } ∷ as')
        ≡ refused (gave_up other s timeout)
  unfolding acquire_loop
  busy_stops other s at as' le = ground arith

  -- The answers after one that said busy in time.
  later :
      (other : Text) (s : ℕ) (at : Instant) (as' : List (Answer E))
      → at < deadline
      → Outcome as'
      → Outcome (record { reply = ok (busy other s); at = at } ∷ as')
  later other s at as' lt (inl (w, h)) =
      rw (busy_waits other s at as' lt) (inl (w, ((other, s, refl), lt, h)))
  later other s at as' lt (inr (pre, a, post, e, h, d)) = rw (busy_waits other s at as' lt) (
      inr (
        record { reply = ok (busy other s); at = at } ∷ pre,
        a,
        post,
        ap (◌∷◌ (record { reply = ok (busy other s); at = at })) e,
        ((other, s, refl), lt, h),
        d,
      ))

  busy_cases :
      (other : Text) (s : ℕ) (at : Instant) (as' : List (Answer E))
      → Outcome as'
      → Outcome (record { reply = ok (busy other s); at = at } ∷ as')
  busy_cases other s at as' ih = elim (dec_le deadline at) [
    | yes over ↦
        inr ([], _, as', refl, tt, inr (inl (other, s, refl, over, busy_stops other s at as' over)))
    | no more ↦ later other s at as' (omega arith) ih
  ]

  reply_cases :
      (reply : Result E LeaseReply) (at : Instant) (as' : List (Answer E))
      → Outcome as'
      → Outcome (record { reply = reply; at = at } ∷ as')
  unfolding acquire_loop
  reply_cases (err e) at as' ih = inr ([], _, as', refl, tt, inr (inr (inl (e, refl, refl))))
  reply_cases (ok (granted id)) at as' ih = inr ([], _, as', refl, tt, inl (id, refl, refl))
  reply_cases (ok (busy other s)) at as' ih = busy_cases other s at as' ih
  reply_cases (ok other) at as' ih = inr ([], _, as', refl, tt, inr (inr (inr (other, refl, refl))))

  -- The wait goes on as long as every answer says busy before the deadline. The first that does not
  -- ends it: a grant gives its id, a busy rig at the deadline makes the client give up with the name
  -- that was reported, and an error or another reply is passed on.
  pub acquire_loop_cases :
      (as' : List (Answer E))
      → ((acquire_loop deadline timeout as' ≡ waiting) × Waits deadline as')
        ⊎ Decided as' (acquire_loop deadline timeout as')
  unfolding acquire_loop
  acquire_loop_cases [] = inl (refl, tt)
  acquire_loop_cases (a ∷ as') = reply_cases a.reply a.at as' (acquire_loop_cases as')

Waits-length :
    {E : Type 0} (t deadline : Instant) (a : Answer E) (as' : List (Answer E))
    → Spaced t (a ∷ as')
    → Waits deadline (a ∷ as')
    → t + from_secs (length as') < deadline
Waits-length t deadline a [] p w = omega arith
Waits-length t deadline a (b ∷ as') p w =
    omega (arith, Waits-length (a.at + from_secs 1) deadline b as' p.1 w.2)

ends :
    {E : Type 0} (start : Instant) (timeout : Duration) (as' : List (Answer E))
    → Spaced start as'
    → timeout + from_secs 1 ≤ from_secs (length as')
    → ¬ Waits (start + timeout) as'
ends start timeout [] spaced long w = omega arith
ends start timeout (a ∷ as') spaced long w =
    omega (arith, Waits-length start (start + timeout) a as' spaced w)

Decided-ne-waiting :
    {E : Type 0} (deadline : Instant) (timeout : Duration) (as' : List (Answer E)) (r : Acquired E)
    → Decided deadline timeout as' r
    → r ≢ waiting
Decided-ne-waiting deadline timeout as' r (pre, a, post, e, w, inl d) q = cc (d.2)
Decided-ne-waiting deadline timeout as' r (pre, a, post, e, w, inr (inl d)) q = cc (d.4)
Decided-ne-waiting deadline timeout as' r (pre, a, post, e, w, inr (inr (inl d))) q = cc (d.2)
Decided-ne-waiting deadline timeout as' r (pre, a, post, e, w, inr (inr (inr d))) q = cc (d.2)

-- Termination: a client that starts to wait at `start` has an outcome within one more answer than
-- `timeout` has seconds, whatever the answers are, since it sleeps for a second between two.
pub acquire_loop_ends :
    {E : Type 0} (start : Instant) (timeout : Duration) (as' : List (Answer E))
    → Spaced start as'
    → timeout + from_secs 1 ≤ from_secs (length as')
    → acquire_loop (start + timeout) timeout as' ≢ waiting
acquire_loop_ends start timeout as' spaced long =
    elim (acquire_loop_cases (start + timeout) timeout as') [
      | inl (e, w) ↦ absurd (ends start timeout as' spaced long w)
      | inr d ↦ Decided-ne-waiting (start + timeout) timeout as' _ d
    ]
