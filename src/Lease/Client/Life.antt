-- ===== src/Lease/Client/Life.antt =====
-- banc-host/src/net/lease.rs: `LeaseClient` from its acquisition to its drop.
-- The connect, the answers on its stream and the spawn of the thread are arguments.
use banc.Common.{
  ℕ, ◌+◌, ◌*◌, ◌≤◌, ◌<◌, ◌≡◌, ◌≢◌, ◌++◌, refl, Bool, true, false, Option, none, some, List, [], ◌∷◌,
  arith, Result, ok, err, length, replicate, Option-cases, inl, inr,
}
use Prim.{absurd}
use native.Mathlib.Decide.{dec_le}
use banc.Common.Time.{Instant, Duration, from_millis}
use banc.Lease.{renew, release}
use banc.Lease.Client.{
  ClientError, failed, Answer, Acquired, got, refused, waiting, acquire_loop, Renewer, Wake,
  stopped, renew_loop, join_loop, join_timeout,
}
use banc.Lease.Client.Renew.{Steady, renew_loop-Steady}

-- The sender of the stop channel, and what the thread was started with.
pub record LeaseClient (S : Type 0) : Type 0 where
  pub stop : Option (Unit {0})
  pub thread : Option (Renewer S)

pub data Begun (E S : Type 0) : Type 0 where
  begun : LeaseClient S → Begun E S
  not_begun : ClientError E → Begun E S
  still_asking : Begun E S

module _ {E S : Type 0} where
  spawned : S → ℕ → Result E (Unit {0}) → Begun E S
  spawned stream id (err e) = not_begun (failed e)
  spawned stream id (ok tt) =
      begun (record { stop = some tt; thread = some (record { stream = stream; id = id }) })

  -- `LeaseClient::acquire`, called at `start`.
  unfoldable pub acquire_client :
      (start : Instant) (timeout : Duration)
      → Result E S
      → (S → List (Answer E))
      → Result E (Unit {0})
      → Begun E S
  unfolding spawned
  acquire_client start timeout (err e) answers spawn = not_begun (failed e)
  acquire_client start timeout (ok stream) answers spawn =
      elim (acquire_loop (start + timeout) timeout (answers stream)) [
        | got id ↦ spawned stream id spawn
        | refused e ↦ not_begun e
        | waiting ↦ still_asking
      ]

-- The drop of a client at `now`: what is left of it, and whether its thread, if there is one, was found
-- finished.
unfoldable pub drop_client :
    {S : Type 0} → Instant → LeaseClient S → List (Bool × Instant) → LeaseClient S × Option Bool
drop_client now c polls = (
  record { stop = none; thread = none },
  elim c.thread [ none ↦ some true | some r ↦ join_loop (now + join_timeout) polls ],
)

module _ {E S : Type 0} where
  begins :
      (start : Instant) (timeout : Duration) (stream : S) (answers : S → List (Answer E))
      (spawn : Result E (Unit {0})) (c : LeaseClient S) (a : Acquired E)
      → acquire_loop (start + timeout) timeout (answers stream) ≡ a
      → acquire_client start timeout (ok stream) answers spawn ≡ begun c
      → (id : ℕ) × (a ≡ got id) × (c.thread ≡ some (record { stream = stream; id = id }))
  unfolding acquire_client
  begins start timeout stream answers (ok tt) c (got id) p e = (id, refl, ground (arith, p, e))
  begins start timeout stream answers (err x) c (got id) p e = absurd (ground (arith, p, e))
  begins start timeout stream answers spawn c (refused x) p e = absurd (ground (arith, p, e))
  begins start timeout stream answers spawn c waiting p e = absurd (ground (arith, p, e))

  -- A client begins only where the connection was made, the server granted it a lease and the thread
  -- was started; that thread then renews that very lease on that very stream, once a period while
  -- the server acknowledges, until the client is dropped: it releases the lease, last of all.
  pub begun_released :
      (start : Instant) (timeout : Duration) (connected : Result E S)
      (answers : S → List (Answer E)) (spawn : Result E (Unit {0})) (c : LeaseClient S)
      (ws rest : List (Wake E S))
      → acquire_client start timeout connected answers spawn ≡ begun c
      → Steady ws
      → (r : Renewer S) × (connected ≡ ok r.stream)
        × (acquire_loop (start + timeout) timeout (answers r.stream) ≡ got r.id)
        × (c.thread ≡ some r)
        × (renew_loop r (ws ++ (stopped ∷ rest)) ≡ (
          r,
          replicate (length ws) (r.stream, renew r.id) ++ ((r.stream, release r.id) ∷ []),
          true,
        ))
  unfolding acquire_client
  begun_released start timeout (err x) answers spawn c ws rest e s = absurd (ground (arith, e))
  begun_released start timeout (ok stream) answers spawn c ws rest e s =
      let (id, q, t) = begins start timeout stream answers spawn c _ refl e in
      (
        record { stream = stream; id = id },
        refl,
        q,
        t,
        renew_loop-Steady (record { stream = stream; id = id }) ws rest s,
      )

-- The polls of a join that begins at `t`, with a sleep between two.
abbrev pub Polled : Instant → List (Bool × Instant) → Type 0
Polled t [] = Unit {0}
Polled t ((finished, now) ∷ polls) = (t ≤ now) × Polled (now + from_millis 20) polls

join_loop_ends :
    (t deadline : Instant) (polls : List (Bool × Instant))
    → Polled t polls
    → t < deadline + from_millis 20
    → deadline + from_millis 20 ≤ t + from_millis 20 * length polls
    → join_loop deadline polls ≢ none
unfolding join_loop
join_loop_ends t deadline [] p lt le = omega arith
join_loop_ends t deadline ((true, now) ∷ polls) p lt le = ground arith
join_loop_ends t deadline ((false, now) ∷ polls) p lt le = elim (dec_le deadline now) [
  | yes over ↦ ground arith
  | no more ↦
      let rest =
        join_loop_ends (now + from_millis 20) deadline polls p.1 (omega arith) (omega arith) in
      ground (arith, rest)
]

-- Termination: a client is dropped within 751 polls of its thread, whether that thread ends or not.
-- There is a sleep of 20 milliseconds between two polls.
pub drop_client_ends :
    {S : Type 0} (now : Instant) (c : LeaseClient S) (polls : List (Bool × Instant))
    → Polled now polls
    → 751 ≤ length polls
    → (drop_client now c polls).1 ≢ none
unfolding drop_client
drop_client_ends now c polls p le = elim (Option-cases c.thread) [
  | inl e ↦ ground (arith, e)
  | inr (r, e) ↦
      ground (arith, e, join_loop_ends now (now + join_timeout) polls p (omega arith) (omega arith))
]
