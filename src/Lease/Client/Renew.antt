-- ===== src/Lease/Client/Renew.antt =====
-- banc-host/src/net/lease.rs: what `renew_loop` sends.
use banc.Common.{
  ℕ, ◌≡◌, refl, true, List, [], ◌∷◌, ◌++◌, arith, Result, ok, err, length, All, replicate,
}
use banc.Lease.{LeaseRequest, LeaseReply, renew, release, done, gone}
use banc.Lease.Client.{
  Renewer, Wake, stopped, period, ClientError, reacquire, adopt, renewal, renew_loop,
}

-- A renewal or a release of the lease `id` on the stream `s`, for one that fulfils `P`.
abbrev pub Speaks : {S : Type 0} → (S → ℕ → Type 0) → S × LeaseRequest → Type 0
Speaks P (s, renew id) = P s id
Speaks P (s, release id) = P s id
Speaks P (s, _) = ⊥

-- A lease that a reconnection is granted fulfils `P`.
abbrev Regained : {E S : Type 0} → (S → ℕ → Type 0) → Result (ClientError E) (S × ℕ) → Type 0
Regained P (ok (s, id)) = P s id
Regained P (err e) = Unit {0}

-- It is so for each reconnection of the schedule.
abbrev Regains : {E S : Type 0} → (S → ℕ → Type 0) → List (Wake E S) → Type 0
Regains P [] = Unit {0}
Regains P (stopped ∷ ws) = Regains P ws
Regains P (period answer connected again ∷ ws) =
    Regained P (reacquire connected again) × Regains P ws

module _ {E S : Type 0} (P : S → ℕ → Type 0) where
  adopt-P :
      (r : Renewer S) (regained : Result (ClientError E) (S × ℕ))
      → P r.stream r.id
      → Regained P regained
      → P (adopt r regained).stream (adopt r regained).id
  unfolding adopt
  adopt-P r (ok (s, id)) p q = q
  adopt-P r (err e) p q = p

  renewal-P :
      (r : Renewer S) (answer : Result E LeaseReply) (regained : Result (ClientError E) (S × ℕ))
      → P r.stream r.id
      → Regained P regained
      → P (renewal r answer regained).stream (renewal r answer regained).id
  renewal-P r (ok gone) regained p q = unfold renewal in adopt-P r regained p q
  renewal-P r (err e) regained p q = unfold renewal in adopt-P r regained p q
  renewal-P r (ok done) regained p q = unfold renewal in p
  renewal-P r (ok other) regained p q = unfold renewal in p

  -- The renew thread speaks for its own lease only. Whatever the server and the wire answer, each
  -- renewal and the release that it sends name, on the stream that they go to, a lease granted there:
  -- the one that it started with or one that a reconnection was granted. `P` is any property that
  -- those have.
  pub renew_loop-Speaks :
      (r : Renewer S) (ws : List (Wake E S))
      → P r.stream r.id
      → Regains P ws
      → All (Speaks P) (renew_loop r ws).1
  unfolding renew_loop
  renew_loop-Speaks r [] p g = tt
  renew_loop-Speaks r (stopped ∷ ws) p g = (p, tt)
  renew_loop-Speaks r (period answer connected again ∷ ws) p g = (
    p,
    renew_loop-Speaks (renewal r answer (reacquire connected again)) ws
        (renewal-P r answer (reacquire connected again) p g.0) g.1,
  )

-- A schedule on which every renewal is acknowledged.
abbrev pub Steady : {E S : Type 0} → List (Wake E S) → Type 0
Steady [] = Unit {0}
Steady (stopped ∷ ws) = ⊥
Steady (period answer connected again ∷ ws) = (answer ≡ ok done) × Steady ws

-- While the server acknowledges, the thread renews its lease once in each period, on one stream; when
-- it is stopped it releases that lease, last of all, and ends.
pub renew_loop-Steady :
    {E S : Type 0} (r : Renewer S) (ws : List (Wake E S)) (rest : List (Wake E S))
    → Steady ws
    → renew_loop r (ws ++ (stopped ∷ rest))
      ≡ (r, replicate (length ws) (r.stream, renew r.id) ++ ((r.stream, release r.id) ∷ []), true)
unfolding renew_loop renewal
renew_loop-Steady r [] rest s = refl
renew_loop-Steady r (stopped ∷ ws) rest s = absurd s
renew_loop-Steady r (period answer connected again ∷ ws) rest s =
    ground (arith, renew_loop-Steady r ws rest s.1)
