-- ===== src/Lease/Exclusion.antt =====
-- banc-host/src/net/lease.rs: a lease that runs, and the requests of others.
use banc.Common.{
  ℕ, ◌+◌, ◌≤◌, ◌<◌, ◌≡◌, ◌≢◌, ◌⊎◌, refl, Bool, true, false, none, some, List, [], ◌∷◌, arith, All,
  ◌==◌,
}
use banc.Common.Text.{Text}
use banc.Common.Time.{Instant, from_secs}
use banc.Lease.{
  LeaseRequest, LeaseReply, Held, LeaseServer, Call, IsTimed, acquire, renew, release, granted,
  clamp_ttl, holder, handle, run,
}

abbrev pub is_granted : LeaseReply → Bool
is_granted (granted id) = true
is_granted _ = false

-- The slot is taken under `id` by `who`, not to end before `e`, and was last renewed by `t`.
pub record Keeps (id : ℕ) (who : Text) (e t : Instant) (h : Held) : Type 0 where
  pub same_id : h.id ≡ id
  pub same_holder : h.holder ≡ who
  pub runs_to : e ≤ h.expires_at
  pub renewed_by : h.expires_at ≤ t + h.ttl

-- The slot after a request that keeps the lease.
abbrev kept : Instant → Held → LeaseRequest → Held
kept now h (renew id) = elim (h.id == id) [
  | true ↦ record h { expires_at = now + h.ttl }
  | false ↦ h
]
kept now h _ = h

module _ (id : ℕ) (who : Text) (e : Instant) where
  kept-Keeps :
      (h : Held) (t now : Instant) (req : LeaseRequest)
      → Keeps id who e t h
      → t ≤ now
      → Keeps id who e now (kept now h req)
  kept-Keeps h t now (acquire w s) k le = ground arith
  kept-Keeps h t now (renew i) k le = ground arith
  kept-Keeps h t now (release i) k le = ground arith
  kept-Keeps h t now LeaseRequest.status k le = ground arith

  handle-kept :
      (h : Held) (t now : Instant) (buf : List ℕ) (req : LeaseRequest)
      → Keeps id who e t h
      → now < e
      → req ≢ release id
      → ((handle now buf (some h) req).0 ≡ some (kept now h req))
        × (is_granted (handle now buf (some h) req).1 ≡ false)
  unfolding handle
  handle-kept h t now buf (acquire w s) k lt ne = ground arith
  handle-kept h t now buf (renew i) k lt ne = ground arith
  handle-kept h t now buf (release i) k lt ne = ground arith
  handle-kept h t now buf LeaseRequest.status k lt ne = ground arith

  -- Whatever the other clients send before `e`, the holder stays and nobody else is granted the rig.
  pub run-Keeps :
      (h : Held) (t : Instant) (cs : List Call)
      → Keeps id who e t h
      → IsTimed t cs
      → All (λ c. c.now < e) cs
      → All (λ c. c.req ≢ release id) cs
      → ((h' : Held) × ((run (some h) cs).0 ≡ some h')
          × (h'.id ≡ id)
          × (h'.holder ≡ who)
          × (e ≤ h'.expires_at))
        × All (λ r. is_granted r ≡ false) (run (some h) cs).1
  unfolding run
  run-Keeps h t [] k timed before spared = ((h, refl, k.same_id, k.same_holder, k.runs_to), tt)
  run-Keeps h t (c ∷ cs) k timed before spared =
      let (p, q) = handle-kept h t c.now c.buf c.req k before.0 spared.0 in
      let rest =
        run-Keeps (kept c.now h c.req) c.now cs (kept-Keeps h t c.now c.req k timed.0) timed.1
          before.1 spared.1 in
      rw p (rest.0, (q, rest.1))

abbrev fresh : ℕ → Text → Instant → ℕ → Held
fresh id who now ttl_s =
    let ttl = from_secs (clamp_ttl ttl_s) in
    record { id = id; holder = who; expires_at = now + ttl; ttl = ttl }

-- A grant fills the slot, for the time asked.
granted-Keeps :
    (state : LeaseServer) (now : Instant) (buf : List ℕ) (who : Text) (ttl_s id : ℕ)
    → (handle now buf state (acquire who ttl_s)).1 ≡ granted id
    → (h : Held) × ((handle now buf state (acquire who ttl_s)).0 ≡ some h)
      × Keeps id who (now + from_secs (clamp_ttl ttl_s)) now h
unfolding handle
granted-Keeps none now buf who ttl_s id e = (fresh id who now ttl_s, ground arith, ground arith)
granted-Keeps (some old) now buf who ttl_s id e =
    (fresh id who now ttl_s, ground arith, ground arith)

-- Exclusion. Once a request is granted, then until its time runs out, and so long as nobody presents
-- its id to release it, no other request is granted and the server names its holder, whatever
-- requests arrive in between in the order of time.
pub granted-excludes :
    (state : LeaseServer) (now : Instant) (buf : List ℕ) (who : Text) (ttl_s id : ℕ)
    (cs : List Call) (t : Instant)
    → (handle now buf state (acquire who ttl_s)).1 ≡ granted id
    → IsTimed now cs
    → All (λ c. c.now < now + from_secs (clamp_ttl ttl_s)) cs
    → All (λ c. c.req ≢ release id) cs
    → t < now + from_secs (clamp_ttl ttl_s)
    → let (final, replies) = run (handle now buf state (acquire who ttl_s)).0 cs in
      (holder t final ≡ some who) × All (λ r. is_granted r ≡ false) replies
unfolding holder
granted-excludes state now buf who ttl_s id cs t e timed before spared lt =
    let (h, eq, k) = granted-Keeps state now buf who ttl_s id e in
    let ((h', final, same_id, same_holder, runs_to), quiet) =
      run-Keeps id who _ h now cs k timed before spared in
    rw eq (rw final (ground arith), quiet)

-- While a lease runs, only a request that presents its id, to renew or to release it, changes what
-- the server keeps. A guess at the id, an acquisition and a status query leave it as it was.
pub handle_authorized :
    (h : Held) (now : Instant) (buf : List ℕ) (req : LeaseRequest)
    → now < h.expires_at
    → (handle now buf (some h) req).0 ≢ some h
    → (req ≡ renew h.id) ⊎ (req ≡ release h.id)
unfolding handle
handle_authorized h now buf (acquire w s) lt ne = ground arith
handle_authorized h now buf (renew i) lt ne = ground arith
handle_authorized h now buf (release i) lt ne = ground arith
handle_authorized h now buf LeaseRequest.status lt ne = ground arith
