-- ===== src/Lease/Client/Justified.antt =====
-- banc-host/src/net/lease.rs: the lease that a client has after one of its roundtrips.
use banc.Common.{
  ℕ, ◌+◌, ◌≤◌, ◌<◌, ◌≡◌, ◌⊎◌, inl, refl, Option, none, some, List, arith, Result, ok, err,
}
use banc.Common.Text.{Text}
use banc.Common.Time.{Instant, Duration}
use banc.Lease.{LeaseReply, LeaseServer, acquire, renew, busy, granted, done, handle, mint_lease_id}
use banc.Lease.Client.{default_ttl, reacquire, acquire_loop, Renewer}
use banc.Lease.Client.Sessions.{
  Delivery, delivered, reply_lost, unsent, exchange, after_ask, after_renew, after_reacquire,
  regain, lease_of,
}
use banc.Lease.Client.Fencing.{
  Keeps, Standard, exchange-Standard, exchange-Keeps, granted-Keeps, done-Keeps,
}

-- The lease of a client after its step, against the one that it had: that one, or one that the
-- server has just renewed or granted with the id that it minted.
abbrev pub Justified :
    LeaseServer → Instant → Option ℕ → Option (ℕ × Instant) → ℕ → Instant → Type 0
Justified server now minted old id t =
    (old ≡ some (id, t))
    ⊎ ((t ≡ now)
        × Keeps server id (now + default_ttl)
        × ((minted ≡ some id) ⊎ ((u : Instant) × (old ≡ some (id, u)))))

abbrev pub Own :
    LeaseServer → Instant → Option ℕ → Option (ℕ × Instant) → Option (ℕ × Instant) → Type 0
Own server now minted old lease =
    (id : ℕ) (t : Instant) → lease ≡ some (id, t) → Justified server now minted old id t

module _ {E S : Type 0} where
  pub ask-Own :
      (d : Delivery E) (state : LeaseServer) (now : Instant) (buf : List ℕ) (who : Text)
      (deadline : Instant) (timeout : Duration) (stream : S) (at : Instant)
      → Own (exchange d now buf state (acquire who 60)).0 now (some (mint_lease_id buf)) none (
          lease_of (
            after_ask now deadline timeout stream at (exchange d now buf state (acquire who 60)).1))
  unfolding exchange after_ask acquire_loop
  ask-Own delivered state now buf who deadline timeout stream at id t e =
      by_reply (handle now buf state (acquire who 60)).1 refl e
    where
      by_reply :
          (reply : LeaseReply)
          → (handle now buf state (acquire who 60)).1 ≡ reply
          → lease_of (after_ask {E = E} now deadline timeout stream at (ok reply)) ≡ some (id, t)
          → Justified
              (handle now buf state (acquire who 60)).0
              now
              (some (mint_lease_id buf))
              none
              id
              t
      by_reply (granted i) p q =
          let (f, k) = granted-Keeps state now buf who i p in ground (arith, f, k, q)
      by_reply (busy w s) p q = ground (arith, q)
      by_reply other p q = ground (arith, q)
  ask-Own (reply_lost x) state now buf who deadline timeout stream at id t e = ground (arith, e)
  ask-Own (unsent x) state now buf who deadline timeout stream at id t e = ground (arith, e)

  pub renew-Own :
      (d : Delivery E) (state : LeaseServer) (now : Instant) (buf : List ℕ) (r : Renewer S)
      (since : Instant)
      → Standard state
      → Own
          (exchange d now buf state (renew r.id)).0
          now
          none
          (some (r.id, since))
          (lease_of (after_renew now r since (exchange d now buf state (renew r.id)).1))
  unfolding exchange after_renew
  renew-Own delivered state now buf r since v id t e =
      by_reply (handle now buf state (renew r.id)).1 refl e
    where
      by_reply :
          (reply : LeaseReply)
          → (handle now buf state (renew r.id)).1 ≡ reply
          → lease_of (after_renew {E = E} now r since (ok reply)) ≡ some (id, t)
          → Justified (handle now buf state (renew r.id)).0 now none (some (r.id, since)) id t
      by_reply done p q = ground (arith, done-Keeps state now buf r.id v p, q)
      by_reply other p q = ground (arith, q)
  renew-Own (reply_lost x) state now buf r since v id t e = inl e
  renew-Own (unsent x) state now buf r since v id t e = inl e

  pub regain-Standard :
      (d : Delivery E) (state : LeaseServer) (now : Instant) (buf : List ℕ) (who : Text)
      (connected : Result E S) (r : Renewer S) (since : Instant)
      → Standard state
      → Standard (regain d now buf state who connected r since).0
  unfolding regain
  regain-Standard d state now buf who (err x) r since v = v
  regain-Standard d state now buf who (ok stream) r since v =
      exchange-Standard d state now buf (acquire who 60) v refl

  pub regain-Keeps :
      (d : Delivery E) (state : LeaseServer) (now e : Instant) (buf : List ℕ) (who : Text)
      (connected : Result E S) (r : Renewer S) (since : Instant) (id : ℕ)
      → Standard state
      → Keeps state id e
      → now < e
      → e ≤ now + default_ttl
      → Keeps (regain d now buf state who connected r since).0 id e
  unfolding regain
  regain-Keeps d state now e buf who (err x) r since id v k lt le = k
  regain-Keeps d state now e buf who (ok stream) r since id v k lt le =
      exchange-Keeps d state now e buf (acquire who 60) id v k lt le (λ p. ground (arith, p))

  pub regain-Own :
      (d : Delivery E) (state : LeaseServer) (now : Instant) (buf : List ℕ) (who : Text)
      (connected : Result E S) (r : Renewer S) (since : Instant)
      → Own
          (regain d now buf state who connected r since).0
          now
          (some (mint_lease_id buf))
          (some (r.id, since))
          (lease_of (regain d now buf state who connected r since).1)
  unfolding regain exchange after_reacquire reacquire
  regain-Own d state now buf who (err x) r since id t e = inl e
  regain-Own (reply_lost x) state now buf who (ok stream) r since id t e = inl e
  regain-Own (unsent x) state now buf who (ok stream) r since id t e = inl e
  regain-Own delivered state now buf who (ok stream) r since id t e =
      by_reply (handle now buf state (acquire who 60)).1 refl e
    where
      by_reply :
          (reply : LeaseReply)
          → (handle now buf state (acquire who 60)).1 ≡ reply
          → lease_of (after_reacquire {E = E} now r since (reacquire (ok stream) (λ s. ok reply)))
            ≡ some (id, t)
          → Justified
              (handle now buf state (acquire who 60)).0
              now
              (some (mint_lease_id buf))
              (some (r.id, since))
              id
              t
      by_reply (granted i) p q =
          let (f, k) = granted-Keeps state now buf who i p in ground (arith, f, k, q)
      by_reply (busy w s) p q = inl q
      by_reply other p q = ground (arith, q)
