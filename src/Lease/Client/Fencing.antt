-- ===== src/Lease/Client/Fencing.antt =====
-- banc-host/src/net/lease.rs: what a roundtrip leaves of a lease that has not run out.
use banc.Common.{ℕ, ◌+◌, ◌≤◌, ◌<◌, ◌≡◌, ◌≢◌, none, some, List, arith}
use Prim.{absurd}
use banc.Common.Text.{Text}
use banc.Common.Time.{Instant}
use banc.Lease.{
  LeaseRequest, LeaseServer, acquire, renew, release, granted, done, handle, mint_lease_id,
  clamp_ttl,
}
use banc.Lease.Client.{default_ttl}
use banc.Lease.Client.Sessions.{Delivery, delivered, reply_lost, unsent, exchange}

-- The server keeps the lease `id` up to `e` at least.
abbrev pub Keeps : LeaseServer → ℕ → Instant → Type 0
Keeps none id e = ⊥
Keeps (some h) id e = (h.id ≡ id) × (e ≤ h.expires_at)

-- Every lease that was granted runs for the clients' TTL.
abbrev pub Standard : LeaseServer → Type 0
Standard none = Unit {0}
Standard (some h) = h.ttl ≡ default_ttl

abbrev pub Asked : LeaseRequest → Type 0
Asked (acquire who ttl_s) = ttl_s ≡ 60
Asked _ = Unit {0}

handle-Standard :
    (state : LeaseServer) (now : Instant) (buf : List ℕ) (req : LeaseRequest)
    → Standard state
    → Asked req
    → Standard (handle now buf state req).0
unfolding handle clamp_ttl
handle-Standard none now buf (acquire w s) v a = ground arith
handle-Standard none now buf (renew i) v a = ground arith
handle-Standard none now buf (release i) v a = ground arith
handle-Standard none now buf LeaseRequest.status v a = ground arith
handle-Standard (some h) now buf (acquire w s) v a = ground arith
handle-Standard (some h) now buf (renew i) v a = ground arith
handle-Standard (some h) now buf (release i) v a = ground arith
handle-Standard (some h) now buf LeaseRequest.status v a = ground arith

-- A lease that has not run out is kept by every request but its release.
handle-Keeps :
    (state : LeaseServer) (now e : Instant) (buf : List ℕ) (req : LeaseRequest) (id : ℕ)
    → Standard state
    → Keeps state id e
    → now < e
    → e ≤ now + default_ttl
    → req ≢ release id
    → Keeps (handle now buf state req).0 id e
unfolding handle
handle-Keeps none now e buf req id v k lt le ne = absurd k
handle-Keeps (some h) now e buf (acquire w s) id v k lt le ne = ground arith
handle-Keeps (some h) now e buf (renew i) id v k lt le ne = ground arith
handle-Keeps (some h) now e buf (release i) id v k lt le ne = ground arith
handle-Keeps (some h) now e buf LeaseRequest.status id v k lt le ne = ground arith

-- What a grant and an acknowledged renewal mean.
pub granted-Keeps :
    (state : LeaseServer) (now : Instant) (buf : List ℕ) (who : Text) (id : ℕ)
    → (handle now buf state (acquire who 60)).1 ≡ granted id
    → (id ≡ mint_lease_id buf)
      × Keeps (handle now buf state (acquire who 60)).0 id (now + default_ttl)
unfolding handle clamp_ttl
granted-Keeps none now buf who id e = ground arith
granted-Keeps (some h) now buf who id e = ground arith

pub done-Keeps :
    (state : LeaseServer) (now : Instant) (buf : List ℕ) (id : ℕ)
    → Standard state
    → (handle now buf state (renew id)).1 ≡ done
    → Keeps (handle now buf state (renew id)).0 id (now + default_ttl)
unfolding handle
done-Keeps none now buf id v e = ground arith
done-Keeps (some h) now buf id v e = ground arith

module _ {E : Type 0} where
  pub exchange-Standard :
      (d : Delivery E) (state : LeaseServer) (now : Instant) (buf : List ℕ) (req : LeaseRequest)
      → Standard state
      → Asked req
      → Standard (exchange d now buf state req).0
  unfolding exchange
  exchange-Standard delivered state now buf req v a = handle-Standard state now buf req v a
  exchange-Standard (reply_lost e) state now buf req v a = handle-Standard state now buf req v a
  exchange-Standard (unsent e) state now buf req v a = v

  pub exchange-Keeps :
      (d : Delivery E) (state : LeaseServer) (now e : Instant) (buf : List ℕ) (req : LeaseRequest)
      (id : ℕ)
      → Standard state
      → Keeps state id e
      → now < e
      → e ≤ now + default_ttl
      → req ≢ release id
      → Keeps (exchange d now buf state req).0 id e
  unfolding exchange
  exchange-Keeps delivered state now e buf req id v k lt le ne =
      handle-Keeps state now e buf req id v k lt le ne
  exchange-Keeps (reply_lost x) state now e buf req id v k lt le ne =
      handle-Keeps state now e buf req id v k lt le ne
  exchange-Keeps (unsent x) state now e buf req id v k lt le ne = k

-- The server keeps one lease at a time.
pub one_lease :
    (state : LeaseServer) (id id' : ℕ) (t u : Instant)
    → Keeps state id t
    → Keeps state id' u
    → id ≡ id'
one_lease none id id' t u k k' = absurd k
one_lease (some h) id id' t u k k' = ground arith
