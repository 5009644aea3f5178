-- ===== src/Lease/Client/Handover.antt =====
-- banc-host/src/net/lease.rs: release, renewal and reacquisition by a client whose lease is running.
use banc.Common.{ℕ, ◌+◌, ◌≤◌, ◌<◌, ◌≡◌, none, some, List, arith, ok}
use Prim.{absurd}
use banc.Common.Text.{Text}
use banc.Common.Time.{Instant}
use banc.Lease.{LeaseServer, acquire, renew, release, granted, handle, holder, mint_lease_id}
use banc.Lease.Client.{default_ttl, Renewer, reacquire}
use banc.Lease.Client.Sessions.{
  delivered, exchange, renewing, regaining, System, after_renew, after_reacquire, regain, lease_of,
  Reach,
}
use banc.Lease.Client.Fencing.{Keeps, Standard}
use banc.Lease.Client.Sole.{reach-Inv}

kept_by :
    {E S : Type 0} (s : System S) (now : Instant) (i id : ℕ) (since : Instant)
    → Reach E s
    → lease_of (s.clients i) ≡ some (id, since)
    → s.clock ≤ now
    → now < since + default_ttl
    → Keeps s.server id (since + default_ttl)
kept_by s now i id since r e le lt = (reach-Inv r).backed i id since e (omega arith)

release_frees :
    (state : LeaseServer) (id : ℕ) (now later e : Instant) (buf buf' : List ℕ) (who : Text)
    (ttl_s : ℕ)
    → Keeps state id e
    → now < e
    → (handle later buf' (handle now buf state (release id)).0 (acquire who ttl_s)).1
      ≡ granted (mint_lease_id buf')
unfolding handle
release_frees none id now later e buf buf' who ttl_s k lt = absurd k
release_frees (some h) id now later e buf buf' who ttl_s k lt = ground arith

-- Liveness. Once the release of a client reaches the server within 60 seconds of its last renewal, or
-- of its grant, the rig is free: the next acquisition is granted, whoever asks and however soon after.
pub handed_over :
    {E S : Type 0} (s : System S) (i : ℕ) (r : Renewer S) (since now later : Instant)
    (buf buf' : List ℕ) (who : Text) (ttl_s : ℕ)
    → Reach E s
    → s.clients i ≡ renewing r since
    → s.clock ≤ now
    → now < since + default_ttl
    → (handle later buf'
        (exchange {E = E} delivered now buf s.server (release r.id)).0
        (acquire who ttl_s)).1
      ≡ granted (mint_lease_id buf')
unfolding exchange
handed_over s i r since now later buf buf' who ttl_s reached e le lt =
    release_frees s.server r.id now later _ buf buf' who ttl_s
      (kept_by s now i r.id since reached (ground (arith, e)) le lt) lt

renewal_counts :
    (E : Type 0) {S : Type 0} (state : LeaseServer) (now later e : Instant) (buf : List ℕ)
    (r : Renewer S) (since : Instant)
    → Standard state
    → Keeps state r.id e
    → now < e
    → later < now + default_ttl
    → (let x = exchange {E = E} delivered now buf state (renew r.id) in
        (after_renew now r since x.1 ≡ renewing r now) × (holder later x.0 ≡ holder now state))
unfolding exchange after_renew handle holder
renewal_counts E none now later e buf r since v k lt soon = absurd k
renewal_counts E (some h) now later e buf r since v k lt soon = ground arith

-- Liveness. A renewal that reaches the server within 60 seconds of the last one, or of the grant, and
-- whose answer comes back is acknowledged, whatever the other clients have done: the client goes on
-- with the same lease on the same connection, and for 60 seconds from then the server names the
-- holder that it named before, if no other request comes in between.
pub renewal_acknowledged :
    {E S : Type 0} (s : System S) (i : ℕ) (r : Renewer S) (since now later : Instant) (buf : List ℕ)
    → Reach E s
    → s.clients i ≡ renewing r since
    → s.clock ≤ now
    → now < since + default_ttl
    → later < now + default_ttl
    → (let x = exchange {E = E} delivered now buf s.server (renew r.id) in
        (after_renew now r since x.1 ≡ renewing r now) × (holder later x.0 ≡ holder now s.server))
renewal_acknowledged {E} s i r since now later buf reached e le lt soon =
    renewal_counts E s.server now later _ buf r since (reach-Inv reached).standard
      (kept_by s now i r.id since reached (ground (arith, e)) le lt) lt soon

own_lease_refuses :
    (E : Type 0) {S : Type 0} (state : LeaseServer) (id : ℕ) (now e : Instant) (buf : List ℕ)
    (who : Text) (stream : S) (r : Renewer S) (since : Instant)
    → Keeps state id e
    → now < e
    → regain {E = E} delivered now buf state who (ok stream) r since ≡ (state, renewing r since)
unfolding regain exchange after_reacquire reacquire handle
own_lease_refuses E none id now e buf who stream r since k lt = absurd k
own_lease_refuses E (some h) id now e buf who stream r since k lt = ground arith

-- A client whose connection has broken, and that asks for the rig again on a new one, is refused
-- because of its own lease for as long as that runs: it drops the new connection, keeps the broken
-- one for its next renewals, and its lease is not extended.
pub regain_refused :
    {E S : Type 0} (s : System S) (i : ℕ) (r : Renewer S) (since now : Instant) (buf : List ℕ)
    (who : Text) (stream : S)
    → Reach E s
    → s.clients i ≡ regaining r since
    → s.clock ≤ now
    → now < since + default_ttl
    → regain {E = E} delivered now buf s.server who (ok stream) r since
      ≡ (s.server, renewing r since)
regain_refused {E} s i r since now buf who stream reached e le lt =
    own_lease_refuses E s.server r.id now _ buf who stream r since
      (kept_by s now i r.id since reached (ground (arith, e)) le lt) lt
