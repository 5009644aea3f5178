-- ===== src/Lease.antt =====
-- banc-host/src/net/lease.rs: the messages of the lease protocol and its single-slot server.
-- A call of the server takes the instant at which `Instant::now` answers and the eight bytes that
-- `getrandom::fill` fills, and returns the new state with the reply.
pub mod Exclusion
pub mod Bounds
pub mod Refinement
pub mod Serve
pub mod Renewal
pub mod Client
mod Tests
use banc.Common.{
  ℕ, ◌+◌, ◌*◌, ◌%◌, ◌^◌, ◌≤◌, Bool, true, false, Option, none, some, List, [], ◌∷◌, ◌==◌, leb, ltb,
  if◌then◌else◌,
}
use banc.Common.Text.{Text}
use banc.Common.Time.{Instant, Duration, from_secs, as_secs, saturating_duration_since}

pub data LeaseRequest : Type 0 where
  acquire : (holder : Text) (ttl_s : ℕ) → LeaseRequest
  renew : (id : ℕ) → LeaseRequest
  release : (id : ℕ) → LeaseRequest
  status : LeaseRequest

pub data LeaseReply : Type 0 where
  granted : (id : ℕ) → LeaseReply
  busy : (holder : Text) (expires_in_s : ℕ) → LeaseReply
  done : LeaseReply
  gone : LeaseReply
  status : (holder : Option Text) (expires_in_s : ℕ) → LeaseReply

pub record Held : Type 0 where
  pub id : ℕ
  pub holder : Text
  pub expires_at : Instant
  pub ttl : Duration

-- What the server's mutex guards.
abbrev pub LeaseServer : Type 0
LeaseServer = Option Held

unfoldable pub new : LeaseServer
new = none

-- `u64::from_le_bytes`.
from_le_bytes : List ℕ → ℕ
from_le_bytes [] = 0
from_le_bytes (b ∷ bs) = b + 256 * from_le_bytes bs

unfoldable pub mint_lease_id : List ℕ → ℕ
unfolding from_le_bytes
mint_lease_id buf = from_le_bytes buf

-- `ttl_s.clamp(5, 3600)`.
unfoldable pub clamp_ttl : ℕ → ℕ
clamp_ttl ttl_s = if ltb ttl_s 5 then 5 else if ltb 3600 ttl_s then 3600 else ttl_s

-- Who currently holds the lease, if anyone.
unfoldable pub holder : Instant → LeaseServer → Option Text
holder now none = none
holder now (some h) = if ltb now h.expires_at then some h.holder else none

-- The expiry that every request starts with.
unfoldable pub expire : Instant → LeaseServer → LeaseServer
expire now none = none
expire now (some h) = if leb h.expires_at now then none else some h

-- `expires_at.saturating_duration_since(now).as_secs() as u32`.
unfoldable pub remaining_s : Instant → Held → ℕ
remaining_s now h = as_secs (saturating_duration_since h.expires_at now) % 2 ^ 32

unfoldable pub grant : Instant → List ℕ → Text → ℕ → LeaseServer × LeaseReply
grant now buf holder ttl_s =
    let id = mint_lease_id buf in
    let ttl = from_secs (clamp_ttl ttl_s) in
    (some (record { id = id; holder = holder; expires_at = now + ttl; ttl = ttl }), granted id)

-- The `match req` of `LeaseServer::handle`, on the state after expiry.
unfoldable pub dispatch : Instant → List ℕ → LeaseServer → LeaseRequest → LeaseServer × LeaseReply
unfolding grant remaining_s
dispatch now buf (some h) (acquire who ttl_s) = (some h, busy h.holder (remaining_s now h))
dispatch now buf none (acquire who ttl_s) = grant now buf who ttl_s
dispatch now buf (some h) (renew id) =
    if h.id == id then (some (record h { expires_at = now + h.ttl }), done) else (some h, gone)
dispatch now buf none (renew id) = (none, gone)
dispatch now buf (some h) (release id) = if h.id == id then (none, done) else (some h, done)
dispatch now buf none (release id) = (none, done)
dispatch now buf (some h) status = (some h, status (some h.holder) (remaining_s now h))
dispatch now buf none status = (none, status none 0)

unfoldable pub handle : Instant → List ℕ → LeaseServer → LeaseRequest → LeaseServer × LeaseReply
unfolding expire dispatch
handle now buf state req = dispatch now buf (expire now state) req

-- One request as the server meets it.
pub record Call : Type 0 where
  pub now : Instant
  pub buf : List ℕ
  pub req : LeaseRequest

-- The mutex puts the requests of all connections in a row.
unfoldable pub run : LeaseServer → List Call → LeaseServer × List LeaseReply
run state [] = (state, [])
run state (c ∷ cs) =
    let (state', reply) = handle c.now c.buf state c.req in
    let (final, replies) = run state' cs in (final, reply ∷ replies)

-- The requests come at instants that never go back.
abbrev pub IsTimed : Instant → List Call → Type 0
IsTimed t [] = Unit {0}
IsTimed t (c ∷ cs) = (t ≤ c.now) × IsTimed c.now cs
