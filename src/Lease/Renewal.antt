-- ===== src/Lease/Renewal.antt =====
-- banc-host/src/net/lease.rs: a holder that renews.
use banc.Common.{ℕ, ◌+◌, ◌<◌, ◌≡◌, ◌≢◌, true, false, some, List, [], ◌∷◌, arith, All, ◌==◌}
use banc.Common.Time.{Instant, Duration}
use banc.Lease.{LeaseRequest, Held, Call, acquire, renew, release, holder, handle, run}
use banc.Lease.Exclusion.{is_granted}

-- The end of the lease `id` of length `ttl` after a request at `now`, where it ended at `e`.
abbrev pub end_after : ℕ → Duration → Instant → Instant → LeaseRequest → Instant
end_after id ttl e now (renew i) = elim (i == id) [ true ↦ now + ttl | false ↦ e ]
end_after id ttl e now _ = e

-- Every request comes before the lease `id` has run out, by its renewals up to there, and none
-- releases it; `last` too comes before its end.
abbrev pub InTime : ℕ → Duration → Instant → Instant → List Call → Type 0
InTime id ttl e last [] = last < e
InTime id ttl e last (c ∷ cs) =
    (c.now < e) × (c.req ≢ release id) × InTime id ttl (end_after id ttl e c.now c.req) last cs

abbrev extended : Instant → Held → LeaseRequest → Held
extended now h req = record h { expires_at = end_after h.id h.ttl h.expires_at now req }

handle-extended :
    (h : Held) (now : Instant) (buf : List ℕ) (req : LeaseRequest)
    → now < h.expires_at
    → req ≢ release h.id
    → ((handle now buf (some h) req).0 ≡ some (extended now h req))
      × (is_granted (handle now buf (some h) req).1 ≡ false)
unfolding handle
handle-extended h now buf (acquire w s) lt ne = ground arith
handle-extended h now buf (renew i) lt ne = ground arith
handle-extended h now buf (release i) lt ne = ground arith
handle-extended h now buf LeaseRequest.status lt ne = ground arith

-- Liveness. A lease that is renewed before it runs out, again and again and for as long as that goes
-- on, is kept: nobody else is granted the rig and the server names its holder to the end, whatever
-- other requests come in between.
pub renewed_holds :
    (h : Held) (last : Instant) (cs : List Call)
    → InTime h.id h.ttl h.expires_at last cs
    → (holder last (run (some h) cs).0 ≡ some h.holder)
      × All (λ r. is_granted r ≡ false) (run (some h) cs).1
unfolding run holder
renewed_holds h last [] t = (ground arith, tt)
renewed_holds h last (c ∷ cs) t =
    let (p, q) = handle-extended h c.now c.buf c.req t.0 t.1 in
    let rest = renewed_holds (extended c.now h c.req) last cs t.2 in rw p (rest.0, (q, rest.1))
