-- ===== src/Lease/Bounds.antt =====
-- banc-host/src/net/lease.rs: the lifetimes that the server gives and reports.
use banc.Common.{ℕ, ◌+◌, ◌-◌, ◌≤◌, ◌≡◌, refl, none, some, List, [], ◌∷◌, arith, All}
use banc.Common.Text.{Text}
use banc.Common.Time.{Instant, from_secs, as_secs}
use banc.Lease.{
  LeaseRequest, LeaseReply, Held, LeaseServer, Call, IsTimed, acquire, renew, release, granted,
  busy, clamp_ttl, new, remaining_s, handle, run, mint_lease_id,
}

-- A lease runs between 5 seconds and an hour from its last renewal, which was no later than `t`.
abbrev pub Inv : Instant → LeaseServer → Type 0
Inv t none = Unit {0}
Inv t (some h) = (from_secs 5 ≤ h.ttl) × (h.ttl ≤ from_secs 3600) × (h.expires_at ≤ t + h.ttl)

pub clamp_ttl_bounds : (s : ℕ) → (5 ≤ clamp_ttl s) × (clamp_ttl s ≤ 3600)
unfolding clamp_ttl
clamp_ttl_bounds s = ground arith

-- The seconds that a reply reports.
abbrev pub reported : LeaseReply → ℕ
reported (busy who s) = s
reported (LeaseReply.status who s) = s
reported _ = 0

handle-Inv :
    (state : LeaseServer) (t now : Instant) (buf : List ℕ) (req : LeaseRequest)
    → Inv t state
    → t ≤ now
    → Inv now (handle now buf state req).0 × (reported (handle now buf state req).1 ≤ 3600)
unfolding handle
handle-Inv none t now buf (acquire w s) v le = ground (arith, clamp_ttl_bounds s)
handle-Inv none t now buf (renew i) v le = ground arith
handle-Inv none t now buf (release i) v le = ground arith
handle-Inv none t now buf LeaseRequest.status v le = ground arith
handle-Inv (some h) t now buf (acquire w s) v le = ground (arith, clamp_ttl_bounds s)
handle-Inv (some h) t now buf (renew i) v le = ground arith
handle-Inv (some h) t now buf (release i) v le = ground arith
handle-Inv (some h) t now buf LeaseRequest.status v le = ground arith

-- Where the invariant holds, the `as u32` of the reported time loses nothing.
pub remaining_s_exact :
    (h : Held) (t now : Instant)
    → Inv t (some h)
    → t ≤ now
    → remaining_s now h ≡ as_secs (h.expires_at - now)
unfolding remaining_s
remaining_s_exact h t now v le = omega arith

run-Inv :
    (state : LeaseServer) (t : Instant) (cs : List Call)
    → Inv t state
    → IsTimed t cs
    → All (λ r. reported r ≤ 3600) (run state cs).1
unfolding run
run-Inv state t [] v timed = tt
run-Inv state t (c ∷ cs) v timed =
    let (v', r) = handle-Inv state t c.now c.buf c.req v timed.0 in
    (r, run-Inv (handle c.now c.buf state c.req).0 c.now cs v' timed.1)

-- From a new server, on requests at instants that never go back and whatever lifetimes the
-- clients ask for, no reply ever reports more than an hour to wait.
pub run-reported_bound :
    (t : Instant) (cs : List Call) → IsTimed t cs → All (λ r. reported r ≤ 3600) (run new cs).1
unfolding new
run-reported_bound t cs timed = run-Inv none t cs tt timed

Inv-later : (state : LeaseServer) (t end : Instant) → Inv t state → t ≤ end → Inv end state
Inv-later none t end v le = tt
Inv-later (some h) t end v le = omega arith

final-Inv :
    (state : LeaseServer) (t end : Instant) (cs : List Call)
    → Inv t state
    → IsTimed t cs
    → t ≤ end
    → All (λ c. c.now ≤ end) cs
    → Inv end (run state cs).0
unfolding run
final-Inv state t end [] v timed le before = Inv-later state t end v le
final-Inv state t end (c ∷ cs) v timed le before =
    final-Inv (handle c.now c.buf state c.req).0 c.now end cs
      (handle-Inv state t c.now c.buf c.req v timed.0).0 timed.1 before.0 before.1

free_later :
    (state : LeaseServer) (t now : Instant) (buf : List ℕ) (who : Text) (ttl_s : ℕ)
    → Inv t state
    → t + from_secs 3600 ≤ now
    → (handle now buf state (acquire who ttl_s)).1 ≡ granted (mint_lease_id buf)
unfolding handle
free_later none t now buf who ttl_s v le = refl
free_later (some h) t now buf who ttl_s v le = ground arith

-- The rig frees itself: after any history of a new server, at instants that never go back and by
-- `end`, an acquisition that comes an hour after `end`, with no request in between, is granted,
-- whoever held the rig.
pub abandoned_granted :
    (t end now : Instant) (cs : List Call) (buf : List ℕ) (who : Text) (ttl_s : ℕ)
    → IsTimed t cs
    → t ≤ end
    → All (λ c. c.now ≤ end) cs
    → end + from_secs 3600 ≤ now
    → (handle now buf (run new cs).0 (acquire who ttl_s)).1 ≡ granted (mint_lease_id buf)
unfolding new
abandoned_granted t end now cs buf who ttl_s timed le before later =
    free_later _ end now buf who ttl_s (final-Inv none t end cs tt timed le before) later
