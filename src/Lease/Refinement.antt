-- ===== src/Lease/Refinement.antt =====
-- banc-host/src/net/lease.rs: the server beside a slot that counts down.
use banc.Common.{
  ℕ, ◌-◌, ◌%◌, ◌^◌, ◌≤◌, ◌≡◌, refl, Option, none, some, List, [], ◌∷◌, arith, All, ◌==◌, leb, min,
  if◌then◌else◌, ap, ◌∙◌, sym,
}
use banc.Common.Text.{Text}
use banc.Common.Time.{Instant, Duration, from_secs, as_secs}
use banc.Lease.{
  LeaseRequest, LeaseReply, LeaseServer, Call, IsTimed, acquire, renew, release, status, granted,
  busy, done, gone, clamp_ttl, mint_lease_id, holder, expire, grant, dispatch, remaining_s, new,
  handle, run,
}

-- A lease that knows how long it still has, and no instant.
pub record Countdown : Type 0 where
  pub id : ℕ
  pub holder : Text
  pub ttl : Duration
  pub left : Duration

-- Time passes: the slot is emptied at the moment at which nothing is left.
unfoldable pub pass : Duration → Option Countdown → Option Countdown
pass d none = none
pass d (some c) = if leb c.left d then none else some (record c { left = c.left - d })

-- The lifetime that is granted: what is asked for, at least 5 and at most 3600 seconds.
abbrev pub lifetime : ℕ → Duration
lifetime ttl_s = from_secs (if leb ttl_s 5 then 5 else min ttl_s 3600)

abbrev pub left_s : Countdown → ℕ
left_s c = as_secs c.left % 2 ^ 32

-- The promise of the server, by the request: an empty slot is given to whoever asks; a full one is
-- only renewed or emptied, and only by its id.
unfoldable pub promised : List ℕ → Option Countdown → LeaseRequest → Option Countdown × LeaseReply
promised buf none (acquire who ttl_s) = (
  some (record {
    id = mint_lease_id buf;
    holder = who;
    ttl = lifetime ttl_s;
    left = lifetime ttl_s;
  }),
  granted (mint_lease_id buf),
)
promised buf (some c) (acquire who ttl_s) = (some c, busy c.holder (left_s c))
promised buf none (renew id) = (none, gone)
promised buf (some c) (renew id) =
    if c.id == id then (some (record c { left = c.ttl }), done) else (some c, gone)
promised buf none (release id) = (none, done)
promised buf (some c) (release id) = (if c.id == id then none else some c, done)
promised buf none status = (none, LeaseReply.status none 0)
promised buf (some c) status = (some c, LeaseReply.status (some c.holder) (left_s c))

-- The slot from the instant `t` on: before each request, and up to the instant `end`, it counts down
-- the time that has passed.
unfoldable pub countdown :
    Instant → Instant → Option Countdown → List Call → Option Countdown × List LeaseReply
countdown end t slot [] = (pass (end - t) slot, [])
countdown end t slot (c ∷ cs) =
    let (slot', reply) = promised c.buf (pass (c.now - t) slot) c.req in
    let (final, replies) = countdown end c.now slot' cs in (final, reply ∷ replies)

-- What the server's state says at an instant.
seen : Instant → LeaseServer → Option Countdown
seen now none = none
seen now (some h) =
    if leb h.expires_at now
    then none
    else some (record { id = h.id; holder = h.holder; ttl = h.ttl; left = h.expires_at - now })

abbrev pub named : Option Countdown → Option Text
named none = none
named (some c) = some c.holder

clamp_ttl-lifetime : (n : ℕ) → from_secs (clamp_ttl n) ≡ lifetime n
unfolding clamp_ttl
clamp_ttl-lifetime n = ap from_secs (ground arith)

-- Time that passes for the slot passes for the server.
seen-pass :
    (t now : Instant) (s : LeaseServer) (slot : Option Countdown)
    → t ≤ now
    → seen t s ≡ pass 0 slot
    → pass (now - t) slot ≡ seen now s
unfolding seen pass
seen-pass t now none none le e = refl
seen-pass t now none (some c) le e = ground arith
seen-pass t now (some h) none le e = ground arith
seen-pass t now (some h) (some c) le e = ground arith

-- One request: the server replies what is promised, and is seen to have the slot that is promised.
handle-promised :
    (now : Instant) (buf : List ℕ) (req : LeaseRequest) (s : LeaseServer)
    → ((handle now buf s req).1 ≡ (promised buf (seen now s) req).1)
      × (seen now (handle now buf s req).0 ≡ pass 0 (promised buf (seen now s) req).0)
unfolding handle seen promised pass expire dispatch grant remaining_s
handle-promised now buf (acquire w n) none = let k = clamp_ttl-lifetime n in (refl, ground arith)
handle-promised now buf (acquire w n) (some h) =
    let k = clamp_ttl-lifetime n in (ground arith, ground arith)
handle-promised now buf (renew i) none = (refl, refl)
handle-promised now buf (renew i) (some h) = (ground arith, ground arith)
handle-promised now buf (release i) none = (refl, refl)
handle-promised now buf (release i) (some h) = (ground arith, ground arith)
handle-promised now buf LeaseRequest.status none = (refl, refl)
handle-promised now buf LeaseRequest.status (some h) = (ground arith, ground arith)

holder-seen : (now : Instant) (s : LeaseServer) → holder now s ≡ named (seen now s)
unfolding holder seen
holder-seen now none = refl
holder-seen now (some h) = ground arith

run-counts :
    (t end : Instant) (cs : List Call) (s : LeaseServer) (slot : Option Countdown)
    → seen t s ≡ pass 0 slot
    → IsTimed t cs
    → t ≤ end
    → All (λ c. c.now ≤ end) cs
    → ((run s cs).1 ≡ (countdown end t slot cs).1)
      × (seen end (run s cs).0 ≡ (countdown end t slot cs).0)
unfolding run countdown
run-counts t end [] s slot e timed le before = (refl, sym (seen-pass t end s slot le e))
run-counts t end (c ∷ cs) s slot e timed le before =
    let same = seen-pass t c.now s slot timed.0 e in
    let (reply, state) = handle-promised c.now c.buf c.req s in
    rw same (
      let (replies, final) =
        run-counts c.now end cs (handle c.now c.buf s c.req).0
          (promised c.buf (seen c.now s) c.req).0 state timed.1 before.0 before.1 in
      (ground (arith, reply, replies), final))

-- The server, which keeps the instant at which a lease ends and drops an ended lease only when it is
-- next asked, replies what a slot that counts down replies. Whatever requests come to a
-- new server, at instants that never go back: its replies are those of the slot, which is given only
-- while it is empty, for a lifetime of 5 to 3600 seconds, is renewed and emptied only by its id, and
-- empties itself at the moment at which its time is over; and at any instant from the last request
-- on, the holder that the server names is that of the slot.
pub run-countdown :
    (t end : Instant) (cs : List Call)
    → IsTimed t cs
    → t ≤ end
    → All (λ c. c.now ≤ end) cs
    → let (final, replies) = run new cs in
      let (slot, foretold) = countdown end t none cs in
      (replies ≡ foretold) × (holder end final ≡ named slot)
unfolding new seen pass
run-countdown t end cs timed le before =
    let (replies, final) = run-counts t end cs none none refl timed le before in
    (replies, holder-seen end (run none cs).0 ∙ ap named final)
