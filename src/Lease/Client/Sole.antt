-- ===== src/Lease/Client/Sole.antt =====
-- banc-host/src/net/lease.rs: the clients that the server has heard within the TTL.
use banc.Common.{ℕ, ◌+◌, ◌≤◌, ◌<◌, ◌≡◌, ◌≢◌, refl, sym, subst, none, some, List, arith, put, Result}
use Prim.{absurd}
use native.Mathlib.Decide.{dec_le}
use banc.Common.Text.{Text}
use banc.Common.Time.{Instant, Duration}
use banc.Lease.{LeaseRequest, acquire, renew, release, mint_lease_id, new}
use banc.Lease.Client.{acquire_request, default_ttl, Renewer}
use banc.Lease.Client.Sessions.{
  Delivery, exchange, Stage, outside, asking, renewing, regaining, System, after_ask, after_renew,
  regain, lease_of, move, Fresh, Step, connects, asks, renews, regains, releases, killed, queries,
  Reach, first, later,
}
use banc.Lease.Client.Fencing.{exchange-Standard, exchange-Keeps, one_lease}
use banc.Lease.Client.Justified.{Own, ask-Own, renew-Own, regain-Own, regain-Standard, regain-Keeps}
use banc.Lease.Client.Holding.{Inv, move-Inv}

-- A client that has no lease after its step, and does not touch the server.
quiet-Inv :
    {S : Type 0} (s : System S) (now : Instant) (i : ℕ)
    → Inv s
    → s.clock ≤ now
    → (stage : Stage S) → lease_of stage ≡ none
    → Inv (move s now s.server i stage)
quiet-Inv s now i v le stage e =
    move-Inv s now s.server i stage none v le (λ id t f. ground (arith, e, f))
      (λ q id t f. ground (arith, f)) (λ q id t o f lt past k. k) v.standard

module _ {E S : Type 0} (s : System S) (now : Instant) (i : ℕ) (v : Inv s)
    (le : s.clock ≤ now) where
  ask-Inv :
      (d : Delivery E) (buf : List ℕ) (who : Text) (deadline : Instant) (timeout : Duration)
      (stream : S) (at : Instant)
      → s.clients i ≡ asking deadline timeout stream
      → Fresh s buf
      → (let x = exchange d now buf s.server (acquire_request who default_ttl) in
          Inv (move s now x.0 i (after_ask now deadline timeout stream at x.1)))
  ask-Inv d buf who deadline timeout stream at e fresh =
      let x = exchange d now buf s.server (acquire who 60) in
      let had : lease_of (s.clients i) ≡ none = ground (arith, e) in
      move-Inv s now x.0 i (after_ask now deadline timeout stream at x.1) (some (mint_lease_id buf))
        v le
        (subst
          (λ o.
            Own x.0 now (some (mint_lease_id buf)) o
              (lease_of (after_ask now deadline timeout stream at x.1)))
          (sym had) (ask-Own d s.server now buf who deadline timeout stream at))
        (λ q id t f g. fresh q t (ground (arith, f, g)))
        (λ q id t o f lt past k.
          exchange-Keeps d s.server now (t + default_ttl) buf (acquire who 60) id v.standard k lt
            (omega (arith, past)) (λ p. ground (arith, p)))
        (exchange-Standard d s.server now buf (acquire who 60) v.standard refl)

  renew-Inv :
      (d : Delivery E) (buf : List ℕ) (r : Renewer S) (since : Instant)
      → s.clients i ≡ renewing r since
      → (let x = exchange d now buf s.server (renew r.id) in
          Inv (move s now x.0 i (after_renew now r since x.1)))
  renew-Inv d buf r since e =
      let x = exchange d now buf s.server (renew r.id) in
      let had : lease_of (s.clients i) ≡ some (r.id, since) = ground (arith, e) in
      move-Inv s now x.0 i (after_renew now r since x.1) none v le
        (subst (λ o. Own x.0 now none o (lease_of (after_renew now r since x.1))) (sym had)
          (renew-Own d s.server now buf r since v.standard))
        (λ q id t f. ground (arith, f))
        (λ q id t o f lt past k.
          exchange-Keeps d s.server now (t + default_ttl) buf (renew r.id) id v.standard k lt
            (omega (arith, past)) (λ p. ground (arith, p)))
        (exchange-Standard d s.server now buf (renew r.id) v.standard tt)

  regain-Inv :
      (d : Delivery E) (buf : List ℕ) (who : Text) (connected : Result E S) (r : Renewer S)
      (since : Instant)
      → s.clients i ≡ regaining r since
      → Fresh s buf
      → (let x = regain d now buf s.server who connected r since in Inv (move s now x.0 i x.1))
  regain-Inv d buf who connected r since e fresh =
      let x = regain d now buf s.server who connected r since in
      let had : lease_of (s.clients i) ≡ some (r.id, since) = ground (arith, e) in
      move-Inv s now x.0 i x.1 (some (mint_lease_id buf)) v le
        (subst (λ o. Own x.0 now (some (mint_lease_id buf)) o (lease_of x.1)) (sym had)
          (regain-Own d s.server now buf who connected r since))
        (λ q id t f g. fresh q t (ground (arith, f, g)))
        (λ q id t o f lt past k.
          regain-Keeps d s.server now (t + default_ttl) buf who connected r since id v.standard k lt
            (omega (arith, past)))
        (regain-Standard d s.server now buf who connected r since v.standard)

  -- A client that releases its lease leaves that of the others.
  release-Inv :
      (d : Delivery E) (buf : List ℕ) (r : Renewer S) (since : Instant)
      → s.clients i ≡ renewing r since
      → Inv (move s now (exchange d now buf s.server (release r.id)).0 i outside)
  unfolding put
  release-Inv d buf r since e =
      let mine : lease_of (s.clients i) ≡ some (r.id, since) = ground (arith, e) in
      move-Inv s now (exchange d now buf s.server (release r.id)).0 i outside none v le
        (λ id t f. ground (arith, f)) (λ q id t f. ground (arith, f))
        (λ q id t o f lt past k.
          exchange-Keeps d s.server now (t + default_ttl) buf (release r.id) id v.standard k lt
            (omega (arith, past))
            (λ p.
              let same : r.id ≡ id = ground (arith, p) in
              let j = v.distinct i q id since t (ground (arith, mine, same)) o in
              ground (arith, f, j)))
        (exchange-Standard d s.server now buf (release r.id) v.standard tt)

  query-Inv :
      (d : Delivery E) (buf : List ℕ)
      → Inv (record s { clock = now; server = (exchange d now buf s.server LeaseRequest.status).0 })
  query-Inv d buf = record {
    standard = exchange-Standard d s.server now buf LeaseRequest.status v.standard tt;
    past = λ q id t o. omega (arith, v.past q id t o);
    backed = λ q id t o lt.
        exchange-Keeps d s.server now (t + default_ttl) buf LeaseRequest.status id v.standard
          (v.backed q id t o (omega arith)) lt (omega (arith, v.past q id t o))
          (λ p. ground (arith, p));
    distinct = v.distinct;
  }

  step-Inv : (s' : System S) → Step E s now i s' → Inv s'
  step-Inv s' (connects deadline timeout stream e f) =
      subst Inv (sym f) (quiet-Inv s now i v le _ refl)
  step-Inv s' (asks d buf who deadline timeout stream at e fresh f) =
      subst Inv (sym f) (ask-Inv d buf who deadline timeout stream at e fresh)
  step-Inv s' (renews d buf r since e f) = subst Inv (sym f) (renew-Inv d buf r since e)
  step-Inv s' (regains d buf who connected r since e fresh f) =
      subst Inv (sym f) (regain-Inv d buf who connected r since e fresh)
  step-Inv s' (releases d buf r since e f) = subst Inv (sym f) (release-Inv d buf r since e)
  step-Inv s' (killed f) = subst Inv (sym f) (quiet-Inv s now i v le _ refl)
  step-Inv s' (queries d buf f) = subst Inv (sym f) (query-Inv d buf)

-- Every system that is reached fulfils the invariant.
pub reach-Inv : {E S : Type 0} {s : System S} → Reach E s → Inv s
unfolding new
reach-Inv (first t) = record {
  standard = tt;
  past = λ i id u e. ground (arith, e);
  backed = λ i id u e lt. ground (arith, e);
  distinct = λ i j id u w e f. ground (arith, e);
}
reach-Inv (later now i r le u) = step-Inv _ now i (reach-Inv r) le _ u

in_time :
    {S : Type 0} (s : System S) (i j id id' : ℕ) (t u : Instant)
    → Inv s
    → lease_of (s.clients i) ≡ some (id, t)
    → lease_of (s.clients j) ≡ some (id', u)
    → s.clock < t + default_ttl
    → s.clock < u + default_ttl
    → i ≡ j
in_time s i j id id' t u v e f lt lt' =
    let same : id ≡ id' =
      one_lease s.server id id' _ _ (v.backed i id t e lt) (v.backed j id' u f lt') in
    v.distinct i j id' t u (ground (arith, e, same)) f

-- However the roundtrips of the clients interleave, and whichever of them are lost on the way or
-- back: while the last 60 seconds saw a client granted its lease, or its lease renewed, any other
-- client that counts on a lease was last granted or renewed 60 seconds ago or more. The server mints
-- no id that a client has.
pub one_holder :
    {E S : Type 0} (s : System S) (i j id id' : ℕ) (t u : Instant)
    → Reach E s
    → i ≢ j
    → lease_of (s.clients i) ≡ some (id, t)
    → lease_of (s.clients j) ≡ some (id', u)
    → s.clock < t + default_ttl
    → u + default_ttl ≤ s.clock
one_holder s i j id id' t u r ne e f lt = elim (dec_le (u + default_ttl) s.clock) [
  | yes le ↦ le
  | no gt ↦ absurd (ne (in_time s i j id id' t u (reach-Inv r) e f lt (omega arith)))
]
