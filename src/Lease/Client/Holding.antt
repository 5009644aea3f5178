-- ===== src/Lease/Client/Holding.antt =====
-- banc-host/src/net/lease.rs: what holds of the clients and the server whenever they are looked at.
use banc.Common.{
  ℕ, ◌+◌, ◌≤◌, ◌<◌, ◌≡◌, ◌≢◌, inl, inr, sym, subst, Option, some, arith, put, ◌==◌, Bool-cases,
}
use Prim.{absurd}
use banc.Common.Time.{Instant}
use banc.Lease.{LeaseServer}
use banc.Lease.Client.{default_ttl}
use banc.Lease.Client.Sessions.{Stage, System, lease_of, move}
use banc.Lease.Client.Fencing.{Keeps, Standard}
use banc.Lease.Client.Justified.{Own}

pub record Inv {S : Type 0} (s : System S) : Type 0 where
  pub standard : Standard s.server
  pub past : (i id : ℕ) (t : Instant) → lease_of (s.clients i) ≡ some (id, t) → t ≤ s.clock
  pub backed :
      (i id : ℕ) (t : Instant)
      → lease_of (s.clients i) ≡ some (id, t)
      → s.clock < t + default_ttl
      → Keeps s.server id (t + default_ttl)
  pub distinct :
      (i j id : ℕ) (t u : Instant)
      → lease_of (s.clients i) ≡ some (id, t)
      → lease_of (s.clients j) ≡ some (id, u)
      → i ≡ j

module _ {S : Type 0} (s : System S) (now : Instant) (server : LeaseServer) (i : ℕ)
    (stage : Stage S) (minted : Option ℕ) (v : Inv s) (le : s.clock ≤ now)
    (own : Own server now minted (lease_of (s.clients i)) (lease_of stage))
    (fresh : (q id : ℕ) (t : Instant)
      → minted ≡ some id
      → lease_of (s.clients q) ≢ some (id, t)) where
  move-past : (q id : ℕ) (t : Instant) → lease_of (put s.clients i stage q) ≡ some (id, t) → t ≤ now
  unfolding put
  move-past q id t e = elim (Bool-cases (i == q)) [
    | inl f ↦ elim (own id t (ground (arith, e, f))) [
      | inl o ↦ ground (arith, v.past i id t o)
      | inr o ↦ ground (arith, o)
    ]
    | inr f ↦
        let o : lease_of (s.clients q) ≡ some (id, t) = ground (arith, e, f) in
        ground (arith, v.past q id t o)
  ]

  -- No other client has the lease that the client has after its step.
  own-alone :
      (q id : ℕ) (t u : Instant)
      → lease_of stage ≡ some (id, t)
      → lease_of (s.clients q) ≡ some (id, u)
      → i ≡ q
  own-alone q id t u e f = elim (own id t e) [
    | inl o ↦ v.distinct i q id t u o f
    | inr (a, k, inl m) ↦ absurd (fresh q id u m f)
    | inr (a, k, inr (w, o)) ↦ v.distinct i q id w u o f
  ]

  move-distinct :
      (a b id : ℕ) (t u : Instant)
      → lease_of (put s.clients i stage a) ≡ some (id, t)
      → lease_of (put s.clients i stage b) ≡ some (id, u)
      → a ≡ b
  unfolding put
  move-distinct a b id t u e f = elim (Bool-cases (i == a)) [
    | inl x ↦ elim (Bool-cases (i == b)) [
      | inl y ↦ ground (arith, x, y)
      | inr y ↦
          let p = own-alone b id t u (ground (arith, e, x)) (ground (arith, f, y)) in
          ground (arith, x, p)
    ]
    | inr x ↦ elim (Bool-cases (i == b)) [
      | inl y ↦
          let p = own-alone a id u t (ground (arith, f, y)) (ground (arith, e, x)) in
          ground (arith, y, p)
      | inr y ↦ v.distinct a b id t u (ground (arith, e, x)) (ground (arith, f, y))
    ]
  ]

  module _
      (spared : (q id : ℕ) (t : Instant)
        → lease_of (s.clients q) ≡ some (id, t)
        → lease_of (put s.clients i stage q) ≡ some (id, t)
        → now < t + default_ttl
        → t ≤ now
        → Keeps s.server id (t + default_ttl)
        → Keeps server id (t + default_ttl)) where
    still :
        (q id : ℕ) (t : Instant)
        → lease_of (s.clients q) ≡ some (id, t)
        → lease_of (put s.clients i stage q) ≡ some (id, t)
        → now < t + default_ttl
        → Keeps server id (t + default_ttl)
    still q id t o e lt =
        spared q id t o e lt (omega (arith, v.past q id t o))
          (v.backed q id t o (omega (arith, v.past q id t o)))

    move-backed :
        (q id : ℕ) (t : Instant)
        → lease_of (put s.clients i stage q) ≡ some (id, t)
        → now < t + default_ttl
        → Keeps server id (t + default_ttl)
    unfolding put
    move-backed q id t e lt = elim (Bool-cases (i == q)) [
      | inl f ↦ elim (own id t (ground (arith, e, f))) [
        | inl o ↦ still q id t (ground (arith, o, f)) e lt
        | inr o ↦ subst (λ x. Keeps server id (x + default_ttl)) (sym o.0) o.1
      ]
      | inr f ↦ still q id t (ground (arith, e, f)) e lt
    ]

    pub move-Inv : Standard server → Inv (move s now server i stage)
    move-Inv std = record {
      standard = std;
      past = move-past;
      backed = move-backed;
      distinct = move-distinct;
    }
