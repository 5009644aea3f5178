-- ===== src/Lease/Client/Sessions/Tests.antt =====
-- banc-host/src/net/lease.rs: two clients at one server.
use banc.Common.{ℕ, ◌+◌, ◌≤◌, ◌≡◌, refl, List, [], ◌∷◌, arith, put, ◌==◌, ok, Bool-cases, inl, inr}
use banc.Common.Text.{Text, codes}
use banc.Common.Time.{Instant, from_secs}
use banc.Lease.{
  acquire, release, granted, handle, new, expire, dispatch, grant, clamp_ttl, mint_lease_id,
  from_le_bytes, renew,
}
use banc.Lease.Client.{default_ttl, acquire_loop}
use banc.Lease.Client.Sessions.{
  delivered, reply_lost, exchange, outside, asking, renewing, System, after_ask, after_renew,
  regain, move, Fresh, connects, asks, renews, Reach, first, later,
}
use banc.Lease.Client.Sole.{one_holder}
use banc.Lease.Client.Handover.{handed_over, regain_refused, renewal_acknowledged}
use banc.Lease.{holder}

abbrev alice : Text
alice = codes "alice"

abbrev bob : Text
bob = codes "bob"

-- Alice, who is client 0, has asked and was granted the lease 7 one second after the start.
abbrev start : System ℕ
start = record { clock = 0; server = new; clients = λ i. outside }

abbrev alice_asks : System ℕ
alice_asks = move start 0 start.server 0 (asking (from_secs 9) (from_secs 9) 100)

abbrev granted_at : Instant → System ℕ → ℕ → ℕ → List ℕ → Text → ℕ → System ℕ
granted_at now s id i buf who stream =
    move s now (handle now buf s.server (acquire who 60)).0 i
      (renewing (record { stream = stream; id = id }) now)

abbrev alice_has : System ℕ
alice_has = granted_at (from_secs 1) alice_asks 7 0 (7 ∷ []) alice 100

unused_7 : Fresh alice_asks (7 ∷ [])
unfolding put
unused_7 q t = elim (Bool-cases (0 == q)) [
  | inl e ↦ λ f. ground (arith, e, f)
  | inr e ↦ λ f. ground (arith, e, f)
]

reach_asks : Reach Text alice_asks
reach_asks = later 0 0 (first 0) (omega arith) (connects (from_secs 9) (from_secs 9) 100 refl refl)

reach_alice : Reach Text alice_has
unfolding exchange after_ask acquire_loop handle expire dispatch grant new clamp_ttl mint_lease_id
    from_le_bytes put
reach_alice =
    later (from_secs 1) 0 reach_asks (omega arith) (
      asks delivered (7 ∷ []) alice (from_secs 9) (from_secs 9) 100 (from_secs 1) refl unused_7
        refl)

-- She was not heard for a minute; Bob, who is client 1, is granted the lease 8. Both count on a lease.
abbrev bob_asks : System ℕ
bob_asks =
    move alice_has (from_secs 62) alice_has.server 1 (asking (from_secs 70) (from_secs 9) 200)

abbrev bob_has : System ℕ
bob_has = granted_at (from_secs 62) bob_asks 8 1 (8 ∷ []) bob 200

unused_8 : Fresh bob_asks (8 ∷ [])
unfolding put mint_lease_id from_le_bytes
unused_8 q t = elim (Bool-cases (0 == q)) [
  | inl e ↦ λ f. ground (arith, e, f)
  | inr e ↦ elim (Bool-cases (1 == q)) [
    | inl e' ↦ λ f. ground (arith, e, e', f)
    | inr e' ↦ λ f. ground (arith, e, e', f)
  ]
]

reach_bob : Reach Text bob_has
unfolding exchange after_ask acquire_loop handle expire dispatch grant new clamp_ttl mint_lease_id
    from_le_bytes put
reach_bob =
    later (from_secs 62) 1
      (later (from_secs 62) 1 reach_alice (omega arith)
        (connects (from_secs 70) (from_secs 9) 200 refl refl))
      (omega arith)
      (asks delivered (8 ∷ []) bob (from_secs 70) (from_secs 9) 200 (from_secs 62) refl unused_8
        refl)

one_holder_example : from_secs 1 + default_ttl ≤ from_secs 62
unfolding put
one_holder_example =
    one_holder bob_has 1 0 8 7 (from_secs 62) (from_secs 1) reach_bob (omega arith) refl refl
      (omega arith)

handed_over_example :
    (handle
      (from_secs 30)
      (9 ∷ [])
      (exchange {E = Text} delivered (from_secs 30) [] alice_has.server (release 7)).0
      (acquire bob 60)).1
    ≡ granted (mint_lease_id (9 ∷ []))
unfolding put
handed_over_example =
    handed_over {E = Text} alice_has 0 (record { stream = 100; id = 7 }) (from_secs 1)
      (from_secs 30) (from_secs 30) [] (9 ∷ []) bob 60 reach_alice refl (omega arith) (omega arith)

-- The answer to her first renewal is lost.
abbrev alice_unsure : System ℕ
alice_unsure =
    let x = exchange (reply_lost (codes "reset")) (from_secs 21) [] alice_has.server (renew 7) in
    move alice_has (from_secs 21) x.0 0
      (after_renew (from_secs 21) (record { stream = 100; id = 7 }) (from_secs 1) x.1)

reach_unsure : Reach Text alice_unsure
unfolding put
reach_unsure = later (from_secs 21) 0 reach_alice (omega arith) (
    renews (reply_lost (codes "reset")) [] (record { stream = 100; id = 7 }) (from_secs 1) refl
      refl)

regain_refused_example :
    regain {E = Text} {S = ℕ} delivered
      (from_secs 22)
      (9 ∷ [])
      alice_unsure.server
      alice
      (ok 101)
      (record { stream = 100; id = 7 })
      (from_secs 1)
    ≡ (alice_unsure.server, renewing (record { stream = 100; id = 7 }) (from_secs 1))
unfolding put exchange after_renew
regain_refused_example =
    regain_refused {E = Text} alice_unsure 0 (record { stream = 100; id = 7 }) (from_secs 1)
      (from_secs 22) (9 ∷ []) alice 101 reach_unsure refl (omega arith) (omega arith)

renewal_acknowledged_example :
    (let x = exchange {E = Text} delivered (from_secs 21) [] alice_has.server (renew 7) in
      (after_renew {S = ℕ} (from_secs 21) (record { stream = 100; id = 7 }) (from_secs 1) x.1
        ≡ renewing (record { stream = 100; id = 7 }) (from_secs 21))
      × (holder (from_secs 80) x.0 ≡ holder (from_secs 21) alice_has.server))
unfolding put
renewal_acknowledged_example =
    renewal_acknowledged {E = Text} alice_has 0 (record { stream = 100; id = 7 }) (from_secs 1)
      (from_secs 21) (from_secs 80) [] reach_alice refl (omega arith) (omega arith) (omega arith)
