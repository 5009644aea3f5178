-- ===== src/Lease/Client/Sessions.antt =====
-- banc-host/src/net/lease.rs: any number of clients and the server together. A step is one roundtrip of
-- a client, as its loop makes it, or a client that begins or ends; a roundtrip may be lost on its
-- way to the server or back. Nobody else talks to the server. `since` is when the server handled the last request by which the
-- client was granted its lease or had it renewed.
mod Tests
use banc.Common.{ℕ, ◌+◌, ◌≤◌, ◌≡◌, ◌≢◌, Option, none, some, List, [], ◌∷◌, Result, ok, err, put}
use banc.Common.Text.{Text}
use banc.Common.Time.{Instant, Duration}
use banc.Lease.{
  LeaseRequest, LeaseReply, LeaseServer, renew, release, done, gone, handle, new, mint_lease_id,
}
use banc.Lease.Client.{
  ClientError, Acquired, got, refused, waiting, acquire_loop, acquire_request, default_ttl,
  reacquire, Renewer,
}

pub data Delivery (E : Type 0) : Type 0 where
  delivered : Delivery E
  reply_lost unsent : E → Delivery E

-- Where a client stands: without a lease and not asking for one, in the loop of
-- `LeaseClient::acquire`, at the head of the loop of `renew_loop`, or about to call `reacquire`.
pub data Stage (S : Type 0) : Type 0 where
  outside : Stage S
  asking : (deadline : Instant) (timeout : Duration) (stream : S) → Stage S
  renewing regaining : Renewer S → (since : Instant) → Stage S

pub record System (S : Type 0) : Type 0 where
  pub clock : Instant
  pub server : LeaseServer
  pub clients : ℕ → Stage S

module _ {E : Type 0} where
  -- A roundtrip that the server handles at `now`, if the request gets there.
  unfoldable pub exchange :
      Delivery E → Instant → List ℕ → LeaseServer → LeaseRequest → LeaseServer × Result E LeaseReply
  exchange delivered now buf state req =
      ((handle now buf state req).0, ok (handle now buf state req).1)
  exchange (reply_lost e) now buf state req = ((handle now buf state req).0, err e)
  exchange (unsent e) now buf state req = (state, err e)

module _ {E S : Type 0} where
  -- A client of `LeaseClient::acquire` after one answer, which it looks at at `at`.
  unfoldable pub after_ask :
      Instant → Instant → Duration → S → Instant → Result E LeaseReply → Stage S
  after_ask now deadline timeout stream at reply =
      elim (acquire_loop deadline timeout (record { reply = reply; at = at } ∷ [])) [
        | got id ↦ renewing (record { stream = stream; id = id }) now
        | refused e ↦ outside
        | waiting ↦ asking deadline timeout stream
      ]

  -- The match of `renew_loop` on the answer to a `Renew`, up to its calls of `reacquire`.
  unfoldable pub after_renew : Instant → Renewer S → Instant → Result E LeaseReply → Stage S
  after_renew now r since (ok done) = renewing r now
  after_renew now r since (ok gone) = regaining r since
  after_renew now r since (err e) = regaining r since
  after_renew now r since (ok other) = renewing r since

  -- Its matches on what `reacquire` returns.
  unfoldable pub after_reacquire :
      Instant → Renewer S → Instant → Result (ClientError E) (S × ℕ) → Stage S
  after_reacquire now r since (ok (s, id)) = renewing (record { stream = s; id = id }) now
  after_reacquire now r since (err e) = renewing r since

  -- `reacquire` against the server, with what its connect answers.
  unfoldable pub regain :
      Delivery E
      → Instant
      → List ℕ
      → LeaseServer
      → Text
      → Result E S
      → Renewer S
      → Instant
      → LeaseServer × Stage S
  regain d now buf state who (err e) r since =
      (state, after_reacquire now r since (reacquire (err e) (λ s. err e)))
  regain d now buf state who (ok stream) r since =
      let x = exchange d now buf state (acquire_request who default_ttl) in
      (x.0, after_reacquire now r since (reacquire (ok stream) (λ s. x.1)))

-- The lease that a client takes itself to hold, and since when.
abbrev pub lease_of : {S : Type 0} → Stage S → Option (ℕ × Instant)
lease_of outside = none
lease_of (asking deadline timeout stream) = none
lease_of (renewing r since) = some (r.id, since)
lease_of (regaining r since) = some (r.id, since)

abbrev pub move : {S : Type 0} → System S → Instant → LeaseServer → ℕ → Stage S → System S
move s now server i stage = record { clock = now; server = server; clients = put s.clients i stage }

-- The bytes that the OS RNG gives make an id that no client has.
abbrev pub Fresh : {S : Type 0} → System S → List ℕ → Type 0
Fresh s buf = (q : ℕ) (t : Instant) → lease_of (s.clients q) ≢ some (mint_lease_id buf, t)

-- One step of the client `i`, at `now`.
pub data Step (E : Type 0) {S : Type 0} (s : System S) (now : Instant) (i : ℕ) (s' : System S)
    : Type 0 where
  connects :
      (deadline : Instant) (timeout : Duration) (stream : S)
      → s.clients i ≡ outside
      → s' ≡ move s now s.server i (asking deadline timeout stream)
      → Step E s now i s'
  asks :
      (d : Delivery E) (buf : List ℕ) (who : Text) (deadline : Instant) (timeout : Duration)
      (stream : S) (at : Instant)
      → s.clients i ≡ asking deadline timeout stream
      → Fresh s buf
      → (let x = exchange d now buf s.server (acquire_request who default_ttl) in
          s' ≡ move s now x.0 i (after_ask now deadline timeout stream at x.1))
      → Step E s now i s'
  renews :
      (d : Delivery E) (buf : List ℕ) (r : Renewer S) (since : Instant)
      → s.clients i ≡ renewing r since
      → (let x = exchange d now buf s.server (renew r.id) in
          s' ≡ move s now x.0 i (after_renew now r since x.1))
      → Step E s now i s'
  regains :
      (d : Delivery E) (buf : List ℕ) (who : Text) (connected : Result E S) (r : Renewer S)
      (since : Instant)
      → s.clients i ≡ regaining r since
      → Fresh s buf
      → (let x = regain d now buf s.server who connected r since in s' ≡ move s now x.0 i x.1)
      → Step E s now i s'
  releases :
      (d : Delivery E) (buf : List ℕ) (r : Renewer S) (since : Instant)
      → s.clients i ≡ renewing r since
      → s' ≡ move s now (exchange d now buf s.server (release r.id)).0 i outside
      → Step E s now i s'
  killed : s' ≡ move s now s.server i outside → Step E s now i s'
  -- `query_status`, of a client that does not contend for the lease.
  queries :
      (d : Delivery E) (buf : List ℕ)
      → s' ≡ record s { clock = now; server = (exchange d now buf s.server LeaseRequest.status).0 }
      → Step E s now i s'

-- The systems that a new server and clients outside come to, at instants that never go back.
pub data Reach (E : Type 0) {S : Type 0} : System S → Type 0 where
  first : (t : Instant) → Reach E (record { clock = t; server = new; clients = λ i. outside })
  later :
      {s s' : System S} (now : Instant) (i : ℕ)
      → Reach E s
      → s.clock ≤ now
      → Step E s now i s'
      → Reach E s'
