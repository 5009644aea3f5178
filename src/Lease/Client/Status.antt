-- ===== src/Lease/Client/Status.antt =====
-- banc-host/src/net/lease.rs: a status query from end to end, the client against the daemon.
use banc.Common.{
  ℕ, ◌≡◌, refl, sym, ap, subst, ◌∙◌, true, none, some, List, [], ◌∷◌, ◌++◌, arith, Result, ok, leb,
  Bool-cases, inl, inr,
}
use mathlib.Core.List.{append-nil}
use banc.Common.Text.{Text, IsText}
use banc.Common.Time.{Instant}
use banc.Net.{
  NetError, Stream, Codec, Role, Hello, HelloReply, accepted, denied, handshake_server, token_eq,
}
use banc.Net.Frames.{frame, receiving}
use banc.Net.Handshake.{Fits, hello, sent, server_replies}
use banc.Net.Token.{token_eq_iff}
use banc.Lease.{
  LeaseRequest, LeaseReply, LeaseServer, handle, Call, expire, dispatch, remaining_s, holder,
}
use banc.Lease.Serve.{Tick, hung_up, Session, serve_conn, serve-step, serve-end}
use banc.Lease.Client.{LeaseStatus, query_status}
use banc.Lease.Client.Wire.{connect_timeout, connected_roundtrip, ask, connected_reads}

-- What the server answers to a status query.
status_reply :
    (now : Instant) (buf : List ℕ) (state : LeaseServer)
    → (s : LeaseStatus) × ((handle now buf state LeaseRequest.status).1
        ≡ LeaseReply.status s.holder s.expires_in_s)
      × (s.holder ≡ holder now state)
unfolding handle expire dispatch holder
status_reply now buf none = (record { holder = none; expires_in_s = 0 }, refl, refl)
status_reply now buf (some h) = elim (Bool-cases (leb h.expires_at now)) [
  | inl e ↦ (record { holder = none; expires_in_s = 0 }, ground (arith, e), ground (arith, e))
  | inr e ↦ (
    record { holder = some h.holder; expires_in_s = remaining_s now h },
    ground (arith, e),
    ground (arith, e),
  )
]

module _ (hellos : Codec Hello) (hello_replies : Codec HelloReply) (requests : Codec LeaseRequest)
    (replies : Codec LeaseReply) (enc : LeaseRequest → List ℕ) (enc' : LeaseReply → List ℕ) where
  -- What the client of a status query writes: the frames of its hello and of the request.
  abbrev pub asked : List ℕ → List ℕ
  asked bs = frame bs ++ frame (enc LeaseRequest.status)

  -- The daemon's half of the handshake on that.
  abbrev pub admitted : Text → Text → List ℕ → Result NetError Role × Stream
  admitted token rig bs = handshake_server hellos hello_replies token rig (receiving (asked bs))

  -- What the daemon does with the connection then, at the ticks of the request and of the hang-up.
  abbrev pub served : Text → Text → List ℕ → Tick → Tick → LeaseServer → Session
  served token rig bs tick last state =
      serve_conn requests replies (tick ∷ last ∷ []) state (admitted token rig bs).1

  served_lem :
      (token rig : Text) (bs ok_bs no_bs : List ℕ) (tick last : Tick) (state : LeaseServer)
      → Fits hellos (hello Role.lease token) bs
      → Fits hello_replies (accepted rig) ok_bs
      → Fits hello_replies denied no_bs
      → Fits requests LeaseRequest.status (enc LeaseRequest.status)
      → Fits replies
          (handle tick.now tick.buf state LeaseRequest.status).1
          (enc' (handle tick.now tick.buf state LeaseRequest.status).1)
      → IsText token
      → ((admitted token rig bs).0 ≡ ok Role.lease)
        × (served token rig bs tick last state ≡ record {
          end = hung_up;
          state = (handle tick.now tick.buf state LeaseRequest.status).0;
          stream = record {
            incoming = [];
            outgoing =
                frame ok_bs ++ frame (enc' (handle tick.now tick.buf state LeaseRequest.status).1);
          };
        })
  served_lem token rig bs ok_bs no_bs tick last state f g n h k t =
      let same : token_eq token token ≡ true = (token_eq_iff token token t t).1 refl in
      let req = enc LeaseRequest.status in
      let call : Call = record { now = tick.now; buf = tick.buf; req = LeaseRequest.status } in
      let reply = enc' (handle tick.now tick.buf state LeaseRequest.status).1 in
      let state' = (handle tick.now tick.buf state LeaseRequest.status).0 in
      let replied =
        server_replies hellos hello_replies Role.lease token token rig bs ok_bs no_bs (frame req) f
          g n in
      let a : admitted token rig bs ≡ (ok Role.lease, sent (frame req) ok_bs) =
        ground (arith, replied, same) in
      let left : Stream = record { incoming = []; outgoing = frame ok_bs ++ frame reply } in
      let step : serve_conn requests replies (tick ∷ last ∷ []) state (sent (frame req) ok_bs)
          ≡ serve_conn requests replies (last ∷ []) state' left =
        subst
          (λ x.
            serve_conn requests replies (tick ∷ last ∷ []) state
              (record { incoming = x; outgoing = frame ok_bs })
            ≡ serve_conn requests replies (last ∷ []) state' left)
          (append-nil (frame req))
          (serve-step requests replies enc enc' call (last ∷ []) state [] (frame ok_bs) h k) in
      (
        ap (λ x. x.0) a,
        ap (λ x. serve_conn requests replies (tick ∷ last ∷ []) state x.1) a
            ∙ step
            ∙ serve-end requests replies enc enc' last state' left refl,
      )

  -- A status query from end to end: where the client's token is that of the daemon, the daemon admits
  -- the client for leases, serves its request and ends well when it hangs up; the client writes just
  -- the frames that the daemon read, and reports the holder that the server has at the instant of
  -- the request. The name service and the network give the client a connection to the daemon; the
  -- messages encode within the frame limit, and the token is a text.
  pub status_over_wire :
      {E Addr : Type 0} (tcp : Addr → Result E Stream) (addrs : Result E (List Addr))
      (token rig : Text) (bs ok_bs no_bs : List ℕ) (tick last : Tick) (state : LeaseServer)
      → Fits hellos (hello Role.lease token) bs
      → Fits hello_replies (accepted rig) ok_bs
      → Fits hello_replies denied no_bs
      → Fits requests LeaseRequest.status (enc LeaseRequest.status)
      → Fits replies
          (handle tick.now tick.buf state LeaseRequest.status).1
          (enc' (handle tick.now tick.buf state LeaseRequest.status).1)
      → IsText token
      → connect_timeout tcp addrs
        ≡ ok (receiving (served token rig bs tick last state).stream.outgoing)
      → ((admitted token rig bs).0 ≡ ok Role.lease)
        × ((served token rig bs tick last state).end ≡ hung_up)
        × ((connected_roundtrip hellos hello_replies requests replies token LeaseRequest.status
              (receiving (served token rig bs tick last state).stream.outgoing)).1.outgoing
            ≡ asked bs)
        × (s : LeaseStatus) × (query_status
              (ask hellos hello_replies requests replies tcp addrs token LeaseRequest.status)
            ≡ ok s)
        × (s.holder ≡ holder tick.now state)
  unfolding ask query_status
  status_over_wire tcp addrs token rig bs ok_bs no_bs tick last state f g n h k t e =
      let (a, d) = served_lem token rig bs ok_bs no_bs tick last state f g n h k t in
      let (s, r, same) = status_reply tick.now tick.buf state in
      let reply = (handle tick.now tick.buf state LeaseRequest.status).1 in
      let c =
        connected_reads hellos hello_replies requests replies enc token rig LeaseRequest.status
          reply bs ok_bs (enc' reply) f g h k in
      let o = ap (λ x. x.stream.outgoing) d in
      let c' =
        subst
          (λ x.
            connected_roundtrip hellos hello_replies requests replies token LeaseRequest.status
              (receiving x)
            ≡ (ok reply, record { incoming = []; outgoing = asked bs }))
          (sym o) c in
      let answered : ask hellos hello_replies requests replies tcp addrs token LeaseRequest.status
          ≡ ok reply =
        ground (arith, e, c') in
      (
        a,
        ap (λ x. x.end) d,
        ap (λ x. x.1.outgoing) c',
        s,
        ap query_status answered ∙ ap (λ x. query_status (ok x)) r,
        same,
      )
