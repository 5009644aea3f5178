-- ===== src/Lease/Client/Asking.antt =====
-- banc-host/src/net/lease.rs: `LeaseClient::acquire` from end to end, its loop on the connection
-- against the loop of the daemon.
mod Tests
use banc.Common.{
  ℕ, ◌<◌, ◌≡◌, refl, sym, ap, subst, ◌∙◌, true, false, none, some, List, [], ◌∷◌, ◌++◌, arith,
  Result, ok, err, leb, All, map, ap₂, Bool-cases, inl, inr,
}
use mathlib.Core.List.{append-nil, append_assoc}
use banc.Common.Text.{Text, IsText}
use banc.Common.Time.{Instant, Duration}
use banc.Net.{
  NetError, Stream, Codec, Role, Hello, HelloReply, accepted, denied, handshake_server, token_eq,
  handshake_client_sync,
}
use banc.Net.Frames.{frame, receiving}
use banc.Net.Handshake.{Fits, hello, sent, server_replies, client_reads}
use banc.Net.Token.{token_eq_iff}
use banc.Lease.{LeaseRequest, LeaseReply, LeaseServer, granted, busy, done, gone, handle, run, Call}
use Prim.{absurd}
use banc.Lease.Client.Acquire.{busy_waits}
use banc.Lease.Serve.{Tick, hung_up, Session, serve_conn, serve-run, frames, ticks}
use banc.Lease.Client.{
  Answer, Acquired, got, refused, waiting, failed, gave_up, unexpected, acquire_loop,
}
use banc.Lease.Client.Wire.{connect_timeout, connect, roundtrip, roundtrip_reads}
use banc.Lease.Client.Dialogue.{answers, asks, Turns, acquire_on, turns}

module _ (hellos : Codec Hello) (hello_replies : Codec HelloReply) (requests : Codec LeaseRequest)
    (replies : Codec LeaseReply) where
  asks-Fits :
      (enc : LeaseRequest → List ℕ) (req : LeaseRequest) (ts : List Tick)
      → Fits requests req (enc req)
      → All (λ c. Fits requests c.req (enc c.req)) (asks req ts)
  asks-Fits enc req [] h = tt
  asks-Fits enc req (t ∷ ts) h = (h, asks-Fits enc req ts h)

  -- What the client writes on its connection: the frames of its hello and of its questions.
  abbrev pub written : (LeaseRequest → List ℕ) → List ℕ → LeaseRequest → List Tick → List ℕ
  written enc bs req ts = frame bs ++ frames requests replies enc (map (λ c. c.req) (asks req ts))

  -- The daemon's half of the handshake on that, and what it does with the connection then.
  abbrev pub admitting : (token rig : Text) → List ℕ → Result NetError Role × Stream
  admitting token rig input = handshake_server hellos hello_replies token rig (receiving input)

  abbrev pub serving :
      (token rig : Text) → List ℕ → LeaseRequest → List Tick → Tick → LeaseServer → Session
  serving token rig input req ts last state =
      serve_conn requests replies (ticks requests replies (λ r. []) (λ r. []) (asks req ts) last)
        state (admitting token rig input).1

  served_lem :
      (enc : LeaseRequest → List ℕ) (enc' : LeaseReply → List ℕ) (token rig : Text)
      (bs ok_bs no_bs : List ℕ) (req : LeaseRequest) (ts : List Tick) (last : Tick)
      (state : LeaseServer)
      → Fits hellos (hello Role.lease token) bs
      → Fits hello_replies (accepted rig) ok_bs
      → Fits hello_replies denied no_bs
      → Fits requests req (enc req)
      → All (λ r. Fits replies r (enc' r)) (run state (asks req ts)).1
      → IsText token
      → ((admitting token rig (written enc bs req ts)).0 ≡ ok Role.lease)
        × (serving token rig (written enc bs req ts) req ts last state ≡ record {
          end = hung_up;
          state = (run state (asks req ts)).0;
          stream = record {
            incoming = [];
            outgoing = frame ok_bs ++ frames requests replies enc' (run state (asks req ts)).1;
          };
        })
  served_lem enc enc' token rig bs ok_bs no_bs req ts last state f g n h k t =
      let same : token_eq token token ≡ true = (token_eq_iff token token t t).1 refl in
      let sends = frames requests replies enc (map (λ c. c.req) (asks req ts)) in
      let replied =
        server_replies hellos hello_replies Role.lease token token rig bs ok_bs no_bs sends f g n in
      let a : admitting token rig (written enc bs req ts) ≡ (ok Role.lease, sent sends ok_bs) =
        ground (arith, replied, same) in
      (
        ap (λ x. x.0) a,
        ap
              (λ x.
                serve_conn requests replies
                  (ticks requests replies (λ r. []) (λ r. []) (asks req ts) last) state x.1)
              a
            ∙ serve-run requests replies enc enc' (asks req ts) last state (frame ok_bs)
                (asks-Fits enc req ts h) k,
      )

  -- An acquisition from end to end, however often the client is told that the rig is busy: where its
  -- token is that of the daemon, it is admitted for leases; the daemon hands each of its questions
  -- to the lease in turn and ends well when it hangs up; the client's loop comes out as on the
  -- answers that the lease gave, in their order; and it writes just the frames that the daemon has
  -- read. The client asks until an answer is other than busy, or comes too late; no other connection
  -- asks the lease in between; the messages encode within the frame limit, and the token is a text.
  pub acquire_over_wire :
      {E Addr : Type 0} (tcp : Addr → Result E Stream) (addrs : Result E (List Addr))
      (enc : LeaseRequest → List ℕ) (enc' : LeaseReply → List ℕ) (token rig : Text)
      (bs ok_bs no_bs : List ℕ) (deadline : Instant) (timeout : Duration) (req : LeaseRequest)
      (ts : List Tick) (last : Tick) (nows : List Instant) (state : LeaseServer)
      → Fits hellos (hello Role.lease token) bs
      → Fits hello_replies (accepted rig) ok_bs
      → Fits hello_replies denied no_bs
      → Fits requests req (enc req)
      → All (λ r. Fits replies r (enc' r)) (run state (asks req ts)).1
      → IsText token
      → Turns deadline req state ts nows
      → connect_timeout tcp addrs
        ≡ ok (
            receiving (serving token rig (written enc bs req ts) req ts last state).stream.outgoing)
      → ((admitting token rig (written enc bs req ts)).0 ≡ ok Role.lease)
        × ((serving token rig (written enc bs req ts) req ts last state).end ≡ hung_up)
        × ((serving token rig (written enc bs req ts) req ts last state).state
            ≡ (run state (asks req ts)).0)
        × (s : Stream) × (connect hellos hello_replies requests replies tcp addrs token ≡ ok s)
        × (acquire_on hellos hello_replies requests replies deadline timeout req nows s ≡ (
          acquire_loop deadline timeout (answers (run state (asks req ts)).1 nows),
          record { incoming = []; outgoing = written enc bs req ts },
        ))
  unfolding connect
  acquire_over_wire tcp addrs enc enc' token rig bs ok_bs no_bs deadline timeout req ts last nows
        state f g n h k t u e =
      let (a, d) = served_lem enc enc' token rig bs ok_bs no_bs req ts last state f g n h k t in
      let o = ap (λ x. x.stream.outgoing) d in
      let heard = frames requests replies enc' (run state (asks req ts)).1 in
      let c =
        (client_reads hellos hello_replies Role.lease token bs ok_bs heard (accepted rig) f g).1 in
      let c' =
        subst
          (λ x.
            handshake_client_sync hellos hello_replies Role.lease token (receiving x)
            ≡ (ok tt, sent heard bs))
          (sym o) c in
      (
        a,
        ap (λ x. x.end) d,
        ap (λ x. x.state) d,
        sent heard bs,
        ground (arith, e, c'),
        turns hellos hello_replies requests replies enc enc' deadline timeout req h ts nows state
            (frame bs) u k,
      )
