-- ===== src/Lease/Client/Dialogue.antt =====
-- banc-host/src/net/lease.rs: the loop of `LeaseClient::acquire` on a connection over which the server's
-- answers come.
use banc.Common.{
  ℕ, ◌<◌, ◌≡◌, sym, ap, subst, ◌∙◌, true, false, List, [], ◌∷◌, ◌++◌, arith, ok, err, leb, All, map,
  ap₂, Bool-cases, inl, inr,
}
use mathlib.Core.List.{append-nil, append_assoc}
use banc.Common.Text.{Text}
use banc.Common.Time.{Instant, Duration}
use banc.Net.{NetError, Stream, Codec, Hello, HelloReply}
use banc.Net.Frames.{frame}
use banc.Net.Handshake.{Fits}
use banc.Lease.{LeaseRequest, LeaseReply, LeaseServer, granted, busy, done, gone, handle, run, Call}
use Prim.{absurd}
use banc.Lease.Client.Acquire.{busy_waits}
use banc.Lease.Serve.{Tick, frames}
use banc.Lease.Client.{
  Answer, Acquired, got, refused, waiting, failed, gave_up, unexpected, acquire_loop,
}
use banc.Lease.Client.Wire.{roundtrip, roundtrip_reads}

-- The answers of the server, each with the instant at which the client looks at it.
abbrev pub answers : List LeaseReply → List Instant → List (Answer NetError)
answers (r ∷ rs) (now ∷ nows) = record { reply = ok r; at = now } ∷ answers rs nows
answers _ _ = []

-- The calls that the server meets where a client asks again and again.
abbrev pub asks : LeaseRequest → List Tick → List Call
asks req [] = []
asks req (t ∷ ts) = record { now = t.now; buf = t.buf; req = req } ∷ asks req ts

-- The client asks as often as there are ticks: it is told busy in time, every time but the last.
abbrev pub Turns : Instant → LeaseRequest → LeaseServer → List Tick → List Instant → Type 0
Turns deadline req state (t ∷ []) (now ∷ []) = Unit {0}
Turns deadline req state (t ∷ t' ∷ ts) (now ∷ nows) =
    ((other : Text) × (x : ℕ) × ((handle t.now t.buf state req).1 ≡ busy other x))
    × (now < deadline)
    × Turns deadline req (handle t.now t.buf state req).0 (t' ∷ ts) nows
Turns deadline req state _ _ = ⊥

module _ (hellos : Codec Hello) (hello_replies : Codec HelloReply) (requests : Codec LeaseRequest)
    (replies : Codec LeaseReply) where
  -- The loop of `LeaseClient::acquire` on its stream, with the instants at which it looks at the
  -- answers.
  unfoldable pub acquire_on :
      Instant → Duration → LeaseRequest → List Instant → Stream → Acquired NetError × Stream
  unfolding roundtrip
  acquire_on deadline timeout req [] s = (waiting, s)
  acquire_on deadline timeout req (now ∷ nows) s =
      let r = roundtrip hellos hello_replies requests replies req s in
      let rest = acquire_on deadline timeout req nows r.1 in
      elim r.0 [
        | err e ↦ (refused (failed e), r.1)
        | ok (granted id) ↦ (got id, r.1)
        | ok (busy other x) ↦ elim (leb deadline now) [
          | true ↦ (refused (gave_up other x timeout), r.1)
          | false ↦ rest
        ]
        | ok other ↦ (refused (unexpected other), r.1)
      ]

  module _ (enc : LeaseRequest → List ℕ) (enc' : LeaseReply → List ℕ) (deadline : Instant)
      (timeout : Duration) (req : LeaseRequest) (fits : Fits requests req (enc req)) where
    -- One question and its answer, before `rest`.
    reply_read :
        (reply : LeaseReply) (rest out : List ℕ)
        → Fits replies reply (enc' reply)
        → roundtrip hellos hello_replies requests replies req
            (record { incoming = frame (enc' reply) ++ rest; outgoing = out })
          ≡ (ok reply, record { incoming = rest; outgoing = out ++ frame (enc req) })
    reply_read reply rest out g =
        roundtrip_reads hellos hello_replies requests replies enc req reply (enc' reply) rest out
          fits g

    last_turn :
        (reply : LeaseReply) (now : Instant) (out : List ℕ)
        → Fits replies reply (enc' reply)
        → acquire_on deadline timeout req
            (now ∷ [])
            (record { incoming = frame (enc' reply) ++ []; outgoing = out })
          ≡ (
            acquire_loop deadline timeout (record { reply = ok reply; at = now } ∷ []),
            record { incoming = []; outgoing = out ++ frame (enc req) },
          )
    unfolding acquire_on acquire_loop
    last_turn (granted id) now out g = ground (arith, reply_read (granted id) [] out g)
    last_turn (busy other x) now out g = elim (Bool-cases (leb deadline now)) [
      | inl over ↦ ground (arith, reply_read (busy other x) [] out g, over)
      | inr more ↦ ground (arith, reply_read (busy other x) [] out g, more)
    ]
    last_turn done now out g = ground (arith, reply_read done [] out g)
    last_turn gone now out g = ground (arith, reply_read gone [] out g)
    last_turn (LeaseReply.status w x) now out g =
        ground (arith, reply_read (LeaseReply.status w x) [] out g)

    busy_turn :
        (other : Text) (x : ℕ) (now : Instant) (nows : List Instant) (rest out : List ℕ)
        → Fits replies (busy other x) (enc' (busy other x))
        → now < deadline
        → acquire_on deadline timeout req
            (now ∷ nows)
            (record { incoming = frame (enc' (busy other x)) ++ rest; outgoing = out })
          ≡ acquire_on deadline timeout req nows
              (record { incoming = rest; outgoing = out ++ frame (enc req) })
    unfolding acquire_on
    busy_turn other x now nows rest out g lt =
        ground (arith, reply_read (busy other x) rest out g, lt)

    pub turns :
        (ts : List Tick) (nows : List Instant) (state : LeaseServer) (out : List ℕ)
        → Turns deadline req state ts nows
        → All (λ r. Fits replies r (enc' r)) (run state (asks req ts)).1
        → acquire_on deadline timeout req nows (record {
          incoming = frames requests replies enc' (run state (asks req ts)).1;
          outgoing = out;
        })
          ≡ (
            acquire_loop deadline timeout (answers (run state (asks req ts)).1 nows),
            record {
              incoming = [];
              outgoing = out ++ frames requests replies enc (map (λ c. c.req) (asks req ts));
            },
          )
    unfolding run
    turns [] nows state out u g = absurd u
    turns (t ∷ []) [] state out u g = absurd u
    turns (t ∷ t' ∷ ts) [] state out u g = absurd u
    turns (t ∷ []) (now ∷ n ∷ nows) state out u g = absurd u
    turns (t ∷ []) (now ∷ []) state out u g =
        last_turn (handle t.now t.buf state req).1 now out g.0
        ∙ ap
            (λ o. (
              acquire_loop deadline timeout (answers (run state (asks req (t ∷ []))).1 (now ∷ [])),
              record { incoming = []; outgoing = out ++ o },
            ))
            (sym (append-nil (frame (enc req))))
    turns (t ∷ t' ∷ ts) (now ∷ nows) state out u g =
        let (other, x, e) = u.0 in
        let state' = (handle t.now t.buf state req).0 in
        let later = (run state' (asks req (t' ∷ ts))).1 in
        let fit = subst (λ r. Fits replies r (enc' r)) e g.0 in
        let said =
          subst
            (λ r.
              acquire_on deadline timeout req (now ∷ nows) (record {
                incoming = frame (enc' r) ++ frames requests replies enc' later;
                outgoing = out;
              })
              ≡ acquire_on deadline timeout req nows (record {
                incoming = frames requests replies enc' later;
                outgoing = out ++ frame (enc req);
              }))
            (sym e) (busy_turn other x now nows (frames requests replies enc' later) out fit u.1) in
        let skipped =
          subst
            (λ r.
              acquire_loop deadline timeout (answers later nows)
              ≡ acquire_loop deadline timeout
                  (record { reply = ok r; at = now } ∷ answers later nows))
            (sym e) (sym (busy_waits deadline timeout other x now (answers later nows) u.1)) in
        said
        ∙ turns (t' ∷ ts) nows state' (out ++ frame (enc req)) u.2 g.1
        ∙ ap₂ (λ a o. (a, record { incoming = []; outgoing = o })) skipped
            (append_assoc out (frame (enc req))
              (frames requests replies enc (map (λ c. c.req) (asks req (t' ∷ ts)))))
