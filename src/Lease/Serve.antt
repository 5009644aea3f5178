-- ===== src/Lease/Serve.antt =====
-- banc-host/src/net/lease.rs: the lease protocol on one authenticated connection.
use banc.Common.{ℕ, ◌≡◌, refl, none, some, List, [], ◌∷◌, ◌++◌, arith, All, map, ◌∙◌, ok, err}
use banc.Common.Time.{Instant}
use banc.Net.{
  NetError, unexpected_eof, not_decoded, not_encoded, Codec, Stream, read_frame, write_frame,
}
use banc.Net.Frames.{frame, receiving, read_frame-frame, read_frame_nothing, write_frame_lem}
use banc.Net.Handshake.{Fits}
use banc.Lease.{LeaseRequest, LeaseReply, LeaseServer, Call, handle, run}
use mathlib.Core.List.{append_assoc, append-nil}

-- What the clock and the OS RNG answer while one request is handled.
pub record Tick : Type 0 where
  pub now : Instant
  pub buf : List ℕ

-- How a session ends: the peer hung up between frames, or an error. `running` is a session that has
-- met no end within the ticks it was given.
pub data End : Type 0 where
  hung_up : End
  failed : NetError → End
  running : End

pub record Session : Type 0 where
  pub end : End
  pub state : LeaseServer
  pub stream : Stream

module _ (requests : Codec LeaseRequest) (replies : Codec LeaseReply) where
  -- The loop of `serve_conn`, one tick for each round.
  unfoldable pub serve_conn : List Tick → LeaseServer → Stream → Session
  serve_conn [] state s = record { end = running; state = state; stream = s }
  serve_conn (tick ∷ ticks) state s =
      let r = read_frame s in
      elim r.0 [
        | err unexpected_eof ↦ record { end = hung_up; state = state; stream = r.1 }
        | err e ↦ record { end = failed e; state = state; stream = r.1 }
        | ok bytes ↦ elim (requests.from_bytes bytes) [
          | none ↦ record { end = failed not_decoded; state = state; stream = r.1 }
          | some req ↦
              let h = handle tick.now tick.buf state req in
              elim (replies.to_stdvec h.1) [
                | none ↦ record { end = failed not_encoded; state = h.0; stream = r.1 }
                | some reply ↦ serve_conn ticks h.0 (write_frame reply r.1).1
              ]
        ]
      ]

  -- The frames of a list of messages.
  abbrev pub frames : {A : Type 0} → (A → List ℕ) → List A → List ℕ
  frames enc [] = []
  frames enc (a ∷ as') = frame (enc a) ++ frames enc as'

  module _ (enc : LeaseRequest → List ℕ) (enc' : LeaseReply → List ℕ) where
    pub serve-step :
        (c : Call) (ticks : List Tick) (state : LeaseServer) (rest out : List ℕ)
        → Fits requests c.req (enc c.req)
        → Fits replies (handle c.now c.buf state c.req).1 (enc' (handle c.now c.buf state c.req).1)
        → serve_conn
            (record { now = c.now; buf = c.buf } ∷ ticks)
            state
            (record { incoming = frame (enc c.req) ++ rest; outgoing = out })
          ≡ serve_conn ticks (handle c.now c.buf state c.req).0 (record {
            incoming = rest;
            outgoing = out ++ frame (enc' (handle c.now c.buf state c.req).1);
          })
    unfolding serve_conn
    serve-step c ticks state rest out f g =
        let start : Stream = record { incoming = frame (enc c.req) ++ rest; outgoing = out } in
        let r = (read_frame-frame (enc c.req) rest start f.1 refl).0 in
        let d = requests.from_bytes-to_stdvec c.req (enc c.req) f.0 in
        let w =
          (write_frame_lem (enc' (handle c.now c.buf state c.req).1)
            (record start { incoming = rest })).0 in
        ground (arith, r, d, g.0, w)

    pub serve-end :
        (tick : Tick) (state : LeaseServer) (s : Stream)
        → s.incoming ≡ []
        → serve_conn (tick ∷ []) state s ≡ record { end = hung_up; state = state; stream = s }
    unfolding serve_conn
    serve-end tick state s e = ground (arith, read_frame_nothing s e)

    abbrev pub ticks : List Call → Tick → List Tick
    ticks [] last = last ∷ []
    ticks (c ∷ cs) last = record { now = c.now; buf = c.buf } ∷ ticks cs last

    pub serve-run :
        (cs : List Call) (last : Tick) (state : LeaseServer) (out : List ℕ)
        → All (λ c. Fits requests c.req (enc c.req)) cs
        → All (λ r. Fits replies r (enc' r)) (run state cs).1
        → serve_conn
            (ticks cs last)
            state
            (record { incoming = frames enc (map (λ c. c.req) cs); outgoing = out })
          ≡ record {
            end = hung_up;
            state = (run state cs).0;
            stream = record { incoming = []; outgoing = out ++ frames enc' (run state cs).1 };
          }
    unfolding run
    serve-run [] last state out f g = rw append-nil (serve-end last state _ refl)
    serve-run (c ∷ cs) last state out f g =
        serve-step c (ticks cs last) state (frames enc (map (λ c. c.req) cs)) out f.0 g.0
        ∙ serve-run cs last (handle c.now c.buf state c.req).0 _ f.1 g.1
        ∙ rw append_assoc

    -- On a connection over which the encoded requests come one after the other, the server hands
    -- each to the lease state in turn, sends back the replies in that order and nothing else, and
    -- ends well when the peer hangs up. No other connection asks the lease in between, and the messages
    -- encode within the frame limit.
    pub serve_conn-run :
        (cs : List Call) (last : Tick) (state : LeaseServer)
        → All (λ c. Fits requests c.req (enc c.req)) cs
        → All (λ r. Fits replies r (enc' r)) (run state cs).1
        → serve_conn (ticks cs last) state (receiving (frames enc (map (λ c. c.req) cs))) ≡ record {
          end = hung_up;
          state = (run state cs).0;
          stream = record { incoming = []; outgoing = frames enc' (run state cs).1 };
        }
    serve_conn-run cs last state f g = serve-run cs last state [] f g
