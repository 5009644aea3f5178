-- ===== src/Lease/Client/Wire.antt =====
-- banc-host/src/net/lease.rs: the client's connection and its roundtrips over Net.
-- The addresses that the name service gives, and what a connect to one answers, are
-- arguments; a stream has all that its peer is going to send.
use banc.Common.{
  ℕ, ◌≡◌, refl, subst, Option, none, some, List, [], ◌∷◌, ◌++◌, arith, Result, ok, err, ok_or,
  map_err,
}
use mathlib.Core.List.{append-nil}
use banc.Common.Text.{Text}
use banc.Net.{
  Net, NetError, not_encoded, not_decoded, Stream, Codec, Role, Hello, HelloReply, accepted, lift,
  ◌>>=◌, ◌>>◌, write_frame_sync, read_frame_sync, handshake_client_sync,
}
use banc.Net.Frames.{frame, receiving, read_frame-frame, write_frame_lem}
use banc.Net.Handshake.{Fits, hello, client_reads}
use banc.Lease.{LeaseRequest, LeaseReply}

pub data ConnectError (E : Type 0) : Type 0 where
  unresolved : E → ConnectError E
  unconnected : E → ConnectError E
  no_addresses : ConnectError E
  on_stream : NetError → ConnectError E

-- The loop of `connect_timeout`, with the last error.
unfoldable pub connect_first :
    {E Addr : Type 0}
    → (Addr → Result E Stream)
    → Option E
    → List Addr
    → Result (ConnectError E) Stream
connect_first tcp none [] = err no_addresses
connect_first tcp (some e) [] = err (unconnected e)
connect_first tcp last (sa ∷ addrs) = elim (tcp sa) [
  | ok stream ↦ ok stream
  | err e ↦ connect_first tcp (some e) addrs
]

unfoldable pub connect_timeout :
    {E Addr : Type 0}
    → (Addr → Result E Stream)
    → Result E (List Addr)
    → Result (ConnectError E) Stream
unfolding connect_first
connect_timeout tcp (err e) = err (unresolved e)
connect_timeout tcp (ok addrs) = connect_first tcp none addrs

module _ (hellos : Codec Hello) (hello_replies : Codec HelloReply) (requests : Codec LeaseRequest)
    (replies : Codec LeaseReply) where
  unfoldable pub roundtrip : LeaseRequest → Net LeaseReply
  roundtrip req = do
    bytes ← lift (ok_or (requests.to_stdvec req) not_encoded)
    write_frame_sync bytes
    reply ← read_frame_sync
    lift (ok_or (replies.from_bytes reply) not_decoded)

  -- `connect`, from a stream on, and a first request.
  unfoldable pub connected_roundtrip : Text → LeaseRequest → Net LeaseReply
  unfolding roundtrip
  connected_roundtrip token req = do
    handshake_client_sync hellos hello_replies Role.lease token
    roundtrip req

  -- `connect`: the stream of a client that the daemon has let in.
  unfoldable pub connect :
      {E Addr : Type 0}
      → (Addr → Result E Stream)
      → Result E (List Addr)
      → Text
      → Result (ConnectError E) Stream
  unfolding connect_timeout
  connect tcp addrs token = elim (connect_timeout tcp addrs) [
    | err e ↦ err e
    | ok stream ↦
        let r = handshake_client_sync hellos hello_replies Role.lease token stream in
        elim r.0 [ err e ↦ err (on_stream e) | ok u ↦ ok r.1 ]
  ]

  -- `connect` and `roundtrip` as `query_status` calls them.
  unfoldable pub ask :
      {E Addr : Type 0}
      → (Addr → Result E Stream)
      → Result E (List Addr)
      → Text
      → LeaseRequest
      → Result (ConnectError E) LeaseReply
  unfolding connect_timeout connected_roundtrip
  ask tcp addrs token req = elim (connect_timeout tcp addrs) [
    | err e ↦ err e
    | ok stream ↦ map_err on_stream (connected_roundtrip token req stream).0
  ]

  module _ (enc : LeaseRequest → List ℕ) where
    pub roundtrip_reads :
        (req : LeaseRequest) (reply : LeaseReply) (rs rest out : List ℕ)
        → Fits requests req (enc req)
        → Fits replies reply rs
        → roundtrip req (record { incoming = frame rs ++ rest; outgoing = out })
          ≡ (ok reply, record { incoming = rest; outgoing = out ++ frame (enc req) })
    unfolding roundtrip
    roundtrip_reads req reply rs rest out f g =
        let start : Stream = record { incoming = frame rs ++ rest; outgoing = out } in
        let w = (write_frame_lem (enc req) start).1 in
        let r =
          (read_frame-frame rs rest (record start { outgoing = out ++ frame (enc req) }) g.1
            refl).1 in
        let d = replies.from_bytes-to_stdvec reply rs g.0 in ground (arith, f.0, w, r, d)

    pub connected_reads :
        (token rig : Text) (req : LeaseRequest) (reply : LeaseReply) (bs ok_bs rs : List ℕ)
        → Fits hellos (hello Role.lease token) bs
        → Fits hello_replies (accepted rig) ok_bs
        → Fits requests req (enc req)
        → Fits replies reply rs
        → connected_roundtrip token req (receiving (frame ok_bs ++ frame rs))
          ≡ (ok reply, record { incoming = []; outgoing = frame bs ++ frame (enc req) })
    unfolding connected_roundtrip
    connected_reads token rig req reply bs ok_bs rs f g h k =
        let c =
          (client_reads hellos hello_replies Role.lease token bs ok_bs (frame rs) (accepted rig) f
            g).1 in
        let r : roundtrip req (record { incoming = frame rs; outgoing = frame bs })
            ≡ (ok reply, record { incoming = []; outgoing = frame bs ++ frame (enc req) }) =
          subst
            (λ x.
              roundtrip req (record { incoming = x; outgoing = frame bs })
              ≡ (ok reply, record { incoming = []; outgoing = frame bs ++ frame (enc req) }))
            (append-nil (frame rs)) (roundtrip_reads req reply rs [] (frame bs) h k) in
        ground (arith, c, r)
