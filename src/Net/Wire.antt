-- ===== src/Net/Wire.antt =====
-- banc-host/src/net/mod.rs: connect_node and the wire of its client, after the handshake.
-- The client of postcard-rpc that the wire is handed to is of a type `C`, which `new_with_wire`
-- makes of the stream; a connect to an address, with the options set on its stream, is an argument.
use banc.Common.{
  ℕ, zero, suc, ◌≤◌, ◌≡◌, refl, List, [], ◌∷◌, ◌++◌, arith, All, length, Result, ok, err,
}
use mathlib.Core.List.{append_assoc, append-nil}
use banc.Common.Text.{Text, IsText}
use banc.Net.{
  Net, NetError, Stream, Codec, Role, node, Hello, HelloReply, accepted, denied, max_frame, lift,
  ◌>>=◌, ◌>>◌, write_frame, read_frame, handshake_client, handshake_server,
}
use banc.Net.Frames.{receiving, frame, read_frame-frame, write_frame_lem}
use banc.Net.Handshake.{Fits, hello, sent, client_reads, server_replies}
use banc.Net.Token.{token_eq_iff}

-- `TcpWireTx::send` and `TcpWireRx::receive`.
unfoldable pub send : List ℕ → Net (Unit {0})
send bytes = write_frame bytes

unfoldable pub receive : Net (List ℕ)
receive = read_frame

pub data NodeLinkError (E : Type 0) : Type 0 where
  unconnected : (addr : Text) → E → NodeLinkError E
  unadmitted : (addr : Text) → NetError → NodeLinkError E

module _ {E C : Type 0} (hellos : Codec Hello) (replies : Codec HelloReply)
    (tcp : Text → Result E Stream) (new_with_wire : Stream → C) where
  unfoldable pub connect_node : Text → Text → Result (NodeLinkError E) (C × Text)
  connect_node addr token = elim (tcp addr) [
    | err e ↦ err (unconnected addr e)
    | ok stream ↦
        let r = handshake_client hellos replies node token stream in
        elim r.0 [
          | err e ↦ err (unadmitted addr e)
          | ok rig_name ↦ ok (new_with_wire r.1, rig_name)
        ]
  ]

-- A list of messages through one end of the wire, and so many out of the other.
abbrev pub send_all : List (List ℕ) → Net (Unit {0})
send_all [] = lift (ok tt)
send_all (m ∷ ms) = do send m; send_all ms

abbrev pub receive_all : ℕ → Net (List (List ℕ))
receive_all zero = lift (ok [])
receive_all (suc n) = do m ← receive; ms ← receive_all n; lift (ok (m ∷ ms))

abbrev pub framed : List (List ℕ) → List ℕ
framed [] = []
framed (m ∷ ms) = frame m ++ framed ms

send_all_lem :
    (ms : List (List ℕ)) (s : Stream)
    → send_all ms s ≡ (ok tt, record s { outgoing = s.outgoing ++ framed ms })
unfolding send
send_all_lem [] s = rw append-nil refl
send_all_lem (m ∷ ms) s =
    let w = (write_frame_lem m s).0 in
    let rest = send_all_lem ms (record s { outgoing = s.outgoing ++ frame m }) in
    let a = append_assoc s.outgoing (frame m) (framed ms) in ground (arith, w, rest, a)

receive_all_lem :
    (ms : List (List ℕ)) (rest : List ℕ) (s : Stream)
    → All (λ m. length m ≤ max_frame) ms
    → s.incoming ≡ framed ms ++ rest
    → receive_all (length ms) s ≡ (ok ms, record s { incoming = rest })
unfolding receive
receive_all_lem [] rest s fits e = ground (arith, e)
receive_all_lem (m ∷ ms) rest s fits e =
    let r =
      (read_frame-frame m (framed ms ++ rest) s fits.0
        (ground (arith, e, append_assoc (frame m) (framed ms) rest))).0 in
    let rs = receive_all_lem ms rest (record s { incoming = framed ms ++ rest }) fits.1 refl in
    ground (arith, r, rs)

-- A daemon that lets a node client in, sends its messages and takes so many.
abbrev pub daemon_session :
    Codec Hello → Codec HelloReply → Text → Text → List (List ℕ) → ℕ → Net (Role × List (List ℕ))
daemon_session hellos replies token rig ns n = do
  role ← handshake_server hellos replies token rig
  send_all ns
  got ← receive_all n
  lift (ok (role, got))

-- The client's end of that.
abbrev pub client_session : List (List ℕ) → ℕ → Net (List (List ℕ))
client_session ms n = do send_all ms; receive_all n

module _ {E C : Type 0} (hellos : Codec Hello) (replies : Codec HelloReply)
    (tcp : Text → Result E Stream) (new_with_wire : Stream → C) where
  -- A node session from end to end, with the token of the daemon: the daemon admits the client as one
  -- of a node, the client gets the rig's name and a wire that is positioned behind the handshake, and
  -- each takes the messages that the other sends over that wire, all of them, whole and in their order.
  -- What either writes is, byte for byte, what the other has read. Messages and handshake fit the
  -- frame limit.
  pub session_over_wire :
      (addr token rig : Text) (bs ok_bs no_bs : List ℕ) (ms ns : List (List ℕ))
      → Fits hellos (hello node token) bs
      → Fits replies (accepted rig) ok_bs
      → Fits replies denied no_bs
      → All (λ m. length m ≤ max_frame) ms
      → All (λ m. length m ≤ max_frame) ns
      → IsText token
      → tcp addr ≡ ok (receiving (frame ok_bs ++ framed ns))
      → (daemon_session hellos replies token rig ns (length ms) (receiving (frame bs ++ framed ms))
          ≡ (ok (node, ms), record { incoming = []; outgoing = frame ok_bs ++ framed ns }))
        × (connect_node hellos replies tcp new_with_wire addr token
            ≡ ok (new_with_wire (sent (framed ns) bs), rig))
        × (client_session ms (length ns) (sent (framed ns) bs)
            ≡ (ok ns, record { incoming = []; outgoing = frame bs ++ framed ms }))
  unfolding connect_node
  session_over_wire addr token rig bs ok_bs no_bs ms ns f g n fits fits' t e =
      let same = (token_eq_iff token token t t).1 refl in
      let a = server_replies hellos replies node token token rig bs ok_bs no_bs (framed ms) f g n in
      let b = send_all_lem ns (sent (framed ms) ok_bs) in
      let c =
        receive_all_lem ms [] (record { incoming = framed ms; outgoing = frame ok_bs ++ framed ns })
          fits (rw append-nil refl) in
      let a' = (client_reads hellos replies node token bs ok_bs (framed ns) (accepted rig) f g).0 in
      let b' = send_all_lem ms (sent (framed ns) bs) in
      let c' =
        receive_all_lem ns [] (record { incoming = framed ns; outgoing = frame bs ++ framed ms })
          fits' (rw append-nil refl) in
      (ground (arith, a, same, b, c), ground (arith, e, a'), ground (arith, b', c'))
