-- ===== src/Net/Handshake.antt =====
-- banc-host/src/net/mod.rs: both halves of the handshake against one another.
use banc.Common.{
  ℕ, ◌≤◌, ◌≡◌, ◌≢◌, refl, true, false, Option, some, List, [], ◌++◌, arith, length, ok, err,
  Bool-cases, subst, some-inj, inl, inr, ◌⊎◌, if◌then◌else◌,
}
use banc.Common.Text.{Text, IsText}
use banc.Net.{
  Role, Hello, HelloReply, accepted, denied, daemon_denied, handshake_denied, Codec, Stream,
  net_version, max_frame, token_eq, handshake_client, handshake_client_sync, handshake_server,
  read_frame,
}
use banc.Net.Frames.{receiving, frame, read_frame-frame, read_frame_nothing, write_frame_lem}
use banc.Net.Token.{token_eq_iff}

-- A message that postcard encodes within the frame limit.
abbrev pub Fits : {A : Type 0} → Codec A → A → List ℕ → Type 0
Fits c a bs = (c.to_stdvec a ≡ some bs) × (length bs ≤ max_frame)

-- The codec of an encoding that never fails and a decoding that undoes it.
abbrev pub total_codec :
    {A : Type 0} (to : A → List ℕ) (of : List ℕ → Option A)
    → ((a : A) → of (to a) ≡ some a)
    → Codec A
total_codec to of of-to = record {
  to_stdvec = λ a. some (to a);
  from_bytes = of;
  from_bytes-to_stdvec = λ a bs e. subst (λ x. of x ≡ some a) (some-inj e) (of-to a);
}

abbrev pub hello : Role → Text → Hello
hello role token = record { version = net_version; role = role; token = token }

-- The bytes are those of a connection on which only these were written.
abbrev pub sent : List ℕ → List ℕ → Stream
sent rest bs = record { incoming = rest; outgoing = frame bs }

module _ (hellos : Codec Hello) (replies : Codec HelloReply) where
  client_writes :
      (role : Role) (token : Text) (bs : List ℕ)
      → Fits hellos (hello role token) bs
      → (handshake_client hellos replies role token (receiving [])).1.outgoing ≡ frame bs
  unfolding handshake_client
  client_writes role token bs f =
      ground (arith, (write_frame_lem bs (receiving [])).0, read_frame_nothing (sent [] bs) refl)

  pub client_reads :
      (role : Role) (token : Text) (bs rs rest : List ℕ) (reply : HelloReply)
      → Fits hellos (hello role token) bs
      → Fits replies reply rs
      → ((handshake_client hellos replies role token (receiving (frame rs ++ rest)))
          ≡ (elim reply [ accepted rig ↦ ok rig | denied ↦ err daemon_denied ], sent rest bs))
        × ((handshake_client_sync hellos replies role token (receiving (frame rs ++ rest)))
            ≡ (elim reply [ accepted rig ↦ ok tt | denied ↦ err daemon_denied ], sent rest bs))
  unfolding handshake_client handshake_client_sync
  client_reads role token bs rs rest reply f g =
      let start = receiving (frame rs ++ rest) in
      let w = write_frame_lem bs start in
      let r = read_frame-frame rs rest (record start { outgoing = frame bs }) g.1 refl in
      let d = replies.from_bytes-to_stdvec reply rs g.0 in
      (ground (arith, w.0, r.0, d), ground (arith, w.1, r.1, d))

  pub server_replies :
      (role : Role) (token held rig : Text) (bs ok_bs no_bs rest : List ℕ)
      → Fits hellos (hello role token) bs
      → Fits replies (accepted rig) ok_bs
      → Fits replies denied no_bs
      → handshake_server hellos replies held rig (receiving (frame bs ++ rest)) ≡ (
          if token_eq token held
          then (ok role, sent rest ok_bs)
          else (err (handshake_denied net_version false), sent rest no_bs))
  unfolding handshake_server
  server_replies role token held rig bs ok_bs no_bs rest f g n =
      let start = receiving (frame bs ++ rest) in
      let r = (read_frame-frame bs rest start f.1 refl).0 in
      let d = hellos.from_bytes-to_stdvec (hello role token) bs f.0 in
      ground (
        arith,
        r,
        d,
        (write_frame_lem ok_bs (record start { incoming = rest })).0,
        (write_frame_lem no_bs (record start { incoming = rest })).0,
      )

  -- A client and a server that run the handshake against one another agree on its outcome, whatever
  -- follows the handshake on the wire: with the same token both accept, the server with the role
  -- that the client asked for and the client with the server's rig name; with different tokens both
  -- refuse. What follows the handshake stays unread on both sides. It is so for the blocking client
  -- too. The messages encode within the frame limit, and the tokens are texts.
  pub handshake_agrees :
      (role : Role) (token held rig : Text) (bs ok_bs no_bs more more' : List ℕ)
      → Fits hellos (hello role token) bs
      → Fits replies (accepted rig) ok_bs
      → Fits replies denied no_bs
      → IsText token
      → IsText held
      → let asked = (handshake_client hellos replies role token (receiving [])).1.outgoing in
        let server = handshake_server hellos replies held rig (receiving (asked ++ more)) in
        let client =
          handshake_client hellos replies role token (receiving (server.1.outgoing ++ more')) in
        let client_sync =
          handshake_client_sync hellos replies role token
            (receiving (server.1.outgoing ++ more')) in
        (server.1.incoming ≡ more)
        × (client.1.incoming ≡ more')
        × (((token ≡ held) × (server.0 ≡ ok role) × (client.0 ≡ ok rig) × (client_sync.0 ≡ ok tt))
            ⊎ ((token ≢ held)
                × (server.0 ≡ err (handshake_denied net_version false))
                × (client.0 ≡ err daemon_denied)
                × (client_sync.0 ≡ err daemon_denied)))
  handshake_agrees role token held rig bs ok_bs no_bs more more' f g n ht hh =
      let w = client_writes role token bs f in
      let s = server_replies role token held rig bs ok_bs no_bs more f g n in
      let yes_read = client_reads role token bs ok_bs more' (accepted rig) f g in
      let no_read = client_reads role token bs no_bs more' denied f n in
      let eq = token_eq_iff token held ht hh in
      elim (Bool-cases (token_eq token held)) [
        | inl t ↦ ground (arith, w, s, yes_read.0, yes_read.1, eq.0 t, t)
        | inr t ↦ ground (arith, w, s, no_read.0, no_read.1, eq.1, t)
      ]

  admitted :
      (held rig : Text) (role : Role) (s s' : Stream)
      → handshake_server hellos replies held rig s ≡ (ok role, s')
      → (bs : List ℕ) × (h : Hello) × ((read_frame s).0 ≡ ok bs)
        × (hellos.from_bytes bs ≡ some h)
        × (h.version ≡ net_version)
        × (token_eq h.token held ≡ true)
        × (h.role ≡ role)
  unfolding handshake_server
  admitted held rig role s s' e = ground arith

  -- The server lets no peer in, whatever it sends, but on a frame that decodes to a hello with
  -- the server's version and a token equal to the server's, and then only in the role of that
  -- hello. The server's token and those that decode are texts.
  pub handshake_server_sound :
      (held rig : Text) (role : Role) (s s' : Stream)
      → ((bs : List ℕ) (h : Hello) → hellos.from_bytes bs ≡ some h → IsText h.token)
      → IsText held
      → handshake_server hellos replies held rig s ≡ (ok role, s')
      → (bs : List ℕ) × (h : Hello) × ((read_frame s).0 ≡ ok bs)
        × (hellos.from_bytes bs ≡ some h)
        × (h.version ≡ net_version)
        × (h.token ≡ held)
        × (h.role ≡ role)
  handshake_server_sound held rig role s s' texts hh e =
      let (bs, h, r, d, v, t, p) = admitted held rig role s s' e in
      (bs, h, r, d, v, (token_eq_iff h.token held (texts bs h d) hh).0 t, p)
