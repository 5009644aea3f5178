-- ===== src/Net/Tests.antt =====
-- banc-host/src/net/mod.rs: runs of the framing, of the handshake and of a wire.
use banc.Common.{
  ℕ, ◌≡◌, ◌≢◌, ◌⊎◌, inl, inr, refl, Bool, true, false, Option, none, some, List, [], ◌∷◌, ◌++◌,
  arith, Result, ok, err, zero, suc, all, ltb, Bool-cases, subst, some-inj, if◌then◌else◌,
}
use banc.Common.Text.{Text, codes, IsText, as_bytes, encode_utf8}
use banc.Net.{
  read_exact, answer_hello, write_all, xor_fold, Role, node, lease, Hello, HelloReply, accepted,
  denied, NetError, daemon_denied, handshake_denied, Codec, Stream, net_version, token_eq,
  read_frame, write_frame, handshake_client, handshake_client_sync, handshake_server,
}
use banc.Net.Frames.{receiving, frame}
use banc.Net.Handshake.{total_codec, handshake_agrees, handshake_server_sound, sent}
use banc.Net.Wire.{framed, daemon_session, client_session, connect_node, session_over_wire}

abbrev bytes : List ℕ
bytes = 1 ∷ 2 ∷ 3 ∷ []

-- An encoding of the messages, for the examples: the fields, and an error for what is no text.
abbrev pub tag : Role → ℕ
tag node = 0
tag lease = 1

abbrev pub of_tag : ℕ → Role
of_tag zero = node
of_tag (suc n) = lease

pub of_tag-tag : (r : Role) → of_tag (tag r) ≡ r
of_tag-tag node = refl
of_tag-tag lease = refl

abbrev pub is_text : Text → Bool
is_text = all (λ c. ltb c 0x110000)

pub is_text-IsText : (t : Text) → is_text t ≡ true → IsText t
is_text-IsText [] e = tt
is_text-IsText (c ∷ t) e = ground (arith, is_text-IsText t)

abbrev pub to_hello : Hello → Option (List ℕ)
to_hello h = if is_text h.token then some (h.version ∷ tag h.role ∷ h.token) else none

abbrev pub of_hello : List ℕ → Option Hello
of_hello (v ∷ r ∷ token) =
    if is_text token then some (record { version = v; role = of_tag r; token = token }) else none
of_hello _ = none

pub of_hello-to_hello : (h : Hello) (bs : List ℕ) → to_hello h ≡ some bs → of_hello bs ≡ some h
of_hello-to_hello h bs e = elim (Bool-cases (is_text h.token)) [
  | inl t ↦
      let f : some (h.version ∷ tag h.role ∷ h.token) ≡ some bs = ground arith in
      subst (λ x. of_hello x ≡ some h) (some-inj f) (rw (of_tag-tag h.role, t) refl)
  | inr t ↦ ground arith
]

of_hello-IsText : (bs : List ℕ) (h : Hello) → of_hello bs ≡ some h → IsText h.token
of_hello-IsText [] h e = cc
of_hello-IsText (v ∷ []) h e = cc
of_hello-IsText (v ∷ r ∷ token) h e = elim (Bool-cases (is_text token)) [
  | inl t ↦
      let f : some (record { version = v; role = of_tag r; token = token }) ≡ some h =
        ground arith in
      subst (λ (x : Hello). IsText x.token) (some-inj f) (is_text-IsText token t)
  | inr t ↦ ground arith
]

abbrev pub hellos : Codec Hello
hellos = record {
  to_stdvec = to_hello;
  from_bytes = of_hello;
  from_bytes-to_stdvec = of_hello-to_hello;
}

abbrev pub to_reply : HelloReply → List ℕ
to_reply (accepted rig_name) = 1 ∷ rig_name
to_reply denied = 0 ∷ []

abbrev pub of_reply : List ℕ → Option HelloReply
of_reply (zero ∷ bs) = some denied
of_reply (suc n ∷ rig_name) = some (accepted rig_name)
of_reply [] = none

pub of_reply-to_reply : (r : HelloReply) → of_reply (to_reply r) ≡ some r
of_reply-to_reply (accepted rig_name) = refl
of_reply-to_reply denied = refl

abbrev pub replies : Codec HelloReply
replies = total_codec to_reply of_reply of_reply-to_reply

abbrev pub token : Text
token = codes "s3cret"

abbrev pub rig : Text
rig = codes "bench"

handshake_agrees_example :
    let asked = (handshake_client hellos replies lease token (receiving [])).1.outgoing in
    let server = handshake_server hellos replies token rig (receiving (asked ++ (4 ∷ []))) in
    let client =
      handshake_client hellos replies lease token (receiving (server.1.outgoing ++ [])) in
    let client_sync =
      handshake_client_sync hellos replies lease token (receiving (server.1.outgoing ++ [])) in
    (server.1.incoming ≡ 4 ∷ [])
    × (client.1.incoming ≡ [])
    × (((token ≡ token) × (server.0 ≡ ok lease) × (client.0 ≡ ok rig) × (client_sync.0 ≡ ok tt))
        ⊎ ((token ≢ token)
            × (server.0 ≡ err (handshake_denied net_version false))
            × (client.0 ≡ err daemon_denied)
            × (client_sync.0 ≡ err daemon_denied)))
handshake_agrees_example =
    handshake_agrees hellos replies lease token token rig (0 ∷ 1 ∷ token) (1 ∷ rig) (0 ∷ [])
      (4 ∷ []) [] (refl, ground arith) (refl, ground arith) (refl, ground arith) (ground arith)
      (ground arith)

-- The server's run on the frame of a hello with its token.
abbrev admitting : Result NetError Role × Stream
admitting = handshake_server hellos replies token rig (receiving (frame (0 ∷ 1 ∷ token)))

admitted_lease : admitting ≡ (ok lease, admitting.1)
unfolding handshake_server read_frame read_exact answer_hello write_frame write_all token_eq
    xor_fold as_bytes encode_utf8
admitted_lease = refl

handshake_server_sound_example :
    (bs : List ℕ) × (h : Hello) × ((read_frame (receiving (frame (0 ∷ 1 ∷ token)))).0 ≡ ok bs)
    × (hellos.from_bytes bs ≡ some h)
    × (h.version ≡ net_version)
    × (h.token ≡ token)
    × (h.role ≡ lease)
handshake_server_sound_example =
    handshake_server_sound hellos replies token rig lease (receiving (frame (0 ∷ 1 ∷ token)))
      admitting.1 of_hello-IsText (ground arith) admitted_lease

abbrev to_daemon : List (List ℕ)
to_daemon = (1 ∷ 2 ∷ []) ∷ [] ∷ []

abbrev to_client : List (List ℕ)
to_client = (3 ∷ []) ∷ []

-- One address, at which the daemon answers.
abbrev daemon_tcp : Text → Result Text Stream
daemon_tcp a = ok (receiving (frame (1 ∷ rig) ++ framed to_client))

session_over_wire_example :
    (daemon_session hellos replies token rig to_client 2
        (receiving (frame (0 ∷ 0 ∷ token) ++ framed to_daemon))
      ≡ (
        ok (node, to_daemon),
        record { incoming = []; outgoing = frame (1 ∷ rig) ++ framed to_client },
      ))
    × (connect_node hellos replies daemon_tcp (λ s. s.incoming) (codes "bench:9000") token
        ≡ ok (framed to_client, rig))
    × (client_session to_daemon 1 (sent (framed to_client) (0 ∷ 0 ∷ token)) ≡ (
      ok to_client,
      record { incoming = []; outgoing = frame (0 ∷ 0 ∷ token) ++ framed to_daemon },
    ))
session_over_wire_example =
    session_over_wire hellos replies daemon_tcp (λ s. s.incoming) (codes "bench:9000") token rig
      (0 ∷ 0 ∷ token) (1 ∷ rig) (0 ∷ []) to_daemon to_client (refl, ground arith)
      (refl, ground arith) (refl, ground arith) (ground arith) (ground arith) (ground arith) refl
