-- ===== src/Node/Network.antt =====
-- banc-host/src/node.rs over banc-host/src/net/mod.rs: a node behind a rig daemon.
use banc.Common.{
  ℕ, map, ◌==◌, true, subst, sym, none, refl, Result-cases, Option-cases, ◌≡◌, ◌≢◌, ◌⊎◌, inl, inr,
  Bool, Option, some, List, [], arith, Result, ok, err, Bool-cases, if◌then◌else◌,
}
use mathlib.Core.List.{append-nil}
use banc.Common.Text.{Text, IsText, text_eq, text_eq_iff}
use banc.Config.{AssistantConfig}
use banc.Icd.{Identity, protocol_version}
use banc.Net.{
  Stream, Codec, Role, Hello, HelloReply, accepted, denied, daemon_denied, handshake_server,
  token_eq,
}
use banc.Net.Frames.{receiving, frame}
use banc.Net.Handshake.{Fits, hello, sent, client_reads, server_replies}
use banc.Net.Token.{token_eq_iff}
use banc.Net.Wire.{NodeLinkError, unadmitted, connect_node}
use banc.Node.{
  Node, NodeError, unconnected, unidentified, other_rig, other_version, other_id, connect,
  check_rig, check_pin, identify, hex_digits, to_ascii_lowercase, eq_ignore_ascii_case,
}

-- What a daemon answers to the hello `bs`.
abbrev pub answered : Codec Hello → Codec HelloReply → (held rig : Text) → List ℕ → List ℕ
answered hellos replies held rig bs =
    (handshake_server hellos replies held rig (receiving (frame bs))).1.outgoing

module _ {E C : Type 0} (hellos : Codec Hello) (replies : Codec HelloReply)
    (tcp : Text → Result E Stream) (new_with_wire : Stream → C)
    (send_resp : C → Result (NodeLinkError E) Identity)
    (try_new_raw_nusb : (Option Text → Option Text → Bool) → Result (NodeLinkError E) C) where
  -- `Node::connect` over the network.
  abbrev pub connect_networked :
      AssistantConfig → Option Text → Option Text → Result (NodeError (NodeLinkError E)) (Node C)
  connect_networked cfg token expected_rig =
      connect send_resp (connect_node hellos replies tcp new_with_wire) try_new_raw_nusb cfg token
        expected_rig

  -- The rig that was expected, if one was.
  abbrev pub Expects : Option Text → Text → Type 0
  Expects none rig = Unit {0}
  Expects (some want) rig = rig ≡ want

  abbrev pub SameId : Text → ℕ → Type 0
  SameId want id = map to_ascii_lowercase (hex_digits 16 id) ≡ map to_ascii_lowercase want

  abbrev pub IsNamed : Option Text → ℕ → Type 0
  IsNamed none id = Unit {0}
  IsNamed (some want) id = SameId want id

  -- What comes of asking a client who it is.
  abbrev pub Identified :
      AssistantConfig → C → Result (NodeError (NodeLinkError E)) (Node C) → Type 0
  Identified cfg client r =
      ((e : NodeLinkError E) × (send_resp client ≡ err e) × (r ≡ err (unidentified e)))
      ⊎ ((i : Identity) × (send_resp client ≡ ok i)
          × (((i.protocol_version ≢ protocol_version)
                × (r ≡ err (other_version i.protocol_version)))
              ⊎ (((want : Text) × (cfg.unique_id ≡ some want)
                    × (i.protocol_version ≡ protocol_version)
                    × (map to_ascii_lowercase (hex_digits 16 i.unique_id)
                        ≢ map to_ascii_lowercase want)
                    × (r ≡ err (other_id (hex_digits 16 i.unique_id) want)))
                  ⊎ ((i.protocol_version ≡ protocol_version)
                      × IsNamed cfg.unique_id i.unique_id
                      × (r ≡ ok (record { client = client; identity = i }))))))

  identify-Identified :
      (client : C) (cfg : AssistantConfig) → Identified cfg client (identify send_resp client cfg)
  unfolding identify check_pin eq_ignore_ascii_case
  identify-Identified client cfg = elim (Result-cases (send_resp client)) [
    | inr (e, f) ↦ inl (e, f, ground (arith, f))
    | inl (i, f) ↦ inr (
      i,
      f,
      elim (Bool-cases (i.protocol_version == protocol_version)) [
        | inr g ↦ inl (ground (arith, g), ground (arith, f, g))
        | inl g ↦ elim (Option-cases cfg.unique_id) [
          | inl n ↦ inr (inr (ground (arith, g), rw n tt, ground (arith, f, g, n)))
          | inr (want, w) ↦
              let low = map to_ascii_lowercase in
              let both = text_eq_iff (low (hex_digits 16 i.unique_id)) (low want) in
              elim (Bool-cases (text_eq (low (hex_digits 16 i.unique_id)) (low want))) [
                | inl p ↦ inr (inr (ground (arith, g), rw w (both.0 p), ground (arith, f, g, w, p)))
                | inr p ↦ inr (
                    inl (
                      want,
                      w,
                      ground (arith, g),
                      (λ q. ground (arith, p, both.1 q)),
                      ground (arith, f, g, w, p),
                    ))
              ]
        ]
      ],
    )
  ]

  module _ (addr token held rig : Text) (bs ok_bs no_bs : List ℕ)
      (f : Fits hellos (hello Role.node token) bs) (g : Fits replies (accepted rig) ok_bs)
      (n : Fits replies denied no_bs) where
    answered_lem :
        answered hellos replies held rig bs
        ≡ (if token_eq token held then frame ok_bs else frame no_bs)
    answered_lem =
        let s = server_replies hellos replies Role.node token held rig bs ok_bs no_bs [] f g n in
        ground (arith, s, append-nil (frame bs))

    met :
        tcp addr ≡ ok (receiving (answered hellos replies held rig bs))
        → connect_node hellos replies tcp new_with_wire addr token ≡ (
            if token_eq token held
            then ok (new_with_wire (sent [] bs), rig)
            else err (unadmitted addr daemon_denied))
    unfolding connect_node
    met e = elim (Bool-cases (token_eq token held)) [
      | inl same ↦
          let r = (client_reads hellos replies Role.node token bs ok_bs [] (accepted rig) f g).0 in
          ground (arith, e, answered_lem, same, r, append-nil (frame ok_bs))
      | inr differs ↦
          let r = (client_reads hellos replies Role.node token bs no_bs [] denied f n).0 in
          ground (arith, e, answered_lem, differs, r, append-nil (frame no_bs))
    ]

    -- How a test process fares that reaches a node through a rig daemon. Where its token is another
    -- than the daemon's, it gets no further than the daemon's refusal. Where it is the same, and the
    -- name that the daemon gives is another than that of the rig expected, it fails with both names.
    -- Else it asks the node over the wire behind the handshake: it fails where the node does not
    -- answer, has another version of the protocol, or another id than the config's, letter case aside;
    -- and only else it has the node. The handshake fits the frame limit, and the tokens are texts.
    pub networked_cases :
        (cfg : AssistantConfig) (expected_rig : Option Text)
        → IsText token
        → IsText held
        → cfg.addr ≡ some addr
        → tcp addr ≡ ok (receiving (answered hellos replies held rig bs))
        → ((token ≢ held)
            × (connect_networked cfg (some token) expected_rig
                ≡ err (unconnected (unadmitted addr daemon_denied))))
          ⊎ (((want : Text) × (token ≡ held)
                × (expected_rig ≡ some want)
                × (rig ≢ want)
                × (connect_networked cfg (some token) expected_rig ≡ err (other_rig rig want)))
              ⊎ ((token ≡ held)
                  × Expects expected_rig rig
                  × Identified cfg
                      (new_with_wire (sent [] bs))
                      (connect_networked cfg (some token) expected_rig)))
    unfolding connect check_rig
    networked_cases cfg expected_rig t h a e = elim (Bool-cases (token_eq token held)) [
      | inr differs ↦ inl (
        (λ p. ground (arith, differs, (token_eq_iff token held t h).1 p)),
        ground (arith, a, met e, differs),
      )
      | inl same ↦ inr (by_rig ((token_eq_iff token held t h).0 same) same expected_rig refl)
    ]
      where
        reached :
            (o : Option Text)
            → connect_networked cfg (some token) o
              ≡ identify send_resp (new_with_wire (sent [] bs)) cfg
            → Identified cfg (new_with_wire (sent [] bs)) (connect_networked cfg (some token) o)
        reached o same_as =
            subst (Identified cfg (new_with_wire (sent [] bs))) (sym same_as)
              (identify-Identified (new_with_wire (sent [] bs)) cfg)

        by_rig :
            token ≡ held
            → token_eq token held ≡ true
            → (o : Option Text) → expected_rig ≡ o
            → ((want : Text) × (token ≡ held)
                × (o ≡ some want)
                × (rig ≢ want)
                × (connect_networked cfg (some token) o ≡ err (other_rig rig want)))
              ⊎ ((token ≡ held)
                  × Expects o rig
                  × Identified cfg
                      (new_with_wire (sent [] bs))
                      (connect_networked cfg (some token) o))
        by_rig p same none f = inr (p, tt, reached none (ground (arith, a, met e, same)))
        by_rig p same (some want) f = elim (Bool-cases (text_eq rig want)) [
          | inl g ↦ inr (
            p,
            (text_eq_iff rig want).0 g,
            reached (some want) (ground (arith, a, met e, same, g)),
          )
          | inr g ↦ inl (
            want,
            p,
            refl,
            (λ q. ground (arith, g, (text_eq_iff rig want).1 q)),
            ground (arith, a, met e, same, g),
          )
        ]
