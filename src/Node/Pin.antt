-- ===== src/Node/Pin.antt =====
-- banc-host/src/node.rs: which device a node that is connected to is.
use banc.Common.{
  ℕ, zero, suc, ◌+◌, ◌-◌, ◌*◌, ◌/◌, ◌%◌, ◌^◌, ◌<◌, ◌≡◌, inl, inr, refl, Bool, true, Option, none,
  some, [], ◌∷◌, ◌++◌, map, arith, ◌==◌, ltb, if◌then◌else◌, Result, ok, Bool-cases, Result-cases,
  sym, ap, subst, ◌∙◌,
}
use banc.Common.Text.{Text, text_eq_iff}
use banc.Config.{AssistantConfig}
use banc.Icd.{Identity, protocol_version}
use banc.Node.{
  Node, hex_digit, hex_digits, to_ascii_lowercase, eq_ignore_ascii_case, identify, check_pin,
  check_rig, connect, usb_filter,
}

-- The number that hexadecimal digits of either case denote.
abbrev digit_value : ℕ → ℕ
digit_value c =
    if ltb (to_ascii_lowercase c) 58 then to_ascii_lowercase c - 48 else to_ascii_lowercase c - 87

abbrev hex_from : ℕ → Text → ℕ
hex_from acc [] = acc
hex_from acc (c ∷ t) = hex_from (acc * 16 + digit_value c) t

abbrev pub hex_value : Text → ℕ
hex_value t = hex_from 0 t

hex_from-snoc :
    (t : Text) (acc c : ℕ) → hex_from acc (t ++ (c ∷ [])) ≡ hex_from acc t * 16 + digit_value c
hex_from-snoc [] acc c = refl
hex_from-snoc (d ∷ t) acc c = hex_from-snoc t (acc * 16 + digit_value d) c

lower-lower : (c : ℕ) → to_ascii_lowercase (to_ascii_lowercase c) ≡ to_ascii_lowercase c
lower-lower c = ground arith

hex_from-lower : (t : Text) (acc : ℕ) → hex_from acc (map to_ascii_lowercase t) ≡ hex_from acc t
hex_from-lower [] acc = refl
hex_from-lower (c ∷ t) acc =
    ap (λ x. hex_from (acc * 16 + (if ltb x 58 then x - 48 else x - 87)) (map to_ascii_lowercase t))
      (lower-lower c)
    ∙ hex_from-lower t (acc * 16 + digit_value c)

digit_value-hex_digit : (d : ℕ) → d < 16 → digit_value (hex_digit d) ≡ d
digit_value-hex_digit d h = ground arith

pub hex_value-hex_digits : (width n : ℕ) → n < 16 ^ width → hex_value (hex_digits width n) ≡ n
unfolding hex_digits
hex_value-hex_digits zero n h = omega arith
hex_value-hex_digits (suc width) n h =
    let ih = hex_value-hex_digits width (n / 16) (omega arith) in
    let d = digit_value-hex_digit (n % 16) (omega arith) in
    hex_from-snoc (hex_digits width (n / 16)) 0 (hex_digit (n % 16))
    ∙ ap (λ x. x * 16 + digit_value (hex_digit (n % 16))) ih
    ∙ ap (λ x. n / 16 * 16 + x) d
    ∙ omega arith

pub pin-value :
    (n : ℕ) (want : Text)
    → n < 16 ^ 16
    → eq_ignore_ascii_case (hex_digits 16 n) want ≡ true
    → hex_value want ≡ n
unfolding eq_ignore_ascii_case
pin-value n want h e =
    let same = (text_eq_iff _ _).0 e in
    sym (hex_from-lower want 0)
    ∙ ap hex_value (sym same)
    ∙ hex_from-lower (hex_digits 16 n) 0
    ∙ hex_value-hex_digits 16 n h

module _ {E C : Type 0} (send_resp : C → Result E Identity)
    (connect_node : Text → Text → Result E (C × Text))
    (try_new_raw_nusb : (Option Text → Option Text → Bool) → Result E C) where
  -- What the config pins a device to.
  abbrev pub IsPinned : Option Text → ℕ → Type 0
  IsPinned none unique_id = Unit {0}
  IsPinned (some want) unique_id = hex_value want ≡ unique_id

  check_pin-IsPinned :
      (want : Option Text) (n : ℕ)
      → n < 16 ^ 16
      → check_pin {E = E} want n ≡ ok tt
      → IsPinned want n
  unfolding check_pin
  check_pin-IsPinned none n h e = tt
  check_pin-IsPinned (some want) n h e = pin-value n want h (ground arith)

  identified :
      (client : C) (cfg : AssistantConfig) (node : Node C)
      → identify send_resp client cfg ≡ ok node
      → (node.client ≡ client)
        × (send_resp client ≡ ok node.identity)
        × (node.identity.protocol_version ≡ protocol_version)
        × (check_pin {E = E} cfg.unique_id node.identity.unique_id ≡ ok tt)
  unfolding identify
  identified client cfg node e = elim (Result-cases (send_resp client)) [
    | inl (i, f) ↦ elim (Result-cases (check_pin {E = E} cfg.unique_id i.unique_id)) [
      | inl (u, g) ↦ elim (Bool-cases (i.protocol_version == protocol_version)) [
        | inl h ↦
            let r : record { client = client; identity = i } ≡ node = ground arith in
            subst
              (λ x.
                (x.client ≡ client)
                × (send_resp client ≡ ok x.identity)
                × (x.identity.protocol_version ≡ protocol_version)
                × (check_pin {E = E} cfg.unique_id x.identity.unique_id ≡ ok tt))
              r (refl, f, ground arith, g)
        | inr h ↦ ground arith
      ]
      | inr (x, g) ↦ ground arith
    ]
    | inr (x, f) ↦ ground arith
  ]

  abbrev pub IsExpected : Option Text → Text → Type 0
  IsExpected none rig_name = Unit {0}
  IsExpected (some want) rig_name = rig_name ≡ want

  -- How a client is reached: over USB as the first device that matches, or over the network with the
  -- token, on the rig that was expected.
  abbrev pub IsReached : AssistantConfig → Option Text → Option Text → Option Text → C → Type 0
  IsReached cfg none token expected_rig client = try_new_raw_nusb (usb_filter cfg) ≡ ok client
  IsReached cfg (some addr) token expected_rig client =
      (token' : Text) × (rig_name : Text) × (token ≡ some token')
      × (connect_node addr token' ≡ ok (client, rig_name))
      × IsExpected expected_rig rig_name

  check_rig-IsExpected :
      (want : Option Text) (rig_name : Text)
      → check_rig {E = E} want rig_name ≡ ok tt
      → IsExpected want rig_name
  unfolding check_rig
  check_rig-IsExpected none rig_name e = tt
  check_rig-IsExpected (some want) rig_name e = ground (arith, text_eq_iff rig_name want)

  reached :
      (cfg : AssistantConfig) (token expected_rig : Option Text) (node : Node C)
      → connect send_resp connect_node try_new_raw_nusb cfg token expected_rig ≡ ok node
      → (client : C) × (identify send_resp client cfg ≡ ok node)
        × IsReached cfg cfg.addr token expected_rig client
  unfolding connect
  reached cfg token expected_rig node e = go cfg.addr refl token refl
    where
      go :
          (addr : Option Text)
          → cfg.addr ≡ addr
          → (t : Option Text) → token ≡ t
          → (client : C) × (identify send_resp client cfg ≡ ok node)
            × IsReached cfg addr token expected_rig client
      go none f t g = elim (Result-cases (try_new_raw_nusb (usb_filter cfg))) [
        | inl (c, h) ↦ (c, ground arith, h)
        | inr (x, h) ↦ ground arith
      ]
      go (some addr) f none g = ground arith
      go (some addr) f (some token') g = elim (Result-cases (connect_node addr token')) [
        | inl (r, h) ↦ elim (Result-cases (check_rig {E = E} expected_rig r.1)) [
          | inl (u, k) ↦
              (r.0, ground arith, (token', r.1, g, h, check_rig-IsExpected expected_rig r.1 k))
          | inr (x, k) ↦ ground arith
        ]
        | inr (x, h) ↦ ground arith
      ]

  -- A node that `connect` gives was reached the way that its config says, on the rig that was
  -- expected if it is networked, speaks this version of the protocol, and is, where the config
  -- names a device, the very one: its id, of 64 bits, is the number that the config's digits
  -- denote, in either case of letters.
  pub connected :
      (cfg : AssistantConfig) (token expected_rig : Option Text) (node : Node C)
      → node.identity.unique_id < 16 ^ 16
      → connect send_resp connect_node try_new_raw_nusb cfg token expected_rig ≡ ok node
      → IsReached cfg cfg.addr token expected_rig node.client
        × (send_resp node.client ≡ ok node.identity)
        × (node.identity.protocol_version ≡ protocol_version)
        × IsPinned cfg.unique_id node.identity.unique_id
  connected cfg token expected_rig node h e =
      let (client, i, r) = reached cfg token expected_rig node e in
      let (same, answer, version, pin) = identified client cfg node i in
      (
        subst (IsReached cfg cfg.addr token expected_rig) (sym same) r,
        subst (λ c. send_resp c ≡ ok node.identity) (sym same) answer,
        version,
        check_pin-IsPinned cfg.unique_id node.identity.unique_id h pin,
      )
