-- ===== src/Node.antt =====
-- banc-host/src/node.rs: connecting to a node and identifying it. What the network, USB and the node
-- answer are arguments; `C` is the type of a client.
pub mod Pin
pub mod Firmware
pub mod Network
pub mod Routing
mod Tests
use banc.Common.{
  ℕ, zero, suc, ◌+◌, ◌-◌, ◌*◌, ◌/◌, ◌%◌, ◌≤◌, Bool, true, false, Option, none, some, List, [], ◌∷◌,
  ◌++◌, ◌==◌, ◌&&◌, leb, ltb, if◌then◌else◌, Result, ok, err, ◌>>=◌, ◌>>◌, guard, map_err, ok_or,
  map,
}
use banc.Common.Text.{Text, text_eq}
use banc.Config.{AssistantConfig}
use banc.Icd.{Identity, protocol_version}

pub record Node (C : Type 0) : Type 0 where
  pub client : C
  pub identity : Identity

pub data NodeError (E : Type 0) : Type 0 where
  no_token : Text → NodeError E
  unconnected unidentified not_reset : E → NodeError E
  other_rig : (rig_name want : Text) → NodeError E
  other_version : ℕ → NodeError E
  other_id : (got want : Text) → NodeError E

abbrev pub hex_digit : ℕ → ℕ
hex_digit d = if ltb d 10 then d + b'0' else d + 55

-- `{:016X}` of a number below 16 ^ 16, with the width as an argument.
unfoldable pub hex_digits : ℕ → ℕ → Text
hex_digits zero n = []
hex_digits (suc width) n = hex_digits width (n / 16) ++ (hex_digit (n % 16) ∷ [])

abbrev pub to_ascii_lowercase : ℕ → ℕ
to_ascii_lowercase c = if leb b'A' c && leb c b'Z' then c + 32 else c

unfoldable pub eq_ignore_ascii_case : Text → Text → Bool
eq_ignore_ascii_case a b = text_eq (map to_ascii_lowercase a) (map to_ascii_lowercase b)

-- What the config asks of a device that USB lists, by its serial number and its product.
abbrev is_none_or : Option Text → Option Text → Bool
is_none_or none got = true
is_none_or (some want) none = false
is_none_or (some want) (some got) = text_eq got want

unfoldable pub usb_filter : AssistantConfig → (serial_number product_string : Option Text) → Bool
usb_filter cfg serial_number product_string =
    is_none_or cfg.serial serial_number && is_none_or cfg.product product_string

check_pin : {E : Type 0} → Option Text → ℕ → Result (NodeError E) (Unit {0})
check_pin none unique_id = ok tt
check_pin (some want) unique_id =
    guard (eq_ignore_ascii_case (hex_digits 16 unique_id) want)
      (other_id (hex_digits 16 unique_id) want)

pub check_rig : {E : Type 0} → Option Text → Text → Result (NodeError E) (Unit {0})
check_rig none rig_name = ok tt
check_rig (some want) rig_name = guard (text_eq rig_name want) (other_rig rig_name want)

module _ {E C : Type 0} where
  -- `send_resp` is what the client answers to the identify request. A role other than that of an
  -- assistant is only warned of.
  unfoldable pub identify :
      (C → Result E Identity) → C → AssistantConfig → Result (NodeError E) (Node C)
  unfolding check_pin
  identify send_resp client cfg = do
    identity ← map_err unidentified (send_resp client)
    guard (identity.protocol_version == protocol_version) (other_version identity.protocol_version)
    check_pin cfg.unique_id identity.unique_id
    ok (record { client = client; identity = identity })

  -- `connect_node` and the first device that USB has for a filter are arguments.
  unfoldable pub connect :
      (C → Result E Identity)
      → (connect_node : Text → Text → Result E (C × Text))
      → (try_new_raw_nusb : (Option Text → Option Text → Bool) → Result E C) → AssistantConfig
      → Option Text
      → Option Text
      → Result (NodeError E) (Node C)
  unfolding check_rig
  connect send_resp connect_node try_new_raw_nusb cfg token expected_rig = elim cfg.addr [
    | some addr ↦ do
      token' ← ok_or token (no_token cfg.name)
      reached ← map_err unconnected (connect_node addr token')
      check_rig expected_rig reached.1
      identify send_resp reached.0 cfg
    | none ↦ do
      client ← map_err unconnected (try_new_raw_nusb (usb_filter cfg))
      identify send_resp client cfg
  ]

  -- `Node::reset`, with what the client answers to the reset request.
  unfoldable pub reset : (C → Result E (Unit {0})) → Node C → Result (NodeError E) (Unit {0})
  reset send_reset node = map_err not_reset (send_reset node.client)
