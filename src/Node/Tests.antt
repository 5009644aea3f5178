-- ===== src/Node/Tests.antt =====
-- banc-host/src/node.rs: nodes on the network and on USB, pinned to a device or not.
use banc.Common.{ℕ, ◌≡◌, refl, Bool, Option, none, some, arith, Result, ok, err}
use banc.Common.Text.{Text, codes, text_eq}
use banc.Config.{AssistantConfig}
use banc.Icd.{Identity, assistant, protocol_version}
use banc.Node.{Node, connect, identify, hex_digits, eq_ignore_ascii_case, check_pin, check_rig}
use banc.Assistant.{usb_serial}
use banc.Common.{◌≢◌, ◌⊎◌, List, [], ◌∷◌}
use banc.Net.{Stream, daemon_denied}
use banc.Net.Frames.{receiving}
use banc.Net.Wire.{NodeLinkError, unadmitted}
use banc.Net.Tests.{hellos, replies}
use banc.Node.{unconnected}
use banc.Node.Network.{connect_networked, answered, Expects, Identified, networked_cases}
use banc.Node.{NodeError, other_rig}
use banc.Node.Pin.{connected, IsReached, IsPinned}
use banc.Common.{inr, ◌<◌, ◌^◌, ◌↔◌, true, false}
use banc.Icd
use banc.Node.{usb_filter}
use banc.Node.Routing.{usb_routes}
use banc.Assistant.{dispatch}
use banc.Assistant.Tests.{desk}
use banc.Assistant.Start.{Request, start, chip_id, server_loop, usb_config}

abbrev radio : AssistantConfig
radio = record {
  name = codes "radio";
  serial = none;
  product = none;
  addr = some (codes "bench:9000");
  token_file = some (codes "token");
  unique_id = some (codes "00000000000000ab");
}

abbrev identity : Identity
identity = record {
  role = assistant;
  protocol_version = 0;
  unique_id = 171;
  fw_name = codes "fw";
  fw_version = codes "1";
}

abbrev answer : ℕ → Result Text Identity
answer client = ok identity

abbrev daemon : Text → Text → Result Text (ℕ × Text)
daemon addr token = ok (5, codes "bench")

abbrev no_usb : (Option Text → Option Text → Bool) → Result Text ℕ
no_usb filter = err (codes "none")

abbrev radio_node : Node ℕ
radio_node = record { client = 5; identity = identity }

radio_connects :
    connect answer daemon no_usb radio (some (codes "s3cret")) (some (codes "bench"))
    ≡ ok radio_node
unfolding connect identify check_pin check_rig hex_digits eq_ignore_ascii_case text_eq
radio_connects = refl

connected_example :
    IsReached answer daemon no_usb radio radio.addr (some (codes "s3cret")) (some (codes "bench")) 5
    × (answer 5 ≡ ok identity)
    × (0 ≡ protocol_version)
    × IsPinned answer daemon no_usb radio.unique_id 171
connected_example =
    connected answer daemon no_usb radio (some (codes "s3cret")) (some (codes "bench")) radio_node
      (ground arith) radio_connects

abbrev pinned : AssistantConfig
pinned = record radio { unique_id = some (usb_serial 171) }

abbrev held : Text
held = codes "s3cret"

abbrev bench : Text
bench = codes "bench"

abbrev said : List ℕ
said = 0 ∷ 0 ∷ held

abbrev to_daemon : Text → Result Text Stream
to_daemon addr = ok (receiving (answered hellos replies held bench said))

abbrev over_wire : List ℕ → Result (NodeLinkError Text) Identity
over_wire client = ok identity

abbrev nothing_plugged : (Option Text → Option Text → Bool) → Result (NodeLinkError Text) (List ℕ)
nothing_plugged filter = err (unadmitted bench daemon_denied)

abbrev outcome : Result (NodeError (NodeLinkError Text)) (Node (List ℕ))
outcome =
    connect_networked hellos replies to_daemon (λ s. s.incoming) over_wire nothing_plugged radio
      (some held) (some bench)

networked_cases_example :
    ((held ≢ held) × (outcome ≡ err (unconnected (unadmitted (codes "bench:9000") daemon_denied))))
    ⊎ (((want : Text) × (held ≡ held)
          × (some bench ≡ some want)
          × (bench ≢ want)
          × (outcome ≡ err (other_rig bench want)))
        ⊎ ((held ≡ held)
            × Expects hellos replies to_daemon
                (λ s. s.incoming)
                over_wire
                nothing_plugged
                (some bench)
                bench
            × Identified hellos replies to_daemon
                (λ s. s.incoming)
                over_wire
                nothing_plugged
                radio
                []
                outcome))
networked_cases_example =
    networked_cases hellos replies to_daemon (λ s. s.incoming) over_wire nothing_plugged
      (codes "bench:9000") held held bench said (1 ∷ bench) (0 ∷ []) (refl, ground arith)
      (refl, ground arith) (refl, ground arith) radio (some bench) (ground arith) (ground arith)
      refl refl

-- A config for the device 171, and a device whose id is 172 and that has served a request.
abbrev plugged : AssistantConfig
plugged = record radio {
  addr = none;
  serial = some (usb_serial 171);
  product = some (codes "banc-assistant");
}

abbrev id_171 : Result Text ℕ
id_171 = ok 171

abbrev id_172 : Result Text ℕ
id_172 = ok 172

abbrev served : List (List (Request desk))
served =
    (record { endpoint = Icd.identify; rqst = tt; is_high = λ flex. flex; tasks = λ d. d } ∷ [])
    ∷ []

small_171 : chip_id id_171 < 16 ^ 16
unfolding chip_id
small_171 = ground arith

small_172 : chip_id id_172 < 16 ^ 16
unfolding chip_id
small_172 = ground arith

serial_171 : plugged.serial ≡ (start desk id_171 (λ i. false) (λ i. false)).usb.serial_number
unfolding start usb_config
serial_171 = refl

usb_routes_example :
    let fw = server_loop desk (codes "1") (start desk id_172 (λ i. false) (λ i. false)) served in
    ((usb_filter plugged fw.usb.serial_number fw.usb.product ≡ true)
      ↔ (chip_id id_171 ≡ chip_id id_172))
    × ((dispatch desk fw.unique_id (codes "1") (λ flex. flex) fw.device Icd.identify tt).0.unique_id
        ≡ chip_id id_172)
usb_routes_example =
    usb_routes desk (codes "1") plugged id_171 id_172 (λ i. false) (λ i. false) served
      (λ flex. flex) small_171 small_172 serial_171 (inr refl)
