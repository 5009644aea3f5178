-- ===== src/Lease/Client/Asking/Tests.antt =====
-- banc-host/src/net/lease.rs: an acquisition that is told once that the rig is busy, and one that is
-- granted at once.
use banc.Common.{ℕ, ◌≡◌, refl, some, List, [], ◌∷◌, arith, Result, ok, All}
use banc.Common.Text.{Text, codes}
use banc.Common.Time.{Instant, from_secs}
use banc.Net.{Stream, lease}
use banc.Net.Frames.{receiving}
use banc.Net.Handshake.{Fits}
use banc.Lease.{
  LeaseRequest, run, handle, expire, dispatch, remaining_s, grant, mint_lease_id, from_le_bytes,
  granted,
}
use banc.Lease.Serve.{Tick, hung_up}
use banc.Lease.Tests.{requests, replies, to_request, to_reply}
use banc.Lease.Client.{acquire_request, default_ttl, acquire_loop, Answer}
use banc.Lease.Client.Tests.{hellos, hello_replies, token, rig, busy_rig}
use banc.Lease.Client.Wire.{connect_timeout, connect_first, connect}
use banc.Lease.Client.Dialogue.{acquire_on, answers, asks, Turns}
use banc.Lease.Client.Asking.{acquire_over_wire, written, admitting, serving}
use banc.Lease.Client.Life.{LeaseClient, begun, acquire_client}

-- A client that asks a second before the lease runs out, and again after that.
abbrev question : LeaseRequest
question = acquire_request (codes "dev") default_ttl

abbrev asking_at : List Tick
asking_at =
    record { now = from_secs 59; buf = 4 ∷ [] } ∷ record { now = from_secs 61; buf = 9 ∷ [] } ∷ []

abbrev hang_up : Tick
hang_up = record { now = from_secs 62; buf = [] }

abbrev looks_at : List Instant
looks_at = from_secs 60 ∷ from_secs 61 ∷ []

abbrev asking_input : List ℕ
asking_input =
    written hellos hello_replies requests replies to_request (0 ∷ 1 ∷ token) question asking_at

abbrev said_back : List ℕ
said_back =
    (serving hellos hello_replies requests replies token rig asking_input question asking_at hang_up
      busy_rig).stream.outgoing

abbrev asking_tcp : ℕ → Result Text Stream
asking_tcp a = ok (receiving said_back)

reached : connect_timeout asking_tcp (ok (1 ∷ [])) ≡ ok (receiving said_back)
unfolding connect_timeout connect_first
reached = refl

two_questions : Turns (from_secs 70) question busy_rig asking_at looks_at
unfolding handle expire dispatch remaining_s
two_questions = ((codes "ci", 1, refl), omega arith, tt)

both_encoded : All (λ r. Fits replies r (to_reply r)) (run busy_rig (asks question asking_at)).1
unfolding run handle expire dispatch remaining_s grant mint_lease_id from_le_bytes
both_encoded = ((refl, ground arith), ((refl, ground arith), tt))

acquire_over_wire_example :
    ((admitting hellos hello_replies requests replies token rig asking_input).0 ≡ ok lease)
    × ((serving hellos hello_replies requests replies token rig asking_input question asking_at
          hang_up busy_rig).end
        ≡ hung_up)
    × ((serving hellos hello_replies requests replies token rig asking_input question asking_at
          hang_up busy_rig).state
        ≡ (run busy_rig (asks question asking_at)).0)
    × (s : Stream) × (connect hellos hello_replies requests replies asking_tcp (ok (1 ∷ [])) token
        ≡ ok s)
    × (acquire_on hellos hello_replies requests replies
          (from_secs 70)
          (from_secs 70)
          question
          looks_at
          s
        ≡ (
          acquire_loop
              (from_secs 70)
              (from_secs 70)
              (answers (run busy_rig (asks question asking_at)).1 looks_at),
          record { incoming = []; outgoing = asking_input },
        ))
acquire_over_wire_example =
    acquire_over_wire hellos hello_replies requests replies asking_tcp (ok (1 ∷ [])) to_request
      to_reply token rig (0 ∷ 1 ∷ token) (1 ∷ rig) (0 ∷ []) (from_secs 70) (from_secs 70) question
      asking_at hang_up looks_at busy_rig (refl, ground arith) (refl, ground arith)
      (refl, ground arith) (refl, ground arith) both_encoded (ground arith) two_questions reached

-- A client that is granted the lease 7 at once.
abbrev listened : ℕ → List (Answer Text)
listened s = record { reply = ok (granted 7); at = from_secs 1 } ∷ []

abbrev client : LeaseClient ℕ
client = record { stop = some tt; thread = some (record { stream = 5; id = 7 }) }

begins : acquire_client {E = Text} 0 (from_secs 9) (ok 5) listened (ok tt) ≡ begun client
unfolding acquire_client acquire_loop
begins = refl
