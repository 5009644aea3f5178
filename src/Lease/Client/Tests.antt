-- ===== src/Lease/Client/Tests.antt =====
-- banc-host/src/net/lease.rs: a daemon whose rig is held, and what its handshake is encoded by.
use banc.Common.{ℕ, ◌≡◌, refl, Option, none, some, List, [], ◌∷◌, arith, Result, ok, zero, suc}
use banc.Common.Text.{Text, codes}
use banc.Common.Time.{from_secs}
use banc.Net.{Codec, Hello, HelloReply, accepted, denied, Role, node, lease, Stream}
use banc.Net.Frames.{receiving}
use banc.Net.Handshake.{Fits, total_codec}
use banc.Lease.{LeaseRequest, LeaseServer, handle, expire, dispatch, remaining_s}
use banc.Lease.Serve.{Tick}
use banc.Lease.Client.Wire.{connect_timeout, connect_first}
use banc.Lease.Client.Status.{served}
use banc.Lease.Tests.{requests, replies, to_request, to_reply}

abbrev pub to_hello : Hello → List ℕ
to_hello h = h.version ∷ (elim h.role [ node ↦ 0 | lease ↦ 1 ]) ∷ h.token

abbrev pub of_role : ℕ → Role
of_role zero = node
of_role (suc n) = lease

abbrev pub of_hello : List ℕ → Option Hello
of_hello (v ∷ r ∷ token) = some (record { version = v; role = of_role r; token = token })
of_hello _ = none

pub of_role-tag : (h : Hello) → of_hello (to_hello h) ≡ some h
of_role-tag h = by_role h.role refl
  where
    by_role : (r : Role) → h.role ≡ r → of_hello (to_hello h) ≡ some h
    by_role r e = ground (arith, e)

abbrev pub hellos : Codec Hello
hellos = total_codec to_hello of_hello of_role-tag

abbrev pub to_hello_reply : HelloReply → List ℕ
to_hello_reply (accepted rig_name) = 1 ∷ rig_name
to_hello_reply denied = 0 ∷ []

abbrev pub of_hello_reply : List ℕ → Option HelloReply
of_hello_reply (zero ∷ bs) = some denied
of_hello_reply (suc n ∷ rig_name) = some (accepted rig_name)
of_hello_reply [] = none

pub of_hello_reply-to_hello_reply : (r : HelloReply) → of_hello_reply (to_hello_reply r) ≡ some r
of_hello_reply-to_hello_reply (accepted rig_name) = refl
of_hello_reply-to_hello_reply denied = refl

abbrev pub hello_replies : Codec HelloReply
hello_replies = total_codec to_hello_reply of_hello_reply of_hello_reply-to_hello_reply

abbrev pub token : Text
token = codes "s3cret"

abbrev pub rig : Text
rig = codes "bench"

abbrev pub busy_rig : LeaseServer
busy_rig =
    some (record { id = 7; holder = codes "ci"; expires_at = from_secs 60; ttl = from_secs 60 })

abbrev at_9 : Tick
at_9 = record { now = from_secs 9; buf = [] }

-- What the daemon sends back on the connection.
abbrev sent_back : List ℕ
sent_back =
    (served hellos hello_replies requests replies to_request to_reply token rig (0 ∷ 1 ∷ token) at_9
      at_9 busy_rig).stream.outgoing

-- One address, at which the daemon answers.
abbrev tcp : ℕ → Result Text Stream
tcp a = ok (receiving sent_back)

there : connect_timeout tcp (ok (1 ∷ [])) ≡ ok (receiving sent_back)
unfolding connect_timeout connect_first
there = refl

status_encoded :
    Fits replies
      (handle at_9.now at_9.buf busy_rig LeaseRequest.status).1
      (to_reply (handle at_9.now at_9.buf busy_rig LeaseRequest.status).1)
unfolding handle expire dispatch remaining_s
status_encoded = (refl, ground arith)
