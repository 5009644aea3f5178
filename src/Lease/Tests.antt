-- ===== src/Lease/Tests.antt =====
-- banc-host/src/net/lease.rs: runs of the server and of its clients.
use banc.Common.{
  ℕ, ◌+◌, ◌≡◌, ◌≢◌, refl, false, Option, none, some, List, [], ◌∷◌, arith, All, map, ok, err, zero,
  suc,
}
use banc.Common.Text.{Text, codes}
use banc.Common.Time.{from_secs}
use banc.Net.{Codec}
use banc.Net.Frames.{receiving}
use banc.Net.Handshake.{Fits, total_codec}
use banc.Lease.{
  LeaseRequest, LeaseReply, Held, Call, acquire, renew, release, granted, busy, done, gone, new,
  holder, handle, run, expire, dispatch, grant, clamp_ttl, mint_lease_id, from_le_bytes,
  remaining_s,
}
use banc.Lease.Exclusion.{granted-excludes, is_granted}
use banc.Lease.Bounds.{abandoned_granted}
use banc.Lease.Refinement.{run-countdown, countdown, named}
use banc.Lease.Serve.{hung_up, serve_conn, serve_conn-run, frames, ticks}
use banc.Lease.Renewal.{renewed_holds}
use banc.Lease.Client.{Answer, acquire_loop, waiting, Renewer, Wake, stopped, period}
use banc.Lease.Client.Acquire.{acquire_loop_ends}

abbrev alice : Text
alice = codes "alice"

abbrev bob : Text
bob = codes "bob"

abbrev call : ℕ → List ℕ → LeaseRequest → Call
call s buf req = record { now = from_secs s; buf = buf; req = req }

abbrev between : List Call
between =
    call 2 (9 ∷ []) (acquire bob 30) ∷ call 3 [] (release 8) ∷ call 4 [] LeaseRequest.status ∷ []

first_granted : (handle (from_secs 1) (7 ∷ []) new (acquire alice 10)).1 ≡ granted 7
unfolding handle expire dispatch grant new mint_lease_id from_le_bytes
first_granted = refl

ten : clamp_ttl 10 ≡ 10
unfolding clamp_ttl
ten = refl

granted-excludes_example :
    let (final, replies) = run (handle (from_secs 1) (7 ∷ []) new (acquire alice 10)).0 between in
    (holder (from_secs 10) final ≡ some alice) × All (λ r. is_granted r ≡ false) replies
granted-excludes_example =
    granted-excludes new (from_secs 1) (7 ∷ []) alice 10 7 between (from_secs 10) first_granted
      (ground arith) (rw ten (ground arith)) (ground arith) (rw ten (ground arith))

abbrev held : Held
held = record { id = 7; holder = alice; expires_at = from_secs 20; ttl = from_secs 10 }

let_go : (handle (from_secs 5) [] (some held) (release 7)).0 ≢ some held
unfolding handle expire dispatch
let_go e = cc e

abandoned_granted_example :
    (handle (from_secs 3604) (5 ∷ []) (run new between).0 (acquire alice 60)).1
    ≡ granted (mint_lease_id (5 ∷ []))
abandoned_granted_example =
    abandoned_granted (from_secs 1) (from_secs 4) (from_secs 3604) between (5 ∷ []) alice 60
      (ground arith) (ground arith) (ground arith) (ground arith)

run-countdown_example :
    let (final, replies) = run new between in
    let (slot, foretold) = countdown (from_secs 5) (from_secs 1) none between in
    (replies ≡ foretold) × (holder (from_secs 5) final ≡ named slot)
run-countdown_example =
    run-countdown (from_secs 1) (from_secs 5) between (ground arith) (ground arith) (ground arith)

abbrev renewals : List Call
renewals = call 15 [] (renew 7) ∷ call 21 [] (acquire bob 5) ∷ call 24 [] (renew 7) ∷ []

renewed_holds_example :
    (holder (from_secs 33) (run (some held) renewals).0 ≡ some alice)
    × All (λ r. is_granted r ≡ false) (run (some held) renewals).1
renewed_holds_example = renewed_holds held (from_secs 33) renewals (ground arith)

-- An encoding of the messages, for the examples: a tag and the fields.
abbrev pub to_request : LeaseRequest → List ℕ
to_request (acquire who ttl_s) = 0 ∷ ttl_s ∷ who
to_request (renew id) = 1 ∷ id ∷ []
to_request (release id) = 2 ∷ id ∷ []
to_request LeaseRequest.status = 3 ∷ []

abbrev of_request : List ℕ → Option LeaseRequest
of_request (zero ∷ ttl_s ∷ who) = some (acquire who ttl_s)
of_request ((suc zero) ∷ id ∷ []) = some (renew id)
of_request ((suc (suc zero)) ∷ id ∷ []) = some (release id)
of_request ((suc (suc (suc zero))) ∷ []) = some LeaseRequest.status
of_request _ = none

pub of_request-to_request : (a : LeaseRequest) → of_request (to_request a) ≡ some a
of_request-to_request (acquire who ttl_s) = refl
of_request-to_request (renew id) = refl
of_request-to_request (release id) = refl
of_request-to_request LeaseRequest.status = refl

abbrev pub requests : Codec LeaseRequest
requests = total_codec to_request of_request of_request-to_request

abbrev pub to_reply : LeaseReply → List ℕ
to_reply (granted id) = 0 ∷ id ∷ []
to_reply (busy who s) = 1 ∷ s ∷ who
to_reply done = 2 ∷ []
to_reply gone = 3 ∷ []
to_reply (LeaseReply.status none s) = 4 ∷ s ∷ []
to_reply (LeaseReply.status (some who) s) = 5 ∷ s ∷ who

abbrev of_reply : List ℕ → Option LeaseReply
of_reply (zero ∷ id ∷ []) = some (granted id)
of_reply ((suc zero) ∷ s ∷ who) = some (busy who s)
of_reply ((suc (suc zero)) ∷ []) = some done
of_reply ((suc (suc (suc zero))) ∷ []) = some gone
of_reply ((suc (suc (suc (suc zero)))) ∷ s ∷ []) = some (LeaseReply.status none s)
of_reply ((suc (suc (suc (suc (suc zero))))) ∷ s ∷ who) = some (LeaseReply.status (some who) s)
of_reply _ = none

pub of_reply-to_reply : (a : LeaseReply) → of_reply (to_reply a) ≡ some a
of_reply-to_reply (granted id) = refl
of_reply-to_reply (busy who s) = refl
of_reply-to_reply done = refl
of_reply-to_reply gone = refl
of_reply-to_reply (LeaseReply.status none s) = refl
of_reply-to_reply (LeaseReply.status (some who) s) = refl

abbrev pub replies : Codec LeaseReply
replies = total_codec to_reply of_reply of_reply-to_reply

replies_fit : All (λ r. Fits replies r (to_reply r)) (run new between).1
unfolding run handle expire dispatch grant new mint_lease_id from_le_bytes remaining_s clamp_ttl
replies_fit = ((refl, ground arith), ((refl, ground arith), ((refl, ground arith), tt)))

serve_conn-run_example :
    serve_conn requests replies
      (ticks requests replies to_request to_reply between (record { now = from_secs 9; buf = [] }))
      new
      (receiving (frames requests replies to_request (map (λ c. c.req) between)))
    ≡ record {
      end = hung_up;
      state = (run new between).0;
      stream = record {
        incoming = [];
        outgoing = frames requests replies to_reply (run new between).1;
      };
    }
serve_conn-run_example =
    serve_conn-run requests replies to_request to_reply between
      (record { now = from_secs 9; buf = [] }) new
      ((refl, ground arith), ((refl, ground arith), ((refl, ground arith), tt))) replies_fit

-- Two answers that say busy, and a grant.
abbrev answers : List (Answer Text)
answers =
    record { reply = ok (busy bob 20); at = from_secs 1 }
    ∷ record { reply = ok (busy bob 18); at = from_secs 3 }
    ∷ record { reply = ok (granted 4); at = from_secs 5 }
    ∷ []

acquire_loop_ends_example : acquire_loop (0 + from_secs 2) (from_secs 2) answers ≢ waiting
acquire_loop_ends_example = acquire_loop_ends 0 (from_secs 2) answers (ground arith) (ground arith)

abbrev renewer : Renewer ℕ
renewer = record { stream = 1; id = 7 }

-- A renewal that fails, and a reconnection that is granted the lease 8 on the stream 2.
abbrev wakes : List (Wake Text ℕ)
wakes =
    period (err (codes "reset")) (ok 2) (λ s. ok (granted 8))
    ∷ period (ok done) (err (codes "unused")) (λ s. ok gone)
    ∷ stopped
    ∷ []

-- The streams and the leases that were granted on them.
abbrev Ours : ℕ → ℕ → Type 0
Ours s id = id ≡ s + 6

abbrev steady : List (Wake Text ℕ)
steady = period (ok done) (err (codes "unused")) (λ s. ok gone) ∷ []
