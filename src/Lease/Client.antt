-- ===== src/Lease/Client.antt =====
-- banc-host/src/net/lease.rs: the client side, against whatever the server and the wire answer.
-- A roundtrip, and the connect before it, may fail with an error of any kind; that error is data
-- of a type `E` that the client only passes on.
pub mod Acquire
pub mod Wire
pub mod Status
pub mod Dialogue
pub mod Asking
pub mod Tests
pub mod Renew
pub mod Sessions
pub mod Fencing
pub mod Justified
pub mod Holding
pub mod Sole
pub mod Handover
pub mod Life
use banc.Common.{
  ℕ, ◌+◌, ◌/◌, ◌%◌, ◌^◌, Bool, true, false, Option, none, some, List, [], ◌∷◌, leb, if◌then◌else◌,
  Result, ok, err, ◌>>=◌,
}
use banc.Common.Text.{Text}
use banc.Common.Time.{Instant, Duration, from_secs, from_millis, as_secs}
use banc.Lease.{LeaseRequest, LeaseReply, acquire, renew, release, granted, busy, done, gone}

abbrev pub default_ttl : Duration
default_ttl = from_secs 60

abbrev pub join_timeout : Duration
join_timeout = from_secs 15

pub data ClientError (E : Type 0) : Type 0 where
  failed : E → ClientError E
  unexpected : LeaseReply → ClientError E
  -- The lease is held by another, to end in so many seconds, and the wait took `timeout`.
  gave_up : (other : Text) (expires_in_s : ℕ) (timeout : Duration) → ClientError E
  now_held_by : Text → ClientError E

pub record LeaseStatus : Type 0 where
  pub holder : Option Text
  pub expires_in_s : ℕ

-- The request that `acquire` and `reacquire` send.
abbrev pub acquire_request : Text → Duration → LeaseRequest
acquire_request holder ttl = acquire holder (as_secs ttl % 2 ^ 32)

-- One answer to an `Acquire`, and the instant at which the client looks at it.
pub record Answer (E : Type 0) : Type 0 where
  pub reply : Result E LeaseReply
  pub at : Instant

pub data Acquired (E : Type 0) : Type 0 where
  got : ℕ → Acquired E
  refused : ClientError E → Acquired E
  -- All answers were `Busy`, and the client sleeps for a second before it asks again.
  waiting : Acquired E

module _ {E : Type 0} where
  -- `query_status`, from what its roundtrip with `Status` answers.
  pub query_status : Result E LeaseReply → Result (ClientError E) LeaseStatus
  query_status (err e) = err (failed e)
  query_status (ok (LeaseReply.status holder s)) = ok (record { holder = holder; expires_in_s = s })
  query_status (ok (granted id)) = err (unexpected (granted id))
  query_status (ok (busy who s)) = err (unexpected (busy who s))
  query_status (ok done) = err (unexpected done)
  query_status (ok gone) = err (unexpected gone)

  -- The loop of `LeaseClient::acquire`, over the answers that it gets in turn.
  unfoldable pub acquire_loop : Instant → Duration → List (Answer E) → Acquired E
  acquire_loop deadline timeout [] = waiting
  acquire_loop deadline timeout (a ∷ as') = elim a.reply [
    | err e ↦ refused (failed e)
    | ok (granted id) ↦ got id
    | ok (busy other s) ↦ elim (leb deadline a.at) [
      | true ↦ refused (gave_up other s timeout)
      | false ↦ acquire_loop deadline timeout as'
    ]
    | ok other ↦ refused (unexpected other)
  ]

  -- `reacquire`, from what the connect answers and what the roundtrip on its stream does.
  unfoldable pub reacquire :
      {S : Type 0} → Result E S → (S → Result E LeaseReply) → Result (ClientError E) (S × ℕ)
  reacquire (err e) answer = err (failed e)
  reacquire (ok stream) answer = elim (answer stream) [
    | err e ↦ err (failed e)
    | ok (granted id) ↦ ok (stream, id)
    | ok (busy other s) ↦ err (now_held_by other)
    | ok other ↦ err (unexpected other)
  ]

-- The local variables of `renew_loop`.
pub record Renewer (S : Type 0) : Type 0 where
  pub stream : S
  pub id : ℕ

-- How the receiver of `stopped` wakes: the sender is dropped (or sends), or a period has passed.
pub data Wake (E S : Type 0) : Type 0 where
  stopped : Wake E S
  -- What the `Renew` roundtrip answers, and what a reconnection and the roundtrip on its stream do
  -- where the loop calls `reacquire`.
  period :
      (answer : Result E LeaseReply) (connected : Result E S) (again : S → Result E LeaseReply)
      → Wake E S

module _ {E S : Type 0} where
  adopt : Renewer S → Result (ClientError E) (S × ℕ) → Renewer S
  adopt r (ok (s, id)) = record { stream = s; id = id }
  adopt r (err e) = r

  -- The variables after a renewal and its answer.
  renewal : Renewer S → Result E LeaseReply → Result (ClientError E) (S × ℕ) → Renewer S
  unfolding adopt
  renewal r (ok gone) regained = adopt r regained
  renewal r (err e) regained = adopt r regained
  renewal r (ok done) regained = r
  renewal r (ok other) regained = r

  -- `renew_loop`: its last variables, the renewals and the release that it sent, each with its
  -- stream, and whether the thread has ended.
  unfoldable pub renew_loop :
      Renewer S → List (Wake E S) → Renewer S × List (S × LeaseRequest) × Bool
  unfolding renewal reacquire
  renew_loop r [] = (r, [], false)
  renew_loop r (stopped ∷ ws) = (r, (r.stream, release r.id) ∷ [], true)
  renew_loop r (period answer connected again ∷ ws) =
      let rest = renew_loop (renewal r answer (reacquire connected again)) ws in
      (rest.0, (r.stream, renew r.id) ∷ rest.1, rest.2)

-- The join of `Drop for LeaseClient`: whether the thread is found finished before the deadline.
-- `finished` is what `is_finished` answers in turn, with the instant read after it.
unfoldable pub join_loop : Instant → List (Bool × Instant) → Option Bool
join_loop deadline [] = none
join_loop deadline ((true, now) ∷ polls) = some true
join_loop deadline ((false, now) ∷ polls) = elim (leb deadline now) [
  | true ↦ some false
  | false ↦ join_loop deadline polls
]
