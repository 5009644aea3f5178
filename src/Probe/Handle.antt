-- ===== src/Probe/Handle.antt =====
-- banc-probe/src/lib.rs with banc-probe/src/local.rs: the handle of a capture, and the thread that
-- polls it. The sender of the stop signal is in the handle, the receiver in the thread; of the pair
-- the program relies on what its documentation says: once the sender has sent or is dropped,
-- `try_recv` never again finds the channel empty.
use banc.Common.{
  ℕ, ◌≡◌, ◌≢◌, refl, Bool, true, false, Option, none, some, List, [], ◌∷◌, ◌++◌, arith, All, ◌==◌,
  if◌then◌else◌, Result, ok, err, Option-cases, Bool-cases, inl, inr, ap, ◌∙◌,
}
use banc.Common.Text.{Text, codes}
use banc.Probe.{
  Bytes, Health, error, Polled, RttState, Cmd, flash, reset, start_rtt, Output, reply, line, Worker,
  command, received, sunk, polling, capturing, turn, poll_rtt,
}
use banc.Probe.Captures.{error-fault}

-- `RttCapture`: the sender of its stop signal, and which capture it is.
pub record RttCapture : Type 0 where
  pub stop : Option (Unit {0})
  pub capture : ℕ

-- `RttCapture::error`, from the health that it shares with the thread.
unfoldable pub capture_error : RttCapture → Health → Option Text
capture_error c health = error c.capture health

-- The drop of a handle, on the captures whose stop signal has been sent.
unfoldable pub drop_capture : RttCapture → (ℕ → Bool) → RttCapture × (ℕ → Bool)
drop_capture c sent = elim c.stop [
  | none ↦ (c, sent)
  | some s ↦ (record c { stop = none }, λ n. if n == c.capture then true else sent n)
]

-- One round of the thread, as its owner sees it: the command received, the captures whose stop signal
-- has been sent by the time that the thread looks, and what a poll would meet.
pub record Round : Type 0 where
  pub cmd : Option Cmd
  pub sent : ℕ → Bool
  pub polled : Polled

module _ (from_utf8_lossy : Bytes → Text) where
  -- The `try_recv` of the capture that is polled.
  abbrev stopped_in : (ℕ → Bool) → Option RttState → Bool
  stopped_in sent none = false
  stopped_in sent (some s) = sent s.capture

  unfoldable pub round : Worker → Round → Worker × List Output
  round w r = turn from_utf8_lossy w (record {
    cmd = r.cmd;
    stopped = stopped_in r.sent (received w r.cmd).0.rtt;
    polled = r.polled;
  })

  unfoldable pub rounds : Worker → List Round → Worker × List Output
  rounds w [] = (w, [])
  rounds w (r ∷ rs) =
      let first = round w r in let rest = rounds first.0 rs in (rest.0, first.1 ++ rest.1)

  -- Not a line of the capture `c`.
  abbrev pub NotOf : ℕ → Output → Type 0
  NotOf c (reply r) = Unit {0}
  NotOf c (line d text) = d ≢ c

  All-append :
      (c : ℕ) (xs ys : List Output) → All (NotOf c) xs → All (NotOf c) ys → All (NotOf c) (xs ++ ys)
  All-append c [] ys a b = b
  All-append c (x ∷ xs) ys a b = (a.0, All-append c xs ys a.1 b)

  sunk-NotOf : (c d : ℕ) (lines : List Bytes) → d ≢ c → All (NotOf c) (sunk from_utf8_lossy d lines)
  unfolding sunk
  sunk-NotOf c d [] ne = tt
  sunk-NotOf c d (x ∷ lines) ne = (ne, sunk-NotOf c d lines ne)

  command-NotOf : (c : ℕ) (w : Worker) (cmd : Option Cmd) → All (NotOf c) (received w cmd).1
  unfolding received command
  command-NotOf c w none = tt
  command-NotOf c w (some (flash d r)) = (tt, tt)
  command-NotOf c w (some (reset r)) = (tt, tt)
  command-NotOf c w (some (start_rtt (ok u))) = (tt, tt)
  command-NotOf c w (some (start_rtt (err e))) = (tt, tt)

  received-health : (w : Worker) (cmd : Option Cmd) → (received w cmd).0.health ≡ w.health
  unfolding received command
  received-health w none = refl
  received-health w (some (flash d r)) = refl
  received-health w (some (reset r)) = refl
  received-health w (some (start_rtt (ok u))) = refl
  received-health w (some (start_rtt (err e))) = refl

  -- What a poll, a round and a list of rounds leave of the capture `c`.
  abbrev Silent : ℕ → Worker → Worker × List Output → Type 0
  Silent c w r = All (NotOf c) r.1 × (error c r.0.health ≡ error c w.health)

  polling-Silent :
      (c : ℕ) (w : Worker) (s : RttState) (r : Result Text (List Bytes × Bytes))
      → s.capture ≢ c
      → Silent c w (polling from_utf8_lossy w s r)
  unfolding polling
  polling-Silent c w s (ok (lines, left)) ne = (sunk-NotOf c s.capture lines ne, refl)
  polling-Silent c w s (err e) ne =
      (tt, ground (arith, ne, error-fault c s.capture (codes "rtt read error: " ++ e) w.health))

  capturing-Silent :
      (c : ℕ) (w : Worker) (sent : ℕ → Bool) (polled : Polled)
      → sent c ≡ true
      → Silent c w (capturing from_utf8_lossy w (stopped_in sent w.rtt) polled)
  unfolding capturing
  capturing-Silent c w sent polled h = elim (Option-cases w.rtt) [
    | inl e ↦ rw e (tt, refl)
    | inr (s, e) ↦ elim (Bool-cases (sent s.capture)) [
      | inl stops ↦ rw (e, stops) (tt, refl)
      | inr goes ↦
          rw (e, goes)
            (polling-Silent c w s (poll_rtt s.pending polled)
              (λ p. ground (arith, h, goes, ap sent p)))
    ]
  ]

  round-Silent : (c : ℕ) (w : Worker) (r : Round) → r.sent c ≡ true → Silent c w (round w r)
  unfolding round turn
  round-Silent c w r h =
      let (a, b) = capturing-Silent c (received w r.cmd).0 r.sent r.polled h in
      (
        All-append c (received w r.cmd).1 _ (command-NotOf c w r.cmd) a,
        b ∙ ap (error c) (received-health w r.cmd),
      )

  rounds-Silent :
      (c : ℕ) (w : Worker) (rs : List Round)
      → All (λ r. r.sent c ≡ true) rs
      → Silent c w (rounds w rs)
  unfolding rounds
  rounds-Silent c w [] h = (tt, refl)
  rounds-Silent c w (r ∷ rs) h =
      let (a, b) = round-Silent c w r h.0 in
      let (a', b') = rounds-Silent c (round w r).0 rs h.1 in
      (All-append c (round w r).1 _ a a', b' ∙ b)

  dropped_sent :
      (h : RttCapture) (sent : ℕ → Bool)
      → h.stop ≡ some tt
      → ((drop_capture h sent).1 h.capture ≡ true) × ((drop_capture h sent).0.capture ≡ h.capture)
  unfolding drop_capture
  dropped_sent h sent e = ground (arith, e)

  every_signal :
      (c : ℕ) (signalled : ℕ → Bool) (rs : List Round)
      → signalled c ≡ true
      → All (λ r. (n : ℕ) → signalled n ≡ true → r.sent n ≡ true) rs
      → All (λ r. r.sent c ≡ true) rs
  every_signal c signalled [] s h = tt
  every_signal c signalled (r ∷ rs) s h = (h.0 c s, every_signal c signalled rs s h.1)

  -- Once the handle of a capture is dropped, whatever commands come after and whatever the probe does:
  -- the sink of that capture gets no further line, and its error stays what it was, so that a capture
  -- that was stopped does not come to look like one that was lost. In the rounds after the
  -- drop, the thread finds the stop signals that had been sent by the time of the drop, and maybe more.
  pub dropped_silent :
      (h : RttCapture) (sent : ℕ → Bool) (w : Worker) (rs : List Round)
      → h.stop ≡ some tt
      → All (λ r. (n : ℕ) → (drop_capture h sent).1 n ≡ true → r.sent n ≡ true) rs
      → All (NotOf h.capture) (rounds w rs).1
        × (capture_error (drop_capture h sent).0 (rounds w rs).0.health ≡ capture_error h w.health)
  unfolding capture_error
  dropped_silent h sent w rs e after =
      let (s, same) = dropped_sent h sent e in
      let (a, b) = rounds-Silent h.capture w rs (every_signal h.capture _ rs s after) in
      (a, ap (λ n. error n (rounds w rs).0.health) same ∙ b)
