-- ===== src/Probe.antt =====
-- banc-probe/src/local.rs and banc-probe/src/lib.rs: the thread that owns the probe, and the health of
-- its captures. What probe-rs answers is data of each turn, an error as its text;
-- `from_utf8_lossy` is an argument.
pub mod Lines
pub mod Captures
pub mod Target
pub mod Flashing
pub mod Handle
mod Tests
use banc.Common.{
  ℕ, zero, suc, ◌+◌, ◌*◌, Bool, true, false, Option, none, some, List, [], ◌∷◌, ◌++◌, map, ◌==◌,
  ltb, is_nil, if◌then◌else◌, Result, ok, err, length,
}
use banc.Common.Text.{Text, codes, trim_end}

abbrev pub Bytes : Type 0
Bytes = List ℕ

abbrev pub max_line : ℕ
max_line = 64 * 1024

-- The `CaptureHealth` of each capture by its number: the fault that was recorded of it.
abbrev pub Health : Type 0
Health = List (ℕ × Text)

unfoldable pub error : ℕ → Health → Option Text
error c [] = none
error c ((d, msg) ∷ h) = if c == d then some msg else error c h

unfoldable pub fault : ℕ → Text → Health → Health
unfolding error
fault c msg h = elim (error c h) [ none ↦ (c, msg) ∷ h | some m ↦ h ]

-- `position` of the first newline and the `drain` up to it.
unfoldable pub drain_line : Bytes → Option (Bytes × Bytes)
drain_line [] = none
drain_line (b ∷ bs) =
    let rest = drain_line bs in
    if b == 10
    then some (b ∷ [], bs)
    else elim rest [ none ↦ none | some (line, left) ↦ some (b ∷ line, left) ]

-- The `while let` of `poll_rtt`: the lines that it takes off, and what stays pending.
unfoldable pub drain_lines : ℕ → Bytes → List Bytes × Bytes
unfolding drain_line
drain_lines zero pending = ([], pending)
drain_lines (suc fuel) pending = elim (drain_line pending) [
  | none ↦ ([], pending)
  | some (line, left) ↦ let rest = drain_lines fuel left in (line ∷ rest.0, rest.1)
]

-- An oversized partial line is flushed.
flush : Bytes → List Bytes × Bytes
flush pending = if ltb max_line (length pending) then (pending ∷ [], []) else ([], pending)

-- What a poll meets at the probe; `read` is what the channel gives into a buffer of 1024 bytes.
pub data Polled : Type 0 where
  no_core no_read : Text → Polled
  no_channel : Polled
  read : Bytes → Polled

unfoldable pub after_read : Bytes → List Bytes × Bytes
unfolding drain_lines flush
after_read pending =
    let drained = drain_lines (length pending) pending in
    let flushed = flush drained.1 in (drained.0 ++ flushed.0, flushed.1)

-- `poll_rtt`, on what is pending: the lines for the sink, as the bytes they come from.
unfoldable pub poll_rtt : Bytes → Polled → Result Text (List Bytes × Bytes)
unfolding after_read
poll_rtt pending (no_core e) = err e
poll_rtt pending no_channel = ok ([], pending)
poll_rtt pending (no_read e) = err e
poll_rtt pending (read bs) = if is_nil bs then ok ([], pending) else ok (after_read (pending ++ bs))

pub record RttState : Type 0 where
  pub capture : ℕ
  pub pending : Bytes

-- A command, with what the probe does under it.
pub data Cmd : Type 0 where
  flash : (downloaded was_reset : Result Text (Unit {0})) → Cmd
  reset : (was_reset : Result Text (Unit {0})) → Cmd
  start_rtt : (attached : Result Text (Unit {0})) → Cmd

-- One round of the loop: the command received, or else the timeout of a thread that polls; whether
-- the capture was stopped; and what a poll would meet.
pub record Turn : Type 0 where
  pub cmd : Option Cmd
  pub stopped : Bool
  pub polled : Polled

pub data Output : Type 0 where
  reply : Result Text (Unit {0}) → Output
  line : (capture : ℕ) (text : Text) → Output

-- `next` is the number of the next `StartRtt`, which brings a health of its own.
pub record Worker : Type 0 where
  pub rtt : Option RttState
  pub health : Health
  pub next : ℕ

-- `.and_then(|_| reset_core(..))`.
flashed : Result Text (Unit {0}) → Result Text (Unit {0}) → Result Text (Unit {0})
flashed (ok u) was_reset = was_reset
flashed (err e) was_reset = err e

unfoldable pub command : Worker → Cmd → Worker × List Output
unfolding flashed
command w (flash downloaded was_reset) =
    (record w { rtt = none }, reply (flashed downloaded was_reset) ∷ [])
command w (reset was_reset) = (w, reply was_reset ∷ [])
command w (start_rtt (ok u)) = (
  record w { rtt = some (record { capture = w.next; pending = [] }); next = w.next + 1 },
  reply (ok u) ∷ [],
)
command w (start_rtt (err e)) = (record w { next = w.next + 1 }, reply (err e) ∷ [])

unfoldable pub received : Worker → Option Cmd → Worker × List Output
unfolding command
received w none = (w, [])
received w (some c) = command w c

module _ (from_utf8_lossy : Bytes → Text) where
  -- The lines of a poll, as the sink gets them.
  sunk : ℕ → List Bytes → List Output
  sunk c lines = map (λ bs. line c (trim_end (from_utf8_lossy bs))) lines

  -- A poll of the capture `s`.
  polling : Worker → RttState → Result Text (List Bytes × Bytes) → Worker × List Output
  unfolding fault sunk
  polling w s (ok (lines, left)) = (
    record w { rtt = some (record { capture = s.capture; pending = left }) },
    sunk s.capture lines,
  )
  polling w s (err e) = (
    record w { rtt = none; health = fault s.capture (codes "rtt read error: " ++ e) w.health },
    [],
  )

  unfoldable pub capturing : Worker → Bool → Polled → Worker × List Output
  unfolding polling poll_rtt
  capturing w stopped polled = elim w.rtt [
    | none ↦ (w, [])
    | some s ↦
        if stopped then (record w { rtt = none }, []) else polling w s (poll_rtt s.pending polled)
  ]

  -- The body of the loop of `worker`.
  unfoldable pub turn : Worker → Turn → Worker × List Output
  unfolding received capturing
  turn w t =
      let after = received w t.cmd in
      let polled = capturing after.0 t.stopped t.polled in (polled.0, after.1 ++ polled.1)

  -- The loop of `worker`, until the channel is closed.
  unfoldable pub worker : Worker → List Turn → Worker × List Output
  unfolding turn
  worker w [] = (w, [])
  worker w (t ∷ ts) =
      let first = turn w t in let rest = worker first.0 ts in (rest.0, first.1 ++ rest.1)

-- The thread as it starts, with its session open.
abbrev pub started : Worker
started = record { rtt = none; health = []; next = 0 }
