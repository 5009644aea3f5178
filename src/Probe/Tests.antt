-- ===== src/Probe/Tests.antt =====
-- banc-probe: polls that cut a line, a capture and its end, and a remote target that is flashed.
use banc.Common.{◌≤◌, ◌≡◌, refl, false, none, some, List, [], ◌∷◌, ◌++◌, ok, length}
use banc.Common.Text.{codes}
use banc.Probe.{
  Bytes, RttState, Turn, Polled, read, start_rtt, started, worker, turn, error, poll_rtt, max_line,
  drain_lines, drain_line, after_read, received, command, capturing,
}
use banc.Common.{ℕ, ◌+◌, true, Result}
use banc.Common.Text.{Text}
use banc.Probe.Target.{Command, Output, RemoteCliTarget, arg}
use banc.Probe.Target
use banc.Probe.Target.{TargetSpec}
use banc.Common.{err, map}
use banc.Common.Text.{trim_end, trim_start, is_whitespace}
use banc.Probe.{line, no_read}
use banc.Probe.Lines.{concat, given, IsPiece, IsPartial, bytes_of, quiet, polls_conserve}
use banc.Probe.Captures.{NotPolled, fault_recorded}
use banc.Common.{All, Bool, ◌==◌, arith}
use banc.Probe.{Worker}
use banc.Probe.Handle.{
  RttCapture, Round, NotOf, rounds, drop_capture, capture_error, dropped_silent,
}

abbrev reads : List Polled
reads = read (codes "boo") ∷ read (codes "t" ++ (10 ∷ codes "re")) ∷ []

abbrev polled_worker : Worker
polled_worker = record { rtt = some (record { capture = 0; pending = [] }); health = []; next = 1 }

-- The line is cut where its newline is, and without it for the sink.
two_polls : (worker (λ bs. bs) polled_worker (map quiet reads)).1 ≡ line 0 (codes "boot") ∷ []
unfolding worker turn received capturing poll_rtt after_read drain_lines drain_line trim_end
    trim_start is_whitespace
two_polls = refl

polls_conserve_example :
    (r : List Bytes × Bytes) × ((worker (λ bs. bs) polled_worker (map quiet reads)).1
      ≡ map (given (λ bs. bs) 0) r.0)
    × ((worker (λ bs. bs) polled_worker (map quiet reads)).0.rtt
        ≡ some (record { capture = 0; pending = r.1 }))
    × (concat r.0 ++ r.1 ≡ bytes_of reads)
    × All IsPiece r.0
    × IsPartial r.1
    × (length r.1 ≤ max_line)
polls_conserve_example = polls_conserve (λ bs. bs) 0 polled_worker reads refl (tt, (tt, tt))

-- A capture is started, and its first poll reads a part of a line.
abbrev turns : List Turn
turns = record { cmd = some (start_rtt (ok tt)); stopped = false; polled = read (codes "boo") } ∷ []

abbrev capture : RttState
capture = record { capture = 0; pending = codes "boo" }

captures : (worker (λ bs. bs) started turns).0.rtt ≡ some capture
unfolding worker turn received command capturing poll_rtt after_read drain_lines drain_line
captures = refl

-- The probe is unplugged, and then another capture is started.
abbrev another : List Turn
another = record { cmd = some (start_rtt (ok tt)); stopped = false; polled = read (codes "b") } ∷ []

fault_recorded_example :
    let before = (worker (λ bs. bs) started turns).0 in
    let failed = turn (λ bs. bs) before (quiet (no_read (codes "unplugged"))) in
    let after = (worker (λ bs. bs) failed.0 another).0 in
    (error 0 before.health ≡ none)
    × (failed.1 ≡ [])
    × (failed.0.rtt ≡ none)
    × (error 0 after.health ≡ some (codes "rtt read error: " ++ codes "unplugged"))
    × NotPolled (λ bs. bs) 0 after.rtt
fault_recorded_example =
    fault_recorded (λ bs. bs) turns another capture (no_read (codes "unplugged"))
      (codes "unplugged") captures refl

-- A machine that counts the commands that it has run.
abbrev machine : Command → ℕ → Result Text Output × ℕ
machine cmd n = (ok (record { success = true; stdout = []; stderr = [] }), n + 1)

abbrev far : RemoteCliTarget
far = record {
  bin = codes "probe-rs";
  host = codes "ws://bench";
  chip = codes "RP2350";
  probe = none;
}

abbrev load : Command
load = arg (Target.command far (codes "download")) (codes "fw.elf")

abbrev back : Command
back = Target.command far (codes "reset")

-- The handle of that capture is dropped; the device goes on, and then another capture is started.
abbrev handle : RttCapture
handle = record { stop = some tt; capture = 0 }

abbrev polling : Worker
polling = record { rtt = some capture; health = []; next = 1 }

abbrev stop_0 : ℕ → Bool
stop_0 n = n == 0

abbrev after_drop : List Round
after_drop =
    record { cmd = none; sent = stop_0; polled = read (10 ∷ []) }
    ∷ record { cmd = some (start_rtt (ok tt)); sent = stop_0; polled = read (10 ∷ []) }
    ∷ []

stop_found : (n : ℕ) → (drop_capture handle (λ n. false)).1 n ≡ true → stop_0 n ≡ true
unfolding drop_capture
stop_found n e = ground (arith, e)

dropped_silent_example :
    All (NotOf (λ bs. bs) 0) (rounds (λ bs. bs) polling after_drop).1
    × (capture_error
          (drop_capture handle (λ n. false)).0
          (rounds (λ bs. bs) polling after_drop).0.health
        ≡ capture_error handle polling.health)
dropped_silent_example =
    dropped_silent (λ bs. bs) handle (λ n. false) polling after_drop refl
      (stop_found, (stop_found, tt))

-- The probe 1 is the only one, and 11 the session on it.
abbrev desk_target : TargetSpec
desk_target = record { chip = codes "RP2350"; probe = none; probe_host = none; probe_rs_bin = none }

abbrev no_selector : Text → Result Text ℕ
no_selector sel = err sel

abbrev unselected : ℕ → Result Text ℕ
unselected selector = err (codes "unused")

abbrev open_listed : ℕ → Result Text ℕ
open_listed info = ok info

abbrev attach : ℕ → Text → Result Text ℕ
attach probe chip = ok (probe + 10)
