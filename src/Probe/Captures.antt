-- ===== src/Probe/Captures.antt =====
-- banc-probe/src/local.rs: the captures of a worker thread and their health.
use banc.Common.{
  ℕ, ◌+◌, ◌<◌, ◌≡◌, inl, inr, refl, Bool, true, false, Option, none, some, List, [], ◌∷◌, ◌++◌,
  arith, ◌==◌, if◌then◌else◌, Result, ok, err, Option-cases, subst, All, ap, ◌≢◌, ◌∙◌, Result-cases,
}
use banc.Common.Text.{Text, codes}
use Prim.{absurd}
use banc.Probe.Lines.{quiet}
use banc.Probe.{
  Bytes, Health, error, fault, RttState, Cmd, flash, reset, start_rtt, Turn, Worker, Polled,
  no_core, no_read, no_channel, read, poll_rtt, command, received, capturing, turn, worker, started,
  polling,
}

-- Each capture with a fault was started, and the one that is polled has none.
IsHealthy : Worker → Type 0
IsHealthy w =
    All (λ f. f.0 < w.next) w.health
    × ((s : RttState) → w.rtt ≡ some s → (s.capture < w.next) × (error s.capture w.health ≡ none))

error-fresh : (c : ℕ) (h : Health) → All (λ f. f.0 < c) h → error c h ≡ none
unfolding error
error-fresh c [] a = refl
error-fresh c ((d, m) ∷ h) (lt, a) = ground (arith, error-fresh c h a)

All-weaken : (n : ℕ) (h : Health) → All (λ f. f.0 < n) h → All (λ f. f.0 < n + 1) h
All-weaken n [] a = tt
All-weaken n (f ∷ h) (lt, a) = (omega arith, All-weaken n h a)

-- The first fault is the one that is kept.
pub error-fault :
    (c d : ℕ) (msg : Text) (h : Health)
    → error c (fault d msg h)
      ≡ (if c == d then elim (error c h) [ none ↦ some msg | some m ↦ some m ] else error c h)
unfolding fault error
error-fault c d msg h = ground (arith)

capture_of : {s t : RttState} → ◌≡◌ {A = Option RttState} (some s) (some t) → s.capture ≡ t.capture
capture_of e = ap (λ o. elim o [ some t ↦ t.capture | none ↦ 0 ]) e

command-IsHealthy : (w : Worker) (c : Cmd) → IsHealthy w → IsHealthy (command w c).0
unfolding IsHealthy command
command-IsHealthy w (flash d r) (a, b) = (a, λ s e. ground arith)
command-IsHealthy w (reset r) (a, b) = (a, b)
command-IsHealthy w (start_rtt (ok u)) (a, b) = (
  All-weaken w.next w.health a,
  λ s e.
      subst (λ n. (n < w.next + 1) × (error n w.health ≡ none)) (capture_of e)
        (omega arith, error-fresh w.next w.health a),
)
command-IsHealthy w (start_rtt (err e)) (a, b) =
    (All-weaken w.next w.health a, λ s e. let (x, y) = b s e in (omega arith, y))

fault-none : (c : ℕ) (msg : Text) (h : Health) → error c h ≡ none → fault c msg h ≡ (c, msg) ∷ h
unfolding fault
fault-none c msg h e = ground arith

fault-some : (c : ℕ) (msg m : Text) (h : Health) → error c h ≡ some m → fault c msg h ≡ h
unfolding fault
fault-some c msg m h e = ground arith

fault-below :
    (n c : ℕ) (msg : Text) (h : Health)
    → c < n
    → All (λ f. f.0 < n) h
    → All (λ f. f.0 < n) (fault c msg h)
fault-below n c msg h lt a = elim (Option-cases (error c h)) [
  | inl e ↦ rw (fault-none c msg h e) (lt, a)
  | inr (m, e) ↦ rw (fault-some c msg m h e) a
]

-- A poll that fails, with the error of the probe.
abbrev pub IsFailed : Polled → Text → Type 0
IsFailed (no_core x) e = x ≡ e
IsFailed (no_read x) e = x ≡ e
IsFailed no_channel e = ⊥
IsFailed (read bs) e = ⊥

started-IsHealthy : IsHealthy started
unfolding IsHealthy
started-IsHealthy = (tt, λ t f. ground arith)

module _ (from_utf8_lossy : Bytes → Text) where
  polling-IsHealthy :
      (w : Worker) (s : RttState) (r : Result Text (List Bytes × Bytes))
      → w.rtt ≡ some s
      → IsHealthy w
      → IsHealthy (polling from_utf8_lossy w s r).0
  unfolding IsHealthy polling
  polling-IsHealthy w s (ok (lines, left)) g (a, b) =
      (a, λ t e. subst (λ n. (n < w.next) × (error n w.health ≡ none)) (capture_of e) (b s g))
  polling-IsHealthy w s (err e) g (a, b) =
      (fault-below w.next s.capture _ w.health (b s g).0 a, λ t e. ground arith)

  capturing_as :
      (o : Option RttState) (health : Health) (next : ℕ) (stopped : Bool) (polled : Polled)
      → IsHealthy (record { rtt = o; health = health; next = next })
      → IsHealthy
          (capturing from_utf8_lossy
            (record { rtt = o; health = health; next = next })
            stopped
            polled).0
  unfolding capturing IsHealthy
  capturing_as none health next stopped polled h = h
  capturing_as (some s) health next true polled (a, b) = (a, λ t e. ground arith)
  capturing_as (some s) health next false polled h =
      polling-IsHealthy _ s (poll_rtt s.pending polled) refl h

  capturing-IsHealthy :
      (w : Worker) (stopped : Bool) (polled : Polled)
      → IsHealthy w
      → IsHealthy (capturing from_utf8_lossy w stopped polled).0
  capturing-IsHealthy w = capturing_as w.rtt w.health w.next

  received-IsHealthy : (w : Worker) (c : Option Cmd) → IsHealthy w → IsHealthy (received w c).0
  unfolding received
  received-IsHealthy w none h = h
  received-IsHealthy w (some c) h = command-IsHealthy w c h

  worker-IsHealthy :
      (ts : List Turn) (w : Worker) → IsHealthy w → IsHealthy (worker from_utf8_lossy w ts).0
  unfolding worker turn
  worker-IsHealthy [] w h = h
  worker-IsHealthy (t ∷ ts) w h =
      worker-IsHealthy ts (turn from_utf8_lossy w t).0
        (capturing-IsHealthy (received w t.cmd).0 t.stopped t.polled (received-IsHealthy w t.cmd h))

  capture_healthy :
      (ts : List Turn) (s : RttState)
      → (worker from_utf8_lossy started ts).0.rtt ≡ some s
      → error s.capture (worker from_utf8_lossy started ts).0.health ≡ none
  unfolding IsHealthy
  capture_healthy ts s e = ((worker-IsHealthy ts started (tt, λ t f. ground arith)).1 s e).1

  failing :
      (w : Worker) (s : RttState) (polled : Polled) (e : Text)
      → w.rtt ≡ some s
      → IsFailed polled e
      → turn from_utf8_lossy w (quiet polled) ≡ (
        record w { rtt = none; health = fault s.capture (codes "rtt read error: " ++ e) w.health },
        [],
      )
  unfolding turn received capturing polling poll_rtt
  failing w s (no_core x) e g h = ground (arith, g, h)
  failing w s (no_read x) e g h = ground (arith, g, h)
  failing w s no_channel e g h = absurd h
  failing w s (read bs) e g h = absurd h

  -- A fault that is recorded stays the one that its owner finds.
  capturing-keeps :
      (c : ℕ) (m : Text) (o : Option RttState) (health : Health) (next : ℕ) (stopped : Bool)
      (polled : Polled)
      → error c health ≡ some m
      → error c
          (capturing from_utf8_lossy
            (record { rtt = o; health = health; next = next })
            stopped
            polled).0.health
        ≡ some m
  unfolding capturing polling
  capturing-keeps c m none health next stopped polled e = e
  capturing-keeps c m (some s) health next true polled e = e
  capturing-keeps c m (some s) health next false polled e =
      elim (Result-cases (poll_rtt s.pending polled)) [
        | inl (r, f) ↦ ground (arith, e, f)
        | inr (x, f) ↦
            let k = error-fault c s.capture (codes "rtt read error: " ++ x) health in
            ground (arith, e, f, k)
      ]

  received-keeps :
      (c : ℕ) (m : Text) (w : Worker) (o : Option Cmd)
      → error c w.health ≡ some m
      → error c (received w o).0.health ≡ some m
  unfolding received command
  received-keeps c m w none e = e
  received-keeps c m w (some (flash d r)) e = e
  received-keeps c m w (some (reset r)) e = e
  received-keeps c m w (some (start_rtt (ok u))) e = e
  received-keeps c m w (some (start_rtt (err x))) e = e

  worker-keeps :
      (c : ℕ) (m : Text) (ts : List Turn) (w : Worker)
      → error c w.health ≡ some m
      → error c (worker from_utf8_lossy w ts).0.health ≡ some m
  unfolding worker turn
  worker-keeps c m [] w e = e
  worker-keeps c m (t ∷ ts) w e =
      let after = (received w t.cmd).0 in
      worker-keeps c m ts (turn from_utf8_lossy w t).0 (
        capturing-keeps c m after.rtt after.health after.next t.stopped t.polled
          (received-keeps c m w t.cmd e))

  -- The thread does not poll the capture `c`.
  abbrev pub NotPolled : ℕ → Option RttState → Type 0
  NotPolled c none = Unit {0}
  NotPolled c (some s) = s.capture ≢ c

  faulty-NotPolled :
      (c : ℕ) (m : Text) (w : Worker) → IsHealthy w → error c w.health ≡ some m → NotPolled c w.rtt
  unfolding IsHealthy
  faulty-NotPolled c m w h e = go w.rtt refl
    where
      go : (o : Option RttState) → w.rtt ≡ o → NotPolled c o
      go none f = tt
      go (some s) f = λ same. let x = (h.1 s f).1 in ground (arith, e, x, same)

  -- Whatever commands came before, a capture that the thread polls has no fault recorded. Once a
  -- poll of it fails, in a round without a command and before it is stopped, the sink gets nothing
  -- of that round, the capture ends, and the error is recorded of it; and whatever commands come
  -- later, and whatever the probe does, that error stays the one that the owner of the capture finds,
  -- and the thread does not poll the capture again.
  pub fault_recorded :
      (ts later : List Turn) (s : RttState) (polled : Polled) (e : Text)
      → (worker from_utf8_lossy started ts).0.rtt ≡ some s
      → IsFailed polled e
      → let before = (worker from_utf8_lossy started ts).0 in
        let failed = turn from_utf8_lossy before (quiet polled) in
        let after = (worker from_utf8_lossy failed.0 later).0 in
        (error s.capture before.health ≡ none)
        × (failed.1 ≡ [])
        × (failed.0.rtt ≡ none)
        × (error s.capture after.health ≡ some (codes "rtt read error: " ++ e))
        × NotPolled s.capture after.rtt
  unfolding error turn
  fault_recorded ts later s polled e g h =
      let before = (worker from_utf8_lossy started ts).0 in
      let healthy = capture_healthy ts s g in
      let step = failing before s polled e g h in
      let msg = codes "rtt read error: " ++ e in
      let failed = turn from_utf8_lossy before (quiet polled) in
      let recorded : error s.capture failed.0.health ≡ some msg =
        ap (λ r. error s.capture r.0.health) step
        ∙ ap (error s.capture) (fault-none s.capture msg before.health healthy)
        ∙ ground arith in
      let kept = worker-keeps s.capture msg later failed.0 recorded in
      (
        healthy,
        ap (λ r. r.1) step,
        ap (λ r. r.0.rtt) step,
        kept,
        faulty-NotPolled s.capture msg (worker from_utf8_lossy failed.0 later).0
            (worker-IsHealthy later failed.0 (
              capturing-IsHealthy before false polled
                (worker-IsHealthy ts started started-IsHealthy)))
            kept,
      )
