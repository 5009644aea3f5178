-- ===== src/Assistant/Resetting.antt =====
-- banc-assistant/src/main.rs: the reply and the reset of reset_handler, in their order.
use banc.Common.{◌+◌, ◌≤◌, ◌<◌, ◌≡◌, ◌⊎◌, inl, inr, sym, ◌∙◌, List, [], ◌∷◌, arith}
use Prim.{absurd}
use native.Mathlib.Decide.{dec_le}
use banc.Common.Time.{Instant, from_millis}
use banc.Assistant.Start.{
  ResetAt, replying, flushing, over, ResetWake, replied, timer, reset_handler,
}

-- The task on what wakes it, one thing after the other.
abbrev pub reset_run : ResetAt → List ResetWake → ResetAt
reset_run at [] = at
reset_run at (w ∷ ws) = reset_run (reset_handler at w) ws

-- The timer wakes the task at `t`.
abbrev pub Fires : Instant → List ResetWake → Type 0
Fires t [] = ⊥
Fires t (timer now ∷ ws) = (now ≡ t) ⊎ Fires t ws
Fires t (replied sent now ∷ ws) = Fires t ws

-- The reply is over, and after it, 100 milliseconds later or more, the timer wakes the task at `t`.
abbrev pub RepliedThenFires : Instant → List ResetWake → Type 0
RepliedThenFires t [] = ⊥
RepliedThenFires t (replied sent now ∷ ws) = (now + from_millis 100 ≤ t) × Fires t ws
RepliedThenFires t (timer now ∷ ws) = RepliedThenFires t ws

over_stays : (t u : Instant) (ws : List ResetWake) → reset_run (over u) ws ≡ over t → u ≡ t
unfolding reset_handler
over_stays t u [] e = ground (arith, e)
over_stays t u (w ∷ ws) e = over_stays t u ws e

waiting_timer :
    (t until now : Instant) (ws : List ResetWake)
    → now < until
    → reset_run (flushing until) (timer now ∷ ws) ≡ reset_run (flushing until) ws
unfolding reset_handler
waiting_timer t until now ws lt = ground arith

firing_timer :
    (t until now : Instant) (ws : List ResetWake)
    → until ≤ now
    → reset_run (flushing until) (timer now ∷ ws) ≡ over t
    → now ≡ t
unfolding reset_handler
firing_timer t until now ws le e = over_stays t now ws (ground (arith, e, le))

flushed :
    (t until : Instant) (ws : List ResetWake)
    → reset_run (flushing until) ws ≡ over t
    → (until ≤ t) × Fires t ws
unfolding reset_handler
flushed t until [] e = absurd (ground (arith, e))
flushed t until (replied sent now ∷ ws) e = flushed t until ws e
flushed t until (timer now ∷ ws) e = elim (dec_le until now) [
  | yes late ↦ let same = firing_timer t until now ws late e in (omega (arith, same), inl same)
  | no soon ↦
      let (le, f) = flushed t until ws (sym (waiting_timer t until now ws (omega arith)) ∙ e) in
      (le, inr f)
]

-- The chip resets itself only after the task had its reply sent, or knows that it failed, and then was
-- woken by the timer 100 milliseconds later or more: the reply has that long to get out.
pub reset_after_reply :
    (t : Instant) (ws : List ResetWake) → reset_run replying ws ≡ over t → RepliedThenFires t ws
unfolding reset_handler
reset_after_reply t [] e = absurd (ground (arith, e))
reset_after_reply t (replied sent now ∷ ws) e = flushed t (now + from_millis 100) ws e
reset_after_reply t (timer now ∷ ws) e = reset_after_reply t ws e
