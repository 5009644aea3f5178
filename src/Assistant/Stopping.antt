-- ===== src/Assistant/Stopping.antt =====
-- banc-assistant/src/main.rs: a request to stop a monitor, and the monitor.
use banc.Common.{
  ℕ, ◌+◌, ◌≤◌, ◌<◌, ◌≡◌, ◌≢◌, ◌⊎◌, inl, inr, refl, sym, ap, subst, ◌∙◌, false, Option, none, some,
  List, [], ◌∷◌, ◌++◌, arith, put, Option-cases,
}
use Prim.{absurd}
use banc.Icd.{pin_monitor}
use banc.Assistant.{
  Board, num_pins, Task, Device, boot, pin_monitor_handler, dispatch, At, replying, watching,
  publishing, returning,
}
use banc.Assistant.Running.{
  Wake, replied, stopped, edge, published, locked, Woken, wake_at, with_task, Step, request, wake,
  sys_reset, Reach, later,
}
use banc.Assistant.Tasks.{owners, Reach-count, pin_index_cases}
use banc.Assistant.Waking.{ComesBack}
use banc.Assistant.Pending.{count, is_returning, count-append, Pending, Pending-ComesBack}
use banc.Assistant.Requests.{Keeps, dispatch-Keeps}

module _ (B : Board) where
  -- What is left of a task after a wake: the pin is back, or the signal is as it was and so is
  -- whether the task is returning, or the task is returning now.
  wake-keeps :
      (d : Device B) (t : Task B) (at : At) (w : Wake B) (r : Woken B) (i : ℕ)
      → t.at ≡ at
      → wake_at B d t at w ≡ some r
      → d.slots i ≡ none
      → (r.slots i ≢ none)
        ⊎ ((r.slots i ≡ none)
            × (count B (is_returning B i) (t ∷ [])
                ≤ count B (is_returning B i) (with_task B [] r.task []))
            × ((r.stop i ≡ d.stop i) ⊎ (0 < count B (is_returning B i) (with_task B [] r.task []))))
  unfolding wake_at put count is_returning
  wake-keeps d t replying (replied sent) r i a e n = ground arith
  wake-keeps d t (watching seq) stopped r i a e n = ground arith
  wake-keeps d t (watching seq) (edge is_high now_us) r i a e n = ground arith
  wake-keeps d t (publishing seq) published r i a e n = ground arith
  wake-keeps d t returning locked r i a e n = ground arith
  wake-keeps d t at w r i a e n = ground arith

  count-with_task :
      (i : ℕ) (before after : List (Task B)) (o : Option (Task B))
      → count B (is_returning B i) (with_task B before o after)
        ≡ count B (is_returning B i) before
          + count B (is_returning B i) (with_task B [] o [])
          + count B (is_returning B i) after
  unfolding count
  count-with_task i before after none =
      omega (arith, count-append B (is_returning B i) before after)
  count-with_task i before after (some t) =
      omega (arith, count-append B (is_returning B i) before (t ∷ after))

  wake-Pending :
      (d : Device B) (before after : List (Task B)) (t : Task B) (w : Wake B) (r : Woken B) (i : ℕ)
      → d.tasks ≡ before ++ (t ∷ after)
      → wake_at B d t t.at w ≡ some r
      → Pending B d i
      → (r.slots i ≢ none)
        ⊎ Pending B
            (record { slots = r.slots; stop = r.stop; tasks = with_task B before r.task after })
            i
  unfolding Pending
  wake-Pending d before after t w r i e f (n, g) =
      let k = wake-keeps d t t.at w r i refl f n in
      let m = count-with_task i before after r.task in
      let c : count B (is_returning B i) d.tasks
          ≡ count B (is_returning B i) before + count B (is_returning B i) (t ∷ after) =
        ap (count B (is_returning B i)) e ∙ count-append B (is_returning B i) before (t ∷ after) in
      let q = count-append B (is_returning B i) (t ∷ []) after in
      elim k [
        | inl back ↦ inl back
        | inr (n', le, inr now) ↦ inr (n', inr (omega (arith, m)))
        | inr (n', le, inl same) ↦ elim g [
          | inl (left, h) ↦ inr (n', inl (left, subst (λ x. B.wait x ≡ some left) (sym same) h))
          | inr pos ↦ inr (n', inr (omega (arith, m, c, q)))
        ]
      ]

  step-Pending :
      (d d' : Device B) (i : ℕ)
      → i < num_pins
      → Step B d d'
      → Pending B d i
      → (d'.slots i ≢ none) ⊎ Pending B d' i
  unfolding Keeps Pending boot
  step-Pending d d' i lt (request unique_id version is_high e rqst p) (n, g) =
      let (m, signal, count) = dispatch-Keeps B unique_id version is_high d e rqst i n in
      let kept : Pending B (dispatch B unique_id version is_high d e rqst).1 i =
        (m, elim g [ inl (left, h) ↦ inl (signal left h) | inr pos ↦ inr (omega arith) ]) in
      inr (subst (λ x. Pending B x i) p kept)
  step-Pending d d' i lt (wake before after t w r e f p) h =
      subst (λ x. (x.slots i ≢ none) ⊎ Pending B x i) (sym p)
        (wake-Pending d before after t w r i e f h)
  step-Pending d d' i lt (sys_reset pads stop p) h =
      inl (subst (λ x. x.slots i ≢ none) (sym p) (booted_slot))
    where
      booted_slot : (boot B pads stop).slots i ≢ none
      booted_slot = ground arith

  -- What the firmware does from a state on, of any length.
  pub data Steps (d : Device B) : Device B → Type 0 where
    start : Steps d d
    next : {d' d'' : Device B} → Steps d d' → Step B d' d'' → Steps d d''

  -- The pin was in its slot at some time of it.
  abbrev pub Came : {d d' : Device B} → Steps d d' → ℕ → Type 0
  Came {d} start i = d.slots i ≢ none
  Came (next {d'} {d''} s u) i = Came s i ⊎ (d''.slots i ≢ none)

  steps-Pending :
      {d d' : Device B} (i : ℕ)
      → i < num_pins
      → Reach B d
      → Pending B d i
      → (s : Steps d d') → (Came s i ⊎ Pending B d' i) × Reach B d'
  steps-Pending i lt r h start = (inr h, r)
  steps-Pending i lt r h (next {d'} {d''} s u) =
      let (k, r') = steps-Pending i lt r h s in
      elim k [
        | inl came ↦ (inl (inl came), later r' u)
        | inr pending ↦ elim (step-Pending d' d'' i lt u pending) [
          | inl back ↦ (inl (inr back), later r' u)
          | inr still ↦ (inr still, later r' u)
        ]
      ]

  asked_Pending :
      (d : Device B) (i : ℕ)
      → i < num_pins
      → d.slots i ≡ none
      → Pending B (pin_monitor_handler B d (record { pin = i; enable = false })).1 i
  unfolding Pending pin_monitor_handler put
  asked_Pending d i lt n = elim (pin_index_cases B i) [
    | inl (e, out) ↦ absurd (omega arith)
    | inr (e, within) ↦
        let (r, g) = B.wait-signal (d.stop i) in
        let d' : Device B = record d { stop = put d.stop i (B.signal (d.stop i)) } in
        let p : d' ≡ (pin_monitor_handler B d (record { pin = i; enable = false })).1 =
          ground arith in
        subst (λ x. Pending B x i) p (n, inl (r, ground (arith, g)))
  ]

  -- A request to stop the monitor of a pin is not lost: whatever requests, edges, failed replies and
  -- resets follow it, the pin has been in its slot again by then, or at most three more wakes of its
  -- monitor bring it back, none of them an edge or a failed reply.
  pub monitor_stops :
      (d d' : Device B) (i : ℕ)
      → Reach B d
      → i < num_pins
      → owners B i d.tasks ≡ 1
      → (s : Steps (pin_monitor_handler B d (record { pin = i; enable = false })).1 d')
      → Came s i ⊎ ComesBack B d' i 3
  unfolding dispatch
  monitor_stops d d' i r lt o s =
      let (k, r') = steps-Pending i lt after_request asked s in
      elim k [ inl came ↦ inl came | inr pending ↦ inr (Pending-ComesBack B d' i r' lt pending) ]
    where
      after_request : Reach B (pin_monitor_handler B d (record { pin = i; enable = false })).1
      after_request =
          later r (request 0 [] (λ x. false) pin_monitor (record { pin = i; enable = false }) refl)

      asked : Pending B (pin_monitor_handler B d (record { pin = i; enable = false })).1 i
      asked =
          let c = Reach-count B r i in
          let n : d.slots i ≡ none = elim (Option-cases (d.slots i)) [
            | inl n ↦ n
            | inr (x, g) ↦ ground (arith, c, g, o)
          ] in
          asked_Pending d i lt n
