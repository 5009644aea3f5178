-- ===== src/Assistant/Tasks.antt =====
-- banc-assistant/src/main.rs: who owns a pin.
use banc.Common.{
  ℕ, ◌+◌, ◌≤◌, ◌<◌, ◌≡◌, ◌⊎◌, inl, inr, sym, ap, subst, ◌∙◌, Bool, Option, none, some, List, [],
  ◌∷◌, ◌++◌, arith, put, ltb, ◌==◌, if◌then◌else◌, Bool-cases, Option-cases,
}
use banc.Icd.{
  PinMonitor, Endpoint, identify, reset, gpio_config, gpio_set, gpio_read, pin_monitor, uart_config,
  uart_tx, spi_transfer, i2c_transaction, capture_control, capture_read, RequestTy,
}
use banc.Assistant.{
  Board, num_pins, pin_index, Task, Device, boot, lock_pin, on_pin, take_pin, gpio_config_handler,
  gpio_set_handler, pin_monitor_handler, dispatch, At, replying, watching, publishing, returning,
}
use banc.Assistant.Running.{
  Wake, replied, stopped, edge, published, locked, Woken, wake_at, with_task, request, wake,
  sys_reset, Reach, booted, later,
}

abbrev pub present : {A : Type 0} → Option A → ℕ
present none = 0
present (some a) = 1

module _ (B : Board) where
  -- The tasks that own a pin.
  abbrev pub owners : ℕ → List (Task B) → ℕ
  owners i [] = 0
  owners i (t ∷ ts) = (if t.pin == i then 1 else 0) + owners i ts

  owners-append : (i : ℕ) (ts us : List (Task B)) → owners i (ts ++ us) ≡ owners i ts + owners i us
  owners-append i [] us = omega arith
  owners-append i (t ∷ ts) us = omega (arith, owners-append i ts us)

  -- Each pin of the board is in its slot or with one task, and in no two places; other pins are
  -- nowhere.
  Inv : Device B → Type 0
  Inv d = (i : ℕ) → present (d.slots i) + owners i d.tasks ≡ (if ltb i num_pins then 1 else 0)

  boot-Inv : (pads : ℕ → B.Flex) (stop : ℕ → B.Signal) → Inv (boot B pads stop)
  unfolding Inv boot
  boot-Inv pads stop i = ground arith

  pub pin_index_cases :
      (p : ℕ) → ((pin_index p ≡ none) × (num_pins ≤ p)) ⊎ ((pin_index p ≡ some p) × (p < num_pins))
  unfolding pin_index
  pin_index_cases p = elim (Bool-cases (ltb p num_pins)) [
    | inl e ↦ inr (ground arith)
    | inr e ↦ inl (ground arith)
  ]

  on_pin-Inv : (d : Device B) (p : ℕ) (f : B.Flex → B.Flex) → Inv d → Inv (on_pin B d p f).1
  unfolding Inv on_pin lock_pin put
  on_pin-Inv d p f h i = elim (pin_index_cases p) [
    | inl (e, out) ↦ ground (arith, h i)
    | inr (e, within) ↦ elim (Option-cases (d.slots p)) [
      | inl g ↦ ground (arith, h i)
      | inr (x, g) ↦ ground (arith, h i)
    ]
  ]

  monitor-Inv : (d : Device B) (rqst : PinMonitor) → Inv d → Inv (pin_monitor_handler B d rqst).1
  unfolding Inv pin_monitor_handler take_pin put
  monitor-Inv d rqst h i = elim (pin_index_cases rqst.pin) [
    | inl (e, out) ↦ ground (arith, h i)
    | inr (e, within) ↦ elim (Bool-cases rqst.enable) [
      | inr off ↦ ground (arith, h i)
      | inl on ↦ elim (Option-cases (d.slots rqst.pin)) [
        | inl g ↦ ground (arith, h i)
        | inr (x, g) ↦ ground (arith, h i)
      ]
    ]
  ]

  dispatch-Inv :
      (unique_id : ℕ) (version : List ℕ) (is_high : B.Flex → Bool) (d : Device B) (e : Endpoint)
      (rqst : RequestTy e)
      → Inv d
      → Inv (dispatch B unique_id version is_high d e rqst).1
  unfolding dispatch gpio_config_handler gpio_set_handler
  dispatch-Inv unique_id version is_high d identify rqst h = h
  dispatch-Inv unique_id version is_high d reset rqst h = h
  dispatch-Inv unique_id version is_high d gpio_config rqst h = on_pin-Inv d rqst.pin _ h
  dispatch-Inv unique_id version is_high d gpio_set rqst h = on_pin-Inv d rqst.pin _ h
  dispatch-Inv unique_id version is_high d gpio_read rqst h = h
  dispatch-Inv unique_id version is_high d pin_monitor rqst h = monitor-Inv d rqst h
  dispatch-Inv unique_id version is_high d uart_config rqst h = h
  dispatch-Inv unique_id version is_high d uart_tx rqst h = h
  dispatch-Inv unique_id version is_high d spi_transfer rqst h = h
  dispatch-Inv unique_id version is_high d i2c_transaction rqst h = h
  dispatch-Inv unique_id version is_high d capture_control rqst h = h
  dispatch-Inv unique_id version is_high d capture_read rqst h = h

  -- A task that wakes up still owns its pin, or has put it back into its empty slot.
  wake-owns :
      (d : Device B) (t : Task B) (at : At) (w : Wake B) (r : Woken B) (i : ℕ)
      → wake_at B d t at w ≡ some r
      → d.slots t.pin ≡ none
      → present (r.slots i) + owners i (with_task B [] r.task [])
        ≡ present (d.slots i) + (if t.pin == i then 1 else 0)
  unfolding wake_at put
  wake-owns d t replying (replied sent) r i e n = ground arith
  wake-owns d t (watching seq) stopped r i e n = ground arith
  wake-owns d t (watching seq) (edge is_high now_us) r i e n = ground arith
  wake-owns d t (publishing seq) published r i e n = ground arith
  wake-owns d t returning locked r i e n = ground arith
  wake-owns d t at w r i e n = ground arith

  owners-with_task :
      (i : ℕ) (before after : List (Task B)) (o : Option (Task B))
      → owners i (with_task B before o after)
        ≡ owners i before + owners i (with_task B [] o []) + owners i after
  owners-with_task i before after none = omega (arith, owners-append i before after)
  owners-with_task i before after (some t) = omega (arith, owners-append i before (t ∷ after))

  owner-of :
      (d : Device B) (before after : List (Task B)) (t : Task B)
      → Inv d
      → d.tasks ≡ before ++ (t ∷ after)
      → d.slots t.pin ≡ none
  unfolding Inv
  owner-of d before after t h e = elim (Option-cases (d.slots t.pin)) [
    | inl n ↦ n
    | inr (x, g) ↦
        let k = h t.pin in let m = owners-append t.pin before (t ∷ after) in ground (arith, k, m)
  ]

  wake-Inv :
      (d : Device B) (before after : List (Task B)) (t : Task B) (w : Wake B) (r : Woken B)
      → Inv d
      → d.tasks ≡ before ++ (t ∷ after)
      → wake_at B d t t.at w ≡ some r
      → Inv (record { slots = r.slots; stop = r.stop; tasks = with_task B before r.task after })
  unfolding Inv
  wake-Inv d before after t w r h e f i =
      let k = wake-owns d t t.at w r i f (owner-of d before after t h e) in
      let m = owners-with_task i before after r.task in
      let n : owners i d.tasks ≡ owners i before + owners i (t ∷ after) =
        ap (owners i) e ∙ owners-append i before (t ∷ after) in
      let p = h i in omega (arith, k, m, n, p)

  Reach-Inv : {d : Device B} → Reach B d → Inv d
  Reach-Inv (booted pads stop) = boot-Inv pads stop
  Reach-Inv (later {d} r (request unique_id version is_high e rqst p)) =
      subst Inv p (dispatch-Inv unique_id version is_high d e rqst (Reach-Inv r))
  Reach-Inv (later {d} r (wake before after t w s e f p)) =
      subst Inv (sym p) (wake-Inv d before after t w s (Reach-Inv r) e f)
  Reach-Inv (later r (sys_reset pads stop p)) = subst Inv (sym p) (boot-Inv pads stop)

  pub Reach-count :
      {d : Device B}
      → Reach B d
      → (i : ℕ) → present (d.slots i) + owners i d.tasks ≡ (if ltb i num_pins then 1 else 0)
  unfolding Inv
  Reach-count r = Reach-Inv r
