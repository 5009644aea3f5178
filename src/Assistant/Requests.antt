-- ===== src/Assistant/Requests.antt =====
-- banc-assistant/src/main.rs: what requests leave of a monitor that is to stop.
use banc.Common.{
  ℕ, ◌≤◌, ◌≡◌, inl, inr, sym, subst, Bool, true, false, none, some, List, arith, put, ◌==◌,
  if◌then◌else◌, Bool-cases, Option-cases,
}
use banc.Icd.{
  PinMonitor, Endpoint, identify, reset, gpio_config, gpio_set, gpio_read, pin_monitor, uart_config,
  uart_tx, spi_transfer, i2c_transaction, capture_control, capture_read, RequestTy,
}
use banc.Assistant.{
  Board, Device, lock_pin, on_pin, take_pin, gpio_config_handler, gpio_set_handler,
  pin_monitor_handler, dispatch,
}
use banc.Assistant.Tasks.{pin_index_cases}
use banc.Assistant.Pending.{count, is_returning}

module _ (B : Board) where
  -- What a request leaves as it was, for a pin that a monitor has.
  unfoldable pub Keeps : Device B → Device B → ℕ → Type 0
  Keeps d d' i =
      (d'.slots i ≡ none)
      × ((left : B.Signal)
          → B.wait (d.stop i) ≡ some left
          → (r : B.Signal) × (B.wait (d'.stop i) ≡ some r))
      × (count B (is_returning B i) d.tasks ≤ count B (is_returning B i) d'.tasks)

  same-Keeps : (d : Device B) (i : ℕ) → d.slots i ≡ none → Keeps d d i
  unfolding Keeps
  same-Keeps d i n = (n, (λ left h. (left, h)), omega arith)

  on_pin-Keeps :
      (d : Device B) (i p : ℕ) (f : B.Flex → B.Flex)
      → d.slots i ≡ none
      → Keeps d (on_pin B d p f).1 i
  unfolding Keeps on_pin lock_pin put
  on_pin-Keeps d i p f n = elim (pin_index_cases B p) [
    | inl (e, out) ↦ unfold Keeps in ground (arith, same-Keeps d i n)
    | inr (e, within) ↦ elim (Option-cases (d.slots p)) [
      | inl g ↦ unfold Keeps in ground (arith, same-Keeps d i n)
      | inr (x, g) ↦ unfold Keeps in ground (arith, same-Keeps d i n)
    ]
  ]

  -- Another pin's monitor starts: its own is not the pin `i`, which is in no slot.
  take_pin-Keeps :
      (d : Device B) (i idx : ℕ) (x : B.Flex)
      → d.slots i ≡ none
      → d.slots idx ≡ some x
      → Keeps d (take_pin B d idx (some x)).1 i
  unfolding Keeps take_pin put count
  take_pin-Keeps d i idx x n g =
      let other : (idx == i) ≡ false = elim (Bool-cases (idx == i)) [
        | inl e ↦ ground (arith, e, n, g)
        | inr e ↦ e
      ] in
      (
        ground (arith, other),
        (λ left h. (
          left,
          subst (λ b. B.wait (if b then B.reset (d.stop idx) else d.stop i) ≡ some left) (sym other)
              h,
        )),
        omega arith,
      )

  -- The signal of any pin is signaled.
  signal-Keeps :
      (d : Device B) (i idx : ℕ)
      → d.slots i ≡ none
      → Keeps d (record d { stop = put d.stop idx (B.signal (d.stop idx)) }) i
  unfolding Keeps put
  signal-Keeps d i idx n = (n, signaled (idx == i), omega arith)
    where
      signaled :
          (b : Bool) (left : B.Signal)
          → B.wait (d.stop i) ≡ some left
          → (r : B.Signal) × (B.wait (if b then B.signal (d.stop idx) else d.stop i) ≡ some r)
      signaled true left h = B.wait-signal (d.stop idx)
      signaled false left h = (left, h)

  monitor-Keeps :
      (d : Device B) (i : ℕ) (rqst : PinMonitor)
      → d.slots i ≡ none
      → Keeps d (pin_monitor_handler B d rqst).1 i
  unfolding Keeps pin_monitor_handler take_pin put
  monitor-Keeps d i rqst n = elim (pin_index_cases B rqst.pin) [
    | inl (e, out) ↦ unfold Keeps in ground (arith, same-Keeps d i n)
    | inr (e, within) ↦ elim (Bool-cases rqst.enable) [
      | inr off ↦
          let disabled : (pin_monitor_handler B d rqst).1
              ≡ record d { stop = put d.stop rqst.pin (B.signal (d.stop rqst.pin)) } =
            unfold pin_monitor_handler in ground arith in
          subst (λ d'. Keeps d d' i) (sym disabled) (signal-Keeps d i rqst.pin n)
      | inl on ↦ elim (Option-cases (d.slots rqst.pin)) [
        | inl g ↦ unfold Keeps in ground (arith, same-Keeps d i n)
        | inr (x, g) ↦
            let enabled : (pin_monitor_handler B d rqst).1 ≡ (take_pin B d rqst.pin (some x)).1 =
              ground arith in
            subst (λ d'. Keeps d d' i) (sym enabled) (take_pin-Keeps d i rqst.pin x n g)
      ]
    ]
  ]

  pub dispatch-Keeps :
      (unique_id : ℕ) (version : List ℕ) (is_high : B.Flex → Bool) (d : Device B) (e : Endpoint)
      (rqst : RequestTy e) (i : ℕ)
      → d.slots i ≡ none
      → Keeps d (dispatch B unique_id version is_high d e rqst).1 i
  unfolding dispatch gpio_config_handler gpio_set_handler
  dispatch-Keeps unique_id version is_high d gpio_config rqst i n = on_pin-Keeps d i rqst.pin _ n
  dispatch-Keeps unique_id version is_high d gpio_set rqst i n = on_pin-Keeps d i rqst.pin _ n
  dispatch-Keeps unique_id version is_high d pin_monitor rqst i n = monitor-Keeps d i rqst n
  dispatch-Keeps unique_id version is_high d identify rqst i n = same-Keeps d i n
  dispatch-Keeps unique_id version is_high d reset rqst i n = same-Keeps d i n
  dispatch-Keeps unique_id version is_high d gpio_read rqst i n = same-Keeps d i n
  dispatch-Keeps unique_id version is_high d uart_config rqst i n = same-Keeps d i n
  dispatch-Keeps unique_id version is_high d uart_tx rqst i n = same-Keeps d i n
  dispatch-Keeps unique_id version is_high d spi_transfer rqst i n = same-Keeps d i n
  dispatch-Keeps unique_id version is_high d i2c_transaction rqst i n = same-Keeps d i n
  dispatch-Keeps unique_id version is_high d capture_control rqst i n = same-Keeps d i n
  dispatch-Keeps unique_id version is_high d capture_read rqst i n = same-Keeps d i n
