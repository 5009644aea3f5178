-- ===== src/Assistant/Pins.antt =====
-- banc-assistant/src/main.rs: what the owners of the pins mean for the requests.
use banc.Common.{
  ℕ, ◌≤◌, ◌<◌, ◌≡◌, ◌≢◌, ◌↔◌, ◌⊎◌, inl, inr, Bool, true, none, some, arith, Result, ok, err,
  Option-cases,
}
use banc.Icd.{Error, unsupported, busy, GpioConfig, GpioSet, GpioRead}
use banc.Assistant.{
  Board, num_pins, Device, lock_pin, on_pin, take_pin, gpio_config_handler, gpio_set_handler,
  gpio_read_handler, pin_monitor_handler,
}
use banc.Assistant.Running.{Reach}
use banc.Assistant.Tasks.{owners, Reach-count, pin_index_cases}

module _ (B : Board) where
  -- In every state that the firmware can come to, each of its pins is either in its slot, with no
  -- monitor on it, or owned by exactly one monitor task: it is never lost, and never had twice.
  pub pin_owned_once :
      (d : Device B) (i : ℕ)
      → Reach B d
      → i < num_pins
      → ((d.slots i ≢ none) × (owners B i d.tasks ≡ 0))
        ⊎ ((d.slots i ≡ none) × (owners B i d.tasks ≡ 1))
  pin_owned_once d i r lt =
      let h = Reach-count B r i in
      elim (Option-cases (d.slots i)) [
        | inl n ↦ inr (n, ground (arith, h))
        | inr (x, g) ↦ inl (ground arith, ground (arith, h))
      ]

  -- The answer of an endpoint on the pin `p`: refused as unsupported exactly where there is no such
  -- pin, and as busy exactly where a monitor owns it.
  abbrev pub Answers : {A : Type 0} → Device B → ℕ → Result Error A → Type 0
  Answers d p r =
      ((r ≡ err unsupported) ↔ (num_pins ≤ p)) × ((r ≡ err busy) ↔ (owners B p d.tasks ≡ 1))

  lock_pin_cases :
      (d : Device B) (p : ℕ)
      → Reach B d
      → ((lock_pin B d p ≡ err unsupported) × (num_pins ≤ p) × (owners B p d.tasks ≡ 0))
        ⊎ ((lock_pin B d p ≡ err busy) × (p < num_pins) × (owners B p d.tasks ≡ 1))
        ⊎ ((x : B.Flex) × (lock_pin B d p ≡ ok x)
            × (d.slots p ≡ some x)
            × (p < num_pins)
            × (owners B p d.tasks ≡ 0))
  unfolding lock_pin
  lock_pin_cases d p r =
      let h = Reach-count B r p in
      elim (pin_index_cases B p) [
        | inl (e, out) ↦ inl (ground arith, out, ground (arith, h))
        | inr (e, within) ↦ elim (Option-cases (d.slots p)) [
          | inl n ↦ inr (inl (ground arith, within, ground (arith, h)))
          | inr (x, g) ↦ inr (inr (x, ground arith, g, within, ground (arith, h)))
        ]
      ]

  -- In every state that the firmware can come to, configuring, setting and reading a pin, and
  -- starting to monitor it, are refused as unsupported exactly for a pin that the board does not
  -- have, and as busy exactly while a monitor owns it.
  pub requests_answered :
      (d : Device B) (is_high : B.Flex → Bool) (config : GpioConfig) (set : GpioSet)
      (read : GpioRead) (p : ℕ)
      → Reach B d
      → Answers d config.pin (gpio_config_handler B d config).0
        × Answers d set.pin (gpio_set_handler B d set).0
        × Answers d read.pin (gpio_read_handler B d is_high read)
        × Answers d p (pin_monitor_handler B d (record { pin = p; enable = true })).0
  unfolding gpio_config_handler gpio_set_handler gpio_read_handler
  requests_answered d is_high config set read p r =
      (on_pin-Answers config.pin _, on_pin-Answers set.pin _, read-Answers, monitor-Answers)
    where
      on_pin-Answers : (p : ℕ) (f : B.Flex → B.Flex) → Answers d p (on_pin B d p f).0
      on_pin-Answers p f = unfold on_pin in ground (arith, lock_pin_cases d p r)

      read-Answers : Answers d read.pin (gpio_read_handler B d is_high read)
      read-Answers = unfold gpio_read_handler in ground (arith, lock_pin_cases d read.pin r)

      monitor-Answers : Answers d p (pin_monitor_handler B d (record { pin = p; enable = true })).0
      monitor-Answers =
          let h = Reach-count B r p in
          unfold pin_monitor_handler take_pin in
          elim (pin_index_cases B p) [
            | inl (e, out) ↦ ground (arith, h)
            | inr (e, within) ↦ elim (Option-cases (d.slots p)) [
              | inl n ↦ ground (arith, h)
              | inr (x, g) ↦ ground (arith, h)
            ]
          ]
