-- ===== src/Assistant.antt =====
-- banc-assistant/src/main.rs: the reference firmware, its handlers and its monitor tasks.
-- The executor is cooperative: a handler runs from one `await` to the next as a single step, and no
-- lock on the pins is held across one. The drivers of embassy are the record `Board`.
pub mod Running
pub mod Tasks
pub mod Pins
pub mod Waking
pub mod Pending
pub mod Requests
pub mod Stopping
pub mod Bounds
pub mod Start
pub mod Resetting
pub mod Tests
use banc.Common.{
  ℕ, ◌+◌, ◌%◌, ◌^◌, ◌<◌, ◌≡◌, Bool, true, false, Option, none, some, List, [], ◌∷◌, ◌++◌, ltb, ◌==◌,
  leb, if◌then◌else◌, Result, ok, err, ok_or, length, put,
}
use banc.Common.Text.{Text, codes, len}
use banc.Icd
use banc.Icd.{
  UartConfig, Chunk, SpiTransfer, I2cTransaction, CaptureControl, CaptureRead, ChunkResult,
  CaptureStatusResult, CaptureChunkResult, Level, low, high, Pull, PinMode, input, output, Error,
  unsupported, busy, GpioConfig, GpioSet, GpioRead, PinEvent, PinMonitor, AckResult, LevelResult,
  Identity, Endpoint, identify, reset, gpio_config, gpio_set, gpio_read, pin_monitor, uart_config,
  uart_tx, spi_transfer, i2c_transaction, capture_control, capture_read, RequestTy, ResponseTy,
  protocol_version,
}
use banc.Node.{hex_digits}

-- `embassy_rp::gpio::Flex` and `embassy_sync::signal::Signal`. Of a signal the program relies on what
-- its documentation says: `wait` returns once it was signaled, and takes the signal away; after a
-- reset there is none. `wait` gives what is left when it returns, and nothing while it waits.
pub record Board : Type 1 where
  pub Flex : Type 0
  pub set_pull : Pull → Flex → Flex
  pub set_as_input : Flex → Flex
  pub set_as_output : Flex → Flex
  pub set_low : Flex → Flex
  pub set_high : Flex → Flex
  pub Signal : Type 0
  pub signal : Signal → Signal
  pub reset : Signal → Signal
  pub wait : Signal → Option Signal
  pub wait-signal : (s : Signal) → (r : Signal) × (wait (signal s) ≡ some r)
  pub wait-reset : (s : Signal) → wait (reset s) ≡ none

abbrev pub num_pins : ℕ
num_pins = 8

abbrev pub pool_size : ℕ
pool_size = num_pins + 2

unfoldable pub pin_index : ℕ → Option ℕ
pin_index banc_pin = if ltb banc_pin num_pins then some banc_pin else none

-- `heapless::String::<capacity>::try_from(t).unwrap_or_default()`.
abbrev pub heapless_string : ℕ → Text → Text
heapless_string capacity t = if leb (len t) capacity then t else []

-- The serial string of the USB device, written into 16 bytes.
unfoldable pub usb_serial : ℕ → Text
usb_serial unique_id = heapless_string 16 (hex_digits 16 unique_id)

abbrev pub level_of : Bool → Level
level_of is_high = if is_high then high else low

unfoldable pub identify_handler : (unique_id : ℕ) (version : Text) → Identity
identify_handler unique_id version = record {
  role = Icd.assistant;
  protocol_version = protocol_version;
  unique_id = unique_id;
  fw_name = heapless_string 32 (codes "banc-assistant");
  fw_version = heapless_string 16 version;
}

-- The endpoints of a later phase.
abbrev pub uart_config_handler : UartConfig → AckResult
uart_config_handler rqst = err unsupported

abbrev pub uart_tx_handler : Chunk → AckResult
uart_tx_handler rqst = err unsupported

abbrev pub spi_transfer_handler : SpiTransfer → ChunkResult
spi_transfer_handler rqst = err unsupported

abbrev pub i2c_transaction_handler : I2cTransaction → ChunkResult
i2c_transaction_handler rqst = err unsupported

abbrev pub capture_control_handler : CaptureControl → CaptureStatusResult
capture_control_handler rqst = err unsupported

abbrev pub capture_read_handler : CaptureRead → CaptureChunkResult
capture_read_handler rqst = err unsupported

-- Where a monitor task stands: it awaits its reply, an edge or the stop signal, the publication of an
-- event, or the lock under which it puts its pin back.
pub data At : Type 0 where
  replying : At
  watching publishing : (seq : ℕ) → At
  returning : At

module _ (B : Board) where
  open B use {Flex, Signal}

  pub record Task : Type 0 where
    pub pin : ℕ
    pub flex : Flex
    pub at : At

  -- The statics `PIN_SLOTS` and `MONITOR_STOP`, and the tasks of `pin_monitor_handler` that run.
  pub record Device : Type 0 where
    pub slots : ℕ → Option Flex
    pub stop : ℕ → Signal
    pub tasks : List Task

  -- The firmware after `main` has set it up, on the pins as the chip gives them.
  unfoldable pub boot : (ℕ → Flex) → (ℕ → Signal) → Device
  boot pads stop = record {
    slots = λ i. if ltb i num_pins then some (pads i) else none;
    stop = stop;
    tasks = [];
  }

  -- The pin that a request names, if it is there and no monitor owns it.
  unfoldable pub lock_pin : Device → ℕ → Result Error Flex
  unfolding pin_index
  lock_pin d banc_pin = elim (pin_index banc_pin) [
    | none ↦ err unsupported
    | some idx ↦ ok_or (d.slots idx) busy
  ]

  -- What the handlers of a pin do once they have it: their change to it.
  on_pin : Device → ℕ → (Flex → Flex) → AckResult × Device
  unfolding lock_pin put
  on_pin d banc_pin f = elim (lock_pin d banc_pin) [
    | err e ↦ (err e, d)
    | ok flex ↦ (ok tt, record d { slots = put d.slots banc_pin (some (f flex)) })
  ]

  configure : PinMode → Flex → Flex
  configure (input pull) flex = B.set_as_input (B.set_pull pull flex)
  configure output flex = B.set_as_output (B.set_pull Pull.none flex)

  unfoldable pub gpio_config_handler : Device → GpioConfig → AckResult × Device
  unfolding on_pin configure
  gpio_config_handler d rqst = on_pin d rqst.pin (configure rqst.mode)

  set_level : Level → Flex → Flex
  set_level low flex = B.set_low flex
  set_level high flex = B.set_high flex

  unfoldable pub gpio_set_handler : Device → GpioSet → AckResult × Device
  unfolding on_pin set_level
  gpio_set_handler d rqst = on_pin d rqst.pin (set_level rqst.level)

  -- `is_high` is what the pin reads at this moment.
  unfoldable pub gpio_read_handler : Device → (is_high : Flex → Bool) → GpioRead → LevelResult
  unfolding lock_pin
  gpio_read_handler d is_high rqst = elim (lock_pin d rqst.pin) [
    | err e ↦ err e
    | ok flex ↦ ok (level_of (is_high flex))
  ]

  -- A request to monitor that enables: the task takes the pin and resets the stop signal.
  take_pin : Device → ℕ → Option Flex → AckResult × Device
  take_pin d idx none = (err busy, d)
  take_pin d idx (some flex) = (
    ok tt,
    record d {
      slots = put d.slots idx none;
      stop = put d.stop idx (B.reset (d.stop idx));
      tasks = record { pin = idx; flex = flex; at = replying } ∷ d.tasks;
    },
  )

  -- `pin_monitor_handler` from its start up to the first reply, which is the result.
  unfoldable pub pin_monitor_handler : Device → PinMonitor → AckResult × Device
  unfolding pin_index take_pin put
  pin_monitor_handler d rqst = elim (pin_index rqst.pin) [
    | none ↦ (err unsupported, d)
    | some idx ↦ elim rqst.enable [
      | false ↦ (ok tt, record d { stop = put d.stop idx (B.signal (d.stop idx)) })
      | true ↦ take_pin d idx (d.slots idx)
    ]
  ]

  -- The table of `define_dispatch!`, with the answer of each endpoint to its request. After its
  -- answer to `reset` the chip resets itself.
  unfoldable pub dispatch :
      (unique_id : ℕ) (version : Text) (is_high : Flex → Bool)
      → Device
      → (e : Endpoint) → RequestTy e
      → ResponseTy e × Device
  dispatch unique_id version is_high d identify rqst = (identify_handler unique_id version, d)
  dispatch unique_id version is_high d reset rqst = (tt, d)
  dispatch unique_id version is_high d gpio_config rqst = gpio_config_handler d rqst
  dispatch unique_id version is_high d gpio_set rqst = gpio_set_handler d rqst
  dispatch unique_id version is_high d gpio_read rqst = (gpio_read_handler d is_high rqst, d)
  dispatch unique_id version is_high d pin_monitor rqst = pin_monitor_handler d rqst
  dispatch unique_id version is_high d uart_config rqst = (uart_config_handler rqst, d)
  dispatch unique_id version is_high d uart_tx rqst = (uart_tx_handler rqst, d)
  dispatch unique_id version is_high d spi_transfer rqst = (spi_transfer_handler rqst, d)
  dispatch unique_id version is_high d i2c_transaction rqst = (i2c_transaction_handler rqst, d)
  dispatch unique_id version is_high d capture_control rqst = (capture_control_handler rqst, d)
  dispatch unique_id version is_high d capture_read rqst = (capture_read_handler rqst, d)
