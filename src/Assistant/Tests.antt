-- ===== src/Assistant/Tests.antt =====
-- banc-assistant/src/main.rs: a pin that is monitored, a request on it, and a reset.
use banc.Common.{
  ◌+◌, ◌≤◌, ◌≡◌, ◌≢◌, ◌⊎◌, refl, Bool, true, false, none, some, arith, length, if◌then◌else◌,
}
use banc.Common.Text.{codes}
use banc.Icd.{output, high, GpioConfig, GpioSet, GpioRead, PinMonitor, gpio_set, pin_monitor}
use banc.Assistant.{
  Board, pool_size, Device, boot, gpio_config_handler, gpio_set_handler, gpio_read_handler,
  pin_monitor_handler, dispatch,
}
use banc.Assistant.Running.{Reach, booted, later, request}
use banc.Assistant.Tasks.{owners}
use banc.Assistant.Pins.{pin_owned_once, Answers, requests_answered}
use banc.Assistant.Waking.{ComesBack}
use banc.Assistant.Stopping.{Steps, start, next, Came, monitor_stops}
use banc.Assistant.Bounds.{monitors_bounded}
use banc.Common.{[], ◌∷◌, List}
use banc.Common.Time.{from_millis}
use banc.Assistant.Start.{ResetWake, replied, timer, replying, over, reset_handler}
use banc.Assistant.Resetting.{reset_run}

-- A pin is whether it is driven high, and a signal is whether it was signaled.
abbrev pub desk : Board
desk = record {
  Flex = Bool;
  set_pull = λ pull flex. flex;
  set_as_input = λ flex. flex;
  set_as_output = λ flex. flex;
  set_low = λ flex. false;
  set_high = λ flex. true;
  Signal = Bool;
  signal = λ s. true;
  reset = λ s. false;
  wait = λ s. if s then some false else none;
  wait-signal = λ s. (false, refl);
  wait-reset = λ s. refl;
}

abbrev fresh : Device desk
fresh = boot desk (λ i. false) (λ i. false)

abbrev monitor_3 : PinMonitor
monitor_3 = record { pin = 3; enable = true }

-- The firmware after the request to monitor pin 3.
abbrev monitored : Device desk
monitored = (dispatch desk 7 (codes "1") (λ flex. flex) fresh pin_monitor monitor_3).1

monitored_reached : Reach desk monitored
monitored_reached =
    later (booted (λ i. false) (λ i. false))
      (request 7 (codes "1") (λ flex. flex) pin_monitor monitor_3 refl)

pin_owned_once_example :
    ((monitored.slots 3 ≢ none) × (owners desk 3 monitored.tasks ≡ 0))
    ⊎ ((monitored.slots 3 ≡ none) × (owners desk 3 monitored.tasks ≡ 1))
pin_owned_once_example = pin_owned_once desk monitored 3 monitored_reached (ground arith)

abbrev configure_3 : GpioConfig
configure_3 = record { pin = 3; mode = output }

abbrev set_4 : GpioSet
set_4 = record { pin = 4; level = high }

abbrev read_9 : GpioRead
read_9 = record { pin = 9 }

requests_answered_example :
    Answers desk monitored 3 (gpio_config_handler desk monitored configure_3).0
    × Answers desk monitored 4 (gpio_set_handler desk monitored set_4).0
    × Answers desk monitored 9 (gpio_read_handler desk monitored (λ flex. flex) read_9)
    × Answers desk monitored 3 (pin_monitor_handler desk monitored monitor_3).0
requests_answered_example =
    requests_answered desk monitored (λ flex. flex) configure_3 set_4 read_9 3 monitored_reached

monitors_bounded_example : length monitored.tasks + 2 ≤ pool_size
monitors_bounded_example = monitors_bounded desk monitored monitored_reached

abbrev stopping : Device desk
stopping = (pin_monitor_handler desk monitored (record { pin = 3; enable = false })).1

-- Pin 4 is set after it.
abbrev afterwards : Device desk
afterwards = (dispatch desk 7 (codes "1") (λ flex. flex) stopping gpio_set set_4).1

abbrev then_set : Steps desk stopping afterwards
then_set = next start (request 7 (codes "1") (λ flex. flex) gpio_set set_4 refl)

one_owner : owners desk 3 monitored.tasks ≡ 1
unfolding dispatch boot pin_monitor_handler
one_owner = refl

monitor_stops_example : Came desk then_set 3 ⊎ ComesBack desk afterwards 3 3
monitor_stops_example =
    monitor_stops desk monitored afterwards 3 monitored_reached (ground arith) one_owner then_set

-- The timer wakes the task of a reset too early, and then in time.
abbrev reset_wakes : List ResetWake
reset_wakes = replied true (from_millis 5) ∷ timer (from_millis 50) ∷ timer (from_millis 106) ∷ []

resets : reset_run replying reset_wakes ≡ over (from_millis 106)
unfolding reset_handler
resets = refl
