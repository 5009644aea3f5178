-- ===== src/Assistant/Start.antt =====
-- banc-assistant/src/main.rs: main up to its loop, its loop, and the task of reset_handler.
-- What the OTP, the pads of the chip and the timer give are arguments.
use banc.Common.{
  ℕ, ◌+◌, Bool, true, Option, some, List, [], ◌∷◌, leb, if◌then◌else◌, Result, ok, err,
}
use banc.Common.Text.{Text, codes}
use banc.Common.Time.{Instant, from_millis}
use banc.Icd.{Endpoint, RequestTy}
use banc.Assistant.{Board, Device, boot, dispatch, usb_serial}

-- `embassy_usb::Config`, of which `Config::new` sets the vendor and the product id.
pub record UsbConfig : Type 0 where
  pub vendor_id : ℕ
  pub product_id : ℕ
  pub manufacturer : Option Text
  pub product : Option Text
  pub serial_number : Option Text
  pub device_class : ℕ
  pub device_sub_class : ℕ
  pub device_protocol : ℕ
  pub composite_with_iads : Bool

unfoldable pub usb_config : Text → UsbConfig
usb_config serial = record {
  vendor_id = 0x16c0;
  product_id = 0x27dd;
  manufacturer = some (codes "banc");
  product = some (codes "banc-assistant");
  serial_number = some serial;
  device_class = 0xef;
  device_sub_class = 2;
  device_protocol = 1;
  composite_with_iads = true;
}

-- The id of the chip, or 0 where the OTP cannot be read.
unfoldable pub chip_id : {E : Type 0} → Result E ℕ → ℕ
chip_id (ok id) = id
chip_id (err e) = 0

module _ (B : Board) where
  open B use {Flex, Signal}

  -- What `main` hands to the USB device and to its server.
  pub record Firmware : Type 0 where
    pub unique_id : ℕ
    pub usb : UsbConfig
    pub device : Device B

  -- The pin 0 of the protocol is the pad of GPIO 2, and so on up.
  unfoldable pub start : {E : Type 0} → Result E ℕ → (gpio : ℕ → Flex) → (ℕ → Signal) → Firmware
  unfolding chip_id usb_config
  start get_chipid gpio stop = record {
    unique_id = chip_id get_chipid;
    usb = usb_config (usb_serial (chip_id get_chipid));
    device = boot B (λ i. gpio (i + 2)) stop;
  }

  -- A request as the server dispatches it, with what the pins read at that moment, and what the other
  -- tasks have done to the device since the request before.
  pub record Request : Type 0 where
    pub endpoint : Endpoint
    pub rqst : RequestTy endpoint
    pub is_high : Flex → Bool
    pub tasks : Device B → Device B

  -- What one call of `server.run` serves, before it fails because the host has gone.
  unfoldable pub serve : (version : Text) → ℕ → Device B → List Request → Device B
  serve version unique_id d [] = d
  serve version unique_id d (r ∷ rs) =
      serve version unique_id
        (dispatch B unique_id version r.is_high (r.tasks d) r.endpoint r.rqst).1 rs

  -- The loop of `main`: it serves on, whatever `server.run` has ended with.
  unfoldable pub server_loop : (version : Text) → Firmware → List (List Request) → Firmware
  unfolding serve
  server_loop version fw [] = fw
  server_loop version fw (rs ∷ runs) =
      server_loop version (record fw { device = serve version fw.unique_id fw.device rs }) runs

-- Where the task of `reset_handler` stands: it awaits its reply, then the timer, then it is over with the
-- chip.
pub data ResetAt : Type 0 where
  replying : ResetAt
  flushing : (until : Instant) → ResetAt
  over : Instant → ResetAt

pub data ResetWake : Type 0 where
  replied : (sent : Bool) (now : Instant) → ResetWake
  timer : (now : Instant) → ResetWake

unfoldable pub reset_handler : ResetAt → ResetWake → ResetAt
reset_handler replying (replied sent now) = flushing (now + from_millis 100)
reset_handler replying (timer now) = replying
reset_handler (flushing until) (timer now) = if leb until now then over now else flushing until
reset_handler (flushing until) (replied sent now) = flushing until
reset_handler (over at) w = over at
