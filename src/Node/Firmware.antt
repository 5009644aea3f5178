-- ===== src/Node/Firmware.antt =====
-- banc-host/src/node.rs with banc-assistant/src/main.rs: the pin of a host, and the serial number that
-- the USB device of the firmware shows.
use banc.Common.{
  ℕ, zero, suc, ◌/◌, ◌%◌, ◌^◌, ◌<◌, ◌≡◌, ◌≢◌, inl, inr, refl, sym, ◌∙◌, Bool, true, false, some, [],
  ◌∷◌, ◌++◌, arith, ◌==◌, if◌then◌else◌, ok, err, length, length-append, all, Bool-cases,
}
use banc.Common.Text.{Text, len, as_bytes, encode_utf8, text_eq_iff, is_ascii_hexdigit}
use banc.Config.{AssistantConfig, check_unique_id}
use banc.Node.{other_id, hex_digit, hex_digits, eq_ignore_ascii_case, identify, check_pin}
use banc.Node.Pin.{pin-value, hex_value-hex_digits}
use banc.Assistant.{usb_serial, identify_handler}

all-append : (p : ℕ → Bool) (s t : Text) → all p s ≡ true → all p t ≡ true → all p (s ++ t) ≡ true
all-append p [] t h k = k
all-append p (c ∷ s) t h k = ground (arith, all-append p s t)

digit-IsHex : (d : ℕ) → d < 16 → is_ascii_hexdigit (hex_digit d) ≡ true
digit-IsHex d h = ground arith

hex_digits-all : (width n : ℕ) → all is_ascii_hexdigit (hex_digits width n) ≡ true
unfolding hex_digits
hex_digits-all zero n = refl
hex_digits-all (suc width) n =
    all-append is_ascii_hexdigit (hex_digits width (n / 16)) (hex_digit (n % 16) ∷ [])
      (hex_digits-all width (n / 16)) (ground (arith, digit-IsHex (n % 16) (omega arith)))

hex_digits-length : (width n : ℕ) → length (hex_digits width n) ≡ width
unfolding hex_digits
hex_digits-length zero n = refl
hex_digits-length (suc width) n =
    length-append (hex_digits width (n / 16)) (hex_digit (n % 16) ∷ [])
    ∙ omega (arith, hex_digits-length width (n / 16))

-- A hexadecimal digit is one byte.
len-hex : (t : Text) → all is_ascii_hexdigit t ≡ true → len t ≡ length t
unfolding as_bytes encode_utf8
len-hex [] h = refl
len-hex (c ∷ t) h = ground (arith, len-hex t)

pub usb_serial_hex : (unique_id : ℕ) → usb_serial unique_id ≡ hex_digits 16 unique_id
unfolding usb_serial
usb_serial_hex unique_id =
    let l = len-hex (hex_digits 16 unique_id) (hex_digits-all 16 unique_id) in
    ground (arith, l, hex_digits-length 16 unique_id)

pins_itself : (n : ℕ) → eq_ignore_ascii_case (hex_digits 16 n) (hex_digits 16 n) ≡ true
unfolding eq_ignore_ascii_case
pins_itself n = (text_eq_iff _ _).1 refl

pins_no_other :
    (n m : ℕ)
    → n < 16 ^ 16
    → m < 16 ^ 16
    → n ≢ m
    → eq_ignore_ascii_case (hex_digits 16 n) (hex_digits 16 m) ≡ false
pins_no_other n m h k ne =
    elim (Bool-cases (eq_ignore_ascii_case (hex_digits 16 n) (hex_digits 16 m))) [
      | inr e ↦ e
      | inl e ↦
          let same : m ≡ n =
            sym (hex_value-hex_digits 16 m k) ∙ pin-value n (hex_digits 16 m) h e in
          ground (arith, same)
    ]

-- An assistant whose config pins it to the serial number that its USB device shows is let through,
-- and then, of all the devices with this firmware, `identify` accepts the one of that number and
-- refuses each other as another device.
pub serial_pins_device :
    {E C : Type 0} (cfg : AssistantConfig) (client : C) (version : Text) (unique_id other : ℕ)
    → unique_id < 16 ^ 16
    → other < 16 ^ 16
    → cfg.unique_id ≡ some (usb_serial unique_id)
    → (check_unique_id cfg ≡ ok tt)
      × (identify {E = E} (λ c. ok (identify_handler other version)) client cfg ≡ (
          if other == unique_id
          then ok (record { client = client; identity = identify_handler other version })
          else err (other_id (hex_digits 16 other) (usb_serial unique_id))))
unfolding check_unique_id identify check_pin identify_handler
serial_pins_device cfg client version unique_id other h k e =
    let s = usb_serial_hex unique_id in
    let l = len-hex (hex_digits 16 unique_id) (hex_digits-all 16 unique_id) in
    let w = hex_digits-length 16 unique_id in
    let a = hex_digits-all 16 unique_id in
    (
      ground (arith, s, l, w, a),
      elim (Bool-cases (other == unique_id)) [
        | inl same ↦ ground (arith, s, pins_itself other)
        | inr differs ↦ ground (arith, s, pins_no_other other unique_id k h (ground arith))
      ],
    )
