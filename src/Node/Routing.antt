-- ===== src/Node/Routing.antt =====
-- banc-host/src/node.rs with banc-assistant/src/main.rs: finding the right device on USB.
use banc.Common.{
  ℕ, ◌^◌, ◌<◌, ◌≡◌, ◌↔◌, ◌⊎◌, refl, ap, sym, ◌∙◌, Bool, true, Option, none, some, List, [], ◌∷◌,
  arith, Result,
}
use banc.Common.Text.{Text, codes, text_eq, text_eq_iff}
use banc.Config.{AssistantConfig}
use banc.Icd.{identify}
use banc.Node.{usb_filter, hex_digits}
use banc.Node.Pin.{hex_value, hex_value-hex_digits}
use banc.Node.Firmware.{usb_serial_hex}
use banc.Assistant.{Board, dispatch, identify_handler}
use banc.Assistant.Start.{Firmware, Request, start, chip_id, server_loop, usb_config, serve}

hex_inj : (n m : ℕ) → n < 16 ^ 16 → m < 16 ^ 16 → hex_digits 16 n ≡ hex_digits 16 m → n ≡ m
hex_inj n m h k e = sym (hex_value-hex_digits 16 n h) ∙ ap hex_value e ∙ hex_value-hex_digits 16 m k

module _ (B : Board) (version : Text) where
  server_loop-kept :
      (fw : Firmware B) (runs : List (List (Request B)))
      → ((server_loop B version fw runs).unique_id ≡ fw.unique_id)
        × ((server_loop B version fw runs).usb ≡ fw.usb)
  unfolding server_loop
  server_loop-kept fw [] = (refl, refl)
  server_loop-kept fw (rs ∷ runs) =
      server_loop-kept (record fw { device = serve B version fw.unique_id fw.device rs }) runs

  kept_start :
      {E : Type 0} (other : Result E ℕ) (gpio : ℕ → B.Flex) (stop : ℕ → B.Signal)
      (runs : List (List (Request B)))
      → let fw = server_loop B version (start B other gpio stop) runs in
        (fw.unique_id ≡ chip_id other)
        × (fw.usb.serial_number ≡ some (hex_digits 16 (chip_id other)))
        × (fw.usb.product ≡ some (codes "banc-assistant"))
  unfolding start usb_config
  kept_start other gpio stop runs =
      let (i, u) = server_loop-kept (start B other gpio stop) runs in
      let s = usb_serial_hex (chip_id other) in
      (i, ap (λ x. x.serial_number) u ∙ ap some s, ap (λ x. x.product) u)

  filter_iff :
      (cfg : AssistantConfig) (n m : ℕ) (serial product : Option Text)
      → n < 16 ^ 16
      → m < 16 ^ 16
      → cfg.serial ≡ some (hex_digits 16 n)
      → (cfg.product ≡ none) ⊎ (cfg.product ≡ some (codes "banc-assistant"))
      → serial ≡ some (hex_digits 16 m)
      → product ≡ some (codes "banc-assistant")
      → (usb_filter cfg serial product ≡ true) ↔ (n ≡ m)
  unfolding usb_filter
  filter_iff cfg n m serial product h k e p f g =
      let a = text_eq_iff (hex_digits 16 m) (hex_digits 16 n) in
      let b = text_eq_iff (codes "banc-assistant") (codes "banc-assistant") in
      (
        (λ q. hex_inj n m h k (sym (a.0 (serial_match q)))),
        (λ q. ground (arith, e, p, f, g, a, b, ap (hex_digits 16) q)),
      )
    where
      serial_match :
          usb_filter cfg serial product ≡ true → text_eq (hex_digits 16 m) (hex_digits 16 n) ≡ true
      serial_match q = ground (arith, e, f, q)

  -- USB routing. A config that names the serial number of one assistant, and the product or none,
  -- selects of all the devices with this firmware, whatever they have served since they started, just the
  -- ones of the same chip id; and the id by which a device identifies itself over the protocol is that
  -- one. A chip whose id cannot be read counts as 0.
  pub usb_routes :
      {E E' : Type 0} (cfg : AssistantConfig) (id : Result E ℕ) (other : Result E' ℕ)
      (gpio : ℕ → B.Flex) (stop : ℕ → B.Signal) (runs : List (List (Request B)))
      (is_high : B.Flex → Bool)
      → chip_id id < 16 ^ 16
      → chip_id other < 16 ^ 16
      → cfg.serial ≡ (start B id gpio stop).usb.serial_number
      → (cfg.product ≡ none) ⊎ (cfg.product ≡ some (codes "banc-assistant"))
      → let fw = server_loop B version (start B other gpio stop) runs in
        ((usb_filter cfg fw.usb.serial_number fw.usb.product ≡ true) ↔ (chip_id id ≡ chip_id other))
        × ((dispatch B fw.unique_id version is_high fw.device identify tt).0.unique_id
            ≡ chip_id other)
  unfolding dispatch identify_handler server_loop
  usb_routes cfg id other gpio stop runs is_high h k e p =
      let (i, s, t) = kept_start other gpio stop runs in
      (
        filter_iff cfg (chip_id id) (chip_id other) _ _ h k (e ∙ (kept_start id gpio stop []).1) p s
            t,
        i,
      )
