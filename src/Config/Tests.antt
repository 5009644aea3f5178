-- ===== src/Config/Tests.antt =====
-- banc-host/src/config.rs: a config that is let through.
use banc.Common.{ℕ, ◌≡◌, ◌↔◌, refl, none, some, [], ◌∷◌, ok}
use banc.Common.Text.{codes, trim, trim_end, trim_start, is_whitespace, text_eq, as_bytes}
use banc.Config.{
  RigConfig, AssistantConfig, validate, check_names, check_assistants, check_assistant,
  check_transport, check_unique_id, check_lease, is_network, contains,
}
use banc.Config.Valid.{IsValid, validate-ok_iff}

abbrev button : AssistantConfig
button = record {
  name = codes "button";
  serial = some (codes "E66");
  product = none;
  addr = none;
  token_file = none;
  unique_id = none;
}

abbrev radio : AssistantConfig
radio = record {
  name = codes "radio";
  serial = none;
  product = none;
  addr = some (codes "bench:9000");
  token_file = some (codes "token");
  unique_id = some (codes "E66138935F5A8B28");
}

abbrev bench : RigConfig ℕ
bench = record {
  rig = record { name = some (codes "bench"); lock_file = none; lease = none };
  target = none;
  assistants = button ∷ radio ∷ [];
  instruments =
      record { name = codes "att"; kind = codes "rcdat"; address = none; params = 0 } ∷ [];
}

validate-ok_iff_example : (validate bench ≡ ok tt) ↔ IsValid bench
validate-ok_iff_example = validate-ok_iff bench

bench_valid : validate bench ≡ ok tt
unfolding validate check_names check_assistants check_assistant check_transport check_unique_id
    check_lease is_network contains trim trim_end trim_start is_whitespace text_eq as_bytes
bench_valid = refl
