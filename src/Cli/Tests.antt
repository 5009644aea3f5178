-- ===== src/Cli/Tests.antt =====
-- banc/src/bin/banc.rs: a rig with one assistant on the network and a target on a local probe.
use banc.Common.{
  ℕ, ◌≡◌, ◌↔◌, ◌⊎◌, refl, true, false, Option, none, some, List, [], ◌∷◌, ◌++◌, arith, Result, ok,
  err,
}
use banc.Common.Text.{Text, codes, trim, trim_end, trim_start, is_whitespace, text_eq, as_bytes}
use banc.Config.{
  AssistantConfig, RigConfig, config_file, locate, load, search_up, validate, check_names,
  check_assistants, check_assistant, check_transport, check_unique_id, check_lease, is_network,
  contains,
}
use banc.Rig.{Env, opened}
use banc.Lease.{gone}
use banc.Cli.{World, load_config}
use banc.Cli.Main.{main}
use banc.Cli.Probe.{ℤ, pos}
use banc.Cli.Health.{Healthy}
use banc.Cli.Exits.{doctor_exit}
use banc.Cli.Probing.{probe_exit, Probes}

abbrev radio : AssistantConfig
radio = record {
  name = codes "radio";
  serial = none;
  product = none;
  addr = some (codes "tcp://bench:9000/");
  token_file = some (codes "token");
  unique_id = none;
}

abbrev bench : RigConfig ℕ
bench = record {
  rig = record { name = some (codes "bench"); lock_file = none; lease = none };
  target = some (record {
    chip = codes "RP2350";
    probe = none;
    probe_host = none;
    token_file = none;
    params = 0;
  });
  assistants = radio ∷ [];
  instruments = [];
}

abbrev env : Env Text ℕ
env = record {
  banc_rig = none;
  current_dir = ok (codes "work" ∷ []);
  is_file = λ path. text_eq (elim path [ [] ↦ [] | name ∷ dir ↦ name ]) config_file;
  read_to_string = λ path. ok (codes "s3cret" ++ (10 ∷ []));
  from_str = λ text. ok bench;
  components = λ text. text ∷ [];
  is_absolute = λ text. false;
  lock_timeout_secs = none;
  parse = λ text. none;
  lease_holder = none;
  hostname = none;
  pid = 41;
}

-- The addresses are numbers; 7 cannot be connected to.
abbrev world : World Text ℕ
world = record {
  ask_status = λ addr token. ok gone;
  open_lock = λ path. opened (ok true);
  lock_content = λ path. none;
  holder_from_str = λ bs. none;
  to_socket_addrs = λ addr. ok (7 ∷ 8 ∷ []);
  connect_timeout =
      λ a. elim (text_eq (a ∷ []) (7 ∷ [])) [ true ↦ err (codes "refused") | false ↦ ok tt ];
  path = some ((codes "bin" ∷ []) ∷ []);
  banc_artifacts = none;
  create_dir_all = λ path. ok tt;
  write = λ path. ok tt;
  remove_file = λ path. ok tt;
}

abbrev run : List Text → Result Text (Option ℤ)
run args = ok (some (pos 0))

loaded : load_config env world ≡ ok (bench, codes "work" ∷ [])
unfolding load_config locate search_up load validate check_names check_assistants check_assistant
    check_transport check_unique_id check_lease is_network contains trim trim_end trim_start
    is_whitespace text_eq as_bytes
loaded = refl

doctor_exit_example :
    ((main env world run (codes "doctor" ∷ []) ≡ 0) ↔ Healthy env world bench (codes "work" ∷ []))
    × ((main env world run (codes "doctor" ∷ []) ≡ 0)
        ⊎ (main env world run (codes "doctor" ∷ []) ≡ 1))
doctor_exit_example = doctor_exit env world run bench (codes "work" ∷ []) loaded (ground arith)

probe_exit_example :
    (main env world run (codes "probe" ∷ codes "info" ∷ []) ≡ 0)
    ↔ Probes env world run (codes "info") []
probe_exit_example = probe_exit env world run (codes "info") []
