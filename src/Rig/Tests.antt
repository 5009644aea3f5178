-- ===== src/Rig/Tests.antt =====
-- banc-host/src/rig.rs: a rig with a lease server, and processes at a lock file.
use banc.Common.{ℕ, ◌≡◌, refl, true, false, none, some, [], ◌∷◌, ◌++◌, arith, Result, ok, err}
use banc.Common.Text.{Text, codes, trim, trim_end, trim_start, is_whitespace, text_eq}
use banc.Common.Time.{Duration}
use banc.Config.{
  FilePath, RigConfig, config_file, locate, load, search_up, validate, check_names,
  check_assistants, check_lease,
}
use banc.Rig.{Env, Rig, lease, acquire, exclusive, read_token, configured}
use banc.Rig.Acquiring.{HeldAs, acquired}
use banc.Common.{◌⊎◌, Bool, Option, false}
use banc.Config.{
  AssistantConfig, assistant, check_assistant, check_transport, check_unique_id, is_network,
  contains,
}
use banc.Icd.{Identity}
use banc.Rig.{LockHolder, Attempt, read_lock_holder, drop_lock}
use banc.Rig.Lock.{noted, Learns, contender_told}
use banc.Rig.Token.{IsSecret}
use banc.Rig.Fixtures.{rig_assistant, unknown, Ends, assistant_cases}
use banc.Common.{List, length, replicate, ◌+◌}
use banc.Common.Time.{from_secs}
use banc.Config.{LeaseConfig}
use banc.Lease.{renew, release, done, gone}
use banc.Lease
use banc.Lease.Client.{
  ClientError, Answer, Renewer, Wake, stopped, period, renew_loop, acquire_loop, got,
}
use banc.Lease.Client.Life.{LeaseClient, acquire_client}
use banc.Rig.{timeout, holder_identity}
use banc.Rig.Leased.{leased_rig}
use banc.Rig.Leased

abbrev bench : RigConfig ℕ
bench = record {
  rig = record {
    name = some (codes "bench");
    lock_file = none;
    lease = some (record { addr = codes "bench:9000"; token_file = codes "token" });
  };
  target = none;
  assistants = [];
  instruments = [];
}

abbrev env : Env Text ℕ
env = record {
  banc_rig = none;
  current_dir = ok (codes "work" ∷ []);
  is_file = λ path. text_eq (elim path [ [] ↦ [] | name ∷ dir ↦ name ]) config_file;
  read_to_string = λ path. ok (codes "s3cret" ++ (10 ∷ []));
  from_str = λ text. ok bench;
  components = λ text. text ∷ [];
  is_absolute = λ text. false;
  lock_timeout_secs = none;
  parse = λ text. none;
  lease_holder = some (codes "ci");
  hostname = none;
  pid = 41;
}

abbrev no_flock : FilePath → Duration → Result Text ℕ
no_flock path wait = err (codes "unused")

-- The lease server grants the lease 7.
abbrev lease_server : (addr token holder : Text) → Duration → Result Text ℕ
lease_server addr token holder wait = ok 7

abbrev rig : Rig ℕ ℕ ℕ
rig = record { config = bench; base_dir = codes "work" ∷ []; lock = lease 7 }

rig_acquired : acquire env no_flock lease_server ≡ ok rig
unfolding acquire configured locate search_up load validate exclusive text_eq check_names
    check_assistants check_lease trim trim_end trim_start is_whitespace read_token
rig_acquired = refl

acquired_example :
    (path : FilePath) × (locate env.banc_rig env.current_dir env.is_file ≡ ok (some path))
    × (load env.read_to_string env.from_str path ≡ ok bench)
    × (validate bench ≡ ok tt)
    × HeldAs env no_flock lease_server bench.rig.lease bench (codes "work" ∷ []) (lease 7)
acquired_example = acquired env no_flock lease_server rig rig_acquired

-- The process 5 has noted itself in the lock file; another tries at 1 and at 2 seconds, until 2.
abbrev process_5 : LockHolder
process_5 = record { holder = codes "ci"; pid = 5; since = 0 }

abbrev from_json : List ℕ → Option LockHolder
from_json [] = none
from_json (c ∷ bs) = some process_5

abbrev in_file : Option (List ℕ)
in_file = some (noted (some (codes "{5}")) (codes "{4444}"))

abbrev try_at : ℕ → Attempt Text
try_at s = record { locked = ok false; now = from_secs s; content = in_file }

contender_told_example :
    Learns {E = Text} from_json
      (from_secs 2)
      (try_at 1 ∷ try_at 2 ∷ [])
      (noted (some (codes "{5}")) (codes "{4444}"))
      (some process_5)
    × (read_lock_holder from_json
          (some (drop_lock true (noted (some (codes "{5}")) (codes "{4444}"))))
        ≡ none)
contender_told_example =
    contender_told from_json (some (codes "{5}")) (codes "{4444}") (some process_5) (from_secs 2)
      (try_at 1 ∷ []) [] (try_at 2) (process_5, refl, refl) refl ((refl, ground arith), tt) refl
      (ground arith) refl

abbrev networked : RigConfig ℕ
networked = record bench {
  assistants =
      record {
        name = codes "radio";
        serial = none;
        product = none;
        addr = some (codes "bench:9000");
        token_file = some (codes "token");
        unique_id = none;
      }
      ∷ [];
}

abbrev bench_rig : Rig ℕ ℕ ℕ
bench_rig = record { config = networked; base_dir = codes "work" ∷ []; lock = lease 7 }

networked_valid : validate networked ≡ ok tt
unfolding validate check_names check_assistants check_assistant check_transport check_unique_id
    check_lease is_network contains trim trim_end trim_start is_whitespace text_eq
networked_valid = refl

abbrev unanswered : ℕ → Result Text Identity
unanswered client = err (codes "no answer")

abbrev daemon : Text → Text → Result Text (ℕ × Text)
daemon addr token = ok (5, codes "bench")

abbrev no_usb : (Option Text → Option Text → Bool) → Result Text ℕ
no_usb filter = err (codes "none")

assistant_cases_example :
    ((rig_assistant env unanswered daemon no_usb bench_rig (codes "radio")
        ≡ err (unknown (codes "radio")))
      × (assistant networked (codes "radio") ≡ none))
    ⊎ ((cfg : AssistantConfig) × (assistant networked (codes "radio") ≡ some cfg)
        × (cfg.name ≡ codes "radio")
        × Ends env unanswered daemon no_usb bench_rig cfg
            (rig_assistant env unanswered daemon no_usb bench_rig (codes "radio")))
assistant_cases_example =
    assistant_cases env unanswered daemon no_usb bench_rig (codes "radio") networked_valid

-- The lease server answers on the connection 3, and grants the lease 7.
abbrev dial : (addr token : Text) → Result Text ℕ
dial addr token = ok 3

abbrev says : (holder : Text) → ℕ → List (Answer Text)
says holder stream = record { reply = ok (Lease.granted 7); at = from_secs 1 } ∷ []

abbrev shown : ClientError Text → Text
shown e = codes "no lease"

abbrev at_server : LeaseConfig
at_server = record { addr = codes "bench:9000"; token_file = codes "token" }

abbrev holder : LeaseClient ℕ
holder = record { stop = some tt; thread = some (record { stream = 3; id = 7 }) }

abbrev leased_bench : Rig ℕ ℕ (LeaseClient ℕ)
leased_bench = record { config = bench; base_dir = codes "work" ∷ []; lock = lease holder }

abbrev leasing : (addr token holder : Text) → Duration → Result Text (LeaseClient ℕ)
leasing = Leased.acquire_lease env no_flock 0 dial says (ok tt) shown (codes "waiting")

rig_leased : acquire env no_flock leasing ≡ ok leased_bench
unfolding acquire configured locate search_up load validate exclusive text_eq check_names
    check_assistants check_lease trim trim_end trim_start is_whitespace read_token
    Leased.acquire_lease acquire_client acquire_loop
rig_leased = refl

abbrev one_period : List (Wake Text ℕ)
one_period = period (ok done) (err (codes "unused")) (λ s. ok gone) ∷ []

leased_rig_example :
    (token : Text) × IsSecret env (codes "token") (codes "work" ∷ []) token
    × (c : LeaseClient ℕ) × (leased_bench.lock ≡ lease c)
    × (r : Renewer ℕ) × (c.thread ≡ some r)
    × (dial (codes "bench:9000") token ≡ ok r.stream)
    × (acquire_loop (0 + timeout env) (timeout env) (says (holder_identity env) r.stream)
        ≡ got r.id)
    × (renew_loop r (one_period ++ (stopped ∷ [])) ≡ (
      r,
      replicate (length one_period) (r.stream, renew r.id) ++ ((r.stream, release r.id) ∷ []),
      true,
    ))
leased_rig_example =
    leased_rig env no_flock 0 dial says (ok tt) shown (codes "waiting") leased_bench at_server
      one_period [] rig_leased refl (refl, tt)
