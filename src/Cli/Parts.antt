-- ===== src/Cli/Parts.antt =====
-- banc/src/bin/banc.rs: the checks of `doctor` on the target, the assistants and the instruments.
use Prim.{absurd}
use banc.Common.{
  ◌+◌, ◌≡◌, ◌↔◌, inl, inr, refl, Bool, true, false, Option, none, some, List, [], ◌∷◌, arith,
  if◌then◌else◌, map_err, ◌>>=◌, length, All, Result-cases,
}
use banc.Common.Text.{Text}
use banc.Config.{FilePath, RigConfig, TargetConfig, AssistantConfig, InstrumentConfig}
use banc.Rig.{Env, read_token}
use banc.Cli.{World, which_probe_rs, tcp_reach}
use banc.Cli.Doctor.{
  token, tcp, not_on_path, probe_rs, probe_rs_at, probe_token, probe_server, local_probe, assistant,
  usb_assistant, instrument, unaddressed, pass, fail, note, check, silent, check_probe_rs,
  check_probe_host, check_probe_token, check_target, reach, check_assistants, is_network_address,
  check_instrument, check_instruments,
}
use banc.Cli.Counting.{
  Answered, Given, Counts, check-Counts, note-Counts, same-Counts, means, wider, then_Counts,
  optional_check,
}
use banc.Cli.Health.{
  silent-Answered, Readable, Reachable, TargetReady, AssistantReady, InstrumentReady,
}

module _ {E Table Addr : Type 0} (env : Env E Table) (world : World E Addr) where
  probe_rs-Counts :
      Counts
        (check_probe_rs env world)
        1
        ((path : FilePath) × (which_probe_rs env world ≡ some path))
  unfolding check_probe_rs pass fail
  probe_rs-Counts = by_path (which_probe_rs env world)
    where
      by_path :
          (o : Option FilePath)
          → Counts {E = E}
              (λ d. elim o [
                | some path ↦ pass (probe_rs_at path) [] d
                | none ↦ fail probe_rs not_on_path d
              ])
              1
              ((path : FilePath) × (o ≡ some path))
      by_path none = (
        1,
        omega arith,
        (λ d h. omega arith),
        ((λ e. ground (arith, e)), (λ (p, e). ground (arith, e))),
      )
      by_path (some path) =
          (0, omega arith, (λ d h. omega arith), ((λ e. (path, refl)), (λ e. refl)))

  one_target-Counts :
      (t : TargetConfig Table) (base_dir : FilePath)
      → Counts
          (λ d.
            check_probe_token env world t base_dir
              (check_probe_host env world t (check_probe_rs env world d)))
          3
          (TargetReady env world base_dir t)
  unfolding check_probe_host check_probe_token
  one_target-Counts t base_dir =
      let host =
        optional_check (probe_server t.chip) (λ h. silent tcp (tcp_reach env world h))
          (Reachable env world) (note (local_probe t.chip))
          (λ h. silent-Answered tcp (tcp_reach env world h)) (note-Counts (local_probe t.chip))
          t.probe_host in
      let secret =
        optional_check (λ f. probe_token) (λ f. silent token (read_token env f base_dir))
          (Readable env world base_dir) (λ d. d)
          (λ f. silent-Answered token (read_token env f base_dir)) same-Counts t.token_file in
      means
        (λ d.
          check_probe_token env world t base_dir
            (check_probe_host env world t (check_probe_rs env world d)))
        3 3 _ (TargetReady env world base_dir t) (omega arith)
        ((λ ((p, h), s). (p, h, s)), (λ (p, h, s). ((p, h), s)))
        (then_Counts (λ d. check_probe_host env world t (check_probe_rs env world d))
          (check_probe_token env world t base_dir) 2 1 _ _
          (then_Counts (check_probe_rs env world) (check_probe_host env world t) 1 1 _ _
            probe_rs-Counts host)
          secret)

  reach-Answered :
      (a : AssistantConfig) (base_dir : FilePath) (addr : Text)
      → Answered (reach env world a addr base_dir)
        ↔ (Given (Readable env world base_dir) a.token_file × Reachable env world addr)
  unfolding reach
  reach-Answered a base_dir addr = by_token a.token_file
    where
      by_token :
          (o : Option Text)
          → Answered (elim o [
            | none ↦ silent tcp (tcp_reach env world addr)
            | some file ↦ do
              secret ← map_err token (read_token env file base_dir)
              silent tcp (tcp_reach env world addr)
          ])
            ↔ (Given (Readable env world base_dir) o × Reachable env world addr)
      by_token none =
          let s = silent-Answered tcp (tcp_reach env world addr) in
          ((λ a. (tt, s.0 a)), (λ (u, a). s.1 a))
      by_token (some file) = elim (Result-cases (read_token env file base_dir)) [
        | inr (e, f) ↦ (
          (λ (a, g). absurd (ground (arith, f, g))),
          (λ ((a, g), k). absurd (ground (arith, f, g))),
        )
        | inl (secret, f) ↦ elim (Result-cases (tcp_reach env world addr)) [
          | inr (e, g) ↦ (
            (λ (a, h). absurd (ground (arith, f, g, h))),
            (λ (k, (a, h)). absurd (ground (arith, g, h))),
          )
          | inl (u, g) ↦ ((λ a. ((secret, f), (u, g))), (λ k. ([], ground (arith, f, g))))
        ]
      ]

  pub target-Counts :
      (c : RigConfig Table) (base_dir : FilePath)
      → Counts
          (check_target env world c base_dir)
          3
          (Given (TargetReady env world base_dir) c.target)
  unfolding check_target
  target-Counts c base_dir = by_target c.target
    where
      by_target :
          (o : Option (TargetConfig Table))
          → Counts {E = E}
              (λ d. elim o [
                | none ↦ d
                | some t ↦
                    check_probe_token env world t base_dir
                      (check_probe_host env world t (check_probe_rs env world d))
              ])
              3
              (Given (TargetReady env world base_dir) o)
      by_target none = wider (λ d. d) 0 3 (Unit {0}) (omega arith) same-Counts
      by_target (some t) = one_target-Counts t base_dir

  pub assistants-Counts :
      (as' : List AssistantConfig) (base_dir : FilePath)
      → Counts
          (check_assistants env world as' base_dir)
          (length as')
          (All (AssistantReady env world base_dir) as')
  unfolding check_assistants
  assistants-Counts [] base_dir = same-Counts
  assistants-Counts (a ∷ as') base_dir =
      wider (check_assistants env world (a ∷ as') base_dir) (1 + length as') (length (a ∷ as')) _
        (omega arith)
        (then_Counts
          (λ d. elim a.addr [
            | some addr ↦ check (assistant a.name addr) (reach env world a addr base_dir) d
            | none ↦ note (usb_assistant a.name) d
          ])
          (check_assistants env world as' base_dir) 1 (length as')
          (AssistantReady env world base_dir a) (All (AssistantReady env world base_dir) as')
          (optional_check (assistant a.name) (λ addr. reach env world a addr base_dir)
            (λ addr. Given (Readable env world base_dir) a.token_file × Reachable env world addr)
            (note (usb_assistant a.name)) (reach-Answered a base_dir)
            (note-Counts (usb_assistant a.name)) a.addr)
          (assistants-Counts as' base_dir))

  instrument-Counts :
      (i : InstrumentConfig Table)
      → Counts (check_instrument env world i) 1 (InstrumentReady env world i)
  unfolding check_instrument
  instrument-Counts i = by_address i.address
    where
      unprobed : Counts {E = E} (note (unaddressed i.name i.kind)) 1 (Unit {0})
      unprobed =
          wider (note (unaddressed i.name i.kind)) 0 1 (Unit {0}) (omega arith)
            (note-Counts (unaddressed i.name i.kind))

      by_test :
          (addr : Text) (b : Bool)
          → Counts {E = E}
              (λ d.
                if b
                then check (instrument i.name addr) (silent tcp (tcp_reach env world addr)) d
                else note (unaddressed i.name i.kind) d)
              1
              (elim b [ true ↦ Reachable env world addr | false ↦ Unit {0} ])
      by_test addr true =
          means (check (instrument i.name addr) (silent tcp (tcp_reach env world addr))) 1 1
            (Answered (silent tcp (tcp_reach env world addr))) (Reachable env world addr)
            (omega arith) (silent-Answered tcp (tcp_reach env world addr))
            (check-Counts (instrument i.name addr) (silent tcp (tcp_reach env world addr)))
      by_test addr false = unprobed

      by_address :
          (o : Option Text)
          → Counts {E = E}
              (λ d. elim o [
                | none ↦ note (unaddressed i.name i.kind) d
                | some addr ↦
                    if is_network_address addr
                    then check (instrument i.name addr) (silent tcp (tcp_reach env world addr)) d
                    else note (unaddressed i.name i.kind) d
              ])
              1
              (Given
                (λ addr. elim (is_network_address addr) [
                  | true ↦ Reachable env world addr
                  | false ↦ Unit {0}
                ])
                o)
      by_address none = unprobed
      by_address (some addr) = by_test addr (is_network_address addr)

  pub instruments-Counts :
      (is : List (InstrumentConfig Table))
      → Counts (check_instruments env world is) (length is) (All (InstrumentReady env world) is)
  unfolding check_instruments
  instruments-Counts [] = same-Counts
  instruments-Counts (i ∷ is) =
      wider (check_instruments env world (i ∷ is)) (1 + length is) (length (i ∷ is)) _ (omega arith)
        (then_Counts (check_instrument env world i) (check_instruments env world is) 1 (length is)
          (InstrumentReady env world i) (All (InstrumentReady env world) is) (instrument-Counts i)
          (instruments-Counts is))
