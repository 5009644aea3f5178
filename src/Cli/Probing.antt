-- ===== src/Cli/Probing.antt =====
-- banc/src/bin/banc.rs: when `banc probe` ends with success.
use Prim.{absurd}
use banc.Common.{
  ℕ, ◌≡◌, ◌↔◌, ◌⊎◌, inl, inr, refl, sym, ◌∙◌, Option, none, some, List, [], ◌∷◌, ◌++◌, arith,
  if◌then◌else◌, Result, ok, err, Option-cases, Result-cases,
}
use banc.Common.Text.{Text, codes, text_eq}
use banc.Config.{FilePath, RigConfig, TargetConfig}
use banc.Rig.{Env, read_token}
use banc.Rig.Token.{IsSecret, read_token-IsSecret, IsSecret-read_token}
use banc.Cli.{World, load_config}
use banc.Cli.Probe.{
  ℤ, pos, negsuc, clamp, exit_code, probe_args, remote_args, selector_args, probe_secret, probe,
}
use banc.Cli.Main.{main}
use banc.Cli.Exits.{load_cases}

module _ {E Table Addr : Type 0} (env : Env E Table) (world : World E Addr) where
  probe_verb :
      (run : List Text → Result E (Option ℤ)) (verb : Text) (rest : List Text)
      → main env world run (codes "probe" ∷ verb ∷ rest) ≡ probe env world run verb rest
  unfolding main text_eq
  probe_verb run verb [] = refl
  probe_verb run verb (arg ∷ rest) = refl

  -- A run of probe-rs whose exit code is 0 or below.
  abbrev pub EndsWell : (run : List Text → Result E (Option ℤ)) → List Text → Type 0
  EndsWell run args = (run args ≡ ok (some (pos 0))) ⊎ ((n : ℕ) × (run args ≡ ok (some (negsuc n))))

  -- The arguments for a remote probe: its host, with the token that its file has, if it names one.
  abbrev pub AsksHost : Option Text → Option Text → FilePath → List Text → Type 0
  AsksHost none file base_dir remote = remote ≡ []
  AsksHost (some host) none base_dir remote = remote ≡ codes "--host" ∷ host ∷ []
  AsksHost (some host) (some file) base_dir remote =
      (token : Text) × IsSecret env file base_dir token
      × (remote ≡ codes "--host" ∷ host ∷ codes "--token" ∷ token ∷ [])

  -- The chip, and the probe if one is named, but for the verb that lists the probes.
  abbrev pub asks_chip : Text → Option Text → Text → List Text
  asks_chip chip none verb = if text_eq verb (codes "list") then [] else codes "--chip" ∷ chip ∷ []
  asks_chip chip (some selector) verb =
      if text_eq verb (codes "list")
      then []
      else codes "--chip" ∷ chip ∷ codes "--probe" ∷ selector ∷ []

  abbrev pub Probes : (run : List Text → Result E (Option ℤ)) → Text → List Text → Type 0
  Probes run verb rest =
      (c : RigConfig Table) × (base_dir : FilePath) × (t : TargetConfig Table) × (remote : List
        Text)
      × (load_config env world ≡ ok (c, base_dir))
      × (c.target ≡ some t)
      × AsksHost t.probe_host t.token_file base_dir remote
      × EndsWell run (verb ∷ (asks_chip t.chip t.probe verb ++ remote ++ rest))

  selector_lem :
      (t : TargetConfig Table) (verb : Text)
      → selector_args env world t verb ≡ asks_chip t.chip t.probe verb
  unfolding selector_args
  selector_lem t verb = elim (Option-cases t.probe) [
    | inl e ↦ ground (arith, e)
    | inr (p, e) ↦ ground (arith, e)
  ]

  remote-AsksHost :
      (t : TargetConfig Table) (base_dir : FilePath) (remote : List Text)
      → remote_args env world t base_dir ≡ ok remote
      → AsksHost t.probe_host t.token_file base_dir remote
  unfolding remote_args probe_secret
  remote-AsksHost t base_dir remote e = go t.probe_host refl t.token_file refl
    where
      go :
          (h : Option Text)
          → t.probe_host ≡ h
          → (f : Option Text) → t.token_file ≡ f
          → AsksHost h f base_dir remote
      go none p f q = ground (arith, e, p)
      go (some host) p none q = ground (arith, e, p, q)
      go (some host) p (some file) q = elim (Result-cases (read_token env file base_dir)) [
        | inl (token, g) ↦
            (token, read_token-IsSecret env file base_dir token g, ground (arith, e, p, q, g))
        | inr (x, g) ↦ absurd (ground (arith, e, p, q, g))
      ]

  AsksHost-remote :
      (t : TargetConfig Table) (base_dir : FilePath) (remote : List Text)
      → AsksHost t.probe_host t.token_file base_dir remote
      → remote_args env world t base_dir ≡ ok remote
  unfolding remote_args probe_secret
  AsksHost-remote t base_dir remote = go t.probe_host refl t.token_file refl
    where
      go :
          (h : Option Text)
          → t.probe_host ≡ h
          → (f : Option Text) → t.token_file ≡ f
          → AsksHost h f base_dir remote
          → remote_args env world t base_dir ≡ ok remote
      go none p f q a = ground (arith, p, a)
      go (some host) p none q a = ground (arith, p, q, a)
      go (some host) p (some file) q (token, secret, a) =
          let k = IsSecret-read_token env file base_dir token secret in ground (arith, p, q, a, k)

  ends_well :
      (run : List Text → Result E (Option ℤ)) (args : List Text)
      → exit_code (run args) ≡ 0
      → EndsWell run args
  unfolding exit_code clamp
  ends_well run args z = by_result (run args) refl z
    where
      by_result : (r : Result E (Option ℤ)) → run args ≡ r → exit_code r ≡ 0 → EndsWell run args
      by_result (ok (some (pos n))) e z = inl (ground (arith, e, z))
      by_result (ok (some (negsuc n))) e z = inr (n, e)
      by_result (ok none) e z = absurd (omega arith)
      by_result (err x) e z = absurd (omega arith)

  probes :
      (run : List Text → Result E (Option ℤ)) (verb : Text) (rest : List Text)
      → probe env world run verb rest ≡ 0
      → Probes run verb rest
  unfolding probe probe_args
  probes run verb rest z = elim (load_cases env world) [
    | inl (e, n) ↦ absurd (ground (arith, e, z))
    | inr (inl (e, n)) ↦ absurd (ground (arith, e, z))
    | inr (inr (c, base_dir, e, n)) ↦ elim (Option-cases c.target) [
      | inl g ↦ absurd (ground (arith, e, g, z))
      | inr (t, g) ↦ elim (Result-cases (remote_args env world t base_dir)) [
        | inr (x, h) ↦ absurd (ground (arith, e, g, h, z))
        | inl (remote, h) ↦
            let same = selector_lem t verb in
            (
              c,
              base_dir,
              t,
              remote,
              e,
              g,
              remote-AsksHost t base_dir remote h,
              ends_well run (verb ∷ (asks_chip t.chip t.probe verb ++ remote ++ rest))
                  (ground (arith, e, g, h, z, same)),
            )
      ]
    ]
  ]

  probed :
      (run : List Text → Result E (Option ℤ)) (verb : Text) (rest : List Text)
      → Probes run verb rest
      → probe env world run verb rest ≡ 0
  unfolding probe probe_args exit_code clamp
  probed run verb rest (c, base_dir, t, remote, e, g, a, z) =
      let h = AsksHost-remote t base_dir remote a in
      let same = selector_lem t verb in
      elim z [
        | inl k ↦ ground (arith, e, g, h, same, k)
        | inr (n, k) ↦ ground (arith, e, g, h, same, k)
      ]

  -- `banc probe` ends with success exactly where a config with a target is found and let through,
  -- and probe-rs ran to an exit code of 0 or below (a negative code, which some systems have, counts
  -- as success) with these arguments: the verb; the chip, and the probe if the config names one, but
  -- for `list`; the host of the probe if the config names one, and then, if it names a token file,
  -- the token that this file has, which must be readable and not empty; and the rest.
  pub probe_exit :
      (run : List Text → Result E (Option ℤ)) (verb : Text) (rest : List Text)
      → (main env world run (codes "probe" ∷ verb ∷ rest) ≡ 0) ↔ Probes run verb rest
  probe_exit run verb rest =
      let same = probe_verb run verb rest in
      ((λ z. probes run verb rest (sym same ∙ z)), (λ h. same ∙ probed run verb rest h))
