-- ===== src/Cli/Probe.antt =====
-- banc/src/bin/banc.rs: `banc probe`, which runs probe-rs on the configured target.
use banc.Common.{
  ℕ, min, Option, none, some, List, [], ◌∷◌, ◌++◌, if◌then◌else◌, Result, ok, err, ◌>>=◌,
}
use banc.Common.Text.{Text, codes, text_eq}
use banc.Config.{FilePath, TargetConfig}
use banc.Rig.{Env, TokenError, read_token}
use banc.Cli.{ExitCode, failure, World, load_config}

-- An exit code as the operating system has it, of 32 bits with a sign.
pub data ℤ : Type 0 where
  pos : ℕ → ℤ
  negsuc : ℕ → ℤ

-- `code.clamp(0, 255)`.
unfoldable pub clamp : ℤ → ℕ
clamp (pos n) = min n 255
clamp (negsuc n) = 0

-- The exit code of the tool, from what came of running probe-rs; a process that a signal has ended
-- has no code.
unfoldable pub exit_code : {E : Type 0} → Result E (Option ℤ) → ExitCode
unfolding clamp
exit_code (ok (some code)) = clamp code
exit_code (ok none) = failure
exit_code (err e) = failure

-- An option of probe-rs with its value, where there is one.
abbrev pub flag : Text → Option Text → List Text
flag name none = []
flag name (some value) = name ∷ value ∷ []

module _ {E Table Addr : Type 0} (env : Env E Table) (world : World E Addr) where
  -- The token of a remote probe.
  unfoldable pub probe_secret : TargetConfig Table → FilePath → Result (TokenError E) (Option Text)
  probe_secret t base_dir = elim t.token_file [
    | none ↦ ok none
    | some file ↦ do secret ← read_token env file base_dir; ok (some secret)
  ]

  unfoldable pub remote_args : TargetConfig Table → FilePath → Result (TokenError E) (List Text)
  unfolding probe_secret
  remote_args t base_dir = elim t.probe_host [
    | none ↦ ok []
    | some host ↦ do
      secret ← probe_secret t base_dir
      ok (codes "--host" ∷ host ∷ flag (codes "--token") secret)
  ]

  -- The chip and the probe, which `list` does not take.
  unfoldable pub selector_args : TargetConfig Table → Text → List Text
  selector_args t verb =
      if text_eq verb (codes "list")
      then []
      else codes "--chip" ∷ t.chip ∷ flag (codes "--probe") t.probe

  -- The arguments of probe-rs.
  unfoldable pub probe_args :
      TargetConfig Table → FilePath → Text → List Text → Result (TokenError E) (List Text)
  unfolding remote_args selector_args
  probe_args t base_dir verb rest = do
    remote ← remote_args t base_dir
    ok (verb ∷ (selector_args t verb ++ remote ++ rest))

  -- `probe`; `run` is what comes of running probe-rs with those arguments.
  unfoldable pub probe : (run : List Text → Result E (Option ℤ)) → Text → List Text → ExitCode
  unfolding load_config probe_args exit_code
  probe run verb rest = elim (load_config env world) [
    | err code ↦ code
    | ok (config, base_dir) ↦ elim config.target [
      | none ↦ failure
      | some t ↦ elim (probe_args t base_dir verb rest) [
        | err e ↦ failure
        | ok args ↦ exit_code (run args)
      ]
    ]
  ]
