-- ===== src/Cli/Main.antt =====
-- banc/src/bin/banc.rs: `main`, which takes the command line apart.
use banc.Common.{Bool, ◌&&◌, ◌||◌, Option, List, [], ◌∷◌, if◌then◌else◌, Result}
use banc.Common.Text.{Text, codes, text_eq}
use banc.Rig.{Env}
use banc.Cli.{ExitCode, success, World, rig_status}
use banc.Cli.Doctor.{doctor}
use banc.Cli.Probe.{ℤ, probe}

abbrev pub is_help : Text → Bool
is_help a = text_eq a (codes "--help") || text_eq a (codes "-h") || text_eq a (codes "help")

module _ {E Table Addr : Type 0} (env : Env E Table) (world : World E Addr)
    (run : List Text → Result E (Option ℤ)) where
  unfoldable pub main : List Text → ExitCode
  unfolding doctor rig_status probe
  main [] = success
  main (a ∷ []) =
      if text_eq a (codes "doctor") then (doctor env world).1 else if is_help a then success else 2
  main (a ∷ b ∷ []) =
      if text_eq a (codes "rig") && text_eq b (codes "status")
      then (rig_status env world).1
      else if text_eq a (codes "probe")
      then probe env world run b []
      else 2
  main (a ∷ b ∷ c ∷ rest) =
      if text_eq a (codes "probe") then probe env world run b (c ∷ rest) else 2
