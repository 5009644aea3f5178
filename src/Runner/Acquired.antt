-- ===== src/Runner/Acquired.antt =====
-- banc-host/src/runner.rs with banc-host/src/rig.rs: the trials of a process, by what its rig is.
use banc.Common.{
  ℕ, ◌≡◌, ◌⊎◌, ◌∙◌, sym, subst, inl, inr, refl, Option, none, some, List, [], ◌∷◌, arith, Result,
  ok, err, All, length, ap,
}
use banc.Common.Text.{Text}
use banc.Common.Time.{Duration}
use banc.Common.Failed.{FailedType}
use banc.Config.{FilePath, LoadError, locate, load}
use banc.Rig.{Env, Rig, Acquire, Failure, Exclusive, bad_config, acquire, configured}
use banc.Rig
use banc.Runner.{
  World, RigState, ready, skip, fail, BancTest, Completion, ignored_with, rig_unavailable, trial,
  run, get_or_init,
}

-- The result of `Rig::acquire` as the trials share it; `display` and `show` are the texts of a path
-- and of an error, and `reason` is the one for a machine without a rig.
unfoldable pub rig_state :
    {E Table L K : Type 0}
    → (artifacts_dir : Rig Table L K → Text) → (reason : Text) → (show : Failure E → Text)
    → Result (Acquire E) (Rig Table L K)
    → RigState
rig_state artifacts_dir reason show (ok rig) = ready (artifacts_dir rig)
rig_state artifacts_dir reason show (err Rig.skip) = skip reason
rig_state artifacts_dir reason show (err (Rig.fail e)) = fail (show e)

-- There is no config, or there is one that cannot be found or loaded.
abbrev pub Lacks : {E Table : Type 0} → Env E Table → Option (LoadError E) → Type 0
Lacks env none = locate env.banc_rig env.current_dir env.is_file ≡ ok none
Lacks env (some e) =
    (locate env.banc_rig env.current_dir env.is_file ≡ err e)
    ⊎ ((path : FilePath) × (locate env.banc_rig env.current_dir env.is_file ≡ ok (some path))
        × (load env.read_to_string env.from_str path ≡ err e))

-- What the trials share then.
abbrev pub without : {E : Type 0} → Text → (Failure E → Text) → Option (LoadError E) → RigState
without reason show none = skip reason
without reason show (some e) = fail (show (bad_config e))

module _ (F : FailedType) where
  open F use {Failed, from}

  -- All the trials of a process end alike where the rig is not ready.
  run_alike :
      (acquired : ℕ → RigState) (w : World) (suite : Text) (state : RigState)
      (end : Result Failed (Completion F)) (tests : List (BancTest F))
      → ((t : BancTest F) → (trial F w suite state t).0 ≡ end)
      → All (λ r. r.0 ≡ end) (run F acquired w suite (some state) tests)
  unfolding run get_or_init
  run_alike acquired w suite state end [] h = tt
  run_alike acquired w suite state end (t ∷ tests) h =
      (h t, run_alike acquired w suite state end tests h)

  alike_from_first :
      (acquired : ℕ → RigState) (w : World) (suite : Text) (state : RigState)
      (end : Result Failed (Completion F)) (tests : List (BancTest F))
      → ((n : ℕ) → acquired n ≡ state)
      → ((t : BancTest F) → (trial F w suite state t).0 ≡ end)
      → All (λ r. r.0 ≡ end) (run F acquired w suite none tests)
  unfolding run get_or_init
  alike_from_first acquired w suite state end [] same h = tt
  alike_from_first acquired w suite state end (t ∷ tests) same h =
      let s = same (length tests) in
      (
        ap (λ x. (trial F w suite x t).0) s ∙ h t,
        subst (λ x. All (λ r. r.0 ≡ end) (run F acquired w suite (some x) tests)) (sym s)
            (run_alike acquired w suite state end tests h),
      )

  -- How each of them ends.
  abbrev pub ended :
      {E : Type 0} → Text → (Failure E → Text) → Option (LoadError E) → Result Failed (Completion F)
  ended reason show none = ok (ignored_with reason)
  ended reason show (some e) = err (from (rig_unavailable (show (bad_config e))))

  module _ {E Table L K : Type 0} (env : Env E Table)
      (take_flock : FilePath → Duration → Result E L)
      (acquire_lease : (addr token holder : Text) → Duration → Result E K) where
    state_without :
        (artifacts_dir : Rig Table L K → Text) (reason : Text) (show : Failure E → Text)
        (lack : Option (LoadError E))
        → Lacks env lack
        → rig_state artifacts_dir reason show (acquire env take_flock acquire_lease)
          ≡ without reason show lack
    unfolding rig_state acquire configured
    state_without artifacts_dir reason show none h = ground (arith, h)
    state_without artifacts_dir reason show (some e) (inl h) = ground (arith, h)
    state_without artifacts_dir reason show (some e) (inr (path, h, k)) = ground (arith, h, k)

    -- On a machine where no config is found, every trial of a process is reported as ignored, with
    -- the reason. Where one is found or named that cannot be used, every trial fails with its error: a
    -- rig that is broken is never reported as ignored.
    pub trials_without_rig :
        (artifacts_dir : Rig Table L K → Text) (reason : Text) (show : Failure E → Text) (w : World)
        (suite : Text) (tests : List (BancTest F)) (lack : Option (LoadError E))
        → Lacks env lack
        → All
            (λ r. r.0 ≡ ended reason show lack)
            (run F
              (λ n. rig_state artifacts_dir reason show (acquire env take_flock acquire_lease))
              w
              suite
              none
              tests)
    unfolding trial
    trials_without_rig artifacts_dir reason show w suite tests lack h =
        alike_from_first _ w suite (without reason show lack) (ended reason show lack) tests
          (λ n. state_without artifacts_dir reason show lack h) (by_lack lack)
      where
        by_lack :
            (o : Option (LoadError E)) (t : BancTest F)
            → (trial F w suite (without reason show o) t).0 ≡ ended reason show o
        by_lack none t = refl
        by_lack (some e) t = refl
