-- ===== src/Rig/Acquiring.antt =====
-- banc-host/src/rig.rs: when a rig is skipped, and what an acquired one has.
use banc.Common.{
  ◌≡◌, ◌↔◌, inl, inr, refl, Option, none, some, arith, Result, ok, err, Option-cases, Result-cases,
  subst,
}
use banc.Common.Text.{Text}
use banc.Common.Time.{Duration}
use banc.Config.{FilePath, RigConfig, LeaseConfig, locate, load, validate}
use banc.Rig.Token.{IsSecret, read_token-IsSecret}
use banc.Rig.{
  Env, Rig, skip, Exclusive, flock, lease, acquire, exclusive, read_token, lock_path,
  holder_identity, timeout, configured, parent_or_here,
}

module _ {E Table L K : Type 0} (env : Env E Table) (take_flock : FilePath → Duration → Result E L)
    (acquire_lease : (addr token holder : Text) → Duration → Result E K) where
  -- The test is skipped exactly where no config is found; a rig whose config does not load, whose
  -- token cannot be had, or which is held by another is never passed over as if it were not there.
  pub acquire-skip_iff :
      (acquire env take_flock acquire_lease ≡ err skip)
      ↔ (locate env.banc_rig env.current_dir env.is_file ≡ ok none)
  unfolding acquire
  acquire-skip_iff = elim (Result-cases (locate env.banc_rig env.current_dir env.is_file)) [
    | inl (o, e) ↦ elim (Option-cases o) [
      | inl f ↦ ground arith
      | inr (path, f) ↦ elim (Result-cases (configured env take_flock acquire_lease path)) [
        | inl g ↦ ground arith
        | inr g ↦ ground arith
      ]
    ]
    | inr (x, e) ↦ ground arith
  ]

  -- How the config's lock is held.
  abbrev pub HeldAs : Option LeaseConfig → RigConfig Table → FilePath → Exclusive L K → Type 0
  HeldAs (some l) c base lock =
      (token : Text) × (k : K) × IsSecret env l.token_file base token
      × (acquire_lease l.addr token (holder_identity env) (timeout env) ≡ ok k)
      × (lock ≡ lease k)
  HeldAs none c base lock =
      (k : L) × (take_flock (lock_path env c base) (timeout env) ≡ ok k) × (lock ≡ flock k)

  exclusive-HeldAs :
      (c : RigConfig Table) (base : FilePath) (lock : Exclusive L K)
      → exclusive env take_flock acquire_lease c base ≡ ok lock
      → HeldAs c.rig.lease c base lock
  unfolding exclusive
  exclusive-HeldAs c base lock e = go c.rig.lease refl
    where
      go : (l : Option LeaseConfig) → c.rig.lease ≡ l → HeldAs l c base lock
      go none f = elim (Result-cases (take_flock (lock_path env c base) (timeout env))) [
        | inl (k, g) ↦ (k, g, ground arith)
        | inr (x, g) ↦ ground arith
      ]
      go (some l) f = elim (Result-cases (read_token env l.token_file base)) [
        | inl (token, g) ↦
            elim (Result-cases (acquire_lease l.addr token (holder_identity env) (timeout env))) [
              | inl (k, h) ↦
                  (token, k, read_token-IsSecret env l.token_file base token g, h, ground arith)
              | inr (x, h) ↦ ground arith
            ]
        | inr (x, g) ↦ ground arith
      ]

  load-valid :
      (path : FilePath) (c : RigConfig Table)
      → load env.read_to_string env.from_str path ≡ ok c
      → validate c ≡ ok tt
  unfolding load
  load-valid path c e = elim (Result-cases (env.read_to_string path)) [
    | inl (text, f) ↦ elim (Result-cases (env.from_str text)) [
      | inl (d, g) ↦ elim (Result-cases (validate d)) [
        | inl (u, h) ↦ let r : d ≡ c = ground arith in subst (λ x. validate x ≡ ok tt) r h
        | inr (x, h) ↦ ground arith
      ]
      | inr (x, g) ↦ ground arith
    ]
    | inr (x, f) ↦ ground arith
  ]

  -- A rig that is acquired has a config that was found and let through, and is held the way that it
  -- asks: with a lease if it names a lease server, under the token that its token file has, which is not
  -- empty, else by the lock on the file, for this process and with the timeout that the environment sets.
  pub acquired :
      (rig : Rig Table L K)
      → acquire env take_flock acquire_lease ≡ ok rig
      → (path : FilePath) × (locate env.banc_rig env.current_dir env.is_file ≡ ok (some path))
        × (load env.read_to_string env.from_str path ≡ ok rig.config)
        × (validate rig.config ≡ ok tt)
        × HeldAs rig.config.rig.lease rig.config rig.base_dir rig.lock
  unfolding acquire configured
  acquired rig e = elim (Result-cases (locate env.banc_rig env.current_dir env.is_file)) [
    | inl (none, f) ↦ ground arith
    | inl (some path, f) ↦ elim (Result-cases (load env.read_to_string env.from_str path)) [
      | inl (c, g) ↦
          elim (Result-cases (exclusive env take_flock acquire_lease c (parent_or_here path))) [
            | inl (lock, h) ↦
                let r : record { config = c; base_dir = parent_or_here path; lock = lock } ≡ rig =
                  ground arith in
                subst
                  (λ x.
                    (path : FilePath) × (locate env.banc_rig env.current_dir env.is_file
                      ≡ ok (some path))
                    × (load env.read_to_string env.from_str path ≡ ok x.config)
                    × (validate x.config ≡ ok tt)
                    × HeldAs x.config.rig.lease x.config x.base_dir x.lock)
                  r
                  (path, f, g, load-valid path c g, exclusive-HeldAs c (parent_or_here path) lock h)
            | inr (x, h) ↦ ground arith
          ]
      | inr (x, g) ↦ ground arith
    ]
    | inr (x, f) ↦ ground arith
  ]
