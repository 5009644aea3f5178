-- ===== src/Rig/Fixtures.antt =====
-- banc-host/src/rig.rs: what a test has from its rig. The clients, the network and USB are arguments,
-- as they are to `Node::connect`.
use Prim.{absurd}
use banc.Common.{
  ◌≡◌, ◌≢◌, ◌⊎◌, inl, inr, subst, Bool, Option, none, some, List, [], ◌∷◌, arith, Result, ok, err,
  ◌>>=◌, map_err, ok_or, All, find, Bool-cases, Option-cases, Result-cases,
}
use banc.Common.Text.{Text, codes, text_eq, text_eq_iff}
use banc.Config.{FilePath, AssistantConfig, validate, assistant}
use banc.Config.Valid.{IsReachable, HasTransport, validate-ok_iff}
use banc.Icd.{Identity}
use banc.Node.{Node, NodeError, connect}
use banc.Rig.Token.{IsSecret, NoSecret, read_token-IsSecret, read_token-NoSecret}
use banc.Rig.{Env, Rig, TokenError, read_token}

-- `Rig::artifacts_dir`, with `BANC_ARTIFACTS`.
unfoldable pub artifacts_dir : {Table L K : Type 0} → Option FilePath → Rig Table L K → FilePath
artifacts_dir none rig = codes "banc-artifacts" ∷ codes "target" ∷ rig.base_dir
artifacts_dir (some path) rig = path

pub data AssistantError (E : Type 0) : Type 0 where
  unknown : Text → AssistantError E
  bad_token : TokenError E → AssistantError E
  node : NodeError E → AssistantError E

module _ {E Table : Type 0} (env : Env E Table) where
  -- `.as_ref().map(|p| read_token(p, base_dir)).transpose()`.
  unfoldable pub optional_token : FilePath → Option Text → Result (TokenError E) (Option Text)
  optional_token base_dir none = ok none
  optional_token base_dir (some path) = do secret ← read_token env path base_dir; ok (some secret)

  -- `Rig::target_token`.
  unfoldable pub target_token : {L K : Type 0} → Rig Table L K → Result (TokenError E) (Option Text)
  unfolding optional_token
  target_token rig = elim rig.config.target [
    | none ↦ ok none
    | some target ↦ optional_token rig.base_dir target.token_file
  ]

  module _ {C L K : Type 0} (send_resp : C → Result E Identity)
      (connect_node : Text → Text → Result E (C × Text))
      (try_new_raw_nusb : (Option Text → Option Text → Bool) → Result E C) where
    -- `Rig::assistant`.
    unfoldable pub rig_assistant : Rig Table L K → Text → Result (AssistantError E) (Node C)
    unfolding optional_token
    rig_assistant rig name = do
      cfg ← ok_or (assistant rig.config name) (unknown name)
      secret ← map_err bad_token (optional_token rig.base_dir cfg.token_file)
      map_err node (connect send_resp connect_node try_new_raw_nusb cfg secret rig.config.rig.name)

found :
    (name : Text) (as' : List AssistantConfig) (cfg : AssistantConfig)
    → find (λ a. text_eq a.name name) as' ≡ some cfg
    → All IsReachable as'
    → (cfg.name ≡ name) × HasTransport cfg
found name [] cfg e h = absurd (ground (arith, e))
found name (a ∷ as') cfg e h = elim (Bool-cases (text_eq a.name name)) [
  | inr f ↦ found name as' cfg (ground (arith, e, f)) h.1
  | inl f ↦
      let same : a ≡ cfg = ground (arith, e, f) in
      subst (λ x. (x.name ≡ name) × HasTransport x) same ((text_eq_iff a.name name).0 f, h.0.0)
]

-- What `connect` is given with an assistant: over USB no token, over the network that of its file.
module _ {E Table : Type 0} (env : Env E Table) where
  abbrev pub HasToken : AssistantConfig → FilePath → Option Text → Type 0
  HasToken cfg base_dir none = cfg.addr ≡ none
  HasToken cfg base_dir (some secret) =
      (cfg.addr ≢ none)
      × ((file : Text) × (cfg.token_file ≡ some file) × IsSecret env file base_dir secret)

  -- The token of a networked assistant cannot be had.
  abbrev pub NoToken : AssistantConfig → FilePath → TokenError E → Type 0
  NoToken cfg base_dir x =
      (cfg.addr ≢ none)
      × ((file : Text) × (cfg.token_file ≡ some file) × NoSecret env file base_dir x)

  networked :
      (cfg : AssistantConfig) (base_dir : FilePath) (x : TokenError E)
      → HasTransport cfg
      → optional_token env base_dir cfg.token_file ≡ err x
      → NoToken cfg base_dir x
  unfolding optional_token
  networked cfg base_dir x (inl (addr, file, a, b, t, r, q)) e =
      elim (Result-cases (read_token env file base_dir)) [
        | inl (s, f) ↦ absurd (ground (arith, t, e, f))
        | inr (y, f) ↦ (
          ground (arith, a),
          (file, t, read_token-NoSecret env file base_dir x (ground (arith, t, e, f))),
        )
      ]
  networked cfg base_dir x (inr (n, t, r)) e = absurd (ground (arith, t, e))

  token_given :
      (cfg : AssistantConfig) (base_dir : FilePath) (secret : Option Text)
      → HasTransport cfg
      → optional_token env base_dir cfg.token_file ≡ ok secret
      → HasToken cfg base_dir secret
  unfolding optional_token
  token_given cfg base_dir none (inr (n, t, r)) e = n
  token_given cfg base_dir (some s) (inr (n, t, r)) e = absurd (ground (arith, t, e))
  token_given cfg base_dir secret (inl (addr, file, a, b, t, r, q)) e =
      elim (Result-cases (read_token env file base_dir)) [
        | inl (s, f) ↦
            let same : some s ≡ secret = ground (arith, t, e, f) in
            subst (HasToken cfg base_dir) same
              (ground (arith, a), (file, t, read_token-IsSecret env file base_dir s f))
        | inr (x, f) ↦ absurd (ground (arith, t, e, f))
      ]

module _ {E Table C L K : Type 0} (env : Env E Table) (send_resp : C → Result E Identity)
    (connect_node : Text → Text → Result E (C × Text))
    (try_new_raw_nusb : (Option Text → Option Text → Bool) → Result E C) where
  -- How `Rig::assistant` ends for the assistant `cfg`.
  abbrev pub Ends : Rig Table L K → AssistantConfig → Result (AssistantError E) (Node C) → Type 0
  Ends rig cfg r =
      ((x : TokenError E) × NoToken env cfg rig.base_dir x × (r ≡ err (bad_token x)))
      ⊎ ((secret : Option Text) × HasToken env cfg rig.base_dir secret
          × (r
              ≡ map_err node
                  (connect send_resp connect_node try_new_raw_nusb cfg secret rig.config.rig.name)))

  -- On a config that was let through, a test that asks for an assistant is told that there is none
  -- exactly where no entry has that name. Else the entry of that name is connected: over USB without
  -- a token, over the network with the token that the entry's own file has, which is not empty; and
  -- where that file cannot be read, or has white space only, that is the error.
  pub assistant_cases :
      (rig : Rig Table L K) (name : Text)
      → validate rig.config ≡ ok tt
      → ((rig_assistant env send_resp connect_node try_new_raw_nusb rig name ≡ err (unknown name))
          × (assistant rig.config name ≡ none))
        ⊎ ((cfg : AssistantConfig) × (assistant rig.config name ≡ some cfg)
            × (cfg.name ≡ name)
            × Ends rig cfg (rig_assistant env send_resp connect_node try_new_raw_nusb rig name))
  unfolding rig_assistant assistant
  assistant_cases rig name v =
      let valid = (validate-ok_iff rig.config).0 v in
      elim (Option-cases (assistant rig.config name)) [
        | inl n ↦ inl (ground (arith, n), n)
        | inr (cfg, e) ↦
            let (same, transport) = found name rig.config.assistants cfg e valid.reachable in
            elim (Result-cases (optional_token env rig.base_dir cfg.token_file)) [
              | inl (secret, f) ↦ inr (
                cfg,
                e,
                same,
                inr (
                  secret,
                  token_given env cfg rig.base_dir secret transport f,
                  ground (arith, e, f),
                ),
              )
              | inr (x, f) ↦ inr (
                cfg,
                e,
                same,
                inl (x, networked env cfg rig.base_dir x transport f, ground (arith, e, f)),
              )
            ]
      ]
