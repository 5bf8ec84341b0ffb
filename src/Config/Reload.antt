-- ===== src/Config/Reload.antt =====
-- What a reload leaves, and what it tells the callbacks (src/config/config.cpp).
use mathlib.Core.Path.{subst}
use ntonix.Common.{
  ℕ, ◌≡◌, ◌⊎◌, refl, ap, sym, ◌∙◌, false, List, [], ◌∷◌, map, Option, none, some, arith, is_empty,
  Bool-cases, inl, inr, Bool, true, ◌++◌, All,
}
use ntonix.Config.Laws.{IsValid, validate_iff}
use ntonix.Config.CommandLine.{
  attempt, check, reapply_cli, kept, notify_all, finish_reload, reload, same_backends,
}
use ntonix.Config.Manager.{
  Files, Environment, ConfigManager, Outcome, ◌then_do◌, load_from_file,
  apply_environment_overrides,
}
use ntonix.Config.{BackendConfig}
use ntonix.Config.Arguments.{HasCliSettings, Wins}
use ntonix.Config.Precedence.{check_lem}

kept-Wins {ℓ} : {A : Type ℓ} (o : Option A) (a : A) → Wins o (kept o a)
kept-Wins none a = tt
kept-Wins (some b) a = refl

reapply_cli-wins : (m : ConfigManager) → HasCliSettings (reapply_cli m).0
unfolding reapply_cli
reapply_cli-wins m = record {
  port = kept-Wins m.cli_port m.config.server.port;
  ssl_port = kept-Wins m.cli_ssl_port m.config.server.ssl_port;
  threads = kept-Wins m.cli_threads m.config.server.threads;
  bind_address = kept-Wins m.cli_bind_address m.config.server.bind_address;
}

-- After a step that reapplies the command line, its settings are in force, unless the step threw.
then_reapply :
    (o : Outcome) (m : ConfigManager)
    → (o then_do reapply_cli then_do check) ≡ (m, none)
    → HasCliSettings m × IsValid m.config
then_reapply (m', none) m h =
    let (same, valid) = check_lem (reapply_cli m') m h in
    (subst HasCliSettings same (reapply_cli-wins m'), (validate_iff m.config).0 valid)
then_reapply (m', some e) m h = cc (ap (λ (o : Outcome). o.1) h)

module _ (files : Files) (env : Environment) where
  attempt-IsValid :
      (m m' : ConfigManager)
      → attempt files env m ≡ (m', none)
      → HasCliSettings m' × IsValid m'.config
  attempt-IsValid m m' h =
      then_reapply
        (load_from_file files m.config_path m then_do apply_environment_overrides files env) m'
        (attempt_lem m ∙ h)
    where
      attempt_lem :
          (m : ConfigManager)
          → (load_from_file files m.config_path m
              then_do apply_environment_overrides files env
              then_do reapply_cli
              then_do check)
            ≡ attempt files env m
      attempt_lem m = unfold attempt in refl

module _ (throws : ℕ → List BackendConfig → Bool) where
  -- The calls of the callbacks, in their order and each with the backends: those before return, and they
  -- are all, or one more is called, which throws.
  pub record AreTold (backends : List BackendConfig) (callbacks : List ℕ)
      (calls : List (ℕ × List BackendConfig)) : Type 0 where
    pub before : List ℕ
    pub return : All (λ callback. throws callback backends ≡ false) before
    pub told :
        ((callbacks ≡ before) × (calls ≡ map (λ callback. (callback, backends)) before))
        ⊎ ((thrower : ℕ) × (after : List ℕ) × (callbacks ≡ before ++ thrower ∷ after)
            × (throws thrower backends ≡ true)
            × (calls ≡ map (λ callback. (callback, backends)) (before ++ thrower ∷ [])))

  one_more :
      (backends : List BackendConfig) (callback : ℕ) (callbacks : List ℕ)
      (calls : List (ℕ × List BackendConfig))
      → throws callback backends ≡ false
      → AreTold backends callbacks calls
      → AreTold backends (callback ∷ callbacks) ((callback, backends) ∷ calls)
  one_more backends callback callbacks calls h t = record {
    before = callback ∷ t.before;
    return = (h, t.return);
    told = elim t.told [
      | inl (all, same) ↦ inl (ap (◌∷◌ callback) all, ap (◌∷◌ (callback, backends)) same)
      | inr (thrower, after, split, threw, same) ↦
          inr (thrower, after, ap (◌∷◌ callback) split, threw, ap (◌∷◌ (callback, backends)) same)
    ];
  }

  notify_all-AreTold :
      (backends : List BackendConfig) (callbacks : List ℕ)
      → AreTold backends callbacks (notify_all throws backends callbacks)
  unfolding notify_all
  notify_all-AreTold backends [] = record { before = []; return = tt; told = inl (refl, refl) }
  notify_all-AreTold backends (callback ∷ callbacks) =
      elim (Bool-cases (throws callback backends)) [
        | inl threw ↦ rw threw (record {
          before = [];
          return = tt;
          told = inr (callback, callbacks, refl, threw, refl);
        })
        | inr returned ↦ rw returned (
            one_more backends callback callbacks _ returned (notify_all-AreTold backends callbacks))
      ]

  reload-cases :
      (files : Files) (env : Environment) (m : ConfigManager)
      → (reload files env throws m ≡ (m, []))
        ⊎ (reload files env throws m ≡ finish_reload throws m.config.backends (attempt files env m))
  unfolding reload
  reload-cases files env m = elim (Bool-cases (is_empty m.config_path)) [
    | inl empty ↦ inl (rw empty refl)
    | inr path ↦ inr (rw path refl)
  ]

  -- What there is to say of a reload that called a callback, with the backends of before
  pub record IsTold (old : List BackendConfig) (m : ConfigManager)
      (calls : List (ℕ × List BackendConfig)) : Type 0 where
    pub called : AreTold m.config.backends m.reload_callbacks calls
    pub changed : same_backends m.config.backends old ≡ false
    pub settings : HasCliSettings m
    pub valid : IsValid m.config

  finish_reload-IsTold :
      (old : List BackendConfig) (o : Outcome) (call : ℕ × List BackendConfig)
      (calls : List (ℕ × List BackendConfig))
      → ((m : ConfigManager) → o ≡ (m, none) → HasCliSettings m × IsValid m.config)
      → (finish_reload throws old o).1 ≡ call ∷ calls
      → IsTold old (finish_reload throws old o).0 (finish_reload throws old o).1
  unfolding finish_reload
  finish_reload-IsTold old (m, some e) call calls good h = cc h
  finish_reload-IsTold old (m, none) call calls good h =
      elim (Bool-cases (same_backends m.config.backends old)) [
        | inl same ↦ absurd (ground arith)
        | inr other ↦
            let (wins, valid) = good m refl in
            rw other (record {
              called = notify_all-AreTold m.config.backends m.reload_callbacks;
              changed = other;
              settings = wins;
              valid = valid;
            })
      ]

  -- When `reload` calls any callback, it calls them in their order, each with the new backends, up to the
  -- first that throws, or all if none does. The new backends differ from those of before, the new
  -- configuration is valid, and the port, the TLS port, the threads and the bind address that the command
  -- line gave are in force. The backends that it gave are not among what is applied again.
  pub reload-IsTold :
      (files : Files) (env : Environment) (m : ConfigManager) (call : ℕ × List BackendConfig)
      (calls : List (ℕ × List BackendConfig))
      → (reload files env throws m).1 ≡ call ∷ calls
      → IsTold m.config.backends (reload files env throws m).0 (reload files env throws m).1
  reload-IsTold files env m call calls h = elim (reload-cases files env m) [
    | inl skipped ↦
        let none_told : (reload files env throws m).1 ≡ [] =
          ap (λ (r : ConfigManager × List (ℕ × List BackendConfig)). r.1) skipped in
        cc (none_told, h)
    | inr tried ↦
        subst
          (λ (r : ConfigManager × List (ℕ × List BackendConfig)). IsTold m.config.backends r.0 r.1)
          (sym tried)
          (finish_reload-IsTold m.config.backends (attempt files env m) call calls
            (attempt-IsValid files env m)
            (sym (ap (λ (r : ConfigManager × List (ℕ × List BackendConfig)). r.1) tried) ∙ h))
  ]
