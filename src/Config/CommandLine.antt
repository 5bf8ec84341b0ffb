-- ===== src/Config/CommandLine.antt =====
-- src/config/config.cpp: the command line, and `ConfigManager::load` and `reload`, which join the
-- file, the environment and the command line.
use ntonix.Common.{
  ℕ, Bool, true, false, ◌&&◌, ◌||◌, List, [], ◌∷◌, ◌++◌, Option, none, some, if◌then◌else◌, nat_beq,
  text_beq, Text, codes, is_empty, starts_with,
}
use ntonix.Config.Manager.{
  Files, Environment, ConfigManager, Outcome, returns, throws, ◌then_do◌, set_server, add_backends,
  override, load_from_file, apply_environment_overrides,
}
use ntonix.Config.Parse.{parsed, failed, stoul, stoul_u16, parse_backend}
use ntonix.Config.{
  BackendConfig, backend_beq, default_config, invalid_port, invalid_ssl_port, invalid_threads,
  validate,
}

-- `arg.substr(n)` after a prefix of n bytes, if the argument has the prefix
abbrev pub after_prefix : Text → Text → Option Text
after_prefix [] s = some s
after_prefix (p ∷ ps) [] = none
after_prefix (p ∷ ps) (c ∷ s) = if nat_beq p c then after_prefix ps s else none

abbrev pub one_of : Text → List Text → Bool
one_of s [] = false
one_of s (t ∷ ts) = text_beq s t || one_of s ts

-- The value of an option: the next argument after one of its names, or what follows its prefix. The
-- flag says whether the next argument was taken.
abbrev pub option_value : List Text → Text → Text → Option Text → Option (Text × Bool)
option_value names prefix arg next = elim (if one_of arg names then next else none) [
  | some value ↦ some (value, true)
  | none ↦ elim (after_prefix prefix arg) [ none ↦ none | some value ↦ some (value, false) ]
]

unfoldable pub set_port : ℕ → ConfigManager → ConfigManager
set_port n m = set_server (λ s. record s { port = n }) (record m { cli_port = some n })

unfoldable pub set_ssl_port : ℕ → ConfigManager → ConfigManager
set_ssl_port n m = set_server (λ s. record s { ssl_port = n }) (record m { cli_ssl_port = some n })

unfoldable pub set_threads : ℕ → ConfigManager → ConfigManager
set_threads n m = set_server (λ s. record s { threads = n }) (record m { cli_threads = some n })

unfoldable pub set_bind_address : Text → ConfigManager → ConfigManager
set_bind_address t m =
    set_server (λ s. record s { bind_address = t }) (record m { cli_bind_address = some t })

unfoldable pub add_backend : Text → ConfigManager → Outcome
add_backend s m = elim (parse_backend s) [
  | failed e ↦ throws m e
  | parsed b ↦ returns (add_backends (b ∷ []) m)
]

-- What the loop makes of one option that takes a value
pub data CliOption : Type 0 where
  port ssl_port threads bind_address backend : Text → CliOption
  unknown : CliOption

abbrev pub or_else : Option (Text × Bool) → (Text → CliOption) → CliOption × Bool → CliOption × Bool
or_else none make other = other
or_else (some (value, taken)) make other = (make value, taken)

unfoldable pub classify : Text → Option Text → CliOption × Bool
classify arg next =
    or_else (option_value (codes "--port" ∷ codes "-p" ∷ []) (codes "--port=") arg next) port (
      or_else (option_value (codes "--ssl-port" ∷ []) (codes "--ssl-port=") arg next) ssl_port (
        or_else (option_value (codes "--threads" ∷ codes "-t" ∷ []) (codes "--threads=") arg next)
          threads
          (or_else (option_value (codes "--bind" ∷ codes "-b" ∷ []) (codes "--bind=") arg next)
            bind_address
            (or_else (option_value (codes "--backends" ∷ []) (codes "--backends=") arg next) backend
              (unknown, false)))))

unfoldable pub apply_option : CliOption → ConfigManager → Outcome
unfolding set_port set_ssl_port set_threads set_bind_address add_backend
apply_option (port s) m = override stoul_u16 invalid_port set_port (some s) m
apply_option (ssl_port s) m = override stoul_u16 invalid_ssl_port set_ssl_port (some s) m
apply_option (threads s) m = override stoul invalid_threads set_threads (some s) m
apply_option (bind_address s) m = returns (set_bind_address s m)
apply_option (backend s) m = add_backend s m
apply_option unknown m = returns m

abbrev pub head : List Text → Option Text
head [] = none
head (s ∷ ss) = some s

-- One argument with the one after it: the step, and whether that one is skipped
unfoldable pub apply_argument : Text → Option Text → ConfigManager → Outcome × Bool
unfolding classify apply_option
apply_argument arg next m =
    if one_of arg (codes "--help" ∷ codes "-h" ∷ [])
    then (returns m, false)
    else if one_of arg (codes "--config" ∷ codes "-c" ∷ [])
    then (returns m, true)
    else if starts_with (codes "--config=") arg || starts_with (codes "-c=") arg
    then (returns m, false)
    else (apply_option (classify arg next).0 m, (classify arg next).1)

-- The loop over the arguments; the flag says that the first one was taken by the one before it.
unfoldable pub apply_arguments : Bool → List Text → ConfigManager → Outcome
unfolding apply_argument
apply_arguments skip [] m = returns m
apply_arguments true (arg ∷ args) m = apply_arguments false args m
apply_arguments false (arg ∷ args) m =
    let (step, taken) = apply_argument arg (head args) m in step then_do apply_arguments taken args

unfoldable pub apply_cli_overrides : List Text → ConfigManager → Outcome
unfolding apply_arguments
apply_cli_overrides args m = apply_arguments false args m

-- The first pass of `load`: the configuration path, and whether no help was asked for
unfoldable pub find_config_path : Bool → List Text → Text → Text × Bool
find_config_path skip [] path = (path, true)
find_config_path true (arg ∷ args) path = find_config_path false args path
find_config_path false (arg ∷ args) path =
    if one_of arg (codes "--help" ∷ codes "-h" ∷ [])
    then (path, false)
    else elim (option_value (codes "--config" ∷ codes "-c" ∷ []) (codes "--config=") arg
        (head args)) [
          | some (value, taken) ↦ find_config_path taken args value
          | none ↦ elim (after_prefix (codes "-c=") arg) [
            | some value ↦ find_config_path false args value
            | none ↦ find_config_path false args path
          ]
        ]

abbrev pub check : ConfigManager → Outcome
check m = (m, validate m.config)

abbrev pub kept {ℓ} : {A : Type ℓ} → Option A → A → A
kept none a = a
kept (some b) a = b

-- The stored command-line values, applied again
unfoldable pub reapply_cli : ConfigManager → Outcome
reapply_cli m = returns (
    set_server
      (λ s. record {
        port = kept m.cli_port s.port;
        ssl_port = kept m.cli_ssl_port s.ssl_port;
        threads = kept m.cli_threads s.threads;
        bind_address = kept m.cli_bind_address s.bind_address;
      })
      m)

abbrev pub same_backends : List BackendConfig → List BackendConfig → Bool
same_backends [] [] = true
same_backends (b ∷ bs) (c ∷ cs) = backend_beq b c && same_backends bs cs
same_backends [] (c ∷ cs) = false
same_backends (b ∷ bs) [] = false

-- The calls of the callbacks with the new backends. The first that throws is the last that is called.
unfoldable pub notify_all :
    (ℕ → List BackendConfig → Bool) → List BackendConfig → List ℕ → List (ℕ × List BackendConfig)
notify_all throws backends [] = []
notify_all throws backends (callback ∷ callbacks) =
    let rest = notify_all throws backends callbacks in
    (callback, backends) ∷ (if throws callback backends then [] else rest)

-- The end of `reload`, with the backends of before: callbacks are called when the backends differ. A
-- std::exception is caught, a callback's as well, and the settings are kept as they are then.
unfoldable pub finish_reload :
    (ℕ → List BackendConfig → Bool)
    → List BackendConfig
    → Outcome
    → ConfigManager × List (ℕ × List BackendConfig)
unfolding notify_all
finish_reload throws old (m, some e) = (m, [])
finish_reload throws old (m, none) =
    if same_backends m.config.backends old
    then (m, [])
    else (m, notify_all throws m.config.backends m.reload_callbacks)

module _ (files : Files) (env : Environment) where
  -- The flag is what `load` returns when it does not throw.
  unfoldable pub load : List Text → ConfigManager → Outcome × Bool
  unfolding find_config_path load_from_file apply_environment_overrides apply_cli_overrides
  load args m =
      let (path, proceeds) = find_config_path false args m.config_path in
      let found = record m { config = default_config; config_path = path } in
      if proceeds
      then (
        (if is_empty path then returns found else load_from_file files path found)
            then_do apply_environment_overrides files env
            then_do apply_cli_overrides args
            then_do check,
        true,
      )
      else (returns found, false)

  -- The body of the `try` block in `reload`, up to the callbacks
  unfoldable pub attempt : ConfigManager → Outcome
  unfolding load_from_file apply_environment_overrides reapply_cli
  attempt m =
      load_from_file files m.config_path m
      then_do apply_environment_overrides files env
      then_do reapply_cli
      then_do check

  -- The state, and the callbacks that were called, each with the new backends. Whether a callback throws is
  -- a function of it and of the backends that it is told.
  unfoldable pub reload :
      (ℕ → List BackendConfig → Bool)
      → ConfigManager
      → ConfigManager × List (ℕ × List BackendConfig)
  unfolding attempt finish_reload
  reload throws m =
      if is_empty m.config_path then (m, []) else finish_reload throws m.config.backends (attempt m)

unfoldable pub on_reload : ConfigManager → ℕ → ConfigManager
on_reload m callback = record m { reload_callbacks = m.reload_callbacks ++ callback ∷ [] }
