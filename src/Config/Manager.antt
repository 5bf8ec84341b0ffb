-- ===== src/Config/Manager.antt =====
-- src/config/config.cpp: `ConfigManager`. The environment and the files are functions that the
-- operations take; an operation that throws leaves the settings as far as it came, with the error.
use ntonix.Common.{
  ℕ, ◌%◌, ◌||◌, List, [], ◌++◌, Option, none, some, if◌then◌else◌, text_beq, Text, codes, is_empty,
  u32_mod,
}
use ntonix.Config.Parse.{stoul, stoul_u16, parse_backends}
use ntonix.Config.Json.{Json, from_json}
use ntonix.Config.{
  BackendConfig, ServerSettings, CacheSettings, LogSettings, Config, default_config, ConfigError,
  file_not_found, file_unreadable, invalid_json, invalid_port, invalid_ssl_port, invalid_threads,
  invalid_cache_size, invalid_cache_ttl,
}

-- What a path leads to
pub data File : Type 0 where
  missing unreadable malformed : File
  document : Json → File

abbrev pub Files : Type 0
Files = Text → File

abbrev pub Environment : Type 0
Environment = Text → Option Text

-- Callbacks are known by a number.
pub record ConfigManager : Type 0 where
  pub config : Config
  pub config_path : Text
  pub reload_callbacks : List ℕ
  pub cli_port : Option ℕ
  pub cli_ssl_port : Option ℕ
  pub cli_threads : Option ℕ
  pub cli_bind_address : Option Text

unfoldable pub new_manager : ConfigManager
new_manager = record {
  config = default_config;
  config_path = [];
  reload_callbacks = [];
  cli_port = none;
  cli_ssl_port = none;
  cli_threads = none;
  cli_bind_address = none;
}

-- The state after a step, and the exception that it threw, if any
abbrev pub Outcome : Type 0
Outcome = ConfigManager × Option ConfigError

abbrev pub returns : ConfigManager → Outcome
returns m = (m, none)

abbrev pub throws : ConfigManager → ConfigError → Outcome
throws m e = (m, some e)

infixl 10 ◌then_do◌
abbrev pub ◌then_do◌ : Outcome → (ConfigManager → Outcome) → Outcome
(m, none) then_do next = next m
(m, some e) then_do next = (m, some e)

abbrev pub set_server : (ServerSettings → ServerSettings) → ConfigManager → ConfigManager
set_server f m = record m { config = record m.config { server = f m.config.server } }

abbrev pub set_cache : (CacheSettings → CacheSettings) → ConfigManager → ConfigManager
set_cache f m = record m { config = record m.config { cache = f m.config.cache } }

abbrev pub set_logging : (LogSettings → LogSettings) → ConfigManager → ConfigManager
set_logging f m = record m { config = record m.config { logging = f m.config.logging } }

-- Appends to the list of backends.
abbrev pub add_backends : List BackendConfig → ConfigManager → ConfigManager
add_backends bs m = record m { config = record m.config { backends = m.config.backends ++ bs } }

-- What `load_from_file` makes of the file at a path. An exception of the JSON library is one of invalid JSON,
-- whether the text was no JSON or a value in it is not of its setting's type.
unfoldable pub loaded : Text → File → ConfigManager → Outcome
unfolding from_json
loaded path missing m = throws m (file_not_found path)
loaded path unreadable m = throws m (file_unreadable path)
loaded path malformed m = throws m (invalid_json path)
loaded path (document j) m = elim (from_json j default_config) [
  | none ↦ throws m (invalid_json path)
  | some config ↦ returns (record m { config = config })
]

unfoldable pub load_from_file : Files → Text → ConfigManager → Outcome
unfolding loaded
load_from_file files path m = loaded path (files path) m

-- One variable that holds a number: parsed, stored, or refused
abbrev pub override :
    (Text → Option ℕ)
    → (Text → ConfigError)
    → (ℕ → ConfigManager → ConfigManager)
    → Option Text
    → ConfigManager
    → Outcome
override parse error store none m = returns m
override parse error store (some s) m = elim (parse s) [
  | none ↦ throws m (error s)
  | some n ↦ returns (store n m)
]

-- One variable that holds any text
abbrev pub override_text :
    (Text → ConfigManager → ConfigManager) → Option Text → ConfigManager → Outcome
override_text store none m = returns m
override_text store (some s) m = returns (store s m)

module _ (files : Files) (env : Environment) where
  unfoldable pub env_config_path : ConfigManager → Outcome
  unfolding load_from_file
  env_config_path m =
      if is_empty m.config_path
      then elim (env (codes "NTONIX_CONFIG")) [
        | none ↦ returns m
        | some path ↦
            let m' = record m { config_path = path } in
            if is_empty path then returns m' else load_from_file files path m'
      ]
      else returns m

  unfoldable pub env_server : ConfigManager → Outcome
  env_server m =
      override stoul_u16 invalid_port (λ n. set_server (λ s. record s { port = n }))
        (env (codes "NTONIX_PORT")) m
      then_do override stoul_u16 invalid_ssl_port (λ n. set_server (λ s. record s { ssl_port = n }))
          (env (codes "NTONIX_SSL_PORT"))
      then_do override stoul invalid_threads (λ n. set_server (λ s. record s { threads = n }))
          (env (codes "NTONIX_THREADS"))
      then_do override_text (λ t. set_server (λ s. record s { bind_address = t }))
          (env (codes "NTONIX_BIND"))

  unfoldable pub env_backends : ConfigManager → Outcome
  env_backends m = elim (env (codes "NTONIX_BACKENDS")) [
    | none ↦ returns m
    | some s ↦
        let (backends, error) = parse_backends s in
        (record m { config = record m.config { backends = backends } }, error)
  ]

  unfoldable pub env_cache : ConfigManager → Outcome
  env_cache m =
      override_text
        (λ t. set_cache (λ c. record c {
          enabled =
              text_beq t (codes "true") || (text_beq t (codes "1") || text_beq t (codes "yes"));
        }))
        (env (codes "NTONIX_CACHE_ENABLED")) m
      then_do override stoul invalid_cache_size (λ n. set_cache (λ c. record c { max_size_mb = n }))
          (env (codes "NTONIX_CACHE_SIZE_MB"))
      then_do override stoul invalid_cache_ttl
          (λ n. set_cache (λ c. record c { ttl_seconds = n % u32_mod }))
          (env (codes "NTONIX_CACHE_TTL"))

  unfoldable pub env_logging : ConfigManager → Outcome
  env_logging m =
      override_text (λ t. set_logging (λ l. record l { level = t }))
        (env (codes "NTONIX_LOG_LEVEL")) m
      then_do override_text (λ t. set_logging (λ l. record l { file = t }))
          (env (codes "NTONIX_LOG_FILE"))

  unfoldable pub apply_environment_overrides : ConfigManager → Outcome
  unfolding env_config_path env_server env_backends env_cache env_logging
  apply_environment_overrides m =
      env_config_path m
      then_do env_server
      then_do env_backends
      then_do env_cache
      then_do env_logging
