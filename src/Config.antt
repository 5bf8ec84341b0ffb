-- ===== src/Config.antt =====
-- src/config/config.hpp: the settings that the other components are built from, and
-- src/config/config.cpp: `validate`. Numbers of a fixed width are below their modulus; an exception is the
-- error that it stands for.
pub mod Parse
pub mod Manager
pub mod CommandLine
pub mod Laws
pub mod Json
pub mod RoundTrip
pub mod Arguments
pub mod Given
pub mod Reading
pub mod Applied
pub mod Recorded
pub mod Precedence
pub mod Reload
mod Tests
use ntonix.Common.{
  ℕ, suc, ◌≡◌, ◌↔◌, Bool, true, false, ◌&&◌, ◌||◌, arith, Eq, text_beq, text_beq_iff, nat_beq, Text,
  codes, List, [], ◌∷◌, map, Option, none, some, if◌then◌else◌, is_empty,
}

pub record BackendConfig : Type 0 where
  pub host : Text
  pub port : ℕ
  pub weight : ℕ

-- `operator==` of `BackendConfig`, field by field
abbrev pub backend_beq : BackendConfig → BackendConfig → Bool
backend_beq a b = text_beq a.host b.host && (nat_beq a.port b.port && nat_beq a.weight b.weight)

pub backend_beq_iff : (a b : BackendConfig) → (backend_beq a b ≡ true) ↔ (a ≡ b)
backend_beq_iff a b = ground (arith, text_beq_iff a.host b.host)

instance abbrev pub backend_eq : Eq BackendConfig
backend_eq = record { decides = backend_beq_iff; equal = backend_beq }

pub record ServerSettings : Type 0 where
  pub port : ℕ
  pub ssl_port : ℕ
  pub threads : ℕ
  pub bind_address : Text

pub record CacheSettings : Type 0 where
  pub enabled : Bool
  pub max_size_mb : ℕ
  pub ttl_seconds : ℕ

pub record SslSettings : Type 0 where
  pub cert_file : Text
  pub key_file : Text
  pub enabled : Bool

pub record LogSettings : Type 0 where
  pub level : Text
  pub file : Text
  pub max_file_size_mb : ℕ
  pub max_files : ℕ
  pub enable_console : Bool
  pub enable_colors : Bool

pub record Config : Type 0 where
  pub server : ServerSettings
  pub backends : List BackendConfig
  pub cache : CacheSettings
  pub ssl : SslSettings
  pub logging : LogSettings

-- The values of default-initialised settings
abbrev pub default_backend : BackendConfig
default_backend = record { host = codes "localhost"; port = 8001; weight = 1 }

abbrev pub default_server : ServerSettings
default_server = record {
  port = 8080;
  ssl_port = 8443;
  threads = 0;
  bind_address = codes "0.0.0.0";
}

abbrev pub default_cache : CacheSettings
default_cache = record { enabled = true; max_size_mb = 512; ttl_seconds = 3600 }

abbrev pub default_ssl : SslSettings
default_ssl = record {
  cert_file = codes "server.crt";
  key_file = codes "server.key";
  enabled = false;
}

abbrev pub default_logging : LogSettings
default_logging = record {
  level = codes "info";
  file = [];
  max_file_size_mb = 100;
  max_files = 5;
  enable_console = true;
  enable_colors = true;
}

abbrev pub default_config : Config
default_config = record {
  server = default_server;
  backends = [];
  cache = default_cache;
  ssl = default_ssl;
  logging = default_logging;
}

pub data ConfigError : Type 0 where
  port_zero ssl_port_zero same_ports bind_address_empty : ConfigError
  backend_host_empty backend_port_zero backend_weight_zero : ℕ → ConfigError
  cache_size_zero cert_file_empty key_file_empty : ConfigError
  file_not_found file_unreadable invalid_json : Text → ConfigError
  invalid_port invalid_ssl_port invalid_threads invalid_cache_size invalid_cache_ttl :
      Text → ConfigError
  invalid_backend invalid_backend_port : Text → ConfigError

unfoldable pub validate_server : ServerSettings → Option ConfigError
validate_server s =
    if nat_beq s.port 0
    then some port_zero
    else if nat_beq s.ssl_port 0
    then some ssl_port_zero
    else if nat_beq s.port s.ssl_port
    then some same_ports
    else if is_empty s.bind_address
    then some bind_address_empty
    else none

-- The loop over the backends, from index i on
unfoldable pub validate_backends : ℕ → List BackendConfig → Option ConfigError
validate_backends i [] = none
validate_backends i (b ∷ bs) =
    let rest = validate_backends (suc i) bs in
    if is_empty b.host
    then some (backend_host_empty i)
    else if nat_beq b.port 0
    then some (backend_port_zero i)
    else if nat_beq b.weight 0
    then some (backend_weight_zero i)
    else rest

unfoldable pub validate_cache : CacheSettings → Option ConfigError
validate_cache c = if c.enabled && nat_beq c.max_size_mb 0 then some cache_size_zero else none

unfoldable pub validate_ssl : SslSettings → Option ConfigError
validate_ssl s =
    if s.enabled
    then (if is_empty s.cert_file
        then some cert_file_empty
        else if is_empty s.key_file
        then some key_file_empty
        else none)
    else none

-- The first error that a list of checks reports
abbrev pub first_error : List (Option ConfigError) → Option ConfigError
first_error [] = none
first_error (none ∷ checks) = first_error checks
first_error (some e ∷ checks) = some e

unfoldable pub validate : Config → Option ConfigError
unfolding validate_server validate_backends validate_cache validate_ssl
validate c = first_error (
    validate_server c.server
    ∷ validate_backends 0 c.backends
    ∷ validate_cache c.cache
    ∷ validate_ssl c.ssl
    ∷ [])
