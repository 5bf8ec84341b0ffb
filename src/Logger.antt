-- ===== src/Logger.antt =====
-- src/util/logger.{hpp,cpp}: log levels, the process's logger, the access log, and the request ids.
-- spdlog's loggers are the sinks and the level that they are set up with, and the lines they are given.
pub mod Levels
pub mod Context
mod Tests
use ntonix.Common.Decimal.{to_decimal}
use ntonix.Common.{
  ℕ, ◌+◌, ◌*◌, Bool, true, false, ◌||◌, List, [], ◌∷◌, ◌++◌, map, Option, none, some, if◌then◌else◌,
  text_beq, is_empty, to_lower, Text, codes, mul64,
}

pub data LogLevel : Type 0 where
  trace debug info warn error critical off : LogLevel

pub record LogConfig : Type 0 where
  pub level : LogLevel
  pub file_path : Text
  pub max_file_size_mb : ℕ
  pub max_files : ℕ
  pub enable_console : Bool
  pub enable_colors : Bool

abbrev pub default_log_config : LogConfig
default_log_config = record {
  level = info;
  file_path = [];
  max_file_size_mb = 100;
  max_files = 5;
  enable_console = true;
  enable_colors = true;
}

pub record AccessLogEntry : Type 0 where
  pub request_id : Text
  pub client_ip : Text
  pub method : Text
  pub path : Text
  pub status_code : ℕ
  pub request_size : ℕ
  pub response_size : ℕ
  pub latency : ℕ
  pub cache_hit : Bool
  pub backend_host : Text
  pub backend_port : ℕ

-- The tests of `parse_level` on the lower-cased text
unfoldable pub level_named : Text → Option LogLevel
level_named lower =
    if text_beq lower (codes "trace")
    then some trace
    else if text_beq lower (codes "debug")
    then some debug
    else if text_beq lower (codes "info")
    then some info
    else if text_beq lower (codes "warn") || text_beq lower (codes "warning")
    then some warn
    else if text_beq lower (codes "error") || text_beq lower (codes "err")
    then some error
    else if text_beq lower (codes "critical")
        || (text_beq lower (codes "crit") || text_beq lower (codes "fatal"))
    then some critical
    else if text_beq lower (codes "off") || text_beq lower (codes "none")
    then some off
    else none

unfoldable pub parse_level : Text → Option LogLevel
unfolding level_named
parse_level level_str = level_named (map to_lower level_str)

unfoldable pub level_to_string : LogLevel → Text
level_to_string trace = codes "trace"
level_to_string debug = codes "debug"
level_to_string info = codes "info"
level_to_string warn = codes "warn"
level_to_string error = codes "error"
level_to_string critical = codes "critical"
level_to_string off = codes "off"

-- `spdlog::level`
pub data SpdlogLevel : Type 0 where
  level_trace level_debug level_info level_warn level_err level_critical level_off : SpdlogLevel

unfoldable pub to_spdlog_level : LogLevel → SpdlogLevel
to_spdlog_level trace = level_trace
to_spdlog_level debug = level_debug
to_spdlog_level info = level_info
to_spdlog_level warn = level_warn
to_spdlog_level error = level_err
to_spdlog_level critical = level_critical
to_spdlog_level off = level_off

unfoldable pub from_spdlog_level : SpdlogLevel → LogLevel
from_spdlog_level level_trace = trace
from_spdlog_level level_debug = debug
from_spdlog_level level_info = info
from_spdlog_level level_warn = warn
from_spdlog_level level_err = error
from_spdlog_level level_critical = critical
from_spdlog_level level_off = off

-- A console, with or without colours, or a file with its size limit and its number
pub data Sink : Type 0 where
  console : Bool → Sink
  rotating_file : Text → ℕ → ℕ → Sink

pub record Logger : Type 0 where
  pub sinks : List Sink
  pub level : SpdlogLevel
  pub current_level : LogLevel

abbrev console_sinks : LogConfig → List Sink
console_sinks config = if config.enable_console then console config.enable_colors ∷ [] else []

abbrev file_sinks : LogConfig → List Sink
file_sinks config =
    if is_empty config.file_path
    then []
    else rotating_file config.file_path (mul64 (mul64 config.max_file_size_mb 1024) 1024)
        config.max_files
      ∷ []

unfoldable pub configure : LogConfig → Logger
unfolding to_spdlog_level
configure config = record {
  sinks = console_sinks config ++ file_sinks config;
  level = to_spdlog_level config.level;
  current_level = config.level;
}

-- `call_once` on the process's logger: a later call does nothing.
unfoldable pub init : LogConfig → Option Logger → Option Logger
unfolding configure
init config none = some (configure config)
init config (some logger) = some logger

unfoldable pub init_default : Option Logger → Option Logger
unfolding init
init_default instance_ = init default_log_config instance_

-- `instance`: the logger, set up by default if there is none
unfoldable pub instance_of : Option Logger → Logger
unfolding configure
instance_of none = configure default_log_config
instance_of (some logger) = logger

unfoldable pub set_level : LogLevel → Logger → Logger
unfolding to_spdlog_level
set_level level logger = record logger { level = to_spdlog_level level; current_level = level }

-- `log`: what spdlog is given, if anything
unfoldable pub log : LogLevel → Text → Text → Option (SpdlogLevel × Text)
unfolding to_spdlog_level
log off component message = none
log level component message =
    some (to_spdlog_level level, codes "[" ++ component ++ codes "] " ++ message)

abbrev or_dash : Text → Text
or_dash s = if is_empty s then codes "-" else s

-- The line that `access` writes
unfoldable pub access_line : AccessLogEntry → Text
access_line e =
    or_dash e.request_id
    ++ b' ' ∷ or_dash e.client_ip
    ++ codes " \""
    ++ e.method
    ++ b' ' ∷ e.path
    ++ codes "\" "
    ++ to_decimal e.status_code
    ++ b' ' ∷ to_decimal e.response_size
    ++ b' ' ∷ to_decimal e.latency
    ++ codes "ms "
    ++ (if e.cache_hit then codes "HIT" else codes "MISS")
    ++ b' '
      ∷ (if is_empty e.backend_host
          then codes "-"
          else e.backend_host ++ b':' ∷ to_decimal e.backend_port)
