-- ===== src/Config/Tests.antt =====
-- The theorems on src/config/config.cpp at a small configuration file, with a variable of the
-- environment and an option of the command line against it.
use ntonix.Common.Decimal.{digits, to_decimal, value_from, split_last_colon}
use ntonix.Common.{
  ℕ, ltb, ◌<◌, Option, u32_mod, u64_mod, Bool, nat_beq, ◌%◌, ◌≡◌, ◌↔◌, refl, List, [], ◌∷◌, ◌++◌,
  none, some, arith, if◌then◌else◌, text_beq, Text, codes, u16_mod,
}
use ntonix.Config.CommandLine.{
  set_port, set_ssl_port, set_threads, set_bind_address, add_backend, classify, apply_option,
  apply_argument, apply_arguments, apply_cli_overrides, find_config_path, load, reapply_cli,
  attempt, notify_all, finish_reload, reload, on_reload,
}
use ntonix.Config.Json.{
  Json, scalar, object, no_members, member, Makers, find_in, find_member, backend_from_json,
  server_from_json, cache_from_json, ssl_from_json, logging_from_json, elements_from_json,
  backends_from_json, from_json, backend_to_json, server_to_json, cache_to_json, ssl_to_json,
  logging_to_json, backends_to_json, to_json,
}
use ntonix.Config.RoundTrip.{ReadsBack, IsInRange, from_json-to_json}
use ntonix.Config.Laws.{IsValid, validate_iff}
use ntonix.Config.Manager.{
  missing, document, Files, Environment, ConfigManager, new_manager, loaded, load_from_file,
  env_config_path, env_server, env_backends, env_cache, env_logging, apply_environment_overrides,
}
use ntonix.Config.Parse.{
  parsed, unsigned_value, signed_value, stoul, stoul_u16, getlines, trim, parse_backend,
  parse_lines, parse_backends, parse_backend-host_port,
}
use ntonix.Config.Reload.{IsTold, reload-IsTold}
use ntonix.Config.{
  BackendConfig, Config, default_config, invalid_json, validate_server, validate_backends,
  validate_cache, validate_ssl, validate,
}

program : Unit {0}
unfolding digits to_decimal value_from split_last_colon set_port set_ssl_port set_threads
    set_bind_address add_backend classify apply_option apply_argument apply_arguments
    apply_cli_overrides find_config_path load reapply_cli attempt notify_all finish_reload reload
    on_reload new_manager loaded load_from_file env_config_path env_server env_backends env_cache
    env_logging apply_environment_overrides unsigned_value signed_value stoul stoul_u16 getlines
    trim parse_backend parse_lines parse_backends backend_to_json server_to_json cache_to_json
    ssl_to_json logging_to_json backends_to_json to_json find_in find_member backend_from_json
    server_from_json cache_from_json ssl_from_json logging_from_json elements_from_json
    backends_from_json from_json validate_server validate_backends validate_cache validate_ssl
    validate
program = tt

abbrev backend : BackendConfig
backend = record { host = codes "llm"; port = 9000; weight = 3 }

abbrev settings : Config
settings = record default_config { backends = backend ∷ [] }

-- A library that reads a number in a type that has it, and throws elsewhere
abbrev bounded : ℕ → ℕ → Option ℕ
bounded modulus n = if ltb n modulus then some n else none

abbrev makers : Makers
makers = record {
  text = λ t. record { text = some t; uint16 = none; uint32 = none; size = none; boolean = none };
  number = λ n. record {
    text = none;
    uint16 = bounded u16_mod n;
    uint32 = bounded u32_mod n;
    size = bounded u64_mod n;
    boolean = none;
  };
  boolean =
      λ b. record { text = none; uint16 = none; uint32 = none; size = none; boolean = some b };
}

bounded_lem : (modulus n : ℕ) → n < modulus → bounded modulus n ≡ some n
bounded_lem modulus n h = ground arith

reads_back : ReadsBack makers
reads_back = record {
  text = λ t. refl;
  boolean = λ b. refl;
  uint16 = bounded_lem u16_mod;
  uint32 = bounded_lem u32_mod;
  size = bounded_lem u64_mod;
}

settings-IsInRange : IsInRange settings
settings-IsInRange = record {
  server = record { port = omega arith; ssl_port = omega arith; threads = omega arith };
  backends = (record { port = omega arith; weight = omega arith }, tt);
  cache = record { max_size_mb = omega arith; ttl_seconds = omega arith };
  logging = record { max_file_size_mb = omega arith; max_files = omega arith };
}

from_json-to_json_example : from_json (to_json makers settings) default_config ≡ some settings
from_json-to_json_example =
    from_json-to_json makers reads_back settings default_config settings-IsInRange

-- A port that is no number makes the whole file invalid.
abbrev bad_port : Json
bad_port = object (
    member (codes "server")
      (object (member (codes "port") (scalar (makers.text (codes "80"))) no_members)) no_members)

bad_port_lem :
    loaded (codes "f") (document bad_port) new_manager
    ≡ (new_manager, some (invalid_json (codes "f")))
unfolding program
bad_port_lem = refl

validate_iff_example : (validate settings ≡ none) ↔ IsValid settings
validate_iff_example = validate_iff settings

parse_backend-host_port_example :
    parse_backend (codes "::1" ++ b':' ∷ to_decimal 70000)
    ≡ parsed (record { host = codes "::1"; port = 70000 % u16_mod; weight = 1 })
parse_backend-host_port_example = parse_backend-host_port (codes "::1") 70000 (omega arith)

-- Blanks are trimmed, empty items are skipped, and nothing follows a last comma.
list_of_backends : parse_backends (codes " a:1, ,b:2,") ≡ (
  record { host = codes "a"; port = 1; weight = 1 }
      ∷ record { host = codes "b"; port = 2; weight = 1 }
      ∷ [],
  none,
)
unfolding program
list_of_backends = refl

abbrev files : Files
files path = if text_beq path (codes "f") then document (to_json makers settings) else missing

abbrev env : Environment
env name =
    if text_beq name (codes "NTONIX_PORT")
    then some (codes "81")
    else if text_beq name (codes "NTONIX_THREADS")
    then some (codes "4")
    else none

abbrev args : List Text
args = codes "-c" ∷ codes "f" ∷ codes "--port=82" ∷ codes "--backends" ∷ codes "b:7" ∷ []

abbrev loaded_manager : ConfigManager
loaded_manager = record {
  config = record settings {
    server = record { port = 82; ssl_port = 8443; threads = 4; bind_address = codes "0.0.0.0" };
    backends = backend ∷ record { host = codes "b"; port = 7; weight = 1 } ∷ [];
  };
  config_path = codes "f";
  reload_callbacks = [];
  cli_port = some 82;
  cli_ssl_port = none;
  cli_threads = none;
  cli_bind_address = none;
}

-- A reload drops the backend of the command line, and says so to the first two callbacks: the second throws.
abbrev listening : ConfigManager
listening = record loaded_manager { reload_callbacks = 5 ∷ 6 ∷ 7 ∷ [] }

abbrev throws : ℕ → List BackendConfig → Bool
throws callback backends = nat_beq callback 6

told_lem : (reload files env throws listening).1 ≡ (5, backend ∷ []) ∷ (6, backend ∷ []) ∷ []
unfolding program
told_lem = refl

reload-IsTold_example :
    IsTold throws listening.config.backends
      (reload files env throws listening).0
      (reload files env throws listening).1
reload-IsTold_example =
    reload-IsTold throws files env listening (5, backend ∷ []) ((6, backend ∷ []) ∷ []) told_lem
