-- ===== src/Config/Json.antt =====
-- The JSON form of the settings (src/config/config.cpp): objects with the source's keys. What the JSON
-- library makes of a value that is no object and no array is the library's, and so is how it makes one of
-- a text, a number or a Boolean: the first is part of the value, the second a parameter.
use ntonix.Common.{ℕ, Bool, text_beq, Text, codes, List, [], ◌∷◌, Option, none, some, if◌then◌else◌}
use ntonix.Config.{
  BackendConfig, ServerSettings, CacheSettings, SslSettings, LogSettings, Config, default_backend,
}

-- What `get_to` makes of a value for each type of a setting; none where it throws
pub record Scalar : Type 0 where
  pub text : Option Text
  pub uint16 : Option ℕ
  pub uint32 : Option ℕ
  pub size : Option ℕ
  pub boolean : Option Bool

-- A document that the library has parsed. No key occurs twice in an object, and their order is not looked at.
mutual
  pub data Json : Type 0 where
    scalar : Scalar → Json
    array : Elements → Json
    object : Members → Json

  pub data Elements : Type 0 where
    no_elements : Elements
    element : Json → Elements → Elements

  pub data Members : Type 0 where
    no_members : Members
    member : Text → Json → Members → Members

-- How the library makes values
pub record Makers : Type 0 where
  pub text : Text → Scalar
  pub number : ℕ → Scalar
  pub boolean : Bool → Scalar

unfoldable pub find_in : Text → Members → Option Json
find_in key no_members = none
find_in key (member name value ms) =
    let rest = find_in key ms in if text_beq key name then some value else rest

-- `contains` and `at`: a value that is no object contains no key.
unfoldable pub find_member : Text → Json → Option Json
unfolding find_in
find_member key (scalar s) = none
find_member key (array js) = none
find_member key (object ms) = find_in key ms

abbrev pub as_text : Json → Text → Option Text
as_text (scalar s) old = s.text
as_text (array js) old = none
as_text (object ms) old = none

abbrev pub as_uint16 : Json → ℕ → Option ℕ
as_uint16 (scalar s) old = s.uint16
as_uint16 (array js) old = none
as_uint16 (object ms) old = none

abbrev pub as_uint32 : Json → ℕ → Option ℕ
as_uint32 (scalar s) old = s.uint32
as_uint32 (array js) old = none
as_uint32 (object ms) old = none

abbrev pub as_size : Json → ℕ → Option ℕ
as_size (scalar s) old = s.size
as_size (array js) old = none
as_size (object ms) old = none

abbrev pub as_boolean : Json → Bool → Option Bool
as_boolean (scalar s) old = s.boolean
as_boolean (array js) old = none
as_boolean (object ms) old = none

abbrev pub read_value : {A : Type 0} → (Json → A → Option A) → Option Json → A → Option A
read_value read none old = some old
read_value read (some value) old = read value old

-- `if (j.contains(key)) j.at(key).get_to(v)`, with what v is then; none where an exception is thrown
abbrev pub get_to : {A : Type 0} → (Json → A → Option A) → Text → Json → A → Option A
get_to read key j old = read_value read (find_member key j) old

abbrev pub and_then : {A B : Type 0} → Option A → (A → Option B) → Option B
and_then none next = none
and_then (some a) next = next a

unfoldable pub backend_from_json : Json → BackendConfig → Option BackendConfig
unfolding find_member
backend_from_json j b = and_then (get_to as_text (codes "host") j b.host) λ host.
    and_then (get_to as_uint16 (codes "port") j b.port) λ port.
      and_then (get_to as_uint32 (codes "weight") j b.weight)
        λ weight. some (record { host = host; port = port; weight = weight })

unfoldable pub server_from_json : Json → ServerSettings → Option ServerSettings
unfolding find_member
server_from_json j s = and_then (get_to as_uint16 (codes "port") j s.port) λ port.
    and_then (get_to as_uint16 (codes "ssl_port") j s.ssl_port) λ ssl_port.
      and_then (get_to as_size (codes "threads") j s.threads) λ threads.
        and_then (get_to as_text (codes "bind_address") j s.bind_address) λ bind_address.
          some (record {
            port = port;
            ssl_port = ssl_port;
            threads = threads;
            bind_address = bind_address;
          })

unfoldable pub cache_from_json : Json → CacheSettings → Option CacheSettings
unfolding find_member
cache_from_json j c = and_then (get_to as_boolean (codes "enabled") j c.enabled) λ enabled.
    and_then (get_to as_size (codes "max_size_mb") j c.max_size_mb) λ max_size_mb.
      and_then (get_to as_uint32 (codes "ttl_seconds") j c.ttl_seconds) λ ttl_seconds.
        some (record { enabled = enabled; max_size_mb = max_size_mb; ttl_seconds = ttl_seconds })

unfoldable pub ssl_from_json : Json → SslSettings → Option SslSettings
unfolding find_member
ssl_from_json j s = and_then (get_to as_text (codes "cert_file") j s.cert_file) λ cert_file.
    and_then (get_to as_text (codes "key_file") j s.key_file) λ key_file.
      and_then (get_to as_boolean (codes "enabled") j s.enabled)
        λ enabled. some (record { cert_file = cert_file; key_file = key_file; enabled = enabled })

unfoldable pub logging_from_json : Json → LogSettings → Option LogSettings
unfolding find_member
logging_from_json j l = and_then (get_to as_text (codes "level") j l.level) λ level.
    and_then (get_to as_text (codes "file") j l.file) λ file.
      and_then (get_to as_size (codes "max_file_size_mb") j l.max_file_size_mb) λ max_file_size_mb.
        and_then (get_to as_size (codes "max_files") j l.max_files) λ max_files.
          and_then (get_to as_boolean (codes "enable_console") j l.enable_console) λ enable_console.
            and_then (get_to as_boolean (codes "enable_colors") j l.enable_colors) λ enable_colors.
              some (record {
                level = level;
                file = file;
                max_file_size_mb = max_file_size_mb;
                max_files = max_files;
                enable_console = enable_console;
                enable_colors = enable_colors;
              })

-- A vector is read from an array alone, each element over a default one.
unfoldable pub elements_from_json : Elements → Option (List BackendConfig)
unfolding backend_from_json
elements_from_json no_elements = some []
elements_from_json (element j js) =
    let rest = elements_from_json js in
    and_then (backend_from_json j default_backend) λ b. and_then rest λ bs. some (b ∷ bs)

unfoldable pub backends_from_json : Json → List BackendConfig → Option (List BackendConfig)
unfolding elements_from_json
backends_from_json (scalar s) old = none
backends_from_json (array js) old = elements_from_json js
backends_from_json (object ms) old = none

unfoldable pub from_json : Json → Config → Option Config
unfolding find_member server_from_json backends_from_json cache_from_json ssl_from_json
    logging_from_json
from_json j c = and_then (get_to server_from_json (codes "server") j c.server) λ server.
    and_then (get_to backends_from_json (codes "backends") j c.backends) λ backends.
      and_then (get_to cache_from_json (codes "cache") j c.cache) λ cache.
        and_then (get_to ssl_from_json (codes "ssl") j c.ssl) λ ssl.
          and_then (get_to logging_from_json (codes "logging") j c.logging) λ logging.
            some (record {
              server = server;
              backends = backends;
              cache = cache;
              ssl = ssl;
              logging = logging;
            })

module _ (makers : Makers) where
  unfoldable pub backend_to_json : BackendConfig → Json
  backend_to_json b = object (
      member (codes "host") (scalar (makers.text b.host)) (
        member (codes "port") (scalar (makers.number b.port))
          (member (codes "weight") (scalar (makers.number b.weight)) (no_members))))

  unfoldable pub server_to_json : ServerSettings → Json
  server_to_json s = object (
      member (codes "port") (scalar (makers.number s.port)) (
        member (codes "ssl_port") (scalar (makers.number s.ssl_port)) (
          member (codes "threads") (scalar (makers.number s.threads))
            (member (codes "bind_address") (scalar (makers.text s.bind_address)) (no_members)))))

  unfoldable pub cache_to_json : CacheSettings → Json
  cache_to_json c = object (
      member (codes "enabled") (scalar (makers.boolean c.enabled)) (
        member (codes "max_size_mb") (scalar (makers.number c.max_size_mb))
          (member (codes "ttl_seconds") (scalar (makers.number c.ttl_seconds)) (no_members))))

  unfoldable pub ssl_to_json : SslSettings → Json
  ssl_to_json s = object (
      member (codes "cert_file") (scalar (makers.text s.cert_file)) (
        member (codes "key_file") (scalar (makers.text s.key_file))
          (member (codes "enabled") (scalar (makers.boolean s.enabled)) (no_members))))

  unfoldable pub logging_to_json : LogSettings → Json
  logging_to_json l = object (
      member (codes "level") (scalar (makers.text l.level)) (
        member (codes "file") (scalar (makers.text l.file)) (
          member (codes "max_file_size_mb") (scalar (makers.number l.max_file_size_mb)) (
            member (codes "max_files") (scalar (makers.number l.max_files)) (
              member (codes "enable_console") (scalar (makers.boolean l.enable_console)) (
                member (codes "enable_colors") (scalar (makers.boolean l.enable_colors))
                  (no_members)))))))

  unfoldable pub backends_to_json : List BackendConfig → Elements
  unfolding backend_to_json
  backends_to_json [] = no_elements
  backends_to_json (b ∷ bs) = element (backend_to_json b) (backends_to_json bs)

  unfoldable pub to_json : Config → Json
  unfolding server_to_json backends_to_json cache_to_json ssl_to_json logging_to_json
  to_json c = object (
      member (codes "server") (server_to_json c.server) (
        member (codes "backends") (array (backends_to_json c.backends)) (
          member (codes "cache") (cache_to_json c.cache) (
            member (codes "ssl") (ssl_to_json c.ssl)
              (member (codes "logging") (logging_to_json c.logging) no_members)))))
