-- ===== src/Config/RoundTrip.antt =====
-- The settings through their JSON form and back (src/config/config.cpp).
use ntonix.Common.{
  ℕ, ◌≡◌, ◌<◌, refl, Bool, Text, List, [], ◌∷◌, some, All, u16_mod, u32_mod, u64_mod,
}
use ntonix.Config.{
  BackendConfig, ServerSettings, CacheSettings, SslSettings, LogSettings, Config, default_backend,
}
use ntonix.Config.Json.{
  Makers, find_in, find_member, backend_from_json, server_from_json, cache_from_json, ssl_from_json,
  logging_from_json, elements_from_json, backends_from_json, from_json, backend_to_json,
  server_to_json, cache_to_json, ssl_to_json, logging_to_json, backends_to_json, to_json,
}

-- What the library documents: a value reads back as what it was made of, in a type that has it.
pub record ReadsBack (makers : Makers) : Type 0 where
  pub text : (t : Text) → (makers.text t).text ≡ some t
  pub boolean : (b : Bool) → (makers.boolean b).boolean ≡ some b
  pub uint16 : (n : ℕ) → n < u16_mod → (makers.number n).uint16 ≡ some n
  pub uint32 : (n : ℕ) → n < u32_mod → (makers.number n).uint32 ≡ some n
  pub size : (n : ℕ) → n < u64_mod → (makers.number n).size ≡ some n

-- Every number is one of its type in the source.
pub record IsBackendInRange (b : BackendConfig) : Type 0 where
  pub port : b.port < u16_mod
  pub weight : b.weight < u32_mod

pub record IsServerInRange (s : ServerSettings) : Type 0 where
  pub port : s.port < u16_mod
  pub ssl_port : s.ssl_port < u16_mod
  pub threads : s.threads < u64_mod

pub record IsCacheInRange (c : CacheSettings) : Type 0 where
  pub max_size_mb : c.max_size_mb < u64_mod
  pub ttl_seconds : c.ttl_seconds < u32_mod

pub record IsLoggingInRange (l : LogSettings) : Type 0 where
  pub max_file_size_mb : l.max_file_size_mb < u64_mod
  pub max_files : l.max_files < u64_mod

pub record IsInRange (c : Config) : Type 0 where
  pub server : IsServerInRange c.server
  pub backends : All IsBackendInRange c.backends
  pub cache : IsCacheInRange c.cache
  pub logging : IsLoggingInRange c.logging

module _ (makers : Makers) (back : ReadsBack makers) where
  backend_from_json-to_json :
      (b old : BackendConfig)
      → IsBackendInRange b
      → backend_from_json (backend_to_json makers b) old ≡ some b
  unfolding backend_from_json backend_to_json find_member find_in
  backend_from_json-to_json b old h =
      rw (back.text b.host)
        (rw (back.uint16 b.port h.port) (rw (back.uint32 b.weight h.weight) refl))

  server_from_json-to_json :
      (s old : ServerSettings)
      → IsServerInRange s
      → server_from_json (server_to_json makers s) old ≡ some s
  unfolding server_from_json server_to_json find_member find_in
  server_from_json-to_json s old h = rw (back.uint16 s.port h.port) (
      rw (back.uint16 s.ssl_port h.ssl_port)
        (rw (back.size s.threads h.threads) (rw (back.text s.bind_address) refl)))

  cache_from_json-to_json :
      (c old : CacheSettings)
      → IsCacheInRange c
      → cache_from_json (cache_to_json makers c) old ≡ some c
  unfolding cache_from_json cache_to_json find_member find_in
  cache_from_json-to_json c old h = rw (back.boolean c.enabled) (
      rw (back.size c.max_size_mb h.max_size_mb)
        (rw (back.uint32 c.ttl_seconds h.ttl_seconds) refl))

  ssl_from_json-to_json : (s old : SslSettings) → ssl_from_json (ssl_to_json makers s) old ≡ some s
  unfolding ssl_from_json ssl_to_json find_member find_in
  ssl_from_json-to_json s old =
      rw (back.text s.cert_file) (rw (back.text s.key_file) (rw (back.boolean s.enabled) refl))

  logging_from_json-to_json :
      (l old : LogSettings)
      → IsLoggingInRange l
      → logging_from_json (logging_to_json makers l) old ≡ some l
  unfolding logging_from_json logging_to_json find_member find_in
  logging_from_json-to_json l old h = rw (back.text l.level) (
      rw (back.text l.file) (
        rw (back.size l.max_file_size_mb h.max_file_size_mb) (
          rw (back.size l.max_files h.max_files)
            (rw (back.boolean l.enable_console) (rw (back.boolean l.enable_colors) refl)))))

  elements_from_json-to_json :
      (bs : List BackendConfig)
      → All IsBackendInRange bs
      → elements_from_json (backends_to_json makers bs) ≡ some bs
  unfolding elements_from_json backends_to_json
  elements_from_json-to_json [] h = refl
  elements_from_json-to_json (b ∷ bs) h =
      rw (backend_from_json-to_json b default_backend h.0)
        (rw (elements_from_json-to_json bs h.1) refl)

  -- A configuration whose numbers are in the range of their types, written as JSON under the source's keys
  -- and read over any other, is read without an exception and gives that configuration back, where the
  -- JSON library reads a text, a Boolean or a number back as what it was made of, in a type that has it.
  pub from_json-to_json : (c d : Config) → IsInRange c → from_json (to_json makers c) d ≡ some c
  unfolding from_json to_json find_member find_in backends_from_json
  from_json-to_json c d h = rw (server_from_json-to_json c.server d.server h.server) (
      rw (elements_from_json-to_json c.backends h.backends) (
        rw (cache_from_json-to_json c.cache d.cache h.cache) (
          rw (ssl_from_json-to_json c.ssl d.ssl)
            (rw (logging_from_json-to_json c.logging d.logging h.logging) refl))))
