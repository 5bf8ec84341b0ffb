-- ===== src/Config/Laws.antt =====
-- What src/config/config.cpp promises: what a valid configuration is, and that `validate` tells it.
use ntonix.Common.{
  ℕ, suc, ◌≡◌, ◌≢◌, ◌↔◌, ◌⊎◌, refl, false, List, [], ◌∷◌, Option, none, some, arith, Text, is_empty,
  All,
}
use ntonix.Config.{
  BackendConfig, ServerSettings, CacheSettings, SslSettings, Config, ConfigError, validate_server,
  validate_backends, validate_cache, validate_ssl, validate, first_error,
}

-- What a configuration has to be
pub record IsBackend (b : BackendConfig) : Type 0 where
  pub host : b.host ≢ []
  pub port : b.port ≢ 0
  pub weight : b.weight ≢ 0

pub record IsValid (c : Config) : Type 0 where
  pub port : c.server.port ≢ 0
  pub ssl_port : c.server.ssl_port ≢ 0
  pub two_ports : c.server.port ≢ c.server.ssl_port
  pub bind_address : c.server.bind_address ≢ []
  pub backends : All IsBackend c.backends
  pub cache : (c.cache.enabled ≡ false) ⊎ (c.cache.max_size_mb ≢ 0)
  pub ssl : (c.ssl.enabled ≡ false) ⊎ ((c.ssl.cert_file ≢ []) × (c.ssl.key_file ≢ []))

is_empty_iff : (s : Text) → (is_empty s ≡ false) ↔ (s ≢ [])
is_empty_iff [] = ground arith
is_empty_iff (c ∷ s) = ground arith

server_iff :
    (s : ServerSettings)
    → (validate_server s ≡ none)
      ↔ ((s.port ≢ 0) × (s.ssl_port ≢ 0) × (s.port ≢ s.ssl_port) × (s.bind_address ≢ []))
unfolding validate_server
server_iff s = ground (arith, is_empty_iff s.bind_address)

IsBackend-iff :
    (i : ℕ) (b : BackendConfig) (bs : List BackendConfig)
    → (validate_backends i (b ∷ bs) ≡ none) ↔ (IsBackend b × (validate_backends (suc i) bs ≡ none))
unfolding validate_backends
IsBackend-iff i b bs = ground (arith, is_empty_iff b.host)

backends_iff :
    (i : ℕ) (bs : List BackendConfig) → (validate_backends i bs ≡ none) ↔ All IsBackend bs
backends_iff i [] = unfold validate_backends in (λ _. tt, λ _. refl)
backends_iff i (b ∷ bs) =
    let here = IsBackend-iff i b bs in
    let rest = backends_iff (suc i) bs in
    (λ h. ((here.0 h).0, rest.0 (here.0 h).1), λ (good, goods). here.1 (good, rest.1 goods))

cache_iff :
    (c : CacheSettings) → (validate_cache c ≡ none) ↔ ((c.enabled ≡ false) ⊎ (c.max_size_mb ≢ 0))
unfolding validate_cache
cache_iff c = ground arith

ssl_iff :
    (s : SslSettings)
    → (validate_ssl s ≡ none) ↔ ((s.enabled ≡ false) ⊎ ((s.cert_file ≢ []) × (s.key_file ≢ [])))
unfolding validate_ssl
ssl_iff s = ground (arith, is_empty_iff s.cert_file, is_empty_iff s.key_file)

first_error_iff :
    (a b c d : Option ConfigError)
    → (first_error (a ∷ b ∷ c ∷ d ∷ []) ≡ none)
      ↔ ((a ≡ none) × (b ≡ none) × (c ≡ none) × (d ≡ none))
first_error_iff none none none none = ground arith
first_error_iff none none none (some e) = ground arith
first_error_iff none none (some e) d = ground arith
first_error_iff none (some e) c d = ground arith
first_error_iff (some e) b c d = ground arith

-- `validate` reports no error exactly on the valid configurations.
pub validate_iff : (c : Config) → (validate c ≡ none) ↔ IsValid c
unfolding validate
validate_iff c =
    let parts =
      first_error_iff (validate_server c.server) (validate_backends 0 c.backends)
        (validate_cache c.cache) (validate_ssl c.ssl) in
    (
      λ h.
          let (s, b, k, l) = parts.0 h in
          let (plain, secure, two, bind) = (server_iff c.server).0 s in
          record {
            port = plain;
            ssl_port = secure;
            two_ports = two;
            bind_address = bind;
            backends = (backends_iff 0 c.backends).0 b;
            cache = (cache_iff c.cache).0 k;
            ssl = (ssl_iff c.ssl).0 l;
          },
      λ v. parts.1 (
        (server_iff c.server).1 (v.port, v.ssl_port, v.two_ports, v.bind_address),
        (backends_iff 0 c.backends).1 v.backends,
        (cache_iff c.cache).1 v.cache,
        (ssl_iff c.ssl).1 v.ssl,
      ),
    )
