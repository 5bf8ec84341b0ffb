-- ===== src/Server/SslContext.antt =====
-- src/server/ssl_context.cpp: `SslContextManager`. What OpenSSL and the file system say of a file, a list of
-- ciphers or an error is a parameter. A context is what was set on it.
use ntonix.Common.{
  ℕ, Bool, true, false, not, ◌&&◌, [], ◌∷◌, ◌++◌, Option, none, some, if◌then◌else◌, Text, codes,
}

pub record SslConfig : Type 0 where
  pub cert_file : Text
  pub key_file : Text
  pub ca_file : Text
  pub key_password : Text
  pub enable_tls_1_2 : Bool
  pub enable_tls_1_3 : Bool
  pub cipher_list : Text
  pub ciphersuites : Text
  pub enable_session_cache : Bool
  pub session_cache_size : ℕ
  pub dh_file : Text

-- Versions are numbered as OpenSSL does: TLS 1.2 is 771, TLS 1.3 is 772.
abbrev pub tls1_2_version : ℕ
tls1_2_version = 771

abbrev pub tls1_3_version : ℕ
tls1_3_version = 772

-- What is set on an `ssl::context`; a bound on the version that is none is not there.
pub record Context : Type 0 where
  pub min_version : Option ℕ
  pub max_version : Option ℕ
  pub no_tlsv1 : Bool
  pub no_tlsv1_1 : Bool
  pub password : Option Text
  pub certificate : Option Text
  pub private_key : Option Text
  pub verify_file : Option Text
  pub cipher_list : Option Text
  pub ciphersuites : Option Text
  pub session_cache_size : Option ℕ
  pub dh_file : Option Text
  pub verifies_clients : Bool
  pub has_sni_callback : Bool

-- An exception with its text, or a result
pub data Result (Value : Type 0) : Type 0 where
  thrown : Text → Result Value
  made : Value → Result Value

-- What the file system and OpenSSL answer. An error's text is that of its code, with OpenSSL's own.
pub record Environment : Type 0 where
  pub exists_and_opens : Text → Bool
  pub certificate_error : Text → Option Text
  pub private_key_error : Text → Option Text → Option Text
  pub verify_error : Text → Option Text
  pub dh_error : Text → Option Text
  pub is_cipher_list : Text → Bool
  pub is_ciphersuites : Text → Bool

abbrev pub is_empty : Text → Bool
is_empty [] = true
is_empty (c ∷ s) = false

abbrev or_default : Text → Text → Text
or_default given s = if is_empty s then given else s

abbrev pub and_then : {Value Next : Type 0} → Result Value → (Value → Result Next) → Result Next
and_then (thrown e) f = thrown e
and_then (made x) f = f x

-- A call that sets an error code: with one, the text is thrown that the code puts before it.
abbrev pub unless_error : Text → Option Text → Result Context → Result Context
unless_error before none r = r
unless_error before (some e) r = thrown (before ++ e)

-- `min_proto_version`, `max_proto_version` and the options that switch the old versions off
unfoldable pub configure_tls_versions : SslConfig → Context → Result Context
configure_tls_versions config ctx =
    let ctx' = record ctx { no_tlsv1 = true; no_tlsv1_1 = true } in
    if config.enable_tls_1_2 && config.enable_tls_1_3
    then made (record ctx' { min_version = some tls1_2_version })
    else if config.enable_tls_1_3
    then made (record ctx' { min_version = some tls1_3_version })
    else if config.enable_tls_1_2
    then made (record ctx' { min_version = some tls1_2_version; max_version = some tls1_2_version })
    else thrown (codes "At least one TLS version must be enabled")

-- A CA file that does not load is only logged.
abbrev pub ca_loaded : Text → Option Text → Context → Context
ca_loaded file none ctx = record ctx { verify_file = some file }
ca_loaded file (some e) ctx = ctx

module _ (env : Environment) where
  -- The CA certificate, which is left out where it cannot be read or loaded
  unfoldable pub load_ca : SslConfig → Context → Context
  load_ca config ctx =
      if not (is_empty config.ca_file) && env.exists_and_opens config.ca_file
      then ca_loaded config.ca_file (env.verify_error config.ca_file) ctx
      else ctx

  unfoldable pub set_password : SslConfig → Context → Context
  set_password config ctx =
      if is_empty config.key_password
      then ctx
      else record ctx { password = some config.key_password }

  unfoldable pub use_private_key : SslConfig → Context → Result Context
  unfolding load_ca
  use_private_key config ctx =
      unless_error (codes "Failed to load private key: " ++ (config.key_file ++ codes " - "))
        (env.private_key_error config.key_file ctx.password)
        (made (load_ca config (record ctx { private_key = some config.key_file })))

  unfoldable pub use_certificate : SslConfig → Context → Result Context
  unfolding use_private_key
  use_certificate config ctx =
      unless_error (codes "Failed to load certificate: " ++ (config.cert_file ++ codes " - "))
        (env.certificate_error config.cert_file)
        (use_private_key config (record ctx { certificate = some config.cert_file }))

  unfoldable pub load_certificate : SslConfig → Context → Result Context
  unfolding set_password use_certificate
  load_certificate config ctx =
      if is_empty config.cert_file
      then thrown (codes "SSL certificate file path is empty")
      else if is_empty config.key_file
      then thrown (codes "SSL private key file path is empty")
      else if not (env.exists_and_opens config.cert_file)
      then thrown (codes "Cannot read SSL certificate file: " ++ config.cert_file)
      else if not (env.exists_and_opens config.key_file)
      then thrown (codes "Cannot read SSL private key file: " ++ config.key_file)
      else use_certificate config (set_password config ctx)

  -- A list that OpenSSL does not take leaves the one that was there.
  unfoldable pub configure_ciphers : SslConfig → Context → Context
  configure_ciphers config ctx =
      let ciphers =
        or_default
          (codes "ECDHE+AESGCM:DHE+AESGCM:ECDHE+CHACHA20:DHE+CHACHA20:"
            ++ (codes "ECDHE+AES256:DHE+AES256:ECDHE+AES128:DHE+AES128:"
                ++ codes "!aNULL:!eNULL:!EXPORT:!DES:!RC4:!3DES:!MD5:!PSK"))
          config.cipher_list in
      let suites =
        or_default
          (codes "TLS_AES_256_GCM_SHA384:TLS_CHACHA20_POLY1305_SHA256:"
            ++ codes "TLS_AES_128_GCM_SHA256")
          config.ciphersuites in
      record ctx {
        cipher_list = if env.is_cipher_list ciphers then some ciphers else ctx.cipher_list;
        ciphersuites = if env.is_ciphersuites suites then some suites else ctx.ciphersuites;
      }

  unfoldable pub set_session_cache : SslConfig → Context → Context
  set_session_cache config ctx =
      if config.enable_session_cache
      then record ctx { session_cache_size = some config.session_cache_size }
      else ctx

  -- The DH parameters, whose failure to load is thrown
  unfoldable pub load_dh : SslConfig → Context → Result Context
  load_dh config ctx =
      if not (is_empty config.dh_file) && env.exists_and_opens config.dh_file
      then unless_error [] (env.dh_error config.dh_file)
          (made (record ctx { dh_file = some config.dh_file }))
      else made ctx

  unfoldable pub setup_sni_callback : Context → Context
  setup_sni_callback ctx = record ctx { has_sni_callback = true }

  unfoldable pub configure_context : SslConfig → Context → Result Context
  unfolding configure_tls_versions load_certificate configure_ciphers set_session_cache load_dh
      setup_sni_callback
  configure_context config ctx = and_then (configure_tls_versions config ctx) (λ ctx1.
      and_then (load_certificate config ctx1) (λ ctx2.
        let ctx3 = record (configure_ciphers config ctx2) { verifies_clients = false } in
        and_then (load_dh config (set_session_cache config ctx3))
          (λ ctx4. made (setup_sni_callback ctx4))))
