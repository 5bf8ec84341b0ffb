-- ===== src/Server/SslTests.antt =====
-- The theorems on src/server/ssl_context.cpp at a certificate for one host, in a context that allows TLS 1.2
-- only, as Boost.Asio makes it for `tlsv12`.
use ntonix.Common.{◌≡◌, ◌≤◌, refl, true, false, if◌then◌else◌, [], ◌∷◌, none, some, codes, text_beq}
use ntonix.Server.SslContext.{
  SslConfig, Context, Environment, Result, thrown, made, tls1_2_version, configure_context,
}
use ntonix.Server.SslManager.{
  SslContextManager, or_else, ssl_sni_callback, add_sni_context, password_callback,
}
use ntonix.Server.Names.{ssl_sni_callback-add_sni_context}
use ntonix.Server.Versions.{
  within, IsEnabled, configure_context-IsEnabled, configure_context-AtMost12,
}

-- Every file is there and loads.
abbrev environment : Environment
environment = record {
  exists_and_opens = λ file. true;
  certificate_error = λ file. none;
  private_key_error = λ file password. none;
  verify_error = λ file. none;
  dh_error = λ file. none;
  is_cipher_list = λ ciphers. true;
  is_ciphersuites = λ suites. true;
}

abbrev asio_context : Context
asio_context = record {
  min_version = some tls1_2_version;
  max_version = some tls1_2_version;
  no_tlsv1 = false;
  no_tlsv1_1 = false;
  password = none;
  certificate = none;
  private_key = none;
  verify_file = none;
  cipher_list = none;
  ciphersuites = none;
  session_cache_size = none;
  dh_file = none;
  verifies_clients = false;
  has_sni_callback = false;
}

abbrev config : SslConfig
config = record {
  cert_file = codes "cert.pem";
  key_file = codes "key.pem";
  ca_file = [];
  key_password = [];
  enable_tls_1_2 = true;
  enable_tls_1_3 = true;
  cipher_list = [];
  ciphersuites = [];
  enable_session_cache = true;
  session_cache_size = 20480;
  dh_file = [];
}

abbrev context_of : Result Context → Context
context_of (thrown e) = asio_context
context_of (made ctx) = ctx

abbrev context : Context
context = context_of (configure_context environment config asio_context)

is_made : configure_context environment config asio_context ≡ made context
unfolding configure_context
is_made = refl

is_within : within context.min_version context.max_version tls1_2_version ≡ true
unfolding configure_context
is_within = refl

configure_context-IsEnabled_example :
    (context.certificate ≡ some (codes "cert.pem"))
    × (context.private_key ≡ some (codes "key.pem"))
    × IsEnabled config tls1_2_version
configure_context-IsEnabled_example =
    configure_context-IsEnabled environment config asio_context context tls1_2_version is_made
      is_within

configure_context-AtMost12_example : tls1_2_version ≤ tls1_2_version
configure_context-AtMost12_example =
    configure_context-AtMost12 environment config asio_context context tls1_2_version refl is_made
      is_within

abbrev manager : SslContextManager
manager = record {
  default_context = asio_context;
  sni_contexts = [];
  sni_callback = none;
  valid = true;
}

abbrev with_host : SslContextManager
with_host = record manager { sni_contexts = (codes "a.example", context) ∷ [] }

is_added :
    add_sni_context environment asio_context (codes "a.example") config manager ≡ made with_host
unfolding add_sni_context configure_context
is_added = refl

ssl_sni_callback-add_sni_context_example :
    ssl_sni_callback (some (codes "a.example")) with_host
    ≡ or_else
        (ssl_sni_callback (some (codes "a.example")) manager)
        (if text_beq (codes "a.example") (codes "a.example") then some context else none)
ssl_sni_callback-add_sni_context_example =
    ssl_sni_callback-add_sni_context environment asio_context (codes "a.example")
      (codes "a.example") config manager with_host context is_made is_added

cut_off : password_callback 3 (codes "secret") ≡ codes "sec"
unfolding password_callback
cut_off = refl
