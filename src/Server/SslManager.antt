-- ===== src/Server/SslManager.antt =====
-- src/server/ssl_context.cpp: `SslContextManager`, the contexts of one listener and the choice among them. A
-- context that `ssl::context` has made is a parameter.
use ntonix.Common.{
  ℕ, zero, suc, Bool, true, List, [], ◌∷◌, ◌++◌, Option, none, some, if◌then◌else◌, Text, text_beq,
  length, ltb,
}
use ntonix.Server.SslContext.{
  SslConfig, Context, Environment, Result, made, and_then, configure_context,
}

pub record SniResult : Type 0 where
  pub found : Bool
  pub context : Option Context

pub record SslContextManager : Type 0 where
  pub default_context : Context
  pub sni_contexts : List (Text × Context)
  pub sni_callback : Option (Text → SniResult)
  pub valid : Bool

unfoldable pub set_sni_callback : Option (Text → SniResult) → SslContextManager → SslContextManager
set_sni_callback callback m = record m { sni_callback = callback }

-- The custom callback's context, where it is set, found one, and gives one
abbrev pub custom_context : Option (Text → SniResult) → Text → Option Context
custom_context none hostname = none
custom_context (some callback) hostname =
    let result = callback hostname in if result.found then result.context else none

-- The loop over the contexts that were added
abbrev pub named_context : List (Text × Context) → Text → Option Context
named_context [] hostname = none
named_context ((name, ctx) ∷ rest) hostname =
    if text_beq name hostname then some ctx else named_context rest hostname

-- The first, and the second where there is no first
abbrev pub or_else : Option Context → Option Context → Option Context
or_else none y = y
or_else (some x) y = some x

-- What `SSL_set_SSL_CTX` is called with, if it is; without it the default context serves.
unfoldable pub ssl_sni_callback : Option Text → SslContextManager → Option Context
ssl_sni_callback none m = none
ssl_sni_callback (some hostname) m =
    or_else (custom_context m.sni_callback hostname) (named_context m.sni_contexts hostname)

-- `substr` from the start
unfoldable pub take : ℕ → Text → Text
take zero s = []
take (suc n) [] = []
take (suc n) (c ∷ s) = c ∷ take n s

unfoldable pub password_callback : ℕ → Text → Text
unfolding take
password_callback max_length password =
    if ltb max_length (length password) then take max_length password else password

module _ (env : Environment) (new_context : Context) where
  unfoldable pub new_manager : SslConfig → Result SslContextManager
  unfolding configure_context
  new_manager config = and_then (configure_context env config new_context) (λ ctx.
      made (record { default_context = ctx; sni_contexts = []; sni_callback = none; valid = true }))

  unfoldable pub add_sni_context : Text → SslConfig → SslContextManager → Result SslContextManager
  unfolding configure_context
  add_sni_context server_name config m =
      and_then (configure_context env config new_context)
        (λ ctx. made (record m { sni_contexts = m.sni_contexts ++ (server_name, ctx) ∷ [] }))

  unfoldable pub create_ssl_context : Text → Text → Result SslContextManager
  unfolding new_manager
  create_ssl_context cert_file key_file = new_manager (record {
    cert_file = cert_file;
    key_file = key_file;
    ca_file = [];
    key_password = [];
    enable_tls_1_2 = true;
    enable_tls_1_3 = true;
    cipher_list = [];
    ciphersuites = [];
    enable_session_cache = true;
    session_cache_size = 20480;
    dh_file = [];
  })
