-- ===== src/Server/Loading.antt =====
-- What every stage of `configure_context` after the versions keeps (src/server/ssl_context.cpp).
use mathlib.Core.Path.{subst}
use ntonix.Common.{
  ℕ, ◌≡◌, refl, Bool, false, not, ◌&&◌, ◌++◌, [], Option, none, some, if◌then◌else◌, if_intro, Text,
  codes,
}
use ntonix.Server.SslContext.{
  SslConfig, Context, Environment, Result, thrown, made, and_then, is_empty, configure_tls_versions,
  load_ca, set_password, ca_loaded, unless_error, use_private_key, use_certificate,
  load_certificate, configure_ciphers, set_session_cache, load_dh, setup_sni_callback,
  configure_context,
}

-- A predicate of the result, where there is one
pub record Satisfies {Value : Type 0} (P : Value → Type 0) (r : Result Value) : Type 0 where
  pub result : (x : Value) → r ≡ made x → P x

pub thrown-Satisfies : {Value : Type 0} {P : Value → Type 0} (e : Text) → Satisfies P (thrown e)
thrown-Satisfies e = record { result = λ x h. absurd cc }

pub made-Satisfies : {Value : Type 0} {P : Value → Type 0} (x : Value) → P x → Satisfies P (made x)
made-Satisfies {P = P} x p = record { result = λ y h. subst P (cc) p }

and_then-Satisfies :
    {Value Next : Type 0} {P : Value → Type 0} {Q : Next → Type 0} (r : Result Value)
    (f : Value → Result Next)
    → Satisfies P r
    → ((x : Value) → P x → Satisfies Q (f x))
    → Satisfies Q (and_then r f)
and_then-Satisfies (thrown e) f p q = thrown-Satisfies e
and_then-Satisfies (made x) f p q = q x (p.result x refl)

unless_error-Satisfies :
    {P : Context → Type 0} (before : Text) (error : Option Text) (r : Result Context)
    → Satisfies P r
    → Satisfies P (unless_error before error r)
unless_error-Satisfies before none r p = p
unless_error-Satisfies before (some e) r p = thrown-Satisfies (before ++ e)

module _ (env : Environment) (config : SslConfig) (Bounds : Option ℕ → Option ℕ → Type 0) where
  -- What every stage after the versions keeps
  pub record IsLoaded (ctx : Context) : Type 0 where
    pub bounds : Bounds ctx.min_version ctx.max_version
    pub certificate : ctx.certificate ≡ some config.cert_file
    pub private_key : ctx.private_key ≡ some config.key_file

  ca_loaded-IsLoaded :
      (error : Option Text) (ctx : Context)
      → IsLoaded ctx
      → IsLoaded (ca_loaded config.ca_file error ctx)
  ca_loaded-IsLoaded none ctx l = record {
    bounds = l.bounds;
    certificate = l.certificate;
    private_key = l.private_key;
  }
  ca_loaded-IsLoaded (some e) ctx l = l

  load_ca-IsLoaded : (ctx : Context) → IsLoaded ctx → IsLoaded (load_ca env config ctx)
  unfolding load_ca
  load_ca-IsLoaded ctx l =
      if_intro IsLoaded (not (is_empty config.ca_file) && env.exists_and_opens config.ca_file)
        (λ _. ca_loaded-IsLoaded (env.verify_error config.ca_file) ctx l) (λ _. l)

  use_private_key-IsLoaded :
      (ctx : Context)
      → Bounds ctx.min_version ctx.max_version
      → ctx.certificate ≡ some config.cert_file
      → Satisfies IsLoaded (use_private_key env config ctx)
  unfolding use_private_key
  use_private_key-IsLoaded ctx b c =
      unless_error-Satisfies
        (codes "Failed to load private key: " ++ (config.key_file ++ codes " - "))
        (env.private_key_error config.key_file ctx.password)
        (made (load_ca env config (record ctx { private_key = some config.key_file })))
        (made-Satisfies _ (
          load_ca-IsLoaded (record ctx { private_key = some config.key_file })
            (record { bounds = b; certificate = c; private_key = refl })))

  use_certificate-IsLoaded :
      (ctx : Context)
      → Bounds ctx.min_version ctx.max_version
      → Satisfies IsLoaded (use_certificate env config ctx)
  unfolding use_certificate
  use_certificate-IsLoaded ctx b =
      unless_error-Satisfies
        (codes "Failed to load certificate: " ++ (config.cert_file ++ codes " - "))
        (env.certificate_error config.cert_file)
        (use_private_key env config (record ctx { certificate = some config.cert_file }))
        (use_private_key-IsLoaded (record ctx { certificate = some config.cert_file }) b refl)

  -- The password leaves the bounds.
  set_password-bounds :
      (ctx : Context)
      → Bounds ctx.min_version ctx.max_version
      → Bounds (set_password env config ctx).min_version (set_password env config ctx).max_version
  unfolding set_password
  set_password-bounds ctx b =
      if_intro (λ (c : Context). Bounds c.min_version c.max_version) (is_empty config.key_password)
        (λ _. b) (λ _. b)

  -- A test whose failure throws
  guarded :
      {P : Context → Type 0} (b : Bool) (e : Text) (r : Result Context)
      → Satisfies P r
      → Satisfies P (if b then thrown e else r)
  guarded {P = P} b e r p = if_intro (Satisfies P) b (λ _. thrown-Satisfies e) (λ _. p)

  load_certificate-IsLoaded :
      (ctx : Context)
      → Bounds ctx.min_version ctx.max_version
      → Satisfies IsLoaded (load_certificate env config ctx)
  unfolding load_certificate
  load_certificate-IsLoaded ctx b = guarded (is_empty config.cert_file) _ _ (
      guarded (is_empty config.key_file) _ _ (
        guarded (not (env.exists_and_opens config.cert_file)) _ _ (
          guarded (not (env.exists_and_opens config.key_file)) _ _
            (use_certificate-IsLoaded (set_password env config ctx) (set_password-bounds ctx b)))))

  configure_ciphers-IsLoaded :
      (ctx : Context)
      → IsLoaded ctx
      → IsLoaded (record (configure_ciphers env config ctx) { verifies_clients = false })
  unfolding configure_ciphers
  configure_ciphers-IsLoaded ctx l = record {
    bounds = l.bounds;
    certificate = l.certificate;
    private_key = l.private_key;
  }

  set_session_cache-IsLoaded :
      (ctx : Context) → IsLoaded ctx → IsLoaded (set_session_cache env config ctx)
  unfolding set_session_cache
  set_session_cache-IsLoaded ctx l =
      if_intro IsLoaded config.enable_session_cache
        (λ _. record {
          bounds = l.bounds;
          certificate = l.certificate;
          private_key = l.private_key;
        })
        (λ _. l)

  load_dh-IsLoaded : (ctx : Context) → IsLoaded ctx → Satisfies IsLoaded (load_dh env config ctx)
  unfolding load_dh
  load_dh-IsLoaded ctx l =
      if_intro (Satisfies IsLoaded)
        (not (is_empty config.dh_file) && env.exists_and_opens config.dh_file)
        (λ _. unless_error-Satisfies [] (env.dh_error config.dh_file) _ (
          made-Satisfies (record ctx { dh_file = some config.dh_file })
            (record {
              bounds = l.bounds;
              certificate = l.certificate;
              private_key = l.private_key;
            })))
        (λ _. made-Satisfies ctx l)

  pub after_versions-IsLoaded :
      (ctx : Context)
      → Satisfies
          (λ (c : Context). Bounds c.min_version c.max_version)
          (configure_tls_versions config ctx)
      → Satisfies IsLoaded (configure_context env config ctx)
  unfolding configure_context setup_sni_callback
  after_versions-IsLoaded ctx v = and_then-Satisfies _ _ v (λ c b.
      and_then-Satisfies _ _ (load_certificate-IsLoaded c b) (λ c2 l.
        and_then-Satisfies _ _
          (load_dh-IsLoaded _ (set_session_cache-IsLoaded _ (configure_ciphers-IsLoaded c2 l)))
          (λ c4 m. made-Satisfies _ (record {
            bounds = m.bounds;
            certificate = m.certificate;
            private_key = m.private_key;
          }))))
