-- ===== src/Server/Versions.antt =====
-- What a context allows that `configure_context` made (src/server/ssl_context.cpp).
use ntonix.Common.{ℕ, ◌≡◌, ◌≤◌, Bool, true, ◌&&◌, Option, none, some, arith, if_intro, leb}
use ntonix.Server.SslContext.{
  SslConfig, Context, Environment, made, tls1_2_version, tls1_3_version, configure_tls_versions,
  configure_context,
}
use ntonix.Server.Loading.{Satisfies, after_versions-IsLoaded, made-Satisfies, thrown-Satisfies}

-- Whether a version lies within the bounds of a context
abbrev pub within : Option ℕ → Option ℕ → ℕ → Bool
within none none v = true
within none (some most) v = leb v most
within (some least) none v = leb least v
within (some least) (some most) v = leb least v && leb v most

within-least : (least : ℕ) (max : Option ℕ) (v : ℕ) → within (some least) max v ≡ true → least ≤ v
within-least least none v h = ground arith
within-least least (some most) v h = ground arith

within-most : (min : Option ℕ) (most v : ℕ) → within min (some most) v ≡ true → v ≤ most
within-most none most v h = ground arith
within-most (some least) most v h = ground arith

-- What a configuration enables
pub record IsEnabled (config : SslConfig) (v : ℕ) : Type 0 where
  pub least : tls1_2_version ≤ v
  pub at_1_2 : v ≡ tls1_2_version → config.enable_tls_1_2 ≡ true
  pub at_1_3 : v ≡ tls1_3_version → config.enable_tls_1_3 ≡ true

abbrev AreEnabled : SslConfig → Option ℕ → Option ℕ → Type 0
AreEnabled config min max = (v : ℕ) → within min max v ≡ true → IsEnabled config v

abbrev AtMost12 : Option ℕ → Option ℕ → Type 0
AtMost12 min max = (v : ℕ) → within min max v ≡ true → v ≤ tls1_2_version

abbrev TlsBounds : (Option ℕ → Option ℕ → Type 0) → Context → Type 0
TlsBounds Bounds c = Bounds c.min_version c.max_version

configure_tls_versions-AreEnabled :
    (config : SslConfig) (ctx : Context)
    → Satisfies (TlsBounds (AreEnabled config)) (configure_tls_versions config ctx)
unfolding configure_tls_versions
configure_tls_versions-AreEnabled config ctx =
    if_intro (Satisfies (TlsBounds (AreEnabled config)))
      (config.enable_tls_1_2 && config.enable_tls_1_3)
      (λ e. made-Satisfies _ (λ v w. record {
        least = within-least tls1_2_version ctx.max_version v w;
        at_1_2 = λ _. ground arith;
        at_1_3 = λ _. ground arith;
      }))
      (λ _.
        if_intro (Satisfies (TlsBounds (AreEnabled config))) config.enable_tls_1_3
          (λ e. made-Satisfies _ (λ v w.
            let l = within-least tls1_3_version ctx.max_version v w in
            record { least = omega arith; at_1_2 = λ d. absurd (omega arith); at_1_3 = λ _. e }))
          (λ _.
            if_intro (Satisfies (TlsBounds (AreEnabled config))) config.enable_tls_1_2
              (λ e. made-Satisfies _ (λ v w.
                let l = within-most (some tls1_2_version) tls1_2_version v w in
                record {
                  least = within-least tls1_2_version (some tls1_2_version) v w;
                  at_1_2 = λ _. e;
                  at_1_3 = λ d. absurd (omega arith);
                }))
              (λ _. thrown-Satisfies _)))

configure_tls_versions-AtMost12 :
    (config : SslConfig) (ctx : Context)
    → ctx.max_version ≡ some tls1_2_version
    → Satisfies (TlsBounds AtMost12) (configure_tls_versions config ctx)
unfolding configure_tls_versions
configure_tls_versions-AtMost12 config ctx m =
    if_intro (Satisfies (TlsBounds AtMost12)) (config.enable_tls_1_2 && config.enable_tls_1_3)
      (λ _. made-Satisfies _ (kept (some tls1_2_version)))
      (λ _.
        if_intro (Satisfies (TlsBounds AtMost12)) config.enable_tls_1_3
          (λ _. made-Satisfies _ (kept (some tls1_3_version)))
          (λ _.
            if_intro (Satisfies (TlsBounds AtMost12)) config.enable_tls_1_2
              (λ _. made-Satisfies _ (within-most (some tls1_2_version) tls1_2_version))
              (λ _. thrown-Satisfies _)))
  where
    kept : (min : Option ℕ) → AtMost12 min ctx.max_version
    kept min = rw m (within-most min tls1_2_version)

module _ (env : Environment) (config : SslConfig) (ctx ctx' : Context) where
  -- A context that `configure_context` has made, from any context, has the configured certificate and key,
  -- and a version that its bounds allow is TLS 1.2 or later, and is TLS 1.2 or 1.3 only where the
  -- configuration enables that one.
  pub configure_context-IsEnabled :
      (v : ℕ)
      → configure_context env config ctx ≡ made ctx'
      → within ctx'.min_version ctx'.max_version v ≡ true
      → (ctx'.certificate ≡ some config.cert_file)
        × (ctx'.private_key ≡ some config.key_file)
        × IsEnabled config v
  configure_context-IsEnabled v h w =
      let l =
        (after_versions-IsLoaded env config (AreEnabled config) ctx
            (configure_tls_versions-AreEnabled config ctx)).result
          ctx' h in
      (l.certificate, l.private_key, l.bounds v w)

  -- From a context whose latest version is TLS 1.2, whatever the configuration enables, no version after
  -- TLS 1.2 is allowed by the context that `configure_context` makes.
  pub configure_context-AtMost12 :
      (v : ℕ)
      → ctx.max_version ≡ some tls1_2_version
      → configure_context env config ctx ≡ made ctx'
      → within ctx'.min_version ctx'.max_version v ≡ true
      → v ≤ tls1_2_version
  configure_context-AtMost12 v m h w =
      ((after_versions-IsLoaded env config AtMost12 ctx
            (configure_tls_versions-AtMost12 config ctx m)).result
          ctx' h).bounds
        v w
