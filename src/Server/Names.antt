-- ===== src/Server/Names.antt =====
-- The context that a server name chooses (src/server/ssl_context.cpp: `ssl_sni_callback`).
use mathlib.Core.Path.{subst}
use ntonix.Common.{
  ◌≡◌, ◌∙◌, refl, ap, List, [], ◌∷◌, ◌++◌, Option, none, some, if◌then◌else◌, Bool-cases, inl, inr,
  Text, text_beq,
}
use ntonix.Server.SslContext.{SslConfig, Context, Environment, made, configure_context}
use ntonix.Server.SslManager.{
  or_else, SslContextManager, custom_context, named_context, ssl_sni_callback, add_sni_context,
}

named_context-append :
    (contexts : List (Text × Context)) (name hostname : Text) (ctx : Context)
    → named_context (contexts ++ (name, ctx) ∷ []) hostname
      ≡ or_else
          (named_context contexts hostname)
          (if text_beq name hostname then some ctx else none)
named_context-append [] name hostname ctx = refl
named_context-append ((n, c) ∷ rest) name hostname ctx = elim (Bool-cases (text_beq n hostname)) [
  | inl e ↦ rw e refl
  | inr e ↦ rw e (named_context-append rest name hostname ctx)
]

or_else_assoc : (x y z : Option Context) → or_else x (or_else y z) ≡ or_else (or_else x y) z
or_else_assoc none y z = refl
or_else_assoc (some x) y z = refl

-- The manager with one more context
abbrev with_context : Text → Context → SslContextManager → SslContextManager
with_context name ctx m = record m { sni_contexts = m.sni_contexts ++ (name, ctx) ∷ [] }

ssl_sni_callback-with_context :
    (name hostname : Text) (ctx : Context) (m : SslContextManager)
    → ssl_sni_callback (some hostname) (with_context name ctx m)
      ≡ or_else
          (ssl_sni_callback (some hostname) m)
          (if text_beq name hostname then some ctx else none)
unfolding ssl_sni_callback
ssl_sni_callback-with_context name hostname ctx m =
    ap (or_else (custom_context m.sni_callback hostname))
      (named_context-append m.sni_contexts name hostname ctx)
    ∙ or_else_assoc (custom_context m.sni_callback hostname) (named_context m.sni_contexts hostname)
        (if text_beq name hostname then some ctx else none)

module _ (env : Environment) (new_context : Context) where
  -- A context added for a name serves a client that asks for a host exactly where the name is that host's
  -- and neither the custom callback nor a context added before serves it; what they serve stays as it was.
  pub ssl_sni_callback-add_sni_context :
      (name hostname : Text) (config : SslConfig) (m m' : SslContextManager) (ctx : Context)
      → configure_context env config new_context ≡ made ctx
      → add_sni_context env new_context name config m ≡ made m'
      → ssl_sni_callback (some hostname) m'
        ≡ or_else
            (ssl_sni_callback (some hostname) m)
            (if text_beq name hostname then some ctx else none)
  unfolding add_sni_context
  ssl_sni_callback-add_sni_context name hostname config m m' ctx made_ctx added =
      subst
        (λ (n : SslContextManager).
          ssl_sni_callback (some hostname) n
          ≡ or_else (ssl_sni_callback (some hostname) m)
              (if text_beq name hostname then some ctx else none))
        same (ssl_sni_callback-with_context name hostname ctx m)
    where
      same : with_context name ctx m ≡ m'
      same =
          let e : add_sni_context env new_context name config m ≡ made (with_context name ctx m) =
            rw made_ctx refl in
          cc
