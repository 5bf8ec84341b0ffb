-- ===== src/Gateway/Leaks.antt =====
-- Every connection that a request takes from its pool goes back: the pools' counts of lent connections
-- are the same before and after (src/main.cpp, proxy/forwarder.cpp, proxy/connection_pool.cpp).
use ntonix.Common.{ℕ, ◌≡◌, refl, ap, ◌∙◌, Option, none, some, Text, text_eq, inl, inr}
use ntonix.Config.{BackendConfig}
use ntonix.Gateway.{Gateway, Moment}
use ntonix.Gateway.Effects.{request_handler-Effect}
use ntonix.Gateway.Handler.{request_handler}
use ntonix.Gateway.Pooled.{guard_of, give_back, pooled_forward}
use ntonix.Http.{FieldsOf, HttpRequest, HttpResponse}
use ntonix.Forwarder.Outcome.{forward}
use ntonix.Forwarder.Results.{told, forward-release}
use ntonix.Pool.{PooledConnection}
use ntonix.Gateway.Lending.{with_flag, in_use_of, IsCountable, in_use_of-get_found, drop-told}
use ntonix.Pool.Manager.{manager_get_connection}

module _ {Fields : Type 0} ⦃by : FieldsOf Fields⦄ where
  told-forward :
      (now : Moment Fields) (g : Gateway) (req : HttpRequest Fields) (backend : BackendConfig)
      (conn : Option PooledConnection)
      → let (result, guard) =
          forward g.forwarder_config req backend req.client_ip now.random now.forward_latency
            now.exchange
            (guard_of conn) in
        told guard ≡ with_flag result.success conn
  unfolding forward
  told-forward now g req backend none = refl
  told-forward now g req backend (some c) =
      (forward-release g.forwarder_config req backend req.client_ip now.random now.forward_latency
        now.exchange c).0

  in_use_of-pooled_forward :
      (now : Moment Fields) (g : Gateway) (req : HttpRequest Fields) (backend : BackendConfig)
      (q : Text)
      → IsCountable g.connection_pool
      → in_use_of q (pooled_forward now g req backend).0.connection_pool
        ≡ in_use_of q g.connection_pool
  unfolding pooled_forward
  in_use_of-pooled_forward now g req backend q h =
      let (pools, conn) =
        manager_get_connection now.open_before now.connects now.lent_at g.connection_pool backend in
      let (result, guard) =
        forward g.forwarder_config req backend req.client_ip now.random now.forward_latency
          now.exchange (guard_of conn) in
      ap (in_use_of q) (drop-told now.open_after now.returned_at backend guard pools)
      ∙ ap (λ r. in_use_of q (give_back now.open_after now.returned_at backend r pools))
          (told-forward now g req backend conn)
      ∙ in_use_of-get_found now.open_before now.open_after now.connects now.lent_at now.returned_at
          result.success g.connection_pool backend q _ h refl

module _ {Fields : Type 0} ⦃by : FieldsOf Fields⦄ (xxh64 : Text → ℕ) (show_ratio : ℕ × ℕ → Text)
    (now : Moment Fields) (req : HttpRequest Fields) (q : Text) where
  -- A request leaves every pool with as many lent connections as before, whatever the request and its
  -- answer, if no count is about to wrap.
  pub in_use_of-request_handler :
      (g g' : Gateway) (response : HttpResponse)
      → IsCountable g.connection_pool
      → request_handler xxh64 show_ratio now req g ≡ some (g', response)
      → in_use_of q g'.connection_pool ≡ in_use_of q g.connection_pool
  in_use_of-request_handler g g' response h e =
      elim (request_handler-Effect xxh64 show_ratio now req g g' response e).pools [
        | inl same ↦ ap (in_use_of q) same
        | inr (backend, same) ↦
            ap (in_use_of q) same ∙ in_use_of-pooled_forward now g req backend q h
      ]
