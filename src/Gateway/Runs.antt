-- ===== src/Gateway/Runs.antt =====
-- The gateway over any history of requests, streams, health checks and reloads (src/main.cpp): every backend that
-- the balancer may select is known to the health checker, the connection pools and the metrics.
use ntonix.Balancer.{BackendSelection, select_backend, usable}
use ntonix.Common.Map.{find, assign}
use ntonix.Common.{
  ℕ, ◌≡◌, inl, inr, Bool, true, List, [], Option, some, arith, Text, text_eq, option_intro,
}
use ntonix.Config.{BackendConfig, Config}
use ntonix.Gateway.Chosen.{AllStates, select_in-IsChosen}
use ntonix.Gateway.Effects.{Effect, request_handler-Effect}
use ntonix.Gateway.Serving.{
  IsServed, KeepsPools, get_connection-KeepsPools, drop_guard-KeepsPools, IsServed-mono,
  select_backend-states,
}
use ntonix.Gateway.StreamServing.{streaming_handler-IsServed}
use ntonix.Gateway.Streaming.{Handled, streaming_handler}
use ntonix.Stream.{StreamPipeConfig}
use ntonix.Gateway.Handler.{request_handler}
use ntonix.Gateway.Pooled.{pooled_forward}
use ntonix.Gateway.Wired.{IsWired, has_entry, has_entry-assign, set_backends-IsWired}
use ntonix.Gateway.Wiring.{new_gateway, reload_backends, health_config, pool_config}
use ntonix.Gateway.{Gateway, Moment}
use ntonix.Health.{HealthChecker, BackendHealth, Notification, handle_check_result, observe, notify}
use ntonix.Health
use ntonix.Metrics
use ntonix.Http.{FieldsOf, HttpRequest, HttpResponse}
use ntonix.Pool.Manager.{ConnectionPoolManager, manager_get_connection}
use ntonix.Pool.Manager

module _ {Fields : Type 0} ⦃by : FieldsOf Fields⦄ where
  pooled_forward-KeepsPools :
      (now : Moment Fields) (g : Gateway) (req : HttpRequest Fields) (backend : BackendConfig)
      → KeepsPools g.connection_pool (pooled_forward now g req backend).0.connection_pool
  unfolding pooled_forward
  pooled_forward-KeepsPools now g req backend q h =
      drop_guard-KeepsPools now.open_after now.returned_at backend _ _ q (
        get_connection-KeepsPools now.open_before now.connects now.lent_at g.connection_pool backend
          q h)

check-KeepsMonitored :
    (h : HealthChecker) (backend : BackendConfig) (success : Bool) (response_time now : ℕ)
    (q : Text)
    → has_entry q h.backends ≡ true
    → has_entry q (handle_check_result h backend success response_time now).0.backends ≡ true
unfolding handle_check_result
check-KeepsMonitored h backend success response_time now q e =
    option_intro (λ (r : HealthChecker × List Notification). has_entry q r.0.backends ≡ true)
      (find (Health.backend_key backend) h.backends) (h, [])
      (λ entry.
        let entry' = observe h.config entry success response_time now in
        (
          record h { backends = assign (Health.backend_key backend) entry' h.backends },
          notify h.state_callbacks backend entry.state entry'.state,
        ))
      (λ e'. e)
      (λ entry e'. ground (
        arith,
        has_entry-assign (Health.backend_key backend) q
            (observe h.config entry success response_time now) h.backends,
      ))

new_gateway-IsServed : (config : Config) (now : ℕ) → IsServed (new_gateway config now)
unfolding new_gateway Health.on_state_change
new_gateway-IsServed config now =
    let h : HealthChecker = Health.init health_config in
    IsServed-mono
      (record (new_gateway config now) {
        health_checker = Health.set_backends h config.backends now;
      })
      (new_gateway config now) (λ q e. e) (λ q e. e) (λ q e. e) (λ P e. e)
      (set_backends-IsWired h (Manager.new_manager pool_config) (Metrics.init now) config.backends
        now)

module _ (Fields : Type 0) ⦃by : FieldsOf Fields⦄ (xxh64 : Text → ℕ)
    (show_ratio : ℕ × ℕ → Text) where
  -- A request of either handler, the result of a health check, or a reload with a new list of backends.
  -- A request that the streaming handler leaves to the other one is a step of each.
  pub data Step : Gateway → Gateway → Type 0 where
    requested :
        (now : Moment Fields) (req : HttpRequest Fields) (g g' : Gateway) (response : HttpResponse)
        → request_handler xxh64 show_ratio now req g ≡ some (g', response)
        → Step g g'
    streamed :
        (pipe : StreamPipeConfig) (now : Moment Fields) (req : HttpRequest Fields) (g g' : Gateway)
        (handled : Handled Fields)
        → streaming_handler pipe now req g ≡ some (g', handled)
        → Step g g'
    checked :
        (backend : BackendConfig) (success : Bool) (response_time now : ℕ) (g : Gateway)
        → Step g (record g {
          health_checker =
              (handle_check_result g.health_checker backend success response_time now).0;
        })
    reloaded :
        (backends : List BackendConfig) (now : ℕ) (g : Gateway)
        → Step g (reload_backends backends now g)

  pub data Reach (start : Gateway) : Gateway → Type 0 where
    here : Reach start start
    next : {g g' : Gateway} → Reach start g → Step g g' → Reach start g'

  pools-Effect :
      (now : Moment Fields) (req : HttpRequest Fields) (g g' : Gateway)
      → Effect xxh64 show_ratio now req g g'
      → KeepsPools g.connection_pool g'.connection_pool
  pools-Effect now req g g' f q h = elim f.pools [
    | inl same ↦ rw same h
    | inr (backend, same) ↦ rw same (pooled_forward-KeepsPools now g req backend q h)
  ]

  states-Effect :
      (now : Moment Fields) (req : HttpRequest Fields) (g g' : Gateway)
      → Effect xxh64 show_ratio now req g g'
      → (P : BackendConfig → Type 0) → AllStates P g.load_balancer.backends
      → AllStates P g'.load_balancer.backends
  states-Effect now req g g' f P h = elim f.balancer [
    | inl same ↦ rw same h
    | inr same ↦
        rw same (
          select_backend-states g.load_balancer (some g.health_checker) (some now.health_during) P
            h)
  ]

  Step-IsServed : {g g' : Gateway} → Step g g' → IsServed g → IsServed g'
  unfolding reload_backends
  Step-IsServed (requested now req g g' response e) served =
      let f = request_handler-Effect xxh64 show_ratio now req g g' response e in
      IsServed-mono g g' (λ q h. rw f.health h) (pools-Effect now req g g' f) f.counters
        (states-Effect now req g g' f) served
  Step-IsServed (streamed pipe now req g g' handled e) served =
      streaming_handler-IsServed pipe now req g g' handled served e
  Step-IsServed (checked backend success response_time now g) served =
      IsServed-mono g
        (record g {
          health_checker =
              (handle_check_result g.health_checker backend success response_time now).0;
        })
        (check-KeepsMonitored g.health_checker backend success response_time now) (λ q h. h)
        (λ q h. h) (λ P h. h) served
  Step-IsServed (reloaded backends now g) served =
      set_backends-IsWired g.health_checker g.connection_pool g.metrics backends now

  Reach-IsServed : {start g : Gateway} → IsServed start → Reach start g → IsServed g
  Reach-IsServed served here = served
  Reach-IsServed served (next r s) = Step-IsServed s (Reach-IsServed served r)

  -- After any history of requests to either handler, streams among them, of health checks and of reloads
  -- that starts with the parts as main sets them up, a backend that the balancer selects is monitored by the health checker, has a connection
  -- pool and has its counters in the metrics, whatever the health checker answers meanwhile.
  pub selected-IsWired :
      (config : Config) (now : ℕ) (g : Gateway) (before during : Option HealthChecker)
      (s : BackendSelection)
      → Reach (new_gateway config now) g
      → (select_backend g.load_balancer before during).1 ≡ some s
      → IsWired g.health_checker g.connection_pool g.metrics s.backend
  unfolding select_backend
  selected-IsWired config now g before during s r e =
      (select_in-IsChosen (IsWired g.health_checker g.connection_pool g.metrics) (usable before)
          (usable during) g.load_balancer.backends
          (Reach-IsServed (new_gateway-IsServed config now) r)).chosen
        s e
