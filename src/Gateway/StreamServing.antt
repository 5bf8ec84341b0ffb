-- ===== src/Gateway/StreamServing.antt =====
-- `streaming_handler` of src/main.cpp leaves every backend of the balancer known to the other parts.
use mathlib.Core.Path.{subst}
use ntonix.Balancer.{select_backend}
use ntonix.Common.{
  ◌≡◌, ◌||◌, not, Option, none, some, if_intro, option_intro, text_beq, contains, Text, codes,
}
use ntonix.Config.{BackendConfig}
use ntonix.Forwarder.Outcome.{ForwardResult, forward_with_streaming}
use ntonix.Forwarder.Request.{is_streaming_request}
use ntonix.Gateway.{Gateway, Moment}
use ntonix.Gateway.Answers.{chat_target}
use ntonix.Gateway.Effects.{backend_request-KeepsBackends}
use ntonix.Gateway.Pooled.{guard_of, drop_guard, pooled_stream}
use ntonix.Gateway.Serving.{
  IsServed, get_connection-KeepsPools, drop_guard-KeepsPools, IsServed-mono, select_backend-states,
}
use ntonix.Gateway.Streaming.{Handled, not_handled, error_answer, stream_result, streaming_handler}
use ntonix.Http.{FieldsOf, HttpRequest}
use ntonix.Metrics.{backend_request}
use ntonix.Pool.Manager.{manager_get_connection}
use ntonix.Stream.{StreamPipeConfig}

-- The gateway in a value, where there is one, is served.
record Serves {Value : Type 0} (of : Value → Gateway) (r : Option Value) : Type 0 where
  pub serves : (x : Value) → r ≡ some x → IsServed (of x)

none-Serves : {Value : Type 0} (of : Value → Gateway) → Serves of none
none-Serves of = record { serves = λ x e. absurd cc }

some-Serves :
    {Value : Type 0} (of : Value → Gateway) (x : Value) → IsServed (of x) → Serves of (some x)
some-Serves of x l = record { serves = λ y e. subst (λ z. IsServed (of z)) (cc) l }

module _ {Fields : Type 0} ⦃by : FieldsOf Fields⦄ (pipe : StreamPipeConfig) (now : Moment Fields)
    (req : HttpRequest Fields) where
  abbrev of_stream : Gateway × ForwardResult × Text → Gateway
  of_stream (g, result, sent) = g

  abbrev of_handled : Gateway × Handled Fields → Gateway
  of_handled (g, handled) = g

  pooled_stream-Serves :
      (g : Gateway) (backend : BackendConfig)
      → IsServed g
      → Serves of_stream (pooled_stream pipe now g req backend)
  unfolding pooled_stream
  pooled_stream-Serves g backend served =
      let (pools, conn) =
        manager_get_connection now.open_before now.connects now.lent_at g.connection_pool backend in
      option_intro (Serves of_stream)
        (forward_with_streaming g.forwarder_config pipe req backend req.client_ip now.random
          now.forward_latency now.opened (guard_of conn))
        none
        (λ x. some (
          record g {
            connection_pool = drop_guard now.open_after now.returned_at backend x.1.0 pools;
          },
          x.0,
          x.1.1,
        ))
        (λ _. none-Serves of_stream)
        (λ x e.
          let g' = record g {
            connection_pool = drop_guard now.open_after now.returned_at backend x.1.0 pools;
          } in
          some-Serves of_stream (g', x.0, x.1.1)
            (IsServed-mono g g' (λ q h. h)
              (λ q h. drop_guard-KeepsPools now.open_after now.returned_at backend x.1.0 pools q (
                get_connection-KeepsPools now.open_before now.connects now.lent_at g.connection_pool
                  backend q h))
              (λ q h. h) (λ P h. h) served))

  stream_result-IsServed :
      (g : Gateway) (result : ForwardResult) (sent : Text)
      → IsServed g
      → IsServed (of_handled (stream_result req (g, result, sent)))
  unfolding stream_result
  stream_result-IsServed g result sent served =
      if_intro (λ (y : Gateway × Handled Fields). IsServed (of_handled y)) result.is_streaming
        (λ _.
          IsServed-mono g
            (record g {
              metrics =
                  backend_request result.backend_host result.backend_port result.success
                    result.latency g.metrics;
            })
            (λ q h. h) (λ q h. h)
            (backend_request-KeepsBackends result.backend_host result.backend_port result.success
              result.latency g.metrics)
            (λ P h. h) served)
        (λ _. served)

  after_pooled_stream-Serves :
      (g : Gateway) (backend : BackendConfig)
      → IsServed g
      → Serves of_handled (elim (pooled_stream pipe now g req backend) [
        | none ↦ none
        | some r ↦ some (stream_result req r)
      ])
  after_pooled_stream-Serves g backend served =
      option_intro (Serves of_handled) (pooled_stream pipe now g req backend) none
        (λ r. some (stream_result req r)) (λ _. none-Serves of_handled)
        (λ r e.
          some-Serves of_handled (stream_result req r) (
            stream_result-IsServed r.0 r.1 r.2
              ((pooled_stream-Serves g backend served).serves r e)))

  selected-Serves :
      (g : Gateway)
      → IsServed g
      → let (balancer, selection) =
          select_backend g.load_balancer (some g.health_checker) (some now.health_during) in
        let g' = record g { load_balancer = balancer } in
        Serves of_handled (elim selection [
          | none ↦ some (g', error_answer 503 (codes "No healthy backends available"))
          | some s ↦ elim (pooled_stream pipe now g' req s.backend) [
            | none ↦ none
            | some r ↦ some (stream_result req r)
          ]
        ])
  selected-Serves g served =
      let (balancer, selection) =
        select_backend g.load_balancer (some g.health_checker) (some now.health_during) in
      let g' = record g { load_balancer = balancer } in
      let served' : IsServed g' =
        IsServed-mono g g' (λ q h. h) (λ q h. h) (λ q h. h)
          (select_backend-states g.load_balancer (some g.health_checker) (some now.health_during))
          served in
      option_intro (Serves of_handled) selection
        (some (g', error_answer 503 (codes "No healthy backends available")))
        (λ s. elim (pooled_stream pipe now g' req s.backend) [
          | none ↦ none
          | some r ↦ some (stream_result req r)
        ])
        (λ _. some-Serves of_handled _ served')
        (λ s _. after_pooled_stream-Serves g' s.backend served')

  streaming_handler-Serves :
      (g : Gateway) → IsServed g → Serves of_handled (streaming_handler pipe now req g)
  unfolding streaming_handler
  streaming_handler-Serves g served =
      if_intro (Serves of_handled)
        (not (text_beq req.target chat_target) || not (text_beq req.method (codes "POST")))
        (λ _. some-Serves of_handled (g, not_handled) served)
        (λ _.
          if_intro (Serves of_handled) (not (is_streaming_request req))
            (λ _. some-Serves of_handled (g, not_handled) served)
            (λ _.
              if_intro (Serves of_handled)
                (not (contains (codes "application/json") req.content_type))
                (λ _.
                  some-Serves of_handled
                    (g, error_answer 415 (codes "Content-Type must be application/json")) served)
                (λ _. selected-Serves g served)))

  pub streaming_handler-IsServed :
      (g g' : Gateway) (handled : Handled Fields)
      → IsServed g
      → streaming_handler pipe now req g ≡ some (g', handled)
      → IsServed g'
  streaming_handler-IsServed g g' handled served e =
      (streaming_handler-Serves g served).serves (g', handled) e
