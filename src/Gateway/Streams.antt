-- ===== src/Gateway/Streams.antt =====
-- What `streaming_handler` of src/main.cpp leaves of the gateway (with proxy/forwarder.cpp).
use mathlib.Core.Path.{subst}
use ntonix.Balancer.{select_backend}
use ntonix.Common.{
  ◌≡◌, refl, ap, ◌∙◌, ◌||◌, not, Option, none, some, if_intro, option_intro, text_beq, contains,
  Text, codes,
}
use ntonix.Config.{BackendConfig}
use ntonix.Forwarder.Outcome.{ForwardResult, forward_with_streaming}
use ntonix.Forwarder.Request.{is_streaming_request}
use ntonix.Gateway.{Gateway, Moment}
use ntonix.Gateway.Answers.{chat_target}
use ntonix.Gateway.Lending.{IsCountable, in_use_of, in_use_of-get_found, drop-told}
use ntonix.Gateway.Pooled.{guard_of, give_back, drop_guard, pooled_stream}
use ntonix.Gateway.Streaming.{Handled, not_handled, error_answer, stream_result, streaming_handler}
use ntonix.Http.{FieldsOf, HttpRequest}
use ntonix.Pool.Manager.{manager_get_connection}
use ntonix.Stream.{StreamPipeConfig}
use ntonix.Gateway.Telling.{forward_with_streaming-Tells}

-- What does not change when a stream is asked for: the lent connections of a pool, the cache, and the health
pub record IsLeft (q : Text) (g g' : Gateway) : Type 0 where
  pub lent : in_use_of q g'.connection_pool ≡ in_use_of q g.connection_pool
  pub response_cache : g'.response_cache ≡ g.response_cache
  pub health_checker : g'.health_checker ≡ g.health_checker

-- It holds of the gateway in a value, where there is one.
record Leaves {Value : Type 0} (of : Value → Gateway) (q : Text) (g : Gateway) (r : Option Value)
    : Type 0 where
  pub leaves : (x : Value) → r ≡ some x → IsLeft q g (of x)

none-Leaves : {Value : Type 0} (of : Value → Gateway) (q : Text) (g : Gateway) → Leaves of q g none
none-Leaves of q g = record { leaves = λ x e. absurd cc }

some-Leaves :
    {Value : Type 0} (of : Value → Gateway) (q : Text) (g : Gateway) (x : Value)
    → IsLeft q g (of x)
    → Leaves of q g (some x)
some-Leaves of q g x l = record { leaves = λ y e. subst (λ z. IsLeft q g (of z)) (cc) l }

module _ {Fields : Type 0} ⦃by : FieldsOf Fields⦄ (pipe : StreamPipeConfig) (now : Moment Fields)
    (req : HttpRequest Fields) (q : Text) where
  abbrev of_stream : Gateway × ForwardResult × Text → Gateway
  of_stream (g, result, sent) = g

  abbrev of_handled : Gateway × Handled Fields → Gateway
  of_handled (g, handled) = g

  pooled_stream-Leaves :
      (g : Gateway) (backend : BackendConfig)
      → IsCountable g.connection_pool
      → Leaves of_stream q g (pooled_stream pipe now g req backend)
  unfolding pooled_stream
  pooled_stream-Leaves g backend h =
      let (pools, conn) =
        manager_get_connection now.open_before now.connects now.lent_at g.connection_pool backend in
      option_intro (Leaves of_stream q g)
        (forward_with_streaming g.forwarder_config pipe req backend req.client_ip now.random
          now.forward_latency now.opened (guard_of conn))
        none
        (λ x. some (
          record g {
            connection_pool = drop_guard now.open_after now.returned_at backend x.1.0 pools;
          },
          x.0,
          x.1.1,
        ))
        (λ _. none-Leaves of_stream q g)
        (λ x e.
          let (flag, told_so) =
            (forward_with_streaming-Tells pipe now g req backend conn).tells x.0 x.1.0 x.1.1 e in
          some-Leaves of_stream q g _ (record {
            lent =
                ap (in_use_of q) (drop-told now.open_after now.returned_at backend x.1.0 pools)
                ∙ ap (λ r. in_use_of q (give_back now.open_after now.returned_at backend r pools))
                    told_so
                ∙ in_use_of-get_found now.open_before now.open_after now.connects now.lent_at
                    now.returned_at flag g.connection_pool backend q _ h refl;
            response_cache = refl;
            health_checker = refl;
          }))

  stream_result-IsLeft :
      (g g' : Gateway) (result : ForwardResult) (sent : Text)
      → IsLeft q g g'
      → IsLeft q g (of_handled (stream_result req (g', result, sent)))
  unfolding stream_result
  stream_result-IsLeft g g' result sent l =
      if_intro (λ (y : Gateway × Handled Fields). IsLeft q g (of_handled y)) result.is_streaming
        (λ _. record {
          lent = l.lent;
          response_cache = l.response_cache;
          health_checker = l.health_checker;
        })
        (λ _. l)

  same-Leaves : (g : Gateway) (x : Handled Fields) → Leaves of_handled q g (some (g, x))
  same-Leaves g x =
      some-Leaves of_handled q g (g, x)
        (record { lent = refl; response_cache = refl; health_checker = refl })

  after_pooled_stream-Leaves :
      (g g' : Gateway) (backend : BackendConfig)
      → IsCountable g'.connection_pool
      → IsLeft q g g'
      → Leaves of_handled q g (elim (pooled_stream pipe now g' req backend) [
        | none ↦ none
        | some r ↦ some (stream_result req r)
      ])
  after_pooled_stream-Leaves g g' backend h l =
      option_intro (Leaves of_handled q g) (pooled_stream pipe now g' req backend) none
        (λ r. some (stream_result req r)) (λ _. none-Leaves of_handled q g)
        (λ r e.
          let m = (pooled_stream-Leaves g' backend h).leaves r e in
          some-Leaves of_handled q g (stream_result req r) (
            stream_result-IsLeft g r.0 r.1 r.2 (record {
              lent = m.lent ∙ l.lent;
              response_cache = m.response_cache ∙ l.response_cache;
              health_checker = m.health_checker ∙ l.health_checker;
            })))

  selected-Leaves :
      (g : Gateway)
      → IsCountable g.connection_pool
      → let (balancer, selection) =
          select_backend g.load_balancer (some g.health_checker) (some now.health_during) in
        let g' = record g { load_balancer = balancer } in
        Leaves of_handled q g (elim selection [
          | none ↦ some (g', error_answer 503 (codes "No healthy backends available"))
          | some s ↦ elim (pooled_stream pipe now g' req s.backend) [
            | none ↦ none
            | some r ↦ some (stream_result req r)
          ]
        ])
  selected-Leaves g h =
      let (balancer, selection) =
        select_backend g.load_balancer (some g.health_checker) (some now.health_during) in
      let g' = record g { load_balancer = balancer } in
      option_intro (Leaves of_handled q g) selection
        (some (g', error_answer 503 (codes "No healthy backends available")))
        (λ s. elim (pooled_stream pipe now g' req s.backend) [
          | none ↦ none
          | some r ↦ some (stream_result req r)
        ])
        (λ _.
          some-Leaves of_handled q g _
            (record { lent = refl; response_cache = refl; health_checker = refl }))
        (λ s _.
          after_pooled_stream-Leaves g g' s.backend h
            (record { lent = refl; response_cache = refl; health_checker = refl }))

  streaming_handler-Leaves :
      (g : Gateway)
      → IsCountable g.connection_pool
      → Leaves of_handled q g (streaming_handler pipe now req g)
  unfolding streaming_handler
  streaming_handler-Leaves g h =
      if_intro (Leaves of_handled q g)
        (not (text_beq req.target chat_target) || not (text_beq req.method (codes "POST")))
        (λ _. same-Leaves g not_handled)
        (λ _.
          if_intro (Leaves of_handled q g) (not (is_streaming_request req))
            (λ _. same-Leaves g not_handled)
            (λ _.
              if_intro (Leaves of_handled q g)
                (not (contains (codes "application/json") req.content_type))
                (λ _.
                  same-Leaves g (error_answer 415 (codes "Content-Type must be application/json")))
                (λ _. selected-Leaves g h)))

  -- A request that is handled as a stream, or answered in its place, or left to the normal handler, leaves
  -- every pool with as many lent connections as before, if no count is about to wrap, and the cache and the
  -- health checker as they were.
  pub streaming_handler-IsLeft :
      (g g' : Gateway) (handled : Handled Fields)
      → IsCountable g.connection_pool
      → streaming_handler pipe now req g ≡ some (g', handled)
      → IsLeft q g g'
  streaming_handler-IsLeft g g' handled h e = (streaming_handler-Leaves g h).leaves (g', handled) e
