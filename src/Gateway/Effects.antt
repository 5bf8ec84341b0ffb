-- ===== src/Gateway/Effects.antt =====
-- What one request can do to the parts that the requests share (src/main.cpp).
use ntonix.Balancer.{BackendSelection, select_backend}
use ntonix.Cache.Lru.{LruCache, CacheEntry, get}
use ntonix.Common.Map.{find, assign}
use ntonix.Common.{
  ℕ, ◌≡◌, ◌⊎◌, inl, inr, refl, sym, Bool, true, false, Option, none, some, arith, Text, text_eq,
  option_intro, Option-cases,
}
use ntonix.Config.{BackendConfig}
use ntonix.Forwarder.Outcome.{ForwardResult}
use ntonix.Gateway.{Gateway, Moment}
use ntonix.Gateway.Handler.{
  finish_chat, store_answer, answer_with, forward_chat, account, after_lookup, hit, chat,
  request_handler, request_key, bypasses, Route, route_of, serve, health, cache_stats, metrics,
  chat_completions, root, unknown,
}
use ntonix.Gateway.Pooled.{pooled_forward}
use ntonix.Gateway.Wired.{has_entry, has_entry-assign}
use ntonix.Http.{FieldsOf, HttpRequest, HttpResponse}
use ntonix.Logger.Context.{new_context}
use ntonix.Metrics.{
  Metrics, BackendMetrics, cache_hit, cache_miss, backend_request, set_cache_memory, count_request,
}
use ntonix.Metrics
use mathlib.Core.Path.{subst}

-- No backend's counters are lost.
abbrev pub KeepsBackends : Metrics → Metrics → Type 0
KeepsBackends m m' = (q : Text) → has_entry q m.backends ≡ true → has_entry q m'.backends ≡ true

pub backend_request-KeepsBackends :
    (host : Text) (port : ℕ) (success : Bool) (latency : ℕ) (m : Metrics)
    → KeepsBackends m (backend_request host port success latency m)
unfolding backend_request
backend_request-KeepsBackends host port success latency m q h =
    option_intro (λ (x : Metrics). has_entry q x.backends ≡ true)
      (find (Metrics.backend_key host port) m.backends) m
      (λ b. record m {
        backends =
            assign (Metrics.backend_key host port) (count_request success latency b) m.backends;
      })
      (λ e. h)
      (λ b e. ground (
        arith,
        has_entry-assign (Metrics.backend_key host port) q (count_request success latency b)
            m.backends,
      ))

gateway_of :
    {g g' : Gateway} {r r' : HttpResponse}
    → ◌≡◌ {A = Option (Gateway × HttpResponse)} (some (g, r)) (some (g', r'))
    → g ≡ g'
gateway_of e = cc

module _ {Fields : Type 0} ⦃by : FieldsOf Fields⦄ (xxh64 : Text → ℕ) (show_ratio : ℕ × ℕ → Text)
    (now : Moment Fields) (req : HttpRequest Fields) where
  -- At most one call of the balancer and one forwarded call touch the parts; the health checker is left.
  pub record Effect (g g' : Gateway) : Type 0 where
    pub health : g'.health_checker ≡ g.health_checker
    pub balancer :
        (g'.load_balancer ≡ g.load_balancer)
        ⊎ (g'.load_balancer
            ≡ (select_backend g.load_balancer (some g.health_checker) (some now.health_during)).0)
    pub pools :
        (g'.connection_pool ≡ g.connection_pool)
        ⊎ (backend : BackendConfig) × (g'.connection_pool
            ≡ (pooled_forward now g req backend).0.connection_pool)
    pub counters : KeepsBackends g.metrics g'.metrics

  stay : (g : Gateway) → Effect g g
  stay g = record { health = refl; balancer = inl refl; pools = inl refl; counters = λ q h. h }

  finish_chat-shape :
      (id : Text) (bypass : Bool) (g g' : Gateway) (result : ForwardResult)
      (response : HttpResponse)
      → finish_chat xxh64 show_ratio now id bypass req g result ≡ some (g', response)
      → (cache : LruCache) × (g'
          ≡ record (account xxh64 show_ratio now id req result g) { response_cache = cache })
  unfolding finish_chat
  finish_chat-shape id bypass g g' result response e =
      elim (Option-cases (
        store_answer xxh64 show_ratio now bypass (request_key xxh64 show_ratio req) result
          g.response_cache)) [
            | inl n ↦ absurd (ground arith)
            | inr (cache, there) ↦ (cache, ground arith)
          ]

  answer_with-Effect :
      (id : Text) (bypass : Bool) (g g' : Gateway) (response : HttpResponse)
      (selection : Option BackendSelection)
      → let balancer =
          (select_backend g.load_balancer (some g.health_checker) (some now.health_during)).0 in
        answer_with xxh64 show_ratio now id bypass req
            (record g { load_balancer = balancer })
            selection
          ≡ some (g', response)
        → Effect g g'
  unfolding answer_with account pooled_forward
  answer_with-Effect id bypass g g' response none e =
      subst (Effect g) (gateway_of e)
        (record { health = refl; balancer = inr refl; pools = inl refl; counters = λ q h. h })
  answer_with-Effect id bypass g g' response (some s) e =
      let (balancer, selection) =
        select_backend g.load_balancer (some g.health_checker) (some now.health_during) in
      let (g'', result) =
        pooled_forward now (record g { load_balancer = balancer }) req s.backend in
      let (cache, shape) = finish_chat-shape id bypass g'' g' result response e in
      subst (Effect g) (sym shape) (record {
        health = refl;
        balancer = inr refl;
        pools = inr (s.backend, refl);
        counters =
            backend_request-KeepsBackends result.backend_host result.backend_port result.success
              result.latency g.metrics;
      })

  after_lookup-Effect :
      (id : Text) (g g' : Gateway) (response : HttpResponse)
      (o : Option (LruCache × Option CacheEntry))
      → after_lookup xxh64 show_ratio now id req g o ≡ some (g', response)
      → Effect g g'
  unfolding after_lookup forward_chat hit cache_hit cache_miss pooled_forward
  after_lookup-Effect id g g' response none e = cc
  after_lookup-Effect id g g' response (some (cache, some cached)) e =
      subst (Effect g) (gateway_of e)
        (record { health = refl; balancer = inl refl; pools = inl refl; counters = λ q h. h })
  after_lookup-Effect id g g' response (some (cache, none)) e =
      let g1 : Gateway = record g { response_cache = cache; metrics = cache_miss g.metrics } in
      let f =
        answer_with-Effect id false g1 g' response
          (select_backend g.load_balancer (some g.health_checker) (some now.health_during)).1 e in
      record { health = f.health; balancer = f.balancer; pools = f.pools; counters = f.counters }

  -- The three ways that the chat endpoint can take
  chat-cases :
      (id : Text) (g g' : Gateway) (response : HttpResponse)
      → chat xxh64 show_ratio now id req g ≡ some (g', response)
      → (g ≡ g')
        ⊎ ((after_lookup xxh64 show_ratio now id req g
                (get g.response_cache (request_key xxh64 show_ratio req) now.read_at now.locked_at)
              ≡ some (g', response))
            ⊎ (forward_chat xxh64 show_ratio now id (bypasses xxh64 show_ratio req) req g
                ≡ some (g', response)))
  unfolding chat
  chat-cases id g g' response e = ground arith

  chat-Effect :
      (id : Text) (g g' : Gateway) (response : HttpResponse)
      → chat xxh64 show_ratio now id req g ≡ some (g', response)
      → Effect g g'
  unfolding forward_chat
  chat-Effect id g g' response e = elim (chat-cases id g g' response e) [
    | inl same ↦ subst (Effect g) same (stay g)
    | inr (inl e') ↦
        after_lookup-Effect id g g' response
          (get g.response_cache (request_key xxh64 show_ratio req) now.read_at now.locked_at) e'
    | inr (inr e') ↦
        answer_with-Effect id (bypasses xxh64 show_ratio req) g g' response
          (select_backend g.load_balancer (some g.health_checker) (some now.health_during)).1 e'
  ]

  serve-Effect :
      (route : Route) (id : Text) (g g' : Gateway) (response : HttpResponse)
      → serve xxh64 show_ratio route now id req g ≡ some (g', response)
      → Effect g g'
  unfolding serve set_cache_memory
  serve-Effect health id g g' response e = subst (Effect g) (gateway_of e) (stay g)
  serve-Effect cache_stats id g g' response e = subst (Effect g) (gateway_of e) (stay g)
  serve-Effect metrics id g g' response e =
      subst (Effect g) (gateway_of e)
        (record { health = refl; balancer = inl refl; pools = inl refl; counters = λ q h. h })
  serve-Effect chat_completions id g g' response e = chat-Effect id g g' response e
  serve-Effect root id g g' response e = subst (Effect g) (gateway_of e) (stay g)
  serve-Effect unknown id g g' response e = subst (Effect g) (gateway_of e) (stay g)

  pub request_handler-Effect :
      (g g' : Gateway) (response : HttpResponse)
      → request_handler xxh64 show_ratio now req g ≡ some (g', response)
      → Effect g g'
  unfolding request_handler
  request_handler-Effect g g' response e =
      serve-Effect (route_of req.target req.method)
        (new_context req.x_request_id now.context_value).0.request_id g g' response e
