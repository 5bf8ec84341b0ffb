-- ===== src/Gateway/Storing.antt =====
-- A chat request that the cache has nothing for, and whose answer is stored (src/main.cpp,
-- src/cache/lru_cache.cpp).
use ntonix.Cache.Lru.Contents.{get-put, put_front}
use ntonix.Cache.Lru.Ideal.{ideal_read, get_read-ideal}
use ntonix.Cache.Lru.Invariant.{Inv}
use ntonix.Cache.Lru.Nodes.{find_key}
use ntonix.Cache.Lru.{
  LruCache, CacheEntry, get, put, count_miss, count_hit, hit_result, new_entry,
  nanoseconds_per_second,
}
use ntonix.Cache.Key.{CacheKey}
use mathlib.Core.Path.{subst}
use ntonix.Balancer.{select_backend, BackendSelection}
use ntonix.Common.{
  ℕ, ◌-◌, ◌/◌, ◌≤◌, ◌≡◌, ◌⊎◌, inl, inr, refl, sym, ap, ◌∙◌, true, false, Option, none, some, arith,
  length, contains, Text, codes, text_eq,
}
use ntonix.Config.{BackendConfig}
use ntonix.Forwarder.Outcome.{ForwardResult, forward, no_connection}
use ntonix.Forwarder.Results.{IsGatewayError, forward-release}
use ntonix.Gateway.{Gateway, Moment}
use ntonix.Gateway.Handler.{
  request_key, bypasses, store_answer, finish_chat, answer_with, forward_chat, after_lookup, chat,
  Route, chat_completions, serve,
}
use ntonix.Gateway.Answers.{is_success}
use ntonix.Gateway.Pooled.{guard_of, pooled_forward}
use ntonix.Http.{FieldsOf, HttpRequest, HttpResponse}
use ntonix.Metrics.{cache_miss}
use ntonix.Pool.{PooledConnection}
use ntonix.Pool.Manager.{manager_get_connection}

some_injective : {c c' : LruCache} → ◌≡◌ {A = Option LruCache} (some c) (some c') → c ≡ c'
some_injective e = cc

get_missing :
    (c : LruCache) (v : Inv c) (key : CacheKey) (now later : ℕ)
    → c.config.enabled ≡ true
    → find_key key c.lru_list ≡ none
    → get c key now later ≡ some (count_miss c, none)
unfolding get ideal_read
get_missing c v key now later on absent = ground (arith, get_read-ideal c v key now)

pub count_miss-Inv : (c : LruCache) → Inv c → Inv (count_miss c)
unfolding count_miss
count_miss-Inv c v = record { consistent = v.consistent; bounded = v.bounded; limit = v.limit }

-- A put that ended in a cache is found there by the next lookup.
pub get_after_put :
    (c c' : LruCache) (v : Inv c) (key : CacheKey) (body content_type : Text) (now now' later : ℕ)
    → c.config.enabled ≡ true
    → length body ≤ c.config.max_size_bytes
    → put c key body content_type now ≡ some c'
    → (now' - now) / nanoseconds_per_second ≤ c.config.ttl
    → (get c' key now' later
        ≡ some (count_hit c', some (hit_result now' (new_entry body content_type now))))
      × (c'.config.enabled ≡ true)
get_after_put c c' v key body content_type now now' later on fits stored young =
    let (d, p, found) = get-put c v key body content_type now on fits now' later young in
    let (d', n, rest, p', front, at_key, entry, same, v') =
      put_front c v key body content_type now on fits in
    let e : d ≡ c' = some_injective (sym p ∙ stored) in
    let e' : d' ≡ c' = some_injective (sym p' ∙ stored) in
    (
      subst
          (λ x.
            get x key now' later
            ≡ some (count_hit x, some (hit_result now' (new_entry body content_type now))))
          e found,
      subst (λ x. x.config.enabled ≡ true) e' (ap (λ x. x.enabled) same ∙ on),
    )

module _ {Fields : Type 0} ⦃by : FieldsOf Fields⦄ where
  -- A forwarded request succeeds, or its status tells of an error.
  forward-outcome :
      (now : Moment Fields) (g : Gateway) (req : HttpRequest Fields) (backend : BackendConfig)
      (conn : Option PooledConnection)
      → let result =
          (forward g.forwarder_config req backend req.client_ip now.random now.forward_latency
            now.exchange
            (guard_of conn)).0 in
        (result.success ≡ true) ⊎ IsGatewayError result
  unfolding forward no_connection
  forward-outcome now g req backend none = inr (inr (inl refl))
  forward-outcome now g req backend (some c) =
      (forward-release g.forwarder_config req backend req.client_ip now.random now.forward_latency
        now.exchange c).1

  pooled_forward-outcome :
      (now : Moment Fields) (g : Gateway) (req : HttpRequest Fields) (backend : BackendConfig)
      → let (g', result) = pooled_forward now g req backend in
        ((result.success ≡ true) ⊎ IsGatewayError result) × (g'.response_cache ≡ g.response_cache)
  unfolding pooled_forward
  pooled_forward-outcome now g req backend =
      let (pools, conn) =
        manager_get_connection now.open_before now.connects now.lent_at g.connection_pool backend in
      (forward-outcome now g req backend conn, refl)

module _ {Fields : Type 0} ⦃by : FieldsOf Fields⦄ (xxh64 : Text → ℕ) (show_ratio : ℕ × ℕ → Text)
    (now : Moment Fields) (req : HttpRequest Fields) where
  put-finish_chat :
      (id : Text) (g g' : Gateway) (result : ForwardResult) (response : HttpResponse)
      → (result.success ≡ true) ⊎ IsGatewayError result
      → g.response_cache.config.enabled ≡ true
      → is_success response.status ≡ true
      → finish_chat xxh64 show_ratio now id false req g result ≡ some (g', response)
      → put g.response_cache
          (request_key xxh64 show_ratio req)
          response.body
          response.content_type
          now.stored_at
        ≡ some g'.response_cache
  unfolding finish_chat store_answer
  put-finish_chat id g g' result response ok on success e = ground arith

  put-answer_with :
      (id : Text) (g g' : Gateway) (response : HttpResponse) (selection : Option BackendSelection)
      → g.response_cache.config.enabled ≡ true
      → is_success response.status ≡ true
      → answer_with xxh64 show_ratio now id false req g selection ≡ some (g', response)
      → put g.response_cache
          (request_key xxh64 show_ratio req)
          response.body
          response.content_type
          now.stored_at
        ≡ some g'.response_cache
  unfolding answer_with
  put-answer_with id g g' response none on success e = absurd (ground arith)
  put-answer_with id g g' response (some s) on success e =
      let (ok, same) = pooled_forward-outcome now g req s.backend in
      let (g'', result) = pooled_forward now g req s.backend in
      put-finish_chat id g'' g' result response ok on success e

  put-forward_chat :
      (id : Text) (g g' : Gateway) (response : HttpResponse)
      → g.response_cache.config.enabled ≡ true
      → is_success response.status ≡ true
      → forward_chat xxh64 show_ratio now id false req g ≡ some (g', response)
      → put g.response_cache
          (request_key xxh64 show_ratio req)
          response.body
          response.content_type
          now.stored_at
        ≡ some g'.response_cache
  unfolding forward_chat
  put-forward_chat id g g' response on success e =
      let (balancer, selection) =
        select_backend g.load_balancer (some g.health_checker) (some now.health_during) in
      put-answer_with id (record g { load_balancer = balancer }) g' response selection on success e

  pub serve-chat :
      (id : Text) (g : Gateway) (route : Route)
      → route ≡ chat_completions
      → serve xxh64 show_ratio route now id req g ≡ chat xxh64 show_ratio now id req g
  unfolding serve
  serve-chat id g route e = rw e refl

  pub chat_found :
      (id : Text) (g : Gateway) (r : LruCache × Option CacheEntry)
      → g.response_cache.config.enabled ≡ true
      → contains (codes "application/json") req.content_type ≡ true
      → bypasses xxh64 show_ratio req ≡ false
      → get g.response_cache (request_key xxh64 show_ratio req) now.read_at now.locked_at ≡ some r
      → chat xxh64 show_ratio now id req g ≡ after_lookup xxh64 show_ratio now id req g (some r)
  unfolding chat
  chat_found id g r on json no_bypass found = ground arith

  -- A request for which the cache has nothing is forwarded, and a successful answer is stored.
  pub put-chat :
      (id : Text) (g g' : Gateway) (response : HttpResponse)
      → Inv g.response_cache
      → g.response_cache.config.enabled ≡ true
      → contains (codes "application/json") req.content_type ≡ true
      → bypasses xxh64 show_ratio req ≡ false
      → find_key (request_key xxh64 show_ratio req) g.response_cache.lru_list ≡ none
      → is_success response.status ≡ true
      → chat xxh64 show_ratio now id req g ≡ some (g', response)
      → put
          (count_miss g.response_cache)
          (request_key xxh64 show_ratio req)
          response.body
          response.content_type
          now.stored_at
        ≡ some g'.response_cache
  unfolding after_lookup count_miss
  put-chat id g g' response v on json no_bypass absent success e =
      let missed =
        get_missing g.response_cache v (request_key xxh64 show_ratio req) now.read_at now.locked_at
          on absent in
      put-forward_chat id
        (record g { response_cache = count_miss g.response_cache; metrics = cache_miss g.metrics })
        g' response on success (sym (chat_found id g _ on json no_bypass missed) ∙ e)
