-- ===== src/Gateway/Repeat.antt =====
-- A chat request that was answered is answered again from the cache (src/main.cpp, cache/lru_cache.cpp).
use ntonix.Cache.Lru.Invariant.{Inv}
use ntonix.Cache.Lru.Nodes.{find_key}
use ntonix.Cache.Lru.{get, count_miss, count_hit, hit_result, new_entry, nanoseconds_per_second}
use ntonix.Common.{
  ℕ, ◌-◌, ◌/◌, ◌≤◌, ◌≡◌, refl, sym, ap, ◌∙◌, true, false, none, some, length, contains, Text, codes,
  text_eq,
}
use ntonix.Common.Map.{find}
use ntonix.Gateway.{Gateway, Moment}
use ntonix.Gateway.Handler.{
  request_key, bypasses, hit, after_lookup, chat_completions, route_of, request_handler,
}
use ntonix.Gateway.Answers.{is_success, x_cache}
use ntonix.Http.{FieldsOf, HttpRequest, HttpResponse}
use ntonix.Logger.Context.{new_context}
use ntonix.Metrics.{cache_hit}
use ntonix.Gateway.Storing.{chat_found, count_miss-Inv, get_after_put, put-chat, serve-chat}

-- The same request as far as the cache is concerned, from any client
pub record IsSameRequest {Fields : Type 0} (req req' : HttpRequest Fields) : Type 0 where
  pub method : req'.method ≡ req.method
  pub target : req'.target ≡ req.target
  pub body : req'.body ≡ req.body

same_route :
    {Fields : Type 0} (req req' : HttpRequest Fields)
    → IsSameRequest req req'
    → route_of req.target req.method ≡ chat_completions
    → route_of req'.target req'.method ≡ chat_completions
same_route req req' same routed = rw (same.method, same.target) routed

module _ {Fields : Type 0} ⦃by : FieldsOf Fields⦄ (xxh64 : Text → ℕ)
    (show_ratio : ℕ × ℕ → Text) where
  same_key :
      (req req' : HttpRequest Fields)
      → IsSameRequest req req'
      → request_key xxh64 show_ratio req' ≡ request_key xxh64 show_ratio req
  unfolding request_key
  same_key req req' same = rw (same.method, same.target, same.body) refl

module _ {Fields : Type 0} ⦃by : FieldsOf Fields⦄ (xxh64 : Text → ℕ) (show_ratio : ℕ × ℕ → Text)
    (now now' : Moment Fields) (req req' : HttpRequest Fields) (g g' : Gateway)
    (response : HttpResponse) where
  -- Let the cache be consistent and enabled, and two chat requests have the same method, target and body and
  -- a JSON content type, neither of them bypassing the cache. If the first is not in the cache, and is
  -- answered with a status of 200 to 299 and a body within the limit, and the second is looked up within the
  -- time to live, then the second is answered: with the body and the content type of the first answer, status
  -- 200 and X-Cache: HIT. Its balancer and pools stay as they are, and its metrics count a hit.
  pub request_handler-request_handler :
      Inv g.response_cache
      → g.response_cache.config.enabled ≡ true
      → route_of req.target req.method ≡ chat_completions
      → contains (codes "application/json") req.content_type ≡ true
      → contains (codes "application/json") req'.content_type ≡ true
      → bypasses xxh64 show_ratio req ≡ false
      → bypasses xxh64 show_ratio req' ≡ false
      → IsSameRequest req req'
      → find_key (request_key xxh64 show_ratio req) g.response_cache.lru_list ≡ none
      → request_handler xxh64 show_ratio now req g ≡ some (g', response)
      → is_success response.status ≡ true
      → length response.body ≤ g.response_cache.config.max_size_bytes
      → (now'.read_at - now.stored_at) / nanoseconds_per_second ≤ g.response_cache.config.ttl
      → (g'' : Gateway) × (answer : HttpResponse) × (request_handler xxh64 show_ratio now' req' g'
          ≡ some (g'', answer))
        × (answer.body ≡ response.body)
        × (answer.content_type ≡ response.content_type)
        × (answer.status ≡ 200)
        × (find x_cache answer.headers ≡ some (codes "HIT"))
        × (g''.load_balancer ≡ g'.load_balancer)
        × (g''.connection_pool ≡ g'.connection_pool)
        × (g''.metrics ≡ cache_hit g'.metrics)
  unfolding request_handler after_lookup hit hit_result new_entry
  request_handler-request_handler v on routed json json' no_bypass no_bypass' same absent e success
        fits young =
      let id = (new_context req.x_request_id now.context_value).0.request_id in
      let id' = (new_context req'.x_request_id now'.context_value).0.request_id in
      let stored =
        put-chat xxh64 show_ratio now req id g g' response v on json no_bypass absent success
          (sym (serve-chat xxh64 show_ratio now req id g _ routed) ∙ e) in
      let key = request_key xxh64 show_ratio req in
      let (found, on') =
        get_after_put (count_miss g.response_cache) g'.response_cache
          (count_miss-Inv g.response_cache v) key response.body response.content_type now.stored_at
          now'.read_at now'.locked_at on fits stored young in
      let cached =
        hit_result now'.read_at (new_entry response.body response.content_type now.stored_at) in
      let answered =
        chat_found xxh64 show_ratio now' req' id' g' (count_hit g'.response_cache, some cached) on'
          json' no_bypass'
          (ap (λ k. get g'.response_cache k now'.read_at now'.locked_at)
              (same_key xxh64 show_ratio req req' same)
            ∙ found) in
      let (g'', answer) =
        hit xxh64 show_ratio now' id' req' cached
          (record g' { response_cache = count_hit g'.response_cache }) in
      (
        g'',
        answer,
        serve-chat xxh64 show_ratio now' req' id' g' _ (same_route req req' same routed) ∙ answered,
        refl,
        refl,
        refl,
        refl,
        refl,
        refl,
        refl,
      )
