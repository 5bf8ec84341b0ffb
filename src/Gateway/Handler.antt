-- ===== src/Gateway/Handler.antt =====
-- `request_handler` of src/main.cpp, by the endpoints that it serves. The hash function and the printing
-- of a ratio are parameters. A use of a dangling iterator in the cache gives `none`.
use ntonix.Balancer.{BackendSelection, select_backend}
use ntonix.Cache.Key.{CacheKey, generate_cache_key, should_bypass_cache}
use ntonix.Cache.Lru.{LruCache, CacheEntry, get, put, get_stats}
use ntonix.Common.{
  ℕ, Bool, true, false, ◌&&◌, not, [], ◌∷◌, Option, none, some, if◌then◌else◌, text_beq, length,
  contains, Text, codes,
}
use ntonix.Forwarder.Outcome.{ForwardResult}
use ntonix.Gateway.{Gateway, Moment}
use ntonix.Gateway.Pooled.{pooled_forward}
use ntonix.Http.{FieldsOf, HttpRequest, HttpResponse, cache_control}
use ntonix.Logger.{AccessLogEntry}
use ntonix.Logger.Context.{new_context}
use ntonix.Metrics.{cache_hit, cache_miss, backend_request, set_cache_memory, snapshot}
use ntonix.Metrics.Json.{to_json}
use ntonix.Gateway.Answers.{
  chat_target, is_success, json_response, root_text, stats_json, text_or_empty, with_headers,
  x_cache, x_request_id_name,
}

-- The endpoints, and a target or a method that is none of theirs
pub data Route : Type 0 where
  health cache_stats metrics chat_completions root unknown : Route

-- The tests on the target and the method, in their order
unfoldable pub route_of : Text → Text → Route
route_of target method =
    if text_beq target (codes "/health") && text_beq method (codes "GET")
    then health
    else if text_beq target (codes "/cache/stats") && text_beq method (codes "GET")
    then cache_stats
    else if text_beq target (codes "/metrics") && text_beq method (codes "GET")
    then metrics
    else if text_beq target chat_target && text_beq method (codes "POST")
    then chat_completions
    else if text_beq target (codes "/") && text_beq method (codes "GET")
    then root
    else unknown

module _ {Fields : Type 0} ⦃by : FieldsOf Fields⦄ (xxh64 : Text → ℕ)
    (show_ratio : ℕ × ℕ → Text) where
  -- The key of a request
  unfoldable pub request_key : HttpRequest Fields → CacheKey
  unfolding generate_cache_key
  request_key req = generate_cache_key xxh64 req.method req.target req.body

  unfoldable pub bypasses : HttpRequest Fields → Bool
  unfolding should_bypass_cache
  bypasses req = should_bypass_cache (text_or_empty (by.lookup cache_control req.raw_request))

  -- The answer from the cache, with its entry in the access log
  unfoldable pub hit :
      Moment Fields → Text → HttpRequest Fields → CacheEntry → Gateway → Gateway × HttpResponse
  unfolding cache_hit
  hit now id req cached g =
      let entry : AccessLogEntry = record {
        request_id = id;
        client_ip = req.client_ip;
        method = req.method;
        path = req.target;
        status_code = 200;
        request_size = length req.body;
        response_size = length cached.body;
        latency = now.total_latency;
        cache_hit = true;
        backend_host = [];
        backend_port = 0;
      } in
      (
        record g { metrics = cache_hit g.metrics; access_log = entry ∷ g.access_log },
        record {
          status = 200;
          content_type = cached.content_type;
          body = cached.body;
          headers = (x_cache, codes "HIT") ∷ (x_request_id_name, id) ∷ [];
        },
      )

  -- The log entry and the backend's metrics for a forwarded request
  unfoldable pub account :
      Moment Fields → Text → HttpRequest Fields → ForwardResult → Gateway → Gateway
  unfolding backend_request
  account now id req result g =
      let entry : AccessLogEntry = record {
        request_id = id;
        client_ip = req.client_ip;
        method = req.method;
        path = req.target;
        status_code = result.response.status;
        request_size = length req.body;
        response_size = length result.response.body;
        latency = now.total_latency;
        cache_hit = false;
        backend_host = result.backend_host;
        backend_port = result.backend_port;
      } in
      record g {
        metrics =
            backend_request result.backend_host result.backend_port result.success result.latency
              g.metrics;
        access_log = entry ∷ g.access_log;
      }

  -- Stores a successful answer, unless the cache is off or bypassed.
  unfoldable pub store_answer :
      Moment Fields → Bool → CacheKey → ForwardResult → LruCache → Option LruCache
  unfolding put
  store_answer now bypass key result cache =
      if result.success
        && (cache.config.enabled && (not bypass && is_success result.response.status))
      then put cache key result.response.body result.response.content_type now.stored_at
      else some cache

  -- What follows the forwarder's call
  unfoldable pub finish_chat :
      Moment Fields
      → Text
      → Bool
      → HttpRequest Fields
      → Gateway
      → ForwardResult
      → Option (Gateway × HttpResponse)
  unfolding account store_answer request_key
  finish_chat now id bypass req g result =
      elim (store_answer now bypass (request_key req) result g.response_cache) [
        | none ↦ none
        | some cache ↦ some (
          record (account now id req result g) { response_cache = cache },
          with_headers id result.response,
        )
      ]

  -- With the choice of the balancer
  unfoldable pub answer_with :
      Moment Fields
      → Text
      → Bool
      → HttpRequest Fields
      → Gateway
      → Option BackendSelection
      → Option (Gateway × HttpResponse)
  unfolding pooled_forward finish_chat
  answer_with now id bypass req g none = some (
    g,
    record (json_response 503 (codes "{\"error\": \"No healthy backends available\"}")) {
      headers = (x_request_id_name, id) ∷ [];
    },
  )
  answer_with now id bypass req g (some s) =
      let (g', result) = pooled_forward now g req s.backend in
      finish_chat now id bypass req g' result

  -- From the choice of a backend on
  unfoldable pub forward_chat :
      Moment Fields → Text → Bool → HttpRequest Fields → Gateway → Option (Gateway × HttpResponse)
  unfolding select_backend answer_with
  forward_chat now id bypass req g =
      let (balancer, selection) =
        select_backend g.load_balancer (some g.health_checker) (some now.health_during) in
      answer_with now id bypass req (record g { load_balancer = balancer }) selection

  -- What follows the lookup in the cache
  unfoldable pub after_lookup :
      Moment Fields
      → Text
      → HttpRequest Fields
      → Gateway
      → Option (LruCache × Option CacheEntry)
      → Option (Gateway × HttpResponse)
  unfolding cache_miss hit forward_chat
  after_lookup now id req g none = none
  after_lookup now id req g (some (cache, some cached)) =
      some (hit now id req cached (record g { response_cache = cache }))
  after_lookup now id req g (some (cache, none)) =
      forward_chat now id false req
        (record g { response_cache = cache; metrics = cache_miss g.metrics })

  -- The chat endpoint
  unfoldable pub chat :
      Moment Fields → Text → HttpRequest Fields → Gateway → Option (Gateway × HttpResponse)
  unfolding bypasses request_key get after_lookup forward_chat
  chat now id req g =
      if not (contains (codes "application/json") req.content_type)
      then some
          (g, json_response 415 (codes "{\"error\": \"Content-Type must be application/json\"}"))
      else if not (bypasses req) && g.response_cache.config.enabled
      then after_lookup now id req g
          (get g.response_cache (request_key req) now.read_at now.locked_at)
      else forward_chat now id (bypasses req) req g

  -- The answer of an endpoint, with the request's id
  unfoldable pub serve :
      Route → Moment Fields → Text → HttpRequest Fields → Gateway → Option (Gateway × HttpResponse)
  unfolding get_stats stats_json set_cache_memory snapshot to_json chat
  serve health now id req g = some (g, json_response 200 (codes "{\"status\": \"healthy\"}"))
  serve cache_stats now id req g =
      some (g, json_response 200 (stats_json show_ratio g.response_cache))
  serve metrics now id req g =
      let m = set_cache_memory (get_stats g.response_cache).size_bytes g.metrics in
      some (
        record g { metrics = m },
        json_response 200 (to_json show_ratio (snapshot now.snapshot_at m)),
      )
  serve chat_completions now id req g = chat now id req g
  serve root now id req g = some (g, json_response 200 root_text)
  serve unknown now id req g = some (g, json_response 404 (codes "{\"error\": \"Not found\"}"))

  unfoldable pub request_handler :
      Moment Fields → HttpRequest Fields → Gateway → Option (Gateway × HttpResponse)
  unfolding new_context route_of serve
  request_handler now req g =
      serve (route_of req.target req.method) now
        (new_context req.x_request_id now.context_value).0.request_id req g
