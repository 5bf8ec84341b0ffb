-- ===== src/Gateway/Tests.antt =====
-- The theorems on src/main.cpp at a gateway with one backend, which is asked the same question twice.
use ntonix.Common.{
  ℕ, ◌≡◌, refl, true, false, [], ◌∷◌, Option, none, some, Text, codes, arith, if◌then◌else◌, Bool,
  suc, ◌==◌, text_eq, u64_mod, ◌<◌, add64, mul64, length, ◌≤◌, ◌-◌, ◌/◌,
}
use ntonix.Config.{BackendConfig, Config, default_config}
use ntonix.Forwarder.{BackendRequest}
use ntonix.Forwarder.Outcome.{Exchange, answered, failed, system_error, timeout, opened, not_opened}
use ntonix.Gateway.{Gateway, Moment}
use ntonix.Gateway.Handler.{request_handler}
use ntonix.Gateway.Wiring.{new_gateway, pool_config}
use ntonix.Http.{content_type, HttpRequest, HttpResponse, new_response}
use ntonix.Balancer.{BackendSelection, select_backend}
use ntonix.Cache.Lru.Invariant.{Inv}
use ntonix.Cache.Lru.Nodes.{find_key}
use ntonix.Cache.Lru.{nanoseconds_per_second}
use ntonix.Cache.Lru.Sections.{init-Inv}
use ntonix.Common.Map.{find}
use ntonix.Health.{is_healthy}
use ntonix.Common.Decimal.{to_decimal}
use ntonix.Gateway.Handler.{chat_completions, route_of, bypasses, request_key}
use ntonix.Gateway.Answers.{is_success, x_cache}
use ntonix.Gateway.Repeat.{request_handler-request_handler}
use ntonix.Gateway.Lending.{IsCountable, in_use_of}
use ntonix.Gateway.Leaks.{in_use_of-request_handler}
use ntonix.Metrics.{cache_hit}
use ntonix.Gateway.Streaming.{Handled, not_handled, streaming_handler}
use ntonix.Gateway.Streams.{IsLeft, streaming_handler-IsLeft}
use ntonix.Stream.{StreamPipeConfig, chunk, written}
use ntonix.Pool.{BackendPool, new_pool}
use mathlib.Core.Path.{subst}
use ntonix.Gateway.Runs.{Reach, here, next, requested, selected-IsWired}
use ntonix.Gateway.Wired.{IsWired}
use ntonix.Http.FieldList.{FieldList, field_list}

abbrev backend : BackendConfig
backend = record { host = codes "gpu"; port = 8001; weight = 1 }

abbrev settings : Config
settings = record default_config { backends = backend ∷ [] }

abbrev request : HttpRequest FieldList
request = record {
  method = codes "POST";
  target = codes "/v1/chat/completions";
  body = codes "{}";
  version = 11;
  host = codes "gateway";
  content_type = codes "application/json";
  authorization = [];
  x_request_id = [];
  client_ip = codes "10.0.0.9";
  client_port = 40000;
  raw_request = [];
}

abbrev hash : Text → ℕ
hash s = 7

abbrev ratio : ℕ × ℕ → Text
ratio r = codes "0.5"

abbrev answers : BackendRequest FieldList → Exchange FieldList
answers r = answered (record {
  status = 200;
  body = codes "hi";
  fields = (content_type, codes "application/json") ∷ [];
})

abbrev moment : Moment FieldList
moment = record {
  context_value = 17;
  read_at = 1000;
  locked_at = 1001;
  stored_at = 1010;
  total_latency = 12;
  health_during = (new_gateway settings 0).health_checker;
  open_before = λ socket. true;
  connects = true;
  lent_at = 1002;
  random = (7, 8);
  forward_latency = 9;
  exchange = answers;
  opened = λ r. not_opened (system_error timeout (codes "timeout"));
  open_after = λ socket. true;
  returned_at = 1009;
  snapshot_at = 2000;
}

abbrev first : Option (Gateway × HttpResponse)
first = request_handler hash ratio moment request (new_gateway settings 0)

abbrev gateway_of : Option (Gateway × HttpResponse) → Gateway
gateway_of none = new_gateway settings 0
gateway_of (some (g, response)) = g

abbrev response_of : Option (Gateway × HttpResponse) → HttpResponse
response_of none = new_response
response_of (some (g, response)) = response

first_answered :
    request_handler hash ratio moment request (new_gateway settings 0)
    ≡ some (gateway_of first, response_of first)
unfolding request_handler new_gateway is_healthy to_decimal add64 mul64
first_answered = refl

is_chat : route_of request.target request.method ≡ chat_completions
unfolding route_of
is_chat = refl

not_bypassed : bypasses hash ratio request ≡ false
unfolding bypasses
not_bypassed = refl

enabled : (new_gateway settings 0).response_cache.config.enabled ≡ true
unfolding new_gateway
enabled = refl

is_absent :
    find_key (request_key hash ratio request) (new_gateway settings 0).response_cache.lru_list
    ≡ none
unfolding new_gateway find_key
is_absent = refl

succeeds : is_success (response_of first).status ≡ true
unfolding request_handler new_gateway is_healthy to_decimal add64 mul64
succeeds = refl

fits :
    length (response_of first).body ≤ (new_gateway settings 0).response_cache.config.max_size_bytes
unfolding request_handler new_gateway is_healthy to_decimal add64 mul64
fits = omega arith

-- Ten seconds later
abbrev later : Moment FieldList
later = record moment { read_at = 10000000000 }

young :
    (later.read_at - moment.stored_at) / nanoseconds_per_second
    ≤ (new_gateway settings 0).response_cache.config.ttl
unfolding new_gateway mul64
young = omega arith

cache_is_sound : Inv (new_gateway settings 0).response_cache
unfolding new_gateway mul64
cache_is_sound = init-Inv _ (omega arith)

request_handler-request_handler_example :
    (g'' : Gateway) × (answer : HttpResponse) × (request_handler hash ratio later request
        (gateway_of first)
      ≡ some (g'', answer))
    × (answer.body ≡ (response_of first).body)
    × (answer.content_type ≡ (response_of first).content_type)
    × (answer.status ≡ 200)
    × (find x_cache answer.headers ≡ some (codes "HIT"))
    × (g''.load_balancer ≡ (gateway_of first).load_balancer)
    × (g''.connection_pool ≡ (gateway_of first).connection_pool)
    × (g''.metrics ≡ cache_hit (gateway_of first).metrics)
request_handler-request_handler_example =
    request_handler-request_handler hash ratio moment later request request (new_gateway settings 0)
      (gateway_of first) (response_of first) cache_is_sound enabled is_chat refl refl not_bypassed
      not_bypassed (record { method = refl; target = refl; body = refl }) is_absent first_answered
      succeeds fits young

found_is : {A : Type 0} (b : Bool) (x y : A) → (if b then some x else none) ≡ some y → x ≡ y
found_is true x y e = cc
found_is false x y e = absurd cc

abbrev pool : BackendPool
pool = new_pool backend pool_config

countable : IsCountable (new_gateway settings 0).connection_pool
unfolding new_gateway to_decimal new_pool
countable key p e =
    subst (λ (q : BackendPool). suc q.in_use < u64_mod)
      (found_is (codes "gpu:8001" == key) pool p e) (omega arith)

in_use_of-request_handler_example :
    in_use_of (codes "gpu:8001") (gateway_of first).connection_pool
    ≡ in_use_of (codes "gpu:8001") (new_gateway settings 0).connection_pool
in_use_of-request_handler_example =
    in_use_of-request_handler hash ratio moment request (codes "gpu:8001") (new_gateway settings 0)
      (gateway_of first) (response_of first) countable first_answered

abbrev selection : BackendSelection
selection = record { backend = backend; index = 0 }

after_first : Reach FieldList hash ratio (new_gateway settings 0) (gateway_of first)
after_first = next here (requested moment request _ _ (response_of first) first_answered)

is_selected : (select_backend (gateway_of first).load_balancer none none).1 ≡ some selection
unfolding request_handler new_gateway is_healthy to_decimal add64 mul64
is_selected = refl

selected-IsWired_example :
    IsWired
      (gateway_of first).health_checker
      (gateway_of first).connection_pool
      (gateway_of first).metrics
      backend
selected-IsWired_example =
    selected-IsWired FieldList hash ratio settings 0 (gateway_of first) none none selection
      after_first is_selected

abbrev pipe : StreamPipeConfig
pipe = record {
  buffer_size = 8192;
  read_timeout = 120;
  detect_done_marker = true;
  forward_chunked = true;
}

abbrev asks_for_stream : HttpRequest FieldList
asks_for_stream = record request { body = codes "{\"stream\": true}" }

abbrev streams : Moment FieldList
streams = record moment {
  opened = λ r. opened (record {
    status = 200;
    fields = (content_type, codes "text/event-stream") ∷ [];
    initial_body = [];
    whole = failed (system_error timeout (codes "timeout"));
    header_sent = none;
    initial_write = written;
    turns = chunk (codes "data: [DONE]") written true ∷ [];
    last_write = written;
  });
}

abbrev stream : Option (Gateway × Handled FieldList)
stream = streaming_handler pipe streams asks_for_stream (new_gateway settings 0)

abbrev stream_gateway : Option (Gateway × Handled FieldList) → Gateway
stream_gateway none = new_gateway settings 0
stream_gateway (some (g, handled)) = g

abbrev stream_handled : Option (Gateway × Handled FieldList) → Handled FieldList
stream_handled none = not_handled
stream_handled (some (g, handled)) = handled

stream_ends :
    streaming_handler pipe streams asks_for_stream (new_gateway settings 0)
    ≡ some (stream_gateway stream, stream_handled stream)
unfolding streaming_handler new_gateway is_healthy to_decimal add64 mul64
stream_ends = refl

streaming_handler-IsLeft_example :
    IsLeft (codes "gpu:8001") (new_gateway settings 0) (stream_gateway stream)
streaming_handler-IsLeft_example =
    streaming_handler-IsLeft pipe streams asks_for_stream (codes "gpu:8001")
      (new_gateway settings 0) (stream_gateway stream) (stream_handled stream) countable stream_ends
