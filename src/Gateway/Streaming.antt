-- ===== src/Gateway/Streaming.antt =====
-- `streaming_handler` of src/main.cpp, for the plain server: what it answers a request that asks for a
-- stream, on the client's own socket. A stream that the turns do not bring to an end gives `none`.
use ntonix.Balancer.{select_backend}
use ntonix.Common.{
  ℕ, false, ◌||◌, not, List, [], ◌∷◌, ◌++◌, Option, none, some, if◌then◌else◌, text_beq, length,
  contains, Text, codes,
}
use ntonix.Forwarder.Outcome.{ForwardResult}
use ntonix.Forwarder.Request.{is_streaming_request}
use ntonix.Gateway.{Gateway, Moment}
use ntonix.Gateway.Answers.{chat_target}
use ntonix.Gateway.Pooled.{pooled_stream}
use ntonix.Http.{FieldsOf, HttpRequest, HttpResponse, Response, content_type, server, field_named}
use ntonix.Logger.{AccessLogEntry}
use ntonix.Metrics.{backend_request}
use ntonix.Stream.{StreamPipeConfig}

-- What the handler did with the client's socket
pub data Handled (Fields : Type 0) : Type 0 where
  not_handled : Handled Fields
  wrote : Response Fields → Handled Fields
  streamed : Text → Handled Fields

module _ {Fields : Type 0} ⦃by : FieldsOf Fields⦄ where
  -- The loop that sets the headers of an answer by their names
  unfoldable pub set_headers : List (Text × Text) → Fields → Fields
  unfolding field_named
  set_headers [] h = h
  set_headers ((name, value) ∷ rest) h = set_headers rest (by.set (field_named name) value h)

  -- A response of HTTP/1.1 that is written at once
  unfoldable pub direct_response : HttpResponse → Response Fields
  unfolding set_headers
  direct_response r = record {
    status = r.status;
    version = 11;
    body = r.body;
    fields = by.prepare_payload [] (length r.body) (
        set_headers r.headers
          (by.set content_type r.content_type (by.set server (codes "NTONIX/0.1.0") by.no_fields)));
  }

  abbrev pub error_answer : ℕ → Text → Handled Fields
  error_answer status message = wrote (
      direct_response (record {
        status = status;
        content_type = codes "application/json";
        body = codes "{\"error\": \"" ++ message ++ codes "\"}";
        headers = [];
      }))

  -- After the forwarder's call
  unfoldable pub stream_result :
      HttpRequest Fields → Gateway × ForwardResult × Text → Gateway × Handled Fields
  unfolding backend_request direct_response
  stream_result req (g, result, sent) =
      let entry : AccessLogEntry = record {
        request_id = req.x_request_id;
        client_ip = req.client_ip;
        method = req.method;
        path = req.target;
        status_code = 200;
        request_size = 0;
        response_size = result.stream_result.bytes_forwarded;
        latency = result.latency;
        cache_hit = false;
        backend_host = result.backend_host;
        backend_port = result.backend_port;
      } in
      if result.is_streaming
      then (
        record g {
          metrics =
              backend_request result.backend_host result.backend_port result.success result.latency
                g.metrics;
          access_log = entry ∷ g.access_log;
        },
        streamed sent,
      )
      else (g, wrote (direct_response result.response))

  unfoldable pub streaming_handler :
      StreamPipeConfig
      → Moment Fields
      → HttpRequest Fields
      → Gateway
      → Option (Gateway × Handled Fields)
  unfolding is_streaming_request select_backend pooled_stream stream_result
  streaming_handler pipe now req g =
      if not (text_beq req.target chat_target) || not (text_beq req.method (codes "POST"))
      then some (g, not_handled)
      else if not (is_streaming_request req)
      then some (g, not_handled)
      else if not (contains (codes "application/json") req.content_type)
      then some (g, error_answer 415 (codes "Content-Type must be application/json"))
      else (let (balancer, selection) =
            select_backend g.load_balancer (some g.health_checker) (some now.health_during) in
          let g' = record g { load_balancer = balancer } in
          elim selection [
            | none ↦ some (g', error_answer 503 (codes "No healthy backends available"))
            | some s ↦ elim (pooled_stream pipe now g' req s.backend) [
              | none ↦ none
              | some r ↦ some (stream_result req r)
            ]
          ])
