-- ===== src/Forwarder/Outcome.antt =====
-- `forward` and `forward_with_streaming` of src/proxy/forwarder.cpp. What the backend's socket does with
-- the request is an outcome; the two clock readings give the latency, which is an argument.
use ntonix.Common.{
  ℕ, Bool, true, false, ◌&&◌, [], ◌++◌, Option, none, some, List, if◌then◌else◌, Text, codes,
}
use ntonix.Config.{BackendConfig}
use ntonix.Pool.Guard.{ConnectionGuard, mark_failed}
use ntonix.Stream.{
  StreamPipeConfig, StreamResult, new_result, Stream, Turn, Write, forward_stream,
  is_streaming_response,
}
use ntonix.Forwarder.{ForwarderConfig, BackendRequest, BackendResponse}
use ntonix.Http.{content_type, transfer_encoding, FieldsOf, HttpRequest, HttpResponse, new_response}
use ntonix.Forwarder.Request.{build_backend_request, is_streaming_request}
use ntonix.Forwarder.Response.{parse_backend_response}

-- The errors that the code tells apart; the rest have `other_error`. A text is the error's message.
pub data ErrorCode : Type 0 where
  timeout connection_refused connection_reset broken_pipe other_error : ErrorCode

pub data Failure : Type 0 where
  system_error : ErrorCode → Text → Failure
  other_exception : Text → Failure

pub record ForwardResult : Type 0 where
  pub success : Bool
  pub response : HttpResponse
  pub error_message : Text
  pub latency : ℕ
  pub backend_host : Text
  pub backend_port : ℕ
  pub is_streaming : Bool
  pub stream_result : StreamResult

abbrev pub new_forward_result : BackendConfig → ForwardResult
new_forward_result backend = record {
  success = false;
  response = new_response;
  error_message = [];
  latency = 0;
  backend_host = backend.host;
  backend_port = backend.port;
  is_streaming = false;
  stream_result = new_result;
}

abbrev error_response : ℕ → Text → HttpResponse
error_response status body = record {
  status = status;
  content_type = codes "application/json";
  body = body;
  headers = [];
}

-- The status and the message that an error code has
unfoldable pub code_status : ErrorCode → ℕ
code_status timeout = 504
code_status connection_refused = 502
code_status connection_reset = 502
code_status broken_pipe = 502
code_status other_error = 502

unfoldable pub code_message : ErrorCode → Text → Text
code_message timeout message = codes "Backend request timed out"
code_message connection_refused message = codes "Backend connection failed: " ++ message
code_message connection_reset message = codes "Backend connection failed: " ++ message
code_message broken_pipe message = codes "Backend connection failed: " ++ message
code_message other_error message = codes "Backend communication error: " ++ message

-- When the pool has no connection
unfoldable pub no_connection : BackendConfig → ℕ → ForwardResult
no_connection backend latency = record (new_forward_result backend) {
  error_message = codes "Failed to get connection to backend";
  response = error_response 502 (codes "{\"error\": \"Failed to connect to backend\"}");
  latency = latency;
}

-- The two handlers of exceptions
unfoldable pub caught : BackendConfig → ℕ → Failure → ForwardResult
unfolding code_status code_message
caught backend latency (system_error code message) = record (new_forward_result backend) {
  error_message = code_message code message;
  response =
      error_response (code_status code)
        (codes "{\"error\": \"" ++ code_message code message ++ codes "\"}");
  latency = latency;
}
caught backend latency (other_exception message) = record (new_forward_result backend) {
  error_message = codes "Unexpected error: " ++ message;
  response = error_response 500 (codes "{\"error\": \"Internal proxy error\"}");
  latency = latency;
}

-- How writing the request and reading the answer end. `forward` reads with the body limit that Boost.Beast
-- sets by itself: a larger body is one of the failures, while the streaming call sets no limit.
pub data Exchange (Fields : Type 0) : Type 0 where
  answered : BackendResponse Fields → Exchange Fields
  failed : Failure → Exchange Fields

-- What the streaming call reads, without a limit on the body: the header, with the body bytes that came
-- with it, then how reading the rest ends, or the events of the stream
pub record Opening (Fields : Type 0) : Type 0 where
  pub status : ℕ
  pub fields : Fields
  pub initial_body : Text
  pub whole : Exchange Fields
  pub header_sent : Option Text
  pub initial_write : Write
  pub turns : List Turn
  pub last_write : Write

pub data Opened (Fields : Type 0) : Type 0 where
  opened : Opening Fields → Opened Fields
  not_opened : Failure → Opened Fields

abbrev pub streamed : BackendConfig → ℕ → Stream → ForwardResult
streamed backend latency s = record (new_forward_result backend) {
  success = s.result.success;
  error_message = if s.result.success then [] else s.result.error_message;
  latency = latency;
  is_streaming = true;
  stream_result = s.result;
}

module _ {Fields : Type 0} ⦃by : FieldsOf Fields⦄ where
  abbrev pub ended :
      BackendConfig → ℕ → ConnectionGuard → Exchange Fields → ForwardResult × ConnectionGuard
  ended backend latency guard (answered response) = (
    record (new_forward_result backend) {
      success = true;
      response = parse_backend_response response;
      latency = latency;
    },
    guard,
  )
  ended backend latency guard (failed failure) = (caught backend latency failure, mark_failed guard)

  -- The result, and the guard with its flag when there is one
  unfoldable pub forward :
      ForwarderConfig
      → HttpRequest Fields
      → BackendConfig
      → Text
      → ℕ × ℕ
      → ℕ
      → (BackendRequest Fields → Exchange Fields)
      → Option ConnectionGuard
      → ForwardResult × Option ConnectionGuard
  unfolding build_backend_request parse_backend_response no_connection caught mark_failed
  forward config request backend client_ip random latency exchange none =
      (no_connection backend latency, none)
  forward config request backend client_ip random latency exchange (some guard) =
      let (result, guard') =
        ended backend latency guard
          (exchange (build_backend_request config request backend client_ip random)) in
      (result, some guard')

  -- After the request is sent: `asked` is what `is_streaming_request` says
  unfoldable pub forward_opened :
      StreamPipeConfig
      → Bool
      → BackendConfig
      → ℕ
      → ConnectionGuard
      → Opened Fields
      → Option (ForwardResult × (Option ConnectionGuard × Text))
  unfolding parse_backend_response caught mark_failed forward_stream is_streaming_response
  forward_opened pipe asked backend latency guard (not_opened failure) =
      some (caught backend latency failure, (some (mark_failed guard), []))
  forward_opened pipe asked backend latency guard (opened o) =
      if asked
        && is_streaming_response o.status (by.lookup content_type o.fields)
            (by.lookup transfer_encoding o.fields)
      then elim (forward_stream pipe o.header_sent o.initial_body o.initial_write true o.turns
          o.last_write) [
            | none ↦ none
            | some s ↦ some (streamed backend latency s, (some (mark_failed guard), s.sent))
          ]
      else let (result, guard') = ended backend latency guard o.whole in
        some (result, (some guard', []))

  -- `forward_with_streaming`, as far as the turns bring the stream to an end; the bytes that the
  -- client received come with the result
  unfoldable pub forward_with_streaming :
      ForwarderConfig
      → StreamPipeConfig
      → HttpRequest Fields
      → BackendConfig
      → Text
      → ℕ × ℕ
      → ℕ
      → (BackendRequest Fields → Opened Fields)
      → Option ConnectionGuard
      → Option (ForwardResult × (Option ConnectionGuard × Text))
  unfolding build_backend_request is_streaming_request no_connection forward_opened
  forward_with_streaming config pipe request backend client_ip random latency exchange none =
      some (no_connection backend latency, (none, []))
  forward_with_streaming config pipe request backend client_ip random latency exchange
        (some guard) =
      forward_opened pipe (is_streaming_request request) backend latency guard
        (exchange (build_backend_request config request backend client_ip random))
