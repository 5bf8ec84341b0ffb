-- ===== src/Server/Connection.antt =====
-- src/server/connection.cpp: `Connection`, which reads requests from one client, has them handled, and
-- writes the answers. It waits for one asynchronous operation at a time.
use ntonix.Common.{
  ℕ, Bool, true, false, ◌&&◌, not, List, [], ◌∷◌, ◌++◌, Option, none, some, if◌then◌else◌, nat_beq,
  length, Text, codes,
}
use ntonix.Gateway.Streaming.{set_headers}
use ntonix.Http.{
  host, content_type, authorization, connection, server, x_request_id, FieldsOf, Request, Response,
  HttpRequest, HttpResponse,
}

-- How a read can fail
pub data ReadError : Type 0 where
  end_of_stream timeout operation_aborted stream_truncated other_error : ReadError
  bad_method bad_target bad_version bad_content_length partial_message : ReadError

pub data ReadOutcome (Fields : Type 0) : Type 0 where
  failed : ReadError → Text → ReadOutcome Fields
  arrived : Request Fields → ReadOutcome Fields

-- What a handler does: it returns, or throws
pub data Answer (Value : Type 0) : Type 0 where
  returned : Value → Answer Value
  threw : Answer Value

-- The two callbacks, over a state that they share
pub record Handlers (State Fields : Type 0) : Type 0 where
  pub handler : State → HttpRequest Fields → State × Answer HttpResponse
  pub streaming_handler : Option (State → HttpRequest Fields → State × Answer Bool)

-- The asynchronous operation that a connection waits for, once it is started
pub data Operation : Type 0 where
  idle reading writing closed : Operation

-- The responses that were given to a write are kept in their order.
pub record Connection (Fields : Type 0) : Type 0 where
  pub request : Request Fields
  pub response : Response Fields
  pub keep_alive : Bool
  pub streaming_handled : Bool
  pub client_ip : Text
  pub client_port : ℕ
  pub operation : Operation
  pub written : List (Response Fields)

-- The errors that are answered with 400
abbrev pub is_malformed : ReadError → Bool
is_malformed bad_method = true
is_malformed bad_target = true
is_malformed bad_version = true
is_malformed bad_content_length = true
is_malformed partial_message = true
is_malformed _ = false

abbrev text_or_empty : Option Text → Text
text_or_empty none = []
text_or_empty (some v) = v

module _ {Fields : Type 0} ⦃by : FieldsOf Fields⦄ where
  -- A message after `= {}`, whose version is 11 by default
  abbrev pub empty_request : Request Fields
  empty_request = record {
    method = [];
    target = [];
    version = 11;
    body = [];
    fields = by.no_fields;
    keep_alive = true;
  }

  abbrev pub empty_response : Response Fields
  empty_response = record { status = 200; version = 11; body = []; fields = by.no_fields }

  unfoldable pub parse_request : Text → ℕ → Request Fields → HttpRequest Fields
  parse_request client_ip client_port req = record {
    method = req.method;
    target = req.target;
    version = req.version;
    host = text_or_empty (by.lookup host req.fields);
    content_type = text_or_empty (by.lookup content_type req.fields);
    authorization = text_or_empty (by.lookup authorization req.fields);
    x_request_id = text_or_empty (by.lookup x_request_id req.fields);
    body = req.body;
    client_ip = client_ip;
    client_port = client_port;
    raw_request = req.fields;
  }

  unfoldable pub build_response : ℕ → HttpResponse → Response Fields
  unfolding set_headers
  build_response version resp = record {
    status = resp.status;
    version = version;
    body = resp.body;
    fields =
        set_headers resp.headers (
          by.set content_type resp.content_type
            (by.set server (codes "NTONIX/0.1.0") by.no_fields));
  }

  unfoldable pub build_error_response : ℕ → ℕ → Text → Response Fields
  build_error_response version status message = record {
    status = status;
    version = version;
    body = codes "{\"error\": \"" ++ message ++ codes "\"}";
    fields =
        by.set content_type (codes "application/json")
          (by.set server (codes "NTONIX/0.1.0") by.no_fields);
  }

  -- `do_write`, up to the write: the Connection field, and the payload
  unfoldable pub finish_response : Bool → Response Fields → Response Fields
  finish_response keep_alive response = record response {
    fields = by.prepare_payload [] (length response.body) (
        by.set connection (if keep_alive then codes "keep-alive" else codes "close")
          response.fields);
  }

  unfoldable pub new_connection : Text → ℕ → Connection Fields
  new_connection client_ip client_port = record {
    request = empty_request;
    response = empty_response;
    keep_alive = false;
    streaming_handled = false;
    client_ip = client_ip;
    client_port = client_port;
    operation = idle;
    written = [];
  }

  unfoldable pub close : Connection Fields → Connection Fields
  close c = record c { operation = closed }

  unfoldable pub do_read : Connection Fields → Connection Fields
  do_read c = record c { request = empty_request; operation = reading }

  unfoldable pub do_write : Connection Fields → Connection Fields
  unfolding finish_response
  do_write c =
      let response = finish_response c.keep_alive c.response in
      record c { response = response; operation = writing; written = c.written ++ response ∷ [] }

  unfoldable pub start : Connection Fields → Connection Fields
  unfolding do_read
  start c = do_read c

  -- A read that failed
  unfoldable pub on_read_error : ReadError → Text → Connection Fields → Connection Fields
  unfolding close do_write build_error_response
  on_read_error code message c =
      if is_malformed code
      then do_write (record c {
        response =
            build_error_response c.request.version 400
              (codes "Malformed HTTP request: " ++ message);
      })
      else close c

  unfoldable pub on_write : Bool → Connection Fields → Connection Fields
  unfolding close do_read
  on_write success c =
      if not success
      then close c
      else if not c.keep_alive
      then close c
      else do_read (record c { response = empty_response })

  module _ {State : Type 0} (handlers : Handlers State Fields) where
    -- The answer of the normal handler, or of the handler of its exceptions
    unfoldable pub respond : ℕ → State × Answer HttpResponse → State × Response Fields
    unfolding build_response build_error_response
    respond version (s, returned resp) = (s, build_response version resp)
    respond version (s, threw) =
        (s, build_error_response version 500 (codes "Internal server error"))

    -- The `try` block: the response to write, or none if the stream was handled
    unfoldable pub after_streaming :
        ℕ → HttpRequest Fields → State × Answer Bool → State × Option (Response Fields)
    unfolding respond
    after_streaming version req (s, returned true) = (s, none)
    after_streaming version req (s, returned false) =
        let (s', response) = respond version (handlers.handler s req) in (s', some response)
    after_streaming version req (s, threw) =
        (s, some (build_error_response version 500 (codes "Internal server error")))

    unfoldable pub handle : ℕ → HttpRequest Fields → State → State × Option (Response Fields)
    unfolding after_streaming
    handle version req s = elim handlers.streaming_handler [
      | none ↦ after_streaming version req (s, returned false)
      | some streaming ↦ after_streaming version req (streaming s req)
    ]

    unfoldable pub conclude : Connection Fields → Option (Response Fields) → Connection Fields
    unfolding close do_write
    conclude c none = close (record c { streaming_handled = true })
    conclude c (some response) =
        do_write (record c { streaming_handled = false; response = response })

    unfoldable pub on_read :
        ReadOutcome Fields → State × Connection Fields → State × Connection Fields
    unfolding on_read_error do_write build_error_response parse_request handle conclude
    on_read (failed code message) (s, c) = (s, on_read_error code message c)
    on_read (arrived request) (s, c) =
        let c' = record c { request = request } in
        let refused = record c' {
          response =
              build_error_response request.version 505
                (codes "Only HTTP/1.0 and HTTP/1.1 are supported");
        } in
        let kept = record c' { keep_alive = request.keep_alive } in
        let (s', response) =
          handle request.version (parse_request c.client_ip c.client_port request) s in
        if not (nat_beq request.version 10) && not (nat_beq request.version 11)
        then (s, do_write refused)
        else (s', conclude kept response)
