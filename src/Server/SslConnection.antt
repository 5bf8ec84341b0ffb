-- ===== src/Server/SslConnection.antt =====
-- src/server/ssl_connection.cpp: `SslConnection`, the connection over TLS. Its `parse_request`,
-- `build_response` and `build_error_response` have the text of those of `Connection`, which are used here.
use ntonix.Common.{
  ℕ, Bool, true, false, ◌&&◌, not, List, [], ◌∷◌, ◌++◌, Option, none, some, if◌then◌else◌, nat_beq,
  Text, codes,
}
use ntonix.Http.{FieldsOf, Request, Response}
use ntonix.Server.Connection.{
  ReadError, stream_truncated, is_malformed, ReadOutcome, failed, arrived, Handlers, empty_request,
  empty_response, parse_request, build_error_response, finish_response, handle,
}

pub data Operation : Type 0 where
  idle handshaking reading writing shutting_down closed : Operation

pub record SslConnection (Fields : Type 0) : Type 0 where
  pub request : Request Fields
  pub response : Response Fields
  pub keep_alive : Bool
  pub streaming_handled : Bool
  pub client_ip : Text
  pub client_port : ℕ
  pub operation : Operation
  pub written : List (Response Fields)

abbrev is_truncated : ReadError → Bool
is_truncated stream_truncated = true
is_truncated _ = false

module _ {Fields : Type 0} ⦃by : FieldsOf Fields⦄ where
  unfoldable pub new_ssl_connection : Text → ℕ → SslConnection Fields
  new_ssl_connection client_ip client_port = record {
    request = empty_request;
    response = empty_response;
    keep_alive = false;
    streaming_handled = false;
    client_ip = client_ip;
    client_port = client_port;
    operation = idle;
    written = [];
  }

  unfoldable pub do_handshake : SslConnection Fields → SslConnection Fields
  do_handshake c = record c { operation = handshaking }

  unfoldable pub do_read : SslConnection Fields → SslConnection Fields
  do_read c = record c { request = empty_request; operation = reading }

  unfoldable pub do_write : SslConnection Fields → SslConnection Fields
  unfolding finish_response
  do_write c =
      let response = finish_response c.keep_alive c.response in
      record c { response = response; operation = writing; written = c.written ++ response ∷ [] }

  unfoldable pub do_shutdown : SslConnection Fields → SslConnection Fields
  do_shutdown c = record c { operation = shutting_down }

  -- After an error the connection waits for nothing, and so is let go.
  unfoldable pub on_handshake : Bool → SslConnection Fields → SslConnection Fields
  unfolding do_read
  on_handshake success c = if success then do_read c else record c { operation = closed }

  unfoldable pub on_shutdown : SslConnection Fields → SslConnection Fields
  on_shutdown c = record c { operation = closed }

  unfoldable pub on_read_error : ReadError → Text → SslConnection Fields → SslConnection Fields
  unfolding do_shutdown do_write build_error_response
  on_read_error code message c =
      if is_truncated code
      then record c { operation = closed }
      else if is_malformed code
      then do_write (record c {
        response =
            build_error_response c.request.version 400
              (codes "Malformed HTTP request: " ++ message);
      })
      else do_shutdown c

  unfoldable pub on_write : Bool → SslConnection Fields → SslConnection Fields
  unfolding do_shutdown do_read
  on_write success c =
      if not success
      then do_shutdown c
      else if not c.keep_alive
      then do_shutdown c
      else do_read (record c { response = empty_response })

  unfoldable pub conclude : SslConnection Fields → Option (Response Fields) → SslConnection Fields
  unfolding do_shutdown do_write
  conclude c none = do_shutdown (record c { streaming_handled = true })
  conclude c (some response) =
      do_write (record c { streaming_handled = false; response = response })

  module _ {State : Type 0} (handlers : Handlers State Fields) where
    unfoldable pub on_read :
        ReadOutcome Fields → State × SslConnection Fields → State × SslConnection Fields
    unfolding on_read_error do_write build_error_response parse_request handle conclude
    on_read (failed code message) (s, c) = (s, on_read_error code message c)
    on_read (arrived request) (s, c) =
        let c' = record c { request = request } in
        let refused = record c' {
          response =
              build_error_response request.version 505
                (codes "Only HTTP/1.0 and HTTP/1.1 are supported");
        } in
        let kept = record c' { keep_alive = request.keep_alive } in
        let (s', response) =
          handle handlers request.version (parse_request c.client_ip c.client_port request) s in
        if not (nat_beq request.version 10) && not (nat_beq request.version 11)
        then (s, do_write refused)
        else (s', conclude kept response)
