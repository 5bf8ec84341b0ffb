-- ===== src/Stream.antt =====
-- src/proxy/stream_pipe.{hpp,cpp}: `StreamPipe`, which forwards a streamed answer. What the sockets do is
-- a list of turns, one for each round of the loop; the bytes that reach the client are part of the state.
pub mod Chunks
pub mod Sent
pub mod Loop
pub mod Marker
mod Tests
use ntonix.Common.{
  ℕ, zero, suc, ◌+◌, ◌-◌, ◌/◌, ◌%◌, Bool, true, false, ◌&&◌, ◌||◌, not, List, [], ◌∷◌, ◌++◌, Option,
  none, some, if◌then◌else◌, ltb, nat_beq, length, is_empty, contains, Text, codes, add64,
}

pub record StreamPipeConfig : Type 0 where
  pub buffer_size : ℕ
  pub read_timeout : ℕ
  pub detect_done_marker : Bool
  pub forward_chunked : Bool

pub record StreamResult : Type 0 where
  pub success : Bool
  pub error_message : Text
  pub bytes_forwarded : ℕ
  pub client_disconnected : Bool
  pub backend_closed : Bool
  pub done_marker_received : Bool

abbrev pub new_result : StreamResult
new_result = record {
  success = false;
  error_message = [];
  bytes_forwarded = 0;
  client_disconnected = false;
  backend_closed = false;
  done_marker_received = false;
}

-- The status, and the values of the two headers that are looked at
abbrev value_contains : Text → Option Text → Bool
value_contains part none = false
value_contains part (some value) = contains part value

unfoldable pub is_streaming_response : ℕ → Option Text → Option Text → Bool
is_streaming_response status content_type transfer_encoding =
    if not (nat_beq status 200)
    then false
    else if value_contains (codes "text/event-stream") content_type
    then true
    else if value_contains (codes "chunked") transfer_encoding
    then not (value_contains (codes "application/json") content_type)
    else false

unfoldable pub contains_done_marker : StreamPipeConfig → Text → Bool
contains_done_marker config bytes =
    if not config.detect_done_marker || ltb (length bytes) 6
    then false
    else contains (codes "data: [DONE]") bytes || contains (codes "[DONE]") bytes

-- `%zx`
abbrev pub hex_digit : ℕ → ℕ
hex_digit d = if ltb d 10 then b'0' + d else b'a' + (d - 10)

unfoldable pub hex_digits : ℕ → ℕ → Text
hex_digits zero n = []
hex_digits (suc fuel) n =
    let rest = hex_digits fuel (n / 16) in
    if ltb n 16 then hex_digit n ∷ [] else rest ++ hex_digit (n % 16) ∷ []

unfoldable pub to_hex : ℕ → Text
unfolding hex_digits
to_hex n = hex_digits (suc n) n

abbrev pub crlf : Text
crlf = 13 ∷ 10 ∷ []

-- What `write_chunk_to_client` writes
unfoldable pub chunk_bytes : StreamPipeConfig → Text → Text
unfolding to_hex
chunk_bytes config bytes =
    if nat_beq (length bytes) 0
    then []
    else if config.forward_chunked
    then to_hex (length bytes) ++ (crlf ++ (bytes ++ crlf))
    else bytes

-- What `write_final_chunk` writes
unfoldable pub final_bytes : StreamPipeConfig → Text
final_bytes config = if config.forward_chunked then b'0' ∷ crlf ++ crlf else []

-- How a write to the client ends; a write that fails has sent so many bytes before.
pub data Write : Type 0 where
  written : Write
  broken write_failed : ℕ → Text → Write

abbrev take : ℕ → Text → Text
take zero s = []
take (suc n) [] = []
take (suc n) (c ∷ s) = c ∷ take n s

-- The bytes of a write that reach the client
abbrev pub sent_by : Write → Text → Text
sent_by written bytes = bytes
sent_by (broken count message) bytes = take count bytes
sent_by (write_failed count message) bytes = take count bytes

-- One round of the loop: what the client and the backend do, and whether the progress callback goes on
pub data Turn : Type 0 where
  client_gone backend_eof aborted nothing_read : Turn
  read_failed : Text → Turn
  chunk : Text → Write → Bool → Turn

pub record Stream : Type 0 where
  pub result : StreamResult
  pub sent : Text

-- The loop: the state in which it stops, if the turns bring it to an end
unfoldable pub forward_loop : StreamPipeConfig → List Turn → Stream → Option Stream
unfolding contains_done_marker chunk_bytes
forward_loop config [] s = none
forward_loop config (client_gone ∷ turns) s =
    some (record s { result = record s.result { client_disconnected = true } })
forward_loop config (backend_eof ∷ turns) s =
    some (record s { result = record s.result { backend_closed = true } })
forward_loop config (aborted ∷ turns) s = some s
forward_loop config (nothing_read ∷ turns) s = forward_loop config turns s
forward_loop config (read_failed message ∷ turns) s = some (record s {
  result = record s.result { error_message = codes "Backend read error: " ++ message };
})
forward_loop config (chunk bytes (broken count message) continues ∷ turns) s = some (record {
  result = record s.result {
    done_marker_received = s.result.done_marker_received || contains_done_marker config bytes;
    client_disconnected = true;
  };
  sent = s.sent ++ take count (chunk_bytes config bytes);
})
forward_loop config (chunk bytes (write_failed count message) continues ∷ turns) s = some (record {
  result = record s.result {
    done_marker_received = s.result.done_marker_received || contains_done_marker config bytes;
    error_message = codes "Client write error: " ++ message;
  };
  sent = s.sent ++ take count (chunk_bytes config bytes);
})
forward_loop config (chunk bytes written continues ∷ turns) s =
    let done = s.result.done_marker_received || contains_done_marker config bytes in
    let s' : Stream = record {
      result = record s.result {
        done_marker_received = done;
        bytes_forwarded = add64 s.result.bytes_forwarded (length bytes);
      };
      sent = s.sent ++ chunk_bytes config bytes;
    } in
    let rest = forward_loop config turns s' in
    if not continues then some s' else if done then some s' else rest

-- What follows the loop
unfoldable pub finish_stream : StreamPipeConfig → Write → Stream → Stream
unfolding final_bytes
finish_stream config last s = record {
  result = record s.result {
    success =
        is_empty s.result.error_message
        || (s.result.client_disconnected
            || (s.result.backend_closed || s.result.done_marker_received));
  };
  sent = s.sent ++ sent_by last (final_bytes config);
}

abbrev pub and_finish : StreamPipeConfig → Write → Option Stream → Option Stream
and_finish config last none = none
and_finish config last (some s) = some (finish_stream config last s)

abbrev pub stopped_early : StreamPipeConfig → Write → Stream → Stream
stopped_early config last s = record {
  result = record s.result { success = true };
  sent = s.sent ++ sent_by last (final_bytes config);
}

unfoldable pub after_initial : StreamPipeConfig → Text → Bool → Stream
unfolding chunk_bytes
after_initial config initial done = record {
  result = record new_result { bytes_forwarded = length initial; done_marker_received = done };
  sent = chunk_bytes config initial;
}

-- `forward_stream` from after the response header, which is sent with `header_sent`, or fails with a
-- message. The initial body comes with how its write ends and what the progress callback says; last is
-- how the write of the final chunk ends, which is not looked at.
unfoldable pub forward_stream :
    StreamPipeConfig → Option Text → Text → Write → Bool → List Turn → Write → Option Stream
unfolding forward_loop finish_stream after_initial
forward_stream config (some message) initial write continues turns last = some (record {
  result = record new_result {
    error_message = codes "Failed to write response header: " ++ message;
  };
  sent = [];
})
forward_stream config none initial write continues turns last =
    if is_empty initial
    then and_finish config last
        (forward_loop config turns (record { result = new_result; sent = [] }))
    else elim write [
      | broken count message ↦ some (record {
        result = record new_result {
          error_message = codes "Failed to write initial body: " ++ message;
        };
        sent = take count (chunk_bytes config initial);
      })
      | write_failed count message ↦ some (record {
        result = record new_result {
          error_message = codes "Failed to write initial body: " ++ message;
        };
        sent = take count (chunk_bytes config initial);
      })
      | written ↦
          let done = contains_done_marker config initial in
          if not continues || done
          then some (stopped_early config last (after_initial config initial done))
          else and_finish config last
              (forward_loop config turns (after_initial config initial done))
    ]
