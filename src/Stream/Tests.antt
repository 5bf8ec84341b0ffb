-- ===== src/Stream/Tests.antt =====
-- The theorems on src/proxy/stream_pipe.cpp at a short stream, and a marker that two reads share.
use ntonix.Common.{◌≡◌, refl, true, false, List, [], ◌∷◌, ◌++◌, none, some, Text, codes, add64}
use ntonix.Stream.Chunks.{dechunk, read_size, read_data, concat}
use ntonix.Stream.Loop.{with_initial, dechunk-forward_stream}
use ntonix.Stream.Sent.{reads}
use ntonix.Stream.{
  StreamPipeConfig, contains_done_marker, hex_digits, to_hex, chunk_bytes, final_bytes, written,
  Turn, chunk, backend_eof, nothing_read, Stream, forward_loop, finish_stream, after_initial,
  forward_stream,
}

program : Unit {0}
unfolding add64 contains_done_marker hex_digits to_hex chunk_bytes final_bytes forward_loop
    finish_stream after_initial forward_stream dechunk read_size read_data
program = tt

abbrev config : StreamPipeConfig
config = record {
  buffer_size = 8192;
  read_timeout = 120;
  detect_done_marker = true;
  forward_chunked = true;
}

-- The marker is cut in two by the reads, and the stream goes on to the end of the connection.
abbrev turns : List Turn
turns =
    chunk (codes "data: [DO") written true
    ∷ nothing_read
    ∷ chunk (codes "NE]") written true
    ∷ backend_eof
    ∷ []

abbrev outcome : Stream
outcome = record {
  result = record {
    success = true;
    error_message = [];
    bytes_forwarded = 14;
    client_disconnected = false;
    backend_closed = true;
    done_marker_received = false;
  };
  sent =
      codes "2"
      ++ 13 ∷ 10 ∷ codes "hi"
      ++ 13 ∷ 10 ∷ codes "9"
      ++ 13 ∷ 10 ∷ codes "data: [DO"
      ++ 13 ∷ 10 ∷ codes "3"
      ++ 13 ∷ 10 ∷ codes "NE]"
      ++ 13 ∷ 10 ∷ codes "0"
      ++ 13 ∷ 10 ∷ 13 ∷ 10 ∷ [];
}

outcome_lem : forward_stream config none (codes "hi") written true turns written ≡ some outcome
unfolding program
outcome_lem = refl

dechunk-forward_stream_example :
    let chunks = codes "hi" ∷ codes "data: [DO" ∷ codes "NE]" ∷ [] in
    (dechunk 4 outcome.sent ≡ some (concat chunks))
    × (unsent : List Text) × (with_initial (codes "hi") (reads turns) ≡ chunks ++ unsent)
unfolding program
dechunk-forward_stream_example =
    dechunk-forward_stream config refl (codes "hi") true turns outcome (refl, (refl, tt))
      (tt, (tt, tt)) outcome_lem
