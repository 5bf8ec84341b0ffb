-- ===== src/Stream/Sent.antt =====
-- What each turn of the loop of `forward_stream` (src/proxy/stream_pipe.cpp) sends.
use mathlib.Core.List.{append_assoc, append-nil}
use ntonix.Common.{
  ◌≡◌, refl, ap, sym, ◌∙◌, Bool, ◌||◌, not, List, [], ◌∷◌, ◌++◌, Option, none, some, arith,
  if◌then◌else◌, length, Text, Bool-cases, inl, inr, add64, false, if_intro,
}
use ntonix.Stream.Chunks.{encode}
use ntonix.Stream.{
  StreamPipeConfig, contains_done_marker, chunk_bytes, written, broken, write_failed, Turn,
  client_gone, backend_eof, aborted, nothing_read, read_failed, chunk, Stream, forward_loop,
}

-- The data that the backend sends, read by read
abbrev pub reads : List Turn → List Text
reads [] = []
reads (chunk bytes write continues ∷ turns) = bytes ∷ reads turns
reads (client_gone ∷ turns) = reads turns
reads (backend_eof ∷ turns) = reads turns
reads (aborted ∷ turns) = reads turns
reads (nothing_read ∷ turns) = reads turns
reads (read_failed message ∷ turns) = reads turns

-- No write to the client fails.
abbrev pub AllWritten : List Turn → Type 0
AllWritten [] = Unit
AllWritten (chunk bytes written continues ∷ turns) = Unit {0} × AllWritten turns
AllWritten (chunk bytes (broken count message) continues ∷ turns) = ⊥ × AllWritten turns
AllWritten (chunk bytes (write_failed count message) continues ∷ turns) = ⊥ × AllWritten turns
AllWritten (client_gone ∷ turns) = AllWritten turns
AllWritten (backend_eof ∷ turns) = AllWritten turns
AllWritten (aborted ∷ turns) = AllWritten turns
AllWritten (nothing_read ∷ turns) = AllWritten turns
AllWritten (read_failed message ∷ turns) = AllWritten turns

-- The reads that come before the stream ends. It ends after a read that has the marker or at which the
-- callback does not go on, when the backend closes or its read fails, and when the client is gone.
abbrev pub reads_sent : StreamPipeConfig → List Turn → List Text
reads_sent config [] = []
reads_sent config (chunk bytes write continues ∷ turns) =
    let rest = reads_sent config turns in
    bytes ∷ (if not continues || contains_done_marker config bytes then [] else rest)
reads_sent config (nothing_read ∷ turns) = reads_sent config turns
reads_sent config (client_gone ∷ turns) = []
reads_sent config (backend_eof ∷ turns) = []
reads_sent config (aborted ∷ turns) = []
reads_sent config (read_failed message ∷ turns) = []

-- These are the first of the reads.
pub reads-reads_sent :
    (config : StreamPipeConfig) (turns : List Turn)
    → (unsent : List Text) × (reads turns ≡ reads_sent config turns ++ unsent)
reads-reads_sent config [] = ([], refl)
reads-reads_sent config (chunk bytes write continues ∷ turns) =
    if_intro
      (λ (rest : List Text).
        (unsent : List Text) × (bytes ∷ reads turns ≡ (bytes ∷ rest) ++ unsent))
      (not continues || contains_done_marker config bytes) (λ _. (reads turns, refl))
      (λ _. let (unsent, e) = reads-reads_sent config turns in (unsent, ap (◌∷◌ bytes) e))
reads-reads_sent config (nothing_read ∷ turns) = reads-reads_sent config turns
reads-reads_sent config (client_gone ∷ turns) = (reads turns, refl)
reads-reads_sent config (backend_eof ∷ turns) = (reads turns, refl)
reads-reads_sent config (aborted ∷ turns) = (reads turns, refl)
reads-reads_sent config (read_failed message ∷ turns) = (reads turns, refl)

-- What the loop adds to the bytes sent
abbrev pub Adds : StreamPipeConfig → List Text → Stream → Stream → Type 0
Adds config chunks s s' = s'.sent ≡ s.sent ++ encode config chunks

nothing_sent : (config : StreamPipeConfig) (s s' : Stream) → s'.sent ≡ s.sent → Adds config [] s s'
nothing_sent config s s' same = same ∙ sym (append-nil s.sent)

abbrev after_chunk : StreamPipeConfig → Text → Stream → Stream
after_chunk config bytes s = record {
  result = record s.result {
    done_marker_received = s.result.done_marker_received || contains_done_marker config bytes;
    bytes_forwarded = add64 s.result.bytes_forwarded (length bytes);
  };
  sent = s.sent ++ chunk_bytes config bytes;
}

one_sent :
    (config : StreamPipeConfig) (bytes : Text) (rest : List Text) (s s' : Stream)
    → Adds config rest (after_chunk config bytes s) s'
    → Adds config (bytes ∷ rest) s s'
one_sent config bytes rest s s' r =
    r ∙ append_assoc s.sent (chunk_bytes config bytes) (encode config rest)

abbrev sent_of : Stream → Option Stream → Text
sent_of s none = s.sent
sent_of s (some r) = r.sent

module _ (config : StreamPipeConfig) where
  forward_loop-chunk :
      (bytes : Text) (continues : Bool) (turns : List Turn) (s : Stream)
      → forward_loop config (chunk bytes written continues ∷ turns) s ≡ (
          if not continues
          then some (after_chunk config bytes s)
          else if s.result.done_marker_received || contains_done_marker config bytes
          then some (after_chunk config bytes s)
          else forward_loop config turns (after_chunk config bytes s))
  unfolding forward_loop
  forward_loop-chunk bytes continues turns s = refl

  forward_loop-nothing :
      (turns : List Turn) (s : Stream)
      → forward_loop config (nothing_read ∷ turns) s ≡ forward_loop config turns s
  unfolding forward_loop
  forward_loop-nothing turns s = refl

  gone :
      (turns : List Turn) (s : Stream)
      → sent_of s (forward_loop config (client_gone ∷ turns) s) ≡ s.sent
  unfolding forward_loop
  gone turns s = refl

  eof :
      (turns : List Turn) (s : Stream)
      → sent_of s (forward_loop config (backend_eof ∷ turns) s) ≡ s.sent
  unfolding forward_loop
  eof turns s = refl

  abort :
      (turns : List Turn) (s : Stream)
      → sent_of s (forward_loop config (aborted ∷ turns) s) ≡ s.sent
  unfolding forward_loop
  abort turns s = refl

  read_fails :
      (message : Text) (turns : List Turn) (s : Stream)
      → sent_of s (forward_loop config (read_failed message ∷ turns) s) ≡ s.sent
  unfolding forward_loop
  read_fails message turns s = refl

  forward_loop-nil : (s : Stream) → forward_loop config [] s ≡ none
  unfolding forward_loop
  forward_loop-nil s = refl

  stopped_after :
      (bytes : Text) (s s' : Stream)
      → after_chunk config bytes s ≡ s'
      → Adds config [] (after_chunk config bytes s) s'
  stopped_after bytes s s' same =
      nothing_sent config (after_chunk config bytes s) s' (ap (λ (r : Stream). r.sent) (sym same))

  stops :
      (s s' : Stream) (o : Option Stream) → sent_of s o ≡ s.sent → o ≡ some s' → Adds config [] s s'
  stops s s' o same h = nothing_sent config s s' (ap (sent_of s) (sym h) ∙ same)

  -- A chunk that was written: the loop stops after it, or goes on.
  goes_on :
      (bytes : Text) (continues : Bool) (turns : List Turn) (s s' : Stream)
      → s.result.done_marker_received ≡ false
      → (contains_done_marker config bytes ≡ false
          → (r : Stream) → forward_loop config turns (after_chunk config bytes s) ≡ some r
          → Adds config (reads_sent config turns) (after_chunk config bytes s) r)
      → forward_loop config (chunk bytes written continues ∷ turns) s ≡ some s'
      → Adds config
          (if not continues || contains_done_marker config bytes
            then []
            else reads_sent config turns)
          (after_chunk config bytes s)
          s'
  goes_on bytes continues turns s s' fresh more h =
      let h' = sym (forward_loop-chunk bytes continues turns s) ∙ h in
      elim (Bool-cases continues) [
        | inr halted ↦ rw halted (stopped_after bytes s s' (ground arith))
        | inl on ↦ elim (Bool-cases (contains_done_marker config bytes)) [
          | inl done ↦ rw on (rw done (stopped_after bytes s s' (ground arith)))
          | inr running ↦ rw on (rw running (more running s' (ground arith)))
        ]
      ]

  -- When the loop ends, and no marker was seen before it, the client has been sent exactly the chunks of
  -- the reads before the end.
  pub loop-Adds :
      (turns : List Turn) (s s' : Stream)
      → AllWritten turns
      → s.result.done_marker_received ≡ false
      → forward_loop config turns s ≡ some s'
      → Adds config (reads_sent config turns) s s'
  loop-Adds [] s s' ok fresh h = cc (forward_loop-nil s, h)
  loop-Adds (client_gone ∷ turns) s s' ok fresh h = stops s s' _ (gone turns s) h
  loop-Adds (backend_eof ∷ turns) s s' ok fresh h = stops s s' _ (eof turns s) h
  loop-Adds (aborted ∷ turns) s s' ok fresh h = stops s s' _ (abort turns s) h
  loop-Adds (read_failed message ∷ turns) s s' ok fresh h =
      stops s s' _ (read_fails message turns s) h
  loop-Adds (chunk bytes (broken count message) continues ∷ turns) s s' ok fresh h = absurd ok.0
  loop-Adds (chunk bytes (write_failed count message) continues ∷ turns) s s' ok fresh h =
      absurd ok.0
  loop-Adds (chunk bytes written continues ∷ turns) s s' ok fresh h =
      one_sent config bytes
        (if not continues || contains_done_marker config bytes then [] else reads_sent config turns)
        s s'
        (goes_on bytes continues turns s s' fresh
          (λ unmarked r e.
            loop-Adds turns (after_chunk config bytes s) r ok.1 (rw fresh (rw unmarked refl)) e)
          h)
  loop-Adds (nothing_read ∷ turns) s s' ok fresh h =
      loop-Adds turns s s' ok fresh (sym (forward_loop-nothing turns s) ∙ h)
