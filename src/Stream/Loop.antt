-- ===== src/Stream/Loop.antt =====
-- What a client has received when `forward_stream` (src/proxy/stream_pipe.cpp) returns, whatever the
-- sockets do.
use mathlib.Core.List.{append_assoc, append-nil}
use mathlib.Core.Path.{subst}
use ntonix.Common.{
  ℕ, suc, ◌≡◌, refl, ap, sym, ◌∙◌, Bool, true, ◌||◌, not, List, [], ◌∷◌, ◌++◌, Option, none, some,
  arith, if◌then◌else◌, length, Text, Bool-cases, inl, inr, All, false, if_intro,
}
use ntonix.Stream.Chunks.{dechunk, dechunk-encode, encode, concat, IsNonempty}
use ntonix.Stream.{
  StreamPipeConfig, new_result, contains_done_marker, chunk_bytes, final_bytes, Write, written,
  Turn, Stream, forward_loop, finish_stream, and_finish, stopped_early, after_initial,
  forward_stream,
}
use ntonix.Stream.Sent.{AllWritten, loop-Adds, reads, reads_sent, reads-reads_sent}

All-prefix : (xs ys : List Text) → All IsNonempty (xs ++ ys) → All IsNonempty xs
All-prefix [] ys a = tt
All-prefix (x ∷ xs) ys a = (a.0, All-prefix xs ys a.1)

sent-finish_stream :
    (config : StreamPipeConfig) (s : Stream)
    → (finish_stream config written s).sent ≡ s.sent ++ final_bytes config
unfolding finish_stream
sent-finish_stream config s = refl

fresh-after_initial :
    (config : StreamPipeConfig) (initial : Text) (done : Bool)
    → done ≡ false
    → (after_initial config initial done).result.done_marker_received ≡ false
unfolding after_initial
fresh-after_initial config initial done h = h

sent-after_initial :
    (config : StreamPipeConfig) (initial : Text) (done : Bool)
    → (after_initial config initial done).sent ≡ chunk_bytes config initial
unfolding after_initial
sent-after_initial config initial done = refl

-- The initial body, as the first read
abbrev pub with_initial : Text → List Text → List Text
with_initial [] rest = rest
with_initial (c ∷ initial) rest = (c ∷ initial) ∷ rest

encode-append :
    (config : StreamPipeConfig) (xs ys : List Text)
    → encode config xs ++ encode config ys ≡ encode config (xs ++ ys)
encode-append config [] ys = refl
encode-append config (x ∷ xs) ys =
    append_assoc (chunk_bytes config x) (encode config xs) (encode config ys)
    ∙ ap (◌++◌ (chunk_bytes config x)) (encode-append config xs ys)

-- What the client is to receive: the initial body, if there is one, and the reads before the stream ends;
-- it ends with the initial body where that has the marker or the callback does not go on.
abbrev pub delivered : StreamPipeConfig → Text → Bool → List Turn → List Text
delivered config [] continues turns = reads_sent config turns
delivered config (c ∷ initial) continues turns =
    (c ∷ initial)
    ∷ (if not continues || contains_done_marker config (c ∷ initial)
        then []
        else reads_sent config turns)

-- It is made of the first of what there is.
delivered-prefix :
    (config : StreamPipeConfig) (initial : Text) (continues : Bool) (turns : List Turn)
    → (unsent : List Text) × (with_initial initial (reads turns)
        ≡ delivered config initial continues turns ++ unsent)
delivered-prefix config [] continues turns = reads-reads_sent config turns
delivered-prefix config (c ∷ initial) continues turns =
    if_intro
      (λ (rest : List Text).
        (unsent : List Text) × ((c ∷ initial) ∷ reads turns ≡ ((c ∷ initial) ∷ rest) ++ unsent))
      (not continues || contains_done_marker config (c ∷ initial)) (λ _. (reads turns, refl))
      (λ _. let (unsent, e) = reads-reads_sent config turns in (unsent, ap (◌∷◌ (c ∷ initial)) e))

with_initial-IsNonempty :
    (initial : Text) (rest : List Text)
    → All IsNonempty rest
    → All IsNonempty (with_initial initial rest)
with_initial-IsNonempty [] rest a = a
with_initial-IsNonempty (c ∷ initial) rest a = (refl, a)

module _ (config : StreamPipeConfig) (on : config.forward_chunked ≡ true) where
  -- From a state in which the chunks of `before` were sent, and no marker
  finished :
      (before : List Text) (turns : List Turn) (s s' : Stream) (o : Option Stream)
      → s.sent ≡ encode config before
      → s.result.done_marker_received ≡ false
      → AllWritten turns
      → forward_loop config turns s ≡ o
      → and_finish config written o ≡ some s'
      → s'.sent ≡ encode config (before ++ reads_sent config turns) ++ final_bytes config
  finished before turns s s' none sent fresh ok ran h = cc h
  finished before turns s s' (some r) sent fresh ok ran h =
      let same : finish_stream config written r ≡ s' = ground (arith, h) in
      ap (λ (t : Stream). t.sent) (sym same)
      ∙ sent-finish_stream config r
      ∙ ap (λ b. b ++ final_bytes config)
          (loop-Adds config turns s r ok fresh ran
            ∙ ap (λ b. b ++ encode config (reads_sent config turns)) sent
            ∙ encode-append config before (reads_sent config turns))

  no_initial :
      (write : Write) (continues : Bool) (turns : List Turn)
      → forward_stream config none [] write continues turns written
        ≡ and_finish config written
            (forward_loop config turns (record { result = new_result; sent = [] }))
  unfolding forward_stream
  no_initial write continues turns = refl

  some_initial :
      (c : ℕ) (initial : Text) (continues : Bool) (turns : List Turn)
      → forward_stream config none (c ∷ initial) written continues turns written ≡ (
          if not continues || contains_done_marker config (c ∷ initial)
          then some (
              stopped_early config written
                (after_initial config (c ∷ initial) (contains_done_marker config (c ∷ initial))))
          else and_finish config written (
              forward_loop config turns
                (after_initial config (c ∷ initial) (contains_done_marker config (c ∷ initial)))))
  unfolding forward_stream
  some_initial c initial continues turns = refl

  sent_lem :
      (initial : Text) (continues : Bool) (turns : List Turn) (s : Stream)
      → AllWritten turns
      → forward_stream config none initial written continues turns written ≡ some s
      → s.sent ≡ encode config (delivered config initial continues turns) ++ final_bytes config
  sent_lem [] continues turns s ok h =
      finished [] turns (record { result = new_result; sent = [] }) s _ refl refl ok refl
        (sym (no_initial written continues turns) ∙ h)
  sent_lem (c ∷ initial) continues turns s ok h =
      let first : Text = c ∷ initial in
      let done : Bool = contains_done_marker config first in
      let start : Stream = after_initial config first done in
      let start_sent : start.sent ≡ encode config (first ∷ []) =
        sent-after_initial config first done ∙ sym (append-nil (chunk_bytes config first)) in
      let ran = sym (some_initial c initial continues turns) ∙ h in
      elim (Bool-cases (not continues || done)) [
        | inl stop ↦
            let same : stopped_early config written start ≡ s = ground (arith, ran) in
            rw stop (
              ap (λ (t : Stream). t.sent) (sym same) ∙ ap (λ b. b ++ final_bytes config) start_sent)
        | inr go ↦ rw go (
            finished (first ∷ []) turns start s _ start_sent
              (fresh-after_initial config first done (ground arith)) ok refl (ground (arith, ran)))
      ]

  -- With chunked forwarding, when the header is sent, no write to the client fails and no read is empty:
  -- if `forward_stream` returns, the client decodes the body as a complete one. It is made of exactly the
  -- initial body, if that is not empty, and the reads up to where the stream ends: a read with the marker,
  -- or at which the callback does not go on, is the last one, as is such an initial body, and so is the
  -- read before the backend closes, a read fails or the client is gone. These are the first of all reads.
  pub dechunk-forward_stream :
      (initial : Text) (continues : Bool) (turns : List Turn) (s : Stream)
      → All IsNonempty (reads turns)
      → AllWritten turns
      → forward_stream config none initial written continues turns written ≡ some s
      → let chunks = delivered config initial continues turns in
        (dechunk (suc (length chunks)) s.sent ≡ some (concat chunks))
        × (unsent : List Text) × (with_initial initial (reads turns) ≡ chunks ++ unsent)
  dechunk-forward_stream initial continues turns s a ok h =
      let chunks = delivered config initial continues turns in
      let (unsent, split) = delivered-prefix config initial continues turns in
      (
        ap (dechunk (suc (length chunks))) (sent_lem initial continues turns s ok h)
            ∙ dechunk-encode config chunks on (
                All-prefix chunks unsent
                  (subst (All IsNonempty) split (with_initial-IsNonempty initial (reads turns) a))),
        unsent,
        split,
      )
