-- ===== src/Stream/Marker.antt =====
-- The end marker of an event stream, as `contains_done_marker` (src/proxy/stream_pipe.cpp) looks for it.
use mathlib.Core.List.{append_assoc}
use mathlib.Core.Path.{subst}
use ntonix.Common.Search.{contains_sound, contains_complete}
use ntonix.Common.{
  ◌+◌, ◌≡◌, ◌↔◌, ap, sym, ◌∙◌, true, false, ◌++◌, arith, length, length-append, ltb, Text, codes,
  contains, Bool-cases, inl, inr,
}
use ntonix.Stream.{StreamPipeConfig, contains_done_marker}

abbrev pub HasMarker : Text → Type 0
HasMarker bytes = (a : Text) × (b : Text) × (bytes ≡ a ++ (codes "[DONE]" ++ b))

marker_length : (bytes : Text) → HasMarker bytes → ltb (length bytes) 6 ≡ false
marker_length bytes (a, b, e) =
    let l : length bytes ≡ length a + length (codes "[DONE]" ++ b) =
      ap length e ∙ length-append a (codes "[DONE]" ++ b) in
    ground (arith, l)

marker_bare : (bytes : Text) → HasMarker bytes → contains (codes "[DONE]") bytes ≡ true
marker_bare bytes (a, b, e) =
    subst (λ s. contains (codes "[DONE]") s ≡ true) (sym e) (contains_complete a (codes "[DONE]") b)

marker_found : (bytes : Text) → contains (codes "[DONE]") bytes ≡ true → HasMarker bytes
marker_found bytes h = contains_sound (codes "[DONE]") bytes h

marker_prefixed : (bytes : Text) → contains (codes "data: [DONE]") bytes ≡ true → HasMarker bytes
marker_prefixed bytes h =
    let (a, b, e) = contains_sound (codes "data: [DONE]") bytes h in
    (a ++ codes "data: ", b, e ∙ sym (append_assoc a (codes "data: ") (codes "[DONE]" ++ b)))

marker_sound :
    (config : StreamPipeConfig) (bytes : Text)
    → config.detect_done_marker ≡ true
    → contains_done_marker config bytes ≡ true
    → HasMarker bytes
unfolding contains_done_marker
marker_sound config bytes on h = elim (Bool-cases (contains (codes "data: [DONE]") bytes)) [
  | inl prefixed ↦ marker_prefixed bytes prefixed
  | inr other ↦ marker_found bytes (ground (arith, h, on, other))
]

marker_complete :
    (config : StreamPipeConfig) (bytes : Text)
    → config.detect_done_marker ≡ true
    → HasMarker bytes
    → contains_done_marker config bytes ≡ true
unfolding contains_done_marker
marker_complete config bytes on m = ground (arith, on, marker_length bytes m, marker_bare bytes m)

-- With detection on, the marker is seen exactly in the reads that contain its text, with or without the
-- prefix before it.
pub contains_done_marker_iff :
    (config : StreamPipeConfig) (bytes : Text)
    → config.detect_done_marker ≡ true
    → (contains_done_marker config bytes ≡ true) ↔ HasMarker bytes
contains_done_marker_iff config bytes on =
    (marker_sound config bytes on, marker_complete config bytes on)
