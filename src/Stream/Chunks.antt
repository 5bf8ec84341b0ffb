-- ===== src/Stream/Chunks.antt =====
-- The chunked transfer encoding that `StreamPipe` writes (src/proxy/stream_pipe.cpp), against a decoder
-- of it, as the client has.
use ntonix.Common.{
  ℕ, zero, suc, ◌+◌, ◌-◌, ◌*◌, ◌/◌, ◌%◌, ◌≡◌, ◌<◌, refl, ap, ◌∙◌, true, false, ◌&&◌, List, [], ◌∷◌,
  ◌++◌, Option, none, some, arith, if◌then◌else◌, ltb, leb, nat_beq, length, is_empty, Text,
  Bool-cases, inl, inr, All,
}
use mathlib.Core.List.{append_assoc}
use ntonix.Stream.{StreamPipeConfig, hex_digit, hex_digits, to_hex, crlf, chunk_bytes, final_bytes}

abbrev digit_value : ℕ → Option ℕ
digit_value c =
    if leb b'0' c && leb c b'9'
    then some (c - b'0')
    else if leb b'a' c && leb c b'f'
    then some (c - b'a' + 10)
    else none

-- The number before a line end, with what follows
unfoldable pub read_size : ℕ → Text → Option (ℕ × Text)
read_size acc [] = none
read_size acc (c ∷ s) = elim (digit_value c) [
  | some d ↦ read_size (acc * 16 + d) s
  | none ↦ elim s [
    | [] ↦ none
    | d ∷ t ↦ if nat_beq c 13 && nat_beq d 10 then some (acc, t) else none
  ]
]

-- The first n bytes, with what follows the line end after them
unfoldable pub read_data : ℕ → Text → Option (Text × Text)
read_data zero [] = none
read_data zero (c ∷ []) = none
read_data zero (c ∷ d ∷ s) = if nat_beq c 13 && nat_beq d 10 then some ([], s) else none
read_data (suc n) [] = none
read_data (suc n) (c ∷ s) = elim (read_data n s) [
  | none ↦ none
  | some (bytes, rest) ↦ some (c ∷ bytes, rest)
]

hex_digit_lem : (d : ℕ) → d < 16 → digit_value (hex_digit d) ≡ some d
hex_digit_lem d h = ground arith

hex_digits-small : (fuel n : ℕ) → ltb n 16 ≡ true → hex_digits (suc fuel) n ≡ hex_digit n ∷ []
unfolding hex_digits
hex_digits-small fuel n h = rw h refl

hex_digits-large :
    (fuel n : ℕ)
    → ltb n 16 ≡ false
    → hex_digits (suc fuel) n ≡ hex_digits fuel (n / 16) ++ hex_digit (n % 16) ∷ []
unfolding hex_digits
hex_digits-large fuel n h = rw h refl

read_size_digit :
    (acc d : ℕ) (s : Text) → d < 16 → read_size acc (hex_digit d ∷ s) ≡ read_size (acc * 16 + d) s
unfolding read_size
read_size_digit acc d s h = rw (hex_digit_lem d h, read_size)

-- Reading the digits of n from an accumulator a shifts a by their number.
read_size-digits :
    (fuel n : ℕ) (s : Text) → n < fuel → read_size 0 (hex_digits fuel n ++ s) ≡ read_size n s
read_size-digits zero n s h = absurd (omega arith)
read_size-digits (suc fuel) n s h = elim (Bool-cases (ltb n 16)) [
  | inl small ↦
      rw (hex_digits-small fuel n small)
        (read_size_digit 0 n s (ground arith) ∙ ap (λ m. read_size m s) (omega arith))
  | inr large ↦ rw (hex_digits-large fuel n large) (
      ap (read_size 0) (append_assoc (hex_digits fuel (n / 16)) (hex_digit (n % 16) ∷ []) s)
      ∙ read_size-digits fuel (n / 16) (hex_digit (n % 16) ∷ s) (ground arith)
      ∙ read_size_digit (n / 16) (n % 16) s (omega arith)
      ∙ ap (λ m. read_size m s) (omega arith))
]

read_size-to_hex : (n : ℕ) (s : Text) → read_size 0 (to_hex n ++ (crlf ++ s)) ≡ some (n, s)
read_size-to_hex n s =
    to_hex_lem ∙ read_size-digits (suc n) n (crlf ++ s) (omega arith) ∙ line_end n s
  where
    to_hex_lem :
        read_size 0 (to_hex n ++ (crlf ++ s)) ≡ read_size 0 (hex_digits (suc n) n ++ (crlf ++ s))
    to_hex_lem = unfold to_hex in refl

    line_end : (n : ℕ) (s : Text) → read_size n (crlf ++ s) ≡ some (n, s)
    line_end n s = unfold read_size in refl

read_data-append :
    (bytes s : Text) → read_data (length bytes) (bytes ++ (crlf ++ s)) ≡ some (bytes, s)
unfolding read_data
read_data-append [] s = refl
read_data-append (c ∷ bytes) s = rw (read_data-append bytes s) refl

-- A decoder for chunked bodies: the data of the chunks up to the empty one, which ends the body
abbrev add_bytes : Text → Option Text → Option Text
add_bytes bytes none = none
add_bytes bytes (some more) = some (bytes ++ more)

unfoldable pub dechunk : ℕ → Text → Option Text
unfolding read_size read_data
dechunk zero s = none
dechunk (suc fuel) s = elim (read_size 0 s) [
  | none ↦ none
  | some (size, rest) ↦ elim (read_data size rest) [
    | none ↦ none
    | some (bytes, more) ↦
        let decoded = dechunk fuel more in
        if nat_beq size 0 then some [] else add_bytes bytes decoded
  ]
]

-- The chunks of a list of texts, and their data
abbrev pub encode : StreamPipeConfig → List Text → Text
encode config [] = []
encode config (bytes ∷ rest) = chunk_bytes config bytes ++ encode config rest

abbrev pub concat : List Text → Text
concat [] = []
concat (bytes ∷ rest) = bytes ++ concat rest

abbrev pub IsNonempty : Text → Type 0
IsNonempty bytes = is_empty bytes ≡ false

dechunk-step :
    (fuel size : ℕ) (s rest bytes more : Text)
    → read_size 0 s ≡ some (size, rest)
    → read_data size rest ≡ some (bytes, more)
    → dechunk (suc fuel) s
      ≡ (if nat_beq size 0 then some [] else add_bytes bytes (dechunk fuel more))
unfolding dechunk
dechunk-step fuel size s rest bytes more h k = rw (h, dechunk) (rw (k, dechunk))

chunk_bytes_lem :
    (config : StreamPipeConfig) (bytes : Text)
    → config.forward_chunked ≡ true
    → IsNonempty bytes
    → chunk_bytes config bytes ≡ to_hex (length bytes) ++ (crlf ++ (bytes ++ crlf))
unfolding chunk_bytes
chunk_bytes_lem config [] on h = cc h
chunk_bytes_lem config (c ∷ bytes) on h = rw on (ground arith)

final_bytes_lem :
    (config : StreamPipeConfig)
    → config.forward_chunked ≡ true
    → final_bytes config ≡ to_hex 0 ++ (crlf ++ crlf)
unfolding final_bytes to_hex hex_digits
final_bytes_lem config on = rw on refl

regroup :
    (size bytes chunks end : Text)
    → ((size ++ (crlf ++ (bytes ++ crlf))) ++ chunks) ++ end
      ≡ size ++ (crlf ++ (bytes ++ (crlf ++ (chunks ++ end))))
regroup size bytes chunks end =
    append_assoc (size ++ (crlf ++ (bytes ++ crlf))) chunks end
    ∙ append_assoc size (crlf ++ (bytes ++ crlf)) (chunks ++ end)
    ∙ ap (λ s. size ++ (crlf ++ s)) (append_assoc bytes crlf (chunks ++ end))

length_nonempty : (bytes : Text) → IsNonempty bytes → nat_beq (length bytes) 0 ≡ false
length_nonempty [] h = cc h
length_nonempty (c ∷ bytes) h = ground arith

-- The client decodes what was forwarded.
pub dechunk-encode :
    (config : StreamPipeConfig) (chunks : List Text)
    → config.forward_chunked ≡ true
    → All IsNonempty chunks
    → dechunk (suc (length chunks)) (encode config chunks ++ final_bytes config)
      ≡ some (concat chunks)
dechunk-encode config [] on a = rw (final_bytes_lem config on) (
    dechunk-step 0 0 (to_hex 0 ++ (crlf ++ crlf)) crlf [] [] (read_size-to_hex 0 crlf)
      (read_data-append [] []))
dechunk-encode config (bytes ∷ chunks) on a =
    let more : Text = encode config chunks ++ final_bytes config in
    let split : (chunk_bytes config bytes ++ encode config chunks) ++ final_bytes config
        ≡ to_hex (length bytes) ++ (crlf ++ (bytes ++ (crlf ++ more))) =
      ap (λ chunk. (chunk ++ encode config chunks) ++ final_bytes config)
        (chunk_bytes_lem config bytes on a.0)
      ∙ regroup (to_hex (length bytes)) bytes (encode config chunks) (final_bytes config) in
    rw split (
      dechunk-step (suc (length chunks)) (length bytes) _ (bytes ++ (crlf ++ more)) bytes more
        (read_size-to_hex (length bytes) (bytes ++ (crlf ++ more))) (read_data-append bytes more)
      ∙ rw (length_nonempty bytes a.0, dechunk-encode config chunks on a.1) refl)
