-- ===== src/Config/Parse.antt =====
-- src/config/config.cpp: numbers and backends written as text, with `std::stoul`, `std::getline` and
-- the trimming that the parser uses.
use ntonix.Common.Decimal.{
  is_digit, digits, to_decimal, value_from, split_last_colon, value_from-to_decimal, to_decimal-All,
  split-host_port,
}
use ntonix.Common.{
  ℕ, ◌+◌, ◌-◌, ◌/◌, ◌%◌, ◌≡◌, ◌<◌, refl, ap, ◌∙◌, Bool, true, false, ◌&&◌, ◌||◌, List, [], ◌∷◌,
  ◌++◌, Option, none, some, arith, if◌then◌else◌, ltb, leb, nat_beq, Text, is_empty, u16_mod,
  u64_mod, All, Bool-cases, inl, inr,
}
use ntonix.Config.{BackendConfig, ConfigError, invalid_backend, invalid_backend_port}

abbrev is_space : ℕ → Bool
is_space c = nat_beq c 32 || (leb 9 c && leb c 13)

-- The rest of a text after the bytes that pass a test
abbrev pub drop_while : (ℕ → Bool) → Text → Text
drop_while p [] = []
drop_while p (c ∷ s) = if p c then drop_while p s else c ∷ s

abbrev pub take_while : (ℕ → Bool) → Text → Text
take_while p [] = []
take_while p (c ∷ s) = if p c then c ∷ take_while p s else []

-- The number that the leading digits stand for, unless there are none or it does not fit
unfoldable pub unsigned_value : Text → Option ℕ
unfolding value_from
unsigned_value s =
    let value = value_from 0 (take_while is_digit s) in
    if is_empty (take_while is_digit s)
    then none
    else if ltb value u64_mod
    then some value
    else none

abbrev negated : Option ℕ → Option ℕ
negated none = none
negated (some value) = some ((u64_mod - value) % u64_mod)

-- `std::stoul`: blanks, a sign, digits, and anything after them. A minus sign negates modulo 2^64.
unfoldable pub signed_value : Text → Option ℕ
unfolding unsigned_value
signed_value [] = none
signed_value (c ∷ s) =
    if nat_beq c b'-'
    then negated (unsigned_value s)
    else if nat_beq c b'+'
    then unsigned_value s
    else unsigned_value (c ∷ s)

unfoldable pub stoul : Text → Option ℕ
unfolding signed_value
stoul s = signed_value (drop_while is_space s)

-- `static_cast<std::uint16_t>(std::stoul(s))`
unfoldable pub stoul_u16 : Text → Option ℕ
unfolding stoul
stoul_u16 s = elim (stoul s) [ none ↦ none | some n ↦ some (n % u16_mod) ]

-- The lines that `std::getline` yields with a comma as the delimiter: no line after a last comma
abbrev push : ℕ → List Text → List Text
push c [] = (c ∷ []) ∷ []
push c (line ∷ lines) = (c ∷ line) ∷ lines

unfoldable pub getlines : Text → List Text
getlines [] = []
getlines (c ∷ s) = let rest = getlines s in if nat_beq c b',' then [] ∷ rest else push c rest

abbrev is_blank : ℕ → Bool
is_blank c = nat_beq c 32 || nat_beq c 9

-- The text up to its last byte that is not blank
abbrev trim_right : Text → Text
trim_right [] = []
trim_right (c ∷ s) = elim (trim_right s) [
  | [] ↦ if is_blank c then [] else c ∷ []
  | d ∷ t ↦ c ∷ d ∷ t
]

unfoldable pub trim : Text → Text
trim s = trim_right (drop_while is_blank s)

pub data Parsed {ℓ} (A : Type ℓ) : Type ℓ where
  parsed : A → Parsed A
  failed : ConfigError → Parsed A

-- `host:port`, split at the last colon
unfoldable pub parse_backend : Text → Parsed BackendConfig
unfolding split_last_colon stoul_u16
parse_backend s = elim (split_last_colon s) [
  | none ↦ failed (invalid_backend s)
  | some (host, rest) ↦ elim (stoul_u16 rest) [
    | none ↦ failed (invalid_backend_port s)
    | some port ↦ parsed (record { host = host; port = port; weight = 1 })
  ]
]

-- A comma-separated list, read up to the first error: what was read, and the error
unfoldable pub parse_lines : List Text → List BackendConfig × Option ConfigError
unfolding trim parse_backend
parse_lines [] = ([], none)
parse_lines (line ∷ lines) =
    let (backends, error) = parse_lines lines in
    if is_empty (trim line) then (backends, error) else elim (parse_backend (trim line)) [
      | failed e ↦ ([], some e)
      | parsed b ↦ (b ∷ backends, error)
    ]

unfoldable pub parse_backends : Text → List BackendConfig × Option ConfigError
unfolding getlines parse_lines
parse_backends s = parse_lines (getlines s)

-- Decimal numbers of 64 bits are read back.
take_while-All : (p : ℕ → Bool) (s : Text) → All (λ c. p c ≡ true) s → take_while p s ≡ s
take_while-All p [] a = refl
take_while-All p (c ∷ s) a = rw (a.0) (ap (◌∷◌ c) (take_while-All p s a.1))

signed_value_digits :
    (s : Text) → All (λ c. is_digit c ≡ true) s → signed_value s ≡ unsigned_value s
unfolding signed_value unsigned_value
signed_value_digits [] a = refl
signed_value_digits (c ∷ s) a = ground arith

drop_while-digits : (s : Text) → All (λ c. is_digit c ≡ true) s → drop_while is_space s ≡ s
drop_while-digits [] a = refl
drop_while-digits (c ∷ s) a = ground arith

append_nonempty : (s : Text) (c : ℕ) → is_empty (s ++ c ∷ []) ≡ false
append_nonempty [] c = refl
append_nonempty (d ∷ s) c = refl

is_empty-to_decimal : (n : ℕ) → is_empty (to_decimal n) ≡ false
unfolding to_decimal digits
is_empty-to_decimal n = elim (Bool-cases (ltb n 10)) [
  | inl small ↦ rw small refl
  | inr large ↦ rw large (append_nonempty (digits n (n / 10)) (b'0' + n % 10))
]

unsigned_value_digits :
    (s : Text) (n : ℕ)
    → take_while is_digit s ≡ s
    → is_empty s ≡ false
    → value_from 0 s ≡ n
    → n < u64_mod
    → unsigned_value s ≡ some n
unfolding unsigned_value
unsigned_value_digits s n all some_digit value small = rw (all, some_digit, value) (ground arith)

stoul_lem : (s : Text) → stoul s ≡ signed_value (drop_while is_space s)
unfolding stoul
stoul_lem s = refl

pub stoul-to_decimal : (n : ℕ) → n < u64_mod → stoul (to_decimal n) ≡ some n
stoul-to_decimal n h =
    let ds = to_decimal-All n in
    stoul_lem (to_decimal n)
    ∙ ap signed_value (drop_while-digits (to_decimal n) ds)
    ∙ signed_value_digits (to_decimal n) ds
    ∙ unsigned_value_digits (to_decimal n) n (take_while-All is_digit (to_decimal n) ds)
        (is_empty-to_decimal n) (value_from-to_decimal n) h

stoul_u16_lem : (s : Text) (n : ℕ) → stoul s ≡ some n → stoul_u16 s ≡ some (n % u16_mod)
unfolding stoul_u16
stoul_u16_lem s n h = rw (h, stoul_u16)

parse_backend_lem :
    (s host rest : Text) (port : ℕ)
    → split_last_colon s ≡ some (host, rest)
    → stoul_u16 rest ≡ some port
    → parse_backend s ≡ parsed (record { host = host; port = port; weight = 1 })
unfolding parse_backend
parse_backend_lem s host rest port h k = rw (h, parse_backend) (rw (k, parse_backend))

-- A backend written as `host:port` is read back with its host, whatever bytes that has, commas and colons
-- too, and with the port modulo 2^16, for any port number below 2^64.
pub parse_backend-host_port :
    (host : Text) (port : ℕ)
    → port < u64_mod
    → parse_backend (host ++ b':' ∷ to_decimal port)
      ≡ parsed (record { host = host; port = port % u16_mod; weight = 1 })
parse_backend-host_port host port h =
    parse_backend_lem (host ++ b':' ∷ to_decimal port) host (to_decimal port) (port % u16_mod)
      (split-host_port host port) (stoul_u16_lem (to_decimal port) port (stoul-to_decimal port h))
