-- ===== src/Common/Decimal.antt =====
-- `std::to_string` on unsigned numbers, with the value that the digits stand for, and the split of
-- a text at its last colon (`rfind(':')` with the two `substr` calls around it).
use ntonix.Common.{
  ℕ, zero, suc, ◌+◌, ◌-◌, ◌*◌, ◌/◌, ◌%◌, ◌≡◌, ◌<◌, refl, ap, ◌≢◌, Bool, true, ◌&&◌, [], ◌∷◌, ◌++◌,
  Option, none, some, arith, if◌then◌else◌, ltb, leb, nat_beq, All, All-append, All-mono, Text,
  Bool-cases, inl, inr,
}

abbrev pub is_digit : ℕ → Bool
is_digit c = leb b'0' c && leb c b'9'

unfoldable pub digits : ℕ → ℕ → Text
digits zero n = []
digits (suc fuel) n =
    let rest = digits fuel (n / 10) in
    if ltb n 10 then (b'0' + n) ∷ [] else rest ++ (b'0' + n % 10) ∷ []

-- A number has at most as many digits as its successor.
unfoldable pub to_decimal : ℕ → Text
unfolding digits
to_decimal n = digits (suc n) n

unfoldable pub value_from : ℕ → Text → ℕ
value_from acc [] = acc
value_from acc (c ∷ s) = value_from (acc * 10 + (c - b'0')) s

value_from-append :
    (acc c : ℕ) (s : Text) → value_from acc (s ++ c ∷ []) ≡ value_from acc s * 10 + (c - b'0')
unfolding value_from
value_from-append acc c [] = refl
value_from-append acc c (d ∷ s) = value_from-append (acc * 10 + (d - b'0')) c s

value_from-digits : (fuel n : ℕ) → n < fuel → value_from 0 (digits fuel n) ≡ n
unfolding digits value_from
value_from-digits zero n h = absurd (omega arith)
value_from-digits (suc fuel) n h = elim (Bool-cases (ltb n 10)) [
  | inl small ↦ rw small (omega arith)
  | inr large ↦ rw large (
      omega (
        arith,
        value_from-append 0 (b'0' + n % 10) (digits fuel (n / 10)),
        value_from-digits fuel (n / 10) (ground arith),
      ))
]

-- The digits stand for the number.
pub value_from-to_decimal : (n : ℕ) → value_from 0 (to_decimal n) ≡ n
unfolding to_decimal
value_from-to_decimal n = value_from-digits (suc n) n (omega arith)

digits-All : (fuel n : ℕ) → All (λ c. is_digit c ≡ true) (digits fuel n)
unfolding digits
digits-All zero n = tt
digits-All (suc fuel) n = elim (Bool-cases (ltb n 10)) [
  | inl small ↦ rw small (ground arith, tt)
  | inr large ↦ rw large (
      All-append (λ c. is_digit c ≡ true) (digits fuel (n / 10)) ((b'0' + n % 10) ∷ [])
        (digits-All fuel (n / 10)) (ground arith, tt))
]

pub to_decimal-All : (n : ℕ) → All (λ c. is_digit c ≡ true) (to_decimal n)
unfolding to_decimal
to_decimal-All n = digits-All (suc n) n

pub to_decimal_injective : (m n : ℕ) → to_decimal m ≡ to_decimal n → m ≡ n
to_decimal_injective m n e =
    omega (arith, ap (value_from 0) e, value_from-to_decimal m, value_from-to_decimal n)

unfoldable pub split_last_colon : Text → Option (Text × Text)
split_last_colon [] = none
split_last_colon (c ∷ s) = elim (split_last_colon s) [
  | none ↦ if nat_beq c b':' then some ([], s) else none
  | some (before, after) ↦ some (c ∷ before, after)
]

split_no_colon : (s : Text) → All (λ c. c ≢ b':') s → split_last_colon s ≡ none
unfolding split_last_colon
split_no_colon [] a = refl
split_no_colon (c ∷ s) a = ground (arith, split_no_colon s a.1)

pub split_last_colon_lem :
    (before after : Text)
    → All (λ c. c ≢ b':') after
    → split_last_colon (before ++ b':' ∷ after) ≡ some (before, after)
unfolding split_last_colon
split_last_colon_lem [] after a = ground (arith, split_no_colon after a)
split_last_colon_lem (c ∷ before) after a = ground (arith, split_last_colon_lem before after a)

pub to_decimal-no_colon : (n : ℕ) → All (λ c. c ≢ b':') (to_decimal n)
to_decimal-no_colon n =
    All-mono (λ c. is_digit c ≡ true) (λ c. c ≢ b':') (to_decimal n) (λ c d. ground arith)
      (to_decimal-All n)

-- A host and a port are read back from `host:port`, whatever the host.
pub split-host_port :
    (host : Text) (port : ℕ)
    → split_last_colon (host ++ b':' ∷ to_decimal port) ≡ some (host, to_decimal port)
split-host_port host port = split_last_colon_lem host (to_decimal port) (to_decimal-no_colon port)

pub host_port_injective :
    (h h' : Text) (p p' : ℕ)
    → h ++ b':' ∷ to_decimal p ≡ h' ++ b':' ∷ to_decimal p'
    → (h ≡ h') × (p ≡ p')
host_port_injective h h' p p' e =
    let same : ◌≡◌ {A = Option (Text × Text)} (some (h, to_decimal p)) (some (h', to_decimal p')) =
      cc (split-host_port h p, split-host_port h' p', ap split_last_colon e) in
    (ground arith, to_decimal_injective p p' (ground arith))
