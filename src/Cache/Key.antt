-- ===== src/Cache/Key.antt =====
-- src/cache/cache_key.{hpp,cpp}: keys are 64-bit hashes; the hash function is the caller's.
pub mod Laws
use ntonix.Common.{
  ℕ, suc, zero, ◌+◌, ◌-◌, ◌/◌, ◌%◌, ◌≡◌, ◌↔◌, Bool, true, false, ◌||◌, List, [], ◌∷◌, ◌++◌, map,
  arith, Eq, nat_beq, if◌then◌else◌, ltb, is_empty, Text, codes, contains, to_lower,
}

pub record CacheKey : Type 0 where
  pub hash : ℕ

abbrev pub key_beq : CacheKey → CacheKey → Bool
key_beq a b = nat_beq a.hash b.hash

pub key_beq_iff : (a b : CacheKey) → (key_beq a b ≡ true) ↔ (a ≡ b)
key_beq_iff a b = ground arith

instance abbrev pub key_eq : Eq CacheKey
key_eq = record { decides = key_beq_iff; equal = key_beq }

-- `std::hex` digits
unfoldable pub hex_digit : ℕ → ℕ
hex_digit d = if ltb d 10 then b'0' + d else b'a' + (d - 10)

-- The low `n` hexadecimal digits of a number, most significant first, padded by zeros.
unfoldable pub hex_digits : ℕ → ℕ → Text
unfolding hex_digit
hex_digits zero h = []
hex_digits (suc n) h = hex_digits n (h / 16) ++ hex_digit (h % 16) ∷ []

-- `CacheKey::to_string`: sixteen digits hold any 64-bit value
unfoldable pub to_string : CacheKey → Text
unfolding hex_digits
to_string k = hex_digits 16 k.hash

-- What `generate_cache_key` streams into the hash: the three parts, with colons between them
unfoldable pub cache_key_input : Text → Text → Text → Text
cache_key_input method target body = method ++ (b':' ∷ target ++ (b':' ∷ body))

-- XXH64 is a third-party function: any function on byte sequences. Streaming it over the parts is
-- hashing their concatenation.
module _ (xxh64 : Text → ℕ) where
  unfoldable pub generate_cache_key_body : Text → CacheKey
  generate_cache_key_body body = record { hash = xxh64 body }

  unfoldable pub generate_cache_key : Text → Text → Text → CacheKey
  unfolding cache_key_input
  generate_cache_key method target body = record {
    hash = xxh64 (cache_key_input method target body);
  }

unfoldable pub should_bypass_cache : Text → Bool
should_bypass_cache cache_control =
    if is_empty cache_control
    then false
    else (let lower = map to_lower cache_control in
        contains (codes "no-cache") lower || contains (codes "no-store") lower)
