-- ===== src/Cache/Key/Laws.antt =====
-- Theorems on src/cache/cache_key.cpp.
use ntonix.Cache.Key.{
  CacheKey, hex_digit, hex_digits, to_string, cache_key_input, should_bypass_cache,
}
use ntonix.Common.Search.{contains_complete, contains_sound}
use ntonix.Common.{
  ℕ, zero, suc, ◌/◌, ◌%◌, ◌^◌, ◌≡◌, ◌<◌, ◌≢◌, refl, sym, ◌⊎◌, ◌↔◌, inl, inr, true, false, [], ◌∷◌,
  ◌++◌, map, arith, length, length-append, Text, codes, contains, to_lower, u64_mod, All,
  Bool-cases,
}
use native.Mathlib.Nat.{pow-suc}
use mathlib.Core.Path.{subst}

pub hex_digit_injective : (a b : ℕ) → a < 16 → b < 16 → hex_digit a ≡ hex_digit b → a ≡ b
unfolding hex_digit
hex_digit_injective a b h k e = ground arith

append_last_injective : (xs ys : Text) (x y : ℕ) → xs ++ x ∷ [] ≡ ys ++ y ∷ [] → (xs ≡ ys) × (x ≡ y)
append_last_injective [] [] x y e = ground arith
append_last_injective [] (b ∷ []) x y e = absurd (ground arith)
append_last_injective [] (b ∷ b' ∷ ys) x y e = absurd (ground arith)
append_last_injective (a ∷ []) [] x y e = absurd (ground arith)
append_last_injective (a ∷ a' ∷ xs) [] x y e = absurd (ground arith)
append_last_injective (a ∷ xs) (b ∷ ys) x y e =
    let rest = append_last_injective xs ys x y (ground arith) in (ground arith, rest.1)

hex_digits_injective :
    (n a b : ℕ) → a < 16 ^ n → b < 16 ^ n → hex_digits n a ≡ hex_digits n b → a ≡ b
unfolding hex_digits
hex_digits_injective zero a b h k e = omega arith
hex_digits_injective (suc n) a b h k e =
    let (high, low) = append_last_injective _ _ _ _ e in
    omega (
      arith,
      hex_digits_injective n (a / 16) (b / 16) (omega (arith, pow-suc 16 n))
          (omega (arith, pow-suc 16 n)) high,
      hex_digit_injective (a % 16) (b % 16) (omega arith) (omega arith) low,
    )

pub length-hex_digits : (n a : ℕ) → length (hex_digits n a) ≡ n
unfolding hex_digits
length-hex_digits zero a = refl
length-hex_digits (suc n) a = omega (
  arith,
  length-append (hex_digits n (a / 16)) (hex_digit (a % 16) ∷ []),
  length-hex_digits n (a / 16),
)

-- `CacheKey::to_string` tells any two 64-bit keys apart.
pub to_string_injective :
    (a b : CacheKey) → a.hash < u64_mod → b.hash < u64_mod → to_string a ≡ to_string b → a ≡ b
unfolding to_string
to_string_injective a b h k e =
    let same : a.hash ≡ b.hash = hex_digits_injective 16 a.hash b.hash h k e in ground arith

first_colon_injective :
    (m m' s s' : Text)
    → All (λ c. c ≢ b':') m
    → All (λ c. c ≢ b':') m'
    → m ++ (b':' ∷ s) ≡ m' ++ (b':' ∷ s')
    → (m ≡ m') × (s ≡ s')
first_colon_injective [] [] s s' h h' e = ground arith
first_colon_injective [] (c ∷ m') s s' h h' e = absurd (ground arith)
first_colon_injective (c ∷ m) [] s s' h h' e = absurd (ground arith)
first_colon_injective (c ∷ m) (d ∷ m') s s' h h' e =
    let rest = first_colon_injective m m' s s' h.1 h'.1 (ground arith) in (ground arith, rest.1)

-- Requests whose methods and targets have no colon hash the same bytes only if they are the same:
-- any clash of their keys is the hash function's.
pub cache_key_input_injective :
    (m m' t t' b b' : Text)
    → All (λ c. c ≢ b':') m
    → All (λ c. c ≢ b':') m'
    → All (λ c. c ≢ b':') t
    → All (λ c. c ≢ b':') t'
    → cache_key_input m t b ≡ cache_key_input m' t' b'
    → (m ≡ m') × (t ≡ t') × (b ≡ b')
unfolding cache_key_input
cache_key_input_injective m m' t t' b b' hm hm' ht ht' e =
    let (first, rest) = first_colon_injective m m' _ _ hm hm' e in
    let (second, third) = first_colon_injective t t' b b' ht ht' rest in (first, second, third)

abbrev pub HasDirective : Text → Type 0
HasDirective s =
    (a : Text) × (b : Text) × ((s ≡ a ++ (codes "no-cache" ++ b))
      ⊎ (s ≡ a ++ (codes "no-store" ++ b)))

bypass_sound : (h : Text) → should_bypass_cache h ≡ true → HasDirective (map to_lower h)
unfolding should_bypass_cache
bypass_sound h e = elim (Bool-cases (contains (codes "no-cache") (map to_lower h))) [
  | inl cache ↦
      let (a, b, split) = contains_sound (codes "no-cache") (map to_lower h) cache in
      (a, b, inl split)
  | inr other ↦
      let (a, b, split) = contains_sound (codes "no-store") (map to_lower h) (stored h other e) in
      (a, b, inr split)
]
  where
    stored :
        (h : Text)
        → contains (codes "no-cache") (map to_lower h) ≡ false
        → should_bypass_cache h ≡ true
        → contains (codes "no-store") (map to_lower h) ≡ true
    stored [] other e = cc
    stored (c ∷ h) other e = rw other at e

bypass_found :
    (h : Text)
    → (contains (codes "no-cache") (map to_lower h) ≡ true)
      ⊎ (contains (codes "no-store") (map to_lower h) ≡ true)
    → should_bypass_cache h ≡ true
unfolding should_bypass_cache
bypass_found [] (inl e) = cc
bypass_found [] (inr e) = cc
bypass_found (c ∷ h) (inl e) = rw e
bypass_found (c ∷ h) (inr e) =
    elim (Bool-cases (contains (codes "no-cache") (map to_lower (c ∷ h)))) [
      | inl t ↦ rw t
      | inr f ↦ rw (f, e)
    ]

-- The cache is bypassed exactly when the lower-cased header has one of the two directives in it,
-- wherever it stands and however it is capitalised.
pub should_bypass_cache_iff :
    (h : Text) → (should_bypass_cache h ≡ true) ↔ HasDirective (map to_lower h)
should_bypass_cache_iff h = (
  bypass_sound h,
  λ (a, b, which). elim which [
    | inl e ↦ bypass_found h (
        inl (
          subst (λ s. contains (codes "no-cache") s ≡ true) (sym e)
            (contains_complete a (codes "no-cache") b)))
    | inr e ↦ bypass_found h (
        inr (
          subst (λ s. contains (codes "no-store") s ≡ true) (sym e)
            (contains_complete a (codes "no-store") b)))
  ],
)
