-- ===== src/Logger/Context.antt =====
-- `RequestContext` of src/util/logger.cpp: the request id of the thread. The thread-local text is passed
-- along, and the random generator gives a 64-bit number.
use ntonix.Common.{
  ℕ, zero, suc, ◌/◌, ◌%◌, ◌^◌, ◌<◌, ◌≡◌, refl, Bool, true, false, [], ◌∷◌, arith, if◌then◌else◌,
  is_empty, length, leb, ◌&&◌, ◌||◌, All, u64_mod, Text,
}
use ntonix.Cache.Key.Laws.{hex_digit_injective}
use native.Mathlib.Nat.{pow-suc}
use ntonix.Cache.Key.{hex_digit}

pub record RequestContext : Type 0 where
  pub request_id : Text
  pub owns_context : Bool

abbrev pub is_hex : ℕ → Bool
is_hex c = (leb b'0' c && leb c b'9') || (leb b'a' c && leb c b'f')

∷_injective : (x y : ℕ) (xs ys : Text) → ◌≡◌ {A = Text} (x ∷ xs) (y ∷ ys) → (x ≡ y) × (xs ≡ ys)
∷_injective x y xs ys e = ground arith

-- The lowest four bits first
unfoldable pub id_digits : ℕ → ℕ → Text
unfolding hex_digit
id_digits zero value = []
id_digits (suc n) value = hex_digit (value % 16) ∷ id_digits n (value / 16)

unfoldable pub generate_id : ℕ → Text
unfolding id_digits
generate_id value = id_digits 16 value

-- The constructor: the context, and the thread's id
unfoldable pub new_context : Text → ℕ → RequestContext × Text
unfolding generate_id
new_context request_id value =
    let id = if is_empty request_id then generate_id value else request_id in
    (record { request_id = id; owns_context = true }, id)

-- The destructor: the thread's id afterwards
unfoldable pub destroy : RequestContext → Text → Text
destroy c current_id = if c.owns_context then [] else current_id

-- The move constructor: the new context, and the other, whose text is moved from and so empty
unfoldable pub move_context : RequestContext → RequestContext × RequestContext
move_context other = (other, record { request_id = []; owns_context = false })

-- Move assignment between two contexts: this one, the other, and the thread's id
unfoldable pub assign_context :
    RequestContext → RequestContext → Text → RequestContext × RequestContext × Text
assign_context c other current_id = (
  other,
  record { request_id = []; owns_context = false },
  if other.owns_context then other.request_id else if c.owns_context then [] else current_id,
)

id_digits_injective : (n v w : ℕ) → v < 16 ^ n → w < 16 ^ n → id_digits n v ≡ id_digits n w → v ≡ w
unfolding id_digits
id_digits_injective zero v w hv hw e = omega arith
id_digits_injective (suc n) v w hv hw e =
    let (low, high) = ∷_injective _ _ _ _ e in
    omega (
      arith,
      id_digits_injective n (v / 16) (w / 16) (omega (arith, pow-suc 16 n))
          (omega (arith, pow-suc 16 n)) high,
      hex_digit_injective (v % 16) (w % 16) (omega arith) (omega arith) low,
    )

id_digits-are_hex : (n v : ℕ) → All (λ c. is_hex c ≡ true) (id_digits n v)
unfolding id_digits hex_digit
id_digits-are_hex zero v = tt
id_digits-are_hex (suc n) v = (ground arith, id_digits-are_hex n (v / 16))

length-id_digits : (n v : ℕ) → length (id_digits n v) ≡ n
unfolding id_digits
length-id_digits zero v = refl
length-id_digits (suc n) v = omega (arith, length-id_digits n (v / 16))

-- A generated id has 16 hexadecimal digits, and the ids of two 64-bit numbers are the same only if the
-- numbers are.
pub generate_id_lem :
    (v w : ℕ)
    → v < u64_mod
    → w < u64_mod
    → (length (generate_id v) ≡ 16)
      × All (λ c. is_hex c ≡ true) (generate_id v)
      × (generate_id v ≡ generate_id w → v ≡ w)
unfolding generate_id
generate_id_lem v w hv hw =
    (length-id_digits 16 v, id_digits-are_hex 16 v, id_digits_injective 16 v w hv hw)
