-- ===== src/Common/Equality.antt =====
-- `operator==` as an interface: a Boolean test that decides equality.
use Prim.Native.Nat.{ℕ}
use mathlib.Core.Bool.{Bool, true, false, ◌&&◌}
use mathlib.Core.List.{List, [], ◌∷◌}
use mathlib.Core.Logic.{◌↔◌}
use mathlib.Core.Path.{◌≡◌}
use native.Mathlib.Omega.{arith}
use ntonix.Common.Tests.{nat_beq, nat_beq_iff}

pub record Eq {ℓ} (Value : Type ℓ) : Type ℓ where
  pub equal : Value → Value → Bool
  pub decides : (x y : Value) → (equal x y ≡ true) ↔ (x ≡ y)

module _ {ℓ} {Value : Type ℓ} ⦃by : Eq Value⦄ where
  infix 50 ◌==◌
  abbrev pub ◌==◌ : Value → Value → Bool
  x == y = by.equal x y

instance abbrev pub nat_eq : Eq ℕ
nat_eq = record { decides = nat_beq_iff; equal = nat_beq }

-- A text is the list of its bytes.
abbrev pub text_beq : List ℕ → List ℕ → Bool
text_beq [] [] = true
text_beq (x ∷ xs) (y ∷ ys) = nat_beq x y && text_beq xs ys
text_beq [] (y ∷ ys) = false
text_beq (x ∷ xs) [] = false

pub text_beq_iff : (s t : List ℕ) → (text_beq s t ≡ true) ↔ (s ≡ t)
text_beq_iff [] [] = ground arith
text_beq_iff (x ∷ xs) (y ∷ ys) = ground (arith, text_beq_iff xs ys)
text_beq_iff [] (y ∷ ys) = ground arith
text_beq_iff (x ∷ xs) [] = ground arith

instance abbrev pub text_eq : Eq (List ℕ)
text_eq = record { decides = text_beq_iff; equal = text_beq }
