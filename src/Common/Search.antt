-- ===== src/Common/Search.antt =====
-- What `std::string::find` decides: `contains` is true exactly when the text has the pattern inside.
use ntonix.Common.{
  ◌≡◌, refl, ap, true, [], ◌∷◌, ◌++◌, arith, Text, starts_with, contains, Bool-cases, inl, inr,
}

starts_with-append : (p s : Text) → starts_with p (p ++ s) ≡ true
starts_with-append [] s = refl
starts_with-append (c ∷ p) s = ground (arith, starts_with-append p s)

pub starts_with_sound : (p s : Text) → starts_with p s ≡ true → (t : Text) × (s ≡ p ++ t)
starts_with_sound [] s h = (s, refl)
starts_with_sound (c ∷ p) [] h = cc
starts_with_sound (c ∷ p) (d ∷ s) h =
    let (t, e) = starts_with_sound p s (ground arith) in (t, ground arith)

contains_here : (p s : Text) → starts_with p s ≡ true → contains p s ≡ true
contains_here p [] h = h
contains_here p (c ∷ s) h = ground arith

pub contains_complete : (a p b : Text) → contains p (a ++ (p ++ b)) ≡ true
contains_complete [] p b = contains_here p (p ++ b) (starts_with-append p b)
contains_complete (c ∷ a) p b = ground (arith, contains_complete a p b)

pub contains_sound :
    (p s : Text) → contains p s ≡ true → (a : Text) × (b : Text) × (s ≡ a ++ (p ++ b))
contains_sound p [] h = let (t, e) = starts_with_sound p [] h in ([], t, e)
contains_sound p (c ∷ s) h = elim (Bool-cases (starts_with p (c ∷ s))) [
  | inl here ↦ let (t, e) = starts_with_sound p (c ∷ s) here in ([], t, e)
  | inr later ↦ let (a, b, e) = contains_sound p s (ground arith) in (c ∷ a, b, ap (◌∷◌ c) e)
]
