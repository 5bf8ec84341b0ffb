-- ===== src/Common/Map.antt =====
-- `std::unordered_map` as an association list. The order of the list stands for the order of
-- iteration, which the standard leaves open.
use ntonix.Common.{◌≡◌, refl, List, [], ◌∷◌, Option, none, some, arith, Eq, ◌==◌, if◌then◌else◌}

module _ {ℓ κ} {K : Type ℓ} {V : Type κ} ⦃e : Eq K⦄ where
  -- `m.find(k)`
  abbrev pub find : K → List (K × V) → Option V
  find k [] = none
  find k ((j, v) ∷ m) = if j == k then some v else find k m

  -- `m[k] = v`
  abbrev pub assign : K → V → List (K × V) → List (K × V)
  assign k v [] = (k, v) ∷ []
  assign k v ((j, w) ∷ m) = if j == k then (j, v) ∷ m else (j, w) ∷ assign k v m

  -- `m.erase(k)`
  abbrev pub erase : K → List (K × V) → List (K × V)
  erase k [] = []
  erase k ((j, w) ∷ m) = if j == k then erase k m else (j, w) ∷ erase k m

  pub find-assign :
      (k q : K) (v : V) (m : List (K × V))
      → find q (assign k v m) ≡ (if k == q then some v else find q m)
  find-assign k q v [] = refl
  find-assign k q v ((j, w) ∷ m) =
      ground (arith, e.decides k q, e.decides j k, e.decides j q, find-assign k q v m)

  pub find-erase :
      (k q : K) (m : List (K × V)) → find q (erase k m) ≡ (if k == q then none else find q m)
  find-erase k q [] = ground arith
  find-erase k q ((j, w) ∷ m) =
      ground (arith, e.decides k q, e.decides j k, e.decides j q, find-erase k q m)

  pub ruleset map_laws = (find-assign, find-erase)
