-- ===== src/Balancer/Select.antt =====
-- One call of `select_backend` (balancer/load_balancer.cpp) by a fixed set of usable backends:
-- which backend it picks, and how every current weight moves.
use ntonix.Balancer.Scan.{AtMost}
use ntonix.Balancer.Weights.{InRange, wrap_exact, sum_weight, sum_current, Above, Below}
use ntonix.Balancer.{BackendState, wrap, raised, lower_at}
use ntonix.Common.Int.{
  ℤ, pos, negsuc, pos_part, neg_part, ◌+ℤ◌, ◌-ℤ◌, ◌≤ℤ◌, +ℤ_parts, -ℤ_parts, eq_of_parts, int_laws,
}
use ntonix.Common.{
  ℕ, zero, suc, ◌+◌, ◌^◌, ◌≡◌, ◌≤◌, ◌<◌, refl, ap, ◌∙◌, Bool, true, List, [], ◌∷◌, some, map, arith,
  if◌then◌else◌, length, get_elem?, nat_beq, option_map, All, Bool-cases, inl, inr, ◌⊎◌,
}
use ntonix.Config.{BackendConfig}

pub one_part : (z : ℤ) → (pos_part z ≡ 0) ⊎ (neg_part z ≡ 0)
one_part (pos n) = inr refl
one_part (negsuc n) = inl refl

pub get_elem?-map {ℓ κ} :
    {A : Type ℓ} {B : Type κ} (f : A → B) (xs : List A) (i : ℕ)
    → get_elem? (map f xs) i ≡ option_map f (get_elem? xs i)
get_elem?-map f [] i = refl
get_elem?-map f (x ∷ xs) zero = refl
get_elem?-map f (x ∷ xs) (suc i) = get_elem?-map f xs i

pub length-map :
    (f : BackendState → BackendState) (xs : List BackendState) → length (map f xs) ≡ length xs
length-map f [] = refl
length-map f (x ∷ xs) = ap suc (length-map f xs)

pub length-lower_at :
    (i : ℕ) (total : ℤ) (bs : List BackendState) → length (lower_at i total bs) ≡ length bs
unfolding lower_at
length-lower_at i total [] = refl
length-lower_at zero total (b ∷ bs) = refl
length-lower_at (suc i) total (b ∷ bs) = ap suc (length-lower_at i total bs)

-- `fetch_add` is exact on a usable backend whose weight is within bounds.
module _ (p : BackendConfig → Bool) where
  abbrev pub IsRaised : BackendState → BackendState → Type 0
  IsRaised b b' =
      (b'.config ≡ b.config)
      × (p b.config ≡ true → b'.current_weight ≡ b.current_weight +ℤ pos b.config.weight)

  pub raised_config : (b : BackendState) → (raised p b).config ≡ b.config
  unfolding raised
  raised_config b = ground arith

  pub raised_weight :
      (b : BackendState)
      → p b.config ≡ true
      → InRange (b.current_weight +ℤ pos b.config.weight)
      → (raised p b).current_weight ≡ b.current_weight +ℤ pos b.config.weight
  raised_weight b on r = raised_wrap b on ∙ wrap_exact (b.current_weight +ℤ pos b.config.weight) r
    where
      raised_wrap :
          (b : BackendState)
          → p b.config ≡ true
          → (raised p b).current_weight ≡ wrap (b.current_weight +ℤ pos b.config.weight)
      raised_wrap b on = unfold raised in rw on refl

  raised_range :
      (limit top : ℕ) (b : BackendState)
      → neg_part b.current_weight < pos_part b.current_weight + limit
      → pos_part b.current_weight ≤ neg_part b.current_weight + top
      → top + b.config.weight < 2 ^ 63
      → limit ≤ 2 ^ 63
      → InRange (b.current_weight +ℤ pos b.config.weight)
  raised_range limit top b above below fits low = (
    omega (
      arith,
      +ℤ_parts b.current_weight (pos b.config.weight),
      one_part (b.current_weight +ℤ pos b.config.weight),
    ),
    omega (
      arith,
      +ℤ_parts b.current_weight (pos b.config.weight),
      one_part (b.current_weight +ℤ pos b.config.weight),
    ),
  )

  -- Every usable backend's weight is within bounds.
  abbrev pub InBounds : List BackendState → Type 0
  InBounds = All (λ b. p b.config ≡ true → InRange (b.current_weight +ℤ pos b.config.weight))

  pub in_bounds :
      (limit top rest : ℕ) (bs : List BackendState)
      → Above p limit bs
      → Below p top bs
      → top + (rest + sum_weight p bs) < 2 ^ 63
      → limit ≤ 2 ^ 63
      → InBounds bs
  in_bounds limit top rest [] a b fits low = tt
  in_bounds limit top rest (x ∷ bs) a b fits low = (
    λ on.
        let here : top + (rest + (x.config.weight + sum_weight p bs)) < 2 ^ 63 = rw on at fits in
        raised_range limit top x (a.0 on) (b.0 on) (omega arith) low,
    in_bounds limit top (rest + (if p x.config then x.config.weight else 0)) bs a.1 b.1
        (omega arith) low,
  )

  pub sum_current-raised :
      (bs : List BackendState)
      → InBounds bs
      → sum_current p (map (raised p) bs) ≡ sum_current p bs +ℤ pos (sum_weight p bs)
  sum_current-raised [] r = eq_of_parts _ _ (omega (arith, +ℤ_parts (pos 0) (pos 0)))
  sum_current-raised (b ∷ bs) r = rw (raised_config b) (elim (Bool-cases (p b.config)) [
    | inl on ↦ rw (on, raised_weight b on (r.0 on), sum_current-raised bs r.1) (omega int_laws)
    | inr off ↦ rw (off, sum_current-raised bs r.1) (omega int_laws)
  ])

  pub sum_weight-raised :
      (bs : List BackendState) → sum_weight p (map (raised p) bs) ≡ sum_weight p bs
  sum_weight-raised [] = refl
  sum_weight-raised (b ∷ bs) = rw (raised_config b, sum_weight-raised bs)

  pub Above-raised :
      (limit : ℕ) (bs : List BackendState)
      → InBounds bs
      → Above p limit bs
      → Above p limit (map (raised p) bs)
  Above-raised limit [] r a = tt
  Above-raised limit (b ∷ bs) r a = (
    λ on.
        let on' : p b.config ≡ true = rw (raised_config b) at on in
        omega (
          arith,
          a.0 on',
          raised_weight b on' (r.0 on'),
          ap pos_part (raised_weight b on' (r.0 on')),
          ap neg_part (raised_weight b on' (r.0 on')),
          +ℤ_parts b.current_weight (pos b.config.weight),
        ),
    Above-raised limit bs r.1 a.1,
  )

abbrev pub lowered : ℕ → BackendState → BackendState
lowered total b = record b { current_weight = wrap (b.current_weight -ℤ pos total) }

-- `fetch_sub` on the picked backend, at index j
module _ (p : BackendConfig → Bool) (total : ℕ) where
  pub lowered_weight :
      (b : BackendState)
      → pos 0 ≤ℤ b.current_weight
      → pos_part b.current_weight < 2 ^ 63
      → total ≤ 2 ^ 63
      → wrap (b.current_weight -ℤ pos total) ≡ b.current_weight -ℤ pos total
  lowered_weight b positive below small = wrap_exact (b.current_weight -ℤ pos total) (
    omega (
      arith,
      -ℤ_parts b.current_weight (pos total),
      one_part (b.current_weight -ℤ pos total),
      one_part b.current_weight,
    ),
    omega (
      arith,
      -ℤ_parts b.current_weight (pos total),
      one_part (b.current_weight -ℤ pos total),
      one_part b.current_weight,
    ),
  )

  module _ (b : BackendState) (on : p b.config ≡ true)
      (exact : wrap (b.current_weight -ℤ pos total) ≡ b.current_weight -ℤ pos total) where
    pub sum_current-lower_at :
        (j : ℕ) (bs : List BackendState)
        → get_elem? bs j ≡ some b
        → sum_current p (lower_at j (pos total) bs) +ℤ pos total ≡ sum_current p bs
    unfolding lower_at
    sum_current-lower_at j [] h = cc
    sum_current-lower_at zero (x ∷ bs) h =
        let same : x ≡ b = ground arith in rw (same, on, exact) (omega int_laws)
    sum_current-lower_at (suc j) (x ∷ bs) h =
        let ih : sum_current p (lower_at j (pos total) bs) +ℤ pos total ≡ sum_current p bs =
          sum_current-lower_at j bs h in
        omega (int_laws, ap pos_part ih, ap neg_part ih)

    pub Above-lower_at :
        (limit j : ℕ) (bs : List BackendState)
        → get_elem? bs j ≡ some b
        → neg_part b.current_weight + total < pos_part b.current_weight + limit
        → Above p limit bs
        → Above p limit (lower_at j (pos total) bs)
    unfolding lower_at
    Above-lower_at limit j [] h room a = tt
    Above-lower_at limit zero (x ∷ bs) h room a =
        let same : x ≡ b = ground arith in
        (λ _. rw (same, exact) (omega (arith, -ℤ_parts b.current_weight (pos total))), a.1)
    Above-lower_at limit (suc j) (x ∷ bs) h room a = (a.0, Above-lower_at limit j bs h room a.1)

  pub sum_weight-lower_at :
      (j : ℕ) (bs : List BackendState) → sum_weight p (lower_at j (pos total) bs) ≡ sum_weight p bs
  unfolding lower_at
  sum_weight-lower_at j [] = refl
  sum_weight-lower_at zero (x ∷ bs) = refl
  sum_weight-lower_at (suc j) (x ∷ bs) = rw (sum_weight-lower_at j bs)

  pub get_elem?-lower_at :
      (j i : ℕ) (bs : List BackendState)
      → get_elem? (lower_at j (pos total) bs) i
        ≡ (if nat_beq i j then option_map (lowered total) (get_elem? bs i) else get_elem? bs i)
  unfolding lower_at
  get_elem?-lower_at j i [] = ground arith
  get_elem?-lower_at zero zero (x ∷ bs) = refl
  get_elem?-lower_at zero (suc i) (x ∷ bs) = ground arith
  get_elem?-lower_at (suc j) zero (x ∷ bs) = ground arith
  get_elem?-lower_at (suc j) (suc i) (x ∷ bs) = get_elem?-lower_at j i bs ∙ ground arith

-- Weights that are all at most zero have a sum at most zero.
pub sum_nonpos :
    (p : BackendConfig → Bool) (bs : List BackendState)
    → AtMost p (pos 0) bs
    → sum_current p bs ≤ℤ pos 0
sum_nonpos p [] a = omega arith
sum_nonpos p (b ∷ bs) a = elim (Bool-cases (p b.config)) [
  | inl on ↦
      let first : b.current_weight ≤ℤ pos 0 = a.0 on in
      let rest : sum_current p bs ≤ℤ pos 0 = sum_nonpos p bs a.1 in
      rw on (omega (arith, +ℤ_parts b.current_weight (sum_current p bs)))
  | inr off ↦
      let rest : sum_current p bs ≤ℤ pos 0 = sum_nonpos p bs a.1 in
      rw off (omega (arith, +ℤ_parts (pos 0) (sum_current p bs)))
]
