-- ===== src/Balancer/Weights.antt =====
-- Sums of weights over the usable backends, and the range in which int64 arithmetic is exact
-- (balancer/load_balancer.cpp).
use ntonix.Balancer.{BackendState, wrap, healthy_total}
use ntonix.Common.Int.{ℤ, pos, negsuc, pos_part, neg_part, ◌+ℤ◌, +ℤ_parts, eq_of_parts}
use ntonix.Common.{
  ℕ, suc, ◌+◌, ◌*◌, ◌^◌, ◌≡◌, ◌≤◌, ◌<◌, ap, ◌∙◌, Bool, true, List, [], ◌∷◌, arith, if◌then◌else◌,
  length, All, Bool-cases, inl, inr,
}
use ntonix.Config.{BackendConfig}

-- The integers that an int64 holds
abbrev pub InRange : ℤ → Type 0
InRange z = (pos_part z < 2 ^ 63) × (neg_part z ≤ 2 ^ 63)

pub wrap_exact : (z : ℤ) → InRange z → wrap z ≡ z
unfolding wrap
wrap_exact (pos n) h = ground arith
wrap_exact (negsuc n) h = ground arith

wrap_pos : (a w : ℕ) → a + w < 2 ^ 63 → wrap (pos a +ℤ pos w) ≡ pos (a + w)
wrap_pos a w h =
    ap wrap (eq_of_parts (pos a +ℤ pos w) (pos (a + w)) (omega (arith, +ℤ_parts (pos a) (pos w))))
    ∙ wrap_exact (pos (a + w)) (omega arith)

module _ (p : BackendConfig → Bool) where
  -- The weights of the usable backends, together
  abbrev pub sum_weight : List BackendState → ℕ
  sum_weight [] = 0
  sum_weight (b ∷ bs) = (if p b.config then b.config.weight else 0) + sum_weight bs

  -- Their current weights, together
  abbrev pub sum_current : List BackendState → ℤ
  sum_current [] = pos 0
  sum_current (b ∷ bs) = (if p b.config then b.current_weight else pos 0) +ℤ sum_current bs

  pub healthy_total_lem :
      (bs : List BackendState) (acc : ℕ)
      → acc + sum_weight bs < 2 ^ 63
      → healthy_total p bs (pos acc) ≡ pos (acc + sum_weight bs)
  unfolding healthy_total
  healthy_total_lem [] acc h = ap pos (omega arith)
  healthy_total_lem (b ∷ bs) acc h = elim (Bool-cases (p b.config)) [
    | inl on ↦
        let w = b.config.weight in
        let small : acc + (w + sum_weight bs) < 2 ^ 63 = rw on at h in
        rw on (
          ap (healthy_total p bs) (wrap_pos acc w (omega arith))
          ∙ healthy_total_lem bs (acc + w) (omega arith)
          ∙ ap pos (omega arith))
    | inr off ↦
        let small : acc + (0 + sum_weight bs) < 2 ^ 63 = rw off at h in
        rw off (healthy_total_lem bs acc (omega arith) ∙ ap pos (omega arith))
  ]

  -- Every usable backend's current weight is above -limit.
  abbrev pub Above : ℕ → List BackendState → Type 0
  Above limit =
      All (λ b. p b.config ≡ true → neg_part b.current_weight < pos_part b.current_weight + limit)

  pub Above-sum :
      (limit : ℕ) (bs : List BackendState)
      → Above limit bs
      → neg_part (sum_current bs) ≤ pos_part (sum_current bs) + length bs * limit
  Above-sum limit [] a = omega arith
  Above-sum limit (b ∷ bs) a = elim (Bool-cases (p b.config)) [
    | inl on ↦
        rw on (
          omega (arith, Above-sum limit bs a.1, a.0 on, +ℤ_parts b.current_weight (sum_current bs)))
    | inr off ↦ rw off (omega (arith, Above-sum limit bs a.1, +ℤ_parts (pos 0) (sum_current bs)))
  ]

  -- So none is far above the sum either.
  abbrev pub Below : ℕ → List BackendState → Type 0
  Below limit =
      All (λ b. p b.config ≡ true → pos_part b.current_weight ≤ neg_part b.current_weight + limit)

  pub Below-bound :
      (limit top : ℕ) (bs : List BackendState)
      → Above limit bs
      → pos_part (sum_current bs) + length bs * limit ≤ neg_part (sum_current bs) + top
      → Below top bs
  Below-bound limit top [] a h = tt
  Below-bound limit top (b ∷ bs) a h = elim (Bool-cases (p b.config)) [
    | inl on ↦
        let h' : pos_part (b.current_weight +ℤ sum_current bs) + suc (length bs) * limit
            ≤ neg_part (b.current_weight +ℤ sum_current bs) + top =
          rw on at h in
        (
          λ _. omega (arith, Above-sum limit bs a.1, +ℤ_parts b.current_weight (sum_current bs)),
          Below-bound limit top bs a.1
              (omega (arith, a.0 on, +ℤ_parts b.current_weight (sum_current bs))),
        )
    | inr off ↦
        let h' : pos_part (pos 0 +ℤ sum_current bs) + suc (length bs) * limit
            ≤ neg_part (pos 0 +ℤ sum_current bs) + top =
          rw off at h in
        (
          λ on. cc off,
          Below-bound limit top bs a.1 (omega (arith, +ℤ_parts (pos 0) (sum_current bs))),
        )
  ]
