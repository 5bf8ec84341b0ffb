-- ===== src/Balancer/Rounds.antt =====
-- Runs of `select_backend` (balancer/load_balancer.cpp) while the same backends are usable: what n calls do to
-- the weights.
use ntonix.Balancer.Scan.{AtMost}
use ntonix.Balancer.Round.{round}
use ntonix.Balancer.Balanced.{IsBalanced, IsRound}
use ntonix.Balancer.Weights.{sum_current}
use ntonix.Balancer.{BackendState, BackendSelection, select_in}
use ntonix.Common.Int.{ℤ, pos, pos_part, neg_part, ◌+ℤ◌, ◌≤ℤ◌, +ℤ_parts, eq_of_parts}
use ntonix.Common.{
  ℕ, zero, suc, ◌+◌, ◌-◌, ◌*◌, ◌≡◌, ◌≤◌, ◌<◌, refl, ap, sym, ◌∙◌, Bool, true, List, [], ◌∷◌, Option,
  none, some, arith, if◌then◌else◌, length, get_elem?, nat_beq, All, Bool-cases, inl, inr, ◌⊎◌,
}
use ntonix.Config.{BackendConfig}

-- The pool after n calls, and the selections they returned, the latest first
abbrev pub rounds :
    (BackendConfig → Bool)
    → ℕ
    → List BackendState
    → List BackendState × List (Option BackendSelection)
rounds p zero bs = (bs, [])
rounds p (suc n) bs =
    let (bs', picks) = rounds p n bs in let (bs'', pick) = select_in p p bs' in (bs'', pick ∷ picks)

abbrev is_index : ℕ → Option BackendSelection → ℕ
is_index i none = 0
is_index i (some s) = if nat_beq i s.index then 1 else 0

-- How often the backend at index i was picked
abbrev pub picks_of : ℕ → List (Option BackendSelection) → ℕ
picks_of i [] = 0
picks_of i (s ∷ ss) = is_index i s + picks_of i ss

-- What n rounds do to the weights
pub record IsRun (p : BackendConfig → Bool) (total n : ℕ) (bs bs' : List BackendState)
    (picks : List (Option BackendSelection)) : Type 0 where
  pub moved :
      (i : ℕ) (b : BackendState)
      → get_elem? bs i ≡ some b
      → (b' : BackendState) × (get_elem? bs' i ≡ some b')
        × (b'.config ≡ b.config)
        × (p b.config ≡ true
            → b'.current_weight +ℤ pos (total * picks_of i picks)
              ≡ b.current_weight +ℤ pos (n * b.config.weight))
  pub same_length : length bs' ≡ length bs
  pub balanced : IsBalanced p total bs'

module _ (p : BackendConfig → Bool) (total : ℕ) where
  weight_step :
      (before mid after : ℤ) (charge spent gain weight : ℕ)
      → mid +ℤ pos spent ≡ before +ℤ pos gain
      → after +ℤ pos charge ≡ mid +ℤ pos weight
      → after +ℤ pos (charge + spent) ≡ before +ℤ pos (weight + gain)
  weight_step before mid after charge spent gain weight h k = eq_of_parts _ _ (
      omega (
        arith,
        ap pos_part h,
        ap neg_part h,
        ap pos_part k,
        ap neg_part k,
        +ℤ_parts mid (pos spent),
        +ℤ_parts before (pos gain),
        +ℤ_parts after (pos charge),
        +ℤ_parts mid (pos weight),
        +ℤ_parts after (pos (charge + spent)),
        +ℤ_parts before (pos (weight + gain)),
      ))

  charge_lem :
      (i : ℕ) (r : Option BackendSelection) (b : BackendConfig) (index : ℕ)
      → r ≡ some (record { backend = b; index = index })
      → (if nat_beq i index then total else 0) ≡ total * is_index i r
  charge_lem i r b index h = rw h (ground arith)

  none_yet : (a w : ℕ) → a * 0 ≡ 0 * w
  none_yet a w = omega arith

  spread : (a b c : ℕ) → a * (b + c) ≡ a * b + a * c
  spread a b c = grind arith

  grow : (n w : ℕ) → w + n * w ≡ suc n * w
  grow n w = grind arith

  IsRun-step :
      (n : ℕ) (bs mid after : List BackendState) (picks : List (Option BackendSelection))
      (pick : Option BackendSelection)
      → IsRun p total n bs mid picks
      → IsRound p total mid after pick
      → IsRun p total (suc n) bs after (pick ∷ picks)
  IsRun-step n bs mid after picks pick run step = record {
    moved = (λ i b here.
        let (m, at_m, config_m, weight_m) = run.moved i b here in
        let (a, at_a, config_a, weight_a) = step.moved i m at_m in
        (
          a,
          at_a,
          config_a ∙ config_m,
          λ on.
              ap (λ c. a.current_weight +ℤ pos c)
                (spread total (is_index i pick) (picks_of i picks)
                  ∙ ap (λ c. c + total * picks_of i picks)
                      (sym (charge_lem i pick step.state.config step.index step.selected)))
              ∙ weight_step b.current_weight m.current_weight a.current_weight
                  (if nat_beq i step.index then total else 0) (total * picks_of i picks)
                  (n * b.config.weight) m.config.weight (weight_m on)
                  (weight_a (ap p config_m ∙ on))
              ∙ ap (λ (c : BackendConfig). b.current_weight +ℤ pos (c.weight + n * b.config.weight))
                  config_m
              ∙ ap (λ c. b.current_weight +ℤ pos c) (grow n b.config.weight),
        ));
    same_length = step.same_length ∙ run.same_length;
    balanced = step.balanced;
  }

  pub rounds-IsRun :
      (n : ℕ) (bs : List BackendState)
      → IsBalanced p total bs
      → IsRun p total n bs (rounds p n bs).0 (rounds p n bs).1
  rounds-IsRun zero bs v = record {
    moved = (λ i b here. (
      b,
      here,
      refl,
      λ on. ap (λ c. b.current_weight +ℤ pos c) (none_yet total b.config.weight),
    ));
    same_length = refl;
    balanced = v;
  }
  rounds-IsRun (suc n) bs v =
      let run = rounds-IsRun n bs v in
      IsRun-step n bs (rounds p n bs).0 _ (rounds p n bs).1 _ run
        (round p total (rounds p n bs).0 run.balanced)

  gap : (c w : ℕ) → c < w → total * c + total ≤ total * w
  gap c w h =
      let split : w ≡ c + suc (w - c - 1) = omega arith in
      rw split (omega (arith, spread total c (suc (w - c - 1)), spread total 1 (w - c - 1)))

  nat_cases : (a b : ℕ) → (a < b) ⊎ ((a ≡ b) ⊎ (b < a))
  nat_cases a b = omega arith

  -- A weight above minus the total, and a whole number of totals away from zero
  pub whole :
      (z : ℤ) (c w : ℕ)
      → z +ℤ pos (total * c) ≡ pos 0 +ℤ pos (total * w)
      → neg_part z < pos_part z + total
      → pos 0 ≤ℤ z
  whole z c w h above = elim (nat_cases c w) [
    | inl less ↦ omega (
      arith,
      gap c w less,
      ap pos_part h,
      ap neg_part h,
      +ℤ_parts z (pos (total * c)),
      +ℤ_parts (pos 0) (pos (total * w)),
    )
    | inr (inl same) ↦
        let equal : total * c ≡ total * w = ap (λ n. total * n) same in
        omega (
          arith,
          ap pos_part h,
          ap neg_part h,
          +ℤ_parts z (pos (total * c)),
          +ℤ_parts (pos 0) (pos (total * w)),
        )
    | inr (inr more) ↦ omega (
      arith,
      above,
      gap w c more,
      ap pos_part h,
      ap neg_part h,
      +ℤ_parts z (pos (total * c)),
      +ℤ_parts (pos 0) (pos (total * w)),
    )
  ]

  pub exactly : (c w : ℕ) → 0 < total → total * c ≡ total * w → c ≡ w
  exactly c w h e = elim (nat_cases c w) [
    | inl less ↦ omega (arith, gap c w less)
    | inr (inl same) ↦ same
    | inr (inr more) ↦ omega (arith, gap w c more)
  ]

  unfoldable pub NonNegative : List BackendState → Type 0
  NonNegative = All (λ b. p b.config ≡ true → pos 0 ≤ℤ b.current_weight)

  nonnegative_sum : (bs : List BackendState) → NonNegative bs → pos 0 ≤ℤ sum_current p bs
  unfolding NonNegative
  nonnegative_sum [] a = omega arith
  nonnegative_sum (b ∷ bs) a =
      let rest : pos 0 ≤ℤ sum_current p bs = nonnegative_sum bs a.1 in
      elim (Bool-cases (p b.config)) [
        | inl on ↦
            let first : pos 0 ≤ℤ b.current_weight = a.0 on in
            rw on (omega (arith, +ℤ_parts b.current_weight (sum_current p bs)))
        | inr off ↦ rw off (omega (arith, +ℤ_parts (pos 0) (sum_current p bs)))
      ]

  -- Non-negative weights whose sum is not positive are all zero.
  pub all_zero :
      (bs : List BackendState) → NonNegative bs → sum_current p bs ≤ℤ pos 0 → AtMost p (pos 0) bs
  unfolding NonNegative
  all_zero [] a h = tt
  all_zero (b ∷ bs) a h =
      let rest : pos 0 ≤ℤ sum_current p bs = nonnegative_sum bs a.1 in
      elim (Bool-cases (p b.config)) [
        | inl on ↦
            let first : pos 0 ≤ℤ b.current_weight = a.0 on in
            let total : b.current_weight +ℤ sum_current p bs ≤ℤ pos 0 = rw on at h in
            (
              λ _. omega (arith, +ℤ_parts b.current_weight (sum_current p bs)),
              all_zero bs a.1 (omega (arith, +ℤ_parts b.current_weight (sum_current p bs))),
            )
        | inr off ↦
            let total : pos 0 +ℤ sum_current p bs ≤ℤ pos 0 = rw off at h in
            (λ on. cc off, all_zero bs a.1 (omega (arith, +ℤ_parts (pos 0) (sum_current p bs))))
      ]

pub All-of_get_elem? {ℓ κ} :
    {A : Type ℓ} (P : A → Type κ) (xs : List A)
    → ((i : ℕ) (x : A) → get_elem? xs i ≡ some x → P x)
    → All P xs
All-of_get_elem? P [] h = tt
All-of_get_elem? P (x ∷ xs) h = (h 0 x refl, All-of_get_elem? P xs (λ i y e. h (suc i) y e))

pub get_elem?-same_length {ℓ} :
    {A : Type ℓ} (xs ys : List A) (i : ℕ) (y : A)
    → length ys ≡ length xs
    → get_elem? ys i ≡ some y
    → (x : A) × (get_elem? xs i ≡ some x)
get_elem?-same_length xs [] i y l h = cc h
get_elem?-same_length [] (z ∷ ys) i y l h = cc l
get_elem?-same_length (x ∷ xs) (z ∷ ys) zero y l h = (x, refl)
get_elem?-same_length (x ∷ xs) (z ∷ ys) (suc i) y l h =
    get_elem?-same_length xs ys i y (omega (arith, l)) h
