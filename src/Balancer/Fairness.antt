-- ===== src/Balancer/Fairness.antt =====
-- Runs of `select_backend` (balancer/load_balancer.cpp) while the same backends stay usable: over as
-- many calls as the total weight, each backend is picked as often as its weight says.
use ntonix.Balancer.Scan.{AtMost}
use ntonix.Balancer.Balanced.{All-get_elem?}
use ntonix.Balancer.Balanced.{IsBalanced}
use ntonix.Balancer.Weights.{sum_weight, sum_current, Above}
use ntonix.Balancer.{set_backends, fresh_state, BackendState, BackendSelection}
use ntonix.Common.Int.{pos, pos_part, neg_part, ◌+ℤ◌, ◌≤ℤ◌, +ℤ_parts, int_laws}
use ntonix.Common.{
  ℕ, ◌+◌, ◌*◌, ◌^◌, ◌≡◌, ◌<◌, refl, ap, sym, ◌∙◌, Bool, true, List, [], ◌∷◌, Option, some, arith,
  length, get_elem?, All, Bool-cases, inl, inr,
}
use ntonix.Config.{BackendConfig}
use ntonix.Balancer.Rounds.{
  IsRun, NonNegative, all_zero, picks_of, rounds, rounds-IsRun, get_elem?-same_length,
  All-of_get_elem?, exactly, whole,
}

pub IsFresh : List BackendState → Type 0
IsFresh = All (λ b. b.current_weight ≡ pos 0)

module _ (p : BackendConfig → Bool) where
  fresh_sum : (bs : List BackendState) → IsFresh bs → sum_current p bs ≡ pos 0
  unfolding IsFresh
  fresh_sum [] f = refl
  fresh_sum (b ∷ bs) f = elim (Bool-cases (p b.config)) [
    | inl on ↦ rw (on, f.0, fresh_sum bs f.1) (omega int_laws)
    | inr off ↦ rw (off, fresh_sum bs f.1) (omega int_laws)
  ]

  Above-fresh : (total : ℕ) (bs : List BackendState) → 0 < total → IsFresh bs → Above p total bs
  unfolding IsFresh
  Above-fresh total [] h f = tt
  Above-fresh total (b ∷ bs) h f = (λ _. rw (f.0) (omega arith), Above-fresh total bs h f.1)

  module _ (bs : List BackendState) (total : ℕ) (f : IsFresh bs) (bs' : List BackendState)
      (picks : List (Option BackendSelection)) (run : IsRun p total total bs bs' picks) where
    -- What the run did to the backend that is at index i afterwards
    moved_from_zero :
        (i : ℕ) (b' : BackendState)
        → get_elem? bs' i ≡ some b'
        → p b'.config ≡ true
        → b'.current_weight +ℤ pos (total * picks_of i picks)
          ≡ pos 0 +ℤ pos (total * b'.config.weight)
    unfolding IsFresh
    moved_from_zero i b' at' on' =
        let (b, at) = get_elem?-same_length bs bs' i b' run.same_length at' in
        let (m, at_m, config_m, weight_m) = run.moved i b at in
        let zero_b : b.current_weight ≡ pos 0 = All-get_elem? _ bs i b at f in
        let same : m ≡ b' = cc (at_m, at') in
        let config_b : b.config ≡ b'.config =
          sym config_m ∙ ap (λ (r : BackendState). r.config) same in
        ap (λ (r : BackendState). r.current_weight +ℤ pos (total * picks_of i picks)) (sym same)
        ∙ weight_m (ap p config_b ∙ on')
        ∙ ap (λ z. z +ℤ pos (total * b.config.weight)) zero_b
        ∙ ap (λ (c : BackendConfig). pos 0 +ℤ pos (total * c.weight)) config_b

    settled : NonNegative p total bs'
    unfolding NonNegative
    settled = All-of_get_elem? _ bs' (λ i b' at' on'.
        let above = All-get_elem? _ bs' i b' at' run.balanced.above in
        whole p total b'.current_weight (picks_of i picks) b'.config.weight
          (moved_from_zero i b' at' on') (above on'))

    back_to_zero : AtMost p (pos 0) bs'
    back_to_zero =
        all_zero p total bs' settled
          (omega (arith, ap pos_part run.balanced.zero_sum, ap neg_part run.balanced.zero_sum))

    picked_exactly :
        (i : ℕ) (b' : BackendState)
        → get_elem? bs' i ≡ some b'
        → p b'.config ≡ true
        → picks_of i picks ≡ b'.config.weight
    unfolding NonNegative
    picked_exactly i b' at' on' =
        let low : b'.current_weight ≤ℤ pos 0 = All-get_elem? _ bs' i b' at' back_to_zero on' in
        let high : pos 0 ≤ℤ b'.current_weight = All-get_elem? _ bs' i b' at' settled on' in
        let e = moved_from_zero i b' at' on' in
        exactly p total (picks_of i picks) b'.config.weight run.balanced.some_weight (
          omega (
            arith,
            ap pos_part e,
            ap neg_part e,
            +ℤ_parts b'.current_weight (pos (total * picks_of i picks)),
            +ℤ_parts (pos 0) (pos (total * b'.config.weight)),
          ))

-- Right after set_backends every weight is zero.
pub set_backends-IsFresh : (configs : List BackendConfig) → IsFresh (set_backends configs).backends
unfolding IsFresh fresh_state set_backends
set_backends-IsFresh [] = tt
set_backends-IsFresh (c ∷ cs) = (refl, set_backends-IsFresh cs)

pub fresh-IsBalanced :
    (p : BackendConfig → Bool) (bs : List BackendState)
    → IsFresh bs
    → 0 < sum_weight p bs
    → length bs * sum_weight p bs + sum_weight p bs < 2 ^ 63
    → IsBalanced p (sum_weight p bs) bs
fresh-IsBalanced p bs f h fits = record {
  weight = refl;
  zero_sum = fresh_sum p bs f;
  above = Above-fresh p (sum_weight p bs) bs h f;
  some_weight = h;
  fits = fits;
}

-- Let the same backends be usable during all calls, with total weight W > 0, and let (n + 1) * W fit
-- int64 for n configured backends. From set_backends on, W calls pick each usable backend exactly as
-- often as its weight says.
pub picks_of-rounds :
    (p : BackendConfig → Bool) (configs : List BackendConfig) (i : ℕ) (b : BackendState)
    → 0 < sum_weight p (set_backends configs).backends
    → length (set_backends configs).backends * sum_weight p (set_backends configs).backends
        + sum_weight p (set_backends configs).backends
      < 2 ^ 63
    → get_elem? (set_backends configs).backends i ≡ some b
    → p b.config ≡ true
    → picks_of i
        (rounds p (sum_weight p (set_backends configs).backends) (set_backends configs).backends).1
      ≡ b.config.weight
picks_of-rounds p configs i b h fits here on =
    let bs : List BackendState = (set_backends configs).backends in
    let total : ℕ = sum_weight p bs in
    let fresh : IsFresh bs = set_backends-IsFresh configs in
    let run : IsRun p total total bs (rounds p total bs).0 (rounds p total bs).1 =
      rounds-IsRun p total total bs (fresh-IsBalanced p bs fresh h fits) in
    let (m, at_m, config_m, weight_m) = run.moved i b here in
    picked_exactly p bs total fresh (rounds p total bs).0 (rounds p total bs).1 run i m at_m
      (ap p config_m ∙ on)
    ∙ ap (λ (c : BackendConfig). c.weight) config_m
