-- ===== src/Balancer/Laws.antt =====
-- What `select_backend` (balancer/load_balancer.cpp) promises whatever the weights and whatever the
-- health checker answers in its two loops.
use mathlib.Core.Path.{subst}
use ntonix.Balancer.Scan.{scan_lem, best_of_lem, AtMost}
use ntonix.Balancer.Round.{round}
use ntonix.Balancer.Balanced.{option_map-some, finish_lem, select_in_nonzero, IsBalanced}
use ntonix.Balancer.Select.{get_elem?-map, raised_config}
use ntonix.Balancer.Weights.{sum_weight, healthy_total_lem}
use ntonix.Balancer.{
  BackendState, BackendSelection, raised, scan, start_of_scan, finish, select_in, healthy_total,
  is_zero,
}
use ntonix.Common.Int.{ℤ, pos, ◌+ℤ◌}
use ntonix.Common.{
  ℕ, ◌≡◌, refl, ap, sym, ◌∙◌, Bool, true, List, [], ◌∷◌, Option, none, some, map, arith, get_elem?,
  Bool-cases, inl, inr,
}
use ntonix.Config.{BackendConfig}

module _ (p q : BackendConfig → Bool) where
  IsChoice : List BackendState → Option BackendSelection → Type 0
  IsChoice bs selection =
      (s : BackendSelection)
      → selection ≡ some s
      → (b : BackendState) × (get_elem? bs s.index ≡ some b)
        × (b.config ≡ s.backend)
        × (q b.config ≡ true)

  none-IsChoice : (bs : List BackendState) → IsChoice bs none
  unfolding IsChoice
  none-IsChoice bs s h = cc h

  unraised :
      (bs : List BackendState) (i : ℕ) (b' : BackendState)
      → get_elem? (map (raised q) bs) i ≡ some b'
      → (b : BackendState) × (get_elem? bs i ≡ some b) × (b.config ≡ b'.config)
  unraised bs i b' h =
      let (b, here, same) =
        option_map-some (raised q) (get_elem? bs i) b' (sym (get_elem?-map (raised q) bs i) ∙ h) in
      (b, here, sym (raised_config q b) ∙ ap (λ (r : BackendState). r.config) same)

  finish-none : (total : ℤ) (bs : List BackendState) → finish total (bs, start_of_scan) ≡ (bs, none)
  unfolding finish
  finish-none total bs = refl

  some-IsChoice :
      (bs : List BackendState) (index : ℕ) (b : BackendState)
      → get_elem? bs index ≡ some b
      → q b.config ≡ true
      → IsChoice bs (some (record { backend = b.config; index = index }))
  unfolding IsChoice
  some-IsChoice bs index b here on s h =
      let same : s ≡ record { backend = b.config; index = index } = ground arith in
      (b, rw same here, rw same refl, on)

  finish-IsChoice :
      (bs : List BackendState) (total : ℤ)
      → IsChoice bs (finish total (scan q 0 bs start_of_scan)).1
  finish-IsChoice bs total =
      rw (scan_lem q bs 0 start_of_scan) (elim (best_of_lem q (map (raised q) bs) 0 start_of_scan) [
        | inl (same, small) ↦ rw (same, finish-none total (map (raised q) bs)) (none-IsChoice bs)
        | inr pick ↦
            let (b, here, same) = unraised bs pick.offset pick.state pick.here in
            subst (λ (r : List BackendState × Option BackendSelection). IsChoice bs r.1)
              (sym (
                finish_lem total (map (raised q) bs) _ pick.offset pick.state
                  (pick.selected ∙ ap some (omega arith)) pick.here))
              (subst
                (λ (c : BackendConfig).
                  IsChoice bs (some (record { backend = c; index = pick.offset })))
                same (some-IsChoice bs pick.offset b here (ap q same ∙ pick.on)))
      ])

  pub select_in_zero :
      (bs : List BackendState)
      → is_zero (healthy_total p bs (pos 0)) ≡ true
      → select_in p q bs ≡ (bs, none)
  unfolding select_in
  select_in_zero [] h = refl
  select_in_zero (b ∷ bs) h = rw h refl

  choice : (bs : List BackendState) → IsChoice bs (select_in p q bs).1
  choice bs = elim (Bool-cases (is_zero (healthy_total p bs (pos 0)))) [
    | inl zero_total ↦ rw (select_in_zero bs zero_total) (none-IsChoice bs)
    | inr positive ↦
        rw (select_in_nonzero p q bs positive) (finish-IsChoice bs (healthy_total p bs (pos 0)))
  ]

  -- A selection names a configured backend by its index, and that backend was usable when the second
  -- loop asked, for all current weights and all answers.
  pub select_in-usable :
      (bs : List BackendState) (s : BackendSelection)
      → (select_in p q bs).1 ≡ some s
      → (b : BackendState) × (get_elem? bs s.index ≡ some b)
        × (b.config ≡ s.backend)
        × (q b.config ≡ true)
  unfolding IsChoice
  select_in-usable bs = choice bs

  -- When the weights of the backends that are usable in the first loop add up to 0, a call returns
  -- nothing and moves no weight.
  pub select_in-idle :
      (bs : List BackendState) → sum_weight p bs ≡ 0 → select_in p q bs ≡ (bs, none)
  select_in-idle bs h =
      let total : healthy_total p bs (pos 0) ≡ pos 0 =
        healthy_total_lem p bs 0 (omega (arith, h)) ∙ ap pos (omega (arith, h)) in
      select_in_zero bs (rw total refl)

-- With answers that do not change during the call and weights in balance (they sum to 0, each is above
-- minus the total W > 0, and (n + 1) * W fits int64), a call selects a usable backend whose current
-- weight plus its own weight is the largest, and leaves the weights in balance.
pub select_in-largest :
    (p : BackendConfig → Bool) (total : ℕ) (bs : List BackendState)
    → IsBalanced p total bs
    → (s : BackendSelection) × (b : BackendState) × ((select_in p p bs).1 ≡ some s)
      × (get_elem? bs s.index ≡ some b)
      × (p b.config ≡ true)
      × AtMost p (b.current_weight +ℤ pos b.config.weight) (map (raised p) bs)
      × IsBalanced p total (select_in p p bs).0
select_in-largest p total bs v =
    let r = round p total bs v in (_, r.state, r.selected, r.here, r.on, r.largest, r.balanced)
