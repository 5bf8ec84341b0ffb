-- ===== src/Balancer/Round.antt =====
-- One round of smooth weighted round-robin (balancer/load_balancer.cpp), from a balanced state to a
-- balanced state.
use mathlib.Core.Path.{subst}
use ntonix.Balancer.Scan.{AtMost-mono, best_of, scan_lem, best_of_lem, IsPick, AtMost}
use ntonix.Balancer.Select.{
  one_part, get_elem?-map, length-map, length-lower_at, raised_config, raised_weight, in_bounds,
  InBounds, sum_current-raised, sum_weight-raised, Above-raised, lowered, lowered_weight,
  sum_current-lower_at, Above-lower_at, sum_weight-lower_at, get_elem?-lower_at, sum_nonpos,
}
use ntonix.Balancer.Weights.{InRange, sum_current, Below-bound, healthy_total_lem}
use ntonix.Balancer.{
  BackendState, BackendSelection, wrap, raised, lower_at, start_of_scan, select_in, healthy_total,
  int64_min,
}
use ntonix.Common.Int.{
  ℤ, pos, pos_part, neg_part, ◌+ℤ◌, ◌-ℤ◌, ◌≤ℤ◌, ltb_ℤ, +ℤ_parts, eq_of_parts, int_laws,
}
use ntonix.Common.{
  ℕ, ◌*◌, ◌^◌, ◌≡◌, ◌<◌, refl, ap, sym, ◌∙◌, Bool, true, List, Option, some, map, arith,
  if◌then◌else◌, length, get_elem?, nat_beq, option_map, Bool-cases, inl, inr,
}
use ntonix.Config.{BackendConfig}
use ntonix.Balancer.Balanced.{
  IsBalanced, IsRound, finish_lem, option_map-some, select_in_nonzero, All-get_elem?,
}

module _ (p : BackendConfig → Bool) (total : ℕ) (bs : List BackendState)
    (v : IsBalanced p total bs) where
  total_small : total < 2 ^ 63
  total_small = omega (arith, v.fits)

  bounds : InBounds p bs
  bounds =
      in_bounds p total (length bs * total) 0 bs v.above
        (Below-bound p total (length bs * total) bs v.above
          (omega (arith, ap pos_part v.zero_sum, ap neg_part v.zero_sum)))
        (omega (arith, v.weight, v.fits)) (omega (arith, total_small))

  raised_sum : sum_current p (map (raised p) bs) ≡ pos total
  raised_sum = sum_current-raised p bs bounds ∙ rw (v.zero_sum, v.weight) (omega int_laws)

  not_small : (top : ℤ) → top ≤ℤ pos 0 → AtMost p top (map (raised p) bs) → ◌≡◌ {A = ℕ} 0 1
  not_small top low small =
      let most : sum_current p (map (raised p) bs) ≤ℤ pos 0 =
        sum_nonpos p (map (raised p) bs)
          (AtMost-mono p top (pos 0) (map (raised p) bs) low small) in
      omega (arith, ap pos_part raised_sum, ap neg_part raised_sum, v.some_weight)

  impossible {ℓ} : {A : Type ℓ} → ◌≡◌ {A = ℕ} 0 1 → A
  impossible h = cc h

  pick_pos :
      (pick : IsPick p 0
        (map (raised p) bs)
        start_of_scan
        (best_of p 0 (map (raised p) bs) start_of_scan))
      → ltb_ℤ (pos 0) (best_of p 0 (map (raised p) bs) start_of_scan).max_weight ≡ true
      → 0 < pos_part pick.state.current_weight
  pick_pos pick high =
      let more : ltb_ℤ (pos 0) pick.state.current_weight ≡ true = rw (pick.weight) at high in
      ground arith

  abbrev Picked : Type 0
  Picked =
      (pick : IsPick p 0 (map (raised p) bs) start_of_scan
        (best_of p 0 (map (raised p) bs) start_of_scan))
      × (0 < pos_part pick.state.current_weight)

  -- The second loop picks a usable backend of positive weight.
  picked : Picked
  picked = elim (best_of_lem p (map (raised p) bs) 0 start_of_scan) [
    | inl (same, small) ↦ impossible (not_small int64_min (omega arith) small)
    | inr pick ↦
        elim (Bool-cases
          (ltb_ℤ (pos 0) (best_of p 0 (map (raised p) bs) start_of_scan).max_weight)) [
            | inl high ↦ (pick, pick_pos pick high)
            | inr low ↦ impossible (not_small _ (ground arith) pick.largest)
          ]
  ]

  select_in_pick :
      (pick : IsPick p 0
        (map (raised p) bs)
        start_of_scan
        (best_of p 0 (map (raised p) bs) start_of_scan))
      → select_in p p bs ≡ (
        lower_at pick.offset (pos total) (map (raised p) bs),
        some (record { backend = pick.state.config; index = pick.offset }),
      )
  select_in_pick pick =
      let sum : healthy_total p bs (pos 0) ≡ pos total =
        healthy_total_lem p bs 0 (omega (arith, v.weight, v.fits))
        ∙ ap pos (omega (arith, v.weight)) in
      select_in_nonzero p p bs (rw sum (ground (arith, v.some_weight)))
      ∙ rw (sum, scan_lem p bs 0 start_of_scan)
          (finish_lem (pos total) (map (raised p) bs) _ pick.offset pick.state
            (pick.selected ∙ ap some (omega arith)) pick.here)

  module _
      (pick : IsPick p 0
        (map (raised p) bs)
        start_of_scan
        (best_of p 0 (map (raised p) bs) start_of_scan))
      (positive : 0 < pos_part pick.state.current_weight) where
    abbrev after : List BackendState
    after = lower_at pick.offset (pos total) (map (raised p) bs)

    source : (x : BackendState) × (get_elem? bs pick.offset ≡ some x) × (raised p x ≡ pick.state)
    source =
        option_map-some (raised p) (get_elem? bs pick.offset) pick.state
          (sym (get_elem?-map (raised p) bs pick.offset) ∙ pick.here)

    source_on : p source.0.config ≡ true
    source_on =
        ap p (sym (raised_config p source.0) ∙ ap (λ (b : BackendState). b.config) source.2)
        ∙ pick.on

    source_weight :
        pick.state.current_weight ≡ source.0.current_weight +ℤ pos source.0.config.weight
    source_weight =
        ap (λ (b : BackendState). b.current_weight) (sym source.2)
        ∙ raised_weight p source.0 source_on
            (All-get_elem? _ bs pick.offset source.0 source.1 bounds source_on)

    exact : wrap (pick.state.current_weight -ℤ pos total) ≡ pick.state.current_weight -ℤ pos total
    exact =
        let range : InRange (source.0.current_weight +ℤ pos source.0.config.weight) =
          All-get_elem? _ bs pick.offset source.0 source.1 bounds source_on in
        lowered_weight p total pick.state
          (omega (arith, positive, one_part pick.state.current_weight))
          (omega (arith, ap pos_part source_weight, range.0)) (omega (arith, total_small))

    after_zero_sum : sum_current p after ≡ pos 0
    after_zero_sum =
        let moved : sum_current p after +ℤ pos total ≡ pos total =
          sum_current-lower_at p total pick.state pick.on exact pick.offset (map (raised p) bs)
            pick.here
          ∙ raised_sum in
        eq_of_parts _ _ (
          omega (
            arith,
            +ℤ_parts (sum_current p after) (pos total),
            ap pos_part moved,
            ap neg_part moved,
          ))

    length-after : length after ≡ length bs
    length-after =
        length-lower_at pick.offset (pos total) (map (raised p) bs) ∙ length-map (raised p) bs

    after-IsBalanced : IsBalanced p total after
    after-IsBalanced = record {
      weight =
          sum_weight-lower_at p total pick.offset (map (raised p) bs)
          ∙ sum_weight-raised p bs
          ∙ v.weight;
      zero_sum = after_zero_sum;
      above =
          Above-lower_at p total pick.state pick.on exact total pick.offset (map (raised p) bs)
            pick.here (omega (arith, positive, one_part pick.state.current_weight))
            (Above-raised p total bs bounds v.above);
      some_weight = v.some_weight;
      fits = rw (length-after) v.fits;
    }

    after_moved :
        (i : ℕ) (b : BackendState)
        → get_elem? bs i ≡ some b
        → (b' : BackendState) × (get_elem? after i ≡ some b')
          × (b'.config ≡ b.config)
          × (p b.config ≡ true
              → b'.current_weight +ℤ pos (if nat_beq i pick.offset then total else 0)
                ≡ b.current_weight +ℤ pos b.config.weight)
    after_moved i b here =
        let weight : p b.config ≡ true
            → (raised p b).current_weight ≡ b.current_weight +ℤ pos b.config.weight =
          λ on. raised_weight p b on (All-get_elem? _ bs i b here bounds on) in
        let found : get_elem? (map (raised p) bs) i ≡ some (raised p b) =
          get_elem?-map (raised p) bs i ∙ ap (option_map (raised p)) here in
        elim (Bool-cases (nat_beq i pick.offset)) [
          | inl same ↦
              let at : i ≡ pick.offset = ground arith in
              let picked : raised p b ≡ pick.state = cc (found, at, pick.here) in
              let exact' : wrap ((raised p b).current_weight -ℤ pos total)
                  ≡ (raised p b).current_weight -ℤ pos total =
                subst
                  (λ (r : BackendState).
                    wrap (r.current_weight -ℤ pos total) ≡ r.current_weight -ℤ pos total)
                  (sym picked) exact in
              (
                lowered total (raised p b),
                get_elem?-lower_at p total pick.offset i (map (raised p) bs)
                    ∙ rw (same, found) refl,
                raised_config p b,
                λ on. rw (same, exact', weight on) (omega int_laws),
              )
          | inr other ↦ (
            raised p b,
            get_elem?-lower_at p total pick.offset i (map (raised p) bs) ∙ rw (other, found) refl,
            raised_config p b,
            λ on. rw (other, weight on) (omega int_laws),
          )
        ]

  -- The round, from the snapshot's point of view: who is picked, and what the weights become.
  pub round : IsRound p total bs (select_in p p bs).0 (select_in p p bs).1
  round =
      let (pick, positive) = picked in
      let chosen : BackendState = (source pick positive).0 in
      let same_config : pick.state.config ≡ chosen.config =
        ap (λ (b : BackendState). b.config) (sym (source pick positive).2)
        ∙ raised_config p chosen in
      subst (λ (r : List BackendState × Option BackendSelection). IsRound p total bs r.0 r.1)
        (sym (select_in_pick pick))
        (record {
          index = pick.offset;
          state = chosen;
          here = (source pick positive).1;
          on = source_on pick positive;
          selected =
              ap (λ (c : BackendConfig). some (record { backend = c; index = pick.offset }))
                same_config;
          largest =
              subst (λ z. AtMost p z (map (raised p) bs))
                (pick.weight ∙ source_weight pick positive) pick.largest;
          moved = after_moved pick positive;
          same_length = length-after pick positive;
          balanced = after-IsBalanced pick positive;
        })
