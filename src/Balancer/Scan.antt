-- ===== src/Balancer/Scan.antt =====
-- The two loops of `select_backend` (balancer/load_balancer.cpp) against plain sums: what the
-- second loop raises, and which backend it picks.
use mathlib.Core.Path.{subst}
use ntonix.Balancer.{BackendState, Best, raised, considered, scan}
use ntonix.Common.Int.{ℤ, ◌≤ℤ◌, ltb_ℤ}
use ntonix.Common.{
  ℕ, suc, ◌+◌, ◌≡◌, refl, ap, sym, ◌∙◌, Bool, true, false, List, [], ◌∷◌, some, map, arith,
  get_elem?, All, Bool-cases, inl, inr, ◌⊎◌,
}
use ntonix.Config.{BackendConfig}

module _ (p : BackendConfig → Bool) where
  -- The choice of the second loop, on weights that are already raised
  pub best_of : ℕ → List BackendState → Best → Best
  best_of i [] best = best
  best_of i (b ∷ bs) best = best_of (suc i) bs (considered p i b best)

  pub scan_lem :
      (bs : List BackendState) (i : ℕ) (best : Best)
      → scan p i bs best ≡ (map (raised p) bs, best_of i (map (raised p) bs) best)
  unfolding best_of
  scan_lem [] i best = scan_nil i best
    where
      scan_nil : (i : ℕ) (best : Best) → scan p i [] best ≡ ([], best)
      scan_nil i best = unfold scan in refl
  scan_lem (b ∷ bs) i best =
      scan_cons b bs i best (scan_lem bs (suc i) (considered p i (raised p b) best))
    where
      scan_cons :
          (b : BackendState) (bs : List BackendState) (i : ℕ) (best : Best)
          → scan p (suc i) bs (considered p i (raised p b) best) ≡ (
            map (raised p) bs,
            best_of (suc i) (map (raised p) bs) (considered p i (raised p b) best),
          )
          → scan p i (b ∷ bs) best
            ≡ (map (raised p) (b ∷ bs), best_of i (map (raised p) (b ∷ bs)) best)
      scan_cons b bs i best ih =
          unfold scan in ap (λ (r : List BackendState × Best). (raised p b ∷ r.0, r.1)) ih

  abbrev pub AtMost : ℤ → List BackendState → Type 0
  AtMost top = All (λ b. p b.config ≡ true → b.current_weight ≤ℤ top)

  -- A pick: a usable backend whose weight is the largest.
  pub record IsPick (i : ℕ) (bs : List BackendState) (best final : Best) : Type 0 where
    pub offset : ℕ
    pub state : BackendState
    pub selected : final.selected ≡ some (i + offset)
    pub here : get_elem? bs offset ≡ some state
    pub on : p state.config ≡ true
    pub weight : final.max_weight ≡ state.current_weight
    pub above : (best.max_weight ≤ℤ final.max_weight)
    pub largest : AtMost final.max_weight bs

  pub AtMost-mono : (a b : ℤ) (bs : List BackendState) → a ≤ℤ b → AtMost a bs → AtMost b bs
  AtMost-mono a b [] h m = tt
  AtMost-mono a b (x ∷ bs) h m =
      (λ on. let first : x.current_weight ≤ℤ a = m.0 on in omega arith, AtMost-mono a b bs h m.1)

  abbrev Outcome : ℕ → List BackendState → Best → Best → Type 0
  Outcome i bs best final = ((final ≡ best) × AtMost best.max_weight bs) ⊎ IsPick i bs best final

  skip_head :
      (i : ℕ) (b : BackendState) (bs : List BackendState) (best final : Best)
      → (p b.config ≡ true → b.current_weight ≤ℤ best.max_weight)
      → Outcome (suc i) bs best final
      → Outcome i (b ∷ bs) best final
  skip_head i b bs best final small (inl (same, m)) = inl (same, (small, m))
  skip_head i b bs best final small (inr k) = inr (record {
    offset = suc k.offset;
    state = k.state;
    selected = k.selected ∙ ap some (omega arith);
    here = k.here;
    on = k.on;
    weight = k.weight;
    above = k.above;
    largest = (
      λ on.
          let first : b.current_weight ≤ℤ best.max_weight = small on in
          let second : best.max_weight ≤ℤ final.max_weight = k.above in omega arith,
      k.largest,
    );
  })

  take_head :
      (i : ℕ) (b : BackendState) (bs : List BackendState) (best final : Best)
      → p b.config ≡ true
      → best.max_weight ≤ℤ b.current_weight
      → Outcome (suc i) bs (record { max_weight = b.current_weight; selected = some i }) final
      → IsPick i (b ∷ bs) best final
  take_head i b bs best final on more (inl (same, m)) = record {
    offset = 0;
    state = b;
    selected = ap (λ (r : Best). r.selected) same ∙ ap some (omega arith);
    here = refl;
    on = on;
    weight = ap (λ (r : Best). r.max_weight) same;
    above = subst (λ (r : Best). best.max_weight ≤ℤ r.max_weight) (sym same) more;
    largest = (
      λ _. rw (ap (λ (r : Best). r.max_weight) same) (omega arith),
      subst (λ (r : Best). AtMost r.max_weight bs) (sym same) m,
    );
  }
  take_head i b bs best final on more (inr k) = record {
    offset = suc k.offset;
    state = k.state;
    selected = k.selected ∙ ap some (omega arith);
    here = k.here;
    on = k.on;
    weight = k.weight;
    above = (let second : b.current_weight ≤ℤ final.max_weight = k.above in omega arith);
    largest = (λ _. k.above, k.largest);
  }

  module _ (i : ℕ) (b : BackendState) (best : Best) where
    considered_more :
        p b.config ≡ true
        → ltb_ℤ best.max_weight b.current_weight ≡ true
        → considered p i b best ≡ record { max_weight = b.current_weight; selected = some i }
    unfolding considered
    considered_more on more = ground arith

    considered_less : ltb_ℤ best.max_weight b.current_weight ≡ false → considered p i b best ≡ best
    unfolding considered
    considered_less less = ground arith

    considered_off : p b.config ≡ false → considered p i b best ≡ best
    unfolding considered
    considered_off off = ground arith

  pub best_of_lem :
      (bs : List BackendState) (i : ℕ) (best : Best)
      → ((best_of i bs best ≡ best) × AtMost best.max_weight bs)
        ⊎ IsPick i bs best (best_of i bs best)
  unfolding best_of
  best_of_lem [] i best = inl (refl, tt)
  best_of_lem (b ∷ bs) i best =
      let ih : Outcome (suc i) bs (considered p i b best)
          (best_of (suc i) bs (considered p i b best)) =
        best_of_lem bs (suc i) (considered p i b best) in
      let final : Best = best_of (suc i) bs (considered p i b best) in
      elim (Bool-cases (p b.config)) [
        | inl on ↦ elim (Bool-cases (ltb_ℤ best.max_weight b.current_weight)) [
          | inl more ↦ inr (
              take_head i b bs best final on (ground arith)
                (subst (λ r. Outcome (suc i) bs r final) (considered_more i b best on more) ih))
          | inr less ↦
              skip_head i b bs best final (λ _. ground arith)
                (subst (λ r. Outcome (suc i) bs r final) (considered_less i b best less) ih)
        ]
        | inr off ↦
            skip_head i b bs best final (λ on. cc off)
              (subst (λ r. Outcome (suc i) bs r final) (considered_off i b best off) ih)
      ]
