-- ===== src/Balancer/Balanced.antt =====
-- The states of the balancer between two rounds of smooth weighted round-robin (balancer/load_balancer.cpp), and
-- what one round has to do.
use mathlib.Core.Path.{subst}
use ntonix.Balancer.Scan.{AtMost}
use ntonix.Balancer.Weights.{sum_weight, sum_current, Above}
use ntonix.Balancer.{
  BackendState, BackendSelection, Best, raised, scan, lower_at, start_of_scan, finish, select_in,
  healthy_total, is_zero,
}
use ntonix.Common.Int.{ℤ, pos, ◌+ℤ◌}
use ntonix.Common.{
  ℕ, zero, suc, ◌+◌, ◌*◌, ◌^◌, ◌≡◌, ◌<◌, refl, Bool, true, false, List, [], ◌∷◌, Option, none, some,
  map, arith, if◌then◌else◌, length, get_elem?, nat_beq, option_map, All,
}
use ntonix.Config.{BackendConfig}

-- The current weights of the usable backends sum to zero, each is above minus the total weight, and
-- the total is small enough for int64.
pub record IsBalanced (p : BackendConfig → Bool) (total : ℕ) (bs : List BackendState) : Type 0 where
  pub weight : sum_weight p bs ≡ total
  pub zero_sum : sum_current p bs ≡ pos 0
  pub above : Above p total bs
  pub some_weight : 0 < total
  pub fits : length bs * total + total < 2 ^ 63

pub All-get_elem? {ℓ κ} :
    {A : Type ℓ} (P : A → Type κ) (xs : List A) (i : ℕ) (x : A)
    → get_elem? xs i ≡ some x
    → All P xs
    → P x
All-get_elem? P [] i x h a = cc h
All-get_elem? P (y ∷ ys) zero x h a = let same : y ≡ x = ground arith in subst P same a.0
All-get_elem? P (y ∷ ys) (suc i) x h a = All-get_elem? P ys i x h a.1

pub option_map-some {ℓ κ} :
    {A : Type ℓ} {B : Type κ} (f : A → B) (o : Option A) (y : B)
    → option_map f o ≡ some y
    → (x : A) × (o ≡ some x) × (f x ≡ y)
option_map-some f none y h = cc h
option_map-some f (some x) y h = (x, refl, ground arith)

pub finish_lem :
    (total : ℤ) (bs : List BackendState) (best : Best) (i : ℕ) (b : BackendState)
    → best.selected ≡ some i
    → get_elem? bs i ≡ some b
    → finish total (bs, best)
      ≡ (lower_at i total bs, some (record { backend = b.config; index = i }))
unfolding finish
finish_lem total bs best i b picked here = rw (picked, here) refl

pub select_in_nonzero :
    (p q : BackendConfig → Bool) (bs : List BackendState)
    → is_zero (healthy_total p bs (pos 0)) ≡ false
    → select_in p q bs ≡ finish (healthy_total p bs (pos 0)) (scan q 0 bs start_of_scan)
unfolding select_in healthy_total
select_in_nonzero p q [] h = cc h
select_in_nonzero p q (b ∷ bs) h = rw h refl

-- What one call does: the picked backend, whose raised weight is the largest, is charged the total
-- weight, and every usable backend gains its own.
pub record IsRound (p : BackendConfig → Bool) (total : ℕ) (bs bs' : List BackendState)
    (selection : Option BackendSelection) : Type 0 where
  pub index : ℕ
  pub state : BackendState
  pub here : get_elem? bs index ≡ some state
  pub on : p state.config ≡ true
  pub selected : selection ≡ some (record { backend = state.config; index = index })
  pub largest : AtMost p (state.current_weight +ℤ pos state.config.weight) (map (raised p) bs)
  pub moved :
      (i : ℕ) (b : BackendState)
      → get_elem? bs i ≡ some b
      → (b' : BackendState) × (get_elem? bs' i ≡ some b')
        × (b'.config ≡ b.config)
        × (p b.config ≡ true
            → b'.current_weight +ℤ pos (if nat_beq i index then total else 0)
              ≡ b.current_weight +ℤ pos b.config.weight)
  pub same_length : length bs' ≡ length bs
  pub balanced : IsBalanced p total bs'
