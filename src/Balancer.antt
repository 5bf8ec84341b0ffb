-- ===== src/Balancer.antt =====
-- src/balancer/load_balancer.{hpp,cpp}: `LoadBalancer`, smooth weighted round-robin. A backend's
-- `current_weight` is an int64 that wraps; the health checker is asked in each of the two loops.
pub mod Weights
pub mod Scan
pub mod Select
pub mod Balanced
pub mod Round
pub mod Rounds
pub mod Fairness
pub mod Laws
mod Tests
use ntonix.Common.Int.{ℤ, pos, negsuc, ◌+ℤ◌, ◌-ℤ◌, ltb_ℤ}
use ntonix.Common.{
  ℕ, zero, suc, ◌+◌, ◌-◌, ◌%◌, ◌^◌, Bool, true, false, List, [], ◌∷◌, Option, none, some,
  if◌then◌else◌, ltb, nat_beq, add32, u64_mod, length, get_elem?, keep, map,
}
use ntonix.Config.{BackendConfig}
use ntonix.Health.{HealthChecker, is_healthy}

pub record BackendState : Type 0 where
  pub config : BackendConfig
  pub current_weight : ℤ

pub record BackendSelection : Type 0 where
  pub backend : BackendConfig
  pub index : ℕ

pub record LoadBalancer : Type 0 where
  pub backends : List BackendState
  pub total_weight : ℕ

-- An integer as the int64 with the same residue modulo 2 ^ 64
unfoldable pub residue : ℤ → ℕ
residue (pos n) = n % u64_mod
residue (negsuc n) = u64_mod - 1 - n % u64_mod

unfoldable pub of_residue : ℕ → ℤ
of_residue r = if ltb r (2 ^ 63) then pos r else negsuc (u64_mod - 1 - r)

unfoldable pub wrap : ℤ → ℤ
unfolding residue of_residue
wrap z = of_residue (residue z)

abbrev pub int64_min : ℤ
int64_min = negsuc (2 ^ 63 - 1)

unfoldable pub init : LoadBalancer
init = record { backends = []; total_weight = 0 }

unfoldable pub calculate_total_weight : ℕ → List BackendState → ℕ
calculate_total_weight weight [] = weight
calculate_total_weight weight (b ∷ bs) = calculate_total_weight (add32 weight b.config.weight) bs

unfoldable pub fresh_state : BackendConfig → BackendState
fresh_state config = record { config = config; current_weight = pos 0 }

unfoldable pub set_backends : List BackendConfig → LoadBalancer
unfolding calculate_total_weight fresh_state
set_backends backends =
    let states = map fresh_state backends in
    record { backends = states; total_weight = calculate_total_weight 0 states }

-- `!health_checker_ || health_checker_->is_healthy(config)`
unfoldable pub usable : Option HealthChecker → BackendConfig → Bool
usable none config = true
usable (some h) config = is_healthy h config

-- The first loop of `select_backend`
unfoldable pub healthy_total : (BackendConfig → Bool) → List BackendState → ℤ → ℤ
unfolding wrap ◌+ℤ◌
healthy_total p [] acc = acc
healthy_total p (b ∷ bs) acc =
    healthy_total p bs (if p b.config then wrap (acc +ℤ pos b.config.weight) else acc)

-- `max_weight` and `selected_index`, with `selected`
pub record Best : Type 0 where
  pub max_weight : ℤ
  pub selected : Option ℕ

-- `fetch_add` on a usable backend
unfoldable pub raised : (BackendConfig → Bool) → BackendState → BackendState
unfolding wrap ◌+ℤ◌
raised p b =
    if p b.config
    then record b { current_weight = wrap (b.current_weight +ℤ pos b.config.weight) }
    else b

unfoldable pub considered : (BackendConfig → Bool) → ℕ → BackendState → Best → Best
considered p i b best =
    if p b.config
    then (if ltb_ℤ best.max_weight b.current_weight
        then record { max_weight = b.current_weight; selected = some i }
        else best)
    else best

-- The second loop, from index i on
unfoldable pub scan :
    (BackendConfig → Bool) → ℕ → List BackendState → Best → List BackendState × Best
unfolding raised considered
scan p i [] best = ([], best)
scan p i (b ∷ bs) best =
    let b' = raised p b in
    let (rest, final) = scan p (suc i) bs (considered p i b' best) in (b' ∷ rest, final)

-- `fetch_sub` on the selected backend
unfoldable pub lower_at : ℕ → ℤ → List BackendState → List BackendState
unfolding wrap ◌-ℤ◌
lower_at i total [] = []
lower_at zero total (b ∷ bs) = record b { current_weight = wrap (b.current_weight -ℤ total) } ∷ bs
lower_at (suc i) total (b ∷ bs) = b ∷ lower_at i total bs

abbrev pub start_of_scan : Best
start_of_scan = record { max_weight = int64_min; selected = none }

-- What follows the two loops
unfoldable pub finish : ℤ → List BackendState × Best → List BackendState × Option BackendSelection
unfolding lower_at
finish total (bs, best) = elim best.selected [
  | none ↦ (bs, none)
  | some i ↦ elim (get_elem? bs i) [
    | none ↦ (bs, none)
    | some b ↦ (lower_at i total bs, some (record { backend = b.config; index = i }))
  ]
]

abbrev pub is_zero : ℤ → Bool
is_zero (pos n) = nat_beq n 0
is_zero (negsuc n) = false

-- `select_backend` on the snapshot, with what the health checker answers in each loop
unfoldable pub select_in :
    (BackendConfig → Bool)
    → (BackendConfig → Bool)
    → List BackendState
    → List BackendState × Option BackendSelection
unfolding healthy_total scan finish
select_in p q [] = ([], none)
select_in p q (b ∷ bs) =
    let total = healthy_total p (b ∷ bs) (pos 0) in
    if is_zero total then (b ∷ bs, none) else finish total (scan q 0 (b ∷ bs) start_of_scan)

unfoldable pub select_backend :
    LoadBalancer
    → Option HealthChecker
    → Option HealthChecker
    → LoadBalancer × Option BackendSelection
unfolding select_in usable
select_backend lb before during =
    let (bs, selection) = select_in (usable before) (usable during) lb.backends in
    (record lb { backends = bs }, selection)

unfoldable pub backend_count : LoadBalancer → ℕ
backend_count lb = length lb.backends

unfoldable pub healthy_backend_count : LoadBalancer → Option HealthChecker → ℕ
healthy_backend_count lb none = length lb.backends
healthy_backend_count lb (some h) = length (keep (λ b. is_healthy h b.config) lb.backends)

unfoldable pub has_healthy_backends : LoadBalancer → Option HealthChecker → Bool
unfolding healthy_backend_count
has_healthy_backends lb hc = ltb 0 (healthy_backend_count lb hc)

-- The loop of `healthy_total_weight`
unfoldable pub sum_healthy_weight : HealthChecker → ℕ → List BackendState → ℕ
sum_healthy_weight h weight [] = weight
sum_healthy_weight h weight (b ∷ bs) =
    sum_healthy_weight h (if is_healthy h b.config then add32 weight b.config.weight else weight) bs

unfoldable pub healthy_total_weight : LoadBalancer → Option HealthChecker → ℕ
unfolding sum_healthy_weight
healthy_total_weight lb none = lb.total_weight
healthy_total_weight lb (some h) = sum_healthy_weight h 0 lb.backends
