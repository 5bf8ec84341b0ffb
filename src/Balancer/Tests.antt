-- ===== src/Balancer/Tests.antt =====
-- The theorems on src/balancer/load_balancer.cpp at a pool of three backends, the last of them down.
use ntonix.Balancer.Fairness.{picks_of-rounds, fresh-IsBalanced, set_backends-IsFresh}
use ntonix.Balancer.Rounds.{rounds, picks_of}
use ntonix.Balancer.Laws.{select_in-usable, select_in-largest}
use ntonix.Balancer.Balanced.{IsBalanced}
use ntonix.Balancer.Scan.{AtMost}
use ntonix.Balancer.Weights.{sum_weight}
use ntonix.Balancer.{
  BackendState, BackendSelection, calculate_total_weight, fresh_state, set_backends, healthy_total,
  raised, considered, scan, lower_at, finish, select_in, wrap,
}
use ntonix.Common.Int.{pos, negsuc, ◌+ℤ◌, ◌-ℤ◌}
use ntonix.Common.{
  ℕ, ◌≡◌, refl, Bool, true, List, [], ◌∷◌, some, arith, get_elem?, nat_beq, not, map, codes,
}
use ntonix.Config.{BackendConfig}

program : Unit {0}
unfolding set_backends fresh_state calculate_total_weight wrap ◌+ℤ◌ ◌-ℤ◌ healthy_total raised
    considered scan lower_at finish select_in
program = tt

abbrev backend : ℕ → ℕ → BackendConfig
backend port weight = record { host = codes "localhost"; port = port; weight = weight }

abbrev heavy : BackendConfig
heavy = backend 8001 5

abbrev light : BackendConfig
light = backend 8002 2

abbrev down : BackendConfig
down = backend 8003 7

abbrev up : BackendConfig → Bool
up b = not (nat_beq b.port 8003)

abbrev configs : List BackendConfig
configs = heavy ∷ light ∷ down ∷ []

abbrev pool : List BackendState
pool =
    record { config = heavy; current_weight = pos 0 }
    ∷ record { config = light; current_weight = pos 0 }
    ∷ record { config = down; current_weight = pos 0 }
    ∷ []

pool_lem : (set_backends configs).backends ≡ pool
unfolding program
pool_lem = refl

first_picks :
    (rounds up 4 pool).1
    ≡ some (record { backend = heavy; index = 0 })
      ∷ some (record { backend = heavy; index = 0 })
      ∷ some (record { backend = light; index = 1 })
      ∷ some (record { backend = heavy; index = 0 })
      ∷ []
unfolding program
first_picks = refl

pool-IsBalanced : IsBalanced up 7 pool
unfolding program
pool-IsBalanced =
    fresh-IsBalanced up pool (set_backends-IsFresh configs) (omega arith) (omega arith)

picks_of-rounds_example :
    picks_of 1
      (rounds up (sum_weight up (set_backends configs).backends) (set_backends configs).backends).1
    ≡ 2
unfolding program
picks_of-rounds_example =
    picks_of-rounds up configs 1 (record { config = light; current_weight = pos 0 }) (omega arith)
      (omega arith) refl refl

select_in-largest_example :
    (s : BackendSelection) × (b : BackendState) × ((select_in up up pool).1 ≡ some s)
    × (get_elem? pool s.index ≡ some b)
    × (up b.config ≡ true)
    × AtMost up (b.current_weight +ℤ pos b.config.weight) (map (raised up) pool)
    × IsBalanced up 7 (select_in up up pool).0
select_in-largest_example = select_in-largest up 7 pool pool-IsBalanced

select_in-usable_example :
    (b : BackendState) × (get_elem? pool 0 ≡ some b) × (b.config ≡ heavy) × (up b.config ≡ true)
unfolding program
select_in-usable_example = select_in-usable up up pool (record { backend = heavy; index = 0 }) refl

abbrev pool_down : List BackendState
pool_down = record { config = down; current_weight = negsuc 4 } ∷ []
