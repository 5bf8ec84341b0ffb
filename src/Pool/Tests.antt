-- ===== src/Pool/Tests.antt =====
-- The theorems on src/proxy/connection_pool.cpp at a pool of at most two connections, and the one
-- interleaving that takes a pool over its limit.
use ntonix.Common.Decimal.{digits, to_decimal}
use ntonix.Common.Map.{find}
use ntonix.Common.{
  ℕ, ◌≡◌, refl, Bool, true, false, List, [], ◌∷◌, none, arith, if◌then◌else◌, add64, sub64, codes,
  text_eq,
}
use ntonix.Config.{BackendConfig}
use ntonix.Pool.Guard.{new_guard, release, move_guard}
use ntonix.Pool.Leases.{run-IsExclusive, new_pool-IsExclusive}
use ntonix.Pool.Holdings.{Holdings, Call, gets, returns, step, run, IsExclusive}
use ntonix.Pool.Manager.{
  ConnectionPoolManager, backend_key, new_manager, remove_pools, add_pool, add_pools, set_backends,
  has_key, or_new, first_with, find-set_backends,
}
use ntonix.Pool.{
  ConnectionPoolConfig, PooledConnection, Sockets, new_connection, is_valid, is_idle, mark_in_use,
  mark_returned, BackendPool, new_pool, first_valid, create_connection, create_within, lend,
  get_connection, uncount, put_back, return_connection, cleanup_idle, close_all,
}

program : Unit {0}
unfolding digits to_decimal add64 sub64 new_guard release move_guard step run backend_key
    new_manager remove_pools add_pool add_pools set_backends new_connection is_valid is_idle
    mark_in_use mark_returned new_pool first_valid create_connection create_within lend
    get_connection uncount put_back return_connection cleanup_idle close_all
program = tt

abbrev backend : BackendConfig
backend = record { host = codes "a"; port = 80; weight = 1 }

abbrev limited : ℕ → ConnectionPoolConfig
limited n = record {
  pool_size_per_backend = n;
  idle_timeout = 60;
  connection_timeout = 5;
  cleanup_interval = 30;
  enable_keep_alive = true;
}

abbrev all_open : Sockets
all_open s = true

abbrev connection : ℕ → ℕ → ℕ → Bool → PooledConnection
connection socket last_used usage_count in_use = record {
  socket = socket;
  backend = backend;
  last_used = last_used;
  usage_count = usage_count;
  in_use = in_use;
}

abbrev start : Holdings
start = record { pool = new_pool backend (limited 2); leases = [] }

abbrev calls : List Call
calls =
    gets all_open true 10
    ∷ gets all_open true 20
    ∷ gets all_open true 30
    ∷ returns all_open 40 1 true
    ∷ gets all_open true 50
    ∷ []

-- The third call finds the pool exhausted, and the last one gets the connection that came back.
calls_lem : run calls start ≡ record {
  pool = record (new_pool backend (limited 2)) { in_use = 2; total_created = 2 };
  leases = connection 0 50 2 true ∷ connection 1 20 1 true ∷ [];
}
unfolding program
calls_lem = refl

run-IsExclusive_example : IsExclusive (run calls start)
run-IsExclusive_example =
    run-IsExclusive calls start (new_pool-IsExclusive backend (limited 2) (omega arith))

-- A return that has counted down, a call that connects, and then the rest of the return: two connections
-- in a pool for one.
abbrev one_lent : BackendPool
one_lent = record (new_pool backend (limited 1)) { in_use = 1; total_created = 1 }

over_limit :
    put_back all_open 40
      (connection 0 10 1 true)
      true
      (get_connection all_open true 30 (uncount one_lent)).0
    ≡ record one_lent { available = connection 0 40 1 false ∷ []; in_use = 1; total_created = 2 }
unfolding program
over_limit = refl

abbrev manager : ConnectionPoolManager
manager = record { config = limited 2; pools = (codes "a:80", one_lent) ∷ []; running = false }

find-set_backends_example : find (codes "a:80") (set_backends manager (backend ∷ [])).pools ≡ (
    if has_key (codes "a:80") (backend ∷ [])
    then or_new
        (limited 2)
        (find (codes "a:80") manager.pools)
        (first_with (codes "a:80") (backend ∷ []))
    else none)
find-set_backends_example = find-set_backends manager (backend ∷ []) (codes "a:80")
