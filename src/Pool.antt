-- ===== src/Pool.antt =====
-- src/proxy/connection_pool.{hpp,cpp}: pooled connections, the guards that lend them, and the pool of
-- one backend. A connection is known by the number of its socket; whether a socket is open and whether
-- connecting succeeds are the network's answers, which the operations take. Time is in nanoseconds.
pub mod Guard
pub mod Holdings
pub mod Leases
pub mod Manager
mod Tests
use ntonix.Common.{
  ℕ, zero, suc, ◌+◌, ◌-◌, ◌*◌, Bool, true, false, ◌&&◌, ◌||◌, not, List, [], ◌∷◌, Option, none,
  some, if◌then◌else◌, ltb, length, keep, add64, sub64,
}
use ntonix.Config.{BackendConfig}

pub record ConnectionPoolConfig : Type 0 where
  pub pool_size_per_backend : ℕ
  pub idle_timeout : ℕ
  pub connection_timeout : ℕ
  pub cleanup_interval : ℕ
  pub enable_keep_alive : Bool

pub record PooledConnection : Type 0 where
  pub socket : ℕ
  pub backend : BackendConfig
  pub last_used : ℕ
  pub usage_count : ℕ
  pub in_use : Bool

-- Which sockets are open
abbrev pub Sockets : Type 0
Sockets = ℕ → Bool

unfoldable pub new_connection : ℕ → BackendConfig → ℕ → PooledConnection
new_connection socket backend now = record {
  socket = socket;
  backend = backend;
  last_used = now;
  usage_count = 0;
  in_use = false;
}

unfoldable pub is_valid : Sockets → PooledConnection → Bool
is_valid is_open c = is_open c.socket

abbrev nanoseconds_per_second : ℕ
nanoseconds_per_second = 1000000000

unfoldable pub is_idle : ℕ → ℕ → PooledConnection → Bool
is_idle max_idle now c =
    if c.in_use then false else ltb (max_idle * nanoseconds_per_second) (now - c.last_used)

unfoldable pub mark_in_use : ℕ → PooledConnection → PooledConnection
mark_in_use now c = record c { in_use = true; usage_count = add64 c.usage_count 1; last_used = now }

unfoldable pub mark_returned : ℕ → PooledConnection → PooledConnection
mark_returned now c = record c { in_use = false; last_used = now }

unfoldable pub idle_time : ℕ → PooledConnection → ℕ
idle_time now c = if c.in_use then 0 else now - c.last_used

pub record BackendPool : Type 0 where
  pub backend : BackendConfig
  pub config : ConnectionPoolConfig
  pub available : List PooledConnection
  pub in_use : ℕ
  pub total_created : ℕ

unfoldable pub new_pool : BackendConfig → ConnectionPoolConfig → BackendPool
new_pool backend config = record {
  backend = backend;
  config = config;
  available = [];
  in_use = 0;
  total_created = 0;
}

-- The first valid connection, with what stays behind it; the invalid ones before it are discarded.
unfoldable pub first_valid :
    Sockets → List PooledConnection → Option PooledConnection × List PooledConnection
unfolding is_valid
first_valid is_open [] = (none, [])
first_valid is_open (c ∷ cs) =
    let rest = first_valid is_open cs in if is_valid is_open c then (some c, cs) else rest

-- A new socket is numbered by the count of those created before it.
unfoldable pub create_connection : Bool → ℕ → BackendPool → BackendPool × Option PooledConnection
unfolding new_connection
create_connection connects now pool =
    if connects
    then (
      record pool { total_created = suc pool.total_created },
      some (new_connection pool.total_created pool.backend now),
    )
    else (pool, none)

-- A new connection, if there are fewer than the limit
unfoldable pub create_within : Bool → ℕ → BackendPool → BackendPool × Option PooledConnection
unfolding create_connection
create_within connects now pool =
    if ltb (add64 (length pool.available) pool.in_use) pool.config.pool_size_per_backend
    then create_connection connects now pool
    else (pool, none)

-- Marks the connection that was found, and counts it.
unfoldable pub lend :
    ℕ → BackendPool × Option PooledConnection → BackendPool × Option PooledConnection
unfolding mark_in_use
lend now (pool, none) = (pool, none)
lend now (pool, some c) = (record pool { in_use = add64 pool.in_use 1 }, some (mark_in_use now c))

-- `get_connection`: the connection that the guard holds
unfoldable pub get_connection :
    Sockets → Bool → ℕ → BackendPool → BackendPool × Option PooledConnection
unfolding first_valid create_within lend
get_connection is_open connects now pool =
    let (found, rest) = first_valid is_open pool.available in
    let pool' = record pool { available = rest } in
    lend now (elim found [ none ↦ create_within connects now pool' | some c ↦ (pool', some c) ])

-- `return_connection` counts down before it takes the lock, so other calls may run between its parts.
unfoldable pub uncount : BackendPool → BackendPool
uncount pool = record pool {
  in_use = if ltb 0 pool.in_use then sub64 pool.in_use 1 else pool.in_use;
}

unfoldable pub put_back : Sockets → ℕ → PooledConnection → Bool → BackendPool → BackendPool
unfolding is_valid mark_returned
put_back is_open now c reusable pool =
    if reusable && is_valid is_open c
    then record pool { available = mark_returned now c ∷ pool.available }
    else pool

unfoldable pub return_connection : Sockets → ℕ → PooledConnection → Bool → BackendPool → BackendPool
unfolding uncount put_back
return_connection is_open now c reusable pool = put_back is_open now c reusable (uncount pool)

unfoldable pub cleanup_idle : Sockets → ℕ → BackendPool → BackendPool
unfolding is_valid is_idle
cleanup_idle is_open now pool = record pool {
  available =
      keep (λ c. not (is_idle pool.config.idle_timeout now c || not (is_valid is_open c)))
        pool.available;
}

unfoldable pub close_all : BackendPool → BackendPool
close_all pool = record pool { available = [] }

unfoldable pub available_count : BackendPool → ℕ
available_count pool = length pool.available

unfoldable pub total_count : BackendPool → ℕ
total_count pool = add64 (length pool.available) pool.in_use
