-- ===== src/Pool/Holdings.antt =====
-- The connections of a pool and those that are lent out, the calls on them, and how often a socket is held
-- (src/proxy/connection_pool.cpp).
use ntonix.Common.{
  ℕ, zero, suc, ◌+◌, ◌≡◌, ◌≤◌, ◌<◌, ◌^◌, refl, Bool, List, [], ◌∷◌, Option, none, some, arith,
  if◌then◌else◌, nat_beq, length, keep, get_elem?, Bool-cases, inl, inr,
}
use ntonix.Pool.{
  PooledConnection, Sockets, is_valid, BackendPool, first_valid, get_connection, return_connection,
  cleanup_idle, close_all,
}

pub record Holdings : Type 0 where
  pub pool : BackendPool
  pub leases : List PooledConnection

-- The index of a lease says which guard is released.
pub data Call : Type 0 where
  gets : Sockets → Bool → ℕ → Call
  returns : Sockets → ℕ → ℕ → Bool → Call
  cleans : Sockets → ℕ → Call
  closes : Call

abbrev pub remove_at : ℕ → List PooledConnection → List PooledConnection
remove_at i [] = []
remove_at zero (c ∷ cs) = cs
remove_at (suc i) (c ∷ cs) = c ∷ remove_at i cs

abbrev pub add_lease : List PooledConnection → BackendPool × Option PooledConnection → Holdings
add_lease leases (pool, none) = record { pool = pool; leases = leases }
add_lease leases (pool, some c) = record { pool = pool; leases = c ∷ leases }

unfoldable pub step : Call → Holdings → Holdings
step (gets is_open connects now) h = add_lease h.leases (get_connection is_open connects now h.pool)
step (returns is_open now i reusable) h = elim (get_elem? h.leases i) [
  | none ↦ h
  | some c ↦ record {
    pool = return_connection is_open now c reusable h.pool;
    leases = remove_at i h.leases;
  }
]
step (cleans is_open now) h = record h { pool = cleanup_idle is_open now h.pool }
step closes h = record h { pool = close_all h.pool }

unfoldable pub run : List Call → Holdings → Holdings
unfolding step
run [] h = h
run (call ∷ calls) h = run calls (step call h)

-- How many connections of a list have a socket
abbrev pub uses : ℕ → List PooledConnection → ℕ
uses s [] = 0
uses s (c ∷ cs) = (if nat_beq c.socket s then 1 else 0) + uses s cs

-- No socket is held twice, by the pool or by its clients; `in_use` counts the leases; the limit holds.
pub record IsExclusive (h : Holdings) : Type 0 where
  pub once : (s : ℕ) → uses s h.pool.available + uses s h.leases ≤ 1
  pub fresh : (s : ℕ) → h.pool.total_created ≤ s → uses s h.pool.available + uses s h.leases ≡ 0
  pub counted : h.pool.in_use ≡ length h.leases
  pub bounded : length h.pool.available + length h.leases ≤ h.pool.config.pool_size_per_backend
  pub limit : h.pool.config.pool_size_per_backend < 2 ^ 63

pub uses-keep :
    (p : PooledConnection → Bool) (s : ℕ) (cs : List PooledConnection)
    → uses s (keep p cs) ≤ uses s cs
uses-keep p s [] = omega arith
uses-keep p s (c ∷ cs) = ground (arith, uses-keep p s cs)

pub uses-remove_at :
    (s i : ℕ) (c : PooledConnection) (cs : List PooledConnection)
    → get_elem? cs i ≡ some c
    → uses s (c ∷ remove_at i cs) ≡ uses s cs
uses-remove_at s i c [] h = cc h
uses-remove_at s zero c (d ∷ cs) h = ground arith
uses-remove_at s (suc i) c (d ∷ cs) h =
    let ih : uses s (c ∷ remove_at i cs) ≡ uses s cs = uses-remove_at s i c cs h in
    omega (arith, ih)

pub length-remove_at :
    (i : ℕ) (c : PooledConnection) (cs : List PooledConnection)
    → get_elem? cs i ≡ some c
    → suc (length (remove_at i cs)) ≡ length cs
length-remove_at i c [] h = cc h
length-remove_at zero c (d ∷ cs) h = refl
length-remove_at (suc i) c (d ∷ cs) h = omega (arith, length-remove_at i c cs h)

abbrev pub as_list : Option PooledConnection → List PooledConnection
as_list none = []
as_list (some c) = c ∷ []

pub first_valid-uses :
    (is_open : Sockets) (s : ℕ) (cs : List PooledConnection)
    → uses s (as_list (first_valid is_open cs).0) + uses s (first_valid is_open cs).1 ≤ uses s cs
unfolding first_valid
first_valid-uses is_open s [] = omega arith
first_valid-uses is_open s (c ∷ cs) = elim (Bool-cases (is_valid is_open c)) [
  | inl valid ↦ rw valid (omega arith)
  | inr invalid ↦ rw invalid (omega (arith, first_valid-uses is_open s cs))
]

pub first_valid-length :
    (is_open : Sockets) (cs : List PooledConnection)
    → length (as_list (first_valid is_open cs).0) + length (first_valid is_open cs).1 ≤ length cs
unfolding first_valid
first_valid-length is_open [] = omega arith
first_valid-length is_open (c ∷ cs) = elim (Bool-cases (is_valid is_open c)) [
  | inl valid ↦ rw valid (omega arith)
  | inr invalid ↦ rw invalid (omega (arith, first_valid-length is_open cs))
]
