-- ===== src/Gateway/Lending.antt =====
-- A connection that is taken from a pool and given back: the pools' counts of lent connections
-- (src/proxy/connection_pool.cpp, as src/main.cpp uses it).
use ntonix.Common.Map.{find, assign, find-assign}
use ntonix.Common.{
  ℕ, suc, ◌<◌, ◌≡◌, refl, ap, ◌∙◌, Bool, List, Option, none, some, arith, if◌then◌else◌, ltb, add64,
  sub64, u64_mod, Text, text_eq, text_beq_iff, Bool-cases, inl, inr, ◌==◌,
}
use ntonix.Config.{BackendConfig}
use ntonix.Gateway.Pooled.{give_back, drop_guard}
use ntonix.Forwarder.Results.{told}
use ntonix.Pool.{
  PooledConnection, BackendPool, Sockets, get_connection, create_connection, create_within, lend,
  return_connection, first_valid, mark_in_use,
}
use ntonix.Pool.Guard.{ConnectionGuard}
use ntonix.Pool.Manager.{ConnectionPoolManager, backend_key, manager_get_connection}

-- What a guard tells the pool of the connection it holds, if it holds one
abbrev pub with_flag : Bool → Option PooledConnection → Option (PooledConnection × Bool)
with_flag reusable none = none
with_flag reusable (some c) = some (c, reusable)

abbrev return_one : Sockets → ℕ → Option (PooledConnection × Bool) → BackendPool → BackendPool
return_one is_open now none pool = pool
return_one is_open now (some (c, reusable)) pool = return_connection is_open now c reusable pool

-- The first valid connection, or else a new one
abbrev found_or_new :
    Bool → ℕ → BackendPool → Option PooledConnection → BackendPool × Option PooledConnection
found_or_new connects now pool found = elim found [
  | none ↦ create_within connects now pool
  | some c ↦ (pool, some c)
]

in_use-return_connection :
    (is_open : Sockets) (now : ℕ) (c : PooledConnection) (reusable : Bool) (pool : BackendPool)
    → (return_connection is_open now c reusable pool).in_use
      ≡ (if ltb 0 pool.in_use then sub64 pool.in_use 1 else pool.in_use)
unfolding return_connection
in_use-return_connection is_open now c reusable pool = ground arith

-- The count goes up by one and down again.
return-lend :
    (is_open : Sockets) (now later : ℕ) (reusable : Bool)
    (r : BackendPool × Option PooledConnection)
    → suc r.0.in_use < u64_mod
    → (return_one is_open later (with_flag reusable (lend now r).1) (lend now r).0).in_use
      ≡ r.0.in_use
unfolding lend add64 sub64
return-lend is_open now later reusable (pool, none) h = refl
return-lend is_open now later reusable (pool, some c) h =
    in_use-return_connection is_open later (mark_in_use now c) reusable (lend now (pool, some c)).0
    ∙ ground arith

in_use-create_within :
    (connects : Bool) (now : ℕ) (pool : BackendPool)
    → (create_within connects now pool).0.in_use ≡ pool.in_use
unfolding create_within create_connection
in_use-create_within connects now pool = ground arith

in_use-found :
    (connects : Bool) (now : ℕ) (pool : BackendPool) (found : Option PooledConnection)
    → (found_or_new connects now pool found).0.in_use ≡ pool.in_use
in_use-found connects now pool none = in_use-create_within connects now pool
in_use-found connects now pool (some c) = refl

return-get_connection :
    (is_open is_open' : Sockets) (connects : Bool) (now later : ℕ) (reusable : Bool)
    (pool : BackendPool)
    → suc pool.in_use < u64_mod
    → (return_one is_open' later
        (with_flag reusable (get_connection is_open connects now pool).1)
        (get_connection is_open connects now pool).0).in_use
      ≡ pool.in_use
unfolding get_connection
return-get_connection is_open is_open' connects now later reusable pool h =
    let pool' : BackendPool = record pool { available = (first_valid is_open pool.available).1 } in
    let found = (first_valid is_open pool.available).0 in
    return-lend is_open' now later reusable (found_or_new connects now pool' found)
      (omega (arith, in_use-found connects now pool' found, h))
    ∙ in_use-found connects now pool' found

abbrev count_of : Option BackendPool → Option ℕ
count_of none = none
count_of (some pool) = some pool.in_use

-- How many connections of the pool with a key are lent, if there is such a pool
abbrev pub in_use_of : Text → ConnectionPoolManager → Option ℕ
in_use_of q m = count_of (find q m.pools)

find-assign_self :
    (key : Text) (pool : BackendPool) (pools : List (Text × BackendPool))
    → find key (assign key pool pools) ≡ some pool
find-assign_self key pool pools =
    ground (arith, find-assign key key pool pools, text_beq_iff key key)

in_use_of-give_back :
    (is_open : Sockets) (now : ℕ) (backend : BackendConfig) (r : Option (PooledConnection × Bool))
    (m : ConnectionPoolManager) (pool : BackendPool) (q : Text)
    → in_use_of q (
        give_back is_open now backend r
          (record m { pools = assign (backend_key backend) pool m.pools }))
      ≡ (if backend_key backend == q
          then some (return_one is_open now r pool).in_use
          else in_use_of q m)
unfolding give_back
in_use_of-give_back is_open now backend none m pool q =
    ground (arith, find-assign (backend_key backend) q pool m.pools)
in_use_of-give_back is_open now backend (some (c, reusable)) m pool q =
    let key = backend_key backend in
    rw (find-assign_self key pool m.pools, give_back)
      (ground (
        arith,
        find-assign key q (return_connection is_open now c reusable pool) (assign key pool m.pools),
        find-assign key q pool m.pools,
      ))

-- No count is about to wrap.
abbrev pub IsCountable : ConnectionPoolManager → Type 0
IsCountable m =
    (key : Text) (pool : BackendPool) → find key m.pools ≡ some pool → suc pool.in_use < u64_mod

pub in_use_of-get_found :
    (is_open is_open' : Sockets) (connects : Bool) (now later : ℕ) (reusable : Bool)
    (m : ConnectionPoolManager) (backend : BackendConfig) (q : Text) (o : Option BackendPool)
    → IsCountable m
    → find (backend_key backend) m.pools ≡ o
    → in_use_of q (
        give_back is_open' later backend
          (with_flag reusable (manager_get_connection is_open connects now m backend).1)
          (manager_get_connection is_open connects now m backend).0)
      ≡ in_use_of q m
unfolding manager_get_connection give_back
in_use_of-get_found is_open is_open' connects now later reusable m backend q none h e =
    rw (e, manager_get_connection) refl
in_use_of-get_found is_open is_open' connects now later reusable m backend q (some pool) h e =
    let (pool', conn) = get_connection is_open connects now pool in
    rw (e, manager_get_connection)
      (in_use_of-give_back is_open' later backend (with_flag reusable conn) m pool' q
        ∙ elim (Bool-cases (backend_key backend == q)) [
          | inl same ↦ rw same (
              rw (← (text_beq_iff (backend_key backend) q).0 same, e)
                (ap (λ n. some n)
                  (return-get_connection is_open is_open' connects now later reusable pool
                    (h (backend_key backend) pool e))))
          | inr other ↦ rw other refl
        ])

pub drop-told :
    (is_open : Sockets) (now : ℕ) (backend : BackendConfig) (guard : Option ConnectionGuard)
    (m : ConnectionPoolManager)
    → drop_guard is_open now backend guard m ≡ give_back is_open now backend (told guard) m
unfolding drop_guard give_back
drop-told is_open now backend none m = refl
drop-told is_open now backend (some guard) m = refl
