-- ===== src/Pool/Manager.antt =====
-- src/proxy/connection_pool.cpp: `ConnectionPoolManager`, the pools by backend. Each operation holds the
-- manager's mutex from start to end.
use ntonix.Common.Decimal.{to_decimal}
use ntonix.Common.Map.{find, assign, find-assign}
use ntonix.Common.{
  ℕ, ◌≡◌, refl, ap, ◌∙◌, Bool, true, false, ◌||◌, List, [], ◌∷◌, ◌++◌, map, Option, none, some,
  arith, if◌then◌else◌, keep, ◌==◌, Text, text_eq, text_beq_iff, add64, Bool-cases, inl, inr,
}
use ntonix.Config.{BackendConfig}
use ntonix.Pool.{
  ConnectionPoolConfig, PooledConnection, Sockets, BackendPool, new_pool, get_connection,
  cleanup_idle, available_count, total_count,
}

pub record ConnectionPoolManager : Type 0 where
  pub config : ConnectionPoolConfig
  pub pools : List (Text × BackendPool)
  pub running : Bool

pub record PoolStats : Type 0 where
  pub available : ℕ
  pub in_use : ℕ
  pub total : ℕ

unfoldable pub backend_key : BackendConfig → Text
backend_key backend = backend.host ++ b':' ∷ to_decimal backend.port

unfoldable pub new_manager : ConnectionPoolConfig → ConnectionPoolManager
new_manager config = record { config = config; pools = []; running = false }

-- Whether the set of new keys has a key
abbrev pub has_key : Text → List BackendConfig → Bool
has_key key [] = false
has_key key (b ∷ bs) = backend_key b == key || has_key key bs

unfoldable pub remove_pools :
    List BackendConfig → List (Text × BackendPool) → List (Text × BackendPool)
remove_pools backends pools = keep (λ entry. has_key entry.0 backends) pools

-- The pool for one backend, unless its key has one
unfoldable pub add_pool :
    ConnectionPoolConfig → BackendConfig → List (Text × BackendPool) → List (Text × BackendPool)
unfolding backend_key new_pool
add_pool config backend pools = elim (find (backend_key backend) pools) [
  | some pool ↦ pools
  | none ↦ assign (backend_key backend) (new_pool backend config) pools
]

unfoldable pub add_pools :
    ConnectionPoolConfig
    → List BackendConfig
    → List (Text × BackendPool)
    → List (Text × BackendPool)
unfolding add_pool
add_pools config [] pools = pools
add_pools config (b ∷ bs) pools = add_pools config bs (add_pool config b pools)

unfoldable pub set_backends : ConnectionPoolManager → List BackendConfig → ConnectionPoolManager
unfolding remove_pools add_pools
set_backends m backends = record m {
  pools = add_pools m.config backends (remove_pools backends m.pools);
}

-- `get_connection`: none too when the backend has no pool
unfoldable pub manager_get_connection :
    Sockets
    → Bool
    → ℕ
    → ConnectionPoolManager
    → BackendConfig
    → ConnectionPoolManager × Option PooledConnection
unfolding backend_key get_connection
manager_get_connection is_open connects now m backend = elim (find (backend_key backend) m.pools) [
  | none ↦ (m, none)
  | some pool ↦
      let (pool', conn) = get_connection is_open connects now pool in
      (record m { pools = assign (backend_key backend) pool' m.pools }, conn)
]

-- Whether the call armed or cancelled the timer
unfoldable pub start_cleanup : ConnectionPoolManager → ConnectionPoolManager × Bool
start_cleanup m = if m.running then (m, false) else (record m { running = true }, true)

unfoldable pub stop_cleanup : ConnectionPoolManager → ConnectionPoolManager × Bool
stop_cleanup m = if m.running then (record m { running = false }, true) else (m, false)

unfoldable pub do_cleanup : Sockets → ℕ → ConnectionPoolManager → ConnectionPoolManager
unfolding cleanup_idle
do_cleanup is_open now m = record m {
  pools = map (λ entry. (entry.0, cleanup_idle is_open now entry.1)) m.pools;
}

-- When the timer fires: an error ends the cycle, else the pools are cleaned and the timer is armed again
-- if the cycle still runs.
unfoldable pub cleanup_fired :
    Sockets → ℕ → Bool → ConnectionPoolManager → ConnectionPoolManager × Bool
unfolding do_cleanup
cleanup_fired is_open now error m =
    if error then (m, false) else (do_cleanup is_open now m, m.running)

abbrev stats_of : BackendPool → PoolStats
stats_of pool = record {
  available = available_count pool;
  in_use = pool.in_use;
  total = total_count pool;
}

unfoldable pub get_pool_stats : ConnectionPoolManager → BackendConfig → Option PoolStats
unfolding backend_key available_count total_count
get_pool_stats m backend = elim (find (backend_key backend) m.pools) [
  | none ↦ none
  | some pool ↦ some (stats_of pool)
]

abbrev add_stats : List (Text × BackendPool) → PoolStats → PoolStats
add_stats [] total = total
add_stats (entry ∷ entries) total = add_stats entries (record {
  available = add64 total.available (available_count entry.1);
  in_use = add64 total.in_use entry.1.in_use;
  total = add64 total.total (total_count entry.1);
})

unfoldable pub get_total_stats : ConnectionPoolManager → PoolStats
unfolding available_count total_count
get_total_stats m = add_stats m.pools (record { available = 0; in_use = 0; total = 0 })

find-keep :
    (p : Text → Bool) (q : Text) (pools : List (Text × BackendPool))
    → find q (keep (λ entry. p entry.0) pools) ≡ (if p q then find q pools else none)
find-keep p q [] = ground arith
find-keep p q ((k, pool) ∷ pools) = ground (arith, find-keep p q pools, text_beq_iff k q)

-- The first backend of a list with a key
abbrev pub first_with : Text → List BackendConfig → Option BackendConfig
first_with key [] = none
first_with key (b ∷ bs) = if backend_key b == key then some b else first_with key bs

find-add_pool :
    (config : ConnectionPoolConfig) (b : BackendConfig) (pools : List (Text × BackendPool))
    (q : Text)
    → find q (add_pool config b pools) ≡ (elim (find q pools) [
      | some pool ↦ some pool
      | none ↦ if backend_key b == q then some (new_pool b config) else none
    ])
unfolding add_pool
find-add_pool config b pools q =
    ground (
      arith,
      find-assign (backend_key b) q (new_pool b config) pools,
      text_beq_iff (backend_key b) q,
    )

abbrev pub or_new :
    ConnectionPoolConfig → Option BackendPool → Option BackendConfig → Option BackendPool
or_new config (some pool) b = some pool
or_new config none none = none
or_new config none (some b) = some (new_pool b config)

add_pools-nil :
    (config : ConnectionPoolConfig) (pools : List (Text × BackendPool))
    → add_pools config [] pools ≡ pools
unfolding add_pools
add_pools-nil config pools = refl

add_pools-cons :
    (config : ConnectionPoolConfig) (b : BackendConfig) (bs : List BackendConfig)
    (pools : List (Text × BackendPool))
    → add_pools config (b ∷ bs) pools ≡ add_pools config bs (add_pool config b pools)
unfolding add_pools
add_pools-cons config b bs pools = refl

or_new_nothing : (config : ConnectionPoolConfig) (o : Option BackendPool) → o ≡ or_new config o none
or_new_nothing config none = refl
or_new_nothing config (some pool) = refl

or_new_first :
    (config : ConnectionPoolConfig) (o : Option BackendPool) (b : BackendConfig) (here : Bool)
    (rest : Option BackendConfig)
    → or_new config
        (elim o [ some pool ↦ some pool | none ↦ if here then some (new_pool b config) else none ])
        rest
      ≡ or_new config o (if here then some b else rest)
or_new_first config (some pool) b here rest = refl
or_new_first config none b true rest = refl
or_new_first config none b false rest = refl

find-add_pools :
    (config : ConnectionPoolConfig) (bs : List BackendConfig) (pools : List (Text × BackendPool))
    (q : Text)
    → find q (add_pools config bs pools) ≡ or_new config (find q pools) (first_with q bs)
find-add_pools config [] pools q =
    rw (add_pools-nil config pools) (or_new_nothing config (find q pools))
find-add_pools config (b ∷ bs) pools q = rw (add_pools-cons config b bs pools) (
    find-add_pools config bs (add_pool config b pools) q
    ∙ ap (λ o. or_new config o (first_with q bs)) (find-add_pool config b pools q)
    ∙ or_new_first config (find q pools) b (backend_key b == q) (first_with q bs))

not_listed : (q : Text) (bs : List BackendConfig) → has_key q bs ≡ false → first_with q bs ≡ none
not_listed q [] h = refl
not_listed q (b ∷ bs) h = ground (arith, not_listed q bs)

pools-set_backends :
    (m : ConnectionPoolManager) (bs : List BackendConfig)
    → (set_backends m bs).pools ≡ add_pools m.config bs (remove_pools bs m.pools)
unfolding set_backends
pools-set_backends m bs = refl

find-remove_pools :
    (bs : List BackendConfig) (pools : List (Text × BackendPool)) (q : Text)
    → find q (remove_pools bs pools) ≡ (if has_key q bs then find q pools else none)
unfolding remove_pools
find-remove_pools bs pools q = find-keep (λ key. has_key key bs) q pools

-- After `set_backends` there is a pool for exactly the hosts and ports of the new list: the one that was
-- there before, with its connections, or else an empty one for the first listed backend with that key.
pub find-set_backends :
    (m : ConnectionPoolManager) (bs : List BackendConfig) (q : Text)
    → find q (set_backends m bs).pools
      ≡ (if has_key q bs then or_new m.config (find q m.pools) (first_with q bs) else none)
find-set_backends m bs q =
    ap (find q) (pools-set_backends m bs)
    ∙ find-add_pools m.config bs (remove_pools bs m.pools) q
    ∙ ap (λ o. or_new m.config o (first_with q bs)) (find-remove_pools bs m.pools q)
    ∙ elim (Bool-cases (has_key q bs)) [
      | inl listed ↦ rw listed refl
      | inr absent ↦ rw (absent, not_listed q bs absent) refl
    ]
