-- ===== src/Gateway/Wired.antt =====
-- A backend list that is handed round reaches every part: what `set_backends` of each part leaves for the
-- backends of the list (src/main.cpp, and the components' own files).
use ntonix.Balancer
use ntonix.Balancer.{
  BackendState, LoadBalancer, fresh_state, raised, considered, scan, Best, lower_at, finish,
  select_in, select_backend, usable, healthy_total, is_zero, start_of_scan, calculate_total_weight,
}
use ntonix.Common.Map.{find, assign, find-assign}
use ntonix.Common.{
  ℕ, ◌≡◌, refl, Bool, true, false, List, [], ◌∷◌, map, Option, none, some, arith, All, Text,
  text_eq, text_beq_iff, ◌==◌, ◌||◌,
}
use ntonix.Config.{BackendConfig}
use ntonix.Health
use ntonix.Health.{BackendHealth, fill_backends, carried}
use ntonix.Health.{HealthChecker}
use ntonix.Metrics
use ntonix.Metrics.{Metrics, BackendMetrics, fill, new_backend_metrics}
use ntonix.Pool.{BackendPool, ConnectionPoolConfig, new_pool}
use ntonix.Pool.Manager
use ntonix.Pool.Manager.{ConnectionPoolManager, add_pool, add_pools, remove_pools}

abbrev is_some {ℓ} : {V : Type ℓ} → Option V → Bool
is_some none = false
is_some (some v) = true

-- Whether a map has an entry for a key
abbrev pub has_entry {ℓ} : {V : Type ℓ} → Text → List (Text × V) → Bool
has_entry k m = is_some (find k m)

pub has_entry-assign {ℓ} :
    {V : Type ℓ} (k q : Text) (v : V) (m : List (Text × V))
    → has_entry q (assign k v m) ≡ (k == q || has_entry q m)
has_entry-assign k q v m = ground (arith, find-assign k q v m)

-- A loop that assigns an entry for each backend of a list keeps the entries that are there, and leaves
-- one for each backend.
module _ {ℓ} {V : Type ℓ} (key : BackendConfig → Text) (value : BackendConfig → V) where
  fill_map : List BackendConfig → List (Text × V) → List (Text × V)
  fill_map [] m = m
  fill_map (b ∷ bs) m = fill_map bs (assign (key b) (value b) m)

  fill_map-kept :
      (bs : List BackendConfig) (m : List (Text × V)) (q : Text)
      → has_entry q m ≡ true
      → has_entry q (fill_map bs m) ≡ true
  unfolding fill_map
  fill_map-kept [] m q h = h
  fill_map-kept (b ∷ bs) m q h =
      fill_map-kept bs (assign (key b) (value b) m) q
        (ground (arith, has_entry-assign (key b) q (value b) m))

  fill_map-All :
      (bs : List BackendConfig) (m : List (Text × V))
      → All (λ b. has_entry (key b) (fill_map bs m) ≡ true) bs
  unfolding fill_map
  fill_map-All [] m = tt
  fill_map-All (b ∷ bs) m = (
    fill_map-kept bs (assign (key b) (value b) m) (key b) (
        ground (arith, has_entry-assign (key b) (key b) (value b) m, text_beq_iff (key b) (key b))),
    fill_map-All bs (assign (key b) (value b) m),
  )

fill-map :
    (bs : List BackendConfig) (m : List (Text × BackendMetrics))
    → fill bs m ≡ fill_map (λ b. Metrics.backend_key b.host b.port) new_backend_metrics bs m
unfolding fill fill_map
fill-map [] m = refl
fill-map (b ∷ bs) m = fill-map bs _

fill_backends-map :
    (old : List (Text × BackendHealth)) (bs : List BackendConfig) (now : ℕ)
    (m : List (Text × BackendHealth))
    → fill_backends old bs now m ≡ fill_map Health.backend_key (λ b. carried old b now) bs m
unfolding fill_backends fill_map
fill_backends-map old [] now m = refl
fill_backends-map old (b ∷ bs) now m = fill_backends-map old bs now _

-- Every backend of a list is monitored, pooled and counted.
pub record IsWired (h : HealthChecker) (p : ConnectionPoolManager) (m : Metrics) (b : BackendConfig)
    : Type 0 where
  pub monitored : has_entry (Health.backend_key b) h.backends ≡ true
  pub pooled : has_entry (Manager.backend_key b) p.pools ≡ true
  pub counted : has_entry (Metrics.backend_key b.host b.port) m.backends ≡ true

add_pool-kept :
    (config : ConnectionPoolConfig) (b : BackendConfig) (pools : List (Text × BackendPool))
    (q : Text)
    → has_entry q pools ≡ true
    → has_entry q (add_pool config b pools) ≡ true
unfolding add_pool
add_pool-kept config b pools q h =
    ground (arith, has_entry-assign (Manager.backend_key b) q (new_pool b config) pools)

add_pool-own :
    (config : ConnectionPoolConfig) (b : BackendConfig) (pools : List (Text × BackendPool))
    → has_entry (Manager.backend_key b) (add_pool config b pools) ≡ true
unfolding add_pool
add_pool-own config b pools =
    let key = Manager.backend_key b in
    ground (arith, has_entry-assign key key (new_pool b config) pools, text_beq_iff key key)

add_pools-kept :
    (config : ConnectionPoolConfig) (bs : List BackendConfig) (pools : List (Text × BackendPool))
    (q : Text)
    → has_entry q pools ≡ true
    → has_entry q (add_pools config bs pools) ≡ true
unfolding add_pools
add_pools-kept config [] pools q h = h
add_pools-kept config (b ∷ bs) pools q h =
    add_pools-kept config bs (add_pool config b pools) q (add_pool-kept config b pools q h)

add_pools-All :
    (config : ConnectionPoolConfig) (bs : List BackendConfig) (pools : List (Text × BackendPool))
    → All (λ b. has_entry (Manager.backend_key b) (add_pools config bs pools) ≡ true) bs
unfolding add_pools
add_pools-All config [] pools = tt
add_pools-All config (b ∷ bs) pools = (
  add_pools-kept config bs (add_pool config b pools) (Manager.backend_key b)
      (add_pool-own config b pools),
  add_pools-All config bs (add_pool config b pools),
)

pooled-set_backends :
    (p : ConnectionPoolManager) (bs : List BackendConfig)
    → All (λ b. has_entry (Manager.backend_key b) (Manager.set_backends p bs).pools ≡ true) bs
unfolding Manager.set_backends
pooled-set_backends p bs = add_pools-All p.config bs (remove_pools bs p.pools)

monitored-set_backends :
    (h : HealthChecker) (bs : List BackendConfig) (now : ℕ)
    → All (λ b. has_entry (Health.backend_key b) (Health.set_backends h bs now).backends ≡ true) bs
unfolding Health.set_backends
monitored-set_backends h bs now =
    rw (fill_backends-map h.backends bs now [])
      (fill_map-All Health.backend_key (λ b. carried h.backends b now) bs [])

counted-set_backends :
    (m : Metrics) (bs : List BackendConfig)
    → All
        (λ b.
          has_entry (Metrics.backend_key b.host b.port) (Metrics.set_backends bs m).backends ≡ true)
        bs
unfolding Metrics.set_backends
counted-set_backends m bs =
    rw (fill-map bs [])
      (fill_map-All (λ b. Metrics.backend_key b.host b.port) new_backend_metrics bs [])

All-IsWired :
    (h : HealthChecker) (p : ConnectionPoolManager) (m : Metrics) (bs : List BackendConfig)
    → All (λ b. has_entry (Health.backend_key b) h.backends ≡ true) bs
    → All (λ b. has_entry (Manager.backend_key b) p.pools ≡ true) bs
    → All (λ b. has_entry (Metrics.backend_key b.host b.port) m.backends ≡ true) bs
    → All (IsWired h p m) bs
All-IsWired h p m [] x y z = tt
All-IsWired h p m (b ∷ bs) x y z =
    (record { monitored = x.0; pooled = y.0; counted = z.0 }, All-IsWired h p m bs x.1 y.1 z.1)

All-fresh :
    (P : BackendConfig → Type 0) (bs : List BackendConfig)
    → All P bs
    → All (λ (s : BackendState). P s.config) (map fresh_state bs)
unfolding fresh_state
All-fresh P [] h = tt
All-fresh P (b ∷ bs) h = (h.0, All-fresh P bs h.1)

-- After the list is handed round, every backend of the balancer is wired.
pub set_backends-IsWired :
    (h : HealthChecker) (p : ConnectionPoolManager) (m : Metrics) (bs : List BackendConfig)
    (now : ℕ)
    → All
        (λ (s : BackendState).
          IsWired
            (Health.set_backends h bs now)
            (Manager.set_backends p bs)
            (Metrics.set_backends bs m)
            s.config)
        (Balancer.set_backends bs).backends
unfolding Balancer.set_backends
set_backends-IsWired h p m bs now =
    All-fresh
      (IsWired (Health.set_backends h bs now) (Manager.set_backends p bs)
        (Metrics.set_backends bs m))
      bs
      (All-IsWired _ _ _ bs (monitored-set_backends h bs now) (pooled-set_backends p bs)
        (counted-set_backends m bs))
