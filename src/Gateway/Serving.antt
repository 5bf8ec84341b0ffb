-- ===== src/Gateway/Serving.antt =====
-- What keeps every backend of the balancer known to the health checker, the connection pools and the
-- metrics, as the handlers of src/main.cpp call the parts.
use ntonix.Balancer.{BackendState, LoadBalancer, select_backend, usable}
use ntonix.Common.Map.{find, assign}
use ntonix.Common.{
  ℕ, ◌≡◌, Bool, true, Option, none, some, arith, All-mono, Text, text_eq, option_intro,
}
use ntonix.Config.{BackendConfig}
use ntonix.Gateway.Chosen.{AllStates, select_in-IsChosen}
use ntonix.Gateway.Effects.{KeepsBackends}
use ntonix.Gateway.Pooled.{give_back, drop_guard}
use ntonix.Gateway.Wired.{IsWired, has_entry, has_entry-assign}
use ntonix.Gateway.{Gateway}
use ntonix.Health.{HealthChecker, BackendHealth, Notification, handle_check_result, observe, notify}
use ntonix.Health
use ntonix.Metrics
use ntonix.Pool.Guard.{ConnectionGuard, release}
use ntonix.Pool.{PooledConnection, Sockets, get_connection, return_connection}
use ntonix.Pool.Manager.{ConnectionPoolManager, manager_get_connection}
use ntonix.Pool.Manager

-- Every backend of the balancer is wired.
abbrev pub IsServed : Gateway → Type 0
IsServed g =
    AllStates (IsWired g.health_checker g.connection_pool g.metrics) g.load_balancer.backends

abbrev pub KeepsPools : ConnectionPoolManager → ConnectionPoolManager → Type 0
KeepsPools p p' = (q : Text) → has_entry q p.pools ≡ true → has_entry q p'.pools ≡ true

pub get_connection-KeepsPools :
    (is_open : Sockets) (connects : Bool) (now : ℕ) (p : ConnectionPoolManager)
    (backend : BackendConfig)
    → KeepsPools p (manager_get_connection is_open connects now p backend).0
unfolding manager_get_connection
get_connection-KeepsPools is_open connects now p backend q h =
    option_intro
      (λ (r : ConnectionPoolManager × Option PooledConnection). has_entry q r.0.pools ≡ true)
      (find (Manager.backend_key backend) p.pools) (p, none)
      (λ pool.
        let (pool', conn) = get_connection is_open connects now pool in
        (record p { pools = assign (Manager.backend_key backend) pool' p.pools }, conn))
      (λ e. h)
      (λ pool e. ground (
        arith,
        has_entry-assign (Manager.backend_key backend) q
            (get_connection is_open connects now pool).0 p.pools,
      ))

give_back-KeepsPools :
    (is_open : Sockets) (now : ℕ) (backend : BackendConfig) (r : Option (PooledConnection × Bool))
    (p : ConnectionPoolManager)
    → KeepsPools p (give_back is_open now backend r p)
unfolding give_back
give_back-KeepsPools is_open now backend none p q h = h
give_back-KeepsPools is_open now backend (some (conn, reusable)) p q h =
    option_intro (λ (x : ConnectionPoolManager). has_entry q x.pools ≡ true)
      (find (Manager.backend_key backend) p.pools) p
      (λ pool. record p {
        pools =
            assign (Manager.backend_key backend) (return_connection is_open now conn reusable pool)
              p.pools;
      })
      (λ e. h)
      (λ pool e. ground (
        arith,
        has_entry-assign (Manager.backend_key backend) q
            (return_connection is_open now conn reusable pool) p.pools,
      ))

pub drop_guard-KeepsPools :
    (is_open : Sockets) (now : ℕ) (backend : BackendConfig) (guard : Option ConnectionGuard)
    (p : ConnectionPoolManager)
    → KeepsPools p (drop_guard is_open now backend guard p)
unfolding drop_guard
drop_guard-KeepsPools is_open now backend none p q h = h
drop_guard-KeepsPools is_open now backend (some guard) p q h =
    give_back-KeepsPools is_open now backend (release guard).1 p q h

pub IsServed-mono :
    (g g' : Gateway)
    → ((q : Text)
        → has_entry q g.health_checker.backends ≡ true
        → has_entry q g'.health_checker.backends ≡ true)
    → KeepsPools g.connection_pool g'.connection_pool
    → KeepsBackends g.metrics g'.metrics
    → ((P : BackendConfig → Type 0)
        → AllStates P g.load_balancer.backends
        → AllStates P g'.load_balancer.backends)
    → IsServed g
    → IsServed g'
IsServed-mono g g' hs ps ms bs served =
    bs (IsWired g'.health_checker g'.connection_pool g'.metrics) (
      All-mono (λ (s : BackendState). IsWired g.health_checker g.connection_pool g.metrics s.config)
        (λ (s : BackendState). IsWired g'.health_checker g'.connection_pool g'.metrics s.config)
        g.load_balancer.backends
        (λ s w. record {
          monitored = hs (Health.backend_key s.config) w.monitored;
          pooled = ps (Manager.backend_key s.config) w.pooled;
          counted = ms (Metrics.backend_key s.config.host s.config.port) w.counted;
        })
        served)

pub select_backend-states :
    (lb : LoadBalancer) (before during : Option HealthChecker) (P : BackendConfig → Type 0)
    → AllStates P lb.backends
    → AllStates P (select_backend lb before during).0.backends
unfolding select_backend
select_backend-states lb before during P h =
    (select_in-IsChosen P (usable before) (usable during) lb.backends h).states
