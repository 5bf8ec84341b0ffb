-- ===== src/Gateway/Started.antt =====
-- What `main` of src/main.cpp has running once it has started the parts.
use ntonix.Common.{
  ◌≡◌, refl, ℕ, Bool, true, false, not, Option, none, some, if_intro, Bool-cases, inl, inr,
  is_empty, Text,
}
use ntonix.Config.{Config}
use ntonix.Gateway.{Gateway}
use ntonix.Gateway.Main.{Process, start_checks, start_ssl, after_start, start_all}
use ntonix.Gateway.Wiring.{make_server_config, new_gateway}
use ntonix.Health.{HealthChecker}
use ntonix.Health
use ntonix.Pool.Manager.{ConnectionPoolManager, start_cleanup}
use ntonix.Server.Acceptor.{OpenOutcome}
use ntonix.Server.HttpServer.{Server, StartOutcome, new_server}
use ntonix.Server.HttpServer
use ntonix.Server.SslContext.{Context, Environment}
use ntonix.Server.Starting.{start-IsServing}
use ntonix.Server.States.{IsServing}

running-start : (h : HealthChecker) → (Health.start h).0.running ≡ true
unfolding Health.start
running-start h =
    if_intro (λ (r : HealthChecker × Bool). r.0.running ≡ true) h.running (λ e. e) (λ _. refl)

running-start_cleanup : (m : ConnectionPoolManager) → (start_cleanup m).0.running ≡ true
unfolding start_cleanup
running-start_cleanup m =
    if_intro (λ (r : ConnectionPoolManager × Bool). r.0.running ≡ true) m.running (λ e. e)
      (λ _. refl)

-- The timers of the health checker and of the pools run as the flag says.
pub record AreChecked (runs : Bool) (g : Gateway) : Type 0 where
  pub checked : g.health_checker.running ≡ runs
  pub cleaned : g.connection_pool.running ≡ runs

new_gateway-AreChecked : (config : Config) (now : ℕ) → AreChecked false (new_gateway config now)
unfolding new_gateway
new_gateway-AreChecked config now = record { checked = refl; cleaned = refl }

start_checks-AreChecked :
    (config : Config) (g : Gateway)
    → AreChecked false g
    → AreChecked (not (is_empty config.backends)) (start_checks config g)
unfolding start_checks
start_checks-AreChecked config g c = elim (Bool-cases (not (is_empty config.backends))) [
  | inl e ↦ rw e (record {
    checked = running-start g.health_checker;
    cleaned = running-start_cleanup g.connection_pool;
  })
  | inr e ↦ rw e c
]

module _ {Socket : Type 0} (env : Environment) (new_context : Context) where
  after_start-none :
      (config : Config) (now : ℕ) (ssl_outcome : OpenOutcome) (r : Server Socket × Option Text)
      → r.1 ≡ none
      → after_start env new_context config now ssl_outcome r
        ≡ some (record {
          gateway = start_checks config (new_gateway config now);
          server = r.0;
          ssl_server = start_ssl env new_context config ssl_outcome;
        })
  after_start-none config now ssl_outcome (s, none) e = refl
  after_start-none config now ssl_outcome (s, some m) e = absurd cc

  -- Where the start of the plain server does not throw, main goes on to wait for the shutdown, whatever
  -- becomes of the TLS server: the plain server is open with one accept pending, and the health checks and the clean-up
  -- of the pools run exactly if the configuration has backends.
  pub start_all-IsServing :
      (hardware : ℕ) (config : Config) (now : ℕ) (outcome : StartOutcome)
      (ssl_outcome : OpenOutcome)
      → (HttpServer.start outcome true true
          (new_server {Socket = Socket} (make_server_config hardware config))).1
        ≡ none
      → (p : Process Socket) × (start_all env new_context hardware config now outcome ssl_outcome
          ≡ some p)
        × IsServing p.server
        × AreChecked (not (is_empty config.backends)) p.gateway
  unfolding start_all
  start_all-IsServing hardware config now outcome ssl_outcome e =
      let config' = make_server_config hardware config in
      let r = HttpServer.start outcome true true (new_server {Socket = Socket} config') in
      (
        record {
          gateway = start_checks config (new_gateway config now);
          server = r.0;
          ssl_server = start_ssl env new_context config ssl_outcome;
        },
        after_start-none config now ssl_outcome r e,
        (start-IsServing outcome true config' e).0,
        start_checks-AreChecked config (new_gateway config now) (new_gateway-AreChecked config now),
      )
