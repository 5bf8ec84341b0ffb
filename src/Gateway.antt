-- ===== src/Gateway.antt =====
-- src/main.cpp: the handlers of requests, which join the cache, the balancer, the connection pools, the
-- forwarder, the metrics and the access log, and the wiring of these parts.
pub mod Wiring
pub mod Main
pub mod Started
pub mod Pooled
pub mod Answers
pub mod Handler
pub mod Streaming
pub mod Wired
pub mod Effects
pub mod Lending
pub mod Leaks
pub mod Storing
pub mod Repeat
pub mod Chosen
pub mod Runs
pub mod Serving
pub mod StreamServing
pub mod Telling
pub mod Streams
mod Tests
mod StartTests
use ntonix.Common.{ℕ, Bool, List, Text}
use ntonix.Balancer.{LoadBalancer}
use ntonix.Cache.Lru.{LruCache}
use ntonix.Forwarder.{ForwarderConfig, BackendRequest}
use ntonix.Forwarder.Outcome.{Exchange, Opened}
use ntonix.Health.{HealthChecker}
use ntonix.Logger.{AccessLogEntry}
use ntonix.Metrics.{Metrics}
use ntonix.Pool.{Sockets}
use ntonix.Pool.Manager.{ConnectionPoolManager}

-- The parts that the handlers share, with the entries of the access log so far
pub record Gateway : Type 0 where
  pub health_checker : HealthChecker
  pub load_balancer : LoadBalancer
  pub connection_pool : ConnectionPoolManager
  pub forwarder_config : ForwarderConfig
  pub response_cache : LruCache
  pub metrics : Metrics
  pub access_log : List AccessLogEntry

-- What the outside world gives while one request is handled: the clock readings, the random numbers, the
-- answers of the health checker when the balancer's second loop asks, and what the sockets do.
pub record Moment (Fields : Type 0) : Type 0 where
  pub context_value : ℕ
  pub read_at : ℕ
  pub locked_at : ℕ
  pub stored_at : ℕ
  pub total_latency : ℕ
  pub health_during : HealthChecker
  pub open_before : Sockets
  pub connects : Bool
  pub lent_at : ℕ
  pub random : ℕ × ℕ
  pub forward_latency : ℕ
  pub exchange : BackendRequest Fields → Exchange Fields
  pub opened : BackendRequest Fields → Opened Fields
  pub open_after : Sockets
  pub returned_at : ℕ
  pub snapshot_at : ℕ
