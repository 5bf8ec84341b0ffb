-- ===== src/Gateway/Wiring.antt =====
-- How src/main.cpp sets the parts up from the configuration, and what it does when that is reloaded.
use ntonix.Balancer
use ntonix.Balancer.{LoadBalancer}
use ntonix.Cache.Lru
use ntonix.Cache.Lru.{LruCacheConfig}
use ntonix.Common.{ℕ, true, List, [], Option, none, some, if◌then◌else◌, ltb, mul64, codes}
use ntonix.Config.{BackendConfig, Config, LogSettings}
use ntonix.Forwarder.{ForwarderConfig}
use ntonix.Gateway.{Gateway}
use ntonix.Health
use ntonix.Health.{HealthCheckConfig}
use ntonix.Logger.{
  LogLevel, info, LogConfig, Logger, parse_level, init_default, instance_of, set_level,
}
use ntonix.Metrics
use ntonix.Server.HttpServer.{ServerConfig}
use ntonix.Pool.{ConnectionPoolConfig}
use ntonix.Pool.Manager
use ntonix.Pool.Manager.{new_manager}

abbrev level_or_info : Option LogLevel → LogLevel
level_or_info none = info
level_or_info (some level) = level

unfoldable pub make_log_config : LogSettings → LogConfig
unfolding parse_level
make_log_config settings = record {
  level = level_or_info (parse_level settings.level);
  file_path = settings.file;
  max_file_size_mb = settings.max_file_size_mb;
  max_files = settings.max_files;
  enable_console = settings.enable_console;
  enable_colors = settings.enable_colors;
}

-- The logger that `main` runs with: the default one, at the level of the settings
unfoldable pub main_logger : LogSettings → Logger
unfolding make_log_config init_default instance_of set_level
main_logger settings = set_level (make_log_config settings).level (instance_of (init_default none))

-- `std::max(1u, hardware)` when no number of threads is configured
unfoldable pub make_server_config : ℕ → Config → ServerConfig
make_server_config hardware config = record {
  port = config.server.port;
  thread_count =
      if ltb 0 config.server.threads
      then config.server.threads
      else if ltb 1 hardware
      then hardware
      else 1;
  bind_address = config.server.bind_address;
}

-- Times are in milliseconds where the source has milliseconds, else in seconds.
abbrev pub health_config : HealthCheckConfig
health_config = record {
  interval = 5000;
  timeout = 2000;
  unhealthy_threshold = 3;
  healthy_threshold = 2;
  health_path = codes "/health";
}

abbrev pub pool_config : ConnectionPoolConfig
pool_config = record {
  pool_size_per_backend = 10;
  idle_timeout = 60;
  connection_timeout = 5;
  cleanup_interval = 30;
  enable_keep_alive = true;
}

abbrev forwarder_config : ForwarderConfig
forwarder_config = record { add_forwarded_headers = true; generate_request_id = true }

unfoldable pub make_cache_config : Config → LruCacheConfig
make_cache_config config = record {
  max_size_bytes = mul64 (mul64 config.cache.max_size_mb 1024) 1024;
  ttl = config.cache.ttl_seconds;
  enabled = config.cache.enabled;
}

-- The callback that `main` registers with `on_reload`
unfoldable pub reload_backends : List BackendConfig → ℕ → Gateway → Gateway
unfolding Health.set_backends Balancer.set_backends Manager.set_backends Metrics.set_backends
reload_backends backends now g = record g {
  health_checker = Health.set_backends g.health_checker backends now;
  load_balancer = Balancer.set_backends backends;
  connection_pool = Manager.set_backends g.connection_pool backends;
  metrics = Metrics.set_backends backends g.metrics;
}

-- The parts as `main` creates them, with the one callback that logs a change of health
unfoldable pub new_gateway : Config → ℕ → Gateway
unfolding Health.init Health.set_backends Health.on_state_change Balancer.set_backends new_manager
    Manager.set_backends Lru.init Metrics.init Metrics.set_backends make_cache_config
new_gateway config now = record {
  health_checker =
      Health.on_state_change (Health.set_backends (Health.init health_config) config.backends now)
        0;
  load_balancer = Balancer.set_backends config.backends;
  connection_pool = Manager.set_backends (new_manager pool_config) config.backends;
  forwarder_config = forwarder_config;
  response_cache = Lru.init (make_cache_config config);
  metrics = Metrics.set_backends config.backends (Metrics.init now);
  access_log = [];
}
