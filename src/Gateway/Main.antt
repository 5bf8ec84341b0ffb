-- ===== src/Gateway/Main.antt =====
-- `main` of src/main.cpp from the start of the servers on: what runs once everything is started, and what the
-- shutdown leaves. The files, OpenSSL and the calls on the sockets are parameters.
use ntonix.Common.{ℕ, true, not, [], Option, none, some, if◌then◌else◌, is_empty, Text}
use ntonix.Config.{Config}
use ntonix.Gateway.{Gateway}
use ntonix.Gateway.Wiring.{make_server_config, new_gateway}
use ntonix.Health
use ntonix.Pool.Manager
use ntonix.Server.Acceptor.{OpenOutcome}
use ntonix.Server.HttpServer.{Server, StartOutcome, new_server, wait}
use ntonix.Server.HttpServer
use ntonix.Server.SslContext.{Context, Environment, Result, thrown, made}
use ntonix.Server.SslServer.{SslServer, SslServerConfig, new_ssl_server}
use ntonix.Server.SslServer

pub record Process (Socket : Type 0) : Type 0 where
  pub gateway : Gateway
  pub server : Server Socket
  pub ssl_server : Option (SslServer Socket)

-- The call of `start_cleanup` and `start`, where there are backends
unfoldable pub start_checks : Config → Gateway → Gateway
unfolding Health.start Manager.start_cleanup
start_checks config g =
    if not (is_empty config.backends)
    then record g {
      health_checker = (Health.start g.health_checker).0;
      connection_pool = (Manager.start_cleanup g.connection_pool).0;
    }
    else g

unfoldable pub stop_checks : Gateway → Gateway
unfolding Health.stop Manager.stop_cleanup
stop_checks g = record g {
  health_checker = (Health.stop g.health_checker).0;
  connection_pool = (Manager.stop_cleanup g.connection_pool).0;
}

abbrev ssl_server_config : Config → SslServerConfig
ssl_server_config config = record {
  port = config.server.ssl_port;
  bind_address = config.server.bind_address;
  ssl = record {
    cert_file = config.ssl.cert_file;
    key_file = config.ssl.key_file;
    ca_file = [];
    key_password = [];
    enable_tls_1_2 = true;
    enable_tls_1_3 = true;
    cipher_list = [];
    ciphersuites = [];
    enable_session_cache = true;
    session_cache_size = 20480;
    dh_file = [];
  };
}

module _ {Socket : Type 0} (env : Environment) (new_context : Context) where
  -- The `try` block: a server that could not be made is none, one whose start threw is kept.
  abbrev started_ssl : OpenOutcome → Result (SslServer Socket) → Option (SslServer Socket)
  started_ssl outcome (thrown e) = none
  started_ssl outcome (made s) = some (SslServer.start outcome true s).0

  unfoldable pub start_ssl : Config → OpenOutcome → Option (SslServer Socket)
  unfolding new_ssl_server SslServer.start
  start_ssl config outcome =
      if config.ssl.enabled
      then started_ssl outcome (new_ssl_server env new_context (ssl_server_config config))
      else none

  -- An exception of the plain server's start ends the process.
  abbrev pub after_start :
      Config → ℕ → OpenOutcome → Server Socket × Option Text → Option (Process Socket)
  after_start config now ssl_outcome (s, some e) = none
  after_start config now ssl_outcome (s, none) = some (record {
    gateway = start_checks config (new_gateway config now);
    server = s;
    ssl_server = start_ssl config ssl_outcome;
  })

  -- `main` until it waits for the shutdown, with the number of hardware threads
  unfoldable pub start_all : ℕ → Config → ℕ → StartOutcome → OpenOutcome → Option (Process Socket)
  unfolding make_server_config new_server HttpServer.start new_gateway start_checks start_ssl
  start_all hardware config now outcome ssl_outcome =
      after_start config now ssl_outcome
        (HttpServer.start outcome true true (new_server (make_server_config hardware config)))

abbrev stopped_ssl : {Socket : Type 0} → Option (SslServer Socket) → Option (SslServer Socket)
stopped_ssl none = none
stopped_ssl (some s) = some (SslServer.stop s)

-- What follows the wait, once the worker threads have ended
unfoldable pub shut_down : {Socket : Type 0} → Process Socket → Process Socket
unfolding wait SslServer.stop stop_checks
shut_down p = record {
  gateway = stop_checks p.gateway;
  server = wait p.server;
  ssl_server = stopped_ssl p.ssl_server;
}
