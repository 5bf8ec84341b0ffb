-- ===== src/Server/SslServer.antt =====
-- src/server/ssl_server.cpp: `SslServer`, which shares the I/O context, the threads and the signals of
-- `Server`.
use ntonix.Common.{ℕ, Bool, true, not, Option, none, some, if◌then◌else◌, Text, codes}
use ntonix.Server.Acceptor.{
  Acceptor, new_acceptor, AcceptOutcome, OpenOutcome, Failures, do_accept, on_accept, open_acceptor,
  close_acceptor,
}
use ntonix.Server.SslContext.{SslConfig, Context, Environment, Result, and_then, made}
use ntonix.Server.SslManager.{SslContextManager, new_manager, add_sni_context}

pub record SslServerConfig : Type 0 where
  pub port : ℕ
  pub bind_address : Text
  pub ssl : SslConfig

pub record SslServer (Socket : Type 0) : Type 0 where
  pub config : SslServerConfig
  pub ssl_context_manager : SslContextManager
  pub acceptor : Acceptor Socket

abbrev pub failures : Failures
failures = record {
  open_failed = codes "Failed to open SSL acceptor: ";
  bind_failed = codes "Failed to bind SSL server: ";
  listen_failed = codes "Failed to listen on SSL server: ";
}

module _ {Socket : Type 0} where
  unfoldable pub is_running : SslServer Socket → Bool
  is_running s = s.acceptor.running

  unfoldable pub get_port : SslServer Socket → ℕ
  get_port s = s.config.port

  unfoldable pub begin :
      SslServer Socket → Acceptor Socket × Option Text → SslServer Socket × Option Text
  unfolding do_accept
  begin s (a, some e) = (record s { acceptor = a }, some e)
  begin s (a, none) = (record s { acceptor = do_accept a }, none)

  unfoldable pub start : OpenOutcome → Bool → SslServer Socket → SslServer Socket × Option Text
  unfolding begin open_acceptor
  start outcome has_handler s =
      let a = record s.acceptor { running = true; has_handler = has_handler } in
      if s.acceptor.running then (s, none) else begin s (open_acceptor failures outcome a)

  -- The accept that is pending is left to complete.
  unfoldable pub stop : SslServer Socket → SslServer Socket
  unfolding close_acceptor
  stop s = if not s.acceptor.running then s else record s { acceptor = close_acceptor s.acceptor }

  unfoldable pub accept_done : AcceptOutcome Socket → SslServer Socket → SslServer Socket
  unfolding on_accept
  accept_done outcome s = record s { acceptor = on_accept outcome s.acceptor }

  module _ (env : Environment) (new_context : Context) where
    unfoldable pub new_ssl_server : SslServerConfig → Result (SslServer Socket)
    unfolding new_manager
    new_ssl_server config =
        and_then (new_manager env new_context config.ssl)
          (λ m. made (record { config = config; ssl_context_manager = m; acceptor = new_acceptor }))

    unfoldable pub add_sni : Text → SslConfig → SslServer Socket → Result (SslServer Socket)
    unfolding add_sni_context
    add_sni hostname config s =
        and_then (add_sni_context env new_context hostname config s.ssl_context_manager)
          (λ m. made (record s { ssl_context_manager = m }))
