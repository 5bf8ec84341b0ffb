-- ===== src/Server/HttpServer.antt =====
-- src/server/server.cpp: `Server`, its start, its stop, and the handlers of its asynchronous operations, each
-- of which is one step.
use ntonix.Common.{
  ℕ, Bool, true, false, not, Option, none, some, if◌then◌else◌, ◌-◌, ◌+◌, suc, Text, codes,
}
use ntonix.Server.Acceptor.{
  Acceptor, new_acceptor, AcceptOutcome, OpenOutcome, Failures, do_accept, on_accept, open_acceptor,
  close_acceptor,
}

-- How an `async_wait` of the signals ends; SIGINT and SIGTERM are `terminate`
pub data SignalOutcome : Type 0 where
  signal_error hangup terminate : SignalOutcome

pub record ServerConfig : Type 0 where
  pub port : ℕ
  pub thread_count : ℕ
  pub bind_address : Text

-- What the calls of `start` said: besides those that open the acceptor, registering the signals and making
-- the threads may throw; the latter with the number of threads that were made before.
pub record StartOutcome : Type 0 where
  pub signals_error : Option Text
  pub opening : OpenOutcome
  pub threads_error : Option (ℕ × Text)

-- The calls of the reload handler are counted. What it throws is caught.
pub record Server (Socket : Type 0) : Type 0 where
  pub config : ServerConfig
  pub acceptor : Acceptor Socket
  pub has_reload : Bool
  pub reloads : ℕ
  pub signal_waits : ℕ
  pub has_work_guard : Bool
  pub io_stopped : Bool
  pub threads : ℕ
  pub stop_requested : Bool

abbrev pub failures : Failures
failures = record {
  open_failed = codes "Failed to open acceptor: ";
  bind_failed = codes "Failed to bind: ";
  listen_failed = codes "Failed to listen: ";
}

module _ {Socket : Type 0} where
  unfoldable pub new_server : ServerConfig → Server Socket
  new_server config = record {
    config = config;
    acceptor = new_acceptor;
    has_reload = false;
    reloads = 0;
    signal_waits = 0;
    has_work_guard = true;
    io_stopped = false;
    threads = 0;
    stop_requested = false;
  }

  unfoldable pub is_running : Server Socket → Bool
  is_running s = s.acceptor.running

  unfoldable pub get_port : Server Socket → ℕ
  get_port s = s.config.port

  -- The signals that it registers again after SIGHUP are registered already, which has no effect.
  unfoldable pub setup_signal_handling : Server Socket → Server Socket
  setup_signal_handling s = record s { signal_waits = suc s.signal_waits }

  -- What follows the first accept: the worker threads, one after the other
  abbrev pub start_threads : Option (ℕ × Text) → Server Socket → Server Socket × Option Text
  start_threads none s = (record s { threads = s.threads + s.config.thread_count }, none)
  start_threads (some (made, e)) s = (record s { threads = s.threads + made }, some e)

  -- What follows the acceptor: the first accept and the threads, unless an exception has left `start`
  unfoldable pub begin :
      Option (ℕ × Text)
      → Server Socket
      → Acceptor Socket × Option Text
      → Server Socket × Option Text
  unfolding do_accept
  begin threads_error s (a, some e) = (record s { acceptor = a }, some e)
  begin threads_error s (a, none) =
      start_threads threads_error (record s { acceptor = do_accept a })

  -- From the signals on, which are waited for once they are registered
  abbrev pub start_from :
      StartOutcome → Acceptor Socket → Server Socket → Server Socket × Option Text
  start_from outcome a s = elim outcome.signals_error [
    | some e ↦ (record s { acceptor = a }, some e)
    | none ↦
        begin outcome.threads_error (setup_signal_handling s)
          (open_acceptor failures outcome.opening a)
  ]

  -- With whether the connection handler and the reload handler are set, and with the message that is thrown
  unfoldable pub start : StartOutcome → Bool → Bool → Server Socket → Server Socket × Option Text
  unfolding begin setup_signal_handling open_acceptor
  start outcome has_handler has_reload s =
      let a = record s.acceptor { running = true; has_handler = has_handler } in
      if s.acceptor.running
      then (s, none)
      else start_from outcome a (record s { has_reload = has_reload })

  unfoldable pub stop : Server Socket → Server Socket
  unfolding close_acceptor
  stop s = if not s.acceptor.running then s else record s {
    acceptor = close_acceptor s.acceptor;
    has_work_guard = false;
    stop_requested = true;
    io_stopped = true;
  }

  -- All threads are joined.
  unfoldable pub wait : Server Socket → Server Socket
  wait s = record s { threads = 0 }

  -- The destructor
  unfoldable pub destroy : Server Socket → Server Socket
  unfolding stop wait
  destroy s = wait (stop s)

  unfoldable pub accept_done : AcceptOutcome Socket → Server Socket → Server Socket
  unfolding on_accept
  accept_done outcome s = record s { acceptor = on_accept outcome s.acceptor }

  abbrev pub after_signal : SignalOutcome → Server Socket → Server Socket
  after_signal signal_error s = s
  after_signal hangup s =
      setup_signal_handling
        (record s { reloads = if s.has_reload then suc s.reloads else s.reloads })
  after_signal terminate s = stop s

  -- The completion of one pending wait for a signal
  unfoldable pub on_signal : SignalOutcome → Server Socket → Server Socket
  unfolding setup_signal_handling stop
  on_signal outcome s = after_signal outcome (record s { signal_waits = s.signal_waits - 1 })
