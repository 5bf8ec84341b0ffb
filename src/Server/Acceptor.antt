-- ===== src/Server/Acceptor.antt =====
-- What `Server` and `SslServer` (src/server/server.cpp, src/server/ssl_server.cpp) have in common: the
-- acceptor, its accept loop, and the connections that it hands on. Each is written out in both files.
use ntonix.Common.{
  ℕ, Bool, true, false, not, List, ◌∷◌, [], ◌++◌, Option, none, some, if◌then◌else◌, ◌-◌, suc, Text,
  add64,
}

-- How an `async_accept` ends
pub data AcceptOutcome (Socket : Type 0) : Type 0 where
  accepted : Socket → AcceptOutcome Socket
  operation_aborted accept_error : AcceptOutcome Socket

-- What the calls of `start` said: `make_address` threw, or a call set an error code
pub record OpenOutcome : Type 0 where
  pub address_error : Option Text
  pub open_error : Option Text
  pub bind_error : Option Text
  pub listen_error : Option Text

-- What is put before the error's message
pub record Failures : Type 0 where
  pub open_failed : Text
  pub bind_failed : Text
  pub listen_failed : Text

-- The sockets that the connection handler was called with are kept in their order. What the handler throws
-- is caught.
pub record Acceptor (Socket : Type 0) : Type 0 where
  pub running : Bool
  pub opened : Bool
  pub pending : ℕ
  pub has_handler : Bool
  pub connections_accepted : ℕ
  pub handed : List Socket

module _ {Socket : Type 0} where
  abbrev pub new_acceptor : Acceptor Socket
  new_acceptor = record {
    running = false;
    opened = false;
    pending = 0;
    has_handler = false;
    connections_accepted = 0;
    handed = [];
  }

  unfoldable pub do_accept : Acceptor Socket → Acceptor Socket
  do_accept a = if not a.running then a else record a { pending = suc a.pending }

  -- The connection is counted, and the handler called with it.
  unfoldable pub take_connection : Socket → Acceptor Socket → Acceptor Socket
  take_connection socket a = record a {
    connections_accepted = add64 a.connections_accepted 1;
    handed = if a.has_handler then a.handed ++ socket ∷ [] else a.handed;
  }

  abbrev pub on_outcome : AcceptOutcome Socket → Acceptor Socket → Acceptor Socket
  on_outcome (accepted socket) a = do_accept (take_connection socket a)
  on_outcome accept_error a = do_accept a
  on_outcome operation_aborted a = a

  -- The completion of one pending accept
  unfoldable pub on_accept : AcceptOutcome Socket → Acceptor Socket → Acceptor Socket
  unfolding do_accept take_connection
  on_accept outcome a =
      let a' = record a { pending = a.pending - 1 } in
      if not a'.running then a' else on_outcome outcome a'

  -- The failure of a call that sets an error code: `running_` is reset, and the message is thrown.
  abbrev pub fail : Text → Text → Acceptor Socket → Acceptor Socket × Option Text
  fail failed message a = (record a { running = false }, some (failed ++ message))

  abbrev listen_at : Failures → Option Text → Acceptor Socket → Acceptor Socket × Option Text
  listen_at failures (some e) a = fail failures.listen_failed e a
  listen_at failures none a = (a, none)

  abbrev bind_at :
      Failures → Option Text → Option Text → Acceptor Socket → Acceptor Socket × Option Text
  bind_at failures (some e) listen a = fail failures.bind_failed e a
  bind_at failures none listen a = listen_at failures listen a

  abbrev open_at : Failures → OpenOutcome → Acceptor Socket → Acceptor Socket × Option Text
  open_at failures outcome a = elim outcome.open_error [
    | some e ↦ fail failures.open_failed e a
    | none ↦ bind_at failures outcome.bind_error outcome.listen_error (record a { opened = true })
  ]

  -- From the endpoint to the listening acceptor, with the message that is thrown if one is
  unfoldable pub open_acceptor :
      Failures → OpenOutcome → Acceptor Socket → Acceptor Socket × Option Text
  open_acceptor failures outcome a = elim outcome.address_error [
    | some e ↦ (a, some e)
    | none ↦ open_at failures outcome a
  ]

  unfoldable pub close_acceptor : Acceptor Socket → Acceptor Socket
  close_acceptor a = record a { running = false; opened = false }
