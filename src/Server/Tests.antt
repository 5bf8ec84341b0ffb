-- ===== src/Server/Tests.antt =====
-- The theorems on src/server/ at a connection that reads one request, a server that accepts one connection,
-- and a certificate for one host.
use ntonix.Common.{ℕ, ◌≡◌, ◌⊎◌, refl, true, false, List, [], ◌∷◌, none, some, codes, arith}
use ntonix.Http.{Request, new_response}
use ntonix.Http.FieldList.{FieldList, field_list}
use ntonix.Server.Acceptor.{accepted}
use ntonix.Server.States.{IsLive, Reach, here, next, accept_step, stop_step}
use ntonix.Server.Agreement.{Event, read, wrote, both_views, plain_run, tls_run, tls_run-plain_run}
use ntonix.Server.Connection.{
  Connection, Handlers, returned, Operation, start, on_read, arrived, build_response,
  finish_response, new_connection,
}
use ntonix.Server.Connection
use ntonix.Server.HttpServer.{Server, ServerConfig, StartOutcome, new_server, accept_done}
use ntonix.Server.HttpServer
use ntonix.Server.Promise
use ntonix.Server.SslConnection.{new_ssl_connection, do_handshake, on_handshake}
use ntonix.Server.Starting.{IsRefused, Reach-start-IsLive, start-IsRefused}

abbrev handlers : Handlers ℕ FieldList
handlers = record {
  handler = λ calls req. (calls, returned new_response);
  streaming_handler = none;
}

abbrev request : Request FieldList
request = record {
  method = codes "GET";
  target = codes "/health";
  version = 11;
  body = [];
  fields = [];
  keep_alive = true;
}

-- The connection that has read the request
abbrev answering : ℕ × Connection FieldList
answering = on_read handlers (arrived request) (0, start (new_connection (codes "10.0.0.9") 40000))

reached : Promise.Reach handlers (0, new_connection (codes "10.0.0.9") 40000) answering
unfolding start new_connection
reached =
    Promise.next
      (Promise.next Promise.here (Promise.started 0 (new_connection (codes "10.0.0.9") 40000) refl))
      (Promise.read_done (arrived request) 0 (start (new_connection (codes "10.0.0.9") 40000)) refl)

is_writing : answering.1.operation ≡ Connection.writing
unfolding on_read start new_connection
is_writing = refl

Reach-IsKept_example : Promise.IsKept handlers answering.1 ⊎ Promise.IsDropped handlers answering.1
Reach-IsKept_example =
    Promise.Reach-IsKept handlers (codes "10.0.0.9") 40000 0 answering reached is_writing

abbrev events : List (Event FieldList)
events = read (arrived request) ∷ wrote true ∷ wrote false ∷ []

tls_run-plain_run_example :
    both_views handlers (
      tls_run handlers events
        (0, on_handshake true (do_handshake (new_ssl_connection (codes "10.0.0.9") 40000))))
    ≡ plain_run handlers events (0, start (new_connection (codes "10.0.0.9") 40000))
tls_run-plain_run_example = tls_run-plain_run handlers events (codes "10.0.0.9") 40000 0

abbrev config : ServerConfig
config = record { port = 8080; thread_count = 4; bind_address = codes "0.0.0.0" }

abbrev opens : StartOutcome
opens = record {
  signals_error = none;
  opening = record {
    address_error = none;
    open_error = none;
    bind_error = none;
    listen_error = none;
  };
  threads_error = none;
}

-- The second of the four threads cannot be made.
abbrev no_thread : StartOutcome
no_thread = record opens { threads_error = some (1, codes "Resource temporarily unavailable") }

abbrev started : Server ℕ
started = (HttpServer.start opens true false (new_server config)).0

starts : (HttpServer.start opens true false (new_server {Socket = ℕ} config)).1 ≡ none
unfolding HttpServer.start new_server
starts = refl

lived : Reach started (HttpServer.stop (accept_done (accepted 3) started))
unfolding HttpServer.start new_server
lived =
    next (next here (accept_step (accepted 3) started (omega arith) (λ e. absurd cc))) (stop_step _)

Reach-start-IsLive_example : IsLive (HttpServer.stop (accept_done (accepted 3) started))
Reach-start-IsLive_example = Reach-start-IsLive opens false config _ starts lived

not_running : HttpServer.is_running (new_server {Socket = ℕ} config) ≡ false
unfolding HttpServer.is_running new_server
not_running = refl

is_refused :
    (HttpServer.start no_thread true false (new_server {Socket = ℕ} config)).1
    ≡ some (codes "Resource temporarily unavailable")
unfolding HttpServer.start new_server
is_refused = refl

start-IsRefused_example :
    IsRefused no_thread
      (new_server config)
      (HttpServer.start no_thread true false (new_server {Socket = ℕ} config)).0
start-IsRefused_example =
    start-IsRefused no_thread true false (new_server config)
      (codes "Resource temporarily unavailable") not_running is_refused
