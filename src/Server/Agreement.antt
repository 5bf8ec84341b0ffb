-- ===== src/Server/Agreement.antt =====
-- The two connections side by side (src/server/connection.cpp, src/server/ssl_connection.cpp): what a run of
-- each does with the same outcomes of its reads and writes.
use ntonix.Common.{
  ◌≡◌, ◌∙◌, refl, ap, Bool, true, false, not, ◌&&◌, nat_beq, List, [], ◌∷◌, Option, none, some,
  Text, if◌then◌else◌, ℕ,
}
use ntonix.Http.{FieldsOf, Response}
use ntonix.Server.Connection.{
  Connection, ReadError, end_of_stream, timeout, operation_aborted, stream_truncated, other_error,
  bad_method, bad_target, bad_version, bad_content_length, partial_message, ReadOutcome, failed,
  arrived, Handlers, handle, parse_request,
}
use ntonix.Server.SslConnection.{
  SslConnection, idle, handshaking, reading, writing, shutting_down, closed, new_ssl_connection,
  do_handshake, on_handshake,
}
use ntonix.Server.Connection as Plain
use ntonix.Server.SslConnection as Tls

-- What the network did: a read that ended, or a write
pub data Event (Fields : Type 0) : Type 0 where
  read : ReadOutcome Fields → Event Fields
  wrote : Bool → Event Fields

if_agrees {ℓ κ} :
    {A : Type ℓ} {B : Type κ} (f : A → B) (b : Bool) {x y : A} {u v : B}
    → f x ≡ u
    → f y ≡ v
    → f (if b then x else y) ≡ (if b then u else v)
if_agrees f true p q = p
if_agrees f false p q = q

-- The operation of a plain connection that one of a TLS connection stands for
abbrev pub plain_operation : Tls.Operation → Plain.Operation
plain_operation idle = Plain.idle
plain_operation handshaking = Plain.idle
plain_operation reading = Plain.reading
plain_operation writing = Plain.writing
plain_operation shutting_down = Plain.closed
plain_operation closed = Plain.closed

module _ {Fields State : Type 0} ⦃by : FieldsOf Fields⦄ (handlers : Handlers State Fields) where
  abbrev pub plain_view : SslConnection Fields → Connection Fields
  plain_view c = record {
    request = c.request;
    response = c.response;
    keep_alive = c.keep_alive;
    streaming_handled = c.streaming_handled;
    client_ip = c.client_ip;
    client_port = c.client_port;
    operation = plain_operation c.operation;
    written = c.written;
  }

  on_read_error-plain_view :
      (code : ReadError) (message : Text) (c : SslConnection Fields)
      → plain_view (Tls.on_read_error code message c)
        ≡ Plain.on_read_error code message (plain_view c)
  unfolding Tls.on_read_error Plain.on_read_error Tls.do_write Plain.do_write Tls.do_shutdown
      Plain.close
  on_read_error-plain_view end_of_stream message c = refl
  on_read_error-plain_view timeout message c = refl
  on_read_error-plain_view operation_aborted message c = refl
  on_read_error-plain_view stream_truncated message c = refl
  on_read_error-plain_view other_error message c = refl
  on_read_error-plain_view bad_method message c = refl
  on_read_error-plain_view bad_target message c = refl
  on_read_error-plain_view bad_version message c = refl
  on_read_error-plain_view bad_content_length message c = refl
  on_read_error-plain_view partial_message message c = refl

  on_write-plain_view :
      (success : Bool) (c : SslConnection Fields)
      → plain_view (Tls.on_write success c) ≡ Plain.on_write success (plain_view c)
  unfolding Tls.on_write Plain.on_write Tls.do_shutdown Plain.close Tls.do_read Plain.do_read
  on_write-plain_view false c = refl
  on_write-plain_view true c = if_agrees plain_view (not c.keep_alive) refl refl

  conclude-plain_view :
      (c : SslConnection Fields) (answer : Option (Response Fields))
      → plain_view (Tls.conclude c answer) ≡ Plain.conclude handlers (plain_view c) answer
  unfolding Tls.conclude Plain.conclude Tls.do_write Plain.do_write Tls.do_shutdown Plain.close
  conclude-plain_view c none = refl
  conclude-plain_view c (some response) = refl

  abbrev pub both_views : State × SslConnection Fields → State × Connection Fields
  both_views (s, c) = (s, plain_view c)

  on_read-plain_view :
      (outcome : ReadOutcome Fields) (s : State) (c : SslConnection Fields)
      → both_views (Tls.on_read handlers outcome (s, c))
        ≡ Plain.on_read handlers outcome (s, plain_view c)
  unfolding Tls.on_read Plain.on_read Tls.do_write Plain.do_write
  on_read-plain_view (failed code message) s c =
      ap (λ (d : Connection Fields). (s, d)) (on_read_error-plain_view code message c)
  on_read-plain_view (arrived request) s c =
      if_agrees both_views (not (nat_beq request.version 10) && not (nat_beq request.version 11))
        refl
        (ap (λ (d : Connection Fields). (handled.0, d))
          (conclude-plain_view (record c { request = request; keep_alive = request.keep_alive })
            handled.1))
    where
      handled : State × Option (Response Fields)
      handled = handle handlers request.version (parse_request c.client_ip c.client_port request) s

  -- An event, where the operation is pending that it completes
  pub plain_at :
      Plain.Operation → Event Fields → State × Connection Fields → State × Connection Fields
  plain_at Plain.reading (read outcome) x = Plain.on_read handlers outcome x
  plain_at Plain.writing (wrote success) (s, c) = (s, Plain.on_write success c)
  plain_at _ _ x = x

  pub tls_at :
      Tls.Operation → Event Fields → State × SslConnection Fields → State × SslConnection Fields
  tls_at reading (read outcome) x = Tls.on_read handlers outcome x
  tls_at writing (wrote success) (s, c) = (s, Tls.on_write success c)
  tls_at _ _ x = x

  pub plain_run : List (Event Fields) → State × Connection Fields → State × Connection Fields
  plain_run [] x = x
  plain_run (e ∷ events) x = plain_run events (plain_at x.1.operation e x)

  pub tls_run : List (Event Fields) → State × SslConnection Fields → State × SslConnection Fields
  tls_run [] x = x
  tls_run (e ∷ events) x = tls_run events (tls_at x.1.operation e x)

  at-both_views :
      (o : Tls.Operation) (e : Event Fields) (s : State) (c : SslConnection Fields)
      → both_views (tls_at o e (s, c)) ≡ plain_at (plain_operation o) e (s, plain_view c)
  unfolding plain_at tls_at
  at-both_views idle (read outcome) s c = refl
  at-both_views idle (wrote success) s c = refl
  at-both_views handshaking (read outcome) s c = refl
  at-both_views handshaking (wrote success) s c = refl
  at-both_views reading (read outcome) s c = on_read-plain_view outcome s c
  at-both_views reading (wrote success) s c = refl
  at-both_views writing (read outcome) s c = refl
  at-both_views writing (wrote success) s c =
      ap (λ (d : Connection Fields). (s, d)) (on_write-plain_view success c)
  at-both_views shutting_down (read outcome) s c = refl
  at-both_views shutting_down (wrote success) s c = refl
  at-both_views closed (read outcome) s c = refl
  at-both_views closed (wrote success) s c = refl

  run-both_views :
      (events : List (Event Fields)) (x : State × SslConnection Fields)
      → both_views (tls_run events x) ≡ plain_run events (both_views x)
  unfolding tls_run plain_run
  run-both_views [] x = refl
  run-both_views (e ∷ events) x =
      run-both_views events (tls_at x.1.operation e x)
      ∙ ap (plain_run events) (at-both_views x.1.operation e x.0 x.1)

  -- Over TLS, once the handshake has succeeded, a connection does with the same handlers, from the same
  -- state of theirs, and with the same outcomes of its reads and writes, in any number, what a plain
  -- connection does: the handlers' state is the same, and the request, the response, the responses written
  -- and what is pending, where a TLS shutdown that is under way counts as closed.
  pub tls_run-plain_run :
      (events : List (Event Fields)) (ip : Text) (port : ℕ) (s : State)
      → both_views
          (tls_run events (s, on_handshake true (do_handshake (new_ssl_connection ip port))))
        ≡ plain_run events (s, Plain.start (Plain.new_connection ip port))
  unfolding on_handshake do_handshake new_ssl_connection Plain.start Plain.new_connection
      Tls.do_read Plain.do_read
  tls_run-plain_run events ip port s = run-both_views events _
