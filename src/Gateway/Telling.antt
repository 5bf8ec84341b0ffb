-- ===== src/Gateway/Telling.antt =====
-- What a pool is told of the connection that a streaming call was lent (src/proxy/forwarder.cpp).
use ntonix.Common.{
  ℕ, ◌≡◌, refl, ap, ◌∙◌, Bool, true, false, ◌&&◌, [], Option, none, some, if_intro, option_intro,
  Text,
}
use ntonix.Config.{BackendConfig}
use ntonix.Forwarder.Outcome.{
  ForwardResult, ended, Opened, opened, not_opened, forward_opened, forward_with_streaming, caught,
  streamed,
}
use ntonix.Forwarder.Request.{build_backend_request, is_streaming_request}
use ntonix.Forwarder.Results.{told, ended-release}
use ntonix.Gateway.{Gateway, Moment}
use ntonix.Gateway.Lending.{with_flag}
use ntonix.Gateway.Pooled.{guard_of}
use ntonix.Http.{FieldsOf, HttpRequest, content_type, transfer_encoding}
use ntonix.Pool.{PooledConnection}
use ntonix.Pool.Guard.{ConnectionGuard, new_guard, mark_failed, release}
use ntonix.Stream.{StreamPipeConfig, forward_stream, is_streaming_response}

-- The pool is told of the connection, whatever the streaming call brings
pub record Tells (conn : Option PooledConnection)
    (r : Option (ForwardResult × (Option ConnectionGuard × Text))) : Type 0 where
  pub tells :
      (result : ForwardResult) (guard : Option ConnectionGuard) (sent : Text)
      → r ≡ some (result, (guard, sent))
      → (flag : Bool) × (told guard ≡ with_flag flag conn)

some-Tells :
    (conn : Option PooledConnection) (result : ForwardResult) (guard : Option ConnectionGuard)
    (sent : Text) (flag : Bool)
    → told guard ≡ with_flag flag conn
    → Tells conn (some (result, (guard, sent)))
some-Tells conn result guard sent flag h = record {
  tells = λ result' guard' sent' e. (flag, ap told (cc) ∙ h);
}

module _ {Fields : Type 0} ⦃by : FieldsOf Fields⦄ where
  forward_opened-Tells :
      (pipe : StreamPipeConfig) (asked : Bool) (backend : BackendConfig) (latency : ℕ)
      (conn : PooledConnection) (o : Opened Fields)
      → Tells (some conn) (forward_opened pipe asked backend latency (new_guard conn) o)
  unfolding forward_opened mark_failed new_guard release
  forward_opened-Tells pipe asked backend latency conn (not_opened failure) =
      some-Tells (some conn) (caught backend latency failure) (some (mark_failed (new_guard conn)))
        [] false refl
  forward_opened-Tells pipe asked backend latency conn (opened o) =
      if_intro (Tells (some conn))
        (asked
          && is_streaming_response o.status (by.lookup content_type o.fields)
              (by.lookup transfer_encoding o.fields))
        (λ _.
          option_intro (Tells (some conn))
            (forward_stream pipe o.header_sent o.initial_body o.initial_write true o.turns
              o.last_write)
            none
            (λ s. some (streamed backend latency s, (some (mark_failed (new_guard conn)), s.sent)))
            (λ _. record { tells = λ result guard sent e. absurd cc })
            (λ s _.
              some-Tells (some conn) _ (some (mark_failed (new_guard conn))) s.sent false refl))
        (λ _.
          some-Tells (some conn) _ (some (ended backend latency (new_guard conn) o.whole).1) [] _
            (ended-release backend latency conn o.whole).0)

  pub forward_with_streaming-Tells :
      (pipe : StreamPipeConfig) (now : Moment Fields) (g : Gateway) (req : HttpRequest Fields)
      (backend : BackendConfig) (conn : Option PooledConnection)
      → Tells conn (
          forward_with_streaming g.forwarder_config pipe req backend req.client_ip now.random
            now.forward_latency now.opened
            (guard_of conn))
  unfolding forward_with_streaming
  forward_with_streaming-Tells pipe now g req backend none = some-Tells none _ none [] false refl
  forward_with_streaming-Tells pipe now g req backend (some c) =
      forward_opened-Tells pipe (is_streaming_request req) backend now.forward_latency c
        (now.opened (build_backend_request g.forwarder_config req backend req.client_ip now.random))
