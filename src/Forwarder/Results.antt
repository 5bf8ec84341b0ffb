-- ===== src/Forwarder/Results.antt =====
-- What `forward` of src/proxy/forwarder.cpp makes of the connection that it is lent, on every outcome.
use ntonix.Common.{ℕ, ◌≡◌, ◌⊎◌, inl, inr, refl, Bool, true, Option, none, some, Text}
use ntonix.Config.{BackendConfig}
use ntonix.Pool.{PooledConnection}
use ntonix.Pool.Guard.{ConnectionGuard, new_guard, mark_failed, release}
use ntonix.Forwarder.{ForwarderConfig, BackendRequest}
use ntonix.Http.{FieldsOf, HttpRequest}
use ntonix.Forwarder.Request.{build_backend_request}
use ntonix.Forwarder.Outcome.{
  Exchange, answered, failed, Failure, system_error, other_exception, timeout, connection_refused,
  connection_reset, broken_pipe, other_error, ForwardResult, code_status, caught, ended, forward,
}

-- What the pool is told when the guard is destroyed
abbrev pub told : Option ConnectionGuard → Option (PooledConnection × Bool)
told none = none
told (some guard) = (release guard).1

-- A result that tells of an error has one of three statuses.
abbrev pub IsGatewayError : ForwardResult → Type 0
IsGatewayError r =
    (r.response.status ≡ 500) ⊎ ((r.response.status ≡ 502) ⊎ (r.response.status ≡ 504))

caught-IsGatewayError :
    (backend : BackendConfig) (latency : ℕ) (failure : Failure)
    → IsGatewayError (caught backend latency failure)
unfolding caught code_status
caught-IsGatewayError backend latency (system_error timeout m) = inr (inr refl)
caught-IsGatewayError backend latency (system_error connection_refused m) = inr (inl refl)
caught-IsGatewayError backend latency (system_error connection_reset m) = inr (inl refl)
caught-IsGatewayError backend latency (system_error broken_pipe m) = inr (inl refl)
caught-IsGatewayError backend latency (system_error other_error m) = inr (inl refl)
caught-IsGatewayError backend latency (other_exception m) = inl refl

module _ {Fields : Type 0} ⦃by : FieldsOf Fields⦄ where
  pub ended-release :
      (backend : BackendConfig) (latency : ℕ) (conn : PooledConnection) (exchange : Exchange Fields)
      → (told (some (ended backend latency (new_guard conn) exchange).1)
          ≡ some (conn, (ended backend latency (new_guard conn) exchange).0.success))
        × (((ended backend latency (new_guard conn) exchange).0.success ≡ true)
            ⊎ IsGatewayError (ended backend latency (new_guard conn) exchange).0)
  unfolding release new_guard mark_failed caught
  ended-release backend latency conn (answered response) = (refl, inl refl)
  ended-release backend latency conn (failed (system_error code m)) =
      (refl, inr (caught-IsGatewayError backend latency (system_error code m)))
  ended-release backend latency conn (failed (other_exception m)) =
      (refl, inr (caught-IsGatewayError backend latency (other_exception m)))

  -- The connection that `forward` is lent goes back to the pool, for further use if and only if the
  -- result is a success; and a result that is none has a status of 500, 502 or 504.
  pub forward-release :
      (config : ForwarderConfig) (request : HttpRequest Fields) (backend : BackendConfig)
      (client_ip : Text) (random : ℕ × ℕ) (latency : ℕ)
      (exchange : BackendRequest Fields → Exchange Fields) (conn : PooledConnection)
      → let (result, guard) =
          forward config request backend client_ip random latency exchange
            (some (new_guard conn)) in
        (told guard ≡ some (conn, result.success))
        × ((result.success ≡ true) ⊎ IsGatewayError result)
  unfolding forward
  forward-release config request backend client_ip random latency exchange conn =
      ended-release backend latency conn
        (exchange (build_backend_request config request backend client_ip random))
