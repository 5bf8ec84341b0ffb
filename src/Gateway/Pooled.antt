-- ===== src/Gateway/Pooled.antt =====
-- A call of the forwarder with the connection it takes from the pool: `get_connection`, the call, and the
-- destructor of the guard, which gives the connection back (src/proxy/forwarder.cpp, connection_pool.cpp).
use ntonix.Common.Map.{find, assign}
use ntonix.Common.{ℕ, Bool, Option, none, some, text_eq}
use ntonix.Config.{BackendConfig}
use ntonix.Forwarder.Outcome.{ForwardResult, forward, forward_with_streaming}
use ntonix.Gateway.{Gateway, Moment}
use ntonix.Http.{FieldsOf, HttpRequest}
use ntonix.Pool.{PooledConnection, Sockets, return_connection}
use ntonix.Pool.Guard.{ConnectionGuard, new_guard, release}
use ntonix.Pool.Manager.{ConnectionPoolManager, backend_key, manager_get_connection}
use ntonix.Stream.{StreamPipeConfig}
use ntonix.Common.{Text}

abbrev pub guard_of : Option PooledConnection → Option ConnectionGuard
guard_of none = none
guard_of (some conn) = some (new_guard conn)

-- The guard's release function, with the pool that the connection came from. That pool is still there:
-- within the handling of one request there is no reload.
unfoldable pub give_back :
    Sockets
    → ℕ
    → BackendConfig
    → Option (PooledConnection × Bool)
    → ConnectionPoolManager
    → ConnectionPoolManager
unfolding backend_key return_connection
give_back is_open now backend none m = m
give_back is_open now backend (some (conn, reusable)) m =
    elim (find (backend_key backend) m.pools) [
      | none ↦ m
      | some pool ↦ record m {
        pools =
            assign (backend_key backend) (return_connection is_open now conn reusable pool) m.pools;
      }
    ]

-- The destructor of the optional guard
unfoldable pub drop_guard :
    Sockets
    → ℕ
    → BackendConfig
    → Option ConnectionGuard
    → ConnectionPoolManager
    → ConnectionPoolManager
unfolding give_back release
drop_guard is_open now backend none m = m
drop_guard is_open now backend (some guard) m = give_back is_open now backend (release guard).1 m

module _ {Fields : Type 0} ⦃by : FieldsOf Fields⦄ where
  unfoldable pub pooled_forward :
      Moment Fields → Gateway → HttpRequest Fields → BackendConfig → Gateway × ForwardResult
  unfolding manager_get_connection new_guard forward drop_guard
  pooled_forward now g req backend =
      let (pools, conn) =
        manager_get_connection now.open_before now.connects now.lent_at g.connection_pool backend in
      let (result, guard) =
        forward g.forwarder_config req backend req.client_ip now.random now.forward_latency
          now.exchange (guard_of conn) in
      (
        record g {
          connection_pool = drop_guard now.open_after now.returned_at backend guard pools;
        },
        result,
      )

  -- The same with the streaming call: with its result come the bytes that the client received.
  unfoldable pub pooled_stream :
      StreamPipeConfig
      → Moment Fields
      → Gateway
      → HttpRequest Fields
      → BackendConfig
      → Option (Gateway × ForwardResult × Text)
  unfolding manager_get_connection new_guard forward_with_streaming drop_guard
  pooled_stream pipe now g req backend =
      let (pools, conn) =
        manager_get_connection now.open_before now.connects now.lent_at g.connection_pool backend in
      elim (forward_with_streaming g.forwarder_config pipe req backend req.client_ip now.random
        now.forward_latency now.opened (guard_of conn)) [
          | none ↦ none
          | some (result, (guard, sent)) ↦ some (
            record g {
              connection_pool = drop_guard now.open_after now.returned_at backend guard pools;
            },
            result,
            sent,
          )
        ]
