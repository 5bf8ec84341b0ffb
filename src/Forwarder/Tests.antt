-- ===== src/Forwarder/Tests.antt =====
-- The theorems on src/proxy/forwarder.cpp at a request with fields, and a request id as it is written.
use ntonix.Common.{◌≡◌, ◌⊎◌, refl, true, [], ◌∷◌, none, some, codes}
use ntonix.Cache.Key.{hex_digits}
use ntonix.Config.{BackendConfig}
use ntonix.Pool.{PooledConnection}
use ntonix.Pool.Guard.{new_guard}
use ntonix.Forwarder.{ForwarderConfig, BackendRequest}
use ntonix.Http.{content_type, x_forwarded_for, connection, server, other, HttpRequest}
use ntonix.Http.FieldList.{FieldList, field_list, find_field, all_entries}
use ntonix.Forwarder.Request.{build_backend_request, generate_request_id}
use ntonix.Forwarder.Response.{kept_headers}
use ntonix.Forwarder.Outcome.{Exchange, failed, system_error, timeout, forward}
use ntonix.Forwarder.Headers.{lookup-build_backend_request}
use ntonix.Forwarder.Results.{told, IsGatewayError, forward-release}

abbrev config : ForwarderConfig
config = record { add_forwarded_headers = true; generate_request_id = true }

abbrev backend : BackendConfig
backend = record { host = codes "gpu"; port = 8001; weight = 1 }

abbrev request : HttpRequest FieldList
request = record {
  method = codes "POST";
  target = codes "/v1/chat";
  body = codes "{}";
  version = 11;
  host = codes "gateway";
  content_type = codes "application/json";
  authorization = [];
  x_request_id = [];
  client_ip = codes "10.0.0.9";
  client_port = 40000;
  raw_request = (x_forwarded_for, codes "10.0.0.7") ∷ (other (codes "cookie"), codes "a=b") ∷ [];
}

-- The client's address is added to the ones that are there.
lookup-build_backend_request_example :
    find_field x_forwarded_for
      (build_backend_request config request backend (codes "10.0.0.9") (7, 8)).fields
    ≡ some (codes "10.0.0.7, 10.0.0.9")
lookup-build_backend_request_example =
    lookup-build_backend_request config request backend (codes "10.0.0.9") (7, 8) x_forwarded_for
      refl

-- A cookie is not passed on.
no_cookie :
    find_field
      (other (codes "cookie"))
      (build_backend_request config request backend (codes "10.0.0.9") (7, 8)).fields
    ≡ none
no_cookie =
    lookup-build_backend_request config request backend (codes "10.0.0.9") (7, 8)
      (other (codes "cookie")) refl

request_id_lem : generate_request_id 4886718345 255 ≡ codes "00000001-2345-6789-0000-0000000000ff"
unfolding generate_request_id hex_digits
request_id_lem = refl

kept_headers_lem :
    kept_headers (
      all_entries (
        (connection, codes "close")
        ∷ (server, codes "gpu")
        ∷ (other (codes "x-model"), codes "m")
        ∷ (content_type, codes "text/html")
        ∷ []))
    ≡ (codes "Field", codes "m") ∷ []
unfolding kept_headers
kept_headers_lem = refl

abbrev times_out : BackendRequest FieldList → Exchange FieldList
times_out r = failed (system_error timeout (codes "timeout"))

abbrev conn : PooledConnection
conn = record { socket = 3; backend = backend; last_used = 5; usage_count = 1; in_use = true }

forward-release_example :
    let (result, guard) =
      forward config request backend [] (7, 8) 30000 times_out (some (new_guard conn)) in
    (told guard ≡ some (conn, result.success)) × ((result.success ≡ true) ⊎ IsGatewayError result)
forward-release_example = forward-release config request backend [] (7, 8) 30000 times_out conn
