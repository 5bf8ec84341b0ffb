-- ===== src/Forwarder.antt =====
-- src/proxy/forwarder.{hpp,cpp}: `Forwarder`, which sends a request on to a backend. The header fields of
-- Boost.Beast are an interface; what the backend's socket does is an outcome that depends on the request.
pub mod Request
pub mod Response
pub mod Outcome
pub mod Headers
pub mod Results
mod Tests
use ntonix.Common.{ℕ, Bool, Text}

-- Its `stream_config` is an argument of the streaming call; the timeouts and `max_retries` are not read.
pub record ForwarderConfig : Type 0 where
  pub add_forwarded_headers : Bool
  pub generate_request_id : Bool

-- `http::request<string_body>` and `http::response<string_body>`
pub record BackendRequest (Fields : Type 0) : Type 0 where
  pub method : Text
  pub target : Text
  pub body : Text
  pub fields : Fields

pub record BackendResponse (Fields : Type 0) : Type 0 where
  pub status : ℕ
  pub body : Text
  pub fields : Fields
