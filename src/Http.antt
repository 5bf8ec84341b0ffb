-- ===== src/Http.antt =====
-- The HTTP messages that the parts of the gateway hand to each other: the structs of
-- src/server/connection.hpp, and Boost.Beast's messages, whose header fields are an interface.
pub mod FieldList
use ntonix.Common.{
  ℕ, ◌≡◌, Bool, false, ◌&&◌, ◌||◌, List, [], ◌∷◌, Option, none, some, if◌then◌else◌, nat_beq,
  text_beq, to_lower, map, Text, codes,
}

-- The header fields that the program names; any other has its name in lower case.
pub data Field : Type 0 where
  host content_type authorization accept accept_encoding user_agent connection content_length :
      Field
  x_forwarded_for x_real_ip x_request_id server : Field
  keep_alive proxy_authenticate proxy_authorization te trailer transfer_encoding upgrade : Field
  cache_control : Field
  other : Text → Field

abbrev field_code : Field → ℕ
field_code (other name) = 0
field_code host = 1
field_code content_type = 2
field_code authorization = 3
field_code accept = 4
field_code accept_encoding = 5
field_code user_agent = 6
field_code connection = 7
field_code content_length = 8
field_code x_forwarded_for = 9
field_code x_real_ip = 10
field_code x_request_id = 11
field_code server = 12
field_code keep_alive = 13
field_code proxy_authenticate = 14
field_code proxy_authorization = 15
field_code te = 16
field_code trailer = 17
field_code transfer_encoding = 18
field_code upgrade = 19
field_code cache_control = 20

abbrev other_name : Field → Text
other_name f = elim f [ other name ↦ name | _ ↦ [] ]

-- Whether two fields have one name, without regard to case
abbrev pub same_field : Field → Field → Bool
same_field f g = nat_beq (field_code f) (field_code g) && text_beq (other_name f) (other_name g)

-- The names of the known fields, in lower case
abbrev known_fields : List (Text × Field)
known_fields =
    (codes "host", host)
    ∷ (codes "content-type", content_type)
    ∷ (codes "authorization", authorization)
    ∷ (codes "accept", accept)
    ∷ (codes "accept-encoding", accept_encoding)
    ∷ (codes "user-agent", user_agent)
    ∷ (codes "connection", connection)
    ∷ (codes "content-length", content_length)
    ∷ (codes "x-forwarded-for", x_forwarded_for)
    ∷ (codes "x-real-ip", x_real_ip)
    ∷ (codes "x-request-id", x_request_id)
    ∷ (codes "server", server)
    ∷ (codes "keep-alive", keep_alive)
    ∷ (codes "proxy-authenticate", proxy_authenticate)
    ∷ (codes "proxy-authorization", proxy_authorization)
    ∷ (codes "te", te)
    ∷ (codes "trailer", trailer)
    ∷ (codes "transfer-encoding", transfer_encoding)
    ∷ (codes "upgrade", upgrade)
    ∷ (codes "cache-control", cache_control)
    ∷ []

abbrev field_among : Text → List (Text × Field) → Field
field_among name [] = other name
field_among name ((n, f) ∷ rest) = if text_beq n name then f else field_among name rest

-- The field that a name in any case stands for
unfoldable pub field_named : Text → Field
field_named name = field_among (map to_lower name) known_fields

abbrev pub is_framing : Field → Bool
is_framing f = same_field content_length f || same_field transfer_encoding f

-- A field as it is iterated over: `name()`, `name_string()` and `value()`
pub record Entry : Type 0 where
  pub name : Field
  pub name_string : Text
  pub value : Text

-- `http::fields` with `set`, `find`, iteration, and `prepare_payload` for a method and a body's length
pub record FieldsOf (Fields : Type 0) : Type 0 where
  pub no_fields : Fields
  pub set : Field → Text → Fields → Fields
  pub lookup : Field → Fields → Option Text
  pub entries : Fields → List Entry
  pub prepare_payload : Text → ℕ → Fields → Fields
  pub lookup-no_fields : (f : Field) → lookup f no_fields ≡ none
  pub lookup-set :
      (f g : Field) (v : Text) (h : Fields)
      → lookup g (set f v h) ≡ (if same_field f g then some v else lookup g h)
  pub lookup-prepare_payload :
      (f : Field) (method : Text) (size : ℕ) (h : Fields)
      → is_framing f ≡ false
      → lookup f (prepare_payload method size h) ≡ lookup f h

-- `http::request<string_body>` as it is read. What Beast's `keep_alive()` says of it is kept with it.
pub record Request (Fields : Type 0) : Type 0 where
  pub method : Text
  pub target : Text
  pub version : ℕ
  pub body : Text
  pub fields : Fields
  pub keep_alive : Bool

-- `http::response<string_body>`
pub record Response (Fields : Type 0) : Type 0 where
  pub status : ℕ
  pub version : ℕ
  pub body : Text
  pub fields : Fields

-- The fields of `raw_request` stand for it.
pub record HttpRequest (Fields : Type 0) : Type 0 where
  pub method : Text
  pub target : Text
  pub version : ℕ
  pub host : Text
  pub content_type : Text
  pub authorization : Text
  pub x_request_id : Text
  pub body : Text
  pub client_ip : Text
  pub client_port : ℕ
  pub raw_request : Fields

pub record HttpResponse : Type 0 where
  pub status : ℕ
  pub content_type : Text
  pub body : Text
  pub headers : List (Text × Text)

abbrev pub new_response : HttpResponse
new_response = record { status = 200; content_type = codes "text/plain"; body = []; headers = [] }
