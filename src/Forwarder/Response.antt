-- ===== src/Forwarder/Response.antt =====
-- `parse_backend_response` of src/proxy/forwarder.cpp
use ntonix.Common.{Bool, false, ◌||◌, List, [], ◌∷◌, Option, none, some, if◌then◌else◌, Text}
use ntonix.Forwarder.{BackendResponse}
use ntonix.Http.{
  Field, connection, keep_alive, proxy_authenticate, proxy_authorization, te, trailer,
  transfer_encoding, upgrade, content_type, server, same_field, Entry, FieldsOf, HttpResponse,
  new_response,
}

abbrev pub field_in : Field → List Field → Bool
field_in f [] = false
field_in f (g ∷ gs) = same_field g f || field_in f gs

abbrev pub hop_by_hop : List Field
hop_by_hop =
    connection ∷ keep_alive ∷ proxy_authenticate ∷ proxy_authorization ∷ te ∷ trailer
    ∷ transfer_encoding ∷ upgrade ∷ []

-- The loop over the header fields, with its three tests
unfoldable pub kept_headers : List Entry → List (Text × Text)
kept_headers [] = []
kept_headers (header ∷ headers) =
    let rest = kept_headers headers in
    if field_in header.name hop_by_hop
    then rest
    else if same_field content_type header.name
    then rest
    else if same_field server header.name
    then rest
    else (header.name_string, header.value) ∷ rest

abbrev or_default : Text → Option Text → Text
or_default default none = default
or_default default (some v) = v

module _ {Fields : Type 0} ⦃by : FieldsOf Fields⦄ where
  unfoldable pub parse_backend_response : BackendResponse Fields → HttpResponse
  unfolding kept_headers
  parse_backend_response response = record {
    status = response.status;
    content_type = or_default new_response.content_type (by.lookup content_type response.fields);
    body = response.body;
    headers = kept_headers (by.entries response.fields);
  }
