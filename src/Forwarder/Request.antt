-- ===== src/Forwarder/Request.antt =====
-- `build_backend_request`, `generate_request_id` and `is_streaming_request` of src/proxy/forwarder.cpp.
-- The random generator gives two 64-bit numbers.
use ntonix.Common.{
  ℕ, ◌/◌, ◌%◌, ◌^◌, Bool, true, false, ◌&&◌, ◌||◌, not, [], ◌∷◌, ◌++◌, Option, none, some,
  if◌then◌else◌, is_empty, length, contains, Text, codes,
}
use ntonix.Common.Decimal.{to_decimal}
use ntonix.Cache.Key.{hex_digits}
use ntonix.Config.{BackendConfig}
use ntonix.Forwarder.{ForwarderConfig, BackendRequest}
use ntonix.Http.{
  Field, host, content_type, authorization, accept, accept_encoding, user_agent, connection,
  x_forwarded_for, x_real_ip, x_request_id, FieldsOf, HttpRequest,
}

-- The groups of 32, 16, 16, 16 and 48 bits, in hexadecimal digits
unfoldable pub generate_request_id : ℕ → ℕ → Text
unfolding hex_digits
generate_request_id part1 part2 =
    hex_digits 8 (part1 / 2 ^ 32 % 2 ^ 32)
    ++ b'-' ∷ hex_digits 4 (part1 / 2 ^ 16 % 2 ^ 16)
    ++ b'-' ∷ hex_digits 4 (part1 % 2 ^ 16)
    ++ b'-' ∷ hex_digits 4 (part2 / 2 ^ 48 % 2 ^ 16)
    ++ b'-' ∷ hex_digits 12 (part2 % 2 ^ 48)

-- The request's own id, or a new one if that is configured
unfoldable pub choose_request_id :
    {Fields : Type 0} → ForwarderConfig → HttpRequest Fields → ℕ × ℕ → Text
unfolding generate_request_id
choose_request_id config request (part1, part2) =
    if not (is_empty request.x_request_id)
    then request.x_request_id
    else if config.generate_request_id
    then generate_request_id part1 part2
    else []

abbrev pub forwarded_for : Text → Option Text → Text
forwarded_for client_ip none = client_ip
forwarded_for client_ip (some v) = v ++ codes ", " ++ client_ip

abbrev pub real_ip : Text → Option Text → Text
real_ip client_ip none = client_ip
real_ip client_ip (some v) = v

abbrev accepts_events : Option Text → Bool
accepts_events none = false
accepts_events (some v) = contains (codes "text/event-stream") v

abbrev pub host_port : BackendConfig → Text
host_port backend = backend.host ++ b':' ∷ to_decimal backend.port

module _ {Fields : Type 0} ⦃by : FieldsOf Fields⦄ where
  -- Sets a field to the value that another message has, if it has one.
  abbrev pub copy_field : Field → Fields → Fields → Fields
  copy_field f raw h = elim (by.lookup f raw) [ none ↦ h | some v ↦ by.set f v h ]

  unfoldable pub add_proxy_headers : ForwarderConfig → Fields → Text → Fields → Fields
  add_proxy_headers config raw client_ip h =
      if config.add_forwarded_headers && not (is_empty client_ip)
      then by.set x_real_ip (real_ip client_ip (by.lookup x_real_ip raw))
          (by.set x_forwarded_for (forwarded_for client_ip (by.lookup x_forwarded_for raw)) h)
      else h

  unfoldable pub add_request_id : Text → Fields → Fields
  add_request_id id h = if not (is_empty id) then by.set x_request_id id h else h

  -- The fields up to the proxy's own
  unfoldable pub copied_fields : BackendConfig → Fields → Fields
  copied_fields backend raw = by.set connection (codes "keep-alive") (
      copy_field user_agent raw (
        copy_field accept_encoding raw (
          copy_field accept raw (
            copy_field authorization raw
              (copy_field content_type raw (by.set host (host_port backend) by.no_fields))))))

  unfoldable pub build_backend_request :
      ForwarderConfig → HttpRequest Fields → BackendConfig → Text → ℕ × ℕ → BackendRequest Fields
  unfolding choose_request_id add_proxy_headers add_request_id copied_fields
  build_backend_request config request backend client_ip random =
      let h = add_request_id (choose_request_id config request random) (
        add_proxy_headers config request.raw_request client_ip
          (copied_fields backend request.raw_request)) in
      record {
        method = request.method;
        target = request.target;
        body = request.body;
        fields = by.prepare_payload request.method (length request.body) h;
      }

  unfoldable pub is_streaming_request : HttpRequest Fields → Bool
  is_streaming_request request =
      if contains (codes "\"stream\"") request.body
        && (contains (codes "\"stream\": true") request.body
            || contains (codes "\"stream\":true") request.body)
      then true
      else accepts_events (by.lookup accept request.raw_request)
