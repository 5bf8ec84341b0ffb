-- ===== src/Forwarder/Headers.antt =====
-- The header fields that `Forwarder` sends to the backend and hands back (src/proxy/forwarder.cpp).
use ntonix.Common.{
  ℕ, ◌≡◌, refl, false, ◌&&◌, not, Option, none, some, arith, if◌then◌else◌, is_empty, Text, codes,
  length, Bool-cases, inl, inr,
}
use ntonix.Config.{BackendConfig}
use ntonix.Forwarder.{ForwarderConfig}
use ntonix.Http.{
  Field, host, content_type, authorization, accept, accept_encoding, user_agent, connection,
  x_forwarded_for, x_real_ip, x_request_id, same_field, is_framing, FieldsOf, HttpRequest,
}
use ntonix.Forwarder.Request.{
  build_backend_request, choose_request_id, copied_fields, add_proxy_headers, add_request_id,
  host_port, copy_field, forwarded_for, real_ip,
}

abbrev or_else : Option Text → Option Text → Option Text
or_else none o = o
or_else (some v) o = some v

abbrev copied_field : BackendConfig → (Field → Option Text) → Field → Option Text
copied_field backend sent f = elim f [
  | host ↦ some (host_port backend)
  | content_type ↦ sent content_type
  | authorization ↦ sent authorization
  | accept ↦ sent accept
  | accept_encoding ↦ sent accept_encoding
  | user_agent ↦ sent user_agent
  | connection ↦ some (codes "keep-alive")
  | _ ↦ none
]

-- What the backend is to find in each field, given what the client sent
abbrev pub expected_field :
    ForwarderConfig → BackendConfig → Text → Text → (Field → Option Text) → Field → Option Text
expected_field config backend client_ip id sent f =
    let on = config.add_forwarded_headers && not (is_empty client_ip) in
    elim f [
      | x_forwarded_for ↦ if on then some (forwarded_for client_ip (sent x_forwarded_for)) else none
      | x_real_ip ↦ if on then some (real_ip client_ip (sent x_real_ip)) else none
      | x_request_id ↦ if is_empty id then none else some id
      | g ↦ copied_field backend sent g
    ]

or_else-none : (o : Option Text) → or_else o none ≡ o
or_else-none none = refl
or_else-none (some v) = refl

expected_field_lem :
    (config : ForwarderConfig) (backend : BackendConfig) (client_ip id : Text)
    (sent : Field → Option Text) (f : Field)
    → (if not (is_empty id) && same_field x_request_id f
        then some id
        else if config.add_forwarded_headers && not (is_empty client_ip)
        then if same_field x_real_ip f
          then some (real_ip client_ip (sent x_real_ip))
          else if same_field x_forwarded_for f
          then some (forwarded_for client_ip (sent x_forwarded_for))
          else copied_field backend sent f
        else copied_field backend sent f)
      ≡ expected_field config backend client_ip id sent f
expected_field_lem config backend client_ip id sent host = ground arith
expected_field_lem config backend client_ip id sent f = ground arith

module _ {Fields : Type 0} ⦃by : FieldsOf Fields⦄ where
  lookup-copied :
      (f g : Field) (o : Option Text) (h : Fields)
      → by.lookup g (elim o [ none ↦ h | some v ↦ by.set f v h ])
        ≡ (if same_field f g then or_else o (by.lookup g h) else by.lookup g h)
  lookup-copied f g none h = ground arith
  lookup-copied f g (some v) h = by.lookup-set f g v h

  lookup-copy_field :
      (f g : Field) (raw h : Fields)
      → by.lookup g (copy_field f raw h)
        ≡ (if same_field f g then or_else (by.lookup f raw) (by.lookup g h) else by.lookup g h)
  lookup-copy_field f g raw h = lookup-copied f g (by.lookup f raw) h

  lookup-copied_fields :
      (backend : BackendConfig) (raw : Fields) (f : Field)
      → by.lookup f (copied_fields backend raw) ≡ copied_field backend (λ g. by.lookup g raw) f
  unfolding copied_fields
  lookup-copied_fields backend raw host =
      simp (lookup-copy_field, by.lookup-set, by.lookup-no_fields, or_else-none)
  lookup-copied_fields backend raw f =
      simp (lookup-copy_field, by.lookup-set, by.lookup-no_fields, or_else-none)

  lookup-add_request_id :
      (id : Text) (f : Field) (h : Fields)
      → by.lookup f (add_request_id id h)
        ≡ (if not (is_empty id) && same_field x_request_id f then some id else by.lookup f h)
  unfolding add_request_id
  lookup-add_request_id id f h = ground (arith, by.lookup-set x_request_id f id h)

  lookup-add_proxy_headers :
      (config : ForwarderConfig) (raw : Fields) (client_ip : Text) (f : Field) (h : Fields)
      → by.lookup f (add_proxy_headers config raw client_ip h) ≡ (
          if config.add_forwarded_headers && not (is_empty client_ip)
          then if same_field x_real_ip f
            then some (real_ip client_ip (by.lookup x_real_ip raw))
            else if same_field x_forwarded_for f
            then some (forwarded_for client_ip (by.lookup x_forwarded_for raw))
            else by.lookup f h
          else by.lookup f h)
  unfolding add_proxy_headers
  lookup-add_proxy_headers config raw client_ip f h =
      elim (Bool-cases (config.add_forwarded_headers && not (is_empty client_ip))) [
        | inl on ↦ rw on (simp (by.lookup-set))
        | inr off ↦ rw off refl
      ]

  -- The backend finds exactly the expected fields, whichever of them the client sent. A field that is
  -- not listed is not passed on. Content-Length and Transfer-Encoding are left to `prepare_payload`.
  pub lookup-build_backend_request :
      (config : ForwarderConfig) (request : HttpRequest Fields) (backend : BackendConfig)
      (client_ip : Text) (random : ℕ × ℕ) (f : Field)
      → is_framing f ≡ false
      → by.lookup f (build_backend_request config request backend client_ip random).fields
        ≡ expected_field config backend client_ip
            (choose_request_id config request random)
            (λ g. by.lookup g request.raw_request)
            f
  unfolding build_backend_request copied_fields add_proxy_headers add_request_id
  lookup-build_backend_request config request backend client_ip random f h =
      rw (by.lookup-prepare_payload f request.method (length request.body)) (
        rw (lookup-add_request_id) (
          rw (lookup-add_proxy_headers) (
            rw (lookup-copied_fields) (
              expected_field_lem config backend client_ip (choose_request_id config request random)
                (λ g. by.lookup g request.raw_request) f))))
