-- ===== src/Server/Promise.antt =====
-- What a connection tells its client of its own future (src/server/connection.cpp): the Connection field of
-- each response against what follows the write.
use ntonix.Common.{
  Bool-cases, if_intro, ◌&&◌, nat_beq, ℕ, ◌≡◌, ◌∙◌, ◌⊎◌, inl, inr, refl, Bool, true, false, not, [],
  ◌++◌, ap, Option, none, some, if◌then◌else◌, Text, codes, length,
}
use ntonix.Http.{connection, FieldsOf, Response}
use ntonix.Server.Connection.{
  Connection, idle, reading, writing, closed, ReadOutcome, ReadError, Handlers, finish_response,
  new_connection, is_malformed, close, empty_response, parse_request, build_error_response, do_read,
  do_write, start, on_read_error, on_read, on_write, conclude, handle, failed, arrived,
}

module _ {Fields State : Type 0} ⦃by : FieldsOf Fields⦄ (handlers : Handlers State Fields) where
  -- The completion of the operation that the connection waits for
  pub data Step : State × Connection Fields → State × Connection Fields → Type 0 where
    started : (s : State) (c : Connection Fields) → c.operation ≡ idle → Step (s, c) (s, start c)
    read_done :
        (outcome : ReadOutcome Fields) (s : State) (c : Connection Fields)
        → c.operation ≡ reading
        → Step (s, c) (on_read handlers outcome (s, c))
    write_done :
        (success : Bool) (s : State) (c : Connection Fields)
        → c.operation ≡ writing
        → Step (s, c) (s, on_write success c)

  pub data Reach (start : State × Connection Fields) : State × Connection Fields → Type 0 where
    here : Reach start start
    next : {x y : State × Connection Fields} → Reach start x → Step x y → Reach start y

  -- What is being written says whether the connection is kept.
  abbrev said : Bool → Option Text
  said keep_alive = some (if keep_alive then codes "keep-alive" else codes "close")

  record Promises (c : Connection Fields) : Type 0 where
    pub promise : c.operation ≡ writing → by.lookup connection c.response.fields ≡ said c.keep_alive

  do_write-Promises : (c : Connection Fields) → Promises (do_write c)
  unfolding do_write finish_response
  do_write-Promises c = record {
    promise = λ e.
        by.lookup-prepare_payload connection [] (length c.response.body) _ refl
        ∙ by.lookup-set connection connection _ _;
  }

  reading-Promises : (c : Connection Fields) → Promises (do_read c)
  unfolding do_read
  reading-Promises c = record { promise = λ e. cc }

  close-Promises : (c : Connection Fields) → Promises (close c)
  unfolding close
  close-Promises c = record { promise = λ e. cc }

  on_read_error-Promises :
      (code : ReadError) (message : Text) (c : Connection Fields)
      → Promises (on_read_error code message c)
  unfolding on_read_error
  on_read_error-Promises code message c =
      if_intro Promises (is_malformed code)
        (λ _. do_write-Promises (record c {
          response =
              build_error_response c.request.version 400
                (codes "Malformed HTTP request: " ++ message);
        }))
        (λ _. close-Promises c)

  on_write-Promises : (success : Bool) (c : Connection Fields) → Promises (on_write success c)
  unfolding on_write
  on_write-Promises false c = close-Promises c
  on_write-Promises true c =
      if_intro Promises (not c.keep_alive) (λ _. close-Promises c)
        (λ _. reading-Promises (record c { response = empty_response }))

  conclude-Promises :
      (c : Connection Fields) (answer : Option (Response Fields))
      → Promises (conclude handlers c answer)
  unfolding conclude
  conclude-Promises c none = close-Promises (record c { streaming_handled = true })
  conclude-Promises c (some response) =
      do_write-Promises (record c { streaming_handled = false; response = response })

  on_read-Promises :
      (outcome : ReadOutcome Fields) (s : State) (c : Connection Fields)
      → Promises (on_read handlers outcome (s, c)).1
  unfolding on_read
  on_read-Promises (failed code message) s c = on_read_error-Promises code message c
  on_read-Promises (arrived request) s c =
      if_intro (λ (x : State × Connection Fields). Promises x.1)
        (not (nat_beq request.version 10) && not (nat_beq request.version 11))
        (λ _. do_write-Promises (record c {
          request = request;
          response =
              build_error_response request.version 505
                (codes "Only HTTP/1.0 and HTTP/1.1 are supported");
        }))
        (λ _.
          conclude-Promises (record c { request = request; keep_alive = request.keep_alive })
            (handle handlers request.version (parse_request c.client_ip c.client_port request) s).1)

  Step-Promises : {x y : State × Connection Fields} → Step x y → Promises y.1
  unfolding start
  Step-Promises (started s c e) = reading-Promises c
  Step-Promises (read_done outcome s c e) = on_read-Promises outcome s c
  Step-Promises (write_done success s c e) = on_write-Promises success c

  Reach-Promises : {x y : State × Connection Fields} → Promises x.1 → Reach x y → Promises y.1
  Reach-Promises p here = p
  Reach-Promises p (next r s) = Step-Promises s

  -- What the client is told is what follows once the response is written.
  abbrev pub IsKept : Connection Fields → Type 0
  IsKept c =
      by.lookup connection c.response.fields ≡ some (codes "keep-alive")
      × (on_write true c).operation ≡ reading

  abbrev pub IsDropped : Connection Fields → Type 0
  IsDropped c =
      by.lookup connection c.response.fields ≡ some (codes "close")
      × (on_write true c).operation ≡ closed

  Promises-IsKept :
      (c : Connection Fields) → Promises c → c.operation ≡ writing → IsKept c ⊎ IsDropped c
  unfolding on_write close do_read
  Promises-IsKept c p w = elim (Bool-cases c.keep_alive) [
    | inl e ↦ inl (p.promise w ∙ ap said e, cc)
    | inr e ↦ inr (p.promise w ∙ ap said e, cc)
  ]

  -- A connection of `new_connection`, in any order of the completions, of any requests and handlers: when
  -- it is writing a response, the response has a Connection field, which is either keep-alive, and then the
  -- connection reads again after the write, or close, and then it is closed after the write.
  pub Reach-IsKept :
      (ip : Text) (port : ℕ) (s : State) (y : State × Connection Fields)
      → Reach (s, new_connection ip port) y
      → y.1.operation ≡ writing
      → IsKept y.1 ⊎ IsDropped y.1
  unfolding new_connection
  Reach-IsKept ip port s y r w =
      Promises-IsKept y.1 (Reach-Promises (record { promise = λ e. cc }) r) w
