-- ===== src/Server/Starting.antt =====
-- `Server::start` (src/server/server.cpp), on all its branches, and the life that it begins.
use ntonix.Common.{
  ℕ, ◌≡◌, ◌+◌, refl, ap, suc, inl, Bool, true, false, not, ◌&&◌, ◌||◌, Option, none, some,
  if◌then◌else◌, Text,
}
use ntonix.Server.Acceptor.{Acceptor, OpenOutcome, do_accept, open_acceptor}
use ntonix.Server.Accepting.{Reach-IsLive}
use ntonix.Server.States.{IsLive, IsServing, IsCounted, Reach}
use ntonix.Server.HttpServer.{
  Server, ServerConfig, StartOutcome, new_server, begin, start, start_from, setup_signal_handling,
  is_running,
}

abbrev has_value {ℓ} : {A : Type ℓ} → Option A → Bool
has_value none = false
has_value (some e) = true

-- Whether `start` comes to open the acceptor
abbrev pub comes_to_open : StartOutcome → Bool
comes_to_open o = not (has_value o.signals_error) && not (has_value o.opening.address_error)

-- Whether a call fails that opens the acceptor, binds it or listens
abbrev pub fails_to_open : OpenOutcome → Bool
fails_to_open o = has_value o.open_error || (has_value o.bind_error || has_value o.listen_error)

-- Whether `start` comes to accept connections and to make the threads
abbrev pub comes_to_accept : StartOutcome → Bool
comes_to_accept o = comes_to_open o && not (fails_to_open o.opening)

-- The threads that are made before making one throws
abbrev pub threads_made : Option (ℕ × Text) → ℕ
threads_made none = 0
threads_made (some (made, e)) = made

abbrev outcome_of :
    Option Text
    → Option Text
    → Option Text
    → Option Text
    → Option Text
    → Option (ℕ × Text)
    → StartOutcome
outcome_of signals address opened bind listen threads = record {
  signals_error = signals;
  opening = record {
    address_error = address;
    open_error = opened;
    bind_error = bind;
    listen_error = listen;
  };
  threads_error = threads;
}

module _ {Socket : Type 0} where
  start-IsServing_of :
      (signals address opened bind listen : Option Text) (threads : Option (ℕ × Text))
      (has_reload : Bool) (config : ServerConfig)
      → let o = outcome_of signals address opened bind listen threads in
        (start o true has_reload (new_server {Socket = Socket} config)).1 ≡ none
        → let s =
            (start
              (outcome_of signals address opened bind listen threads)
              true
              has_reload
              (new_server {Socket = Socket} config)).0 in
          IsServing s × IsCounted s.acceptor
  unfolding start begin open_acceptor new_server do_accept setup_signal_handling
  start-IsServing_of (some e) address opened bind listen threads has_reload config h = absurd cc
  start-IsServing_of none (some e) opened bind listen threads has_reload config h = absurd cc
  start-IsServing_of none none (some e) bind listen threads has_reload config h = absurd cc
  start-IsServing_of none none none (some e) listen threads has_reload config h = absurd cc
  start-IsServing_of none none none none (some e) threads has_reload config h = absurd cc
  start-IsServing_of none none none none none (some (n, e)) has_reload config h = absurd cc
  start-IsServing_of none none none none none none has_reload config h = (
    record {
      accepting = record { running = refl; opened = refl; pending = refl };
      has_work_guard = refl;
      io_stopped = refl;
    },
    record { has_handler = refl; counted = refl },
  )

  pub start-IsServing :
      (outcome : StartOutcome) (has_reload : Bool) (config : ServerConfig)
      → (start outcome true has_reload (new_server {Socket = Socket} config)).1 ≡ none
      → let s = (start outcome true has_reload (new_server {Socket = Socket} config)).0 in
        IsServing s × IsCounted s.acceptor
  start-IsServing outcome has_reload config h =
      start-IsServing_of outcome.signals_error outcome.opening.address_error
        outcome.opening.open_error outcome.opening.bind_error outcome.opening.listen_error
        outcome.threads_error has_reload config h

  -- A server that is constructed and started with a connection handler, where the start does not throw: in
  -- every state that completions, stops and waits then lead to, either it runs, its acceptor is open and
  -- exactly one accept is pending, and its I/O context has its work guard, or it is stopped: the acceptor is
  -- closed, the work guard released, and the threads and the I/O context are told to stop. In both, the
  -- number of accepted connections is, in 64 bits, that of the connections the handler was given.
  pub Reach-start-IsLive :
      (outcome : StartOutcome) (has_reload : Bool) (config : ServerConfig) (s : Server Socket)
      → (start outcome true has_reload (new_server {Socket = Socket} config)).1 ≡ none
      → Reach (start outcome true has_reload (new_server config)).0 s
      → IsLive s
  Reach-start-IsLive outcome has_reload config s h r =
      let (serving, counted) = start-IsServing outcome has_reload config h in
      Reach-IsLive r (inl serving, counted)

  -- What a start from `s` that throws has made of it
  pub record IsRefused (o : StartOutcome) (s t : Server Socket) : Type 0 where
    pub running : is_running t ≡ not (comes_to_open o && fails_to_open o.opening)
    pub pending :
        t.acceptor.pending
        ≡ (if comes_to_accept o then suc s.acceptor.pending else s.acceptor.pending)
    pub threads :
        t.threads
        ≡ (if comes_to_accept o then s.threads + threads_made o.threads_error else s.threads)

  start_from-IsRefused :
      (signals address opened bind listen : Option Text) (threads : Option (ℕ × Text))
      (s t : Server Socket) (a : Acceptor Socket) (m : Text)
      → a.running ≡ true
      → a.pending ≡ s.acceptor.pending
      → t.threads ≡ s.threads
      → (start_from (outcome_of signals address opened bind listen threads) a t).1 ≡ some m
      → let o = outcome_of signals address opened bind listen threads in
        IsRefused o s (start_from o a t).0
  unfolding begin open_acceptor is_running do_accept setup_signal_handling
  start_from-IsRefused (some e) address opened bind listen threads s t a m r p q h = record {
    running = r;
    pending = p;
    threads = q;
  }
  start_from-IsRefused none (some e) opened bind listen threads s t a m r p q h = record {
    running = r;
    pending = p;
    threads = q;
  }
  start_from-IsRefused none none (some e) bind listen threads s t a m r p q h = record {
    running = refl;
    pending = p;
    threads = q;
  }
  start_from-IsRefused none none none (some e) listen threads s t a m r p q h = record {
    running = refl;
    pending = p;
    threads = q;
  }
  start_from-IsRefused none none none none (some e) threads s t a m r p q h = record {
    running = refl;
    pending = p;
    threads = q;
  }
  start_from-IsRefused none none none none none (some (n, e)) s t a m r p q h =
      rw r (record { running = refl; pending = ap suc p; threads = ap (λ k. k + n) q })
  start_from-IsRefused none none none none none none s t a m r p q h = absurd cc

  -- A start of a server that does not run, when it throws. Where opening the acceptor, binding it or
  -- listening failed, the server does not count as running; where registering the signals, reading the
  -- bind address or making the threads threw, it does. No accept is pending that was not before and no
  -- thread is made, unless it was making the threads that threw: then one accept more is pending and the
  -- threads made before remain.
  pub start-IsRefused :
      (outcome : StartOutcome) (has_handler has_reload : Bool) (s : Server Socket) (m : Text)
      → is_running s ≡ false
      → (start outcome has_handler has_reload s).1 ≡ some m
      → IsRefused outcome s (start outcome has_handler has_reload s).0
  unfolding start setup_signal_handling is_running
  start-IsRefused outcome has_handler has_reload s m n = rw n (λ h.
      start_from-IsRefused outcome.signals_error outcome.opening.address_error
        outcome.opening.open_error outcome.opening.bind_error outcome.opening.listen_error
        outcome.threads_error (record s { acceptor = record s.acceptor { running = false } })
        (record s { acceptor = record s.acceptor { running = false }; has_reload = has_reload })
        (record s.acceptor { running = true; has_handler = has_handler }) m refl refl refl h)
