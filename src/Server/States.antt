-- ===== src/Server/States.antt =====
-- What the states of a server's life are, and that a completed accept keeps them (src/server/server.cpp:
-- `do_accept`).
use ntonix.Common.{
  ◌≡◌, ◌≤◌, ◌⊎◌, Bool, true, false, not, arith, if_intro, length, add64, ◌%◌, ◌-◌, u64_mod,
  length-append, [], ◌∷◌,
}
use ntonix.Server.Acceptor.{
  Acceptor, AcceptOutcome, accepted, operation_aborted, accept_error, do_accept, take_connection,
  on_outcome, on_accept,
}
use ntonix.Server.HttpServer.{Server, SignalOutcome, stop, wait, accept_done, on_signal}

module _ {Socket : Type 0} where
  abbrev pub is_aborted : AcceptOutcome Socket → Bool
  is_aborted operation_aborted = true
  is_aborted _ = false

  -- What can happen to a server that was started: an accept or a signal completes, where one is pending, or
  -- the server is stopped or waited for. An accept is only aborted when the acceptor is closed.
  pub data Step : Server Socket → Server Socket → Type 0 where
    accept_step :
        (outcome : AcceptOutcome Socket) (s : Server Socket)
        → 1 ≤ s.acceptor.pending
        → (is_aborted outcome ≡ true → s.acceptor.opened ≡ false)
        → Step s (accept_done outcome s)
    signal_step :
        (outcome : SignalOutcome) (s : Server Socket)
        → 1 ≤ s.signal_waits
        → Step s (on_signal outcome s)
    stop_step : (s : Server Socket) → Step s (stop s)
    wait_step : (s : Server Socket) → Step s (wait s)

  pub data Reach (x : Server Socket) : Server Socket → Type 0 where
    here : Reach x x
    next : {y z : Server Socket} → Reach x y → Step y z → Reach x z

  -- Running, with exactly one accept pending
  pub record IsAccepting (a : Acceptor Socket) : Type 0 where
    pub running : a.running ≡ true
    pub opened : a.opened ≡ true
    pub pending : a.pending ≡ 1

  pub record IsShut (a : Acceptor Socket) : Type 0 where
    pub running : a.running ≡ false
    pub opened : a.opened ≡ false

  -- The connections that were accepted are those that the handler was given.
  pub record IsCounted (a : Acceptor Socket) : Type 0 where
    pub has_handler : a.has_handler ≡ true
    pub counted : a.connections_accepted ≡ length a.handed % u64_mod

  pub record IsServing (s : Server Socket) : Type 0 where
    pub accepting : IsAccepting s.acceptor
    pub has_work_guard : s.has_work_guard ≡ true
    pub io_stopped : s.io_stopped ≡ false

  pub record IsStopped (s : Server Socket) : Type 0 where
    pub shut : IsShut s.acceptor
    pub has_work_guard : s.has_work_guard ≡ false
    pub stop_requested : s.stop_requested ≡ true
    pub io_stopped : s.io_stopped ≡ true

  abbrev pub IsLive : Server Socket → Type 0
  IsLive s = (IsServing s ⊎ IsStopped s) × IsCounted s.acceptor

  do_accept-IsAccepting :
      (a : Acceptor Socket)
      → a.running ≡ true
      → a.opened ≡ true
      → a.pending ≡ 0
      → IsAccepting (do_accept a)
  unfolding do_accept
  do_accept-IsAccepting a r o p =
      if_intro IsAccepting (not a.running) (λ e. absurd (cc))
        (λ _. record { running = r; opened = o; pending = omega arith })

  do_accept-IsCounted : (a : Acceptor Socket) → IsCounted a → IsCounted (do_accept a)
  unfolding do_accept
  do_accept-IsCounted a c =
      if_intro IsCounted (not a.running) (λ e. c)
        (λ _. record { has_handler = c.has_handler; counted = c.counted })

  take_connection-IsCounted :
      (socket : Socket) (a : Acceptor Socket) → IsCounted a → IsCounted (take_connection socket a)
  unfolding take_connection add64
  take_connection-IsCounted socket a c = record {
    has_handler = c.has_handler;
    counted =
        rw (c.has_handler)
          (rw (length-append a.handed (socket ∷ [])) (rw (c.counted) (omega arith)));
  }

  on_outcome-IsAccepting :
      (outcome : AcceptOutcome Socket) (a : Acceptor Socket)
      → is_aborted outcome ≡ false
      → a.running ≡ true
      → a.opened ≡ true
      → a.pending ≡ 0
      → IsAccepting (on_outcome outcome a)
  unfolding take_connection
  on_outcome-IsAccepting (accepted socket) a h r o p =
      do_accept-IsAccepting (take_connection socket a) r o p
  on_outcome-IsAccepting accept_error a h r o p = do_accept-IsAccepting a r o p
  on_outcome-IsAccepting operation_aborted a h r o p = absurd cc

  pub on_accept-IsAccepting :
      (outcome : AcceptOutcome Socket) (a : Acceptor Socket)
      → is_aborted outcome ≡ false
      → IsAccepting a
      → IsAccepting (on_accept outcome a)
  unfolding on_accept
  on_accept-IsAccepting outcome a h l =
      if_intro IsAccepting (not a.running) (λ e. absurd (cc))
        (λ _.
          on_outcome-IsAccepting outcome (record a { pending = a.pending - 1 }) h l.running l.opened
            (omega arith))

  on_outcome-IsCounted :
      (outcome : AcceptOutcome Socket) (a : Acceptor Socket)
      → IsCounted a
      → IsCounted (on_outcome outcome a)
  on_outcome-IsCounted (accepted socket) a c =
      do_accept-IsCounted (take_connection socket a) (take_connection-IsCounted socket a c)
  on_outcome-IsCounted accept_error a c = do_accept-IsCounted a c
  on_outcome-IsCounted operation_aborted a c = c

  pub on_accept-IsCounted :
      (outcome : AcceptOutcome Socket) (a : Acceptor Socket)
      → IsCounted a
      → IsCounted (on_accept outcome a)
  unfolding on_accept
  on_accept-IsCounted outcome a c =
      if_intro IsCounted (not a.running) (λ _. fewer) (λ _. on_outcome-IsCounted outcome _ fewer)
    where
      fewer : IsCounted (record a { pending = a.pending - 1 })
      fewer = record { has_handler = c.has_handler; counted = c.counted }

  pub on_accept-IsShut :
      (outcome : AcceptOutcome Socket) (a : Acceptor Socket)
      → IsShut a
      → IsShut (on_accept outcome a)
  unfolding on_accept
  on_accept-IsShut outcome a l =
      if_intro IsShut (not a.running) (λ _. record { running = l.running; opened = l.opened })
        (λ e. absurd cc)
