-- ===== src/Server/Accepting.antt =====
-- The life of a server from its start (src/server/server.cpp): the accept loop, the stop, and what a start
-- that fails leaves behind.
use ntonix.Common.{
  ℕ, ◌≡◌, inl, inr, refl, true, false, not, if◌then◌else◌, if_intro, ◌-◌, suc, Bool-cases,
}
use ntonix.Server.Acceptor.{Acceptor, AcceptOutcome, close_acceptor}
use ntonix.Server.HttpServer.{
  Server, SignalOutcome, signal_error, hangup, terminate, stop, wait, accept_done, on_signal,
  setup_signal_handling,
}
use ntonix.Server.States.{
  IsLive, IsAccepting, Reach, here, next, Step, accept_step, signal_step, stop_step, wait_step,
  is_aborted, on_accept-IsAccepting, on_accept-IsCounted, on_accept-IsShut,
}

module _ {Socket : Type 0} where
  not_aborted :
      (outcome : AcceptOutcome Socket) (a : Acceptor Socket)
      → (is_aborted outcome ≡ true → a.opened ≡ false)
      → IsAccepting a
      → is_aborted outcome ≡ false
  not_aborted outcome a h l = elim (Bool-cases (is_aborted outcome)) [
    | inl e ↦ let o = h e in let p = l.opened in cc
    | inr e ↦ e
  ]

  accept_done-IsLive :
      (outcome : AcceptOutcome Socket) (s : Server Socket)
      → (is_aborted outcome ≡ true → s.acceptor.opened ≡ false)
      → IsLive s
      → IsLive (accept_done outcome s)
  unfolding accept_done
  accept_done-IsLive outcome s h (inl l, c) = (
    inl (record {
      accepting =
          on_accept-IsAccepting outcome s.acceptor (not_aborted outcome s.acceptor h l.accepting)
            l.accepting;
      has_work_guard = l.has_work_guard;
      io_stopped = l.io_stopped;
    }),
    on_accept-IsCounted outcome s.acceptor c,
  )
  accept_done-IsLive outcome s h (inr l, c) = (
    inr (record {
      shut = on_accept-IsShut outcome s.acceptor l.shut;
      has_work_guard = l.has_work_guard;
      stop_requested = l.stop_requested;
      io_stopped = l.io_stopped;
    }),
    on_accept-IsCounted outcome s.acceptor c,
  )

  stop-IsLive : (s : Server Socket) → IsLive s → IsLive (stop s)
  unfolding stop close_acceptor
  stop-IsLive s l =
      if_intro IsLive (not s.acceptor.running) (λ _. l)
        (λ _. (
          inr (record {
            shut = record { running = refl; opened = refl };
            has_work_guard = refl;
            stop_requested = refl;
            io_stopped = refl;
          }),
          record { has_handler = l.1.has_handler; counted = l.1.counted },
        ))

  -- What a signal and `wait` change does not matter to it.
  same-IsLive :
      (waits reloads threads : ℕ) (s : Server Socket)
      → IsLive s
      → IsLive (record s { signal_waits = waits; reloads = reloads; threads = threads })
  same-IsLive waits reloads threads s (inl l, c) = (
    inl (record {
      accepting = l.accepting;
      has_work_guard = l.has_work_guard;
      io_stopped = l.io_stopped;
    }),
    c,
  )
  same-IsLive waits reloads threads s (inr l, c) = (
    inr (record {
      shut = l.shut;
      has_work_guard = l.has_work_guard;
      stop_requested = l.stop_requested;
      io_stopped = l.io_stopped;
    }),
    c,
  )

  on_signal-IsLive :
      (outcome : SignalOutcome) (s : Server Socket) → IsLive s → IsLive (on_signal outcome s)
  unfolding on_signal setup_signal_handling
  on_signal-IsLive signal_error s l = same-IsLive (s.signal_waits - 1) s.reloads s.threads s l
  on_signal-IsLive hangup s l =
      same-IsLive (suc (s.signal_waits - 1)) (if s.has_reload then suc s.reloads else s.reloads)
        s.threads s l
  on_signal-IsLive terminate s l =
      stop-IsLive (record s { signal_waits = s.signal_waits - 1 })
        (same-IsLive (s.signal_waits - 1) s.reloads s.threads s l)

  Step-IsLive : {x y : Server Socket} → Step x y → IsLive x → IsLive y
  unfolding wait
  Step-IsLive (accept_step outcome s p h) l = accept_done-IsLive outcome s h l
  Step-IsLive (signal_step outcome s p) l = on_signal-IsLive outcome s l
  Step-IsLive (stop_step s) l = stop-IsLive s l
  Step-IsLive (wait_step s) l = same-IsLive s.signal_waits s.reloads 0 s l

  pub Reach-IsLive : {x y : Server Socket} → Reach x y → IsLive x → IsLive y
  Reach-IsLive here l = l
  Reach-IsLive (next r s) l = Step-IsLive s (Reach-IsLive r l)
