-- ===== src/Health/Laws.antt =====
-- Theorems on `HealthChecker` (balancer/health_checker.cpp): what a result changes, what it leaves
-- alone, who is told, and what a new list of backends keeps.
use mathlib.Core.Path.{subst}
use ntonix.Common.Decimal.{host_port_injective}
use ntonix.Common.Map.{find, assign, find-assign}
use ntonix.Common.{
  ℕ, ◌≡◌, refl, ap, sym, ◌∙◌, Bool, false, ◌||◌, List, [], ◌∷◌, map, Option, none, some, arith,
  if◌then◌else◌, ◌==◌, text_eq, text_beq_iff, Text, Bool-cases, Option-cases, inl, inr, option_map,
}
use ntonix.Config.{BackendConfig}
use ntonix.Health.Breaker.{
  IsSound, WithinThreshold, view, breaker_step, breaker_run, breaker_step-WithinThreshold,
  observe-breaker_step,
}
use ntonix.Health.{
  BackendState, healthy, state_beq, HealthCheckConfig, BackendHealth, HealthChecker, backend_key,
  carried, fill_backends, set_backends, is_healthy, observe, notify, handle_check_result,
}

-- Keys name a host and a port.
pub backend_key_injective :
    (a b : BackendConfig) → backend_key a ≡ backend_key b → (a.host ≡ b.host) × (a.port ≡ b.port)
unfolding backend_key
backend_key_injective a b e = host_port_injective a.host b.host a.port b.port e

abbrev pub entry : HealthChecker → Text → Option BackendHealth
entry h key = find key h.backends

-- A result moves the entry of its own backend, as `observe` does, and no other entry; for a backend
-- that is not monitored it does nothing at all.
pub entry-handle_check_result :
    (h : HealthChecker) (b : BackendConfig) (success : Bool) (response_time now : ℕ) (q : Text)
    → entry (handle_check_result h b success response_time now).0 q ≡ (
        if backend_key b == q
        then option_map (λ e. observe h.config e success response_time now) (entry h q)
        else entry h q)
unfolding handle_check_result
entry-handle_check_result h b success response_time now q =
    elim (Option-cases (find (backend_key b) h.backends)) [
      | inl absent ↦ ground (arith, text_beq_iff (backend_key b) q)
      | inr (e, there) ↦ ground (
        arith,
        text_beq_iff (backend_key b) q,
        find-assign (backend_key b) q (observe h.config e success response_time now) h.backends,
      )
    ]

notify_lem :
    (callbacks : List ℕ) (b : BackendConfig) (old new : BackendState)
    → notify callbacks b old new ≡ (
        if state_beq new old
        then []
        else map
            (λ k. record { callback = k; backend = b; old_state = old; new_state = new })
            callbacks)
unfolding notify
notify_lem callbacks b old new = refl

notified :
    (h : HealthChecker) (b : BackendConfig) (success : Bool) (response_time now : ℕ)
    (e : BackendHealth)
    → entry h (backend_key b) ≡ some e
    → (handle_check_result h b success response_time now).1
      ≡ notify h.state_callbacks b e.state (observe h.config e success response_time now).state
unfolding handle_check_result
notified h b success response_time now e there = rw (there, handle_check_result)

-- For a monitored backend, whose entry is e before a result and e' after it: if the state is the same,
-- no callback is called; else each one is called once, in the order of registration, with the states
-- on both sides of the result.
pub notifications-handle_check_result :
    (h : HealthChecker) (b : BackendConfig) (success : Bool) (response_time now : ℕ)
    (e e' : BackendHealth)
    → entry h (backend_key b) ≡ some e
    → entry (handle_check_result h b success response_time now).0 (backend_key b) ≡ some e'
    → (handle_check_result h b success response_time now).1 ≡ (
        if state_beq e'.state e.state
        then []
        else map
            (λ callback. record {
              callback = callback;
              backend = b;
              old_state = e.state;
              new_state = e'.state;
            })
            h.state_callbacks)
notifications-handle_check_result h b success response_time now e e' there after =
    let e1 : BackendHealth = observe h.config e success response_time now in
    let same : some e1 ≡ some e' =
      sym (
        entry-handle_check_result h b success response_time now (backend_key b)
        ∙ ground (arith, text_beq_iff (backend_key b) (backend_key b)))
      ∙ after in
    let same' : e1 ≡ e' = ground arith in
    notified h b success response_time now e there
    ∙ ap (λ (x : BackendHealth). notify h.state_callbacks b e.state x.state) same'
    ∙ notify_lem h.state_callbacks b e.state e'.state

-- A result of one backend, with the clock readings that came with it
pub record CheckResult : Type 0 where
  pub backend : BackendConfig
  pub success : Bool
  pub response_time : ℕ
  pub now : ℕ

unfoldable pub handle_all : HealthChecker → List CheckResult → HealthChecker
handle_all h [] = h
handle_all h (r ∷ rs) =
    handle_all (handle_check_result h r.backend r.success r.response_time r.now).0 rs

-- The outcomes in a history that belong to one key
abbrev pub outcomes_of : Text → List CheckResult → List Bool
outcomes_of key [] = []
outcomes_of key (r ∷ rs) =
    if backend_key r.backend == key then r.success ∷ outcomes_of key rs else outcomes_of key rs

config-handle_check_result :
    (h : HealthChecker) (b : BackendConfig) (success : Bool) (response_time now : ℕ)
    → (handle_check_result h b success response_time now).0.config ≡ h.config
unfolding handle_check_result
config-handle_check_result h b success response_time now = ground arith

module _ (c : HealthCheckConfig) (s : IsSound c) (key : Text) where
  run_from :
      (rs : List CheckResult) (h : HealthChecker) (e : BackendHealth)
      → h.config ≡ c
      → entry h key ≡ some e
      → WithinThreshold c (view e)
      → (e' : BackendHealth) × (entry (handle_all h rs) key ≡ some e')
        × (view e' ≡ breaker_run c (view e) (outcomes_of key rs))
        × WithinThreshold c (view e')
  unfolding handle_all breaker_run
  run_from [] h e same there w = (e, there, refl, w)
  run_from (r ∷ rs) h e same there w =
      let h' = (handle_check_result h r.backend r.success r.response_time r.now).0 in
      let same' : h'.config ≡ c =
        config-handle_check_result h r.backend r.success r.response_time r.now ∙ same in
      let moved = entry-handle_check_result h r.backend r.success r.response_time r.now key in
      elim (Bool-cases (backend_key r.backend == key)) [
        | inl own ↦
            let e1 : BackendHealth = observe c e r.success r.response_time r.now in
            let stepped : view e1 ≡ breaker_step c (view e) r.success =
              observe-breaker_step c e r.success r.response_time r.now s w in
            let there' : entry h' key ≡ some e1 = moved ∙ rw (own, there, same) refl in
            let w' : WithinThreshold c (view e1) =
              subst (WithinThreshold c) (sym stepped)
                (breaker_step-WithinThreshold c (view e) r.success s w) in
            let (e', found, ran, w'') = run_from rs h' e1 same' there' w' in
            (e', found, rw own (ran ∙ ap (λ b. breaker_run c b (outcomes_of key rs)) stepped), w'')
        | inr other ↦
            let there' : entry h' key ≡ some e = moved ∙ rw other there in
            let (e', found, ran, w') = run_from rs h' e same' there' w in
            (e', found, rw other ran, w')
      ]

-- In any interleaving of results, the state of a backend is that of its circuit breaker after its
-- own results, in their order: no other backend's results matter, and no clock does.
pub handle_all-breaker_run :
    (rs : List CheckResult) (h : HealthChecker) (key : Text) (e : BackendHealth)
    → IsSound h.config
    → entry h key ≡ some e
    → WithinThreshold h.config (view e)
    → (e' : BackendHealth) × (entry (handle_all h rs) key ≡ some e')
      × (view e' ≡ breaker_run h.config (view e) (outcomes_of key rs))
      × WithinThreshold h.config (view e')
handle_all-breaker_run rs h key e s there w = run_from h.config s key rs h e refl there w

-- What `set_backends` makes of a key: the last new backend with that key decides, and its state is
-- the one that the key had before, or healthy if it had none.
abbrev pub names_key : Text → List BackendConfig → Bool
names_key q [] = false
names_key q (b ∷ bs) = backend_key b == q || names_key q bs

abbrev pub state_at : List (Text × BackendHealth) → Text → Option BackendState
state_at m q = option_map (λ e. e.state) (find q m)

abbrev pub carried_state : List (Text × BackendHealth) → Text → BackendState
carried_state old q = elim (find q old) [ none ↦ healthy | some e ↦ e.state ]

state-carried :
    (old : List (Text × BackendHealth)) (b : BackendConfig) (now : ℕ)
    → (carried old b now).state ≡ carried_state old (backend_key b)
unfolding carried
state-carried old b now = ground arith

state_at-assign :
    (old new : List (Text × BackendHealth)) (b : BackendConfig) (now : ℕ) (q : Text)
    → state_at (assign (backend_key b) (carried old b now) new) q
      ≡ (if backend_key b == q then some (carried_state old q) else state_at new q)
state_at-assign old new b now q = elim (Bool-cases (backend_key b == q)) [
  | inl own ↦
      let same : backend_key b ≡ q = (text_beq_iff (backend_key b) q).0 own in
      ap (option_map (λ e. e.state)) (find-assign (backend_key b) q (carried old b now) new)
      ∙ rw own (ap some (state-carried old b now ∙ ap (carried_state old) same))
  | inr other ↦
      ap (option_map (λ e. e.state)) (find-assign (backend_key b) q (carried old b now) new)
      ∙ rw other refl
]

fill_backends-cons :
    (old new : List (Text × BackendHealth)) (b : BackendConfig) (bs : List BackendConfig) (now : ℕ)
    → fill_backends old (b ∷ bs) now new
      ≡ fill_backends old bs now (assign (backend_key b) (carried old b now) new)
unfolding fill_backends
fill_backends-cons old new b bs now = refl

fill_backends_lem :
    (old : List (Text × BackendHealth)) (bs : List BackendConfig) (now : ℕ)
    (new : List (Text × BackendHealth)) (q : Text)
    → state_at (fill_backends old bs now new) q
      ≡ (if names_key q bs then some (carried_state old q) else state_at new q)
fill_backends_lem old [] now new q = unfold fill_backends in refl
fill_backends_lem old (b ∷ bs) now new q =
    ap (λ m. state_at m q) (fill_backends-cons old new b bs now)
    ∙ fill_backends_lem old bs now (assign (backend_key b) (carried old b now) new) q
    ∙ elim (Bool-cases (names_key q bs)) [
      | inl later ↦ rw later (ground arith)
      | inr none_later ↦ rw none_later (state_at-assign old new b now q ∙ ground arith)
    ]

abbrev pub serves : Option BackendState → Bool
serves none = false
serves (some s) = state_beq s healthy

pub is_healthy_lem :
    (h : HealthChecker) (b : BackendConfig)
    → is_healthy h b ≡ serves (state_at h.backends (backend_key b))
unfolding is_healthy
is_healthy_lem h b = ground arith

backends-set_backends :
    (h : HealthChecker) (bs : List BackendConfig) (now : ℕ)
    → (set_backends h bs now).backends ≡ fill_backends h.backends bs now []
unfolding set_backends
backends-set_backends h bs now = refl

-- A new list keeps the health of the backends that stay, starts new ones healthy, and forgets the
-- rest: none of the forgotten is healthy.
pub is_healthy-set_backends :
    (h : HealthChecker) (bs : List BackendConfig) (now : ℕ) (b : BackendConfig)
    → is_healthy (set_backends h bs now) b ≡ (
        if names_key (backend_key b) bs
        then state_beq (carried_state h.backends (backend_key b)) healthy
        else false)
is_healthy-set_backends h bs now b =
    is_healthy_lem (set_backends h bs now) b
    ∙ ap (λ m. serves (state_at m (backend_key b))) (backends-set_backends h bs now)
    ∙ ap serves (fill_backends_lem h.backends bs now [] (backend_key b))
    ∙ ground arith
