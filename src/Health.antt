-- ===== src/Health.antt =====
-- src/balancer/health_checker.{hpp,cpp}: `HealthChecker`. A probe's network steps are its outcome;
-- the mutex makes the handling of an outcome one step. Time is an argument.
pub mod Breaker
pub mod Laws
pub mod Streaks
mod Tests
use ntonix.Common.Decimal.{to_decimal}
use ntonix.Common.Map.{find, assign}
use ntonix.Common.{
  ℕ, zero, suc, ◌≡◌, Bool, true, false, ◌&&◌, List, [], ◌∷◌, ◌++◌, map, Option, none, some,
  if◌then◌else◌, leb, ltb, add32, Text, text_eq, keep,
}
use ntonix.Config.{BackendConfig}

pub data BackendState : Type 0 where
  healthy unhealthy draining : BackendState

abbrev pub state_beq : BackendState → BackendState → Bool
state_beq healthy healthy = true
state_beq unhealthy unhealthy = true
state_beq draining draining = true
state_beq _ _ = false

pub record HealthCheckConfig : Type 0 where
  pub interval : ℕ
  pub timeout : ℕ
  pub unhealthy_threshold : ℕ
  pub healthy_threshold : ℕ
  pub health_path : Text

pub record BackendHealth : Type 0 where
  pub config : BackendConfig
  pub state : BackendState
  pub consecutive_failures : ℕ
  pub consecutive_successes : ℕ
  pub last_check_time : ℕ
  pub last_response_time : ℕ

-- Callbacks are known by a number; a call of one is what it was told.
pub record Notification : Type 0 where
  pub callback : ℕ
  pub backend : BackendConfig
  pub old_state : BackendState
  pub new_state : BackendState

pub record HealthChecker : Type 0 where
  pub config : HealthCheckConfig
  pub backends : List (Text × BackendHealth)
  pub state_callbacks : List ℕ
  pub running : Bool

unfoldable pub backend_key : BackendConfig → Text
backend_key backend = backend.host ++ b':' ∷ to_decimal backend.port

unfoldable pub init : HealthCheckConfig → HealthChecker
init config = record { config = config; backends = []; state_callbacks = []; running = false }

unfoldable pub new_backend : BackendConfig → ℕ → BackendHealth
new_backend backend now = record {
  config = backend;
  state = healthy;
  consecutive_failures = 0;
  consecutive_successes = 0;
  last_check_time = now;
  last_response_time = 0;
}

-- The entry that `set_backends` makes for one backend of the new list
unfoldable pub carried : List (Text × BackendHealth) → BackendConfig → ℕ → BackendHealth
unfolding backend_key new_backend
carried old backend now = elim (find (backend_key backend) old) [
  | some health ↦ record health { config = backend }
  | none ↦ new_backend backend now
]

-- The loop of `set_backends`, over the map that it fills
unfoldable pub fill_backends :
    List (Text × BackendHealth)
    → List BackendConfig
    → ℕ
    → List (Text × BackendHealth)
    → List (Text × BackendHealth)
unfolding carried backend_key
fill_backends old [] now new_backends = new_backends
fill_backends old (backend ∷ rest) now new_backends =
    fill_backends old rest now (assign (backend_key backend) (carried old backend now) new_backends)

unfoldable pub set_backends : HealthChecker → List BackendConfig → ℕ → HealthChecker
unfolding fill_backends
set_backends h backends now = record h { backends = fill_backends h.backends backends now [] }

-- `start` and `stop`: whether the flag changed, and with it the timer was armed or cancelled
unfoldable pub start : HealthChecker → HealthChecker × Bool
start h = if h.running then (h, false) else (record h { running = true }, true)

unfoldable pub stop : HealthChecker → HealthChecker × Bool
stop h = if h.running then (record h { running = false }, true) else (h, false)

-- `schedule_health_check`: the timer is armed only while running, and when it fires without an error
-- every backend of that moment is probed.
unfoldable pub schedule_health_check : HealthChecker → Bool
schedule_health_check h = h.running

unfoldable pub timer_fired : HealthChecker → Bool → List BackendConfig
timer_fired h failed = if failed then [] else map (λ entry. entry.1.config) h.backends

unfoldable pub get_all_backends : HealthChecker → List BackendHealth
get_all_backends h = map (λ entry. entry.1) h.backends

unfoldable pub get_healthy_backends : HealthChecker → List BackendConfig
get_healthy_backends h =
    map (λ entry. entry.1.config) (keep (λ entry. state_beq entry.1.state healthy) h.backends)

unfoldable pub is_healthy : HealthChecker → BackendConfig → Bool
unfolding backend_key
is_healthy h backend = elim (find (backend_key backend) h.backends) [
  | none ↦ false
  | some health ↦ state_beq health.state healthy
]

unfoldable pub on_state_change : HealthChecker → ℕ → HealthChecker
on_state_change h callback = record h { state_callbacks = h.state_callbacks ++ callback ∷ [] }

-- The counters and the clock fields of `handle_check_result`
unfoldable pub count_result : BackendHealth → Bool → ℕ → ℕ → BackendHealth
count_result health success response_time now =
    if success
    then record health {
      last_check_time = now;
      last_response_time = response_time;
      consecutive_failures = 0;
      consecutive_successes = add32 health.consecutive_successes 1;
    }
    else record health {
      last_check_time = now;
      last_response_time = response_time;
      consecutive_successes = 0;
      consecutive_failures = add32 health.consecutive_failures 1;
    }

-- The new state, from the counters already moved
unfoldable pub next_state : HealthCheckConfig → BackendHealth → Bool → BackendState
next_state config health success =
    if success
    then (if state_beq health.state unhealthy
          && leb config.healthy_threshold health.consecutive_successes
        then healthy
        else health.state)
    else (if state_beq health.state healthy
          && leb config.unhealthy_threshold health.consecutive_failures
        then unhealthy
        else health.state)

unfoldable pub observe : HealthCheckConfig → BackendHealth → Bool → ℕ → ℕ → BackendHealth
unfolding count_result next_state
observe config health success response_time now =
    let counted = count_result health success response_time now in
    record counted { state = next_state config counted success }

unfoldable pub notify : List ℕ → BackendConfig → BackendState → BackendState → List Notification
notify callbacks backend old_state new_state =
    if state_beq new_state old_state
    then []
    else map
        (λ callback. record {
          callback = callback;
          backend = backend;
          old_state = old_state;
          new_state = new_state;
        })
        callbacks

unfoldable pub handle_check_result :
    HealthChecker → BackendConfig → Bool → ℕ → ℕ → HealthChecker × List Notification
unfolding backend_key observe notify
handle_check_result h backend success response_time now =
    elim (find (backend_key backend) h.backends) [
      | none ↦ (h, [])
      | some health ↦
          let health' = observe h.config health success response_time now in
          (
            record h { backends = assign (backend_key backend) health' h.backends },
            notify h.state_callbacks backend health.state health'.state,
          )
    ]

unfoldable pub update_state :
    HealthChecker → BackendConfig → BackendState → HealthChecker × List Notification
unfolding backend_key notify
update_state h backend new_state = elim (find (backend_key backend) h.backends) [
  | none ↦ (h, [])
  | some health ↦ if state_beq health.state new_state then (h, []) else (
    record h {
      backends = assign (backend_key backend) (record health { state = new_state }) h.backends;
    },
    notify h.state_callbacks backend health.state new_state,
  )
]

-- How far a probe came
pub data Probe : Type 0 where
  resolve_failed connect_failed write_failed read_failed : Probe
  responded : ℕ → Probe

unfoldable pub probe_success : Probe → Bool
probe_success (responded status) = leb 200 status && ltb status 300
probe_success _ = false

unfoldable pub check_backend :
    HealthChecker → BackendConfig → Probe → ℕ → ℕ → HealthChecker × List Notification
unfolding probe_success handle_check_result
check_backend h backend probe elapsed now =
    handle_check_result h backend (probe_success probe) elapsed now
