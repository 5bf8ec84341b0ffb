-- ===== src/Health/Tests.antt =====
-- The theorems on src/balancer/health_checker.cpp at two monitored backends.
use ntonix.Common.Decimal.{to_decimal}
use ntonix.Common.{
  ◌+◌, ◌≡◌, refl, true, false, List, [], ◌∷◌, some, arith, if◌then◌else◌, ltb, leb, add32, text_eq,
  codes,
}
use ntonix.Config.{BackendConfig}
use ntonix.Health.Breaker.{IsSound, WithinThreshold, view, view_of, breaker_run}
use ntonix.Health.Laws.{
  entry, CheckResult, handle_all, outcomes_of, handle_all-breaker_run, names_key, carried_state,
  is_healthy-set_backends,
}
use ntonix.Health.Streaks.{is_healthy-failures, is_healthy-successes}
use ntonix.Health.{
  healthy, unhealthy, state_beq, HealthCheckConfig, BackendHealth, HealthChecker, init, backend_key,
  new_backend, carried, fill_backends, set_backends, is_healthy, on_state_change, count_result,
  next_state, observe, notify, handle_check_result,
}

program : Unit {0}
unfolding init add32 to_decimal backend_key new_backend carried fill_backends set_backends
    is_healthy on_state_change count_result next_state observe notify handle_check_result handle_all
    breaker_run view_of
program = tt

abbrev config : HealthCheckConfig
config = record {
  interval = 5000;
  timeout = 2000;
  unhealthy_threshold = 3;
  healthy_threshold = 1;
  health_path = codes "/health";
}

config-IsSound : IsSound config
config-IsSound = record {
  failing = omega arith;
  failing_fits = omega arith;
  passing = omega arith;
  passing_fits = omega arith;
}

abbrev first : BackendConfig
first = record { host = codes "a"; port = 80; weight = 1 }

abbrev second : BackendConfig
second = record { host = codes "b"; port = 81; weight = 1 }

abbrev fresh : BackendConfig → BackendHealth
fresh b = record {
  config = b;
  state = healthy;
  consecutive_failures = 0;
  consecutive_successes = 0;
  last_check_time = 7;
  last_response_time = 0;
}

abbrev failing : BackendHealth
failing = record (fresh first) { consecutive_failures = 2 }

abbrev out : BackendHealth
out = record (fresh first) { state = unhealthy; consecutive_failures = 3 }

abbrev checker : BackendHealth → HealthChecker
checker e = record {
  config = config;
  backends = (codes "a:80", e) ∷ (codes "b:81", fresh second) ∷ [];
  state_callbacks = 4 ∷ 9 ∷ [];
  running = true;
}

key_lem : backend_key first ≡ codes "a:80"
unfolding program
key_lem = refl

abbrev failure : BackendConfig → CheckResult
failure b = record { backend = b; success = false; response_time = 12; now = 20 }

abbrev success : BackendConfig → CheckResult
success b = record { backend = b; success = true; response_time = 3; now = 30 }

there : (e : BackendHealth) → entry (checker e) (backend_key first) ≡ some e
unfolding program
there e = refl

abbrev failures : List CheckResult
failures = failure first ∷ success second ∷ failure first ∷ failure first ∷ []

is_healthy-failures_example :
    is_healthy (handle_all (checker (fresh first)) failures) first ≡ ltb (0 + 3) 3
unfolding program
is_healthy-failures_example =
    is_healthy-failures (checker (fresh first)) first (fresh first) failures 3 config-IsSound
      (there (fresh first)) refl (omega arith) refl

is_healthy-successes_example :
    is_healthy (handle_all (checker out) (failure second ∷ success first ∷ [])) first
    ≡ leb 1 (0 + 1)
unfolding program
is_healthy-successes_example =
    is_healthy-successes (checker out) first out (failure second ∷ success first ∷ []) 1
      config-IsSound (there out) refl (omega arith) refl

handle_all-breaker_run_example :
    (e' : BackendHealth) × (entry (handle_all (checker failing) failures) (backend_key first)
      ≡ some e')
    × (view e' ≡ breaker_run config (view failing) (outcomes_of (backend_key first) failures))
    × WithinThreshold config (view e')
unfolding view_of
handle_all-breaker_run_example =
    handle_all-breaker_run failures (checker failing) (backend_key first) failing config-IsSound
      (there failing) (omega arith)

is_healthy-set_backends_example :
    is_healthy (set_backends (checker out) (second ∷ first ∷ []) 40) first ≡ (
      if names_key (backend_key first) (second ∷ first ∷ [])
      then state_beq (carried_state (checker out).backends (backend_key first)) healthy
      else false)
is_healthy-set_backends_example =
    is_healthy-set_backends (checker out) (second ∷ first ∷ []) 40 first
