-- ===== src/Health/Breaker.antt =====
-- The circuit breaker that health_checker.hpp promises, as a machine of its own, and the entry of a
-- backend (balancer/health_checker.cpp) as an implementation of it.
use mathlib.Core.Path.{subst}
use ntonix.Common.{
  ℕ, zero, suc, ◌+◌, ◌≡◌, ◌<◌, refl, Bool, true, false, List, [], ◌∷◌, arith, if◌then◌else◌, leb,
  add32_exact, u32_mod, Bool-cases, inl, inr,
}
use ntonix.Health.{
  BackendState, healthy, unhealthy, draining, HealthCheckConfig, BackendHealth, observe,
}

-- `closed n`: requests flow, and the last n probes failed. `opened n`: none flow, and the last n
-- probes succeeded. `drained`: out of service for good.
pub data Breaker : Type 0 where
  closed : ℕ → Breaker
  opened : ℕ → Breaker
  drained : Breaker

unfoldable pub breaker_step : HealthCheckConfig → Breaker → Bool → Breaker
breaker_step config (closed n) true = closed 0
breaker_step config (closed n) false =
    if leb config.unhealthy_threshold (n + 1) then opened 0 else closed (n + 1)
breaker_step config (opened n) true =
    if leb config.healthy_threshold (n + 1) then closed 0 else opened (n + 1)
breaker_step config (opened n) false = opened 0
breaker_step config drained success = drained

unfoldable pub view_of : BackendState → ℕ → ℕ → Breaker
view_of healthy failures successes = closed failures
view_of unhealthy failures successes = opened successes
view_of draining failures successes = drained

abbrev pub view : BackendHealth → Breaker
view b = view_of b.state b.consecutive_failures b.consecutive_successes

-- The thresholds are positive 32-bit numbers.
pub record IsSound (config : HealthCheckConfig) : Type 0 where
  pub failing : 0 < config.unhealthy_threshold
  pub failing_fits : config.unhealthy_threshold < u32_mod
  pub passing : 0 < config.healthy_threshold
  pub passing_fits : config.healthy_threshold < u32_mod

-- The streak that counts is below its threshold.
abbrev pub WithinThreshold : HealthCheckConfig → Breaker → Type 0
WithinThreshold config (closed n) = n < config.unhealthy_threshold
WithinThreshold config (opened n) = n < config.healthy_threshold
WithinThreshold config drained = Unit {0}

pub breaker_step-WithinThreshold :
    (config : HealthCheckConfig) (b : Breaker) (success : Bool)
    → IsSound config
    → WithinThreshold config b
    → WithinThreshold config (breaker_step config b success)
unfolding breaker_step
breaker_step-WithinThreshold config (closed n) true s w = s.failing
breaker_step-WithinThreshold config (closed n) false s w =
    elim (Bool-cases (leb config.unhealthy_threshold (n + 1))) [
      | inl e ↦ rw e s.passing
      | inr e ↦ rw e (ground arith)
    ]
breaker_step-WithinThreshold config (opened n) true s w =
    elim (Bool-cases (leb config.healthy_threshold (n + 1))) [
      | inl e ↦ rw e s.failing
      | inr e ↦ rw e (ground arith)
    ]
breaker_step-WithinThreshold config (opened n) false s w = s.passing
breaker_step-WithinThreshold config drained success s w = tt

view-observe :
    (config : HealthCheckConfig) (state : BackendState) (b : BackendHealth) (success : Bool)
    (response_time now : ℕ)
    → b.state ≡ state
    → IsSound config
    → WithinThreshold config (view b)
    → view (observe config b success response_time now) ≡ breaker_step config (view b) success
unfolding observe breaker_step view_of
view-observe config healthy b true response_time now e s w = ground arith
view-observe config healthy b false response_time now e s w =
    let near : WithinThreshold config (closed b.consecutive_failures) =
      subst
        (λ st. WithinThreshold config (view_of st b.consecutive_failures b.consecutive_successes)) e
        w in
    ground (arith, add32_exact b.consecutive_failures 1)
view-observe config unhealthy b true response_time now e s w =
    let near : WithinThreshold config (opened b.consecutive_successes) =
      subst
        (λ st. WithinThreshold config (view_of st b.consecutive_failures b.consecutive_successes)) e
        w in
    ground (arith, add32_exact b.consecutive_successes 1)
view-observe config unhealthy b false response_time now e s w = ground arith
view-observe config draining b true response_time now e s w = ground arith
view-observe config draining b false response_time now e s w = ground arith

-- One result moves the entry as the breaker moves, whatever the clocks say.
pub observe-breaker_step :
    (config : HealthCheckConfig) (b : BackendHealth) (success : Bool) (response_time now : ℕ)
    → IsSound config
    → WithinThreshold config (view b)
    → view (observe config b success response_time now) ≡ breaker_step config (view b) success
observe-breaker_step config b success response_time now s w =
    view-observe config b.state b success response_time now refl s w

unfoldable pub breaker_run : HealthCheckConfig → Breaker → List Bool → Breaker
unfolding breaker_step
breaker_run config b [] = b
breaker_run config b (r ∷ rs) = breaker_run config (breaker_step config b r) rs

abbrev pub replicate : ℕ → Bool → List Bool
replicate zero b = []
replicate (suc n) b = b ∷ replicate n b
