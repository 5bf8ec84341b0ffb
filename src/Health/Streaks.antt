-- ===== src/Health/Streaks.antt =====
-- Streaks of failures and of successes (balancer/health_checker.cpp): when a backend leaves the
-- rotation and when it comes back.
use ntonix.Common.{
  ℕ, zero, suc, ◌+◌, ◌≡◌, ◌<◌, refl, ap, sym, ◌∙◌, Bool, true, false, List, some, arith, leb, ltb,
  Bool-cases, inl, inr,
}
use ntonix.Config.{BackendConfig}
use ntonix.Health.Breaker.{
  Breaker, closed, opened, drained, IsSound, WithinThreshold, view, view_of, breaker_run, replicate,
}
use ntonix.Health.Laws.{
  entry, CheckResult, handle_all, outcomes_of, handle_all-breaker_run, is_healthy_lem,
}
use ntonix.Health.{
  BackendState, healthy, unhealthy, draining, state_beq, HealthCheckConfig, BackendHealth,
  HealthChecker, backend_key, is_healthy,
}

abbrev is_closed : Breaker → Bool
is_closed (closed n) = true
is_closed (opened n) = false
is_closed drained = false

is_closed-view :
    (state : BackendState) (m n : ℕ) → is_closed (view_of state m n) ≡ state_beq state healthy
unfolding view_of
is_closed-view healthy m n = refl
is_closed-view unhealthy m n = refl
is_closed-view draining m n = refl

module _ (c : HealthCheckConfig) where
  opened_failures : (k n : ℕ) → is_closed (breaker_run c (opened n) (replicate k false)) ≡ false
  unfolding breaker_run
  opened_failures zero n = refl
  opened_failures (suc k) n = opened_failures k 0

  closed_failures :
      (k n : ℕ)
      → n < c.unhealthy_threshold
      → is_closed (breaker_run c (closed n) (replicate k false)) ≡ ltb (n + k) c.unhealthy_threshold
  unfolding breaker_run
  closed_failures zero n h = ground arith
  closed_failures (suc k) n h = elim (Bool-cases (leb c.unhealthy_threshold (n + 1))) [
    | inl e ↦ rw (e, breaker_run) (opened_failures k 0 ∙ ground arith)
    | inr e ↦ rw (e, breaker_run) (closed_failures k (n + 1) (ground arith) ∙ ground arith)
  ]

  closed_successes : (k n : ℕ) → is_closed (breaker_run c (closed n) (replicate k true)) ≡ true
  unfolding breaker_run
  closed_successes zero n = refl
  closed_successes (suc k) n = closed_successes k 0

  opened_successes :
      (k n : ℕ)
      → n < c.healthy_threshold
      → is_closed (breaker_run c (opened n) (replicate k true)) ≡ leb c.healthy_threshold (n + k)
  unfolding breaker_run
  opened_successes zero n h = ground arith
  opened_successes (suc k) n h = elim (Bool-cases (leb c.healthy_threshold (n + 1))) [
    | inl e ↦ rw (e, breaker_run) (closed_successes k 0 ∙ ground arith)
    | inr e ↦ rw (e, breaker_run) (opened_successes k (n + 1) (ground arith) ∙ ground arith)
  ]

module _ (h : HealthChecker) (b : BackendConfig) (e : BackendHealth) (rs : List CheckResult) (k : ℕ)
    (s : IsSound h.config) (there : entry h (backend_key b) ≡ some e) where
  is_healthy-run :
      WithinThreshold h.config (view e)
      → is_healthy (handle_all h rs) b
        ≡ is_closed (breaker_run h.config (view e) (outcomes_of (backend_key b) rs))
  is_healthy-run w =
      let (e', found, ran, w') = handle_all-breaker_run rs h (backend_key b) e s there w in
      is_healthy_lem (handle_all h rs) b
      ∙ rw found (sym (is_closed-view e'.state e'.consecutive_failures e'.consecutive_successes))
      ∙ ap is_closed ran

  -- Let a backend be healthy with a streak of failures below the threshold, and let its next k
  -- results be failures, among any results of other backends. It is healthy still exactly when the
  -- streak, now k longer, is below the threshold.
  pub is_healthy-failures :
      e.state ≡ healthy
      → e.consecutive_failures < h.config.unhealthy_threshold
      → outcomes_of (backend_key b) rs ≡ replicate k false
      → is_healthy (handle_all h rs) b
        ≡ ltb (e.consecutive_failures + k) h.config.unhealthy_threshold
  is_healthy-failures state below fails =
      let seen : view e ≡ closed e.consecutive_failures = rw state (unfold view_of in refl) in
      is_healthy-run (rw seen below)
      ∙ ap (λ r. is_closed (breaker_run h.config r (outcomes_of (backend_key b) rs))) seen
      ∙ ap (λ r. is_closed (breaker_run h.config (closed e.consecutive_failures) r)) fails
      ∙ closed_failures h.config k e.consecutive_failures below

  -- Let a backend be unhealthy with a streak of successes below the threshold, and let its next k
  -- results be successes, among any results of other backends. It is healthy again exactly when the
  -- streak, now k longer, has reached the threshold.
  pub is_healthy-successes :
      e.state ≡ unhealthy
      → e.consecutive_successes < h.config.healthy_threshold
      → outcomes_of (backend_key b) rs ≡ replicate k true
      → is_healthy (handle_all h rs) b
        ≡ leb h.config.healthy_threshold (e.consecutive_successes + k)
  is_healthy-successes state below passes =
      let seen : view e ≡ opened e.consecutive_successes = rw state (unfold view_of in refl) in
      is_healthy-run (rw seen below)
      ∙ ap (λ r. is_closed (breaker_run h.config r (outcomes_of (backend_key b) rs))) seen
      ∙ ap (λ r. is_closed (breaker_run h.config (opened e.consecutive_successes) r)) passes
      ∙ opened_successes h.config k e.consecutive_successes below
