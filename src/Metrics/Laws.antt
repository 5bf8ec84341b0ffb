-- ===== src/Metrics/Laws.antt =====
-- What the counters of src/util/metrics.cpp add up to, after any history of calls.
use mathlib.Core.Path.{subst}
use ntonix.Common.Map.{find, assign, find-assign}
use ntonix.Common.{
  ℕ, ◌+◌, ◌%◌, ◌≡◌, ◌<◌, refl, ap, sym, ◌∙◌, Bool, true, false, List, [], ◌∷◌, some, arith, ◌==◌,
  add64, sub64, u64_mod, Text, text_eq, Bool-cases, option_intro, if_intro, inl, inr,
}
use ntonix.Config.{BackendConfig}
use ntonix.Metrics.{
  BackendMetrics, Metrics, init, backend_key, new_backend_metrics, fill, set_backends,
  request_started, request_completed, cache_hit, cache_miss, connection_opened, connection_closed,
  set_cache_memory, count_request, backend_request,
}

pub data Call : Type 0 where
  sets_backends : List BackendConfig → Call
  starts hits misses opens closes : Call
  completes : Bool → Call
  uses_memory : ℕ → Call
  asks_backend : Text → ℕ → Bool → ℕ → Call

unfoldable pub step : Call → Metrics → Metrics
step (sets_backends backends) m = set_backends backends m
step starts m = request_started m
step hits m = cache_hit m
step misses m = cache_miss m
step opens m = connection_opened m
step closes m = connection_closed m
step (completes success) m = request_completed success m
step (uses_memory bytes) m = set_cache_memory bytes m
step (asks_backend host port success latency) m = backend_request host port success latency m

unfoldable pub run : List Call → Metrics → Metrics
unfolding step
run [] m = m
run (call ∷ calls) m = run calls (step call m)

-- Requests are active, succeeded or failed; a backend's requests succeeded or failed, and each has its
-- latency counted. The sums are modulo 2 ^ 64.
pub record AddsUp (m : Metrics) : Type 0 where
  pub total_fits : m.requests_total < u64_mod
  pub requests :
      (m.requests_active + m.requests_success + m.requests_error) % u64_mod ≡ m.requests_total

pub record BackendAddsUp (b : BackendMetrics) : Type 0 where
  pub fits : b.requests_total < u64_mod
  pub requests : (b.requests_success + b.requests_error) % u64_mod ≡ b.requests_total
  pub latencies : b.latency_count ≡ b.requests_total

request_started-AddsUp : (m : Metrics) → AddsUp m → AddsUp (request_started m)
unfolding request_started add64
request_started-AddsUp m v = record {
  total_fits = omega arith;
  requests = omega (arith, v.total_fits, v.requests);
}

request_completed-AddsUp :
    (success : Bool) (m : Metrics) → AddsUp m → AddsUp (request_completed success m)
unfolding request_completed add64 sub64
request_completed-AddsUp true m v = record {
  total_fits = v.total_fits;
  requests = omega (arith, v.total_fits, v.requests);
}
request_completed-AddsUp false m v = record {
  total_fits = v.total_fits;
  requests = omega (arith, v.total_fits, v.requests);
}

count_request-BackendAddsUp :
    (success : Bool) (latency : ℕ) (b : BackendMetrics)
    → BackendAddsUp b
    → BackendAddsUp (count_request success latency b)
unfolding count_request add64
count_request-BackendAddsUp true latency b v = record {
  fits = omega arith;
  requests = omega (arith, v.fits, v.requests);
  latencies = ap (λ n. (n + 1) % u64_mod) v.latencies;
}
count_request-BackendAddsUp false latency b v = record {
  fits = omega arith;
  requests = omega (arith, v.fits, v.requests);
  latencies = ap (λ n. (n + 1) % u64_mod) v.latencies;
}

step-AddsUp : (call : Call) (m : Metrics) → AddsUp m → AddsUp (step call m)
unfolding step set_backends cache_hit cache_miss connection_opened connection_closed
    set_cache_memory backend_request
step-AddsUp (sets_backends backends) m v = record {
  total_fits = v.total_fits;
  requests = v.requests;
}
step-AddsUp starts m v = request_started-AddsUp m v
step-AddsUp hits m v = record { total_fits = v.total_fits; requests = v.requests }
step-AddsUp misses m v = record { total_fits = v.total_fits; requests = v.requests }
step-AddsUp opens m v = record { total_fits = v.total_fits; requests = v.requests }
step-AddsUp closes m v = record { total_fits = v.total_fits; requests = v.requests }
step-AddsUp (completes success) m v = request_completed-AddsUp success m v
step-AddsUp (uses_memory bytes) m v = record { total_fits = v.total_fits; requests = v.requests }
step-AddsUp (asks_backend host port success latency) m v =
    option_intro AddsUp (find (backend_key host port) m.backends) m _ (λ _. v)
      (λ b _. record { total_fits = v.total_fits; requests = v.requests })

-- Every backend of a map adds up.
abbrev pub AllAddUp : List (Text × BackendMetrics) → Type 0
AllAddUp backends = (q : Text) (b : BackendMetrics) → find q backends ≡ some b → BackendAddsUp b

assign-AllAddUp :
    (k : Text) (b : BackendMetrics) (backends : List (Text × BackendMetrics))
    → AllAddUp backends
    → BackendAddsUp b
    → AllAddUp (assign k b backends)
assign-AllAddUp k b backends v w q c h = elim (Bool-cases (k == q)) [
  | inl own ↦
      let same : some b ≡ some c = sym (find-assign k q b backends ∙ rw own refl) ∙ h in
      subst BackendAddsUp (ground (arith, same)) w
  | inr other ↦ v q c (sym (find-assign k q b backends ∙ rw other refl) ∙ h)
]

new_backend-BackendAddsUp : (b : BackendConfig) → BackendAddsUp (new_backend_metrics b)
unfolding new_backend_metrics
new_backend-BackendAddsUp b = record {
  fits = omega arith;
  requests = omega arith;
  latencies = refl;
}

fill-nil : (m : List (Text × BackendMetrics)) → fill [] m ≡ m
unfolding fill
fill-nil m = refl

fill-cons :
    (b : BackendConfig) (bs : List BackendConfig) (m : List (Text × BackendMetrics))
    → fill (b ∷ bs) m ≡ fill bs (assign (backend_key b.host b.port) (new_backend_metrics b) m)
unfolding fill
fill-cons b bs m = refl

fill-AllAddUp :
    (bs : List BackendConfig) (m : List (Text × BackendMetrics)) → AllAddUp m → AllAddUp (fill bs m)
fill-AllAddUp [] m v = rw (fill-nil m) v
fill-AllAddUp (b ∷ bs) m v = rw (fill-cons b bs m) (
    fill-AllAddUp bs (assign (backend_key b.host b.port) (new_backend_metrics b) m) (
      assign-AllAddUp (backend_key b.host b.port) (new_backend_metrics b) m v
        (new_backend-BackendAddsUp b)))

step-AllAddUp : (call : Call) (m : Metrics) → AllAddUp m.backends → AllAddUp (step call m).backends
unfolding step set_backends request_started request_completed cache_hit cache_miss connection_opened
    connection_closed set_cache_memory backend_request
step-AllAddUp (sets_backends backends) m v = fill-AllAddUp backends [] (λ q b h. cc h)
step-AllAddUp starts m v = v
step-AllAddUp hits m v = v
step-AllAddUp misses m v = v
step-AllAddUp opens m v = v
step-AllAddUp closes m v = v
step-AllAddUp (completes success) m v =
    if_intro (λ (r : Metrics). AllAddUp r.backends) success (λ _. v) (λ _. v)
step-AllAddUp (uses_memory bytes) m v = v
step-AllAddUp (asks_backend host port success latency) m v =
    option_intro (λ (r : Metrics). AllAddUp r.backends) (find (backend_key host port) m.backends) m
      _ (λ _. v)
      (λ b there.
        assign-AllAddUp (backend_key host port) (count_request success latency b) m.backends v
          (count_request-BackendAddsUp success latency b (v (backend_key host port) b there)))

run-cons :
    (call : Call) (calls : List Call) (m : Metrics) → run (call ∷ calls) m ≡ run calls (step call m)
unfolding run
run-cons call calls m = refl

run-nil : (m : Metrics) → run [] m ≡ m
unfolding run
run-nil m = refl

-- From counters that add up, any history of calls leads to counters that add up: modulo 2 ^ 64 the
-- requests are the active, the successful and the failed ones together, and the requests of each backend
-- are its successful and failed ones, with one latency counted for each.
pub run-AddsUp :
    (calls : List Call) (m : Metrics)
    → AddsUp m
    → AllAddUp m.backends
    → AddsUp (run calls m) × AllAddUp (run calls m).backends
run-AddsUp [] m v w = rw (run-nil m) (v, w)
run-AddsUp (call ∷ calls) m v w =
    rw (run-cons call calls m)
      (run-AddsUp calls (step call m) (step-AddsUp call m v) (step-AllAddUp call m w))

pub init-AddsUp : (now : ℕ) → AddsUp (init now)
unfolding init
init-AddsUp now = record { total_fits = omega arith; requests = omega arith }
