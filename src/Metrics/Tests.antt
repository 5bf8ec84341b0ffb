-- ===== src/Metrics/Tests.antt =====
-- The theorem on src/util/metrics.cpp at a short history, with one backend.
use ntonix.Common.{true, false, List, [], ◌∷◌, codes, text_eq}
use ntonix.Metrics.Laws.{
  Call, sets_backends, starts, misses, completes, asks_backend, run, AddsUp, AllAddUp, run-AddsUp,
  init-AddsUp,
}
use ntonix.Metrics.{init}

abbrev calls : List Call
calls =
    sets_backends (record { host = codes "a"; port = 80; weight = 1 } ∷ [])
    ∷ starts
    ∷ starts
    ∷ misses
    ∷ asks_backend (codes "a") 80 true 35
    ∷ completes true
    ∷ completes false
    ∷ []

run-AddsUp_example : AddsUp (run calls (init 5)) × AllAddUp (run calls (init 5)).backends
unfolding init
run-AddsUp_example = run-AddsUp calls (init 5) (init-AddsUp 5) (λ q b h. cc h)
