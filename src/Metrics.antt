-- ===== src/Metrics.antt =====
-- src/util/metrics.{hpp,cpp}: `Metrics`, the counters of the gateway. Every counter is a 64-bit atomic
-- that wraps; a ratio is kept as its numerator and denominator.
pub mod Laws
pub mod Json
mod Tests
use ntonix.Common.Decimal.{to_decimal}
use ntonix.Common.Map.{find, assign}
use ntonix.Common.{
  ℕ, ◌-◌, ◌/◌, Bool, true, false, List, [], ◌∷◌, ◌++◌, map, Option, none, some, if◌then◌else◌,
  nat_beq, add64, sub64, Text, text_eq,
}
use ntonix.Config.{BackendConfig}

pub record BackendMetrics : Type 0 where
  pub host : Text
  pub port : ℕ
  pub requests_total : ℕ
  pub requests_success : ℕ
  pub requests_error : ℕ
  pub latency_sum_ms : ℕ
  pub latency_count : ℕ

pub record Metrics : Type 0 where
  pub requests_total : ℕ
  pub requests_active : ℕ
  pub requests_success : ℕ
  pub requests_error : ℕ
  pub cache_hits : ℕ
  pub cache_misses : ℕ
  pub connections_active : ℕ
  pub connections_total : ℕ
  pub cache_memory_bytes : ℕ
  pub backends : List (Text × BackendMetrics)
  pub start_time : ℕ

pub record BackendSnapshot : Type 0 where
  pub host : Text
  pub port : ℕ
  pub requests : ℕ
  pub errors : ℕ
  pub latency_avg_ms : ℕ × ℕ
  pub error_rate : ℕ × ℕ

pub record MetricsSnapshot : Type 0 where
  pub requests_total : ℕ
  pub requests_active : ℕ
  pub requests_success : ℕ
  pub requests_error : ℕ
  pub cache_hits : ℕ
  pub cache_misses : ℕ
  pub cache_hit_rate : ℕ × ℕ
  pub uptime_seconds : ℕ
  pub connections_active : ℕ
  pub connections_total : ℕ
  pub memory_cache_bytes : ℕ
  pub backends : List BackendSnapshot

unfoldable pub init : ℕ → Metrics
init now = record {
  requests_total = 0;
  requests_active = 0;
  requests_success = 0;
  requests_error = 0;
  cache_hits = 0;
  cache_misses = 0;
  connections_active = 0;
  connections_total = 0;
  cache_memory_bytes = 0;
  backends = [];
  start_time = now;
}

unfoldable pub backend_key : Text → ℕ → Text
backend_key host port = host ++ b':' ∷ to_decimal port

unfoldable pub new_backend_metrics : BackendConfig → BackendMetrics
new_backend_metrics b = record {
  host = b.host;
  port = b.port;
  requests_total = 0;
  requests_success = 0;
  requests_error = 0;
  latency_sum_ms = 0;
  latency_count = 0;
}

-- The loop of `set_backends`, over the map that it fills
unfoldable pub fill :
    List BackendConfig → List (Text × BackendMetrics) → List (Text × BackendMetrics)
unfolding backend_key new_backend_metrics
fill [] m = m
fill (b ∷ bs) m = fill bs (assign (backend_key b.host b.port) (new_backend_metrics b) m)

unfoldable pub set_backends : List BackendConfig → Metrics → Metrics
unfolding fill
set_backends backends m = record m { backends = fill backends [] }

unfoldable pub request_started : Metrics → Metrics
request_started m = record m {
  requests_total = add64 m.requests_total 1;
  requests_active = add64 m.requests_active 1;
}

unfoldable pub request_completed : Bool → Metrics → Metrics
request_completed success m =
    let m' = record m { requests_active = sub64 m.requests_active 1 } in
    if success
    then record m' { requests_success = add64 m.requests_success 1 }
    else record m' { requests_error = add64 m.requests_error 1 }

unfoldable pub cache_hit : Metrics → Metrics
cache_hit m = record m { cache_hits = add64 m.cache_hits 1 }

unfoldable pub cache_miss : Metrics → Metrics
cache_miss m = record m { cache_misses = add64 m.cache_misses 1 }

unfoldable pub connection_opened : Metrics → Metrics
connection_opened m = record m {
  connections_active = add64 m.connections_active 1;
  connections_total = add64 m.connections_total 1;
}

unfoldable pub connection_closed : Metrics → Metrics
connection_closed m = record m { connections_active = sub64 m.connections_active 1 }

unfoldable pub set_cache_memory : ℕ → Metrics → Metrics
set_cache_memory bytes m = record m { cache_memory_bytes = bytes }

-- The counters of one backend
unfoldable pub count_request : Bool → ℕ → BackendMetrics → BackendMetrics
count_request success latency b =
    let b' = record b {
      requests_total = add64 b.requests_total 1;
      latency_sum_ms = add64 b.latency_sum_ms latency;
      latency_count = add64 b.latency_count 1;
    } in
    if success
    then record b' { requests_success = add64 b.requests_success 1 }
    else record b' { requests_error = add64 b.requests_error 1 }

unfoldable pub backend_request : Text → ℕ → Bool → ℕ → Metrics → Metrics
unfolding backend_key count_request
backend_request host port success latency m = elim (find (backend_key host port) m.backends) [
  | none ↦ m
  | some b ↦ record m {
    backends = assign (backend_key host port) (count_request success latency b) m.backends;
  }
]

-- 0 when nothing was counted
abbrev ratio : ℕ → ℕ → ℕ × ℕ
ratio part whole = if nat_beq whole 0 then (0, 1) else (part, whole)

unfoldable pub latency_avg_ms : BackendMetrics → ℕ × ℕ
latency_avg_ms b = ratio b.latency_sum_ms b.latency_count

unfoldable pub error_rate : BackendMetrics → ℕ × ℕ
error_rate b = ratio b.requests_error b.requests_total

unfoldable pub uptime_seconds : ℕ → Metrics → ℕ
uptime_seconds now m = (now - m.start_time) / 1000000000

unfoldable pub backend_snapshot : BackendMetrics → BackendSnapshot
unfolding latency_avg_ms error_rate
backend_snapshot b = record {
  host = b.host;
  port = b.port;
  requests = b.requests_total;
  errors = b.requests_error;
  latency_avg_ms = latency_avg_ms b;
  error_rate = error_rate b;
}

unfoldable pub snapshot : ℕ → Metrics → MetricsSnapshot
unfolding uptime_seconds backend_snapshot
snapshot now m = record {
  requests_total = m.requests_total;
  requests_active = m.requests_active;
  requests_success = m.requests_success;
  requests_error = m.requests_error;
  cache_hits = m.cache_hits;
  cache_misses = m.cache_misses;
  cache_hit_rate = ratio m.cache_hits (add64 m.cache_hits m.cache_misses);
  uptime_seconds = uptime_seconds now m;
  connections_active = m.connections_active;
  connections_total = m.connections_total;
  memory_cache_bytes = m.cache_memory_bytes;
  backends = map (λ entry. backend_snapshot entry.1) m.backends;
}
