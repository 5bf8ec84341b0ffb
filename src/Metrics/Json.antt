-- ===== src/Metrics/Json.antt =====
-- `MetricsSnapshot::to_json` of src/util/metrics.cpp. How the stream prints a ratio, with its fixed four
-- digits, is a parameter.
use ntonix.Common.Decimal.{to_decimal}
use ntonix.Common.{ℕ, List, [], ◌∷◌, ◌++◌, is_empty, if◌then◌else◌, Text, codes}
use ntonix.Metrics.{BackendSnapshot, MetricsSnapshot}

-- A line of the text
abbrev pub line : Text → Text
line s = s ++ 10 ∷ []

-- A line with a number, and what follows it
abbrev pub number : Text → ℕ → Text → Text
number label n rest = line (label ++ to_decimal n ++ rest)

module _ (show_ratio : ℕ × ℕ → Text) where
  abbrev rate : Text → ℕ × ℕ → Text → Text
  rate label r rest = line (label ++ show_ratio r ++ rest)

  abbrev request_lines : MetricsSnapshot → Text
  request_lines s =
      line (codes "  \"requests\": {")
      ++ number (codes "    \"total\": ") s.requests_total (codes ",")
      ++ number (codes "    \"active\": ") s.requests_active (codes ",")
      ++ number (codes "    \"success\": ") s.requests_success (codes ",")
      ++ number (codes "    \"error\": ") s.requests_error []
      ++ line (codes "  },")

  abbrev cache_lines : MetricsSnapshot → Text
  cache_lines s =
      line (codes "  \"cache\": {")
      ++ number (codes "    \"hits\": ") s.cache_hits (codes ",")
      ++ number (codes "    \"misses\": ") s.cache_misses (codes ",")
      ++ rate (codes "    \"hit_rate\": ") s.cache_hit_rate []
      ++ line (codes "  },")

  abbrev system_lines : MetricsSnapshot → Text
  system_lines s =
      line (codes "  \"system\": {")
      ++ number (codes "    \"uptime_seconds\": ") s.uptime_seconds (codes ",")
      ++ number (codes "    \"connections_active\": ") s.connections_active (codes ",")
      ++ number (codes "    \"connections_total\": ") s.connections_total (codes ",")
      ++ number (codes "    \"memory_cache_bytes\": ") s.memory_cache_bytes []
      ++ line (codes "  },")

  abbrev backend_lines : BackendSnapshot → Text
  backend_lines b =
      line (codes "    {")
      ++ line (codes "      \"host\": \"" ++ b.host ++ codes "\",")
      ++ number (codes "      \"port\": ") b.port (codes ",")
      ++ number (codes "      \"requests\": ") b.requests (codes ",")
      ++ number (codes "      \"errors\": ") b.errors (codes ",")
      ++ rate (codes "      \"latency_avg_ms\": ") b.latency_avg_ms (codes ",")
      ++ rate (codes "      \"error_rate\": ") b.error_rate []
      ++ codes "    }"

  -- The loop over the backends, with a comma after each but the last
  unfoldable pub backends_json : List BackendSnapshot → Text
  backends_json [] = []
  backends_json (b ∷ bs) =
      let rest = backends_json bs in
      backend_lines b ++ line (if is_empty bs then [] else codes ",") ++ rest

  unfoldable pub to_json : MetricsSnapshot → Text
  unfolding backends_json
  to_json s =
      line (codes "{")
      ++ request_lines s
      ++ cache_lines s
      ++ system_lines s
      ++ line (codes "  \"backends\": [")
      ++ backends_json s.backends
      ++ line (codes "  ]")
      ++ codes "}"
