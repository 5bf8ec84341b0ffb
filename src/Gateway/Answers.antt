-- ===== src/Gateway/Answers.antt =====
-- The fixed parts of `request_handler`'s answers in src/main.cpp: texts and headers.
use ntonix.Cache.Lru.{LruCache, CacheStats, get_stats}
use ntonix.Common.{
  ℕ, Bool, ◌&&◌, [], ◌∷◌, ◌++◌, Option, none, some, if◌then◌else◌, leb, ltb, add64, Text, codes,
}
use ntonix.Http.{HttpResponse}
use ntonix.Metrics.Json.{line, number}

abbrev pub json_response : ℕ → Text → HttpResponse
json_response status body = record {
  status = status;
  content_type = codes "application/json";
  body = body;
  headers = [];
}

-- `CacheStats::hit_rate`, as a numerator and a denominator
abbrev hit_rate : CacheStats → ℕ × ℕ
hit_rate s = let total = add64 s.hits s.misses in if ltb 0 total then (s.hits, total) else (0, 1)

unfoldable pub stats_json : (ℕ × ℕ → Text) → LruCache → Text
unfolding get_stats
stats_json show_ratio cache =
    let stats = get_stats cache in
    line (codes "{")
    ++ line (
        codes "  \"enabled\": "
        ++ (if cache.config.enabled then codes "true" else codes "false")
        ++ codes ",")
    ++ number (codes "  \"hits\": ") stats.hits (codes ",")
    ++ number (codes "  \"misses\": ") stats.misses (codes ",")
    ++ line (codes "  \"hit_rate\": " ++ show_ratio (hit_rate stats) ++ codes ",")
    ++ number (codes "  \"evictions\": ") stats.evictions (codes ",")
    ++ number (codes "  \"expired\": ") stats.expired (codes ",")
    ++ number (codes "  \"entries\": ") stats.entries (codes ",")
    ++ number (codes "  \"size_bytes\": ") stats.size_bytes (codes ",")
    ++ number (codes "  \"max_size_bytes\": ") stats.max_size_bytes []
    ++ codes "}"

-- The text that describes the gateway
abbrev pub root_text : Text
root_text =
    line (codes "{")
    ++ line (codes "  \"name\": \"NTONIX\",")
    ++ line (codes "  \"version\": \"0.1.0\",")
    ++ line (codes "  \"description\": \"High-Performance AI Inference Gateway\",")
    ++ line (codes "  \"endpoints\": {")
    ++ line (codes "    \"health\": \"/health\",")
    ++ line (codes "    \"metrics\": \"/metrics\",")
    ++ line (codes "    \"cache_stats\": \"/cache/stats\",")
    ++ line (codes "    \"chat_completions\": \"/v1/chat/completions\"")
    ++ line (codes "  }")
    ++ codes "}"

abbrev pub x_cache : Text
x_cache = codes "X-Cache"

abbrev pub x_request_id_name : Text
x_request_id_name = codes "X-Request-ID"

abbrev pub chat_target : Text
chat_target = codes "/v1/chat/completions"

abbrev pub text_or_empty : Option Text → Text
text_or_empty none = []
text_or_empty (some v) = v

abbrev pub is_success : ℕ → Bool
is_success status = leb 200 status && ltb status 300

abbrev pub with_headers : Text → HttpResponse → HttpResponse
with_headers id response = record response {
  headers = response.headers ++ (x_cache, codes "MISS") ∷ (x_request_id_name, id) ∷ [];
}
