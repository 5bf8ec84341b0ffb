-- ===== src/Cache/Tests.antt =====
-- The theorems on src/cache at a small cache of two entries, filled by three calls.
use mathlib.Core.Path.{subst}
use ntonix.Cache.Key.Laws.{cache_key_input_injective, HasDirective, should_bypass_cache_iff}
use ntonix.Cache.Key.{CacheKey, key_eq, should_bypass_cache}
use ntonix.Cache.Lru.Contents.{put_lem, get-put, find_key-put_ne, get_stale}
use ntonix.Cache.Lru.Fronts.{get_fresh, get_sound, age}
use ntonix.Cache.Lru.Evict.{IsEvicted}
use ntonix.Cache.Lru.Ideal.{ideal_store}
use ntonix.Cache.Lru.Invariant.{Inv}
use ntonix.Cache.Lru.Nodes.{find_key}
use ntonix.Cache.Lru.Sections.{Section, reads, puts, run, run-Inv, init-Inv, step}
use ntonix.Cache.Lru.{
  CacheEntry, LruCacheConfig, LruCache, Node, init, deref, list_erase, back, pop_back, is_expired,
  assign_entry, touch_node, evict_back, evict_loop, evict_if_needed, count_hit, count_miss,
  hit_result, get_read, drop_node, get_upgrade, get, new_entry, update_existing, add_new, store,
  put_locked, put, remove, clear, update_config,
}
use ntonix.Common.{
  ℕ, ◌≡◌, ◌≤◌, ◌*◌, ◌⊎◌, ◌↔◌, refl, true, List, [], ◌∷◌, map, Option, none, some, arith,
  if◌then◌else◌, ◌==◌, add64, sub64, Text, codes, to_lower,
}

program : Unit {0}
unfolding init deref list_erase back pop_back is_expired assign_entry touch_node evict_back
    evict_loop evict_if_needed count_hit count_miss hit_result get_read drop_node get_upgrade get
    new_entry update_existing add_new store put_locked put remove clear update_config step run
    find_key add64 sub64
program = tt

abbrev config : LruCacheConfig
config = record { max_size_bytes = 8; ttl = 60; enabled = true }

abbrev key : ℕ → CacheKey
key n = record { hash = n }

abbrev calls : List Section
calls =
    puts (key 1) (codes "one") (codes "text") 100
    ∷ puts (key 2) (codes "two!") (codes "text") 200
    ∷ reads (key 1) 300
    ∷ puts (key 3) (codes "six") (codes "json") 400
    ∷ []

abbrev entry : Text → Text → ℕ → ℕ → CacheEntry
entry body content_type size now = record {
  body = body;
  content_type = content_type;
  size_bytes = size;
  created_at = now;
  last_access = now;
  hit_count = 0;
}

abbrev node_two : Node
node_two = record { addr = 1; key = key 2; entry = entry (codes "two!") (codes "text") 4 200 }

abbrev two : LruCache
two = record {
  config = config;
  lru_list =
      record { addr = 2; key = key 3; entry = entry (codes "six") (codes "json") 3 400 }
      ∷ node_two
      ∷ [];
  cache_map = (key 2, 1) ∷ (key 3, 2) ∷ [];
  next_addr = 3;
  hits = 1;
  misses = 0;
  evictions = 1;
  expired = 0;
  current_size_bytes = 7;
}

-- The read does not save the first entry, and the third call evicts it.
two_lem : run calls (init config) ≡ some two
unfolding program
two_lem = refl

two-Inv : Inv two
two-Inv =
    let (c', e, v) =
      run-Inv calls (init config) (init-Inv config (omega arith))
        (omega arith, (omega arith, (tt, (omega arith, tt)))) in
    let same : c' ≡ two = option_same (run calls (init config)) c' two e two_lem in subst Inv same v
  where
    option_same : (o : Option LruCache) (a b : LruCache) → o ≡ some a → o ≡ some b → a ≡ b
    option_same o a b h k = ground arith

run-Inv_example : (c' : LruCache) × (run calls (init config) ≡ some c') × Inv c'
run-Inv_example =
    run-Inv calls (init config) (init-Inv config (omega arith))
      (omega arith, (omega arith, (tt, (omega arith, tt))))

abbrev second_now : ℕ
second_now = 1000000000

get-put_example :
    (c' : LruCache) × (put two (key 4) (codes "four") (codes "text") 500 ≡ some c')
    × (get c' (key 4) second_now second_now
        ≡ some (
          count_hit c',
          some (hit_result second_now (new_entry (codes "four") (codes "text") 500)),
        ))
get-put_example =
    get-put two two-Inv (key 4) (codes "four") (codes "text") 500 refl (omega arith) second_now
      second_now (omega arith)

put_lem_example :
    (c' : LruCache) × (victims : List Node) × (put two (key 4) (codes "four") (codes "text") 500
      ≡ some c')
    × IsEvicted (ideal_store two (key 4) (new_entry (codes "four") (codes "text") 500)) c' victims
    × (c'.config ≡ config)
    × Inv c'
put_lem_example = put_lem two two-Inv (key 4) (codes "four") (codes "text") 500 refl (omega arith)

find_key-put_ne_example :
    (c' : LruCache) × (put two (key 4) (codes "four") (codes "text") 500 ≡ some c')
    × ((find_key (key 3) c'.lru_list ≡ find_key (key 3) two.lru_list)
        ⊎ (find_key (key 3) c'.lru_list ≡ none))
find_key-put_ne_example =
    find_key-put_ne two two-Inv (key 4) (codes "four") (codes "text") 500 refl (omega arith) (key 3)
      (ground arith)

get_fresh_example :
    get two (key 2) second_now second_now
    ≡ some (count_hit two, some (hit_result second_now node_two.entry))
unfolding program
get_fresh_example =
    get_fresh two two-Inv (key 2) second_now second_now node_two refl refl (omega arith)

get_sound_example :
    (n : Node) × (find_key (key 2) two.lru_list ≡ some n)
    × (hit_result second_now node_two.entry ≡ hit_result second_now n.entry)
    × (age second_now n.entry ≤ 60)
    × (two.config.enabled ≡ true)
    × (count_hit two ≡ count_hit two)
get_sound_example = get_sound two two-Inv (key 2) second_now second_now get_fresh_example

abbrev late : ℕ
late = 100 * second_now

get_stale_example :
    (c' : LruCache) × (get two (key 2) late late ≡ some (c', none))
    × (c'.misses ≡ add64 0 1)
    × (c'.expired ≡ add64 0 1)
    × ((q : CacheKey)
        → find_key q c'.lru_list ≡ (if key 2 == q then none else find_key q two.lru_list))
unfolding program
get_stale_example =
    get_stale two two-Inv (key 2) late late node_two refl refl (omega arith) (omega arith)

cache_key_input_injective_example :
    (codes "GET" ≡ codes "GET") × (codes "/a" ≡ codes "/a") × (codes "x:y" ≡ codes "x:y")
cache_key_input_injective_example =
    cache_key_input_injective (codes "GET") (codes "GET") (codes "/a") (codes "/a") (codes "x:y")
      (codes "x:y") (ground arith) (ground arith) (ground arith) (ground arith) refl

should_bypass_cache_iff_example :
    (should_bypass_cache (codes "No-Store") ≡ true) ↔ HasDirective (map to_lower (codes "No-Store"))
should_bypass_cache_iff_example = should_bypass_cache_iff (codes "No-Store")
