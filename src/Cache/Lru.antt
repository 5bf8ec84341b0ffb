-- ===== src/Cache/Lru.antt =====
-- src/cache/lru_cache.{hpp,cpp}: `LruCache`. The list keeps its nodes at addresses and the map
-- keeps iterators, which are addresses; a call that follows a dangling iterator is `none`. Time is
-- an argument, in nanoseconds of the steady clock.
pub mod Nodes
pub mod Touch
pub mod Invariant
pub mod Evict
pub mod Ideal
pub mod Sections
pub mod Fronts
pub mod Contents
use ntonix.Cache.Key.{CacheKey, key_eq}
use ntonix.Common.Map.{find, assign, erase}
use ntonix.Common.{
  ℕ, zero, suc, ◌+◌, ◌-◌, ◌*◌, ◌/◌, Bool, true, false, ◌&&◌, not, List, [], ◌∷◌, Option, none, some,
  if◌then◌else◌, ltb, length, is_empty, Text, add64, sub64, nat_beq,
}

pub record CacheEntry : Type 0 where
  pub body : Text
  pub content_type : Text
  pub size_bytes : ℕ
  pub created_at : ℕ
  pub last_access : ℕ
  pub hit_count : ℕ

pub record LruCacheConfig : Type 0 where
  pub max_size_bytes : ℕ
  pub ttl : ℕ
  pub enabled : Bool

pub record CacheStats : Type 0 where
  pub hits : ℕ
  pub misses : ℕ
  pub evictions : ℕ
  pub expired : ℕ
  pub entries : ℕ
  pub size_bytes : ℕ
  pub max_size_bytes : ℕ

pub record Node : Type 0 where
  pub addr : ℕ
  pub key : CacheKey
  pub entry : CacheEntry

-- Front = most recently used, as the head of the list. `next_addr` is where the next node is
-- allocated.
pub record LruCache : Type 0 where
  pub config : LruCacheConfig
  pub lru_list : List Node
  pub cache_map : List (CacheKey × ℕ)
  pub next_addr : ℕ
  pub hits : ℕ
  pub misses : ℕ
  pub evictions : ℕ
  pub expired : ℕ
  pub current_size_bytes : ℕ

-- `*it`
unfoldable pub deref : ℕ → List Node → Option Node
deref a [] = none
deref a (n ∷ l) = if nat_beq n.addr a then some n else deref a l

-- `lru_list_.erase(it)`
unfoldable pub list_erase : ℕ → List Node → List Node
list_erase a [] = []
list_erase a (n ∷ l) = if nat_beq n.addr a then l else n ∷ list_erase a l

-- `lru_list_.back()` and `lru_list_.pop_back()`
unfoldable pub back : List Node → Option Node
back [] = none
back (n ∷ []) = some n
back (n ∷ m ∷ l) = back (m ∷ l)

unfoldable pub pop_back : List Node → List Node
pop_back [] = []
pop_back (n ∷ []) = []
pop_back (n ∷ m ∷ l) = n ∷ pop_back (m ∷ l)

unfoldable pub init : LruCacheConfig → LruCache
init config = record {
  config = config;
  lru_list = [];
  cache_map = [];
  next_addr = 0;
  hits = 0;
  misses = 0;
  evictions = 0;
  expired = 0;
  current_size_bytes = 0;
}

abbrev pub nanoseconds_per_second : ℕ
nanoseconds_per_second = 1000000000

unfoldable pub is_expired : LruCache → ℕ → CacheEntry → Bool
is_expired c now entry = ltb c.config.ttl ((now - entry.created_at) / nanoseconds_per_second)

-- `it->second->entry = …`
unfoldable pub assign_entry : ℕ → CacheEntry → List Node → List Node
assign_entry a e [] = []
assign_entry a e (n ∷ l) =
    if nat_beq n.addr a then record n { entry = e } ∷ l else n ∷ assign_entry a e l

-- `touch_node`: `splice` moves the node to the front unless it is there.
unfoldable pub touch_node : ℕ → List Node → List Node
unfolding deref list_erase
touch_node a [] = []
touch_node a (m ∷ l) =
    if nat_beq m.addr a
    then m ∷ l
    else elim (deref a (m ∷ l)) [ none ↦ m ∷ l | some n ↦ n ∷ list_erase a (m ∷ l) ]

-- One round of the loop of `evict_if_needed`
unfoldable pub evict_back : LruCache → Node → LruCache
unfolding pop_back
evict_back c n = record c {
  current_size_bytes = sub64 c.current_size_bytes n.entry.size_bytes;
  cache_map = erase n.key c.cache_map;
  lru_list = pop_back c.lru_list;
  evictions = add64 c.evictions 1;
}

unfoldable pub evict_loop : ℕ → LruCache → LruCache
unfolding evict_back back
evict_loop zero c = c
evict_loop (suc fuel) c = elim (back c.lru_list) [
  | none ↦ c
  | some n ↦
      let rest = evict_loop fuel (evict_back c n) in
      if ltb c.config.max_size_bytes c.current_size_bytes then rest else c
]

-- Each round removes a node, so there are no more rounds than nodes.
unfoldable pub evict_if_needed : LruCache → LruCache
unfolding evict_loop
evict_if_needed c = evict_loop (length c.lru_list) c

-- What `get` knows when it gives up its shared lock
pub data ReadOutcome : Type 0 where
  done : Option CacheEntry → ReadOutcome
  upgrade : ReadOutcome

unfoldable pub count_hit : LruCache → LruCache
count_hit c = record c { hits = add64 c.hits 1 }

unfoldable pub count_miss : LruCache → LruCache
count_miss c = record c { misses = add64 c.misses 1 }

unfoldable pub hit_result : ℕ → CacheEntry → CacheEntry
hit_result now e = record e { hit_count = add64 e.hit_count 1; last_access = now }

-- `get` under the shared lock
unfoldable pub get_read : LruCache → CacheKey → ℕ → Option (LruCache × ReadOutcome)
unfolding deref is_expired count_hit count_miss hit_result
get_read c key now =
    if not c.config.enabled then some (c, done none) else elim (find key c.cache_map) [
      | none ↦ some (count_miss c, done none)
      | some it ↦ elim (deref it c.lru_list) [
        | none ↦ none
        | some n ↦
            if is_expired c now n.entry
            then some (c, upgrade)
            else some (count_hit c, done (some (hit_result now n.entry)))
      ]
    ]

-- The node goes from the list and the map, and its size from the total.
unfoldable pub drop_node : LruCache → CacheKey → Node → LruCache
unfolding list_erase
drop_node c key n = record c {
  current_size_bytes = sub64 c.current_size_bytes n.entry.size_bytes;
  lru_list = list_erase n.addr c.lru_list;
  cache_map = erase key c.cache_map;
}

-- `get` under the exclusive lock, which looks the key up again
unfoldable pub get_upgrade : LruCache → CacheKey → ℕ → Option LruCache
unfolding deref is_expired count_miss drop_node
get_upgrade c key now = elim (find key c.cache_map) [
  | none ↦ some (count_miss c)
  | some it ↦ elim (deref it c.lru_list) [
    | none ↦ none
    | some n ↦
        let c' = drop_node c key n in
        if is_expired c now n.entry
        then some (count_miss (record c' { expired = add64 c'.expired 1 }))
        else some (count_miss c)
  ]
]

-- `get`, when no other thread runs between its two locks
unfoldable pub get : LruCache → CacheKey → ℕ → ℕ → Option (LruCache × Option CacheEntry)
unfolding get_read get_upgrade
get c key now later = elim (get_read c key now) [
  | none ↦ none
  | some (c', done r) ↦ some (c', r)
  | some (c', upgrade) ↦ elim (get_upgrade c' key later) [
    | none ↦ none
    | some c'' ↦ some (c'', none)
  ]
]

unfoldable pub new_entry : Text → Text → ℕ → CacheEntry
new_entry body content_type now = record {
  body = body;
  content_type = content_type;
  size_bytes = length body;
  created_at = now;
  last_access = now;
  hit_count = 0;
}

-- The branch of `put` for a key that is there
unfoldable pub update_existing : LruCache → Node → CacheEntry → LruCache
unfolding assign_entry touch_node
update_existing c n entry = record c {
  lru_list = touch_node n.addr (assign_entry n.addr entry c.lru_list);
  current_size_bytes = add64 (sub64 c.current_size_bytes n.entry.size_bytes) entry.size_bytes;
}

-- The branch of `put` for a new key
unfoldable pub add_new : LruCache → CacheKey → CacheEntry → LruCache
add_new c key entry = record c {
  lru_list = record { addr = c.next_addr; key = key; entry = entry } ∷ c.lru_list;
  cache_map = assign key c.next_addr c.cache_map;
  next_addr = suc c.next_addr;
  current_size_bytes = add64 c.current_size_bytes entry.size_bytes;
}

unfoldable pub store : LruCache → CacheKey → CacheEntry → Option LruCache
unfolding deref update_existing add_new
store c key entry = elim (find key c.cache_map) [
  | none ↦ some (add_new c key entry)
  | some it ↦ elim (deref it c.lru_list) [ none ↦ none | some n ↦ some (update_existing c n entry) ]
]

-- `put` under the exclusive lock
unfoldable pub put_locked : LruCache → CacheKey → CacheEntry → Option LruCache
unfolding store evict_if_needed
put_locked c key entry = elim (store c key entry) [
  | none ↦ none
  | some c' ↦ some (evict_if_needed c')
]

unfoldable pub put : LruCache → CacheKey → Text → Text → ℕ → Option LruCache
unfolding new_entry put_locked
put c key body content_type now =
    if not c.config.enabled
    then some c
    else (if ltb c.config.max_size_bytes (length body)
        then some c
        else put_locked c key (new_entry body content_type now))

unfoldable pub remove : LruCache → CacheKey → Option (LruCache × Bool)
unfolding deref drop_node
remove c key = elim (find key c.cache_map) [
  | none ↦ some (c, false)
  | some it ↦ elim (deref it c.lru_list) [ none ↦ none | some n ↦ some (drop_node c key n, true) ]
]

unfoldable pub clear : LruCache → LruCache
clear c = record c { cache_map = []; lru_list = []; current_size_bytes = 0 }

unfoldable pub get_stats : LruCache → CacheStats
get_stats c = record {
  hits = c.hits;
  misses = c.misses;
  evictions = c.evictions;
  expired = c.expired;
  entries = length c.cache_map;
  size_bytes = c.current_size_bytes;
  max_size_bytes = c.config.max_size_bytes;
}

unfoldable pub update_config : LruCache → ℕ → ℕ → LruCache
unfolding evict_if_needed
update_config c max_size_bytes ttl = evict_if_needed (record c {
  config = record { max_size_bytes = max_size_bytes; ttl = ttl; enabled = c.config.enabled };
})
