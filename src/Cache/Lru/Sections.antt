-- ===== src/Cache/Lru/Sections.antt =====
-- Threads on `LruCache` (cache/lru_cache.cpp): the mutex makes each locked stretch of code atomic,
-- so any interleaving of any number of threads is a list of the sections below. `get` takes its two
-- locks one after the other, so other sections may run between its two.
use ntonix.Cache.Key.{CacheKey, key_eq}
use ntonix.Cache.Lru.Evict.{evict_if_needed-IsEvicted}
use ntonix.Cache.Lru.Ideal.{
  ideal_read, ideal_upgrade, ideal_store, ideal_remove, get_read-ideal, get_upgrade-ideal,
  remove-ideal, put_locked-ideal,
}
use ntonix.Cache.Lru.Invariant.{
  Inv, IsConsistent, drop-IsConsistent, add-IsConsistent, update-IsConsistent,
}
use ntonix.Cache.Lru.Nodes.{find_key, deref-find_key, total_size-list_erase}
use ntonix.Cache.Lru.{
  CacheEntry, LruCacheConfig, LruCache, Node, ReadOutcome, init, is_expired, new_entry, count_hit,
  count_miss, get_read, get_upgrade, drop_node, add_new, update_existing, put_locked,
  evict_if_needed, remove, clear, update_config,
}
use ntonix.Common.{
  ℕ, ◌+◌, ◌≡◌, ◌<◌, ◌^◌, refl, Bool, List, [], ◌∷◌, Option, none, some, arith, length, u64_mod,
  Text, sub64_exact, add64-lt, All, not, if_intro, option_intro,
}

pub data Section : Type 0 where
  reads : CacheKey → ℕ → Section
  upgrades : CacheKey → ℕ → Section
  puts : CacheKey → Text → Text → ℕ → Section
  removes : CacheKey → Section
  clears : Section
  updates_config : ℕ → ℕ → Section

unfoldable pub step : Section → LruCache → Option LruCache
unfolding new_entry
step (reads key now) c = elim (get_read c key now) [ none ↦ none | some (c', _) ↦ some c' ]
step (upgrades key now) c = get_upgrade c key now
step (puts key body content_type now) c = put_locked c key (new_entry body content_type now)
step (removes key) c = elim (remove c key) [ none ↦ none | some (c', _) ↦ some c' ]
step clears c = some (clear c)
step (updates_config max_size_bytes ttl) c = some (update_config c max_size_bytes ttl)

unfoldable pub run : List Section → LruCache → Option LruCache
unfolding step
run [] c = some c
run (s ∷ ss) c = elim (step s c) [ none ↦ none | some c' ↦ run ss c' ]

-- Bodies and limits are below 2 ^ 63 bytes, as on any 64-bit machine.
abbrev pub IsAdmissible : Section → Type 0
IsAdmissible (reads key now) = Unit {0}
IsAdmissible (upgrades key now) = Unit {0}
IsAdmissible (puts key body content_type now) = length body < 2 ^ 63
IsAdmissible (removes key) = Unit {0}
IsAdmissible clears = Unit {0}
IsAdmissible (updates_config max_size_bytes ttl) = max_size_bytes < 2 ^ 63

pub record IsStored (c c' : LruCache) : Type 0 where
  pub consistent : IsConsistent c'.next_addr c'.current_size_bytes c'.lru_list c'.cache_map
  pub fits : c'.current_size_bytes < u64_mod
  pub config : c'.config ≡ c.config

module _ (c : LruCache) (v : Inv c) where
  size_fits : c.current_size_bytes < u64_mod
  size_fits = omega (arith, v.bounded, v.limit)

  pub drop_node-Inv :
      (key : CacheKey) (n : Node) → find_key key c.lru_list ≡ some n → Inv (drop_node c key n)
  unfolding drop_node
  drop_node-Inv key n h = record {
    consistent = drop-IsConsistent v.consistent key n size_fits h;
    bounded = omega (
      arith,
      v.bounded,
      v.consistent.total,
      total_size-list_erase n c.lru_list (deref-find_key key n c.lru_list v.consistent.distinct h),
      sub64_exact c.current_size_bytes n.entry.size_bytes,
      size_fits,
    );
    limit = v.limit;
  }

  pub count_miss-Inv : Inv (count_miss c)
  unfolding count_miss
  count_miss-Inv = record { consistent = v.consistent; bounded = v.bounded; limit = v.limit }

  pub count_hit-Inv : Inv (count_hit c)
  unfolding count_hit
  count_hit-Inv = record { consistent = v.consistent; bounded = v.bounded; limit = v.limit }

  clear-Inv : Inv (clear c)
  unfolding clear find_key
  clear-Inv = record {
    consistent = record { agree = λ k. refl; distinct = tt; below = tt; sized = tt; total = refl };
    bounded = omega arith;
    limit = v.limit;
  }

  ideal_read-Inv : (key : CacheKey) (now : ℕ) → Inv (ideal_read c key now).0
  unfolding ideal_read
  ideal_read-Inv key now =
      if_intro (λ (r : LruCache × ReadOutcome). Inv r.0) (not c.config.enabled) (λ _. v)
        λ _.
          option_intro (λ (r : LruCache × ReadOutcome). Inv r.0) (find_key key c.lru_list) _ _
            (λ _. count_miss-Inv)
            λ n _.
              if_intro (λ (r : LruCache × ReadOutcome). Inv r.0) (is_expired c now n.entry) (λ _. v)
                (λ _. count_hit-Inv)

  ideal_upgrade-Inv : (key : CacheKey) (now : ℕ) → Inv (ideal_upgrade c key now)
  unfolding ideal_upgrade count_miss
  ideal_upgrade-Inv key now =
      option_intro Inv (find_key key c.lru_list) _ _ (λ _. count_miss-Inv)
        λ n h.
          if_intro Inv (is_expired c now n.entry)
            (λ _.
              let dropped = drop_node-Inv key n h in
              record {
                consistent = dropped.consistent;
                bounded = dropped.bounded;
                limit = dropped.limit;
              })
            (λ _. count_miss-Inv)

  ideal_remove-Inv : (key : CacheKey) → Inv (ideal_remove c key).0
  unfolding ideal_remove
  ideal_remove-Inv key =
      option_intro (λ (r : LruCache × Bool). Inv r.0) (find_key key c.lru_list) _ _ (λ _. v)
        (λ n h. drop_node-Inv key n h)

  -- Between storing and evicting, the size may be over the limit, but within a word.
  pub ideal_store-IsStored :
      (key : CacheKey) (e : CacheEntry)
      → length e.body < 2 ^ 63
      → e.size_bytes ≡ length e.body
      → IsStored c (ideal_store c key e)
  unfolding ideal_store add_new update_existing
  ideal_store-IsStored key e small sized =
      let fits : c.current_size_bytes + e.size_bytes < u64_mod =
        omega (arith, v.bounded, v.limit) in
      option_intro (IsStored c) (find_key key c.lru_list) _ _
        (λ absent. record {
          consistent = add-IsConsistent v.consistent key e absent fits sized;
          fits = add64-lt _ _;
          config = refl;
        })
        (λ n h. record {
          consistent = update-IsConsistent v.consistent key n e h size_fits fits sized;
          fits = add64-lt _ _;
          config = refl;
        })

  pub evict-Inv :
      (c' : LruCache)
      → c'.config.max_size_bytes < 2 ^ 63
      → IsConsistent c'.next_addr c'.current_size_bytes c'.lru_list c'.cache_map
      → c'.current_size_bytes < u64_mod
      → Inv (evict_if_needed c')
  evict-Inv c' small k fits =
      let (vs, r) = evict_if_needed-IsEvicted c' k fits in
      record {
        consistent = r.consistent;
        bounded = rw r.config r.bounded;
        limit = rw r.config small;
      }

  -- Every section runs to its end and keeps the invariant.
  pub step-Inv : (s : Section) → IsAdmissible s → (c' : LruCache) × (step s c ≡ some c') × Inv c'
  unfolding step new_entry update_config
  step-Inv (reads key now) a =
      ((ideal_read c key now).0, rw (get_read-ideal c v key now, step), ideal_read-Inv key now)
  step-Inv (upgrades key now) a =
      (ideal_upgrade c key now, get_upgrade-ideal c v key now, ideal_upgrade-Inv key now)
  step-Inv (puts key body content_type now) a =
      let e : CacheEntry = new_entry body content_type now in
      let stored : IsStored c (ideal_store c key e) = ideal_store-IsStored key e a refl in
      (
        evict_if_needed (ideal_store c key e),
        put_locked-ideal c v key e,
        evict-Inv (ideal_store c key e) (rw stored.config v.limit) stored.consistent stored.fits,
      )
  step-Inv (removes key) a =
      ((ideal_remove c key).0, rw (remove-ideal c v key, step), ideal_remove-Inv key)
  step-Inv clears a = (clear c, refl, clear-Inv)
  step-Inv (updates_config max_size_bytes ttl) a =
      (update_config c max_size_bytes ttl, refl, evict-Inv _ a v.consistent size_fits)

-- Any history of sections, by any number of threads, runs to its end and keeps the invariant.
pub run-Inv :
    (ss : List Section) (c : LruCache)
    → Inv c
    → All IsAdmissible ss
    → (c' : LruCache) × (run ss c ≡ some c') × Inv c'
unfolding run
run-Inv [] c v a = (c, refl, v)
run-Inv (s ∷ ss) c v a =
    let (c', e, v') = step-Inv c v s a.0 in
    let (c'', e', v'') = run-Inv ss c' v' a.1 in (c'', rw (e, run) e', v'')

pub init-Inv : (config : LruCacheConfig) → config.max_size_bytes < 2 ^ 63 → Inv (init config)
unfolding init find_key
init-Inv config h = record {
  consistent = record { agree = λ k. refl; distinct = tt; below = tt; sized = tt; total = refl };
  bounded = omega arith;
  limit = h;
}
