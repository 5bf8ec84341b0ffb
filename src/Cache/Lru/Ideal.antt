-- ===== src/Cache/Lru/Ideal.antt =====
-- What `LruCache` (cache/lru_cache.cpp) promises, without iterators: each operation by a search of
-- the keys in the list. Under the invariant the operations do just this.
use ntonix.Cache.Key.{CacheKey, key_eq}
use ntonix.Cache.Lru.Invariant.{Inv, resolve}
use ntonix.Cache.Lru.Nodes.{find_key}
use ntonix.Cache.Lru.{
  CacheEntry, LruCache, ReadOutcome, done, upgrade, is_expired, count_hit, count_miss, hit_result,
  get_read, get_upgrade, drop_node, add_new, update_existing, store, put_locked, evict_if_needed,
  remove,
}
use ntonix.Common.{ℕ, ◌≡◌, Bool, true, false, not, none, some, arith, if◌then◌else◌, add64}

unfoldable pub ideal_read : LruCache → CacheKey → ℕ → LruCache × ReadOutcome
ideal_read c key now =
    if not c.config.enabled then (c, done none) else elim (find_key key c.lru_list) [
      | none ↦ (count_miss c, done none)
      | some n ↦
          if is_expired c now n.entry
          then (c, upgrade)
          else (count_hit c, done (some (hit_result now n.entry)))
    ]

unfoldable pub ideal_upgrade : LruCache → CacheKey → ℕ → LruCache
ideal_upgrade c key now = elim (find_key key c.lru_list) [
  | none ↦ count_miss c
  | some n ↦
      let c' = drop_node c key n in
      if is_expired c now n.entry
      then count_miss (record c' { expired = add64 c'.expired 1 })
      else count_miss c
]

unfoldable pub ideal_store : LruCache → CacheKey → CacheEntry → LruCache
ideal_store c key entry = elim (find_key key c.lru_list) [
  | none ↦ add_new c key entry
  | some n ↦ update_existing c n entry
]

unfoldable pub ideal_remove : LruCache → CacheKey → LruCache × Bool
ideal_remove c key = elim (find_key key c.lru_list) [
  | none ↦ (c, false)
  | some n ↦ (drop_node c key n, true)
]

module _ (c : LruCache) (v : Inv c) (key : CacheKey) where
  pub get_read-ideal : (now : ℕ) → get_read c key now ≡ some (ideal_read c key now)
  unfolding get_read ideal_read
  get_read-ideal now = ground (arith, resolve v.consistent key)

  pub get_upgrade-ideal : (now : ℕ) → get_upgrade c key now ≡ some (ideal_upgrade c key now)
  unfolding get_upgrade ideal_upgrade
  get_upgrade-ideal now = ground (arith, resolve v.consistent key)

  pub store-ideal : (entry : CacheEntry) → store c key entry ≡ some (ideal_store c key entry)
  unfolding store ideal_store
  store-ideal entry = ground (arith, resolve v.consistent key)

  pub remove-ideal : remove c key ≡ some (ideal_remove c key)
  unfolding remove ideal_remove
  remove-ideal = ground (arith, resolve v.consistent key)

  pub put_locked-ideal :
      (entry : CacheEntry)
      → put_locked c key entry ≡ some (evict_if_needed (ideal_store c key entry))
  unfolding put_locked
  put_locked-ideal entry = rw (store-ideal entry, put_locked)
