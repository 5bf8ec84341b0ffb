-- ===== src/Cache/Lru/Contents.antt =====
-- What a client of `LruCache` (cache/lru_cache.cpp) can read after each call.
use mathlib.Core.Path.{subst}
use ntonix.Cache.Key.{CacheKey, key_eq, key_beq_iff}
use ntonix.Cache.Lru.Evict.{evict_if_needed-IsEvicted, IsEvicted, NeedsRoom}
use ntonix.Cache.Lru.Ideal.{
  ideal_remove, remove-ideal, ideal_read, ideal_upgrade, ideal_store, get_read-ideal,
  get_upgrade-ideal, put_locked-ideal,
}
use ntonix.Cache.Lru.Invariant.{Inv}
use ntonix.Cache.Lru.Nodes.{find_key, find_key-list_erase, total_size}
use ntonix.Cache.Lru.Sections.{ideal_store-IsStored, IsStored, evict-Inv}
use ntonix.Cache.Lru.{
  CacheEntry, LruCache, Node, is_expired, nanoseconds_per_second, count_hit, count_miss, hit_result,
  get, put, drop_node, put_locked, evict_if_needed, remove, new_entry,
}
use ntonix.Common.{
  ℕ, ◌-◌, ◌/◌, ◌≡◌, ◌≢◌, ◌≤◌, ◌<◌, refl, sym, ap, ◌∙◌, Bool, true, false, ◌⊎◌, inl, inr, List, ◌∷◌,
  Option, none, some, arith, if◌then◌else◌, ◌==◌, length, add64, Text, Option-cases,
}
use ntonix.Cache.Lru.Fronts.{
  age, find_key-append, find_key-ideal_store_ne, front_stays, get_fresh, ideal_store_front,
}

module _ (c : LruCache) (v : Inv c) (key : CacheKey) (body content_type : Text) (now : ℕ)
    (on : c.config.enabled ≡ true) (fits : length body ≤ c.config.max_size_bytes) where
  put_enabled : put c key body content_type now ≡ put_locked c key (new_entry body content_type now)
  unfolding put
  put_enabled = ground arith

  stored : IsStored c (ideal_store c key (new_entry body content_type now))
  unfolding new_entry
  stored = ideal_store-IsStored c v key _ (omega (arith, v.limit)) refl

  -- Storing a body that fits never fails. It puts the entry at the front and evicts a tail of the
  -- list, no longer than the limit asks for.
  pub put_lem :
      (c' : LruCache) × (victims : List Node) × (put c key body content_type now ≡ some c')
      × IsEvicted (ideal_store c key (new_entry body content_type now)) c' victims
      × (c'.config ≡ c.config)
      × Inv c'
  put_lem =
      let e : CacheEntry = new_entry body content_type now in
      let (victims, r) =
        evict_if_needed-IsEvicted (ideal_store c key e) stored.consistent stored.fits in
      (
        evict_if_needed (ideal_store c key e),
        victims,
        rw put_enabled (put_locked-ideal c v key e),
        r,
        r.config ∙ stored.config,
        evict-Inv c v (ideal_store c key e) (rw stored.config v.limit) stored.consistent
            stored.fits,
      )

  pub put_front :
      (c' : LruCache) × (n : Node) × (rest : List Node) × (put c key body content_type now
        ≡ some c')
      × (c'.lru_list ≡ n ∷ rest)
      × (n.key ≡ key)
      × (n.entry ≡ new_entry body content_type now)
      × (c'.config ≡ c.config)
      × Inv c'
  put_front =
      let (c', victims, e, r, same, v') = put_lem in
      let (n, rest, front, at_key, entry) =
        ideal_store_front c key (new_entry body content_type now) v in
      let small : n.entry.size_bytes ≤ c.config.max_size_bytes =
        rw entry (unfold new_entry in fits) in
      let (rest', here) =
        front_stays c.config.max_size_bytes n rest c'.lru_list victims (sym front ∙ r.split)
          (subst (λ g. NeedsRoom g.max_size_bytes (total_size c'.lru_list) victims) stored.config
            r.needed)
          small in
      (c', n, rest', e, here, at_key, entry, same, v')

  -- `get` after `put`: the body and the content type come back while they are young enough.
  pub get-put :
      (now' later : ℕ)
      → (now' - now) / nanoseconds_per_second ≤ c.config.ttl
      → (c' : LruCache) × (put c key body content_type now ≡ some c')
        × (get c' key now' later
            ≡ some (count_hit c', some (hit_result now' (new_entry body content_type now))))
  get-put now' later young =
      let (c', n, rest, e, front, at_key, entry, same, v') = put_front in
      let found : find_key key c'.lru_list ≡ some n =
        unfold find_key in rw front (ground (arith, key_beq_iff n.key key)) in
      (
        c',
        e,
        rw (sym entry) (
            get_fresh c' v' key now' later n (rw same on) found
              (unfold new_entry in rw (entry, same) young)),
      )

  -- Every other key keeps its node, or has been evicted.
  pub find_key-put_ne :
      (q : CacheKey)
      → q ≢ key
      → (c' : LruCache) × (put c key body content_type now ≡ some c')
        × ((find_key q c'.lru_list ≡ find_key q c.lru_list) ⊎ (find_key q c'.lru_list ≡ none))
  find_key-put_ne q ne =
      let (c', victims, e, r, same, v') = put_lem in
      let before : find_key q (ideal_store c key (new_entry body content_type now)).lru_list
          ≡ find_key q c.lru_list =
        find_key-ideal_store_ne c key q (new_entry body content_type now) v ne in
      (
        c',
        e,
        ground (arith, find_key-append q c'.lru_list victims, ap (find_key q) r.split, before),
      )

module _ (c : LruCache) (v : Inv c) (key : CacheKey) where
  -- An entry that is too old when it is found, and still so under the exclusive lock, is a miss; its
  -- node goes, and no other key is touched.
  pub get_stale :
      (now later : ℕ) (n : Node)
      → c.config.enabled ≡ true
      → find_key key c.lru_list ≡ some n
      → c.config.ttl < age now n.entry
      → c.config.ttl < age later n.entry
      → (c' : LruCache) × (get c key now later ≡ some (c', none))
        × (c'.misses ≡ add64 c.misses 1)
        × (c'.expired ≡ add64 c.expired 1)
        × ((q : CacheKey)
            → find_key q c'.lru_list ≡ (if key == q then none else find_key q c.lru_list))
  unfolding get ideal_read ideal_upgrade is_expired drop_node count_miss
  get_stale now later n on h old old' = (
    count_miss (record (drop_node c key n) { expired = add64 c.expired 1 }),
    ground (arith, get_read-ideal c v key now, get_upgrade-ideal c v key later),
    refl,
    refl,
    λ q. find_key-list_erase key q n c.lru_list v.consistent.distinct h,
  )

  -- `remove` reports whether the key was there, and takes away this key only.
  pub find_key-remove :
      (c' : LruCache) × (removed : Bool) × (remove c key ≡ some (c', removed))
      × (removed ≡ (elim (find_key key c.lru_list) [ none ↦ false | some _ ↦ true ]))
      × ((q : CacheKey)
          → find_key q c'.lru_list ≡ (if key == q then none else find_key q c.lru_list))
  unfolding ideal_remove drop_node
  find_key-remove = elim (Option-cases (find_key key c.lru_list)) [
    | inl absent ↦ (
      c,
      false,
      ground (arith, remove-ideal c v key),
      ground arith,
      λ q. ground (arith, key_beq_iff key q),
    )
    | inr (n, there) ↦ (
      drop_node c key n,
      true,
      ground (arith, remove-ideal c v key),
      ground arith,
      λ q. find_key-list_erase key q n c.lru_list v.consistent.distinct there,
    )
  ]

  -- With the cache enabled, every lookup counts once: as a hit if it returns an entry, else as a
  -- miss.
  pub get_counts :
      (now later : ℕ) {c' : LruCache} {r : Option CacheEntry}
      → c.config.enabled ≡ true
      → get c key now later ≡ some (c', r)
      → (c'.hits ≡ (elim r [ none ↦ c.hits | some _ ↦ add64 c.hits 1 ]))
        × (c'.misses ≡ (elim r [ none ↦ add64 c.misses 1 | some _ ↦ c.misses ]))
  unfolding get ideal_read ideal_upgrade drop_node count_miss count_hit
  get_counts now later on h =
      ground (arith, get_read-ideal c v key now, get_upgrade-ideal c v key later)
