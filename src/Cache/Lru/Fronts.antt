-- ===== src/Cache/Lru/Fronts.antt =====
-- What a client of `LruCache` (cache/lru_cache.cpp) reads, and what is at the front after a store.
use mathlib.Core.Path.{subst}
use ntonix.Cache.Key.{CacheKey, key_eq, key_beq_iff}
use ntonix.Cache.Lru.Evict.{NeedsRoom}
use ntonix.Cache.Lru.Ideal.{ideal_read, ideal_store, get_read-ideal}
use ntonix.Cache.Lru.Invariant.{Inv}
use ntonix.Cache.Lru.Nodes.{IsDistinct, find_key, find_key_eq, deref-find_key, total_size}
use ntonix.Cache.Lru.Touch.{
  find_key-assign_entry, assign_entry-IsDistinct, touch_node-IsSameNodes, IsSameNodes,
}
use ntonix.Cache.Lru.{
  CacheEntry, LruCache, Node, deref, list_erase, is_expired, nanoseconds_per_second, count_hit,
  hit_result, get, add_new, update_existing, touch_node, assign_entry,
}
use ntonix.Common.{
  ℕ, ◌-◌, ◌/◌, ◌≡◌, ◌≢◌, ◌≤◌, ◌<◌, refl, sym, ◌∙◌, true, ◌⊎◌, inl, inr, List, [], ◌∷◌, ◌++◌, none,
  some, arith, if◌then◌else◌, ◌==◌, nat_beq, Bool-cases, Option-cases,
}

-- The age of an entry in whole seconds
abbrev pub age : ℕ → CacheEntry → ℕ
age now e = (now - e.created_at) / nanoseconds_per_second

module _ (c : LruCache) (v : Inv c) (key : CacheKey) (now later : ℕ) where
  -- A stored entry that is young enough is returned, and only the hit counter changes.
  pub get_fresh :
      (n : Node)
      → c.config.enabled ≡ true
      → find_key key c.lru_list ≡ some n
      → age now n.entry ≤ c.config.ttl
      → get c key now later ≡ some (count_hit c, some (hit_result now n.entry))
  unfolding get ideal_read is_expired
  get_fresh n on h young = ground (arith, get_read-ideal c v key now)

  -- What is returned is stored and young enough.
  pub get_sound :
      {c' : LruCache} {e : CacheEntry}
      → get c key now later ≡ some (c', some e)
      → (n : Node) × (find_key key c.lru_list ≡ some n)
        × (e ≡ hit_result now n.entry)
        × (age now n.entry ≤ c.config.ttl)
        × (c.config.enabled ≡ true)
        × (c' ≡ count_hit c)
  unfolding get ideal_read is_expired
  get_sound h = elim (Option-cases (find_key key c.lru_list)) [
    | inl absent ↦ absurd (ground (arith, get_read-ideal c v key now))
    | inr (n, there) ↦ (
      n,
      there,
      ground (arith, get_read-ideal c v key now),
      ground (arith, get_read-ideal c v key now),
      ground (arith, get_read-ideal c v key now),
      ground (arith, get_read-ideal c v key now),
    )
  ]

-- `touch_node` puts the node at the front.
touch_node_front :
    (n : Node) (l : List Node)
    → deref n.addr l ≡ some n
    → (rest : List Node) × (touch_node n.addr l ≡ n ∷ rest)
unfolding touch_node deref
touch_node_front n [] h = cc
touch_node_front n (m ∷ l) h = elim (Bool-cases (nat_beq m.addr n.addr)) [
  | inl here ↦ (l, ground arith)
  | inr later ↦ (list_erase n.addr (m ∷ l), ground arith)
]

-- After storing, the entry is at the front under its key.
pub ideal_store_front :
    (c : LruCache) (key : CacheKey) (e : CacheEntry)
    → Inv c
    → (n : Node) × (rest : List Node) × ((ideal_store c key e).lru_list ≡ n ∷ rest)
      × (n.key ≡ key)
      × (n.entry ≡ e)
unfolding ideal_store add_new update_existing
ideal_store_front c key e v = elim (Option-cases (find_key key c.lru_list)) [
  | inl absent ↦ (
    record { addr = c.next_addr; key = key; entry = e },
    c.lru_list,
    rw (absent, ideal_store),
    refl,
    refl,
  )
  | inr (n, there) ↦
      let l = c.lru_list in
      let written : Node = record n { entry = e } in
      let distinct : IsDistinct (assign_entry n.addr e l) =
        assign_entry-IsDistinct n.addr e l v.consistent.distinct in
      let found : find_key key (assign_entry n.addr e l) ≡ some written = ground (
        arith,
        find_key-assign_entry key key n e l v.consistent.distinct there,
        key_beq_iff key key,
      ) in
      let (rest, front) =
        touch_node_front written (assign_entry n.addr e l)
          (deref-find_key key written (assign_entry n.addr e l) distinct found) in
      (written, rest, rw (there, ideal_store) front, find_key_eq key n l there, refl)
]

-- Eviction never takes a front entry that fits by itself.
pub front_stays :
    (max : ℕ) (n : Node) (rest kept victims : List Node)
    → n ∷ rest ≡ kept ++ victims
    → NeedsRoom max (total_size kept) victims
    → n.entry.size_bytes ≤ max
    → (rest' : List Node) × (kept ≡ n ∷ rest')
front_stays max n rest [] victims e room fits =
    let room' : max < n.entry.size_bytes =
      let moved : NeedsRoom max 0 (n ∷ rest) = subst (NeedsRoom max 0) (sym e) room in
      omega arith in
    absurd (omega arith)
front_stays max n rest (m ∷ kept) victims e room fits = (kept, ground arith)

pub find_key-append :
    (q : CacheKey) (l l' : List Node)
    → (find_key q l ≡ find_key q (l ++ l')) ⊎ (find_key q l ≡ none)
unfolding find_key
find_key-append q [] l' = inr refl
find_key-append q (n ∷ l) l' = ground (arith, find_key-append q l l')

pub find_key-ideal_store_ne :
    (c : LruCache) (key q : CacheKey) (e : CacheEntry)
    → Inv c
    → q ≢ key
    → find_key q (ideal_store c key e).lru_list ≡ find_key q c.lru_list
unfolding ideal_store add_new update_existing find_key
find_key-ideal_store_ne c key q e v ne = elim (Option-cases (find_key key c.lru_list)) [
  | inl absent ↦ ground (arith, key_beq_iff key q)
  | inr (n, there) ↦
      let l' = assign_entry n.addr e c.lru_list in
      let written : find_key q l'
          ≡ (if key == q then some (record n { entry = e }) else find_key q c.lru_list) =
        find_key-assign_entry key q n e c.lru_list v.consistent.distinct there in
      let found : find_key key l' ≡ some (record n { entry = e }) = ground (
        arith,
        find_key-assign_entry key key n e c.lru_list v.consistent.distinct there,
        key_beq_iff key key,
      ) in
      let same : IsSameNodes l' (touch_node n.addr l') =
        touch_node-IsSameNodes key (record n { entry = e }) l'
          (assign_entry-IsDistinct n.addr e c.lru_list v.consistent.distinct) found in
      rw (there, ideal_store) (same.finds q ∙ ground (arith, key_beq_iff key q))
]
