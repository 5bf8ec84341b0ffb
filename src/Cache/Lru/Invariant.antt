-- ===== src/Cache/Lru/Invariant.antt =====
-- The invariant of `LruCache` (cache/lru_cache.{hpp,cpp}): the map's iterators and the list agree,
-- the byte count is exact, and every operation keeps it so and follows no dangling iterator.
use ntonix.Cache.Key.{CacheKey, key_eq, key_beq_iff}
use ntonix.Cache.Lru.Nodes.{
  find_key, IsFresh, IsDistinct, total_size, deref-find_key, find_key-list_erase, All-list_erase,
  list_erase-IsDistinct, total_size-list_erase,
}
use ntonix.Cache.Lru.Touch.{
  find_key-assign_entry, All-assign_entry, assign_entry-IsDistinct, total_size-assign_entry,
  touch_node-IsSameNodes, IsSameNodes,
}
use ntonix.Cache.Lru.{CacheEntry, Node, LruCache, deref, list_erase, assign_entry, touch_node}
use ntonix.Common.Map.{find, assign, erase, find-assign, find-erase}
use ntonix.Common.{
  ℕ, suc, ◌+◌, ◌≡◌, ◌≤◌, ◌<◌, ◌^◌, refl, List, [], ◌∷◌, Option, none, some, arith, ◌-◌, ◌⊎◌, inl,
  inr, Option-cases, All, All-mono, length, u64_mod, add64, sub64, add64_exact, sub64_exact,
}

abbrev pub addr_of : Option Node → Option ℕ
addr_of none = none
addr_of (some n) = some n.addr

pub record IsConsistent (next size : ℕ) (l : List Node) (m : List (CacheKey × ℕ)) : Type 0 where
  pub agree : (k : CacheKey) → find k m ≡ addr_of (find_key k l)
  pub distinct : IsDistinct l
  pub below : All (λ n. n.addr < next) l
  pub sized : All (λ n. n.entry.size_bytes ≡ length n.entry.body) l
  pub total : size ≡ total_size l

size-le-total :
    (k : CacheKey) (n : Node) (l : List Node)
    → IsDistinct l
    → find_key k l ≡ some n
    → n.entry.size_bytes ≤ total_size l
size-le-total k n l d h = omega (arith, total_size-list_erase n l (deref-find_key k n l d h))

module _ {next size : ℕ} {l : List Node} {m : List (CacheKey × ℕ)}
    (v : IsConsistent next size l m) where
  pub drop-IsConsistent :
      (k : CacheKey) (n : Node)
      → size < u64_mod
      → find_key k l ≡ some n
      → IsConsistent next (sub64 size n.entry.size_bytes) (list_erase n.addr l) (erase k m)
  drop-IsConsistent k n fits h = record {
    agree =
        λ q. ground (arith, find-erase k q m, v.agree q, find_key-list_erase k q n l v.distinct h);
    distinct = list_erase-IsDistinct n.addr l v.distinct;
    below = All-list_erase (λ x. x.addr < next) n.addr l v.below;
    sized = All-list_erase (λ x. x.entry.size_bytes ≡ length x.entry.body) n.addr l v.sized;
    total = omega (
      arith,
      v.total,
      total_size-list_erase n l (deref-find_key k n l v.distinct h),
      sub64_exact size n.entry.size_bytes,
    );
  }

IsFresh-node :
    (next : ℕ) (n : Node) (l : List Node)
    → n.addr ≡ next
    → All (λ x. x.addr < next) l
    → find_key n.key l ≡ none
    → IsFresh n l
unfolding find_key
IsFresh-node next n [] e b h = tt
IsFresh-node next n (x ∷ l) e b h = (
  (λ p. omega (arith, b.0), λ p. ground (arith, key_beq_iff x.key n.key)),
  IsFresh-node next n l e b.1 (ground (arith, key_beq_iff x.key n.key)),
)

module _ {next size : ℕ} {l : List Node} {m : List (CacheKey × ℕ)}
    (v : IsConsistent next size l m) where
  pub add-IsConsistent :
      (k : CacheKey) (e : CacheEntry)
      → find_key k l ≡ none
      → size + e.size_bytes < u64_mod
      → e.size_bytes ≡ length e.body
      → IsConsistent
          (suc next)
          (add64 size e.size_bytes)
          (record { addr = next; key = k; entry = e } ∷ l)
          (assign k next m)
  unfolding find_key
  add-IsConsistent k e absent fits sized = record {
    agree = λ q. ground (arith, find-assign k q next m, v.agree q);
    distinct = (
      IsFresh-node next (record { addr = next; key = k; entry = e }) l refl v.below absent,
      v.distinct,
    );
    below = (
      omega arith,
      All-mono (λ x. x.addr < next) (λ x. x.addr < suc next) l (λ x h. omega arith) v.below,
    );
    sized = (sized, v.sized);
    total = omega (arith, v.total, add64_exact size e.size_bytes);
  }

module _ {next size : ℕ} {l : List Node} {m : List (CacheKey × ℕ)}
    (v : IsConsistent next size l m) where
  written-IsConsistent :
      (k : CacheKey) (n : Node) (e : CacheEntry)
      → find_key k l ≡ some n
      → size < u64_mod
      → size + e.size_bytes < u64_mod
      → e.size_bytes ≡ length e.body
      → IsConsistent next
          (add64 (sub64 size n.entry.size_bytes) e.size_bytes)
          (assign_entry n.addr e l)
          m
  written-IsConsistent k n e h fits fits' sized =
      let there : deref n.addr l ≡ some n = deref-find_key k n l v.distinct h in
      let small : n.entry.size_bytes ≤ total_size l = size-le-total k n l v.distinct h in
      let less : sub64 size n.entry.size_bytes ≡ size - n.entry.size_bytes =
        sub64_exact size n.entry.size_bytes (omega (arith, v.total)) fits in
      record {
        agree = λ q.
            ground
              (arith, v.agree q, find_key-assign_entry k q n e l v.distinct h, key_beq_iff k q);
        distinct = assign_entry-IsDistinct n.addr e l v.distinct;
        below = All-assign_entry (λ x. x.addr < next) n.addr e l (λ x b. b) v.below;
        sized =
            All-assign_entry (λ x. x.entry.size_bytes ≡ length x.entry.body) n.addr e l
              (λ x b. sized) v.sized;
        total = omega (
          arith,
          v.total,
          less,
          total_size-assign_entry n e l there,
          add64_exact (sub64 size n.entry.size_bytes) e.size_bytes,
        );
      }

module _ {next size : ℕ} {l : List Node} {m : List (CacheKey × ℕ)}
    (v : IsConsistent next size l m) where
  touch-IsConsistent :
      (k : CacheKey) (n : Node)
      → find_key k l ≡ some n
      → IsConsistent next size (touch_node n.addr l) m
  touch-IsConsistent k n h =
      let same : IsSameNodes l (touch_node n.addr l) = touch_node-IsSameNodes k n l v.distinct h in
      record {
        agree = λ q. rw (same.finds q) (v.agree q);
        distinct = same.distinct;
        below = same.keeps (λ x. x.addr < next) v.below;
        sized = same.keeps (λ x. x.entry.size_bytes ≡ length x.entry.body) v.sized;
        total = rw same.total v.total;
      }

module _ {next size : ℕ} {l : List Node} {m : List (CacheKey × ℕ)}
    (v : IsConsistent next size l m) where
  pub update-IsConsistent :
      (k : CacheKey) (n : Node) (e : CacheEntry)
      → find_key k l ≡ some n
      → size < u64_mod
      → size + e.size_bytes < u64_mod
      → e.size_bytes ≡ length e.body
      → IsConsistent next
          (add64 (sub64 size n.entry.size_bytes) e.size_bytes)
          (touch_node n.addr (assign_entry n.addr e l))
          m
  update-IsConsistent k n e h fits fits' sized =
      touch-IsConsistent (written-IsConsistent v k n e h fits fits' sized) k
        (record n { entry = e })
        (ground (arith, find_key-assign_entry k k n e l v.distinct h, key_beq_iff k k))

  -- Following the map's iterator for a key finds the node of that key, or the key has none.
  pub resolve :
      (k : CacheKey)
      → ((find k m ≡ none) × (find_key k l ≡ none))
        ⊎ ((n : Node) × (find k m ≡ some n.addr)
            × (deref n.addr l ≡ some n)
            × (find_key k l ≡ some n))
  resolve k = elim (Option-cases (find_key k l)) [
    | inl absent ↦ inl (ground (arith, v.agree k), absent)
    | inr (n, there) ↦
        inr (n, ground (arith, v.agree k), deref-find_key k n l v.distinct there, there)
  ]

-- The cache as a whole; a size limit below 2 ^ 63 keeps every sum of two sizes within a word.
pub record Inv (c : LruCache) : Type 0 where
  pub consistent : IsConsistent c.next_addr c.current_size_bytes c.lru_list c.cache_map
  pub bounded : c.current_size_bytes ≤ c.config.max_size_bytes
  pub limit : c.config.max_size_bytes < 2 ^ 63
