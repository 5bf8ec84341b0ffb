-- ===== src/Cache/Lru/Touch.antt =====
-- Facts on writing through an iterator and on `touch_node` (cache/lru_cache.cpp).
use mathlib.Core.Path.{subst}
use ntonix.Cache.Key.{CacheKey, key_eq, key_beq_iff}
use ntonix.Cache.Lru.Nodes.{
  find_key, IsFresh, IsDistinct, total_size, find_key-All, find_key_eq, deref-find_key,
  find_key-list_erase, All-list_erase, list_erase-IsDistinct, total_size-list_erase,
}
use ntonix.Cache.Lru.{CacheEntry, Node, deref, list_erase, assign_entry, touch_node}
use ntonix.Common.{
  ℕ, ◌+◌, ◌≡◌, refl, ◌≢◌, List, [], ◌∷◌, some, arith, if◌then◌else◌, ◌==◌, nat_beq, All, Bool-cases,
  inl, inr, ◌⊎◌, false, true, sym,
}

fresh_addr :
    (k : CacheKey) (n m : Node) (l : List Node)
    → find_key k l ≡ some n
    → IsFresh m l
    → n.addr ≢ m.addr
fresh_addr k n m l h f = (find_key-All (λ x. (x.addr ≢ m.addr) × (x.key ≢ m.key)) k n l h f).0

pub find_key-assign_entry :
    (k q : CacheKey) (n : Node) (e : CacheEntry) (l : List Node)
    → IsDistinct l
    → find_key k l ≡ some n
    → find_key q (assign_entry n.addr e l)
      ≡ (if k == q then some (record n { entry = e }) else find_key q l)
unfolding find_key assign_entry
find_key-assign_entry k q n e [] d h = cc
find_key-assign_entry k q n e (m ∷ l) d h = elim (Bool-cases (m.key == k)) [
  | inl here ↦ ground (arith, key_beq_iff m.key k, key_beq_iff k q, key_beq_iff m.key q)
  | inr later ↦ ground (
    arith,
    key_beq_iff m.key k,
    key_beq_iff k q,
    key_beq_iff m.key q,
    find_key-assign_entry k q n e l d.1,
    fresh_addr k n m l (ground arith) d.0,
  )
]

-- A predicate that holds of the nodes, and of the written node, holds after the write.
pub All-assign_entry {ℓ} :
    (P : Node → Type ℓ) (a : ℕ) (e : CacheEntry) (l : List Node)
    → ((n : Node) → P n → P (record n { entry = e }))
    → All P l
    → All P (assign_entry a e l)
unfolding assign_entry
All-assign_entry P a e [] f h = tt
All-assign_entry P a e (m ∷ l) f h = elim (Bool-cases (nat_beq m.addr a)) [
  | inl eq ↦ rw (eq, assign_entry) (f m h.0, h.1)
  | inr ne ↦ rw (ne, assign_entry) (h.0, All-assign_entry P a e l f h.1)
]

pub assign_entry-IsDistinct :
    (a : ℕ) (e : CacheEntry) (l : List Node) → IsDistinct l → IsDistinct (assign_entry a e l)
unfolding assign_entry
assign_entry-IsDistinct a e [] d = tt
assign_entry-IsDistinct a e (m ∷ l) d = elim (Bool-cases (nat_beq m.addr a)) [
  | inl eq ↦ rw (eq, assign_entry) d
  | inr ne ↦
      rw (ne, assign_entry)
        (
          All-assign_entry (λ x. (x.addr ≢ m.addr) × (x.key ≢ m.key)) a e l (λ n h. h) d.0,
          assign_entry-IsDistinct a e l d.1,
        )
]

pub total_size-assign_entry :
    (n : Node) (e : CacheEntry) (l : List Node)
    → deref n.addr l ≡ some n
    → total_size (assign_entry n.addr e l) + n.entry.size_bytes ≡ total_size l + e.size_bytes
unfolding deref assign_entry
total_size-assign_entry n e [] h = cc
total_size-assign_entry n e (m ∷ l) h = ground (arith, total_size-assign_entry n e l)

-- `touch_node` at the node of a key, in one of two shapes
pub touch_node_lem :
    (k : CacheKey) (n : Node) (l : List Node)
    → IsDistinct l
    → find_key k l ≡ some n
    → (touch_node n.addr l ≡ l) ⊎ (touch_node n.addr l ≡ n ∷ list_erase n.addr l)
unfolding touch_node
touch_node_lem k n [] d h = inl refl
touch_node_lem k n (m ∷ l) d h = elim (Bool-cases (nat_beq m.addr n.addr)) [
  | inl here ↦ inl (rw (here, touch_node))
  | inr later ↦ inr (ground (arith, deref-find_key k n (m ∷ l) d h))
]

-- What the list holds is the same after a move to the front.
pub record IsSameNodes (l l' : List Node) : Type 1 where
  pub finds : (q : CacheKey) → find_key q l' ≡ find_key q l
  pub distinct : IsDistinct l'
  pub total : total_size l' ≡ total_size l
  pub keeps : (P : Node → Type 0) → All P l → All P l'

erase-IsFresh :
    (k : CacheKey) (n : Node) (l : List Node)
    → IsDistinct l
    → find_key k l ≡ some n
    → IsFresh n (list_erase n.addr l)
unfolding find_key list_erase
erase-IsFresh k n [] d h = cc
erase-IsFresh k n (m ∷ l) d h = elim (Bool-cases (m.key == k)) [
  | inl here ↦
      let e : m ≡ n = ground arith in
      let first : nat_beq m.addr m.addr ≡ true = ground arith in
      subst (λ x. IsFresh x (list_erase x.addr (m ∷ l))) e (rw (first, list_erase) d.0)
  | inr later ↦
      let found : find_key k l ≡ some n = ground arith in
      let apart : n.addr ≢ m.addr = fresh_addr k n m l found d.0 in
      let other : nat_beq m.addr n.addr ≡ false = ground arith in
      rw (other, list_erase)
        (
          (λ e. apart (sym e), λ e. ground (arith, key_beq_iff m.key k, find_key_eq k n l found)),
          erase-IsFresh k n l d.1 found,
        )
]

finds_moved :
    (k q : CacheKey) (n : Node) (l : List Node)
    → IsDistinct l
    → find_key k l ≡ some n
    → find_key q (n ∷ list_erase n.addr l) ≡ find_key q l
unfolding find_key
finds_moved k q n l d h = ground (
  arith,
  key_beq_iff n.key q,
  key_beq_iff k q,
  find_key_eq k n l h,
  find_key-list_erase k q n l d h,
)

pub touch_node-IsSameNodes :
    (k : CacheKey) (n : Node) (l : List Node)
    → IsDistinct l
    → find_key k l ≡ some n
    → IsSameNodes l (touch_node n.addr l)
touch_node-IsSameNodes k n l d h = elim (touch_node_lem k n l d h) [
  | inl same ↦ rw same (record { finds = λ q. refl; distinct = d; total = refl; keeps = λ P a. a })
  | inr moved ↦ rw moved (record {
    finds = λ q. finds_moved k q n l d h;
    distinct = (erase-IsFresh k n l d h, list_erase-IsDistinct n.addr l d);
    total = omega (arith, total_size-list_erase n l (deref-find_key k n l d h));
    keeps = λ P a. (find_key-All P k n l h a, All-list_erase P n.addr l a);
  })
]
