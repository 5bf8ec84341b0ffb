-- ===== src/Cache/Lru/Nodes.antt =====
-- Facts on the node list of the cache (cache/lru_cache.cpp): what a list whose nodes have distinct
-- addresses and keys finds after each of the list operations.
use mathlib.Core.Path.{subst}
use ntonix.Cache.Key.{CacheKey, key_eq, key_beq_iff}
use ntonix.Cache.Lru.{Node, deref, list_erase, back, pop_back}
use ntonix.Common.{
  ℕ, ◌+◌, ◌≡◌, refl, ◌≢◌, List, [], ◌∷◌, Option, none, some, arith, if◌then◌else◌, ◌==◌, nat_beq,
  All, All-mono, Bool-cases, inl, inr, sym,
}

unfoldable pub find_key : CacheKey → List Node → Option Node
find_key k [] = none
find_key k (n ∷ l) = if n.key == k then some n else find_key k l

abbrev pub IsFresh : Node → List Node → Type 0
IsFresh n l = All (λ m. (m.addr ≢ n.addr) × (m.key ≢ n.key)) l

abbrev pub IsDistinct : List Node → Type 0
IsDistinct [] = Unit {0}
IsDistinct (n ∷ l) = IsFresh n l × IsDistinct l

abbrev pub total_size : List Node → ℕ
total_size [] = 0
total_size (n ∷ l) = n.entry.size_bytes + total_size l

pub find_key-All {ℓ} :
    (P : Node → Type ℓ) (k : CacheKey) (n : Node) (l : List Node)
    → find_key k l ≡ some n
    → All P l
    → P n
unfolding find_key
find_key-All P k n [] h a = cc
find_key-All P k n (m ∷ l) h a = elim (Bool-cases (m.key == k)) [
  | inl e ↦ subst P (ground arith) a.0
  | inr e ↦ find_key-All P k n l (ground arith) a.1
]

pub back-All {ℓ} : (P : Node → Type ℓ) (n : Node) (l : List Node) → back l ≡ some n → All P l → P n
unfolding back
back-All P n [] h a = cc
back-All P n (m ∷ []) h a = subst P (ground arith) a.0
back-All P n (m ∷ m' ∷ l) h a = back-All P n (m' ∷ l) h a.1

pub find_key_eq : (k : CacheKey) (n : Node) (l : List Node) → find_key k l ≡ some n → n.key ≡ k
unfolding find_key
find_key_eq k n [] h = cc
find_key_eq k n (m ∷ l) h = ground (arith, key_beq_iff m.key k, find_key_eq k n l)

pub find_key_absent : (k : CacheKey) (l : List Node) → All (λ m. m.key ≢ k) l → find_key k l ≡ none
unfolding find_key
find_key_absent k [] a = refl
find_key_absent k (m ∷ l) a = ground (arith, key_beq_iff m.key k, find_key_absent k l)

fresh_key : (n : Node) (l : List Node) → IsFresh n l → find_key n.key l ≡ none
fresh_key n l f =
    find_key_absent n.key l
      (All-mono (λ m. (m.addr ≢ n.addr) × (m.key ≢ n.key)) (λ m. m.key ≢ n.key) l (λ m h. h.1) f)

fresh_addr :
    (k : CacheKey) (n m : Node) (l : List Node)
    → find_key k l ≡ some n
    → IsFresh m l
    → n.addr ≢ m.addr
fresh_addr k n m l h f = (find_key-All (λ x. (x.addr ≢ m.addr) × (x.key ≢ m.key)) k n l h f).0

-- An iterator that the map would keep for a key leads to the node of that key.
pub deref-find_key :
    (k : CacheKey) (n : Node) (l : List Node)
    → IsDistinct l
    → find_key k l ≡ some n
    → deref n.addr l ≡ some n
unfolding find_key deref
deref-find_key k n [] d h = cc
deref-find_key k n (m ∷ l) d h = elim (Bool-cases (m.key == k)) [
  | inl e ↦ ground arith
  | inr e ↦ ground (arith, deref-find_key k n l d.1, fresh_addr k n m l (ground arith) d.0)
]

pub find_key-list_erase :
    (k q : CacheKey) (n : Node) (l : List Node)
    → IsDistinct l
    → find_key k l ≡ some n
    → find_key q (list_erase n.addr l) ≡ (if k == q then none else find_key q l)
unfolding find_key list_erase
find_key-list_erase k q n [] d h = cc
find_key-list_erase k q n (m ∷ l) d h = elim (Bool-cases (m.key == k)) [
  | inl e ↦
      ground (arith, key_beq_iff m.key k, key_beq_iff k q, key_beq_iff m.key q, fresh_key m l d.0)
  | inr e ↦ ground (
    arith,
    key_beq_iff m.key k,
    key_beq_iff k q,
    key_beq_iff m.key q,
    find_key-list_erase k q n l d.1,
    fresh_addr k n m l (ground arith) d.0,
  )
]

pub All-list_erase {ℓ} :
    (P : Node → Type ℓ) (a : ℕ) (l : List Node) → All P l → All P (list_erase a l)
unfolding list_erase
All-list_erase P a [] h = tt
All-list_erase P a (m ∷ l) h = elim (Bool-cases (nat_beq m.addr a)) [
  | inl e ↦ rw (e, list_erase) h.1
  | inr e ↦ rw (e, list_erase) (h.0, All-list_erase P a l h.1)
]

pub list_erase-IsDistinct : (a : ℕ) (l : List Node) → IsDistinct l → IsDistinct (list_erase a l)
unfolding list_erase
list_erase-IsDistinct a [] d = tt
list_erase-IsDistinct a (m ∷ l) d = elim (Bool-cases (nat_beq m.addr a)) [
  | inl e ↦ rw (e, list_erase) d.1
  | inr e ↦
      rw (e, list_erase)
        (
          All-list_erase (λ x. (x.addr ≢ m.addr) × (x.key ≢ m.key)) a l d.0,
          list_erase-IsDistinct a l d.1,
        )
]

pub total_size-list_erase :
    (n : Node) (l : List Node)
    → deref n.addr l ≡ some n
    → total_size (list_erase n.addr l) + n.entry.size_bytes ≡ total_size l
unfolding deref list_erase
total_size-list_erase n [] h = cc
total_size-list_erase n (m ∷ l) h = ground (arith, total_size-list_erase n l)

-- The last node, seen as the node of its key: `pop_back` erases it.
pub find_key-back :
    (n : Node) (l : List Node) → IsDistinct l → back l ≡ some n → find_key n.key l ≡ some n
unfolding back find_key
find_key-back n [] d h = cc
find_key-back n (m ∷ []) d h = ground (arith, key_beq_iff m.key n.key)
find_key-back n (m ∷ m' ∷ l) d h =
    let differs : m.key ≢ n.key =
      λ e. (back-All (λ x. (x.addr ≢ m.addr) × (x.key ≢ m.key)) n (m' ∷ l) h d.0).1 (sym e) in
    let ih : find_key n.key (m' ∷ l) ≡ some n = find_key-back n (m' ∷ l) d.1 h in
    ground (arith, key_beq_iff m.key n.key, ih)

pub pop_back-list_erase :
    (n : Node) (l : List Node) → IsDistinct l → back l ≡ some n → pop_back l ≡ list_erase n.addr l
unfolding back pop_back list_erase
pop_back-list_erase n [] d h = refl
pop_back-list_erase n (m ∷ []) d h = ground arith
pop_back-list_erase n (m ∷ m' ∷ l) d h =
    let differs : n.addr ≢ m.addr =
      (back-All (λ x. (x.addr ≢ m.addr) × (x.key ≢ m.key)) n (m' ∷ l) h d.0).0 in
    let ih : pop_back (m' ∷ l) ≡ list_erase n.addr (m' ∷ l) =
      pop_back-list_erase n (m' ∷ l) d.1 h in
    ground (arith, ih)
