-- ===== src/Cache/Lru/Evict.antt =====
-- The loop of `LruCache::evict_if_needed` (cache/lru_cache.cpp).
use mathlib.Core.List.{append-nil, append_assoc}
use ntonix.Cache.Key.{key_eq}
use ntonix.Cache.Lru.Invariant.{IsConsistent, drop-IsConsistent}
use ntonix.Cache.Lru.Nodes.{
  find_key, total_size, deref-find_key, find_key-back, pop_back-list_erase, total_size-list_erase,
}
use ntonix.Cache.Lru.{Node, LruCache, back, pop_back, evict_back, evict_loop, evict_if_needed}
use ntonix.Common.{
  ℕ, zero, suc, ◌+◌, ◌≡◌, ◌≤◌, ◌<◌, refl, sym, ap, ◌∙◌, inl, inr, List, [], ◌∷◌, ◌++◌, none, some,
  arith, ltb, ltb→lt, true, false, length, u64_mod, sub64_exact, Option-cases, Bool-cases,
}

pub pop_back-back : (n : Node) (l : List Node) → back l ≡ some n → l ≡ pop_back l ++ n ∷ []
unfolding back pop_back
pop_back-back n [] h = cc
pop_back-back n (m ∷ []) h = ground arith
pop_back-back n (m ∷ m' ∷ l) h = ap (◌∷◌ m) (pop_back-back n (m' ∷ l) h)

length-pop_back :
    (n : Node) (l : List Node) → back l ≡ some n → length l ≡ suc (length (pop_back l))
unfolding back pop_back
length-pop_back n [] h = cc
length-pop_back n (m ∷ []) h = refl
length-pop_back n (m ∷ m' ∷ l) h = ap suc (length-pop_back n (m' ∷ l) h)

back-none : (l : List Node) → back l ≡ none → l ≡ []
unfolding back
back-none [] h = refl
back-none (m ∷ []) h = cc
back-none (m ∷ m' ∷ l) h = absurd (nonempty m' l h)
  where
    nonempty : (m' : Node) (l : List Node) → back (m' ∷ l) ≡ none → ⊥
    nonempty m' [] h = cc
    nonempty m' (m'' ∷ l) h = nonempty m'' l h

-- The first victim did not fit beside what stays.
abbrev pub NeedsRoom : ℕ → ℕ → List Node → Type 0
NeedsRoom max kept [] = Unit {0}
NeedsRoom max kept (v ∷ vs) = max < kept + v.entry.size_bytes

NeedsRoom-append :
    (max kept : ℕ) (vs : List Node) (n : Node)
    → NeedsRoom max kept vs
    → (vs ≡ [] → max < kept + n.entry.size_bytes)
    → NeedsRoom max kept (vs ++ n ∷ [])
NeedsRoom-append max kept [] n h last = last refl
NeedsRoom-append max kept (v ∷ vs) n h last = h

-- What eviction leaves: a prefix of the list, within the limit, that is as long as the limit allows.
pub record IsEvicted (c c' : LruCache) (victims : List Node) : Type 0 where
  pub consistent : IsConsistent c'.next_addr c'.current_size_bytes c'.lru_list c'.cache_map
  pub bounded : c'.current_size_bytes ≤ c.config.max_size_bytes
  pub config : c'.config ≡ c.config
  pub split : c.lru_list ≡ c'.lru_list ++ victims
  pub needed : NeedsRoom c.config.max_size_bytes (total_size c'.lru_list) victims

module _ (c : LruCache) (n : Node)
    (v : IsConsistent c.next_addr c.current_size_bytes c.lru_list c.cache_map)
    (fits : c.current_size_bytes < u64_mod) (last : back c.lru_list ≡ some n) where
  evict_back-IsConsistent :
      IsConsistent
        (evict_back c n).next_addr
        (evict_back c n).current_size_bytes
        (evict_back c n).lru_list
        (evict_back c n).cache_map
  unfolding evict_back
  evict_back-IsConsistent =
      rw (pop_back-list_erase n c.lru_list v.distinct last)
        (drop-IsConsistent v n.key n fits (find_key-back n c.lru_list v.distinct last))

  evict_back-size : (evict_back c n).current_size_bytes + n.entry.size_bytes ≡ c.current_size_bytes
  unfolding evict_back
  evict_back-size =
      let there : find_key n.key c.lru_list ≡ some n = find_key-back n c.lru_list v.distinct last in
      omega (
        arith,
        v.total,
        total_size-list_erase n c.lru_list (deref-find_key n.key n c.lru_list v.distinct there),
        sub64_exact c.current_size_bytes n.entry.size_bytes,
      )

stays :
    (c : LruCache)
    → IsConsistent c.next_addr c.current_size_bytes c.lru_list c.cache_map
    → c.current_size_bytes ≤ c.config.max_size_bytes
    → IsEvicted c c []
stays c v h = record {
  consistent = v;
  bounded = h;
  config = refl;
  split = sym (append-nil c.lru_list);
  needed = tt;
}

-- An empty list is within any limit.
empty_bounded :
    (c : LruCache)
    → IsConsistent c.next_addr c.current_size_bytes c.lru_list c.cache_map
    → c.lru_list ≡ []
    → c.current_size_bytes ≤ c.config.max_size_bytes
empty_bounded c v e = omega (arith, v.total, ap total_size e)

length-eq_zero : (l : List Node) → length l ≤ 0 → l ≡ []
length-eq_zero [] h = refl
length-eq_zero (n ∷ l) h = absurd (omega arith)

module _ (fuel : ℕ) (c : LruCache) where
  loop_empty : back c.lru_list ≡ none → evict_loop (suc fuel) c ≡ c
  unfolding evict_loop
  loop_empty e = rw (e, evict_loop)

  module _ (n : Node) (last : back c.lru_list ≡ some n) where
    loop_stop :
        ltb c.config.max_size_bytes c.current_size_bytes ≡ false → evict_loop (suc fuel) c ≡ c
    unfolding evict_loop
    loop_stop e = rw (last, evict_loop) (rw e)

    loop_more :
        ltb c.config.max_size_bytes c.current_size_bytes ≡ true
        → evict_loop (suc fuel) c ≡ evict_loop fuel (evict_back c n)
    unfolding evict_loop
    loop_more e = rw (last, evict_loop) (rw e)

    loop_round :
        (c' : LruCache) (victims : List Node)
        → IsConsistent c.next_addr c.current_size_bytes c.lru_list c.cache_map
        → c.current_size_bytes < u64_mod
        → c.config.max_size_bytes < c.current_size_bytes
        → IsEvicted (evict_back c n) c' victims
        → IsEvicted c c' (victims ++ n ∷ [])
    unfolding evict_back
    loop_round c' victims v fits over r = record {
      consistent = r.consistent;
      bounded = r.bounded;
      config = r.config;
      split =
          pop_back-back n c.lru_list last
          ∙ ap (λ l. l ++ n ∷ []) r.split
          ∙ append_assoc c'.lru_list victims (n ∷ []);
      needed =
          NeedsRoom-append c.config.max_size_bytes (total_size c'.lru_list) victims n r.needed
            (λ none_yet. omega (
              arith,
              v.total,
              (evict_back-IsConsistent c n v fits last).total,
              evict_back-size c n v fits last,
              ap total_size (r.split ∙ ap (◌++◌ c'.lru_list) none_yet ∙ append-nil c'.lru_list),
            ));
    }

-- With one unit of fuel for each node the loop ends by its own test.
evict_loop-IsEvicted :
    (fuel : ℕ) (c : LruCache)
    → IsConsistent c.next_addr c.current_size_bytes c.lru_list c.cache_map
    → c.current_size_bytes < u64_mod
    → length c.lru_list ≤ fuel
    → (victims : List Node) × IsEvicted c (evict_loop fuel c) victims
evict_loop-IsEvicted zero c v fits h =
    ([], unfold evict_loop in stays c v (empty_bounded c v (length-eq_zero c.lru_list h)))
evict_loop-IsEvicted (suc fuel) c v fits h = elim (Option-cases (back c.lru_list)) [
  | inl empty ↦ (
    [],
    rw (loop_empty fuel c empty) (stays c v (empty_bounded c v (back-none c.lru_list empty))),
  )
  | inr (n, last) ↦ elim (Bool-cases (ltb c.config.max_size_bytes c.current_size_bytes)) [
    | inl over ↦
        let (victims, r) =
          evict_loop-IsEvicted fuel (evict_back c n) (evict_back-IsConsistent c n v fits last)
            (omega (arith, evict_back-size c n v fits last))
            (unfold evict_back in omega (arith, length-pop_back n c.lru_list last)) in
        (
          victims ++ n ∷ [],
          rw (loop_more fuel c n last over)
              (loop_round fuel c n last _ victims v fits (ltb→lt _ _ over) r),
        )
    | inr within ↦ ([], rw (loop_stop fuel c n last within) (stays c v (ground arith)))
  ]
]

pub evict_if_needed-IsEvicted :
    (c : LruCache)
    → IsConsistent c.next_addr c.current_size_bytes c.lru_list c.cache_map
    → c.current_size_bytes < u64_mod
    → (victims : List Node) × IsEvicted c (evict_if_needed c) victims
unfolding evict_if_needed
evict_if_needed-IsEvicted c v fits = evict_loop-IsEvicted (length c.lru_list) c v fits (omega arith)
