-- ===== src/Pool/Leases.antt =====
-- Who holds which connection of a pool (src/proxy/connection_pool.cpp): any sequence of whole calls of
-- `get_connection`, `return_connection`, `cleanup_idle` and `close_all`, with the connections that are
-- lent out.
use ntonix.Common.{
  ℕ, suc, ◌+◌, ◌≡◌, ◌≤◌, ◌<◌, ◌^◌, ◌⊎◌, refl, ap, ◌∙◌, Bool, true, false, ◌&&◌, ◌||◌, not, List, [],
  ◌∷◌, Option, some, arith, if◌then◌else◌, ltb, nat_beq, length, length-keep, get_elem?, add64,
  sub64, add64_exact, sub64_exact, Bool-cases, Option-cases, inl, inr, if_intro, option_intro,
}
use ntonix.Config.{BackendConfig}
use ntonix.Pool.{
  ConnectionPoolConfig, PooledConnection, Sockets, new_connection, is_valid, is_idle, mark_in_use,
  mark_returned, BackendPool, new_pool, first_valid, create_connection, create_within, lend,
  get_connection, return_connection, cleanup_idle, close_all,
}
use ntonix.Pool.Holdings.{
  Call, Holdings, IsExclusive, add_lease, as_list, cleans, closes, first_valid-length,
  first_valid-uses, gets, length-remove_at, remove_at, returns, run, step, uses, uses-keep,
  uses-remove_at,
}

module _ (h : Holdings) (v : IsExclusive h) where
  pool_fits : length h.pool.available + length h.leases < 2 ^ 63
  pool_fits = omega (arith, v.bounded, v.limit)

  -- The pool without the connections that were found closed
  abbrev found_in : Sockets → Option PooledConnection × List PooledConnection
  found_in is_open = first_valid is_open h.pool.available

  abbrev left_in : Sockets → BackendPool
  left_in is_open = record h.pool { available = (found_in is_open).1 }

  lend_found :
      (is_open : Sockets) (now : ℕ) (c : PooledConnection)
      → (found_in is_open).0 ≡ some c
      → IsExclusive (add_lease h.leases (lend now (left_in is_open, some c)))
  unfolding lend mark_in_use
  lend_found is_open now c found =
      let length_left : suc (length (found_in is_open).1) ≤ length h.pool.available =
        omega (
          arith,
          first_valid-length is_open h.pool.available,
          ap (λ o. length (as_list o)) found,
        ) in
      record {
        once = (λ s. omega (
          arith,
          v.once s,
          first_valid-uses is_open s h.pool.available,
          ap (λ o. uses s (as_list o)) found,
        ));
        fresh = (λ s new. omega (
          arith,
          v.fresh s new,
          first_valid-uses is_open s h.pool.available,
          ap (λ o. uses s (as_list o)) found,
        ));
        counted =
            add64_exact h.pool.in_use 1 (omega (arith, v.counted, pool_fits))
            ∙ omega (arith, v.counted);
        bounded = omega (arith, v.bounded, length_left);
        limit = v.limit;
      }

  lend_new :
      (is_open : Sockets) (now : ℕ)
      → ltb (add64 (length (found_in is_open).1) h.pool.in_use) h.pool.config.pool_size_per_backend
        ≡ true
      → IsExclusive (record {
        pool = record (left_in is_open) {
          in_use = add64 h.pool.in_use 1;
          total_created = suc h.pool.total_created;
        };
        leases =
            mark_in_use now (new_connection h.pool.total_created h.pool.backend now) ∷ h.leases;
      })
  unfolding mark_in_use new_connection
  lend_new is_open now room =
      let shorter : length (found_in is_open).1 ≤ length h.pool.available =
        omega (arith, first_valid-length is_open h.pool.available) in
      let total : add64 (length (found_in is_open).1) h.pool.in_use
          ≡ length (found_in is_open).1 + h.pool.in_use =
        add64_exact (length (found_in is_open).1) h.pool.in_use
          (omega (arith, v.counted, pool_fits)) in
      record {
        once = (λ s. elim (Bool-cases (nat_beq h.pool.total_created s)) [
          | inl new ↦
              let reached : h.pool.total_created ≤ s = ground arith in
              rw new (omega (arith, v.fresh s reached, first_valid-uses is_open s h.pool.available))
          | inr old ↦ rw old (omega (arith, v.once s, first_valid-uses is_open s h.pool.available))
        ]);
        fresh = (λ s new.
            let old : nat_beq h.pool.total_created s ≡ false = ground arith in
            rw old (
              omega (arith, v.fresh s (omega arith), first_valid-uses is_open s h.pool.available)));
        counted =
            add64_exact h.pool.in_use 1 (omega (arith, v.counted, pool_fits))
            ∙ omega (arith, v.counted);
        bounded =
            (let under : length (found_in is_open).1 + h.pool.in_use
                  < h.pool.config.pool_size_per_backend =
                (let room' : ltb (length (found_in is_open).1 + h.pool.in_use)
                        h.pool.config.pool_size_per_backend
                      ≡ true =
                    rw total at room in
                  ground arith) in
              omega (arith, v.counted, under));
        limit = v.limit;
      }

  left-IsExclusive : (is_open : Sockets) → IsExclusive (record h { pool = left_in is_open })
  left-IsExclusive is_open = record {
    once = (λ s. omega (arith, v.once s, first_valid-uses is_open s h.pool.available));
    fresh = (λ s new. omega (arith, v.fresh s new, first_valid-uses is_open s h.pool.available));
    counted = v.counted;
    bounded = omega (arith, v.bounded, first_valid-length is_open h.pool.available);
    limit = v.limit;
  }

  cleanup_idle-IsExclusive :
      (is_open : Sockets) (now : ℕ)
      → IsExclusive (record h { pool = cleanup_idle is_open now h.pool })
  unfolding cleanup_idle
  cleanup_idle-IsExclusive is_open now =
      let kept : PooledConnection → Bool =
        λ c. not (is_idle h.pool.config.idle_timeout now c || not (is_valid is_open c)) in
      record {
        once = (λ s. omega (arith, v.once s, uses-keep kept s h.pool.available));
        fresh = (λ s new. omega (arith, v.fresh s new, uses-keep kept s h.pool.available));
        counted = v.counted;
        bounded = omega (arith, v.bounded, length-keep kept h.pool.available);
        limit = v.limit;
      }

  close_all-IsExclusive : IsExclusive (record h { pool = close_all h.pool })
  unfolding close_all
  close_all-IsExclusive = record {
    once = (λ s. omega (arith, v.once s));
    fresh = (λ s new. omega (arith, v.fresh s new));
    counted = v.counted;
    bounded = omega (arith, v.bounded);
    limit = v.limit;
  }

  returned_count :
      (i : ℕ) (c : PooledConnection)
      → get_elem? h.leases i ≡ some c
      → (if ltb 0 h.pool.in_use then sub64 h.pool.in_use 1 else h.pool.in_use)
        ≡ length (remove_at i h.leases)
  returned_count i c there =
      let one_less : suc (length (remove_at i h.leases)) ≡ length h.leases =
        length-remove_at i c h.leases there in
      let some_in_use : ltb 0 h.pool.in_use ≡ true = ground (arith, v.counted) in
      rw some_in_use (
        sub64_exact h.pool.in_use 1 (omega (arith, v.counted, one_less))
          (omega (arith, v.counted, pool_fits))
        ∙ omega (arith, v.counted, one_less))

  return_connection-IsExclusive :
      (is_open : Sockets) (now i : ℕ) (c : PooledConnection) (reusable : Bool)
      → get_elem? h.leases i ≡ some c
      → IsExclusive (record {
        pool = return_connection is_open now c reusable h.pool;
        leases = remove_at i h.leases;
      })
  unfolding return_connection mark_returned
  return_connection-IsExclusive is_open now i c reusable there =
      let count : (if ltb 0 h.pool.in_use then sub64 h.pool.in_use 1 else h.pool.in_use)
          ≡ length (remove_at i h.leases) =
        returned_count i c there in
      let one_less : suc (length (remove_at i h.leases)) ≡ length h.leases =
        length-remove_at i c h.leases there in
      if_intro
        (λ (pool : BackendPool).
          IsExclusive (record { pool = pool; leases = remove_at i h.leases }))
        (reusable && is_open c.socket)
        (λ _. record {
          once = (λ s. omega (arith, v.once s, uses-remove_at s i c h.leases there));
          fresh = (λ s new. omega (arith, v.fresh s new, uses-remove_at s i c h.leases there));
          counted = count;
          bounded = omega (arith, v.bounded, one_less);
          limit = v.limit;
        })
        (λ _. record {
          once = (λ s. omega (arith, v.once s, uses-remove_at s i c h.leases there));
          fresh = (λ s new. omega (arith, v.fresh s new, uses-remove_at s i c h.leases there));
          counted = count;
          bounded = omega (arith, v.bounded, one_less);
          limit = v.limit;
        })

  get_connection-IsExclusive :
      (is_open : Sockets) (connects : Bool) (now : ℕ)
      → IsExclusive (add_lease h.leases (get_connection is_open connects now h.pool))
  unfolding get_connection create_within create_connection lend new_connection mark_in_use
  get_connection-IsExclusive is_open connects now =
      option_intro
        (λ (r : BackendPool × Option PooledConnection).
          IsExclusive (add_lease h.leases (lend now r)))
        (found_in is_open).0 _ (λ c. (left_in is_open, some c))
        (λ _.
          if_intro
            (λ (r : BackendPool × Option PooledConnection).
              IsExclusive (add_lease h.leases (lend now r)))
            (ltb (add64 (length (found_in is_open).1) h.pool.in_use)
              h.pool.config.pool_size_per_backend)
            (λ room.
              if_intro
                (λ (r : BackendPool × Option PooledConnection).
                  IsExclusive (add_lease h.leases (lend now r)))
                connects (λ _. lend_new is_open now room) (λ _. left-IsExclusive is_open))
            (λ _. left-IsExclusive is_open))
        (λ c found. lend_found is_open now c found)

step-IsExclusive : (call : Call) (h : Holdings) → IsExclusive h → IsExclusive (step call h)
unfolding step
step-IsExclusive (gets is_open connects now) h v =
    get_connection-IsExclusive h v is_open connects now
step-IsExclusive (returns is_open now i reusable) h v =
    option_intro IsExclusive (get_elem? h.leases i) h _ (λ _. v)
      (λ c there. return_connection-IsExclusive h v is_open now i c reusable there)
step-IsExclusive (cleans is_open now) h v = cleanup_idle-IsExclusive h v is_open now
step-IsExclusive closes h v = close_all-IsExclusive h v

-- From holdings where no socket is held twice, `in_use` counts the leases and the limit holds, any
-- sequence of whole calls leads to such holdings again, whichever sockets close and whichever attempts
-- to connect fail, when the limit is below 2 ^ 63.
pub run-IsExclusive : (calls : List Call) (h : Holdings) → IsExclusive h → IsExclusive (run calls h)
run-IsExclusive [] h v = run_nil
  where
    run_nil : IsExclusive (run [] h)
    run_nil = unfold run in v
run-IsExclusive (call ∷ calls) h v =
    rw (run_cons call calls h) (run-IsExclusive calls (step call h) (step-IsExclusive call h v))
  where
    run_cons :
        (call : Call) (calls : List Call) (h : Holdings)
        → run (call ∷ calls) h ≡ run calls (step call h)
    run_cons call calls h = unfold run in refl

pub new_pool-IsExclusive :
    (backend : BackendConfig) (config : ConnectionPoolConfig)
    → config.pool_size_per_backend < 2 ^ 63
    → IsExclusive (record { pool = new_pool backend config; leases = [] })
unfolding new_pool
new_pool-IsExclusive backend config small = record {
  once = (λ s. omega arith);
  fresh = (λ s new. refl);
  counted = refl;
  bounded = omega arith;
  limit = small;
}

first_valid-is_valid :
    (is_open : Sockets) (cs : List PooledConnection) (c : PooledConnection)
    → (first_valid is_open cs).0 ≡ some c
    → is_valid is_open c ≡ true
unfolding first_valid
first_valid-is_valid is_open [] c h = cc h
first_valid-is_valid is_open (d ∷ cs) c h = ground (arith, first_valid-is_valid is_open cs c)

-- A connection that `get_connection` lends has the socket of a pooled connection that is open at that
-- moment, or the socket that it has just connected.
pub get_connection-is_valid :
    (is_open : Sockets) (connects : Bool) (now : ℕ) (pool : BackendPool) (c : PooledConnection)
    → (get_connection is_open connects now pool).1 ≡ some c
    → (is_valid is_open c ≡ true) ⊎ ((c.socket ≡ pool.total_created) × (connects ≡ true))
unfolding get_connection create_within create_connection lend new_connection mark_in_use
get_connection-is_valid is_open connects now pool c h =
    elim (Option-cases (first_valid is_open pool.available).0) [
      | inl absent ↦ ground arith
      | inr (d, found) ↦ inl (ground (arith, first_valid-is_valid is_open pool.available d found))
    ]
