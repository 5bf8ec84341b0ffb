-- ===== src/Pool/Guard.antt =====
-- `ConnectionGuard` (src/proxy/connection_pool.cpp): a lent connection goes back once, however the guard
-- is moved and whoever destroys it. A release is what the pool is told: the connection, and whether it
-- can be used again.
use ntonix.Common.{◌≡◌, refl, Bool, true, false, not, Option, none, some, arith, if◌then◌else◌}
use ntonix.Pool.{PooledConnection}

pub record ConnectionGuard : Type 0 where
  pub conn : Option PooledConnection
  pub has_release_func : Bool
  pub failed : Bool
  pub released : Bool

unfoldable pub new_guard : PooledConnection → ConnectionGuard
new_guard c = record { conn = some c; has_release_func = true; failed = false; released = false }

unfoldable pub mark_failed : ConnectionGuard → ConnectionGuard
mark_failed g = record g { failed = true }

unfoldable pub release : ConnectionGuard → ConnectionGuard × Option (PooledConnection × Bool)
release g = if g.released then (g, none) else elim g.conn [
  | none ↦ (g, none)
  | some c ↦
      if g.has_release_func
      then (record g { released = true; conn = none }, some (c, not g.failed))
      else (g, none)
]

-- The move constructor: the new guard, and what is left of the other
unfoldable pub move_guard : ConnectionGuard → ConnectionGuard × ConnectionGuard
move_guard other = (other, record other { conn = none; has_release_func = false; released = true })

-- Move assignment between two guards: this one, the other, and what this one released
unfoldable pub assign_guard :
    ConnectionGuard
    → ConnectionGuard
    → ConnectionGuard × ConnectionGuard × Option (PooledConnection × Bool)
unfolding release
assign_guard g other =
    (other, record other { conn = none; has_release_func = false; released = true }, (release g).1)

-- After `release`, a further one, as in the destructor, tells the pool nothing.
pub release-release : (g : ConnectionGuard) → (release (release g).0).1 ≡ none
unfolding release
release-release g = ground arith

-- Moving a guard hands its release over: the new guard releases what the old one would have, and the
-- old one nothing.
pub release-move_guard :
    (g : ConnectionGuard)
    → ((release (move_guard g).0).1 ≡ (release g).1) × ((release (move_guard g).1).1 ≡ none)
unfolding release move_guard
release-move_guard g = (refl, refl)
