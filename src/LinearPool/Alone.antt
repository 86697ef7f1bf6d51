-- ===== src/LinearPool/Alone.antt =====
-- What the calls do for an index in range when no other thread is at work.
use mach_ipc.Base.{
  ℕ, zero, suc, List, [], ◌∷◌, Bool, refl, ◌<◌, ◌≡◌, true, false, some, none, get_or, set, pos,
  if◌then◌else◌, lt→ltb, Bool-cases, inl, inr,
}
use mach_ipc.LinearPool.{
  LinearPool, lock, unlock, check_again, take_lock, lock_at, set_at, remove_at, is_active_at,
  unlock_at, linear_ts_pool_set, linear_ts_pool_remove, linear_ts_pool_is_active,
  linear_ts_pool_get, linear_ts_pool_lock_entry, linear_ts_pool_unlock_entry,
}

module _ {ℓ} {A : Type ℓ} (p : LinearPool A) (i : ℕ) (lt : i < p.capacity) where
  pub set_alone :
      (v : A)
      → linear_ts_pool_set p (pos i) (some v)
        ≡ (true, record p { slots = set p.slots i v; used = set p.used i true })
  unfolding linear_ts_pool_set set_at
  set_alone v = rw (lt→ltb i p.capacity lt)

  pub remove_alone : linear_ts_pool_remove p (pos i) ≡ record p { used = set p.used i false }
  unfolding linear_ts_pool_remove remove_at
  remove_alone = rw (lt→ltb i p.capacity lt)

  pub is_active_alone : linear_ts_pool_is_active p (pos i) ≡ get_or p.used i false
  unfolding linear_ts_pool_is_active is_active_at
  is_active_alone = rw (lt→ltb i p.capacity lt)

  pub get_alone : linear_ts_pool_get p (pos i) ≡ (if get_or p.used i false then some i else none)
  unfolding linear_ts_pool_get is_active_at
  get_alone = rw (lt→ltb i p.capacity lt)

  pub unlock_alone : linear_ts_pool_unlock_entry p (pos i) ≡ unlock p i
  unfolding linear_ts_pool_unlock_entry unlock_at
  unlock_alone = rw (lt→ltb i p.capacity lt)

  pub lock_alone :
      get_or p.locks i false ≡ false
      → linear_ts_pool_lock_entry (λ q. q) (λ q. q) p (pos i)
        ≡ some (get_or p.used i false, if get_or p.used i false then lock p i else p)
  unfolding linear_ts_pool_lock_entry lock_at take_lock check_again
  lock_alone open_lock = elim (Bool-cases (get_or p.used i false)) [
    | inl u ↦ rw (lt→ltb i p.capacity lt, u, open_lock)
    | inr u ↦ rw (lt→ltb i p.capacity lt, u)
  ]

-- A lock that is taken and given back leaves all locks free that were.
pub set-set-false :
    (locks : List Bool) (i : ℕ)
    → ((j : ℕ) → get_or locks j false ≡ false)
    → (j : ℕ) → get_or (set (set locks i true) i false) j false ≡ false
set-set-false [] i h j = refl
set-set-false (b ∷ locks) zero h zero = refl
set-set-false (b ∷ locks) zero h (suc j) = h (suc j)
set-set-false (b ∷ locks) (suc i) h zero = h zero
set-set-false (b ∷ locks) (suc i) h (suc j) = set-set-false locks i (λ k. h (suc k)) j
