-- ===== src/LinearPool.antt =====
-- src/linear_ts_pool.c: a pool without a free list, with a lock for each entry. A pointer into it is the
-- index of its slot. `pool_lock` is held over each read and write of `used`, so that these are the
-- steps. An entry's lock is `true` while it is held; a call that waits for a lock is `none`.
pub mod Laws
pub mod Alone
mod Tests
use mach_ipc.Base.{
  ℕ, suc, Bool, true, false, not, ◌&&◌, Option, none, some, List, [], ◌∷◌, get_or, set, replicate,
  ℤ, pos, negsuc, minus_one, ltb, if◌then◌else◌,
}

-- `LinearTSPool`
pub record LinearPool {ℓ} (A : Type ℓ) : Type ℓ where
  pub slots : List A
  pub used : List Bool
  pub locks : List Bool
  pub capacity : ℕ

-- The first index from `i` on that is not used.
pub first_unused : (i : ℕ) → List Bool → ℤ
first_unused i [] = minus_one
first_unused i (b ∷ bs) = let rest = first_unused (suc i) bs in if b then rest else pos i

module _ {ℓ} {A : Type ℓ} where
  -- `index < 0 || index >= pool->capacity`: the index, if it is good.
  abbrev pub in_range : LinearPool A → ℤ → Option ℕ
  in_range p (pos i) = if ltb i p.capacity then some i else none
  in_range p (negsuc n) = none

  -- `slots` is what `malloc` gives; the allocations are taken to succeed.
  unfoldable pub linear_ts_pool_init : (capacity : ℕ) → (slots : List A) → LinearPool A
  linear_ts_pool_init capacity slots = record {
    slots = slots;
    used = replicate capacity false;
    locks = replicate capacity false;
    capacity = capacity;
  }

  set_at : LinearPool A → Option ℕ → Option A → Bool × LinearPool A
  set_at p none value = (false, p)
  set_at p (some i) none = (true, record p { used = set p.used i true })
  set_at p (some i) (some v) =
      (true, record p { slots = set p.slots i v; used = set p.used i true })

  -- A null value is `none`: the slot keeps what is in it.
  pub linear_ts_pool_set : LinearPool A → ℤ → Option A → Bool × LinearPool A
  unfolding set_at
  linear_ts_pool_set p index value = set_at p (in_range p index) value

  remove_at : LinearPool A → Option ℕ → LinearPool A
  remove_at p none = p
  remove_at p (some i) = record p { used = set p.used i false }

  pub linear_ts_pool_remove : LinearPool A → ℤ → LinearPool A
  unfolding remove_at
  linear_ts_pool_remove p index = remove_at p (in_range p index)

  is_active_at : LinearPool A → Option ℕ → Bool
  is_active_at p none = false
  is_active_at p (some i) = get_or p.used i false

  pub linear_ts_pool_is_active : LinearPool A → ℤ → Bool
  unfolding is_active_at
  linear_ts_pool_is_active p index = is_active_at p (in_range p index)

  pub linear_ts_pool_get : LinearPool A → ℤ → Option ℕ
  unfolding is_active_at
  linear_ts_pool_get p index = if is_active_at p (in_range p index) then in_range p index else none

  -- `for (int i = 0; i < pool->capacity; i++)`
  pub linear_ts_pool_find_free : LinearPool A → ℤ
  linear_ts_pool_find_free p = first_unused 0 p.used

  abbrev pub lock : LinearPool A → ℕ → LinearPool A
  lock p i = record p { locks = set p.locks i true }

  abbrev pub unlock : LinearPool A → ℕ → LinearPool A
  unlock p i = record p { locks = set p.locks i false }

  -- With the entry's lock held: the second look at `used`.
  check_again : LinearPool A → ℕ → Bool × LinearPool A
  check_again p i = if get_or p.used i false then (true, p) else (false, unlock p i)

  -- `pthread_mutex_lock` on the entry's lock, and what follows. A lock that is still held is not taken:
  -- the call waits for it, with `none`.
  take_lock :
      (holding : LinearPool A → LinearPool A) → LinearPool A → ℕ → Option (Bool × LinearPool A)
  unfolding check_again
  take_lock holding q i =
      if get_or q.locks i false then none else some (check_again (holding (lock q i)) i)

  lock_at :
      (waiting holding : LinearPool A → LinearPool A)
      → LinearPool A
      → Option ℕ
      → Option (Bool × LinearPool A)
  unfolding take_lock
  lock_at waiting holding p none = some (false, p)
  lock_at waiting holding p (some i) =
      if get_or p.used i false then take_lock holding (waiting p) i else some (false, p)

  -- What the other threads do is a function for each gap: between the first look and the lock, and
  -- between the lock and the second look.
  pub linear_ts_pool_lock_entry :
      (waiting holding : LinearPool A → LinearPool A)
      → LinearPool A
      → ℤ
      → Option (Bool × LinearPool A)
  unfolding lock_at
  linear_ts_pool_lock_entry waiting holding p index = lock_at waiting holding p (in_range p index)

  unlock_at : LinearPool A → Option ℕ → LinearPool A
  unlock_at p none = p
  unlock_at p (some i) = unlock p i

  pub linear_ts_pool_unlock_entry : LinearPool A → ℤ → LinearPool A
  unfolding unlock_at
  linear_ts_pool_unlock_entry p index = unlock_at p (in_range p index)

  -- `pthread_mutex_trylock` fails on a lock that is held.
  trylock_at :
      (waiting holding : LinearPool A → LinearPool A)
      → LinearPool A
      → Option ℕ
      → Bool × LinearPool A
  unfolding check_again
  trylock_at waiting holding p none = (false, p)
  trylock_at waiting holding p (some i) =
      let q = waiting p in
      if get_or p.used i false
      then if get_or q.locks i false then (false, q) else check_again (holding (lock q i)) i
      else (false, p)

  pub linear_ts_pool_trylock_entry :
      (waiting holding : LinearPool A → LinearPool A) → LinearPool A → ℤ → Bool × LinearPool A
  unfolding trylock_at
  linear_ts_pool_trylock_entry waiting holding p index =
      trylock_at waiting holding p (in_range p index)
