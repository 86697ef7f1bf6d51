-- ===== src/LinearPool/Tests.antt =====
-- The pool at concrete inputs, and the lemmas about it applied.
use mach_ipc.Base.{ℕ, refl, true, false, [], ◌∷◌, pos}
use mach_ipc.LinearPool.{LinearPool, linear_ts_pool_lock_entry, linear_ts_pool_trylock_entry}
use mach_ipc.LinearPool.Laws.{Takes, Locks, linear_ts_pool_lock_entry_lem}

-- Entries 0 and 2 are active.
abbrev pool : LinearPool ℕ
pool = record {
  slots = 10 ∷ 20 ∷ 30 ∷ [];
  used = true ∷ false ∷ true ∷ [];
  locks = false ∷ false ∷ false ∷ [];
  capacity = 3;
}

-- Another thread removes entry 2.
abbrev removing : LinearPool ℕ → LinearPool ℕ
removing p = record p { used = true ∷ false ∷ false ∷ [] }

linear_ts_pool_lock_entry_lem_example :
    Takes pool (removing pool) (pos 2) (linear_ts_pool_lock_entry removing (λ p. p) pool (pos 2))
    × Locks pool
        (removing pool)
        (pos 2)
        false
        (linear_ts_pool_trylock_entry removing (λ p. p) pool (pos 2))
linear_ts_pool_lock_entry_lem_example =
    linear_ts_pool_lock_entry_lem removing (λ p. p) pool refl (λ i h. h) (pos 2)
