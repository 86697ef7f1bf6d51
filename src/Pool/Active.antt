-- ===== src/Pool/Active.antt =====
-- Which indices are active, and what `pool_pop` and `pool_get` do with them.
use mach_ipc.Base.{
  ℕ, ◌≡◌, refl, Bool, true, false, not, ◌&&◌, none, some, List, ℤ, pos, negsuc, contains, ltb,
  if◌then◌else◌, arith, get_elem?-eq-get_or, store-eq-some, [], ◌∷◌,
}
use mach_ipc.Pool.{Pool, pool_pop, pool_get, pool_is_active, pool_has_capacity, index_of}
use mach_ipc.Pool.Inv.{Inv, freed}

-- An index is active if it names a slot that is not free.
abbrev pub active : ℕ → List ℕ → ℤ → Bool
active capacity free (pos i) = ltb i capacity && not (contains free i)
active capacity free (negsuc n) = false

module _ {ℓ} {A : Type ℓ} {p : Pool A} where
  pub is_active_lem :
      (index : ℤ) {free : List ℕ}
      → Inv p free
      → pool_is_active p index ≡ some (active p.capacity free index)
  unfolding pool_is_active
  is_active_lem (pos i) v = ground (arith, v.unused i, get_elem?-eq-get_or p.used i true)
  is_active_lem (negsuc n) v = refl

  pub get_lem :
      (index : ℤ) {free : List ℕ}
      → Inv p free
      → pool_get p index ≡ some (if active p.capacity free index then index_of index else none)
  unfolding pool_get
  get_lem index v = rw (is_active_lem index v)

  pub pop_inactive :
      (index : ℤ) {free : List ℕ}
      → Inv p free
      → active p.capacity free index ≡ false
      → pool_pop p index ≡ some p
  unfolding pool_pop
  pop_inactive index v e = rw (is_active_lem index v, e)

  pub pop_active :
      (i : ℕ) {free : List ℕ}
      → Inv p free
      → active p.capacity free (pos i) ≡ true
      → pool_pop p (pos i) ≡ some (freed p i)
  unfolding pool_pop
  pop_active i v e = rw (
    is_active_lem (pos i) v,
    e,
    store-eq-some p.used i false (ground arith),
    store-eq-some p.next i p.free_head (ground arith),
  )

  pub has_capacity_lem :
      (free : List ℕ) → Inv p free → pool_has_capacity p ≡ elim free [ [] ↦ false | _ ↦ true ]
  unfolding pool_has_capacity
  has_capacity_lem [] v = ground arith
  has_capacity_lem (i ∷ free) v = ground arith
