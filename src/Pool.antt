-- ===== src/Pool.antt =====
-- src/pool.h and src/pool.c: a fixed number of slots with a free list threaded through `next`.
-- A `void *` into `data` is the index of its slot, and NULL is `none`. A read or a write out of
-- the bounds of an array is a fault, the `none` outside.
pub mod Inv
pub mod Init
pub mod Active
pub mod Spec
pub mod Refine
mod Tests
use mach_ipc.Base.{
  ℕ, zero, suc, ◌+◌, Bool, true, false, not, Option, none, some, ◌>>=◌, List, get_elem?, set, store,
  replicate, ℤ, pos, negsuc, minus_one, eq_ℤ, ltb, if◌then◌else◌,
}

-- `Pool`, over the type of its slots in place of `sizeof_data` bytes.
pub record Pool {ℓ} (A : Type ℓ) : Type ℓ where
  pub slots : List A
  pub next : List ℤ
  pub capacity : ℕ
  pub free_head : ℤ
  pub used : List Bool

abbrev pub index_of : ℤ → Option ℕ
index_of (pos i) = some i
index_of (negsuc n) = none

-- `for (int i = 0; i < capacity - 1; i++) next[i] = i + 1;` with `left` rounds to go.
pub link : (left i : ℕ) → List ℤ → List ℤ
link zero i next = next
link (suc left) i next = link left (i + 1) (set next i (pos (i + 1)))

module _ {ℓ} {A : Type ℓ} where
  -- `slots` and `next` are what `malloc` returned, for `capacity` elements each. With capacity 0
  -- the write to `next[capacity - 1]` is out of bounds.
  pub pool_init : (capacity : ℕ) (slots : List A) (next : List ℤ) → Option (Pool A)
  pool_init zero slots next = none
  pool_init (suc last) slots next = some (record {
    slots = slots;
    next = set (link last 0 next) last minus_one;
    capacity = suc last;
    free_head = pos 0;
    used = replicate (suc last) false;
  })

  -- The part of `pool_push` behind the test for a full pool.
  push_at : Pool A → Option A → ℕ → Option (ℤ × Pool A)
  push_at p value index = do
    head ← get_elem? p.next index
    slots ← elim value [ none ↦ some p.slots | some v ↦ store p.slots index v ]
    used ← store p.used index true
    some (pos index, record p { free_head = head; slots = slots; used = used })

  -- Any negative head but -1 would index out of bounds.
  pub pool_push : Pool A → Option A → Option (ℤ × Pool A)
  unfolding push_at
  pool_push p value = elim p.free_head [
    | pos index ↦ push_at p value index
    | negsuc n ↦ if eq_ℤ (negsuc n) minus_one then some (minus_one, p) else none
  ]

  -- `index < 0 || index >= capacity || !used[index]`, negated.
  pub pool_is_active : Pool A → ℤ → Option Bool
  pool_is_active p (negsuc n) = some false
  pool_is_active p (pos i) = if ltb i p.capacity then get_elem? p.used i else some false

  -- What `pool_pop` does with an active slot.
  release : Pool A → ℤ → Option (Pool A)
  release p (negsuc n) = none
  release p (pos i) = do
    used ← store p.used i false
    next ← store p.next i p.free_head
    some (record p { used = used; next = next; free_head = pos i })

  pub pool_pop : Pool A → ℤ → Option (Pool A)
  unfolding pool_is_active release
  pool_pop p index = do active ← pool_is_active p index; if active then release p index else some p

  -- The pointer to the slot, or NULL.
  pub pool_get : Pool A → ℤ → Option (Option ℕ)
  unfolding pool_is_active
  pool_get p index = do
    active ← pool_is_active p index
    some (if active then index_of index else none)

  pub pool_has_capacity : Pool A → Bool
  pool_has_capacity p = not (eq_ℤ p.free_head minus_one)
