-- ===== src/Pool/Spec.antt =====
-- The pool as its users see it: slots and a stack of free indices. `next`, `used` and `free_head`
-- are representation.
use mach_ipc.Base.{
  ℕ, Bool, true, false, Option, none, some, ◌>>=◌, List, [], ◌∷◌, ℤ, pos, minus_one, if◌then◌else◌,
}
use mach_ipc.Pool.{Pool, pool_push, pool_pop, pool_get, pool_is_active, pool_has_capacity, index_of}
use mach_ipc.Pool.Inv.{write_slot}
use mach_ipc.Pool.Active.{active}

pub record Spec {ℓ} (A : Type ℓ) : Type ℓ where
  pub capacity : ℕ
  pub slots : List A
  pub free : List ℕ

-- A call, and what it returns.
pub data Op {ℓ} (A : Type ℓ) : Type ℓ where
  push : Option A → Op A
  pop get is_active : ℤ → Op A
  has_capacity : Op A

pub data Reply : Type 0 where
  index : ℤ → Reply
  pointer : Option ℕ → Reply
  flag : Bool → Reply
  done : Reply

abbrev pub free_again : ℤ → List ℕ → List ℕ
free_again (pos i) free = i ∷ free
free_again i free = free

module _ {ℓ} {A : Type ℓ} where
  -- The most recently freed slot is handed out first.
  unfoldable pub push_spec : Option A → ℕ → List A → List ℕ → Reply × Spec A
  push_spec value capacity slots [] =
      (index minus_one, record { capacity = capacity; slots = slots; free = [] })
  push_spec value capacity slots (i ∷ free) =
      (index (pos i), record { capacity = capacity; slots = write_slot slots i value; free = free })

  unfoldable pub step_spec : Spec A → Op A → Reply × Spec A
  unfolding push_spec
  step_spec s (push value) = push_spec value s.capacity s.slots s.free
  step_spec s (pop i) =
      (done, if active s.capacity s.free i then record s { free = free_again i s.free } else s)
  step_spec s (get i) = (pointer (if active s.capacity s.free i then index_of i else none), s)
  step_spec s (is_active i) = (flag (active s.capacity s.free i), s)
  step_spec s has_capacity = (flag (elim s.free [ [] ↦ false | _ ↦ true ]), s)

  unfoldable pub run_spec : Spec A → List (Op A) → List Reply
  run_spec s [] = []
  run_spec s (op ∷ ops) = let (r, s') = step_spec s op in r ∷ run_spec s' ops

  -- The same calls on the pool of the code.
  unfoldable pub step : Pool A → Op A → Option (Reply × Pool A)
  step p (push value) = do (i, q) ← pool_push p value; some (index i, q)
  step p (pop i) = do q ← pool_pop p i; some (done, q)
  step p (get i) = do r ← pool_get p i; some (pointer r, p)
  step p (is_active i) = do r ← pool_is_active p i; some (flag r, p)
  step p has_capacity = some (flag (pool_has_capacity p), p)

  unfoldable pub run : Pool A → List (Op A) → Option (List Reply)
  run p [] = some []
  run p (op ∷ ops) = do (r, q) ← step p op; rs ← run q ops; some (r ∷ rs)
