-- ===== src/Pool/Refine.antt =====
-- No sequence of calls tells the pool of the code from its specification, and none faults.
use mach_ipc.Base.{
  ℕ, ◌≡◌, refl, inl, inr, Option, some, ◌>>=◌, List, [], ◌∷◌, ℤ, pos, negsuc, arith, Bool-cases,
  length, suc,
}
use mach_ipc.Pool.{Pool, pool_init}
use mach_ipc.Pool.Inv.{Inv, taken, freed, push_full, push_taken, taken-Inv, freed-Inv}
use mach_ipc.Pool.Init.{count_up, fresh-Inv, pool_init_lem}
use mach_ipc.Pool.Active.{
  active, is_active_lem, get_lem, pop_inactive, pop_active, has_capacity_lem,
}
use mach_ipc.Pool.Spec.{
  Spec, Op, push, pop, get, is_active, has_capacity, Reply, done, push_spec, step_spec, run_spec,
  step, run,
}

module _ {ℓ} {A : Type ℓ} where
  -- What the users of a pool see of it, given its free list.
  abbrev pub view : Pool A → List ℕ → Spec A
  view p free = record { capacity = p.capacity; slots = p.slots; free = free }

  -- A call on the pool of the code succeeds with the reply of the specification, and leads to a
  -- pool that the new specification describes.
  pub record Refines (p : Pool A) (op : Op A) (out : Reply × Spec A) : Type ℓ where
    pub after : Pool A
    pub steps : step p op ≡ some (out.0, after)
    pub inv : Inv after out.1.free
    pub same : view after out.1.free ≡ out.1

  push-Refines :
      (p : Pool A) (value : Option A) (free : List ℕ)
      → Inv p free
      → Refines p (push value) (push_spec value p.capacity p.slots free)
  unfolding step push_spec
  push-Refines p value [] v = record {
    after = p;
    steps = rw (push_full value v);
    inv = v;
    same = refl;
  }
  push-Refines p value (i ∷ free) v = record {
    after = taken p value i;
    steps = rw (push_taken value i v);
    inv = taken-Inv value i v;
    same = refl;
  }

  keeps :
      (p : Pool A) (op : Op A) (r : Reply) (free : List ℕ)
      → Inv p free
      → step p op ≡ some (r, p)
      → Refines p op (r, view p free)
  keeps p op r free v e = record { after = p; steps = e; inv = v; same = refl }

  pop-Refines :
      (p : Pool A) (i : ℤ) (free : List ℕ)
      → Inv p free
      → Refines p (pop i) (step_spec (view p free) (pop i))
  unfolding step step_spec
  pop-Refines p (negsuc n) free v = keeps p _ done free v (rw (pop_inactive (negsuc n) v refl))
  pop-Refines p (pos i) free v = elim (Bool-cases (active p.capacity free (pos i))) [
    | inl e ↦ rw e (record {
      after = freed p i;
      steps = rw (pop_active i v e);
      inv = freed-Inv i (ground arith) (ground arith) v;
      same = refl;
    })
    | inr e ↦ rw e (keeps p _ done free v (rw (pop_inactive (pos i) v e)))
  ]

  -- Every call refines its specification.
  pub step-Refines :
      (p : Pool A) (op : Op A) (free : List ℕ)
      → Inv p free
      → Refines p op (step_spec (view p free) op)
  unfolding step step_spec
  step-Refines p (push value) free v = push-Refines p value free v
  step-Refines p (pop i) free v = pop-Refines p i free v
  step-Refines p (get i) free v = keeps p _ _ free v (rw (get_lem i v))
  step-Refines p (is_active i) free v = keeps p _ _ free v (rw (is_active_lem i v))
  step-Refines p has_capacity free v = keeps p _ _ free v (rw (has_capacity_lem free v))

  run_refines_from :
      (ops : List (Op A)) (p : Pool A) (free : List ℕ)
      → Inv p free
      → run p ops ≡ some (run_spec (view p free) ops)
  unfolding run run_spec
  run_refines_from [] p free v = refl
  run_refines_from (op ∷ ops) p free v =
      let s = step-Refines p op free v in rw (s.steps, run_refines_from ops s.after _ s.inv, s.same)

  -- From `pool_init` on, with a positive capacity and arrays of that length, no sequence of calls
  -- faults, and the replies are those of a stack of free indices that starts with all of them.
  pub run_refines :
      (ops : List (Op A)) (last : ℕ) (slots : List A) (next : List ℤ)
      → length slots ≡ suc last
      → length next ≡ suc last
      → (do p ← pool_init (suc last) slots next; run p ops)
        ≡ some (
            run_spec
              (record { capacity = suc last; slots = slots; free = count_up 0 (suc last) })
              ops)
  run_refines ops last slots next hs hn =
      rw (pool_init_lem last slots next)
        (run_refines_from ops _ (count_up 0 (suc last)) (fresh-Inv last slots next hs hn))
