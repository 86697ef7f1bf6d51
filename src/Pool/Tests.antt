-- ===== src/Pool/Tests.antt =====
-- A pool of two slots, and the refinement applied to it.
use mach_ipc.Base.{ℕ, ◌≡◌, refl, true, false, none, some, ◌>>=◌, List, [], ◌∷◌, ℤ, pos, minus_one}
use mach_ipc.Pool.{
  pool_init, pool_push, pool_pop, pool_get, pool_is_active, pool_has_capacity, link,
}
use mach_ipc.Pool.Init.{count_up}
use mach_ipc.Pool.Spec.{
  Op, push, pop, get, is_active, has_capacity, Reply, index, pointer, flag, done, run, run_spec,
  step,
}
use mach_ipc.Pool.Refine.{run_refines}

abbrev memory : List ℕ
memory = 0 ∷ 0 ∷ []

abbrev links : List ℤ
links = pos 7 ∷ pos 7 ∷ []

-- The pool fills up, refuses a third value, and hands out the slot that was freed; freeing it twice
-- or asking for -1 does nothing.
abbrev script : List (Op ℕ)
script =
    push (some 5)
    ∷ push (some 6)
    ∷ push none
    ∷ has_capacity
    ∷ pop (pos 0)
    ∷ pop (pos 0)
    ∷ get (pos 0)
    ∷ is_active (pos 1)
    ∷ push none
    ∷ pop minus_one
    ∷ get (pos 0)
    ∷ []

abbrev replies : List Reply
replies =
    index (pos 0)
    ∷ index (pos 1)
    ∷ index minus_one
    ∷ flag false
    ∷ done
    ∷ done
    ∷ pointer none
    ∷ flag true
    ∷ index (pos 0)
    ∷ done
    ∷ pointer (some 0)
    ∷ []

run-script : (do p ← pool_init 2 memory links; run p script) ≡ some replies
unfolding run step pool_init pool_push pool_pop pool_get pool_is_active pool_has_capacity link
run-script = refl

run_refines_example :
    (do p ← pool_init 2 memory links; run p script)
    ≡ some (run_spec (record { capacity = 2; slots = memory; free = count_up 0 2 }) script)
run_refines_example = run_refines script 1 memory links refl refl
