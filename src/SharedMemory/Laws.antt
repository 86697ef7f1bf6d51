-- ===== src/SharedMemory/Laws.antt =====
-- Shared memory is given back once.
use mach_ipc.Base.{
  ℕ, ◌+◌, ◌≡◌, ◌≢◌, Bool, true, false, ◌&&◌, none, List, [], ◌∷◌, ◌++◌, ◌==◌, if◌then◌else◌, arith,
}
use mach_ipc.Protocol.Types.{is_success}
use mach_ipc.SharedMemory.{
  Resource, object, region, entry, Action, acquire, release, Answers, Outcome, shared_memory_create,
  make_entry, shared_memory_map, shared_memory_destroy,
}

abbrev pub same : Resource → Resource → Bool
same object object = true
same (region a s) (region b t) = a == b && s == t
same (entry p) (entry q) = p == q
same _ _ = false

abbrev pub once : Bool → ℕ
once b = if b then 1 else 0

-- How often a resource was acquired and released.
abbrev pub acquired : Resource → List Action → ℕ
acquired r [] = 0
acquired r (acquire x ∷ l) = once (same r x) + acquired r l
acquired r (release x ∷ l) = acquired r l

abbrev pub released : Resource → List Action → ℕ
released r [] = 0
released r (acquire x ∷ l) = released r l
released r (release x ∷ l) = once (same r x) + released r l

-- The kernel's addresses and ports are not null.
pub record IsSane (a : Answers) : Type 0 where
  pub allocated : a.vm_allocate.1 ≢ 0
  pub port : a.make_entry.1 ≢ 0
  pub mapped : a.vm_map.1 ≢ 0

module _ (a : Answers) (r : Resource) (sane : IsSane a) where
  create_released :
      (size : ℕ) (out_given : Bool)
      → let o = shared_memory_create a size out_given in
        acquired r o.actions ≡ released r o.actions + released r (shared_memory_destroy o.out_shmem)
  unfolding shared_memory_create make_entry shared_memory_destroy
  create_released size out_given = ground (arith, sane.allocated, sane.port)

  -- The right to the memory object, which the mapping takes over if it succeeds.
  abbrev pub taken_over : Outcome → (mem_object : ℕ) → ℕ
  taken_over o mem_object = if is_success o.result then once (same r (entry mem_object)) else 0

  pub map_released :
      (mem_object size : ℕ) (out_given : Bool)
      → let o = shared_memory_map a mem_object size out_given in
        acquired r o.actions + taken_over o mem_object
        ≡ released r o.actions + released r (shared_memory_destroy o.out_shmem)
  unfolding shared_memory_map shared_memory_destroy
  map_released mem_object size out_given = ground (arith, sane.mapped)

  -- Whatever fails, `shared_memory_create` followed by `shared_memory_destroy` gives back each resource
  -- as often as it was acquired. So does `shared_memory_map`, but that its destruction also gives back
  -- the caller's right to the memory object, once, exactly if the mapping succeeded. The addresses and
  -- ports from the kernel are taken not to be null.
  pub shared_memory_released :
      (mem_object size : ℕ) (out_given : Bool)
      → let made = shared_memory_create a size out_given in
        let mapped = shared_memory_map a mem_object size out_given in
        (acquired r made.actions
          ≡ released r made.actions + released r (shared_memory_destroy made.out_shmem))
        × (acquired r mapped.actions + taken_over mapped mem_object
            ≡ released r mapped.actions + released r (shared_memory_destroy mapped.out_shmem))
  shared_memory_released mem_object size out_given =
      (create_released size out_given, map_released mem_object size out_given)

-- Without success nothing is handed out.
pub map_failed :
    (a : Answers) (mem_object size : ℕ) (out_given : Bool)
    → let o = shared_memory_map a mem_object size out_given in
      is_success o.result ≡ false → o.out_shmem ≡ none
unfolding shared_memory_map
map_failed a mem_object size out_given h = ground arith

-- A null memory object is not mapped.
pub map_null :
    (a : Answers) (mem_object size : ℕ) (out_given : Bool)
    → is_success (shared_memory_map a mem_object size out_given).result ≡ true
    → mem_object ≢ 0
unfolding shared_memory_map
map_null a mem_object size out_given h = ground arith

pub acquired-append :
    (r : Resource) (l m : List Action) → acquired r (l ++ m) ≡ acquired r l + acquired r m
acquired-append r [] m = omega arith
acquired-append r (acquire x ∷ l) m = omega (arith, acquired-append r l m)
acquired-append r (release x ∷ l) m = acquired-append r l m

pub released-append :
    (r : Resource) (l m : List Action) → released r (l ++ m) ≡ released r l + released r m
released-append r [] m = omega arith
released-append r (acquire x ∷ l) m = released-append r l m
released-append r (release x ∷ l) m = omega (arith, released-append r l m)
