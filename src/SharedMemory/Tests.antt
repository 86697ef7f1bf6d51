-- ===== src/SharedMemory/Tests.antt =====
-- Shared memory at concrete inputs, and the lemma about it applied.
use mach_ipc.Base.{◌+◌, ◌≡◌, true, arith, if◌then◌else◌}
use mach_ipc.Protocol.Types.{success, failure, is_success}
use mach_ipc.SharedMemory.{
  Answers, entry, shared_memory_create, shared_memory_map, shared_memory_destroy,
}
use mach_ipc.SharedMemory.Laws.{acquired, released, shared_memory_released}

-- The memory entry cannot be made.
abbrev answers : Answers
answers = record {
  object_made = true;
  vm_allocate = (success, 4096);
  make_entry = (failure, 7);
  vm_map = (success, 8192);
}

shared_memory_released_example :
    (acquired (entry 5) (shared_memory_create answers 16 true).actions
      ≡ released (entry 5) (shared_memory_create answers 16 true).actions
        + released
            (entry 5)
            (shared_memory_destroy (shared_memory_create answers 16 true).out_shmem))
    × (acquired (entry 5) (shared_memory_map answers 5 16 true).actions
          + (if is_success (shared_memory_map answers 5 16 true).result then 1 else 0)
        ≡ released (entry 5) (shared_memory_map answers 5 16 true).actions
          + released
              (entry 5)
              (shared_memory_destroy (shared_memory_map answers 5 16 true).out_shmem))
shared_memory_released_example =
    shared_memory_released answers (entry 5)
      (record { allocated = omega arith; port = omega arith; mapped = omega arith }) 5 16 true
