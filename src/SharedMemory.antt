-- ===== src/SharedMemory.antt =====
-- The shared memory functions of src/utils.c, with what they take from the system and give back.
pub mod Laws
mod Tests
use mach_ipc.Base.{
  ℕ, Bool, true, false, not, ◌&&◌, ◌||◌, Option, none, some, List, [], ◌∷◌, ◌++◌, ◌==◌,
  if◌then◌else◌,
}
use mach_ipc.Protocol.Types.{KernReturn, success, invalid_argument, other, is_success, port_null}

-- KERN_NO_SPACE of the kernel's headers.
abbrev pub no_space : KernReturn
no_space = other 3

-- `shared_memory_t`
pub record SharedMemory : Type 0 where
  pub address : ℕ
  pub size : ℕ
  pub mem_object : ℕ
  pub is_owner : Bool

-- The object from `calloc`, a region of memory, and a right to a memory entry.
pub data Resource : Type 0 where
  object : Resource
  region : (address size : ℕ) → Resource
  entry : (port : ℕ) → Resource

pub data Action : Type 0 where
  acquire release : Resource → Action

-- The answers of the system: whether `calloc` succeeds, and the answers of `mach_vm_allocate`,
-- `mach_make_memory_entry_64` and `mach_vm_map` with the address or the port.
pub record Answers : Type 0 where
  pub object_made : Bool
  pub vm_allocate : KernReturn × ℕ
  pub make_entry : KernReturn × ℕ
  pub vm_map : KernReturn × ℕ

-- The return code, `*out_shmem` if it is written, and what was done.
pub record Outcome : Type 0 where
  pub result : KernReturn
  pub out_shmem : Option SharedMemory
  pub actions : List Action

abbrev pub gives_up : KernReturn → List Action → Outcome
gives_up kr actions = record { result = kr; out_shmem = none; actions = actions }

-- The memory is allocated.
make_entry : Answers → (size : ℕ) → Outcome
make_entry a size =
    let memory = region a.vm_allocate.1 size in
    if is_success a.make_entry.0
    then record {
      result = success;
      out_shmem = some (record {
        address = a.vm_allocate.1;
        size = size;
        mem_object = a.make_entry.1;
        is_owner = true;
      });
      actions = acquire object ∷ acquire memory ∷ acquire (entry a.make_entry.1) ∷ [];
    }
    else gives_up a.make_entry.0
        (acquire object ∷ acquire memory ∷ release memory ∷ release object ∷ [])

-- `out_given` is whether `out_shmem` is not null.
unfoldable pub shared_memory_create : Answers → (size : ℕ) → (out_given : Bool) → Outcome
unfolding make_entry
shared_memory_create a size out_given =
    if not out_given || size == 0
    then gives_up invalid_argument []
    else if not a.object_made
    then gives_up no_space []
    else if is_success a.vm_allocate.0
    then make_entry a size
    else gives_up a.vm_allocate.0 (acquire object ∷ release object ∷ [])

pub shared_memory_map : Answers → (mem_object size : ℕ) → (out_given : Bool) → Outcome
shared_memory_map a mem_object size out_given =
    if not out_given || mem_object == port_null || size == 0
    then gives_up invalid_argument []
    else if not a.object_made
    then gives_up no_space []
    else if is_success a.vm_map.0
    then record {
      result = success;
      out_shmem =
          some (record {
            address = a.vm_map.1;
            size = size;
            mem_object = mem_object;
            is_owner = false;
          });
      actions = acquire object ∷ acquire (region a.vm_map.1 size) ∷ [];
    }
    else gives_up a.vm_map.0 (acquire object ∷ release object ∷ [])

-- The kernel's answers are only logged.
unfoldable pub shared_memory_destroy : Option SharedMemory → List Action
shared_memory_destroy none = []
shared_memory_destroy (some s) =
    (if s.address == 0 then [] else release (region s.address s.size) ∷ [])
    ++ ((if s.mem_object == port_null then [] else release (entry s.mem_object) ∷ [])
        ++ (release object ∷ []))

pub shared_memory_get_data : Option SharedMemory → ℕ
shared_memory_get_data none = 0
shared_memory_get_data (some s) = s.address

pub shared_memory_get_size : Option SharedMemory → ℕ
shared_memory_get_size none = 0
shared_memory_get_size (some s) = s.size

pub shared_memory_get_port : Option SharedMemory → ℕ
shared_memory_get_port none = port_null
shared_memory_get_port (some s) = s.mem_object
