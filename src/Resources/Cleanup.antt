-- ===== src/Resources/Cleanup.antt =====
-- The cleanup functions of src/resources.c, over the variables that hold the handles and the list
-- of the calls that are made into the kernel and the C library.
use mach_ipc.Base.{
  ℕ, ◌^◌, Bool, false, not, Option, none, some, List, ◌∷◌, ◌==◌, if◌then◌else◌, bit_and,
}

-- `resource_type_t`
pub data ResourceType : Type 0 where
  port memory queue thread mutex pool custom : ResourceType

-- The calls, each with the handle, or with the address of the resource itself; the last two are those on
-- the tracker's own lock and memory.
pub data Call : Type 0 where
  port_destruct port_deallocate free queue_drain queue_release thread_join : ℕ → Call
  mutex_destroy pool_free : ℕ → Call
  tracker_lock_destroy tracker_free : Call
  custom_cleanup : (function resource : ℕ) → Call

-- `cells` holds the handle at an address, `calls` the calls made so far, the last one first.
pub record Machine : Type 0 where
  pub cells : ℕ → ℕ
  pub calls : List Call

abbrev pub call : Machine → Call → Machine
call m c = record m { calls = c ∷ m.calls }

-- `*res = NULL`
abbrev pub clear : Machine → ℕ → Machine
clear m a = record m { cells = λ b. if a == b then 0 else m.cells b }

-- MACH_PORT_TYPE_RECEIVE of the kernel's headers, MACH_PORT_TYPE(MACH_PORT_RIGHT_RECEIVE).
abbrev pub port_type_receive : ℕ
port_type_receive = 2 ^ 17

-- `port_type` is `mach_port_type`: the rights of a port, or `none` for an error.
unfoldable pub has_receive_right : Option ℕ → Bool
has_receive_right none = false
has_receive_right (some type) = not (bit_and type port_type_receive == 0)

unfoldable pub cleanup_port : (ℕ → Option ℕ) → ℕ → Machine → Machine
unfolding has_receive_right
cleanup_port port_type res m =
    let port = m.cells res in
    if port == 0
    then m
    else clear
        (call m
          (if has_receive_right (port_type port) then port_destruct port else port_deallocate port))
        res

unfoldable pub cleanup_memory : ℕ → Machine → Machine
cleanup_memory res m =
    let ptr = m.cells res in if ptr == 0 then m else clear (call m (free ptr)) res

unfoldable pub cleanup_queue : ℕ → Machine → Machine
cleanup_queue res m =
    let queue = m.cells res in
    if queue == 0 then m else clear (call (call m (queue_drain queue)) (queue_release queue)) res

unfoldable pub cleanup_thread : ℕ → Machine → Machine
cleanup_thread res m =
    let thread = m.cells res in if thread == 0 then m else clear (call m (thread_join thread)) res

unfoldable pub cleanup_mutex : ℕ → Machine → Machine
cleanup_mutex res m = call m (mutex_destroy res)

unfoldable pub cleanup_pool : ℕ → Machine → Machine
cleanup_pool res m = call m (pool_free res)

unfoldable pub run_custom : Option ℕ → ℕ → Machine → Machine
run_custom none res m = m
run_custom (some f) res m = call m (custom_cleanup f res)

-- The `switch` of `resource_tracker_cleanup_all`.
unfoldable pub cleanup : (ℕ → Option ℕ) → ResourceType → ℕ → Option ℕ → Machine → Machine
unfolding cleanup_port cleanup_memory cleanup_queue cleanup_thread cleanup_mutex cleanup_pool
    run_custom
cleanup port_type port res f m = cleanup_port port_type res m
cleanup port_type memory res f m = cleanup_memory res m
cleanup port_type queue res f m = cleanup_queue res m
cleanup port_type thread res f m = cleanup_thread res m
cleanup port_type mutex res f m = cleanup_mutex res m
cleanup port_type pool res f m = cleanup_pool res m
cleanup port_type custom res f m = run_custom f res m
