-- ===== src/Echo/Client/Laws.antt =====
-- What `main` leaves behind.
use mach_ipc.Base.{ℕ, ◌≡◌, ◌<◌, true, false, none, ◌+◌}
use mach_ipc.SharedMemory.{SharedMemory, Resource, shared_memory_destroy}
use mach_ipc.SharedMemory.Laws.{acquired, released, IsSane}
use mach_ipc.Echo.Client.{Gap, while_connecting, World, State, initial_state, gap}

-- The lock is destroyed once and not asked for afterwards, the shared memory is gone and given back,
-- and a client that was made is destroyed once.
pub record Clean (r : Resource) (clients : ℕ) (s : State) : Type 0 where
  pub lock_gone : s.lock_destroyed ≡ 1
  pub lock_kept : s.lock_misused ≡ 0
  pub memory_gone : s.shmem ≡ none
  pub memory_back : acquired r s.actions ≡ released r s.actions
  pub client_gone : s.clients_destroyed ≡ clients

-- The connection stands.
record Standing (r : Resource) (s : State) : Type 0 where
  connected : s.connected ≡ true
  lock_alive : s.lock_destroyed ≡ 0
  lock_kept : s.lock_misused ≡ 0
  client_alive : s.clients_destroyed ≡ 0
  balance : acquired r s.actions ≡ released r s.actions + released r (shared_memory_destroy s.shmem)

module _ (w : World) (r : Resource) (sane : IsSane w.memory)
    (quiet : (g : Gap) → w.lost g ≡ false) where
  abbrev connected_start : State
  connected_start =
      record (gap w while_connecting (record initial_state { running = w.thread_made })) {
        connected = true;
      }

-- Once a destroyed lock was asked for, that stays so.
module _ (w : World) where
  abbrev Misused : State → Type 0
  Misused s = 0 < s.lock_misused

  -- Before `main` asks for the lock for the first time.
  abbrev first_state : State
  first_state = gap w while_connecting (record initial_state { running = w.thread_made })
