-- ===== src/Echo/Server/Tests.antt =====
-- One client of the echo server: it maps its memory, asks for an echo, and goes.
use mach_ipc.Base.{refl, true, false, none, some, List, [], ◌∷◌, arith}
use mach_ipc.Protocol.Types.{success}
use mach_ipc.SharedMemory.{Answers, entry}
use mach_ipc.SharedMemory.Laws.{IsSane}
use mach_ipc.LinearPool.{LinearPool}
use mach_ipc.Echo.Server.{Entry, msg_type_set_echo_shm, msg_type_echo}
use mach_ipc.Echo.Server.Disconnect.{no_entry, Balanced}
use mach_ipc.Echo.Server.Run.{Event, message, disconnect, run}
use mach_ipc.Echo.Server.Released.{none_locked, run-Balanced}

abbrev answers : Answers
answers = record {
  object_made = true;
  vm_allocate = (success, 4096);
  make_entry = (success, 11);
  vm_map = (success, 8192);
}

answers-IsSane : IsSane answers
answers-IsSane = record {
  allocated = λ e. omega (arith, e);
  port = λ e. omega (arith, e);
  mapped = λ e. omega (arith, e);
}

abbrev visit : List Event
visit =
    message answers 1 5 77 msg_type_set_echo_shm (some 4096)
    ∷ message answers 1 5 0 msg_type_echo none
    ∷ disconnect 1
    ∷ []

abbrev pool : LinearPool Entry
pool = record {
  slots = no_entry ∷ no_entry ∷ [];
  used = false ∷ false ∷ [];
  locks = false ∷ false ∷ [];
  capacity = 2;
}

run-Balanced_example : Balanced (entry 77) pool (run pool visit)
run-Balanced_example =
    run-Balanced (entry 77) visit pool
      (record { slots_size = refl; used_size = refl; unlocked = none_locked 2 })
      (
        (omega arith, answers-IsSane, λ m e. cc),
        ((omega arith, answers-IsSane, λ m. absurd (omega (arith, m))), (omega arith, tt)),
      )
