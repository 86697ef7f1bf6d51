-- ===== src/Echo/Client/Tests.antt =====
-- Runs of the client's `main`.
use mach_ipc.Base.{◌≡◌, refl, true, false, pos}
use mach_ipc.Protocol.Types.{success}
use mach_ipc.SharedMemory.{Answers, shared_memory_create}
use mach_ipc.Echo.Client.{World, main}

abbrev answers : Answers
answers = record {
  object_made = true;
  vm_allocate = (success, 4096);
  make_entry = (success, 11);
  vm_map = (success, 8192);
}

abbrev world : World
world = record {
  client_made = true;
  thread_made = true;
  connect_status = pos 0;
  memory = answers;
  set_status = pos 0;
  echo_status = pos 1001;
  silent_status = pos 0;
  lost = λ g. false;
}

exit_code : (main world).0 ≡ 0
unfolding main shared_memory_create
exit_code = refl
