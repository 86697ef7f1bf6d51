-- ===== src/Resources/Tests.antt =====
-- A tracker with two resources, and the lemmas about cleanup applied.
use mach_ipc.Base.{ℕ, ◌≡◌, refl, Option, none, some, [], ◌∷◌, get_or}
use mach_ipc.Resources.Cleanup.{
  port, memory, queue, Machine, tracker_free, tracker_lock_destroy, cleanup, queue_drain,
  queue_release, free, port_destruct,
}
use mach_ipc.Resources.{
  Tracker, tracked, resource_tracker_add, resource_tracker_cleanup_all, resource_tracker_destroy,
  cleanup_loop, cleanup_entry,
}
use mach_ipc.Resources.Laws.{cleanup_all-add}

-- Every port has a receive right.
port_type : ℕ → Option ℕ
port_type p = some 0x20000

-- Port 51 in the variable at 1, memory at 52 in that at 2, and so on.
abbrev machine : Machine
machine = record { cells = λ a. get_or (0 ∷ 51 ∷ 52 ∷ 53 ∷ []) a 0; calls = [] }

abbrev before : Tracker
before = record { resources = tracked port 1 none ∷ tracked memory 2 none ∷ [] }

abbrev after : Tracker
after = record {
  resources = tracked port 1 none ∷ tracked memory 2 none ∷ tracked queue 3 none ∷ [];
}

-- The last call comes first in the list: the queue is cleaned up before the memory and the port.
cleanup_order :
    (resource_tracker_destroy port_type (some after) machine).calls
    ≡ tracker_free
      ∷ tracker_lock_destroy
      ∷ port_destruct 51
      ∷ free 52
      ∷ queue_release 53
      ∷ queue_drain 53
      ∷ []
unfolding resource_tracker_destroy cleanup_loop cleanup_entry cleanup tracked port_type
cleanup_order = refl

cleanup_all-add_example :
    (resource_tracker_cleanup_all port_type (some after) machine).0
    ≡ (resource_tracker_cleanup_all port_type
        (some before)
        (cleanup port_type queue 3 none machine)).0
unfolding resource_tracker_add
cleanup_all-add_example = cleanup_all-add port_type before after queue 3 none machine refl
