-- ===== src/Resources.antt =====
-- src/resources.c: the resource tracker. The array is the list of its first `count` elements; the
-- lock is held over each whole body. A resource is the address of the variable that holds a
-- handle, and 0 is the null address and the null handle. Log messages and debug names are left out.
pub mod Cleanup
pub mod Laws
mod Tests
use mach_ipc.Base.{
  ℕ, zero, suc, ◌+◌, ◌-◌, Bool, true, false, not, ◌&&◌, ◌||◌, Option, none, some, List, [], ◌∷◌,
  ◌++◌, length, get_elem?, leb, ◌==◌, if◌then◌else◌,
}
use Cleanup.{ResourceType, Machine, call, tracker_lock_destroy, tracker_free, cleanup}

-- MAX_RESOURCES
abbrev pub max_resources : ℕ
max_resources = 256

-- `tracked_resource_t`
pub record Tracked : Type 0 where
  pub resource : ℕ
  pub type : ResourceType
  pub custom_cleanup : Option ℕ
  pub active : Bool

-- `resource_tracker_t`
pub record Tracker : Type 0 where
  pub resources : List Tracked

abbrev pub count : Tracker → ℕ
count t = length t.resources

-- `resource_tracker_create`; `allocated` is whether `calloc` succeeded.
unfoldable pub resource_tracker_create : (allocated : Bool) → Option Tracker
resource_tracker_create false = none
resource_tracker_create true = some (record { resources = [] })

unfoldable pub tracked : ResourceType → ℕ → Option ℕ → Tracked
tracked type resource custom = record {
  resource = resource;
  type = type;
  custom_cleanup = custom;
  active = true;
}

-- The body of `resource_tracker_add` behind the test for a null tracker.
unfoldable pub add_to : Tracker → ResourceType → ℕ → Option ℕ → Bool × Tracker
unfolding tracked
add_to t type resource custom =
    if resource == 0
    then (false, t)
    else if leb max_resources (count t)
    then (false, t)
    else (true, record { resources = t.resources ++ (tracked type resource custom ∷ []) })

unfoldable pub resource_tracker_add :
    Option Tracker → ResourceType → ℕ → Option ℕ → Bool × Option Tracker
unfolding add_to
resource_tracker_add none type resource custom = (false, none)
resource_tracker_add (some t) type resource custom =
    let (r, t') = add_to t type resource custom in (r, some t')

-- The first active entry of the resource becomes inactive.
pub deactivate : ℕ → List Tracked → Bool × List Tracked
deactivate resource [] = (false, [])
deactivate resource (r ∷ rs) =
    let (found, rs') = deactivate resource rs in
    if r.active && r.resource == resource
    then (true, record r { active = false } ∷ rs)
    else (found, r ∷ rs')

pub resource_tracker_remove : Option Tracker → ℕ → Bool × Option Tracker
resource_tracker_remove none resource = (false, none)
resource_tracker_remove (some t) resource =
    if resource == 0
    then (false, some t)
    else let (found, rs) = deactivate resource t.resources in
      (found, some (record { resources = rs }))

-- One round of the loop of `resource_tracker_cleanup_all`, on entry `i`. The entry is not read
-- again before `count` is reset, so that it becomes inactive does not show.
unfoldable pub cleanup_entry : (ℕ → Option ℕ) → Option Tracked → Machine → Machine
cleanup_entry port_type none m = m
cleanup_entry port_type (some r) m =
    if r.active then cleanup port_type r.type r.resource r.custom_cleanup m else m

-- `for (int i = count - 1; i >= 0; i--)`, with the entries 0 to `left` - 1 to go.
unfoldable pub cleanup_loop : (ℕ → Option ℕ) → List Tracked → (left : ℕ) → Machine → Machine
cleanup_loop port_type rs zero m = m
cleanup_loop port_type rs (suc i) m =
    cleanup_loop port_type rs i (cleanup_entry port_type (get_elem? rs i) m)

unfoldable pub resource_tracker_cleanup_all :
    (ℕ → Option ℕ) → Option Tracker → Machine → Machine × Option Tracker
resource_tracker_cleanup_all port_type none m = (m, none)
resource_tracker_cleanup_all port_type (some t) m =
    (cleanup_loop port_type t.resources (count t) m, some (record { resources = [] }))

unfoldable pub resource_tracker_destroy : (ℕ → Option ℕ) → Option Tracker → Machine → Machine
unfolding resource_tracker_cleanup_all
resource_tracker_destroy port_type none m = m
resource_tracker_destroy port_type (some t) m =
    call (call (resource_tracker_cleanup_all port_type (some t) m).0 tracker_lock_destroy)
      tracker_free
