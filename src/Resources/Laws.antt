-- ===== src/Resources/Laws.antt =====
-- The order in which the tracker cleans up, and what it cleans up.
use mach_ipc.Base.{
  ℕ, zero, suc, ◌<◌, ◌≤◌, ◌≡◌, refl, ◌⊎◌, true, false, ◌&&◌, Option, none, some, List, [], ◌∷◌,
  ◌++◌, length, length-append, get_elem?, ==_refl, arith, ◌==◌,
}
use native.Mathlib.Nat.{le_refl}
use native.Mathlib.Numerals.{add-one}
use mach_ipc.Resources.Cleanup.{ResourceType, Machine, cleanup}
use mach_ipc.Resources.{
  Tracked, tracked, Tracker, count, max_resources, resource_tracker_add, resource_tracker_remove,
  resource_tracker_cleanup_all, resource_tracker_destroy, deactivate, cleanup_entry, cleanup_loop,
}

get_elem?-append :
    (xs ys : List Tracked) (i : ℕ) → i < length xs → get_elem? (xs ++ ys) i ≡ get_elem? xs i
get_elem?-append [] ys i h = absurd (omega arith)
get_elem?-append (x ∷ xs) ys zero h = refl
get_elem?-append (x ∷ xs) ys (suc i) h = get_elem?-append xs ys i (omega arith)

get_elem?-last : (xs : List Tracked) (x : Tracked) → get_elem? (xs ++ (x ∷ [])) (length xs) ≡ some x
get_elem?-last [] x = refl
get_elem?-last (y ∷ xs) x = get_elem?-last xs x

-- `resource` has no active entry.
abbrev pub Untracked : ℕ → List Tracked → Type 0
Untracked resource [] = Unit
Untracked resource (r ∷ rs) = ((r.active && r.resource == resource) ≡ false) × Untracked resource rs

module _ (port_type : ℕ → Option ℕ) where
  loop-append :
      (left : ℕ) (xs ys : List Tracked) (m : Machine)
      → left ≤ length xs
      → cleanup_loop port_type (xs ++ ys) left m ≡ cleanup_loop port_type xs left m
  unfolding cleanup_loop
  loop-append zero xs ys m h = refl
  loop-append (suc left) xs ys m h =
      rw (get_elem?-append xs ys left h)
        (loop-append left xs ys (cleanup_entry port_type (get_elem? xs left) m) (omega arith))

  loop_suc :
      (left : ℕ) (xs : List Tracked) (m : Machine)
      → cleanup_loop port_type xs (suc left) m
        ≡ cleanup_loop port_type xs left (cleanup_entry port_type (get_elem? xs left) m)
  unfolding cleanup_loop
  loop_suc left xs m = refl

  loop_last :
      (xs : List Tracked) (x : Tracked) (m : Machine)
      → cleanup_loop port_type (xs ++ (x ∷ [])) (length (xs ++ (x ∷ []))) m
        ≡ cleanup_loop port_type xs (length xs) (cleanup_entry port_type (some x) m)
  loop_last xs x m =
      rw
        (
          length-append xs (x ∷ []),
          add-one (length xs),
          loop_suc (length xs) (xs ++ (x ∷ [])) m,
          get_elem?-last xs x,
        )
        (loop-append (length xs) xs (x ∷ []) (cleanup_entry port_type (some x) m)
          (le_refl (length xs)))

  added :
      (t t' : Tracker) (type : ResourceType) (resource : ℕ) (custom : Option ℕ)
      → resource_tracker_add (some t) type resource custom ≡ (true, some t')
      → t'.resources ≡ t.resources ++ (tracked type resource custom ∷ [])
  unfolding resource_tracker_add
  added t t' type resource custom e = ground arith

  not_null :
      (t t' : Tracker) (type : ResourceType) (resource : ℕ) (custom : Option ℕ)
      → resource_tracker_add (some t) type resource custom ≡ (true, some t')
      → (resource == 0) ≡ false
  unfolding resource_tracker_add
  not_null t t' type resource custom e = ground arith

  -- Cleanup is stack-like: after a successful `resource_tracker_add`, `resource_tracker_cleanup_all`
  -- cleans the new resource first and then does all that it would have done before.
  pub cleanup_all-add :
      (t t' : Tracker) (type : ResourceType) (resource : ℕ) (custom : Option ℕ) (m : Machine)
      → resource_tracker_add (some t) type resource custom ≡ (true, some t')
      → (resource_tracker_cleanup_all port_type (some t') m).0
        ≡ (resource_tracker_cleanup_all port_type
            (some t)
            (cleanup port_type type resource custom m)).0
  unfolding resource_tracker_cleanup_all cleanup_entry tracked
  cleanup_all-add t t' type resource custom m e =
      rw (added t t' type resource custom e)
        (loop_last t.resources (tracked type resource custom) m)

  deactivate_last :
      (rs : List Tracked) (x : Tracked)
      → Untracked x.resource rs
      → x.active ≡ true
      → deactivate x.resource (rs ++ (x ∷ [])) ≡ (true, rs ++ (record x { active = false } ∷ []))
  unfolding deactivate
  deactivate_last [] x u a = ground (arith, ==_refl x.resource)
  deactivate_last (r ∷ rs) x u a = rw (u.0, deactivate_last rs x u.1 a)

  -- A resource that was not tracked is given back by `resource_tracker_remove`: after adding and
  -- removing it, `resource_tracker_cleanup_all` does what it would have done without.
  pub remove-add :
      (t t' : Tracker) (type : ResourceType) (resource : ℕ) (custom : Option ℕ) (m : Machine)
      → Untracked resource t.resources
      → resource_tracker_add (some t) type resource custom ≡ (true, some t')
      → let (found, t'') = resource_tracker_remove (some t') resource in
        (found ≡ true)
        × ((resource_tracker_cleanup_all port_type t'' m).0
            ≡ (resource_tracker_cleanup_all port_type (some t) m).0)
  unfolding resource_tracker_remove resource_tracker_cleanup_all cleanup_entry tracked
  remove-add t t' type resource custom m u e =
      rw
        (
          not_null t t' type resource custom e,
          added t t' type resource custom e,
          deactivate_last t.resources (tracked type resource custom) u refl,
        )
        (refl, loop_last t.resources (record (tracked type resource custom) { active = false }) m)

  -- With a tracker and a resource, `resource_tracker_add` fails for a null resource and when 256
  -- entries are there, and then it changes nothing.
  pub add_fails :
      (t : Tracker) (type : ResourceType) (resource : ℕ) (custom : Option ℕ)
      → (resource ≡ 0) ⊎ (max_resources ≤ count t)
      → resource_tracker_add (some t) type resource custom ≡ (false, some t)
  unfolding resource_tracker_add
  add_fails t type resource custom h = ground arith

  -- After `resource_tracker_cleanup_all` there is nothing left for `resource_tracker_destroy` to do.
  pub destroy-cleanup_all :
      (t : Option Tracker) (m : Machine)
      → let (m', t') = resource_tracker_cleanup_all port_type t m in
        resource_tracker_destroy port_type t' m' ≡ resource_tracker_destroy port_type t m
  unfolding resource_tracker_destroy cleanup_loop
  destroy-cleanup_all none m = refl
  destroy-cleanup_all (some t) m = refl
