-- ===== src/Echo/Server/Disconnect.antt =====
-- What becomes of a client's memory when it disconnects.
use mach_ipc.Base.{
  ℕ, ◌+◌, ◌<◌, ◌≡◌, refl, Bool, true, false, Option, none, some, List, [], ◌∷◌, length, get_or, set,
  pos, arith, if◌then◌else◌, zero, suc, Bool-cases, inl, inr, get_elem?-eq-get_or, store-eq-some,
  set-get_or, ap, sym, ◌∙◌, length-set,
}
use mach_ipc.SharedMemory.{SharedMemory, Resource, Action, shared_memory_destroy}
use mach_ipc.SharedMemory.Laws.{acquired, released}
use mach_ipc.LinearPool.{LinearPool, lock, unlock}
use mach_ipc.LinearPool.Alone.{lock_alone, get_alone, unlock_alone, remove_alone, set-set-false}
use mach_ipc.Echo.Server.{Entry, clear_entry, disconnect_locked, on_client_disconnected}

abbrev pub no_entry : Entry
no_entry = record { shmem = none; client_id = 0 }

-- How often a resource would be released if each active entry were destroyed.
abbrev pub part : Resource → Entry → Bool → ℕ
part r e u = if u then released r (shared_memory_destroy e.shmem) else 0

abbrev pub holds : Resource → List Entry → List Bool → ℕ
holds r (e ∷ es) (u ∷ us) = part r e u + holds r es us
holds r _ _ = 0

pub holds-set :
    (r : Resource) (es : List Entry) (us : List Bool) (i : ℕ) (e : Entry) (u : Bool)
    → i < length es
    → i < length us
    → holds r (set es i e) (set us i u) + part r (get_or es i no_entry) (get_or us i false)
      ≡ holds r es us + part r e u
holds-set r [] us i e u h g = absurd (omega arith)
holds-set r (x ∷ es) [] i e u h g = absurd (omega arith)
holds-set r (x ∷ es) (y ∷ us) zero e u h g = omega arith
holds-set r (x ∷ es) (y ∷ us) (suc i) e u h g =
    omega (arith, holds-set r es us i e u (omega arith) (omega arith))

pub record IsSized (p : LinearPool Entry) : Type 0 where
  pub slots_size : length p.slots ≡ p.capacity
  pub used_size : length p.used ≡ p.capacity
  -- No callback is at work.
  pub unlocked : (j : ℕ) → get_or p.locks j false ≡ false

module _ (p : LinearPool Entry) (i : ℕ) (lt : i < p.capacity) (sized : IsSized p) where
  abbrev mine : Entry
  mine = get_or p.slots i no_entry

  abbrev without : LinearPool Entry
  without = record p {
    slots = set p.slots i (record mine { shmem = none });
    used = set p.used i false;
    locks = set (set p.locks i true) i false;
  }

  abbrev emptied : Option SharedMemory → List Entry
  emptied o = set p.slots i (record mine { shmem = o })

  there : i < length p.slots
  there = omega (arith, sized.slots_size)

  clear_lem :
      (o : Option SharedMemory)
      → mine.shmem ≡ o
      → clear_entry (lock p i) (some i)
        ≡ some (shared_memory_destroy mine.shmem, record (lock p i) { slots = emptied none })
  unfolding clear_entry shared_memory_destroy
  clear_lem none e =
      rw
        (
          get_elem?-eq-get_or p.slots i no_entry there,
          store-eq-some p.slots i (record mine { shmem = none }) there,
          e,
        )
        (ap (λ xs. some ([], record (lock p i) { slots = xs }))
          (sym (ap emptied (sym e) ∙ set-get_or p.slots i no_entry)))
  clear_lem (some m) e = rw (
    get_elem?-eq-get_or p.slots i no_entry there,
    store-eq-some p.slots i (record mine { shmem = none }) there,
    e,
  )

  disconnect_active :
      get_or p.used i false ≡ true
      → on_client_disconnected p (pos i) ≡ some (shared_memory_destroy mine.shmem, without)
  unfolding on_client_disconnected disconnect_locked
  disconnect_active u =
      let after : LinearPool Entry = record (lock p i) { slots = emptied none } in
      rw
        (
          lock_alone p i lt (sized.unlocked i),
          u,
          get_alone (lock p i) i lt,
          u,
          clear_lem mine.shmem refl,
        )
        (rw (unlock_alone after i lt, remove_alone (unlock after i) i lt))

  disconnect_inactive :
      get_or p.used i false ≡ false
      → on_client_disconnected p (pos i) ≡ some ([], record p { used = set p.used i false })
  unfolding on_client_disconnected disconnect_locked
  disconnect_inactive u = rw (lock_alone p i lt (sized.unlocked i), u, remove_alone p i lt)

-- What a callback did: it returned, and for the resource `r` what came in and was held before is what
-- was released and is held now.
pub record Balanced (r : Resource) (p : LinearPool Entry)
    (result : Option (List Action × LinearPool Entry)) : Type 0 where
  pub actions : List Action
  pub after : LinearPool Entry
  pub returns : result ≡ some (actions, after)
  pub balance :
      acquired r actions + holds r p.slots p.used
      ≡ released r actions + holds r after.slots after.used
  pub sized : IsSized after
  pub same_capacity : after.capacity ≡ p.capacity

destroy-acquired :
    (r : Resource) (o : Option SharedMemory) → acquired r (shared_memory_destroy o) ≡ 0
unfolding shared_memory_destroy
destroy-acquired r none = refl
destroy-acquired r (some m) = ground arith

pub destroy-none : (r : Resource) → released r (shared_memory_destroy none) ≡ 0
unfolding shared_memory_destroy
destroy-none r = refl

module _ (r : Resource) (p : LinearPool Entry) (i : ℕ) (lt : i < p.capacity)
    (sized : IsSized p) where
  pub disconnect-Balanced : Balanced r p (on_client_disconnected p (pos i))
  disconnect-Balanced = elim (Bool-cases (get_or p.used i false)) [
    | inl u ↦ record {
      actions = shared_memory_destroy (mine p i lt sized).shmem;
      after = without p i lt sized;
      returns = disconnect_active p i lt sized u;
      balance =
          let e = record (mine p i lt sized) { shmem = none } in
          ground (
            arith,
            destroy-acquired r (mine p i lt sized).shmem,
            holds-set r p.slots p.used i e false (there p i lt sized)
                (omega (arith, sized.used_size)),
          );
      sized = record {
        slots_size = length-set p.slots i _ ∙ sized.slots_size;
        used_size = length-set p.used i false ∙ sized.used_size;
        unlocked = set-set-false p.locks i sized.unlocked;
      };
      same_capacity = refl;
    }
    | inr u ↦ record {
      actions = [];
      after = p;
      returns =
          disconnect_inactive p i lt sized u
          ∙ ap (λ us. some ([], record p { used = us }))
              (ap (set p.used i) (sym u) ∙ set-get_or p.used i false);
      balance = refl;
      sized = sized;
      same_capacity = refl;
    }
  ]
