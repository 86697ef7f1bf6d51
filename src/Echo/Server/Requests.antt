-- ===== src/Echo/Server/Requests.antt =====
-- What one request to the echo server acquires, releases and keeps.
use mach_ipc.Base.{
  ℕ, ◌+◌, ◌<◌, ◌≡◌, ◌≢◌, refl, true, false, Option, none, some, [], get_or, get_elem?-eq-get_or,
  pos, arith, if◌then◌else◌, Bool-cases, inl, inr, ◌==◌, length-set, ap, ◌∙◌,
}
use mach_ipc.Protocol.Types.{port_null, is_success}
use mach_ipc.SharedMemory.{
  SharedMemory, Resource, Answers, entry, shared_memory_map, shared_memory_destroy,
}
use mach_ipc.SharedMemory.Laws.{
  acquired, released, once, same, IsSane, map_released, map_failed, map_null,
}
use mach_ipc.LinearPool.{LinearPool, lock}
use mach_ipc.LinearPool.Alone.{
  set-set-false, lock_alone, get_alone, is_active_alone, set_alone, unlock_alone,
}
use mach_ipc.Echo.Server.{
  Entry, Handled, on_message_with_reply, set_echo_shm, map_memory, keep_mapping, echo, after_lock,
  shmem_at, echo_locked, msg_type_set_echo_shm, msg_type_echo,
}
use mach_ipc.Echo.Server.Disconnect.{holds, holds-set, no_entry, IsSized, destroy-none}

-- A right to the port, if it is not null.
abbrev pub right : Resource → ℕ → ℕ
right r port = if port == port_null then 0 else once (same r (entry port))

-- What the callback itself did.
pub record Fair (r : Resource) (p : LinearPool Entry) (port : ℕ) (result : Option Handled)
    : Type 0 where
  pub handled : Handled
  pub returns : result ≡ some handled
  pub balance :
      acquired r handled.actions + right r port + holds r p.slots p.used
      ≡ released r handled.actions
        + right r handled.remote_port
        + holds r handled.pool.slots handled.pool.used
  pub sized : IsSized handled.pool
  pub same_capacity : handled.pool.capacity ≡ p.capacity

module _ (r : Resource) (p : LinearPool Entry) (i : ℕ) (lt : i < p.capacity)
    (sized : IsSized p) where
  -- A callback that keeps the port, acquires nothing and leaves the entries alone.
  untouched :
      (port : ℕ) (h : Handled)
      → h.actions ≡ []
      → h.remote_port ≡ port
      → h.pool.slots ≡ p.slots
      → h.pool.used ≡ p.used
      → h.pool.capacity ≡ p.capacity
      → ((j : ℕ) → get_or h.pool.locks j false ≡ false)
      → Fair r p port (some h)
  untouched port h none_done kept slots used capacity unlocked = record {
    handled = h;
    returns = refl;
    balance = rw (none_done, kept, slots, used) refl;
    sized = record {
      slots_size = rw (slots, capacity) sized.slots_size;
      used_size = rw (used, capacity) sized.used_size;
      unlocked = unlocked;
    };
    same_capacity = capacity;
  }

  mapping :
      (a : Answers) (client_id port size : ℕ)
      → IsSane a
      → get_or p.used i false ≡ false
      → Fair r p port (some (map_memory a p (pos i) client_id port size))
  unfolding map_memory keep_mapping
  mapping a client_id port size sane free =
      let mapped = shared_memory_map a port size true in
      elim (Bool-cases (is_success mapped.result)) [
        | inl good ↦
            rw (good, set_alone p i lt (record { shmem = mapped.out_shmem; client_id = client_id }))
              (record {
                handled = _;
                returns = refl;
                balance = ground (
                  arith,
                  map_released a r sane port size true,
                  map_null a port size true good,
                  holds-set r p.slots p.used i
                      (record { shmem = mapped.out_shmem; client_id = client_id }) true
                      (omega (arith, sized.slots_size)) (omega (arith, sized.used_size)),
                );
                sized = record {
                  slots_size = length-set p.slots i _ ∙ sized.slots_size;
                  used_size = length-set p.used i true ∙ sized.used_size;
                  unlocked = sized.unlocked;
                };
                same_capacity = refl;
              })
        | inr bad ↦ rw bad (record {
          handled = _;
          returns = refl;
          balance = ground (
            arith,
            map_released a r sane port size true,
            ap (λ o. released r (shared_memory_destroy o)) (map_failed a port size true bad),
            destroy-none r,
          );
          sized = sized;
          same_capacity = refl;
        })
      ]

  echoing : (port : ℕ) → Fair r p port (echo p (pos i) port)
  unfolding echo after_lock shmem_at echo_locked
  echoing port = elim (Bool-cases (get_or p.used i false)) [
    | inl u ↦
        rw
          (
            lock_alone p i lt (sized.unlocked i),
            u,
            get_alone (lock p i) i lt,
            u,
            get_elem?-eq-get_or p.slots i no_entry (omega (arith, sized.slots_size)),
          )
          (at_entry (get_or p.slots i no_entry).shmem)
    | inr u ↦
        rw (lock_alone p i lt (sized.unlocked i), u)
          (untouched port _ refl refl refl refl refl sized.unlocked)
  ]
    where
      at_entry :
          (o : Option SharedMemory) → Fair r p port (some (echo_locked (lock p i) (pos i) port o))
      at_entry none =
          rw (unlock_alone (lock p i) i lt)
            (untouched port _ refl refl refl refl refl (set-set-false p.locks i sized.unlocked))
      at_entry (some m) =
          rw (unlock_alone (lock p i) i lt)
            (untouched port _ refl refl refl refl refl (set-set-false p.locks i sized.unlocked))

  setting :
      (a : Answers) (client_id port : ℕ) (size : Option ℕ)
      → IsSane a
      → size ≢ none
      → Fair r p port (set_echo_shm a p (pos i) client_id port size)
  unfolding set_echo_shm
  setting a client_id port none sane given = absurd (given refl)
  setting a client_id port (some n) sane given = elim (Bool-cases (get_or p.used i false)) [
    | inl u ↦
        rw (is_active_alone p i lt, u) (untouched port _ refl refl refl refl refl sized.unlocked)
    | inr u ↦ rw (is_active_alone p i lt, u) (mapping a client_id port n sane u)
  ]

  pub answering :
      (a : Answers) (client_id port msg_type : ℕ) (size : Option ℕ)
      → IsSane a
      → (msg_type ≡ msg_type_set_echo_shm → size ≢ none)
      → Fair r p port (on_message_with_reply a p (pos i) client_id port msg_type size)
  unfolding on_message_with_reply
  answering a client_id port msg_type size sane given =
      elim (Bool-cases (msg_type == msg_type_set_echo_shm)) [
        | inl m ↦ rw m (setting a client_id port size sane (given (ground arith)))
        | inr other ↦ elim (Bool-cases (msg_type == msg_type_echo)) [
          | inl m ↦ rw (other, m) (echoing port)
          | inr n ↦ rw (other, n) (untouched port _ refl refl refl refl refl sized.unlocked)
        ]
      ]
