-- ===== src/Server/Life/Laws.antt =====
-- What is left of a server when it is destroyed or could not be created.
use mach_ipc.Base.{
  ℕ, suc, ==_refl, ◌+◌, ℤ, ◌≡◌, ◌≢◌, refl, true, false, Option, none, some, List, [], ◌∷◌, arith,
  if◌then◌else◌, ◌==◌,
}
use mach_ipc.Pool.Init.{fresh, pool_init_lem}
use mach_ipc.Protocol.Types.{KernReturn, is_success}
use mach_ipc.Protocol.Ack.{Waiter}
use mach_ipc.Resources.Cleanup.{
  Machine, port, clear, Call, free, pool_free, tracker_free, tracker_lock_destroy, mutex_destroy,
  port_destruct, port_deallocate, has_receive_right, cleanup, cleanup_port, cleanup_mutex,
  cleanup_pool,
}
use mach_ipc.Resources.{
  resource_tracker_create, resource_tracker_add, add_to, tracked, resource_tracker_destroy,
  resource_tracker_cleanup_all, cleanup_loop, cleanup_entry,
}
use mach_ipc.Base.{Bool, zero, sym, ◌∙◌, subst, get_or, replicate}
use mach_ipc.Server.Clients.{Client, entry_is, has_id, has_port, max_clients}
use mach_ipc.Server.Clients.Count.{present}
use mach_ipc.Server.Clients.Valid.{Valid, is_at}
use mach_ipc.Server.Life.{
  Server, Startup, no_clients, track_locks, assign, checked_in, clients_lock_at, service_port_at,
  ack_lock_at, ack_pool_at, mach_server_create, mach_server_destroy, with_memory, with_tracker,
  destroy_clients,
}

pub offset : (k a : ℕ) → (a + suc k == 0) ≡ false
offset k a = ground arith

pub apart : (a i j : ℕ) → i ≢ j → (a + i == a + j) ≡ false
apart a i j n = ground arith

module _ (port_type : ℕ → Option ℕ) where
  -- What `mach_server_destroy` calls behind the port: the reverse of what `mach_server_create` made.
  abbrev pub releases : (address : ℕ) → List Call → List Call
  releases address before =
      free address
      ∷ tracker_free
      ∷ tracker_lock_destroy
      ∷ pool_free (ack_pool_at address)
      ∷ mutex_destroy (clients_lock_at address)
      ∷ mutex_destroy (ack_lock_at address)
      ∷ before

  abbrev pub port_release : ℕ → Call
  port_release p = if has_receive_right (port_type p) then port_destruct p else port_deallocate p

  module _ (address : ℕ) (slots : List Waiter) (next : List ℤ) (kr : KernReturn) (service_port : ℕ)
      (m : Machine) where
    -- Both allocations have succeeded.
    abbrev pub allocated : Startup
    allocated = record {
      address = some address;
      tracker_made = true;
      slots = slots;
      next = next;
      check_in = (kr, service_port);
    }

    abbrev started : Server
    started = record {
      address = address;
      table = no_clients;
      ack = record { ack_pool = fresh 255 slots next; next_correlation_id = 1 };
      running = false;
      resources =
          (resource_tracker_add (track_locks address (some (record { resources = [] }))) port
            (service_port_at address) none).1;
    }

    -- If `bootstrap_check_in` fails after both allocations have succeeded, there is no server, and what
    -- `mach_server_create` made is given back, each once and nothing else: the two locks, the pool, the
    -- tracker with its lock, and the object.
    pub mach_server_create_fails :
        is_success kr ≡ false
        → mach_server_create port_type allocated true m
          ≡ some (
            none,
            record (clear m (service_port_at address)) { calls = releases address m.calls },
          )
    unfolding mach_server_create with_memory with_tracker checked_in mach_server_destroy
        resource_tracker_create resource_tracker_add add_to tracked resource_tracker_destroy
        resource_tracker_cleanup_all cleanup_loop cleanup_entry cleanup cleanup_port cleanup_mutex
        cleanup_pool
    mach_server_create_fails bad =
        rw (pool_init_lem 255 slots next, bad, offset 1 address, offset 2 address, offset 3 address)
          refl

    -- A server that has been created, with both allocations and the check-in successful and a port from
    -- it, can be destroyed at once: the service port is released by the right that it has and its
    -- variable cleared, then the two locks, the pool, the tracker's lock, the tracker and the object, each
    -- once and nothing else.
    pub mach_server_destroy-create :
        is_success kr ≡ true
        → service_port ≢ 0
        → (s : Server) × (m' : Machine) × (mach_server_create port_type allocated true m
            ≡ some (some s, m'))
          × (mach_server_destroy port_type (some s) m' ≡ (
            [],
            record m' {
              cells = λ a. if service_port_at address == a then 0 else m'.cells a;
              calls = releases address (port_release service_port ∷ m.calls);
            },
          ))
    unfolding mach_server_create with_memory with_tracker checked_in mach_server_destroy
        destroy_clients resource_tracker_create resource_tracker_add add_to tracked
        resource_tracker_destroy resource_tracker_cleanup_all cleanup_loop cleanup_entry cleanup
        cleanup_port cleanup_mutex cleanup_pool
    mach_server_destroy-create ok n =
        let given : (service_port == 0) ≡ false = ground arith in
        (
          started,
          assign (clear m (service_port_at address)) (service_port_at address) service_port,
          rw (pool_init_lem 255 slots next, ok) refl,
          rw
              (
                offset 0 address,
                offset 1 address,
                offset 2 address,
                offset 3 address,
                ==_refl (service_port_at address),
                given,
              )
              refl,
        )

nobody : (n i : ℕ) → get_or {A = Option Client} (replicate n none) i none ≡ none
nobody zero i = refl
nobody (suc n) zero = refl
nobody (suc n) (suc i) = nobody n i

nobody_passes :
    (test : Client → Bool) (i : ℕ) → entry_is test (get_or no_clients.clients i none) ≡ true → ⊥
nobody_passes test i p =
    let e = subst (λ (x : Option Client). entry_is test x ≡ true) (nobody max_clients i) p in cc

none-some : {c : Client} → ◌≡◌ {A = Option Client} none (some c) → ⊥
none-some e = cc

none-present : (n : ℕ) → 0 ≡ present (replicate n none)
unfolding present
none-present zero = refl
none-present (suc n) = none-present n

-- A new server's client list is valid.
pub no_clients-Valid : Valid no_clients
no_clients-Valid = record {
  counted = record { sized = refl; counted = none-present max_clients };
  live = λ i c e. absurd (none-some (sym (nobody max_clients i) ∙ e));
  ids = λ i c e. absurd (none-some (sym (nobody max_clients i) ∙ e));
  by_id = λ id i j p q. absurd (nobody_passes (has_id id) i p);
  by_port = λ port i j p q. absurd (nobody_passes (has_port port) i p);
  by_address = λ a i j p q. absurd (nobody_passes (is_at a) i p);
}
