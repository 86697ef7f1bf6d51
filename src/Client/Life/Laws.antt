-- ===== src/Client/Life/Laws.antt =====
-- What is left of a client when it is destroyed or could not be created.
use mathlib.Core.Option.{some-injective}
use mach_ipc.Base.{
  ℕ, ◌≡◌, ◌≢◌, refl, sym, ◌∙◌, Bool, true, false, Option, none, some, List, [], ◌∷◌, ℤ, pos, arith,
  ==_refl, ◌==◌, length, ap, inl, inr,
}
use mach_ipc.Pool.Init.{fresh, count_up, fresh-Inv, pool_init_lem}
use mach_ipc.Protocol.Types.{ipc_success}
use mach_ipc.Protocol.Ack.{Waiter, Incoming}
use mach_ipc.Protocol.WithAck.{Shared}
use mach_ipc.Resources.Cleanup.{
  queue, mutex, pool, Machine, Call, free, pool_free, tracker_free, tracker_lock_destroy,
  mutex_destroy, queue_drain, queue_release, thread_join, cleanup, cleanup_port, cleanup_mutex,
  cleanup_pool, cleanup_queue, cleanup_thread,
}
use mach_ipc.Resources.{
  resource_tracker_create, resource_tracker_add, add_to, tracked, resource_tracker_destroy,
  resource_tracker_cleanup_all, cleanup_loop, cleanup_entry,
}
use mach_ipc.Server.Life.{assign, pool_free_function, mutex_destroy_function}
use mach_ipc.Server.Life.Laws.{offset, apart, port_release}
use mach_ipc.Client.State.{
  MachClient, server_port_at, local_port_at, message_queue_at, receiver_thread_at, ack_pool_at,
  ack_lock_at,
}
use mach_ipc.Client.Life.{
  Startup, zeroed, dispatch_release_function, with_memory, with_tracker, with_queue,
  mach_client_create, mach_client_disconnect, mach_client_destroy,
}
use mach_ipc.Client.Connect.{
  Answers, Result, Loss, no_loss, while_waiting, when_connected, lost_waiting, lost_connected,
  mach_client_connect,
}
use mach_ipc.Client.Connect.Results.{
  tracking, assigned, waiting, Connects, failed, accepted, connected_by, Finishes,
}
use mach_ipc.Client.Connect.Laws.{mach_client_connect_lem}

module _ (port_type : ℕ → Option ℕ) (address : ℕ) (slots : List Waiter) (next : List ℤ)
    (message_queue : ℕ) (m : Machine) where
  -- Both allocations have succeeded.
  abbrev pub allocated : Startup
  allocated = record {
    address = some address;
    tracker_made = true;
    slots = slots;
    next = next;
    message_queue = message_queue;
  }

  abbrev pub made : MachClient
  made = record {
    address = address;
    connected = false;
    running = false;
    client_id = 0;
    client_slot = pos 0;
    ack = record { ack_pool = fresh 255 slots next; next_correlation_id = 1 };
    resources =
        (resource_tracker_add
          (resource_tracker_add
            (resource_tracker_add (some (record { resources = [] })) pool (ack_pool_at address)
              pool_free_function).1
            queue (message_queue_at address) dispatch_release_function).1
          mutex (ack_lock_at address) mutex_destroy_function).1;
  }

  abbrev pub variables : Machine
  variables = assign (zeroed m address) (message_queue_at address) message_queue

  -- Without a queue there is no client, and what `mach_client_create` made is given back, each once and
  -- nothing else: the pool, the tracker with its lock, and the object. Both allocations are taken to have succeeded.
  pub mach_client_create_fails :
      message_queue ≡ 0
      → mach_client_create port_type allocated m
        ≡ some (
          none,
          record variables {
            calls =
                free address
                ∷ tracker_free
                ∷ tracker_lock_destroy
                ∷ pool_free (ack_pool_at address)
                ∷ m.calls;
          },
        )
  unfolding mach_client_create with_memory with_tracker with_queue resource_tracker_create
      resource_tracker_add add_to tracked resource_tracker_destroy resource_tracker_cleanup_all
      cleanup_loop cleanup_entry cleanup cleanup_pool
  mach_client_create_fails e =
      let null : (message_queue == 0) ≡ true = ground arith in
      rw (pool_init_lem 255 slots next, null, offset 4 address) refl

  created :
      message_queue ≢ 0 → mach_client_create port_type allocated m ≡ some (some made, variables)
  unfolding mach_client_create with_memory with_tracker with_queue resource_tracker_create
  created n =
      let given : (message_queue == 0) ≡ false = ground arith in
      rw (pool_init_lem 255 slots next, given) refl

  abbrev pub releases : List Call → List Call
  releases before =
      free address
      ∷ tracker_free
      ∷ tracker_lock_destroy
      ∷ pool_free (ack_pool_at address)
      ∷ queue_release message_queue
      ∷ queue_drain message_queue
      ∷ mutex_destroy (ack_lock_at address)
      ∷ before

  module _ (on_disconnected : Bool) (n : message_queue ≢ 0) where
    destroyed :
        (mach_client_destroy port_type on_disconnected (some made) variables).1.calls
        ≡ releases (queue_drain message_queue ∷ m.calls)
    unfolding mach_client_destroy mach_client_disconnect resource_tracker_add add_to tracked
        resource_tracker_destroy resource_tracker_cleanup_all cleanup_loop cleanup_entry cleanup
        cleanup_pool cleanup_queue cleanup_mutex cleanup_port cleanup_thread
    destroyed =
        let given : (message_queue == 0) ≡ false = ground arith in
        simp (
          offset 2 address,
          offset 4 address,
          offset 5 address,
          ==_refl (message_queue_at address),
          ==_refl (receiver_thread_at address),
          apart address 3 4 (omega arith),
          given,
        )

    -- A client that has been created can be destroyed without having been connected: the lock, the
    -- queue, the pool, the tracker with its lock, and the object are released, each once, the queue
    -- after two drains, and no thread
    -- is joined.
    pub mach_client_destroy-create :
        (mach_client_create port_type allocated m ≡ some (some made, variables))
        × ((mach_client_destroy port_type on_disconnected (some made) variables).1.calls
            ≡ releases (queue_drain message_queue ∷ m.calls))
    mach_client_destroy-create = (created n, destroyed)

    module _ (a : Answers) (server_port : a.look_up.1 ≢ 0) (local_port : a.allocate.1 ≢ 0)
        (thread : a.thread_made.1 ≢ 0) where
      abbrev pub releases_connected : List Call
      releases_connected = releases (
          port_release port_type a.look_up.1
          ∷ port_release port_type a.allocate.1
          ∷ thread_join a.thread_made.1
          ∷ queue_drain message_queue
          ∷ thread_join a.thread_made.1
          ∷ m.calls)

      tracked_destroyed :
          (mach_client_destroy port_type on_disconnected
            (some (tracking made))
            (assigned a made variables)).1.calls
          ≡ releases_connected
      unfolding mach_client_destroy mach_client_disconnect resource_tracker_add add_to tracked
          resource_tracker_destroy resource_tracker_cleanup_all cleanup_loop cleanup_entry cleanup
          cleanup_pool cleanup_queue cleanup_mutex cleanup_port cleanup_thread
      tracked_destroyed =
          let queue_given : (message_queue == 0) ≡ false = ground arith in
          let server_given : (a.look_up.1 == 0) ≡ false = ground arith in
          let local_given : (a.allocate.1 == 0) ≡ false = ground arith in
          let thread_given : (a.thread_made.1 == 0) ≡ false = ground arith in
          simp (
            offset 0 address,
            offset 1 address,
            offset 2 address,
            offset 3 address,
            offset 4 address,
            offset 5 address,
            ==_refl (server_port_at address),
            ==_refl (local_port_at address),
            ==_refl (message_queue_at address),
            ==_refl (receiver_thread_at address),
            apart address 4 1 (omega arith),
            apart address 4 2 (omega arith),
            apart address 4 3 (omega arith),
            apart address 2 1 (omega arith),
            apart address 2 3 (omega arith),
            apart address 1 3 (omega arith),
            queue_given,
            server_given,
            local_given,
            thread_given,
          )

      -- Losing the server leaves the client's address and its tracked resources alone.
      lost_resources :
          (l : Loss) (c : MachClient)
          → ((lost_waiting l c).address ≡ c.address)
            × ((lost_waiting l c).resources ≡ c.resources)
            × ((lost_connected l c).address ≡ c.address)
            × ((lost_connected l c).resources ≡ c.resources)
      lost_resources no_loss c = (refl, refl, refl, refl)
      lost_resources while_waiting c = (refl, refl, refl, refl)
      lost_resources when_connected c = (refl, refl, refl, refl)

      -- What is called depends on nothing else of the client.
      same_calls :
          (c d : MachClient) (x : Machine)
          → c.address ≡ d.address
          → c.resources ≡ d.resources
          → (mach_client_destroy port_type on_disconnected (some c) x).1
            ≡ (mach_client_destroy port_type on_disconnected (some d) x).1
      unfolding mach_client_destroy
      same_calls c d x e f = rw (e, f) refl

      connected_destroyed :
          (after : Shared) (ack : Incoming)
          → (let r = connected_by a made variables after ack in
              (mach_client_destroy port_type on_disconnected (some r.client) r.machine).1.calls
              ≡ releases_connected)
      connected_destroyed after ack =
          let w = lost_resources a.loss (record (tracking made) { running = true; ack = after }) in
          let l = lost_resources a.loss (record (waiting a made after) {
            connected = true;
            client_id = ack.content.client_id;
            client_slot = ack.content.client_slot;
          }) in
          ap (λ (x : Machine). x.calls)
            (same_calls _ (tracking made) (assigned a made variables) (l.2 ∙ w.0) (l.3 ∙ w.1))
          ∙ tracked_destroyed

      -- Destroying a client whose first connection succeeded, with two ports and a thread: the thread is
      -- joined and the queue drained; then the thread is joined once more, both ports are released, each
      -- once, by the rights that they have, and then the lock, the queue, the pool, the tracker with its
      -- lock, and the object. So
      -- `pthread_join` is called twice for one thread.
      pub mach_client_destroy-connect :
          length slots ≡ 256
          → length next ≡ 256
          → (timeout_ms : ℕ) (r : Result)
          → mach_client_connect a made variables timeout_ms ≡ some (some r)
          → r.status ≡ ipc_success
          → (mach_client_destroy port_type on_disconnected (some r.client) r.machine).1.calls
            ≡ releases_connected
      mach_client_destroy-connect hs hn timeout_ms r e ok = finished (
          mach_client_connect_lem a made variables timeout_ms refl (fresh-Inv 255 slots next hs hn))
        where
          by_case :
              Connects a made variables r
              → (mach_client_destroy port_type on_disconnected (some r.client) r.machine).1.calls
                ≡ releases_connected
          by_case (failed f) = absurd (f.status_set ok)
          by_case (accepted slot ack after same status e) = rw e (connected_destroyed after ack)

          finished :
              Finishes a made variables
                (count_up 0 256)
                (mach_client_connect a made variables timeout_ms)
              → (mach_client_destroy port_type on_disconnected (some r.client) r.machine).1.calls
                ≡ releases_connected
          finished (inl (faults, rejected)) =
              let bad : ◌≡◌ {A = Option (Option Result)} none (some (some r)) = sym faults ∙ e in cc
          finished (inr (o, returns, result)) =
              by_case (result r (some-injective _ _ (sym returns ∙ e))).0
