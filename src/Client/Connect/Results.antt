-- ===== src/Client/Connect/Results.antt =====
-- The results of `mach_client_connect`: a failure, or a connection by an acknowledgment.
use mach_ipc.Base.{ℕ, ◌≡◌, ◌≢◌, ◌⊎◌, true, false, Option, none, some, List, [], ◌++◌}
use mach_ipc.Pool.Inv.{Inv}
use mach_ipc.Protocol.Types.{ipc_success}
use mach_ipc.Protocol.Ack.{Incoming}
use mach_ipc.Protocol.Ack.Waiters.{matches}
use mach_ipc.Protocol.WithAck.{Shared}
use mach_ipc.Resources.Cleanup.{port, thread, Machine}
use mach_ipc.Server.Life.{assign}
use mach_ipc.Client.State.{
  MachClient, connection, disconnection, server_port_at, local_port_at, receiver_thread_at,
}
use mach_ipc.Client.Life.{notify}
use mach_ipc.Request.{ply_free, payload_buffer}
use mach_ipc.Client.Connect.{
  Answers, Result, while_waiting, free_ack, track, lost_waiting, lost_connected, told_loss,
}

-- The user heard of no connection and of no loss, or the receiver thread found the server dead, ended, and called `on_disconnected`.
abbrev pub IsSilent : Answers → Result → Type 0
IsSilent a r =
    (r.notices ≡ [])
    ⊎ ((a.loss ≡ while_waiting)
        × (r.notices ≡ notify a.on_disconnected disconnection)
        × (r.client.running ≡ false))

-- A failed connection leaves the client unconnected, with the id that it had, and `on_connected` silent.
pub record Fails (a : Answers) (c : MachClient) (r : Result) : Type 0 where
  pub status_set : r.status ≢ ipc_success
  pub unconnected : r.client.connected ≡ false
  pub same_id : r.client.client_id ≡ c.client_id
  pub same_slot : r.client.client_slot ≡ c.client_slot
  pub silent : IsSilent a r

-- The client with its three resources tracked, and the variables that they are in.
abbrev pub tracking : MachClient → MachClient
tracking c =
    track (track (track c port (server_port_at c.address)) port (local_port_at c.address)) thread
      (receiver_thread_at c.address)

abbrev pub assigned : Answers → MachClient → Machine → Machine
assigned a c m =
    assign
      (assign (assign m (server_port_at c.address) a.look_up.1) (local_port_at c.address)
        a.allocate.1)
      (receiver_thread_at c.address) a.thread_made.1

-- The client while its request is answered, at the end of the wait.
abbrev pub waiting : Answers → MachClient → Shared → MachClient
waiting a c after = lost_waiting a.loss (record (tracking c) { running = true; ack = after })

abbrev pub connected_by : Answers → MachClient → Machine → Shared → Incoming → Result
connected_by a c m after ack = record {
  status = ipc_success;
  client = lost_connected a.loss (record (waiting a c after) {
    connected = true;
    client_id = ack.content.client_id;
    client_slot = ack.content.client_slot;
  });
  machine = assigned a c m;
  freed = free_ack ack;
  notices = told_loss a.loss a.on_disconnected ++ notify a.on_connected connection;
}

pub data Connects (a : Answers) (c : MachClient) (m : Machine) (r : Result) : Type 0 where
  failed : Fails a c r → Connects a c m r
  accepted :
      (slot : ℕ) (ack : Incoming) (after : Shared)
      → matches c.ack.next_correlation_id slot ack ≡ true
      → ack.content.status ≡ ipc_success
      → r ≡ connected_by a c m after ack
      → Connects a c m r

-- A rejection whose payload was deallocated: its status is read all the same.
pub record Rejected (c : MachClient) : Type 0 where
  pub slot : ℕ
  pub ack : Incoming
  pub matched : matches c.ack.next_correlation_id slot ack ≡ true
  pub not_accepted : ack.content.status ≢ ipc_success
  pub deallocated : ply_free (payload_buffer ack) ≢ []

-- The call faults after a rejection; else a result is of the two kinds, and the slots that were free
-- are free again.
abbrev pub Finishes : Answers → MachClient → Machine → List ℕ → Option (Option Result) → Type 0
Finishes a c m free call =
    ((call ≡ none) × Rejected c)
    ⊎ ((o : Option Result) × (call ≡ some o)
        × ((r : Result) → o ≡ some r → Connects a c m r × Inv r.client.ack.ack_pool free))
