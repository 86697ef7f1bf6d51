-- ===== src/Server/Life/Run.antt =====
-- A server that runs.
use mach_ipc.Base.{ℕ, ◌+◌, ◌<◌, ◌^◌, ◌≡◌, refl, Bool, false, some, List, [], length}
use mach_ipc.Pool.Inv.{Inv}
use mach_ipc.Protocol.Types.{ipc_success}
use mach_ipc.Protocol.Receive.{Received, Dealloc}
use mach_ipc.Server.Clients.Valid.{Valid}
use mach_ipc.Server.Host.{Host, Effect}
use mach_ipc.Server.Connect.Laws.{AllocatesFresh}
use mach_ipc.Server.Handler.Laws.{server_loop-Valid}
use mach_ipc.Server.Life.{Server, mach_server_run}

-- The client list of the server stays valid whatever messages arrive, forged, malformed and failing
-- ones included: started on a valid list and a valid pool, `mach_server_run` does not fault, returns
-- IPC_SUCCESS when its loop ends, and then the counter still counts the clients, all of them are
-- active, no two share an id, a port or an address, and the same slots of the pool are free. The ids
-- are taken not to run out: fewer messages come than there are ids left. The allocator is taken to
-- return no address that is still listed.
pub mach_server_run-Valid :
    (h : Host) (s : Server) (ms : List (Bool × Received)) {free : List ℕ}
    → AllocatesFresh h
    → Valid s.table
    → s.table.next_client_id + length ms < 2 ^ 32
    → Inv s.ack.ack_pool free
    → (s' : Server) × (ds : List Dealloc) × (effects : List Effect) × (mach_server_run h (some s) ms
        ≡ some (ipc_success, some s', ds, effects))
      × Valid s'.table
      × Inv s'.ack.ack_pool free
unfolding mach_server_run
mach_server_run-Valid h s ms fresh v room inv =
    let (ds, t, effects, q, e, w, g) =
      server_loop-Valid h ms s.table [] s.ack.ack_pool fresh v room inv in
    (
      record s {
        running = false;
        table = t;
        ack = record { ack_pool = q; next_correlation_id = s.ack.next_correlation_id };
      },
      ds,
      effects,
      rw e refl,
      w,
      g,
    )
