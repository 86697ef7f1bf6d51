-- ===== src/Echo/Server/Run.antt =====
-- The echo server under the library: the callbacks run in turn, a right to the port that comes with a
-- message is received before its callback, and deallocated after it unless the callback took it over.
-- `main` ends with the process, which is what frees the entries that are still active.
use mach_ipc.Base.{
  ℕ, Bool, true, false, Option, some, ◌>>=◌, List, [], ◌∷◌, ◌++◌, ◌==◌, pos, if◌then◌else◌,
}
use mach_ipc.SharedMemory.{Answers, Action, acquire, release, entry}
use mach_ipc.Protocol.Types.{port_null}
use mach_ipc.LinearPool.{LinearPool, linear_ts_pool_init}
use mach_ipc.Echo.Server.{Entry, on_client_disconnected, on_message_with_reply}

-- A request of the client in a slot, or its disconnection.
pub data Event : Type 0 where
  message : Answers → (slot client_id remote_port msg_type : ℕ) → (size : Option ℕ) → Event
  disconnect : (slot : ℕ) → Event

abbrev pub right_received : ℕ → List Action
right_received port = if port == port_null then [] else acquire (entry port) ∷ []

abbrev pub right_dropped : ℕ → List Action
right_dropped port = if port == port_null then [] else release (entry port) ∷ []

unfoldable pub step : LinearPool Entry → Event → Option (List Action × LinearPool Entry)
step p (message answers slot client_id remote_port msg_type size) = do
  h ← on_message_with_reply answers p (pos slot) client_id remote_port msg_type size
  some (right_received remote_port ++ (h.actions ++ right_dropped h.remote_port), h.pool)
step p (disconnect slot) = on_client_disconnected p (pos slot)

unfoldable pub run : LinearPool Entry → List Event → Option (List Action × LinearPool Entry)
run p [] = some ([], p)
run p (e ∷ es) = do (actions, q) ← step p e; (rest, t) ← run q es; some (actions ++ rest, t)

-- The exit code and what was done. `slots` is what `malloc` gives for the pool; the events are those
-- between `mach_server_run` and its return, after which the pool is freed as it is.
unfoldable pub main :
    (server_made : Bool) (max_clients : ℕ) → List Entry → List Event → Option (ℕ × List Action)
main false max_clients slots events = some (1, [])
main true max_clients slots events = do
  (actions, p) ← run (linear_ts_pool_init max_clients slots) events
  some (0, actions)
