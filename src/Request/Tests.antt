-- ===== src/Request/Tests.antt =====
-- Calls with reply at concrete inputs, and the lemmas about them applied.
use mach_ipc.Base.{true, [], ◌∷◌, pos}
use mach_ipc.Pool.{Pool}
use mach_ipc.Pool.Init.{fresh}
use mach_ipc.Protocol.Types.{KernReturn, success, Payload, Buffer, Message}
use mach_ipc.Protocol.Ack.{Waiter}
use mach_ipc.Protocol.Ack.Deliver.{blank}
use mach_ipc.Protocol.WithAck.{Environment, Shared}
use mach_ipc.Request.{Handle, client_at, Endpoint}

abbrev sends : Message → KernReturn
sends m = success

abbrev waiters : Pool Waiter
waiters = fresh 1 (blank ∷ blank ∷ []) (pos 0 ∷ pos 0 ∷ [])

abbrev shared : Shared
shared = record { ack_pool = waiters; next_correlation_id = 9 }

abbrev content : Payload
content = record {
  client_id = 3;
  client_slot = pos 2;
  correlation_id = 9;
  correlation_slot = pos 0;
  status = pos 0;
  user_payload_deadline = record { tv_sec = 0; tv_nsec = 0 };
}

abbrev user : Buffer
user = record { address = 4096; size = 16 }

-- The reply comes in time.
abbrev environment : Environment
environment = record {
  mach_msg = sends;
  now = record { tv_sec = 7; tv_nsec = 0 };
  event_made = true;
  before = record { address = 8192; content = content; size = 40; user = user } ∷ [];
  late = [];
  cancelled = [];
}

abbrev handle : Handle
handle = record {
  id = 3;
  internal = client_at (record { address = 1000; id = 3; port = 88; active = true });
}

abbrev endpoint : Endpoint
endpoint = record { connected = true; server_port = 88; client_id = 3; client_slot = pos 2 }
