-- ===== src/Stress/Server/Counts.antt =====
-- What the statistics come to over any sequence of callbacks.
use mach_ipc.Base.{ℕ, ◌+◌, ◌%◌, ◌^◌, ◌≡◌, refl, Bool, Option, some, ◌>>=◌, List, [], ◌∷◌, ℤ, arith}
use mach_ipc.Protocol.Types.{Buffer}
use mach_ipc.Stress.Server.{
  ServerStats, Sending, Request, on_client_connected, on_client_disconnected, on_message,
  on_message_with_reply,
}
use mach_ipc.Stress.Server.Laws.{on_message_with_reply_lem}

-- One callback of the library, with what it is called with and what the system answers.
pub data Event : Type 0 where
  connected disconnected : Event
  message : (answer : Sending → ℤ) (msg_type : ℕ) → Buffer → Event
  request : (allocated : Bool) (now msg_type size : ℕ) → Request → Event

unfoldable pub step : ServerStats → Event → Option ServerStats
step s connected = some (on_client_connected s)
step s disconnected = some (on_client_disconnected s)
step s (message answer msg_type user) = some (on_message answer s msg_type user).1
step s (request allocated now msg_type size d) = do
  a ← on_message_with_reply allocated now s msg_type size (some d)
  some a.stats

unfoldable pub run : ServerStats → List Event → Option ServerStats
run s [] = some s
run s (e ∷ es) = do t ← step s e; run t es

-- How many of the events count, and how much.
abbrev pub messages_in : Event → ℕ
messages_in (message answer msg_type user) = 1
messages_in (request allocated now msg_type size d) = 1
messages_in _ = 0

abbrev pub bytes_in : Event → ℕ
bytes_in (message answer msg_type user) = user.size
bytes_in (request allocated now msg_type size d) = size
bytes_in _ = 0

abbrev pub arrivals : Event → ℕ
arrivals connected = 1
arrivals _ = 0

abbrev pub departures : Event → ℕ
departures disconnected = 1
departures _ = 0

abbrev pub sum : (Event → ℕ) → List Event → ℕ
sum f [] = 0
sum f (e ∷ es) = f e + sum f es

-- The statistics after the events, with 32 bits.
pub record Counted (s : ServerStats) (es : List Event) : Type 0 where
  pub after : ServerStats
  pub returns : run s es ≡ some after
  pub messages : after.total_messages % 2 ^ 32 ≡ (s.total_messages + sum messages_in es) % 2 ^ 32
  pub bytes : after.total_bytes % 2 ^ 32 ≡ (s.total_bytes + sum bytes_in es) % 2 ^ 32
  pub clients :
      (after.active_clients + sum departures es) % 2 ^ 32
      ≡ (s.active_clients + sum arrivals es) % 2 ^ 32

record Stepped (s : ServerStats) (e : Event) : Type 0 where
  after : ServerStats
  returns : step s e ≡ some after
  messages : after.total_messages % 2 ^ 32 ≡ (s.total_messages + messages_in e) % 2 ^ 32
  bytes : after.total_bytes % 2 ^ 32 ≡ (s.total_bytes + bytes_in e) % 2 ^ 32
  clients :
      (after.active_clients + departures e) % 2 ^ 32 ≡ (s.active_clients + arrivals e) % 2 ^ 32

step-Stepped : (s : ServerStats) (e : Event) → Stepped s e
unfolding step on_client_connected on_client_disconnected on_message
step-Stepped s connected = record {
  after = _;
  returns = refl;
  messages = omega arith;
  bytes = omega arith;
  clients = omega arith;
}
step-Stepped s disconnected = record {
  after = _;
  returns = refl;
  messages = omega arith;
  bytes = omega arith;
  clients = omega arith;
}
step-Stepped s (message answer msg_type user) = record {
  after = _;
  returns = refl;
  messages = ground arith;
  bytes = ground arith;
  clients = ground arith;
}
step-Stepped s (request allocated now msg_type size d) =
    let (a, e, h) = on_message_with_reply_lem allocated now s msg_type size d in
    record {
      after = a.stats;
      returns = rw e;
      messages = omega (arith, h.messages);
      bytes = omega (arith, h.bytes);
      clients = omega (arith, h.others);
    }

-- Over any sequence of callbacks, whatever the system answers to them, none of them faults if the data of
-- each request is there; and, up to a multiple of 2 ^ 32, the messages and bytes counted are those
-- received, and the active clients are those that came less those that went.
pub run-Counted : (es : List Event) (s : ServerStats) → Counted s es
unfolding run
run-Counted [] s = record {
  after = s;
  returns = refl;
  messages = omega arith;
  bytes = omega arith;
  clients = omega arith;
}
run-Counted (e ∷ es) s =
    let one = step-Stepped s e in
    let others = run-Counted es one.after in
    record {
      after = others.after;
      returns = rw (one.returns, others.returns);
      messages = omega (arith, one.messages, others.messages);
      bytes = omega (arith, one.bytes, others.bytes);
      clients = omega (arith, one.clients, others.clients);
    }
