-- ===== src/Echo/Client.antt =====
-- src/examples/echo_client.c: the client's shared memory and its lock, through `main` and the callback
-- `on_disconnected`. The texts that it prints and writes into the memory are left out, and so are
-- `on_connected` and `on_message`, which only print. A lock is taken to be free when it is asked for:
-- only its destruction matters here.
pub mod Course
pub mod Laws
mod Tests
use mach_ipc.Base.{
  ℕ, ◌+◌, Bool, true, false, not, ◌&&◌, Option, none, some, List, [], ◌++◌, ℤ, eq_ℤ, ◌==◌,
  if◌then◌else◌,
}
use mach_ipc.Protocol.Types.{is_success, ipc_success}
use mach_ipc.SharedMemory.{
  SharedMemory, Answers, Action, shared_memory_create, shared_memory_destroy,
}
use mach_ipc.Status.{echo_custom_status}

-- Where `main` is when the server may be gone; the first is within `mach_client_connect`.
pub data Gap : Type 0 where
  while_connecting before_memory before_set before_write before_echo before_read before_silent
        before_end :
      Gap

-- What the library and the system answer: whether there is a client and its receiver thread, what `mach_client_connect` and
-- the three messages return, and in which gaps the connection is lost.
pub record World : Type 0 where
  pub client_made : Bool
  pub thread_made : Bool
  pub connect_status : ℤ
  pub memory : Answers
  pub set_status : ℤ
  pub echo_status : ℤ
  pub silent_status : ℤ
  pub lost : Gap → Bool

-- `shmem` and `shmem_lock`, whether the client is connected and its
-- receiver thread runs, how often the lock was destroyed, how
-- often it was asked for after that, how often the client was destroyed, and what was done to memory.
pub record State : Type 0 where
  pub shmem : Option SharedMemory
  pub connected : Bool
  pub running : Bool
  pub lock_destroyed : ℕ
  pub lock_misused : ℕ
  pub clients_destroyed : ℕ
  pub actions : List Action

abbrev pub initial_state : State
initial_state = record {
  shmem = none;
  connected = false;
  running = false;
  lock_destroyed = 0;
  lock_misused = 0;
  clients_destroyed = 0;
  actions = [];
}

-- `pthread_mutex_lock(&shmem_lock)`; the unlock that follows is as good or as bad.
abbrev pub lock_shmem : State → State
lock_shmem s = record s { lock_misused = (if s.lock_destroyed == 0 then 0 else 1) + s.lock_misused }

abbrev destroy_lock : State → State
destroy_lock s = record s { lock_destroyed = 1 + s.lock_destroyed }

pub on_disconnected : State → State
on_disconnected s =
    let t = lock_shmem s in
    destroy_lock (record t { shmem = none; actions = t.actions ++ shared_memory_destroy t.shmem })

-- `mach_client_disconnect`
pub disconnect : State → State
unfolding on_disconnected
disconnect s =
    if s.connected then on_disconnected (record s { connected = false; running = false }) else s

-- `mach_client_destroy` disconnects first.
pub end_client : State → State
unfolding disconnect
end_client s = let t = disconnect s in record t { clients_destroyed = 1 + t.clients_destroyed }

-- The receiver thread may find out in a gap that the server is gone. It calls back whether the client is
-- connected or not, and ends.
pub gap : World → Gap → State → State
unfolding on_disconnected
gap w g s =
    if w.lost g && s.running
    then on_disconnected (record s { connected = false; running = false })
    else s

fails : State → ℕ × State
unfolding end_client
fails s = (1, end_client s)

-- From the silent message to the end.
say_goodbye : World → State → ℕ × State
unfolding gap end_client
say_goodbye w s = (0, end_client (disconnect (gap w before_end (gap w before_silent s))))

-- `if (!shmem)` under the lock.
when_there : State → (State → ℕ × State) → ℕ × State
unfolding fails
when_there s go = elim s.shmem [ none ↦ fails s | some m ↦ go s ]

read_echo : World → State → ℕ × State
unfolding say_goodbye when_there gap
read_echo w s = when_there (lock_shmem (gap w before_read s)) (say_goodbye w)

send_echo : World → State → ℕ × State
unfolding read_echo gap fails
send_echo w s =
    let t = gap w before_echo s in
    if eq_ℤ w.echo_status echo_custom_status then read_echo w t else fails t

write_memory : World → State → ℕ × State
unfolding send_echo when_there gap
write_memory w s = when_there (lock_shmem (gap w before_write s)) (send_echo w)

set_memory : World → State → ℕ × State
unfolding write_memory fails
set_memory w s = if eq_ℤ w.set_status ipc_success then write_memory w s else fails s

-- `shmem_size` is 4096.
pub make_memory : World → State → ℕ × State
unfolding set_memory when_there gap fails
make_memory w s =
    let made = shared_memory_create w.memory 4096 true in
    let t = record s { shmem = made.out_shmem; actions = s.actions ++ made.actions } in
    if is_success made.result
    then when_there (lock_shmem (gap w before_set t)) (set_memory w)
    else fails t

connected_main : World → State → ℕ × State
unfolding make_memory gap
connected_main w s = make_memory w (lock_shmem (gap w before_memory s))

-- The exit code and what is left.
pub main : World → ℕ × State
unfolding connected_main end_client gap
main w =
    let s = gap w while_connecting (record initial_state { running = w.thread_made }) in
    if not w.client_made
    then (1, destroy_lock initial_state)
    else if eq_ℤ w.connect_status ipc_success
    then connected_main w (record s { connected = true })
    else (1, destroy_lock (end_client s))
