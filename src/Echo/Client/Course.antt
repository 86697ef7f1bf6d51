-- ===== src/Echo/Client/Course.antt =====
-- What each operation carries along, `main` carries along.
use mach_ipc.Base.{ℕ, Bool, true, false, none, some, Option, ◌++◌, if◌then◌else◌, eq_ℤ}
use mach_ipc.Protocol.Types.{ipc_success, is_success}
use mach_ipc.Status.{echo_custom_status}
use mach_ipc.SharedMemory.{SharedMemory, Answers, shared_memory_create}
use mach_ipc.Echo.Client.{
  Gap, before_set, before_write, before_echo, before_read, before_silent, before_end, World, State,
  lock_shmem, disconnect, end_client, gap, fails, say_goodbye, when_there, read_echo, send_echo,
  write_memory, set_memory, make_memory,
}

abbrev pub with_memory : Answers → State → State
with_memory a s =
    let made = shared_memory_create a 4096 true in
    record s { shmem = made.out_shmem; actions = s.actions ++ made.actions }

-- A property `P` of the states between connection and end, `P₀` of those before there is memory, and `Q` of
-- what is left. If the single operations carry them along, so does `main`.
module _ (w : World) (P0 P Q : State → Type 0)
    (lock_shmem-P0 : (s : State) → P0 s → P0 (lock_shmem s))
    (lock_shmem-P : (s : State) → P s → P (lock_shmem s))
    (gap-P : (g : Gap) (s : State) → P s → P (gap w g s))
    (memory-P : (s : State) → P0 s → P (with_memory w.memory s))
    (fails-Q : (s : State) → P s → Q (end_client s))
    (end-Q : (s : State) → P s → Q (end_client (disconnect s))) where
  there-Q :
      (s : State) (go : State → ℕ × State)
      → P s
      → ((s : State) → P s → Q (go s).1)
      → Q (when_there s go).1
  unfolding when_there fails
  there-Q s go p h = by_memory s.shmem
    where
      by_memory :
          (o : Option SharedMemory)
          → Q (elim o as (λ _. ℕ × State) [ none ↦ fails s | some m ↦ go s ]).1
      by_memory none = fails-Q s p
      by_memory (some m) = h s p

  unless-Q : (b : Bool) (s : State) (x : ℕ × State) → P s → Q x.1 → Q (if b then x else fails s).1
  unfolding fails
  unless-Q true s x p q = q
  unless-Q false s x p q = fails-Q s p

  goodbye-Q : (s : State) → P s → Q (say_goodbye w s).1
  unfolding say_goodbye
  goodbye-Q s p = end-Q _ (gap-P before_end _ (gap-P before_silent s p))

  locked_gap : (g : Gap) (s : State) → P s → P (lock_shmem (gap w g s))
  locked_gap g s p = lock_shmem-P _ (gap-P g s p)

  read-Q : (s : State) → P s → Q (read_echo w s).1
  unfolding read_echo
  read-Q s p = there-Q _ (say_goodbye w) (locked_gap before_read s p) goodbye-Q

  echo-Q : (s : State) → P s → Q (send_echo w s).1
  unfolding send_echo
  echo-Q s p =
      let q = gap-P before_echo s p in
      unless-Q (eq_ℤ w.echo_status echo_custom_status) (gap w before_echo s) _ q (read-Q _ q)

  write-Q : (s : State) → P s → Q (write_memory w s).1
  unfolding write_memory
  write-Q s p = there-Q _ (send_echo w) (locked_gap before_write s p) echo-Q

  set-Q : (s : State) → P s → Q (set_memory w s).1
  unfolding set_memory
  set-Q s p = unless-Q (eq_ℤ w.set_status ipc_success) s (write_memory w s) p (write-Q s p)

  pub make-Q : (s : State) → P0 s → Q (make_memory w s).1
  unfolding make_memory
  make-Q s p =
      let q = memory-P s p in
      unless-Q (is_success (shared_memory_create w.memory 4096 true).result)
        (with_memory w.memory s) _ q (there-Q _ (set_memory w) (locked_gap before_set _ q) set-Q)
