-- ===== src/Client/Handler/Laws.antt =====
-- The client under its receive loop.
use mach_ipc.Base.{
  ℕ, ap, suc, ◌+◌, ◌≤◌, ◌≡◌, refl, ◌⊎◌, inl, inr, Bool, true, false, some, List, [], ◌∷◌, ◌++◌,
  ◌==◌, arith, Bool-cases,
}
use mach_ipc.MsgId.{is_internal_msg, is_external_msg}
use mach_ipc.Pool.{Pool}
use mach_ipc.Pool.Inv.{Inv}
use mach_ipc.Protocol.Ack.{Waiter}
use mach_ipc.Protocol.Receive.{Received, Dealloc, protocol_receive_loop}
use mach_ipc.Protocol.Receive.Laws.{protocol_receive_loop_keeps}
use mach_ipc.Server.Handler.{mach_notify_dead_name}
use mach_ipc.Client.State.{MachClient, Notice, connection, disconnection, queued}
use mach_ipc.Client.Handler.{Context, handle_death_notification, client_message_handler}

-- The disconnections that the user hears of, and the messages for the queue.
abbrev pub disconnections : List Notice → ℕ
disconnections [] = 0
disconnections (disconnection ∷ ns) = suc (disconnections ns)
disconnections (connection ∷ ns) = disconnections ns
disconnections (queued m ∷ ns) = disconnections ns

abbrev pub stopped : MachClient → MachClient
stopped c = record c { connected = false; running = false }

disconnections-append :
    (xs ys : List Notice) → disconnections (xs ++ ys) ≡ disconnections xs + disconnections ys
disconnections-append [] ys = omega arith
disconnections-append (disconnection ∷ xs) ys = omega (arith, disconnections-append xs ys)
disconnections-append (connection ∷ xs) ys = disconnections-append xs ys
disconnections-append (queued m ∷ xs) ys = disconnections-append xs ys

-- With the callback set: the client as it was and in silence, or stopped and the user told.
abbrev pub Told : MachClient → Context → Type 0
Told c s = ((s.0 ≡ c) × (disconnections s.1 ≡ 0)) ⊎ ((s.0 ≡ stopped c) × (1 ≤ disconnections s.1))

module _ (c : MachClient) where
  death-Told : (s : Context) → Told c s → Told c (handle_death_notification true s)
  unfolding handle_death_notification
  death-Told s (inl (e, n)) =
      inr (ap stopped e, omega (arith, disconnections-append s.1 (disconnection ∷ [])))
  death-Told s (inr (e, n)) =
      inr (ap stopped e, omega (arith, disconnections-append s.1 (disconnection ∷ [])))

  queued-Told : (s : Context) (m : Received) → Told c s → Told c (s.0, s.1 ++ (queued m ∷ []))
  queued-Told s m (inl (e, n)) =
      inl (e, omega (arith, disconnections-append s.1 (queued m ∷ []), n))
  queued-Told s m (inr (e, n)) =
      inr (e, omega (arith, disconnections-append s.1 (queued m ∷ []), n))

  handler-Told :
      (s : Context) (m : Received) (native : Bool)
      → Told c s
      → Told c (client_message_handler true s m native).context
  unfolding client_message_handler
  handler-Told s m true h = elim (Bool-cases (m.id == mach_notify_dead_name)) [
    | inl e ↦ rw e (death-Told s h)
    | inr n ↦ rw n h
  ]
  handler-Told s m false h = elim (Bool-cases (is_internal_msg m.id)) [
    | inl internal ↦ rw internal h
    | inr n ↦ rw n (elim (Bool-cases (is_external_msg m.id)) [
      | inl user ↦ rw user (queued-Told s m h)
      | inr other ↦ rw other h
    ])
  ]

-- Whatever messages arrive at a client with `on_disconnected` set, `protocol_receive_loop` with
-- `client_message_handler` does not fault on a valid pool and keeps the free slots; afterwards either
-- the client is as it was and the user has heard of no disconnection, or the client is neither
-- connected nor running, nothing else of it has changed, and the user has heard of it at least once.
pub client_loop-Told :
    (c : MachClient) (ms : List (Bool × Received)) (p : Pool Waiter) {free : List ℕ}
    → Inv p free
    → (ds : List Dealloc) × (s : Context) × (q : Pool Waiter) × (protocol_receive_loop
          (client_message_handler true)
          ((c, []), p)
          ms
        ≡ some (ds, (s, q)))
      × Told c s
      × Inv q free
client_loop-Told c ms p v =
    let (ds, s, q, e, w, h) =
      protocol_receive_loop_keeps (client_message_handler true) (λ k s. Told c s)
        (λ k s m native h. handler-Told c s m native h) (λ k s h. h) ms (c, []) p v
        (inl (refl, refl)) in
    (ds, s, q, e, h, w)
