-- ===== src/Event.antt =====
-- src/event_framework.h: an event over a counting semaphore of libdispatch.
pub mod Laws
mod Tests
use mach_ipc.Base.{ℕ, Bool, true, false, Option, none, some, ◌≡◌, if◌then◌else◌}

-- What the header uses of a dispatch semaphore: `try_wait` is a wait that gives up, with `none`
-- for a timeout. A signal lets one wait pass, and a new semaphore with value 0 lets none pass.
pub record Semaphore : Type 1 where
  pub Sem : Type 0
  pub create : ℕ → Sem
  pub signal : Sem → Sem
  pub try_wait : Sem → Option Sem
  pub try_wait-create : try_wait (create 0) ≡ none
  pub try_wait-signal : (s : Sem) → try_wait (signal s) ≡ some s

module _ (S : Semaphore) where
  open S use {Sem, create, signal, try_wait}

  -- `event_t`
  pub record Event : Type 0 where
    pub sem : Sem
    pub triggered : Bool

  -- `allocated` is whether `malloc` succeeded. A null event is `none`.
  pub event_create : (allocated : Bool) → Option Event
  event_create false = none
  event_create true = some (record { sem = create 0; triggered = false })

  woken : Event → Option Sem → Bool × Event
  woken e none = (false, e)
  woken e (some s) = (true, record e { sem = s })

  -- `event_wait_timeout`: whether the event was signalled in time.
  pub event_wait_timeout : Option Event → Bool × Option Event
  unfolding woken
  event_wait_timeout none = (false, none)
  event_wait_timeout (some e) = let (r, e') = woken e (try_wait e.sem) in (r, some e')

  -- A wait that nobody ends is `none`.
  pub event_wait : Option Event → Option (Bool × Option Event)
  event_wait none = some (false, none)
  event_wait (some e) = elim (try_wait e.sem) [
    | none ↦ none
    | some s ↦ some (true, some (record e { sem = s }))
  ]

  pub event_signal : Option Event → Option Event
  event_signal none = none
  event_signal (some e) =
      some (if e.triggered then e else record { sem = signal e.sem; triggered = true })

  pub event_reset : Option Event → Option Event
  event_reset none = none
  event_reset (some e) = some (record e { triggered = false })
