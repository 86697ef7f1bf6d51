-- ===== src/Event/Laws.antt =====
-- An event wakes one wait, however often it is signalled.
use mach_ipc.Base.{ℕ, zero, suc, true, false, Option, some, ◌≡◌, refl}
use mach_ipc.Event.{Semaphore, Event, event_create, event_wait_timeout, event_signal, event_reset}

module _ (S : Semaphore) where
  -- `n` calls of `event_signal`.
  pub signals : ℕ → Option (Event S) → Option (Event S)
  signals zero e = e
  signals (suc n) e = signals n (event_signal S e)

  -- An event that has been signalled, over a semaphore.
  abbrev triggered_event : S.Sem → Event S
  triggered_event s = record { sem = s; triggered = true }

  signals_triggered :
      (n : ℕ) (s : S.Sem) → signals n (some (triggered_event s)) ≡ some (triggered_event s)
  unfolding signals event_signal
  signals_triggered zero s = refl
  signals_triggered (suc n) s = signals_triggered n s

  -- A fresh event times out; after any positive number of signals one wait succeeds, and the next
  -- one times out.
  pub one_wait_per_event :
      (n : ℕ)
      → let e = event_create S true in
        ((event_wait_timeout S e).0 ≡ false)
        × ((event_wait_timeout S (signals (suc n) e)).0 ≡ true)
        × ((event_wait_timeout S (event_wait_timeout S (signals (suc n) e)).1).0 ≡ false)
  unfolding signals event_create event_signal event_wait_timeout
  one_wait_per_event n = (
    rw S.try_wait-create,
    rw (signals_triggered n (S.signal (S.create 0)), S.try_wait-signal),
    rw (signals_triggered n (S.signal (S.create 0)), S.try_wait-signal, S.try_wait-create),
  )

  -- `event_reset` does not take a signal back: a wait after signal and reset still succeeds.
  pub reset_keeps_signal :
      (n : ℕ)
      → (event_wait_timeout S (event_reset S (signals (suc n) (event_create S true)))).0 ≡ true
  unfolding signals event_create event_signal event_wait_timeout event_reset
  reset_keeps_signal n = rw (signals_triggered n (S.signal (S.create 0)), S.try_wait-signal)
