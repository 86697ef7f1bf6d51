-- ===== src/Event/Tests.antt =====
-- An event over a semaphore that is its value, and the lemmas about events applied.
use mach_ipc.Base.{ℕ, zero, suc, refl, Option, none, some}
use mach_ipc.Event.{Semaphore}

try_wait : ℕ → Option ℕ
try_wait zero = none
try_wait (suc n) = some n

abbrev counting : Semaphore
unfolding try_wait
counting = record {
  Sem = ℕ;
  create = λ n. n;
  signal = suc;
  try_wait = try_wait;
  try_wait-create = refl;
  try_wait-signal = λ s. refl;
}
