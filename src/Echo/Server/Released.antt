-- ===== src/Echo/Server/Released.antt =====
-- What the callbacks of the echo server acquire, release and keep.
use mach_ipc.Base.{
  get_or, length, zero, suc, replicate, length-replicate, ℕ, ◌+◌, ◌<◌, ◌≡◌, ◌≢◌, refl, true, false,
  none, some, List, [], ◌∷◌, ◌++◌, arith, ◌∙◌, sym, subst,
}
use mach_ipc.SharedMemory.{Resource, Action}
use mach_ipc.SharedMemory.Laws.{acquired, released, IsSane, acquired-append, released-append}
use mach_ipc.LinearPool.{linear_ts_pool_init, LinearPool}
use mach_ipc.Echo.Server.{Entry, msg_type_set_echo_shm}
use mach_ipc.Echo.Server.Disconnect.{holds, IsSized, Balanced, disconnect-Balanced}
use mach_ipc.Echo.Server.Requests.{right, answering}
use mach_ipc.Echo.Server.Run.{
  main, Event, message, disconnect, right_received, right_dropped, step, run,
}

-- An event that the library can bring about: the slot is one of the pool's, the system's answers are not
-- null, and the data of a request to set the memory is not null.
abbrev pub IsGood : ℕ → Event → Type 0
IsGood capacity (message a slot client_id port msg_type size) =
    (slot < capacity) × IsSane a × (msg_type ≡ msg_type_set_echo_shm → size ≢ none)
IsGood capacity (disconnect slot) = slot < capacity

abbrev pub AreGood : ℕ → List Event → Type 0
AreGood capacity [] = Unit
AreGood capacity (e ∷ es) = IsGood capacity e × AreGood capacity es

module _ (r : Resource) where
  received_right : (port : ℕ) → acquired r (right_received port) ≡ right r port
  received_right port = ground arith

  received_only : (port : ℕ) → released r (right_received port) ≡ 0
  received_only port = ground arith

  dropped_right : (port : ℕ) → released r (right_dropped port) ≡ right r port
  dropped_right port = ground arith

  dropped_only : (port : ℕ) → acquired r (right_dropped port) ≡ 0
  dropped_only port = ground arith

  step-Balanced :
      (p : LinearPool Entry) (e : Event) → IsSized p → IsGood p.capacity e → Balanced r p (step p e)
  unfolding step
  step-Balanced p (disconnect slot) sized good = disconnect-Balanced r p slot good sized
  step-Balanced p (message a slot client_id port msg_type size) sized (lt, sane, given) =
      let f = answering r p slot lt sized a client_id port msg_type size sane given in
      let h = f.handled in
      record {
        actions = right_received port ++ (h.actions ++ right_dropped h.remote_port);
        after = h.pool;
        returns = rw f.returns;
        balance = omega (
          arith,
          f.balance,
          acquired-append r (right_received port) (h.actions ++ right_dropped h.remote_port),
          released-append r (right_received port) (h.actions ++ right_dropped h.remote_port),
          acquired-append r h.actions (right_dropped h.remote_port),
          released-append r h.actions (right_dropped h.remote_port),
          received_right port,
          received_only port,
          dropped_right h.remote_port,
          dropped_only h.remote_port,
        );
        sized = f.sized;
        same_capacity = f.same_capacity;
      }

  -- Whatever requests and disconnections the callbacks handle in turn, from a pool whose locks are free,
  -- none of them faults or waits for a lock for ever, all locks are free afterwards, and for each
  -- resource, memory, port right or object, the number of times that it was acquired, with what the
  -- entries held before, is the number of times that it was released, with what the active entries hold
  -- afterwards: nothing is lost, and nothing is given back twice. The slots are in range, the kernel's
  -- addresses and ports are not null, and no request to set the memory comes without data.
  pub run-Balanced :
      (es : List Event) (p : LinearPool Entry)
      → IsSized p
      → AreGood p.capacity es
      → Balanced r p (run p es)
  unfolding run
  run-Balanced [] p sized good = record {
    actions = [];
    after = p;
    returns = refl;
    balance = refl;
    sized = sized;
    same_capacity = refl;
  }
  run-Balanced (e ∷ es) p sized good =
      let one = step-Balanced p e sized good.0 in
      let others =
        run-Balanced es one.after one.sized
          (subst (λ n. AreGood n es) (sym one.same_capacity) good.1) in
      record {
        actions = one.actions ++ others.actions;
        after = others.after;
        returns = rw (one.returns, others.returns);
        balance = omega (
          arith,
          one.balance,
          others.balance,
          acquired-append r one.actions others.actions,
          released-append r one.actions others.actions,
        );
        sized = others.sized;
        same_capacity = others.same_capacity ∙ one.same_capacity;
      }

holds-unused : (r : Resource) (slots : List Entry) (n : ℕ) → holds r slots (replicate n false) ≡ 0
holds-unused r [] n = refl
holds-unused r (e ∷ slots) zero = refl
holds-unused r (e ∷ slots) (suc n) = omega (arith, holds-unused r slots n)

pub none_locked : (n j : ℕ) → get_or (replicate n false) j false ≡ false
none_locked zero j = refl
none_locked (suc n) zero = refl
none_locked (suc n) (suc j) = none_locked n j

-- From the start of the server, whatever the pool's memory holds then: `main` runs to its end, and what it
-- has acquired and not released is what the entries that are still active hold.
main-Balanced :
    (r : Resource) (max_clients : ℕ) (slots : List Entry) (es : List Event)
    → length slots ≡ max_clients
    → AreGood max_clients es
    → (actions : List Action) × (after : LinearPool Entry) × (main true max_clients slots es
        ≡ some (0, actions))
      × (acquired r actions ≡ released r actions + holds r after.slots after.used)
unfolding main linear_ts_pool_init
main-Balanced r max_clients slots es size good =
    let b =
      run-Balanced r es (linear_ts_pool_init max_clients slots)
        (record {
          slots_size = size;
          used_size = length-replicate max_clients false;
          unlocked = none_locked max_clients;
        })
        good in
    (b.actions, b.after, rw b.returns, omega (arith, b.balance, holds-unused r slots max_clients))
