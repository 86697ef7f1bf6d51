-- ===== src/Protocol/Receive/Laws.antt =====
-- The receive loop is safe whatever arrives, and frees what nobody else owns.
use mach_ipc.Base.{
  zero, suc, length, ℕ, ◌≡◌, refl, ◌⊎◌, inl, inr, Bool, true, false, Option, some, List, [], ◌∷◌,
  ◌++◌, set, Bool-cases, length-set,
}
use mach_ipc.MsgId.{feature_iack, has_feature, is_this_protocol_msg}
use mach_ipc.Pool.{Pool}
use mach_ipc.Pool.Inv.{Inv}
use mach_ipc.Protocol.Types.{is_success}
use mach_ipc.Protocol.Ack.{Waiter}
use mach_ipc.Protocol.Ack.Waiters.{matches, with_reply}
use mach_ipc.Protocol.Ack.Deliver.{waiter, with_slots, with_slots-Inv}
use mach_ipc.Protocol.Ack.Owner.{Owned, refused, taken, handle_ack_message_owner}
use mach_ipc.Protocol.Receive.{
  Received, Dealloc, Reply, ack_of, clean, is_well_formed, receive, receive_ack,
  protocol_receive_loop,
}

-- A family of properties of the handler's context: `P k` is to hold when at most `k` more messages come.
module _ {S : Type 0} (handler : S → Received → (is_native : Bool) → Reply S) (P : ℕ → S → Type 0)
    (step : (k : ℕ) (s : S) (m : Received) (native : Bool)
      → P (suc k) s
      → P k (handler s m native).context)
    (idle : (k : ℕ) (s : S) → P (suc k) s → P k s) where
  -- A round of the loop that ends, and leaves the free slots as they were.
  record Safe (k : ℕ) (free : List ℕ) (result : Option (List Dealloc × (S × Pool Waiter)))
      : Type 0 where
    deallocs : List Dealloc
    context : S
    pool : Pool Waiter
    returns : result ≡ some (deallocs, (context, pool))
    inv : Inv pool free
    holds : P k context

  receive_ack-Safe :
      (k : ℕ) (s : S) (p : Pool Waiter) (m : Received) {free : List ℕ}
      → Inv p free
      → P k s
      → Owned p free (ack_of m)
      → Safe k free (receive_ack handler (s, p) m)
  unfolding receive_ack
  receive_ack-Safe k s p m v h (refused e) = record {
    deallocs = clean m.remote_port m;
    context = s;
    pool = p;
    returns = rw e;
    inv = v;
    holds = h;
  }
  receive_ack-Safe k s p m v h (taken i a eq c e) = record {
    deallocs = [];
    context = s;
    pool = with_slots p (set p.slots i (with_reply (waiter p i) (some (ack_of m))));
    returns = rw e;
    inv =
        with_slots-Inv (set p.slots i (with_reply (waiter p i) (some (ack_of m)))) v
          (length-set p.slots i (with_reply (waiter p i) (some (ack_of m))));
    holds = h;
  }

  same_pool :
      (k : ℕ) (s : S) (p : Pool Waiter) (ds : List Dealloc) {free : List ℕ}
      → Inv p free
      → P k s
      → Safe k free (some (ds, (s, p)))
  same_pool k s p ds v h = record {
    deallocs = ds;
    context = s;
    pool = p;
    returns = refl;
    inv = v;
    holds = h;
  }

  receive-Safe :
      (k : ℕ) (s : S) (p : Pool Waiter) (m : Received) {free : List ℕ}
      → Inv p free
      → P (suc k) s
      → Safe k free (receive handler (s, p) m)
  unfolding receive
  receive-Safe k s p m v h = elim (Bool-cases (is_success m.result)) [
    | inr bad ↦ rw bad (same_pool k s p [] v (idle k s h))
    | inl ok ↦ rw ok (elim (Bool-cases (is_this_protocol_msg m.id)) [
      | inr native ↦ rw native (same_pool k _ p [] v (step k s m true h))
      | inl ours ↦ rw ours (elim (Bool-cases (is_well_formed m)) [
        | inr malformed ↦ rw malformed (same_pool k s p [] v (idle k s h))
        | inl formed ↦ rw formed (elim (Bool-cases (has_feature feature_iack m.id)) [
          | inl ack ↦
              rw ack
                (receive_ack-Safe k s p m v (idle k s h) (handle_ack_message_owner (ack_of m) v))
          | inr regular ↦ rw regular (same_pool k _ p _ v (step k s m false h))
        ])
      ])
    ])
  ]

  stops : (k : ℕ) (s : S) → P k s → P 0 s
  stops zero s h = h
  stops (suc k) s h = stops k s (idle k s h)

  -- The loop does not fault, keeps the free slots, and a property that the handler keeps still holds.
  pub protocol_receive_loop_keeps :
      (ms : List (Bool × Received)) (s : S) (p : Pool Waiter) {free : List ℕ}
      → Inv p free
      → P (length ms) s
      → (ds : List Dealloc) × (s' : S) × (q : Pool Waiter) × (protocol_receive_loop handler
            (s, p)
            ms
          ≡ some (ds, (s', q)))
        × Inv q free
        × P 0 s'
  unfolding protocol_receive_loop
  protocol_receive_loop_keeps [] s p v h = ([], s, p, refl, v, h)
  protocol_receive_loop_keeps ((false, m) ∷ ms) s p v h =
      ([], s, p, refl, v, stops (suc (length ms)) s h)
  protocol_receive_loop_keeps ((true, m) ∷ ms) s p v h =
      let r = receive-Safe (length ms) s p m v h in
      let (ds, s', q, e, w, g) = protocol_receive_loop_keeps ms r.context r.pool r.inv r.holds in
      (r.deallocs ++ ds, s', q, rw (r.returns, e), w, g)

module _ {S : Type 0} (handler : S → Received → (is_native : Bool) → Reply S) where
  -- Whatever messages arrive, malformed and forged ones included, and whatever the handler does with
  -- its context: on a valid pool the loop does not fault, and afterwards the same slots are free.
  pub protocol_receive_loop_safe :
      (ms : List (Bool × Received)) (s : S) (p : Pool Waiter) {free : List ℕ}
      → Inv p free
      → (ds : List Dealloc) × (s' : S) × (q : Pool Waiter) × (protocol_receive_loop handler
            (s, p)
            ms
          ≡ some (ds, (s', q)))
        × Inv q free
  protocol_receive_loop_safe ms s p v =
      let (ds, s', q, e, w, g) =
        protocol_receive_loop_keeps handler (λ k c. Unit) (λ k c m native g. tt) (λ k c g. tt) ms s
          p v tt in
      (ds, s', q, e, w)

  -- The memory of a well-formed acknowledgment has one owner after a round of the loop: either the
  -- loop has deallocated it and nothing else changed, or a waiter with its correlation id, in the slot
  -- that it names, holds it and the loop has deallocated nothing.
  pub receive_ack_owner :
      (s : S) (p : Pool Waiter) (m : Received) {free : List ℕ}
      → Inv p free
      → is_success m.result ≡ true
      → is_this_protocol_msg m.id ≡ true
      → is_well_formed m ≡ true
      → has_feature feature_iack m.id ≡ true
      → (receive handler (s, p) m ≡ some (clean m.remote_port m, (s, p)))
        ⊎ ((i : ℕ) × (matches (waiter p i).correlation_id i (ack_of m) ≡ true)
            × (receive handler (s, p) m
                ≡ some (
                  [],
                  (s, with_slots p (set p.slots i (with_reply (waiter p i) (some (ack_of m))))),
                )))
  unfolding receive receive_ack
  receive_ack_owner s p m {free} v ok ours formed ack =
      by_owner (handle_ack_message_owner (ack_of m) v)
    where
      by_owner :
          Owned p free (ack_of m)
          → (receive handler (s, p) m ≡ some (clean m.remote_port m, (s, p)))
            ⊎ ((i : ℕ) × (matches (waiter p i).correlation_id i (ack_of m) ≡ true)
                × (receive handler (s, p) m
                    ≡ some (
                      [],
                      (s, with_slots p (set p.slots i (with_reply (waiter p i) (some (ack_of m))))),
                    )))
      by_owner (refused e) = inl (rw (ok, ours, formed, ack, e))
      by_owner (taken i a eq c e) = inr (i, eq, rw (ok, ours, formed, ack, e))
