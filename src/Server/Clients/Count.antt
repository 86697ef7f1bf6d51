-- ===== src/Server/Clients/Count.antt =====
-- The counter of the client list: `client_count` against the entries that are there.
use native.Mathlib.Decide.{dec_lt}
use mach_ipc.Base.{
  zero, get_or, get_or-set_self, ℕ, suc, ◌+◌, ◌-◌, ◌<◌, ◌≤◌, ◌≡◌, ◌↔◌, refl, ◌∙◌, ap, ◌⊎◌, inl, inr,
  false, Option, none, some, List, [], ◌∷◌, length, length-set, set, pos, minus_one, ◌==◌, ==_refl,
  arith, Bool-cases,
}
use mach_ipc.Server.Clients.{
  Client, Table, max_clients, free_slot, add_client, slot_of, remove_client,
}

-- The entries that are not null.
unfoldable pub present : List (Option Client) → ℕ
present [] = 0
present (none ∷ cs) = present cs
present (some c ∷ cs) = present cs + 1

-- The array has its size, and the counter is right.
pub record Counted (t : Table) : Type 0 where
  pub sized : length t.clients ≡ max_clients
  pub counted : t.client_count ≡ present t.clients

-- No entry points to the client.
abbrev pub Unlisted : (address : ℕ) → List (Option Client) → Type 0
Unlisted address [] = Unit
Unlisted address (none ∷ cs) = Unlisted address cs
Unlisted address (some c ∷ cs) = ((c.address == address) ≡ false) × Unlisted address cs

pub present_le : (cs : List (Option Client)) → present cs ≤ length cs
unfolding present
present_le [] = omega arith
present_le (none ∷ cs) = omega (arith, present_le cs)
present_le (some c ∷ cs) = omega (arith, present_le cs)

-- The place that `add_client` finds.
pub record Place (i : ℕ) (cs : List (Option Client)) : Type 0 where
  pub index : ℕ
  pub found : free_slot i cs ≡ some (i + index)
  pub room : present cs < length cs
  pub adds : (c : Client) → present (set cs index (some c)) ≡ present cs + 1
  pub undone : (c : Client) → set (set cs index (some c)) index none ≡ cs
  pub listed :
      (c : Client)
      → Unlisted c.address cs
      → slot_of c.address i (set cs index (some c)) ≡ some (i + index)

pub free_slot_cases :
    (i : ℕ) (cs : List (Option Client))
    → ((free_slot i cs ≡ none) × (present cs ≡ length cs)) ⊎ Place i cs
unfolding free_slot present slot_of
free_slot_cases i [] = inl (refl, refl)
free_slot_cases i (none ∷ cs) = inr (record {
  index = 0;
  found = ground arith;
  room = ground (arith, present_le cs);
  adds = λ c. refl;
  undone = λ c. refl;
  listed = λ c u. ground (arith, ==_refl c.address);
})
free_slot_cases i (some d ∷ cs) = elim (free_slot_cases (suc i) cs) [
  | inl (e, full) ↦ inl (e, ground arith)
  | inr p ↦ inr (record {
    index = suc p.index;
    found = ground (arith, p.found);
    room = ground (arith, p.room);
    adds = λ c. ground (arith, p.adds c);
    undone = λ c. rw (p.undone c);
    listed = λ c u. ground (arith, u.0, p.listed c u.1);
  })
]

-- The place that `remove_client` finds.
pub record Entry (i address : ℕ) (cs : List (Option Client)) : Type 0 where
  pub index : ℕ
  pub found : slot_of address i cs ≡ some (i + index)
  pub drops : present (set cs index none) + 1 ≡ present cs

pub slot_of_cases :
    (address i : ℕ) (cs : List (Option Client)) → (slot_of address i cs ≡ none) ⊎ Entry i address cs
unfolding present slot_of
slot_of_cases address i [] = inl refl
slot_of_cases address i (none ∷ cs) = elim (slot_of_cases address (suc i) cs) [
  | inl e ↦ inl e
  | inr p ↦ inr (record { index = suc p.index; found = ground (arith, p.found); drops = p.drops })
]
slot_of_cases address i (some d ∷ cs) = elim (Bool-cases (d.address == address)) [
  | inl h ↦ inr (record { index = 0; found = ground arith; drops = refl })
  | inr n ↦ elim (slot_of_cases address (suc i) cs) [
    | inl e ↦ inl (ground arith)
    | inr p ↦ inr (record {
      index = suc p.index;
      found = ground (arith, p.found);
      drops = ground (arith, p.drops);
    })
  ]
]

slot_of-Unlisted :
    (address i : ℕ) (cs : List (Option Client)) → Unlisted address cs → slot_of address i cs ≡ none
unfolding slot_of
slot_of-Unlisted address i [] u = refl
slot_of-Unlisted address i (none ∷ cs) u = slot_of-Unlisted address (suc i) cs u
slot_of-Unlisted address i (some d ∷ cs) u =
    ground (arith, u.0, slot_of-Unlisted address (suc i) cs u.1)

pub add_client_at :
    (t : Table) (c : Client) (i : ℕ)
    → free_slot 0 t.clients ≡ some (0 + i)
    → add_client t c
      ≡ (pos i, record t { clients = set t.clients i (some c); client_count = t.client_count + 1 })
unfolding add_client
add_client_at t c i e = ground (arith, e)

pub add_client_full :
    (t : Table) (c : Client) → free_slot 0 t.clients ≡ none → add_client t c ≡ (minus_one, t)
unfolding add_client
add_client_full t c e = ground (arith, e)

pub remove_client_at :
    (t : Table) (c : Client) (i : ℕ)
    → slot_of c.address 0 t.clients ≡ some (0 + i)
    → remove_client t c
      ≡ record t { clients = set t.clients i none; client_count = t.client_count - 1 }
unfolding remove_client
remove_client_at t c i e = ground (arith, e)

remove_client_absent :
    (t : Table) (c : Client) → slot_of c.address 0 t.clients ≡ none → remove_client t c ≡ t
unfolding remove_client
remove_client_absent t c e = ground (arith, e)

-- On a table of 100 entries whose counter is right `add_client` keeps it so. It refuses a client, with
-- -1 and no change, exactly when the counter stands at 100.
pub add_client_lem :
    (t : Table) (c : Client)
    → Counted t
    → Counted (add_client t c).1
      × (((add_client t c).0 ≡ minus_one) ↔ (t.client_count ≡ max_clients))
      × ((add_client t c).0 ≡ minus_one → (add_client t c).1 ≡ t)
add_client_lem t c v = elim (free_slot_cases 0 t.clients) [
  | inl (e, full) ↦
      rw (add_client_full t c e) (v, (λ _. omega (arith, v.sized, v.counted), λ _. refl), λ _. refl)
  | inr p ↦ rw (add_client_at t c p.index p.found) (
    record {
      sized = length-set t.clients p.index (some c) ∙ v.sized;
      counted = omega (arith, v.counted, p.adds c);
    },
    (λ e. cc, λ e. absurd (omega (arith, v.sized, v.counted, p.room))),
    λ e. cc,
  )
]

-- `remove_client` keeps the counter right as well.
pub remove_client-Counted : (t : Table) (c : Client) → Counted t → Counted (remove_client t c)
remove_client-Counted t c v = elim (slot_of_cases c.address 0 t.clients) [
  | inl e ↦ rw (remove_client_absent t c e) v
  | inr p ↦ rw (remove_client_at t c p.index p.found) (record {
    sized = length-set t.clients p.index none ∙ v.sized;
    counted = omega (arith, v.counted, p.drops);
  })
]

-- Removing a client that was not listed before it was added undoes the addition, also where the list
-- was full and nothing was added.
pub remove_client-add_client :
    (t : Table) (c : Client) → Unlisted c.address t.clients → remove_client (add_client t c).1 c ≡ t
remove_client-add_client t c u = elim (free_slot_cases 0 t.clients) [
  | inl (e, full) ↦
      rw (add_client_full t c e)
        (remove_client_absent t c (slot_of-Unlisted c.address 0 t.clients u))
  | inr p ↦
      rw
        (
          add_client_at t c p.index p.found,
          remove_client_at
              (record t {
                clients = set t.clients p.index (some c);
                client_count = t.client_count + 1;
              })
              c p.index (p.listed c u),
          p.undone c,
        )
        (ap (λ (n : ℕ). record t { client_count = n }) (omega arith))
]

set-beyond :
    (cs : List (Option Client)) (i : ℕ) (v : Option Client) → length cs ≤ i → set cs i v ≡ cs
set-beyond [] i v h = refl
set-beyond (c ∷ cs) zero v h = absurd (omega arith)
set-beyond (c ∷ cs) (suc i) v h =
    ap (λ (xs : List (Option Client)). c ∷ xs) (set-beyond cs i v (omega arith))

-- The client stands in the place that was found for it.
pub placed :
    (cs : List (Option Client)) (p : Place 0 cs) (c : Client)
    → get_or (set cs p.index (some c)) p.index none ≡ some c
placed cs p c = elim (dec_lt p.index (length cs)) [
  | yes h ↦ get_or-set_self cs p.index (some c) none h
  | no n ↦
      absurd (omega (arith, p.adds c, ap present (set-beyond cs p.index (some c) (omega arith)), n))
]
