-- ===== src/Server/Clients/Find.antt =====
-- Lookup by slot and lookup by search agree.
use mach_ipc.Base.{
  minus_one, ℕ, zero, suc, ◌+◌, ◌≡◌, ◌↔◌, ap, ◌∙◌, Option-cases, refl, inl, inr, Bool, true, false,
  Option, none, some, List, [], ◌∷◌, get_or, get_or-default, length, pos, arith, Bool-cases,
}
use mach_ipc.Server.Clients.{
  Client, Table, max_clients, entry_is, search_from, validate, find_client, has_id, has_port,
  find_client_by_id_locked, find_client_by_port_locked,
}

-- Only one entry passes the test.
abbrev pub Unique : (Client → Bool) → List (Option Client) → Type 0
Unique test cs =
    (i j : ℕ)
    → entry_is test (get_or cs i none) ≡ true
    → entry_is test (get_or cs j none) ≡ true
    → i ≡ j

module _ (test : Client → Bool) where
  -- What the search returns is the first entry that passes, counted from `i`.
  search_found :
      (cs : List (Option Client)) (i k : ℕ) (c : Client)
      → search_from test i cs ≡ some (k, c)
      → (j : ℕ) × (k ≡ i + j) × (get_or cs j none ≡ some c) × (test c ≡ true)
  unfolding search_from
  search_found [] i k c e = cc
  search_found (none ∷ cs) i k c e =
      let (j, s, g, t) = search_found cs (suc i) k c e in (suc j, omega arith, g, t)
  search_found (some d ∷ cs) i k c e = elim (Bool-cases (test d)) [
    | inl h ↦ (0, ground arith, ground arith, ground arith)
    | inr n ↦
        let (j, s, g, t) = search_found cs (suc i) k c (rw n at e) in (suc j, omega arith, g, t)
  ]

  pub search_none :
      (cs : List (Option Client)) (i j : ℕ)
      → search_from test i cs ≡ none
      → entry_is test (get_or cs j none) ≡ false
  unfolding search_from
  search_none [] i j e = refl
  search_none (none ∷ cs) i zero e = refl
  search_none (none ∷ cs) i (suc j) e = search_none cs (suc i) j e
  search_none (some d ∷ cs) i zero e = ground arith
  search_none (some d ∷ cs) i (suc j) e = search_none cs (suc i) j (ground arith)

  validated :
      (i : ℕ) (o : Option Client) (c : Client)
      → (validate test i o ≡ some (i, c)) ↔ ((o ≡ some c) × (test c ≡ true))
  validated i none c = ((λ e. cc), (λ h. cc))
  validated i (some d) c = ground arith

  -- Where only one entry passes, the search finds just that one.
  searched :
      (cs : List (Option Client)) (i : ℕ) (c : Client)
      → Unique test cs
      → (search_from test 0 cs ≡ some (i, c)) ↔ ((get_or cs i none ≡ some c) × (test c ≡ true))
  searched cs i c u = (to, from)
    where
      to : search_from test 0 cs ≡ some (i, c) → (get_or cs i none ≡ some c) × (test c ≡ true)
      to e =
          let (j, s, g, t) = search_found cs 0 i c e in
          let same : i ≡ j = omega arith in (ap (λ (k : ℕ). get_or cs k none) same ∙ g, t)

      from : (get_or cs i none ≡ some c) × (test c ≡ true) → search_from test 0 cs ≡ some (i, c)
      from (g, t) = elim (Option-cases (search_from test 0 cs)) [
        | inl n ↦ absurd (ground (arith, search_none cs 0 i n))
        | inr ((k, d), e) ↦
            let (j, s, h, w) = search_found cs 0 k d e in
            let same : i ≡ j = u i j (ground arith) (ground arith) in
            e ∙ ap some (ground (arith, ap (λ (k : ℕ). get_or cs k none) same))
      ]

  in_slot :
      (cs : List (Option Client)) (i : ℕ) (c : Client)
      → length cs ≡ max_clients
      → (find_client test cs (some (pos i)) ≡ some (i, c))
        ↔ ((get_or cs i none ≡ some c) × (test c ≡ true))
  unfolding find_client
  in_slot cs i c sized = ground (arith, validated i (get_or cs i none) c, get_or-default cs i none)

-- Where at most one active client has the id, `find_client_by_id_locked` returns the same client for a
-- slot that the caller knows as the search of the whole list does, and it finds a client in a slot
-- exactly if that slot holds an active client with the id.
pub find_client_by_id_locked_iff :
    (t : Table) (id i : ℕ) (c : Client)
    → length t.clients ≡ max_clients
    → Unique (has_id id) t.clients
    → ((find_client_by_id_locked t id (some (pos i)) ≡ some (i, c))
        ↔ (find_client_by_id_locked t id none ≡ some (i, c)))
      × ((find_client_by_id_locked t id none ≡ some (i, c))
          ↔ ((get_or t.clients i none ≡ some c) × (c.id ≡ id) × (c.active ≡ true)))
unfolding find_client_by_id_locked
find_client_by_id_locked_iff t id i c sized u =
    ground (arith, in_slot (has_id id) t.clients i c sized, searched (has_id id) t.clients i c u)

-- Where at most one active client has the port, `find_client_by_port_locked` returns the same client
-- for a slot that the caller knows as the search of the whole list does, and it finds a client in a
-- slot exactly if that slot holds an active client with the port.
pub find_client_by_port_locked_iff :
    (t : Table) (port i : ℕ) (c : Client)
    → length t.clients ≡ max_clients
    → Unique (has_port port) t.clients
    → ((find_client_by_port_locked t port (some (pos i)) ≡ some (i, c))
        ↔ (find_client_by_port_locked t port none ≡ some (i, c)))
      × ((find_client_by_port_locked t port none ≡ some (i, c))
          ↔ ((get_or t.clients i none ≡ some c) × (c.port ≡ port) × (c.active ≡ true)))
unfolding find_client_by_port_locked
find_client_by_port_locked_iff t port i c sized u =
    ground
      (arith, in_slot (has_port port) t.clients i c sized, searched (has_port port) t.clients i c u)

-- What a search for a port returns.
pub port_found :
    (t : Table) (port i : ℕ) (c : Client)
    → find_client_by_port_locked t port (some minus_one) ≡ some (i, c)
    → (get_or t.clients i none ≡ some c) × (has_port port c ≡ true)
unfolding find_client_by_port_locked find_client
port_found t port i c e =
    let (j, s, g, w) = search_found (has_port port) t.clients 0 i c e in
    (ap (λ (k : ℕ). get_or t.clients k none) (omega arith) ∙ g, w)

pub port_not_found :
    (t : Table) (port i : ℕ)
    → find_client_by_port_locked t port (some minus_one) ≡ none
    → entry_is (has_port port) (get_or t.clients i none) ≡ false
unfolding find_client_by_port_locked find_client
port_not_found t port i e = search_none (has_port port) t.clients 0 i e
