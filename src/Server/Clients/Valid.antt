-- ===== src/Server/Clients/Valid.antt =====
-- What holds of the client list between two messages.
use mach_ipc.Base.{
  ℕ, zero, suc, ◌+◌, ◌^◌, ℤ, ◌-◌, ◌<◌, ◌≡◌, refl, sym, ap, ◌∙◌, subst, ◌⊎◌, inl, inr, Bool, true,
  false, Option, none, some, List, [], ◌∷◌, get_or, set, ◌==◌, ==_refl, arith, Bool-cases,
}
use mathlib.Core.Option.{some-injective}
use mach_ipc.Server.Clients.{
  Client, Table, take_id, entry_is, has_id, has_port, slot_of, find_client_by_port_locked,
  remove_client,
}
use mach_ipc.Server.Clients.Find.{Unique, search_none}
use mach_ipc.Server.Clients.Count.{
  Counted, Unlisted, Place, add_client_at, add_client_lem, slot_of_cases, remove_client_at,
  remove_client-Counted,
}

abbrev pub is_at : ℕ → Client → Bool
is_at address c = c.address == address

-- The counter is right, every entry is an active client with an id that has been given out, and no
-- two entries share an id, a port or an address.
pub record Valid (t : Table) : Type 0 where
  pub counted : Counted t
  pub live : (i : ℕ) (c : Client) → get_or t.clients i none ≡ some c → c.active ≡ true
  pub ids : (i : ℕ) (c : Client) → get_or t.clients i none ≡ some c → c.id < t.next_client_id
  pub by_id : (id : ℕ) → Unique (has_id id) t.clients
  pub by_port : (port : ℕ) → Unique (has_port port) t.clients
  pub by_address : (a : ℕ) → Unique (is_at a) t.clients

pub set_cases :
    (cs : List (Option Client)) (j i : ℕ) (v : Option Client)
    → (get_or (set cs j v) i none ≡ get_or cs i none) ⊎ ((i ≡ j) × (get_or (set cs j v) i none ≡ v))
set_cases [] j i v = inl refl
set_cases (c ∷ cs) zero zero v = inr (refl, refl)
set_cases (c ∷ cs) zero (suc i) v = inl refl
set_cases (c ∷ cs) (suc j) zero v = inl refl
set_cases (c ∷ cs) (suc j) (suc i) v = elim (set_cases cs j i v) [
  | inl e ↦ inl e
  | inr (e, f) ↦ inr (ap suc e, f)
]

module _ (test : Client → Bool) (cs : List (Option Client)) where
  -- No entry passes the test.
  abbrev pub Nowhere : Type 0
  Nowhere = (i : ℕ) → entry_is test (get_or cs i none) ≡ false

  pub Unique-set-none : (j : ℕ) → Unique test cs → Unique test (set cs j none)
  Unique-set-none j u i k p q = elim (set_cases cs j i none) [
    | inr (e, f) ↦ absurd (ground arith)
    | inl e ↦ elim (set_cases cs j k none) [
      | inr (f, g) ↦ absurd (ground arith)
      | inl f ↦ u i k (ground arith) (ground arith)
    ]
  ]

  pub Unique-set-some :
      (j : ℕ) (c : Client)
      → (test c ≡ true → Nowhere)
      → Unique test cs
      → Unique test (set cs j (some c))
  Unique-set-some j c fresh u i k p q = elim (set_cases cs j i (some c)) [
    | inr (e, f) ↦ elim (set_cases cs j k (some c)) [
      | inr (g, h) ↦ e ∙ sym g
      | inl g ↦ absurd (ground (arith, fresh (ground arith) k))
    ]
    | inl e ↦ elim (set_cases cs j k (some c)) [
      | inr (f, g) ↦ absurd (ground (arith, fresh (ground arith) i))
      | inl f ↦ u i k (ground arith) (ground arith)
    ]
  ]

cleared : (cs : List (Option Client)) (i : ℕ) → get_or (set cs i none) i none ≡ none
cleared [] i = refl
cleared (c ∷ cs) zero = refl
cleared (c ∷ cs) (suc i) = cleared cs i

-- Where only one entry passes, none does once it is gone.
pub Unique-Nowhere :
    (test : Client → Bool) (cs : List (Option Client)) (i : ℕ)
    → Unique test cs
    → entry_is test (get_or cs i none) ≡ true
    → Nowhere test (set cs i none)
Unique-Nowhere test cs i u e j = elim (Bool-cases (entry_is test (get_or (set cs i none) j none))) [
  | inr n ↦ n
  | inl passes ↦ elim (set_cases cs i j none) [
    | inr (same, gone) ↦ rw gone
    | inl kept ↦ let same : j ≡ i = u j i (ground arith) e in rw (same, cleared cs i)
  ]
]

Unlisted-Nowhere : (a : ℕ) (cs : List (Option Client)) → Unlisted a cs → Nowhere (is_at a) cs
Unlisted-Nowhere a [] u i = refl
Unlisted-Nowhere a (none ∷ cs) u zero = refl
Unlisted-Nowhere a (none ∷ cs) u (suc i) = Unlisted-Nowhere a cs u i
Unlisted-Nowhere a (some c ∷ cs) u zero = u.0
Unlisted-Nowhere a (some c ∷ cs) u (suc i) = Unlisted-Nowhere a cs u.1 i

slot_of_found :
    (a i k : ℕ) (cs : List (Option Client))
    → slot_of a i cs ≡ some k
    → (j : ℕ) × (k ≡ i + j) × (entry_is (is_at a) (get_or cs j none) ≡ true)
unfolding slot_of
slot_of_found a i k [] e = cc
slot_of_found a i k (none ∷ cs) e =
    let (j, s, t) = slot_of_found a (suc i) k cs e in (suc j, omega arith, t)
slot_of_found a i k (some d ∷ cs) e = elim (Bool-cases (d.address == a)) [
  | inl h ↦ (0, ground arith, h)
  | inr n ↦ let (j, s, t) = slot_of_found a (suc i) k cs (rw n at e) in (suc j, omega arith, t)
]

slot_of_none : (a i : ℕ) (cs : List (Option Client)) → slot_of a i cs ≡ none → Nowhere (is_at a) cs
unfolding slot_of
slot_of_none a i [] e j = refl
slot_of_none a i (none ∷ cs) e zero = refl
slot_of_none a i (none ∷ cs) e (suc j) = slot_of_none a (suc i) cs e j
slot_of_none a i (some d ∷ cs) e zero = ground arith
slot_of_none a i (some d ∷ cs) e (suc j) = slot_of_none a (suc i) cs (ground arith) j

-- The client in slot `i` leaves, and nothing else changes.
pub remove_client_listed :
    (t : Table) (i : ℕ) (c : Client)
    → Unique (is_at c.address) t.clients
    → get_or t.clients i none ≡ some c
    → remove_client t c
      ≡ record t { clients = set t.clients i none; client_count = t.client_count - 1 }
remove_client_listed t i c u e = elim (slot_of_cases c.address 0 t.clients) [
  | inl n ↦ absurd (ground (arith, slot_of_none c.address 0 t.clients n i, ==_refl c.address))
  | inr p ↦
      let (j, s, at) = slot_of_found c.address 0 (0 + p.index) t.clients p.found in
      let here : p.index ≡ i =
        u p.index i
          (ap (λ (k : ℕ). entry_is (is_at c.address) (get_or t.clients k none)) (omega arith) ∙ at)
          (ground (arith, ==_refl c.address)) in
      remove_client_at t c p.index p.found
      ∙ ap
          (λ (k : ℕ). record t {
            clients = set t.clients k none;
            client_count = t.client_count - 1;
          })
          here
]

remove_at-Valid :
    (t : Table) (i : ℕ)
    → Valid t
    → Counted (record t { clients = set t.clients i none; client_count = t.client_count - 1 })
    → Valid (record t { clients = set t.clients i none; client_count = t.client_count - 1 })
remove_at-Valid t i v n = record {
  counted = n;
  live = λ j c e. v.live j c (unless_removed j c e);
  ids = λ j c e. v.ids j c (unless_removed j c e);
  by_id = λ id. Unique-set-none (has_id id) t.clients i (v.by_id id);
  by_port = λ port. Unique-set-none (has_port port) t.clients i (v.by_port port);
  by_address = λ a. Unique-set-none (is_at a) t.clients i (v.by_address a);
}
  where
    unless_removed :
        (j : ℕ) (c : Client)
        → get_or (set t.clients i none) j none ≡ some c
        → get_or t.clients j none ≡ some c
    unless_removed j c e = elim (set_cases t.clients i j none) [
      | inl f ↦ sym f ∙ e
      | inr (f, g) ↦ absurd (ground arith)
    ]

pub remove_client-Valid :
    (t : Table) (i : ℕ) (c : Client)
    → Valid t
    → get_or t.clients i none ≡ some c
    → Valid (remove_client t c)
remove_client-Valid t i c v e =
    let same = remove_client_listed t i c (v.by_address c.address) e in
    subst Valid (sym same)
      (remove_at-Valid t i v (subst Counted same (remove_client-Counted t c v.counted)))

set_keeps :
    (P : Client → Type 0) (cs : List (Option Client)) (j : ℕ) (c : Client)
    → P c
    → ((i : ℕ) (d : Client) → get_or cs i none ≡ some d → P d)
    → (i : ℕ) (d : Client) → get_or (set cs j (some c)) i none ≡ some d
    → P d
set_keeps P cs j c here there i d e = elim (set_cases cs j i (some c)) [
  | inl f ↦ there i d (sym f ∙ e)
  | inr (f, g) ↦ subst P (some-injective c d (sym g ∙ e)) here
]

-- Giving out an id changes nothing else, as long as the ids do not wrap.
pub take_id-Valid : (t : Table) → Valid t → t.next_client_id + 1 < 2 ^ 32 → Valid (take_id t)
take_id-Valid t v h = record {
  counted = record { sized = v.counted.sized; counted = v.counted.counted };
  live = v.live;
  ids = λ i c e. omega (arith, v.ids i c e);
  by_id = v.by_id;
  by_port = v.by_port;
  by_address = v.by_address;
}

-- A client that is added at `index` with the id that was given out.
abbrev pub joined_at : Table → ℕ → Client → Table
joined_at t index c = record (take_id t) {
  clients = set t.clients index (some c);
  client_count = t.client_count + 1;
}

module _ (t : Table) (c : Client) (v : Valid t) (h : t.next_client_id + 1 < 2 ^ 32)
    (id : c.id ≡ t.next_client_id) (active : c.active ≡ true)
    (absent : find_client_by_port_locked t c.port none ≡ none)
    (fresh : Unlisted c.address t.clients) where
  new_id : (k : ℕ) → has_id k c ≡ true → Nowhere (has_id k) t.clients
  new_id k e i = below (get_or t.clients i none) refl
    where
      below : (o : Option Client) → get_or t.clients i none ≡ o → entry_is (has_id k) o ≡ false
      below none f = refl
      below (some d) f = ground (arith, v.ids i d f)

  new_port : (k : ℕ) → has_port k c ≡ true → Nowhere (has_port k) t.clients
  unfolding find_client_by_port_locked
  new_port k e i =
      let same : c.port ≡ k = ground arith in
      rw (← same) (search_none (has_port c.port) t.clients 0 i absent)

  new_address : (k : ℕ) → is_at k c ≡ true → Nowhere (is_at k) t.clients
  new_address k e i =
      let same : c.address ≡ k = ground arith in
      rw (← same) (Unlisted-Nowhere c.address t.clients fresh i)

  pub joined-Valid : (p : Place 0 t.clients) → Valid (joined_at t p.index c)
  joined-Valid p = record {
    counted =
        subst Counted (ap (λ (r : ℤ × Table). r.1) (add_client_at (take_id t) c p.index p.found))
          (add_client_lem (take_id t) c (take_id-Valid t v h).counted).0;
    live = λ i d e.
        set_keeps (λ (x : Client). x.active ≡ true) t.clients p.index c active v.live i d e;
    ids = λ i d e.
        set_keeps (λ (x : Client). x.id < (take_id t).next_client_id) t.clients p.index c
          (omega arith) (take_id-Valid t v h).ids i d e;
    by_id = λ k. Unique-set-some (has_id k) t.clients p.index c (new_id k) (v.by_id k);
    by_port = λ k. Unique-set-some (has_port k) t.clients p.index c (new_port k) (v.by_port k);
    by_address =
        λ k. Unique-set-some (is_at k) t.clients p.index c (new_address k) (v.by_address k);
  }
