-- ===== src/Server/Clients.antt =====
-- The client list of a server: `find_client_by_id_locked` and `find_client_by_port_locked` of
-- src/protocol.c, `add_client` and `remove_client` of src/server.c. Each runs under `clients_lock`.
-- An entry of the array is the `client_info_t` that it points to, with its address; NULL is `none`.
pub mod Find
pub mod Count
pub mod Valid
mod Tests
use mach_ipc.Base.{
  ℕ, zero, suc, ◌+◌, ◌%◌, ◌^◌, ◌-◌, Bool, true, false, ◌&&◌, Option, none, some, List, [], ◌∷◌,
  get_or, set, ℤ, pos, negsuc, minus_one, ltb, ◌==◌, if◌then◌else◌,
}

-- `client_info_t`, without the queue and the name for the log.
pub record Client : Type 0 where
  pub address : ℕ
  pub id : ℕ
  pub port : ℕ
  pub active : Bool

-- MAX_CLIENTS
abbrev pub max_clients : ℕ
max_clients = 100

-- The fields of `mach_server` that `clients_lock` guards.
pub record Table : Type 0 where
  pub clients : List (Option Client)
  pub client_count : ℕ
  pub next_client_id : ℕ

-- `server->next_client_id++` on 32 bits.
abbrev pub take_id : Table → Table
take_id t = record t { next_client_id = (t.next_client_id + 1) % 2 ^ 32 }

-- A test of an entry: not null and so on.
abbrev pub entry_is : (Client → Bool) → Option Client → Bool
entry_is test none = false
entry_is test (some c) = test c

-- `for (int i = 0; i < MAX_CLIENTS; i++)`, from `i` on: the first entry that passes.
unfoldable pub search_from : (Client → Bool) → ℕ → List (Option Client) → Option (ℕ × Client)
search_from test i [] = none
search_from test i (none ∷ cs) = search_from test (suc i) cs
search_from test i (some c ∷ cs) =
    let rest = search_from test (suc i) cs in if test c then some (i, c) else rest

-- The slot that the caller says, validated.
abbrev pub validate : (Client → Bool) → ℕ → Option Client → Option (ℕ × Client)
validate test i none = none
validate test i (some c) = if test c then some (i, c) else none

-- `slot` is `none` for a null pointer; the slot of the result is what is written through it.
unfoldable pub find_client :
    (Client → Bool) → List (Option Client) → (slot : Option ℤ) → Option (ℕ × Client)
find_client test cs (some (pos i)) =
    if ltb i max_clients then validate test i (get_or cs i none) else none
find_client test cs (some (negsuc n)) = search_from test 0 cs
find_client test cs none = search_from test 0 cs

abbrev pub has_id : ℕ → Client → Bool
has_id id c = c.id == id && c.active

abbrev pub has_port : ℕ → Client → Bool
has_port port c = c.port == port && c.active

pub find_client_by_id_locked : Table → ℕ → Option ℤ → Option (ℕ × Client)
unfolding find_client
find_client_by_id_locked t id slot = find_client (has_id id) t.clients slot

unfoldable pub find_client_by_port_locked : Table → ℕ → Option ℤ → Option (ℕ × Client)
unfolding find_client
find_client_by_port_locked t port slot = find_client (has_port port) t.clients slot

-- The first null entry.
unfoldable pub free_slot : ℕ → List (Option Client) → Option ℕ
free_slot i [] = none
free_slot i (none ∷ cs) = some i
free_slot i (some c ∷ cs) = free_slot (suc i) cs

unfoldable pub add_client : Table → Client → ℤ × Table
add_client t c = elim (free_slot 0 t.clients) [
  | some i ↦
      (pos i, record t { clients = set t.clients i (some c); client_count = t.client_count + 1 })
  | none ↦ (minus_one, t)
]

-- The first entry that points to the client.
pub slot_of : (address i : ℕ) → List (Option Client) → Option ℕ
slot_of address i [] = none
slot_of address i (none ∷ cs) = slot_of address (suc i) cs
slot_of address i (some c ∷ cs) =
    let rest = slot_of address (suc i) cs in if c.address == address then some i else rest

-- `client_count--` runs only where an entry was found, so the count is positive.
pub remove_client : Table → Client → Table
remove_client t c = elim (slot_of c.address 0 t.clients) [
  | some i ↦ record t { clients = set t.clients i none; client_count = t.client_count - 1 }
  | none ↦ t
]
