-- ===== src/Server/Clients/Tests.antt =====
-- A client list with two clients, and the lemmas about it applied.
use mach_ipc.Base.{
  ℕ, ◌+◌, zero, Bool, suc, ◌≡◌, refl, ◌∙◌, sym, true, false, none, some, ◌∷◌, replicate, get_or,
  pos, arith,
}
use mach_ipc.Server.Clients.{Client, Table, entry_is, has_id, has_port, add_client, free_slot}
use mach_ipc.Server.Clients.Find.{Unique}
use mach_ipc.Server.Clients.Count.{present, Counted}

abbrev client : ℕ → Client
client n = record { address = 1000 + n; id = n; port = 500 + n; active = true }

-- Clients 1 and 3; client 2 has gone.
abbrev table : Table
table = record {
  clients = some (client 1) ∷ none ∷ some (client 3) ∷ replicate 97 none;
  client_count = 2;
  next_client_id = 4;
}

present-table : present table.clients ≡ 2
unfolding present
present-table = refl

table-Counted : Counted table
unfolding present
table-Counted = record { sized = refl; counted = refl }

no_entry :
    (test : Client → Bool) (n i : ℕ) → entry_is test (get_or (replicate n none) i none) ≡ false
no_entry test zero i = refl
no_entry test (suc n) zero = refl
no_entry test (suc n) (suc i) = no_entry test n i

id_at_two : (i : ℕ) → entry_is (has_id 3) (get_or table.clients i none) ≡ true → i ≡ 2
id_at_two zero h = ground arith
id_at_two (suc zero) h = ground arith
id_at_two (suc (suc zero)) h = refl
id_at_two (suc (suc (suc i))) h = absurd (ground (arith, no_entry (has_id 3) 97 i))

port_at_two : (i : ℕ) → entry_is (has_port 503) (get_or table.clients i none) ≡ true → i ≡ 2
port_at_two zero h = ground arith
port_at_two (suc zero) h = ground arith
port_at_two (suc (suc zero)) h = refl
port_at_two (suc (suc (suc i))) h = absurd (ground (arith, no_entry (has_port 503) 97 i))

only_id : Unique (has_id 3) table.clients
only_id i j p q = id_at_two i p ∙ sym (id_at_two j q)

only_port : Unique (has_port 503) table.clients
only_port i j p q = port_at_two i p ∙ sym (port_at_two j q)

-- A new client takes the gap.
add_client-table : (add_client table (client 4)).0 ≡ pos 1
unfolding add_client free_slot
add_client-table = refl
