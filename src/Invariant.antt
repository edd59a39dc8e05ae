-- ===== src/Invariant.antt =====
-- What holds of the shared state between the operations of the threads.
pub mod Slots
pub mod Rules
pub mod Carried
pub mod Quiet
pub mod Keeps
pub mod Tables
pub mod Search
pub mod Rooms
pub mod Registry
pub mod Uids
pub mod Removal
pub mod Leaving
pub mod Handlers
pub mod Threads
pub mod Steps
pub mod Members
use lso_server.Base.{
  ℕ, zero, suc, ◌+◌, ◌<◌, ◌≡◌, ◌⊎◌, List, [], ◌∷◌, Option, none, some, pos, length, get_elem?,
  if◌then◌else◌,
}
use lso_server.World.{Pointer, null, addr, Client, Room, Pool, World, object, is_null}
use lso_server.ClientPool.{max_clients}
use lso_server.Room.{max_rooms, max_clients_per_room}

-- The slots that are in use.
abbrev pub occupied : List Pointer → ℕ
occupied [] = 0
occupied (p ∷ ps) = if is_null p then occupied ps else suc (occupied ps)

-- `size` counts the slots in use; each of them leads to a client, and no two to the same.
pub record IsPool (p : Pool) (clients : List (Option Client)) : Type 0 where
  pub slots : length p.clients ≡ max_clients
  pub counted : p.size ≡ pos (occupied p.clients)
  pub member :
      (i : ℕ) (q : Pointer)
      → get_elem? p.clients i ≡ some q
      → (q ≡ null) ⊎ ((a : ℕ) × (c : Client) × (q ≡ addr a) × (object clients (addr a) ≡ some c))
  pub distinct :
      (i j a : ℕ)
      → get_elem? p.clients i ≡ some (addr a)
      → get_elem? p.clients j ≡ some (addr a)
      → i ≡ j

-- The uids of the clients are distinct, and below the counter.
pub record IsUids (clients : List (Option Client)) (counter : ℕ) : Type 0 where
  pub below : (a : ℕ) (c : Client) → object clients (addr a) ≡ some c → c.uid < counter
  pub distinct :
      (a b : ℕ) (c d : Client)
      → object clients (addr a) ≡ some c
      → object clients (addr b) ≡ some d
      → c.uid ≡ d.uid
      → a ≡ b

-- `clientsCount` counts the slots in use.
pub record IsRoom (r : Room) (counter : ℕ) : Type 0 where
  pub slots : length r.clients ≡ max_clients_per_room
  pub counted : r.clients_count ≡ pos (occupied r.clients)
  pub below : r.id < counter

-- The table holds the rooms at their ids, all of them, and nothing else.
pub record IsTable (rooms : List (Option Room)) (g : List Pointer) (counter : ℕ) : Type 0 where
  pub size : length g ≡ max_rooms
  pub room : (a : ℕ) (r : Room) → object rooms (addr a) ≡ some r → IsRoom r counter
  pub registered :
      (a : ℕ) (r : Room) → object rooms (addr a) ≡ some r → get_elem? g r.id ≡ some (addr a)
  pub listed :
      (i : ℕ) (p : Pointer)
      → get_elem? g i ≡ some p
      → (p ≡ null)
        ⊎ ((a : ℕ) × (r : Room) × (p ≡ addr a) × (object rooms (addr a) ≡ some r) × (r.id ≡ i))

pub record Inv (w : World) : Type 0 where
  pub pool : IsPool w.pool w.clients
  pub uids : IsUids w.clients w.counter_client
  pub table : IsTable w.rooms w.g_rooms w.counter_room
