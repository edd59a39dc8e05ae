-- ===== src/Room/Leaving.antt =====
-- `room_remove_client` of server/room.c on a member of the room.
use lso_server.Base.{
  ℕ, ◌+◌, ◌<◌, ◌≡◌, ◌≢◌, refl, ◌⊎◌, inl, inr, some, ok, true, arith, pos, get_elem?, set, ◌-ℤ◌,
}
use lso_server.World.{Pointer, null, wild, addr, Client, Room, World, object, put_object}
use lso_server.World.Laws.{get_client-live, set_client-live, get_room-live, set_room-live}
use lso_server.ClientPool.Lookup.{Slots}
use lso_server.Room.{room_remove_client, room_find_client_index}
use lso_server.Invariant.{Inv}
use lso_server.Invariant.Uids.{Members, find_uid-slot}

-- The state after the client `c` at `addr a` left the slot `j` of the room `r` at `addr b`.
abbrev pub left : World → ℕ → Room → ℕ → ℕ → Client → World
left w b r j a c = record w {
  rooms = put_object w.rooms (addr b) (
      some (record r { clients = set r.clients j null; clients_count = r.clients_count -ℤ pos 1 }));
  clients = put_object w.clients (addr a) (some (record c { room = null }));
}

Slots-Members : (w : World) (r : Room) → Slots w r.clients → Members w r.clients
Slots-Members w r slots i q e = member q (slots i q e)
  where
    member :
        (q : Pointer)
        → (q ≡ null) ⊎ ((c : Client) × (object w.clients q ≡ some c))
        → (q ≡ null)
          ⊎ ((a : ℕ) × (c : Client) × (q ≡ addr a) × (object w.clients (addr a) ≡ some c))
    member q (inl h) = inl h
    member null (inr (c, h)) = inl refl
    member wild (inr (c, h)) = cc
    member (addr a) (inr (c, h)) = inr (a, c, refl, h)

-- In a state that satisfies the invariant, a member of a room whose slots lead to clients leaves its
-- first slot; the room counts one member less, the client is in no room, and nothing else changes.
pub room_remove_client-leaves :
    (w : World) (b : ℕ) (r : Room) (j a : ℕ) (c : Client)
    → Inv w
    → object w.rooms (addr b) ≡ some r
    → Slots w r.clients
    → object w.clients (addr a) ≡ some c
    → get_elem? r.clients j ≡ some (addr a)
    → ((k : ℕ) → k < j → get_elem? r.clients k ≢ some (addr a))
    → room_remove_client (addr b) (addr a) w ≡ ok (true, left w b r j a c)
unfolding room_remove_client room_find_client_index
room_remove_client-leaves w b r j a c v there slots live at first =
    let r' = record r {
      clients = set r.clients j null;
      clients_count = r.clients_count -ℤ pos 1;
    } in
    let w' = record w { rooms = put_object w.rooms (addr b) (some r') } in
    let found = find_uid-slot w v a c live r.clients 0 j (Slots-Members w r slots) at first in
    let index : 0 + j ≡ j = omega arith in
    rw (
      get_room-live (addr b) w r there,
      found,
      index,
      get_room-live (addr b) w r there,
      set_room-live (addr b) w r r' there,
      get_client-live (addr a) w' c live,
      set_client-live (addr a) w' c (record c { room = null }) live,
    )
