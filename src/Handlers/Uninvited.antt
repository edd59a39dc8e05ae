-- ===== src/Handlers/Uninvited.antt =====
-- `handle_join_room_accepted_tag` of server/client.c does not look at who sends it.
use lso_server.Base.{
  ℕ, ◌≤◌, ◌<◌, ◌^◌, ◌≡◌, refl, ap, ◌∙◌, List, ◌∷◌, some, pos, ok, signed, length, get_elem?,
  get_elem?-lt, get_elem?-set_self, set, ◌+ℤ◌,
}
use lso_server.Memory.{Block}
use lso_server.Utils.Decode.{pattern32}
use lso_server.Reader.{Reader}
use lso_server.Reader.Remains.{Remains}
use lso_server.World.{null, addr, Client, Room, World, object}
use lso_server.World.Heap.{object-put_self}
use lso_server.ClientPool.{client_pool_get}
use lso_server.ClientPool.Lookup.{Slots, IsFirst, client_pool_get_lem}
use lso_server.Room.Joining.{last_empty-slot}
use lso_server.Handlers.{handle_join_room_accepted_tag}
use lso_server.Handlers.Admission.{IsWaiting, admitted_to, handle_join_room_accepted_tag-admits}

-- A client that waits for a room sends the acceptance itself, with its own user id and the number
-- of the room, and gets in, although no owner was asked: it is in the room and has the slot, if
-- the pool search finds it.
pub handle_join_room_accepted_tag-uninvited :
    (w : World) (a : ℕ) (c : Client) (cs : List ℕ) (rest : Block) (b n : ℕ) (r : Room) (i : ℕ)
    (reader : Reader) (b0 b1 b2 b3 d0 d1 d2 d3 : ℕ) (bs : List ℕ) (k : ℕ)
    → IsWaiting w a c cs rest b n r i
    → Remains reader (b0 ∷ b1 ∷ b2 ∷ b3 ∷ d0 ∷ d1 ∷ d2 ∷ d3 ∷ bs)
    → signed 32 (pattern32 b0 b1 b2 b3) ≡ c.user.id
    → signed 32 (pattern32 d0 d1 d2 d3) ≡ pos n
    → Slots w w.pool.clients
    → w.pool.size ≡ pos k
    → k ≤ length w.pool.clients
    → k < 2 ^ 32
    → IsFirst w c.user.id w.pool.clients k (addr a)
    → (w' : World) × (s : Room) × (d : Client) × (handle_join_room_accepted_tag (addr a) reader w
        ≡ ok (tt, w'))
      × (object w'.clients (addr a) ≡ some d)
      × (d.room ≡ addr b)
      × (object w'.rooms (addr b) ≡ some s)
      × (get_elem? s.clients i ≡ some (addr a))
handle_join_room_accepted_tag-uninvited w a c cs rest b n r i reader b0 b1 b2 b3 d0 d1 d2 d3 bs k v
      rem same id slots size few small first =
    let c' : Client = record c { room = addr b } in
    let r' : Room = record r {
      clients = set r.clients i (addr a);
      clients_count = r.clients_count +ℤ pos 1;
    } in
    let found =
      ap (λ z. client_pool_get z w) same
      ∙ client_pool_get_lem w c.user.id k (addr a) slots size few small first in
    (
      admitted_to w a c cs b r i,
      r',
      c',
      handle_join_room_accepted_tag-admits w a c cs rest b n r i v (addr a) reader b0 b1 b2 b3 d0 d1
          d2 d3 bs rem id found,
      object-put_self w.clients a c (some c') v.live,
      refl,
      object-put_self w.rooms b r (some r') v.room,
      get_elem?-set_self r.clients i (addr a)
          (get_elem?-lt r.clients i null (last_empty-slot r.clients i v.slot)),
    )
