-- ===== src/Handlers/Admission.antt =====
-- How a client gets into a room (server/client.c, server/room.c): it asks, the owner accepts, and
-- all members are told.
use lso_server.Base.{
  ℕ, ◌<◌, ◌≤◌, ◌≡◌, refl, ap, ◌∙◌, List, [], ◌∷◌, ◌++◌, some, none, pos, ok, false, signed, eqb_ℤ,
  get_elem?, set, length, ◌^◌, ◌+ℤ◌,
}
use lso_server.Memory.{Block}
use lso_server.Memory.Laws.{init, NonZero}
use lso_server.Utils.Decode.{pattern32}
use lso_server.Utils.RoundTrip.{int32_bytes}
use lso_server.Tags.{join_room_requested_tag, join_room_notify_accepted_tag}
use lso_server.Reader.{Reader}
use lso_server.Reader.Remains.{Remains, lso_reader_read_int32-Remains}
use lso_server.Writer.Strings.{IsBytes, string_bytes}
use lso_server.Message.Wire.{wire}
use lso_server.World.{
  Pointer, null, addr, Client, Room, Packet, World, object, put_object, string, ◌>>◌,
}
use lso_server.World.Heap.{object-put_self}
use lso_server.World.Laws.{get_client-live}
use lso_server.Client.Posted.{posted, transmit-posted}
use lso_server.ClientPool.{client_pool_get}
use lso_server.ClientPool.Lookup.{Slots, IsFirst, client_pool_get_lem}
use lso_server.Room.{room_get, max_clients_per_room}
use lso_server.Room.Joining.{last_empty, has_user, room_add_client-joins, last_empty-slot}
use lso_server.Messages.{create_join_room_notify_accepted_message}
use lso_server.Invariant.Carried.{Slots-joined}
use lso_server.Handlers.{handle_join_room_requested_tag, handle_join_room_accepted_tag}
use lso_server.Handlers.Replies.{client_message-Carries, handle_join_room_requested_tag-asks}
use lso_server.Handlers.Relay.{packets, room_send_message-packets}

-- The state after the client `c` at `p` got the slot `i` of the room `r` at `room`.
abbrev pub joined : World → Pointer → Room → ℕ → Pointer → Client → World
joined w room r i p c = record w {
  rooms =
      put_object w.rooms room
        (some (record r { clients = set r.clients i p; clients_count = r.clients_count +ℤ pos 1 }));
  clients = put_object w.clients p (some (record c { room = room }));
}

-- `c` is at `addr a`, in no room, and its user has the name `cs`; `r` is at `addr b`, registered
-- at `n`, and has the empty slot `i` and no member with that user.
pub record IsWaiting (w : World) (a : ℕ) (c : Client) (cs : List ℕ) (rest : Block) (b n : ℕ)
    (r : Room) (i : ℕ) : Type 0 where
  pub live : object w.clients (addr a) ≡ some c
  pub alone : c.room ≡ null
  pub named : c.user.name ≡ string (init cs ++ some 0 ∷ rest)
  pub text : NonZero cs
  pub bytes : IsBytes cs
  pub registered : get_elem? w.g_rooms n ≡ some (addr b)
  pub room : object w.rooms (addr b) ≡ some r
  pub slots : Slots w r.clients
  pub slot : last_empty r.clients 0 none ≡ some i
  pub new : has_user w c r.clients false ≡ false

-- What the owner `o` gets.
abbrev pub request : Client → Client → List ℕ → Packet
request o c cs = record {
  sockfd = o.sockfd;
  bytes = wire join_room_requested_tag (int32_bytes c.user.id ++ string_bytes cs);
}

-- What the members are told.
abbrev pub notice : Client → List ℕ → List ℕ
notice c cs = wire join_room_notify_accepted_tag (int32_bytes c.user.id ++ string_bytes cs)

-- The state after that, with the members told.
abbrev pub admitted_to : World → ℕ → Client → List ℕ → ℕ → Room → ℕ → World
admitted_to w a c cs b r i =
    let w' = joined w (addr b) r i (addr a) c in
    record w' {
      sent = posted w.outside w.sent (packets w'.clients (set r.clients i (addr a)) (notice c cs));
    }

module _ (w : World) (a : ℕ) (c : Client) (cs : List ℕ) (rest : Block) (b n : ℕ) (r : Room) (i : ℕ)
    (v : IsWaiting w a c cs rest b n r i) where
  -- The owner's answer: its first number is the id of the client, its second that of the room.
  pub handle_join_room_accepted_tag-admits :
      (owner : Pointer) (reader : Reader) (b0 b1 b2 b3 d0 d1 d2 d3 : ℕ) (bs : List ℕ)
      → Remains reader (b0 ∷ b1 ∷ b2 ∷ b3 ∷ d0 ∷ d1 ∷ d2 ∷ d3 ∷ bs)
      → signed 32 (pattern32 d0 d1 d2 d3) ≡ pos n
      → client_pool_get (signed 32 (pattern32 b0 b1 b2 b3)) w ≡ ok (addr a, w)
      → handle_join_room_accepted_tag owner reader w ≡ ok (tt, admitted_to w a c cs b r i)
  unfolding handle_join_room_accepted_tag room_get create_join_room_notify_accepted_message
  handle_join_room_accepted_tag-admits owner reader b0 b1 b2 b3 d0 d1 d2 d3 bs rem id found =
      let (first, rem') = lso_reader_read_int32-Remains reader b0 b1 b2 b3 _ rem in
      let w' = joined w (addr b) r i (addr a) c in
      let c' = record c { room = addr b } in
      let r' = record r {
        clients = set r.clients i (addr a);
        clients_count = r.clients_count +ℤ pos 1;
      } in
      let there = object-put_self w.clients a c (some c') v.live in
      let ((m, _), e, (same, carries)) =
        client_message-Carries w' join_room_notify_accepted_tag (addr a) c' cs rest there v.named
          v.text v.bytes in
      rw
        (
          first,
          (lso_reader_read_int32-Remains _ d0 d1 d2 d3 bs rem').0,
          found,
          get_client-live (addr a) w c v.live,
          v.alone,
          id,
          v.registered,
          room_add_client-joins w (addr a) c v.live (addr b) r v.room v.slots i v.slot v.new,
          e,
          same,
        )
        (room_send_message-packets w' b r' m join_room_notify_accepted_tag _
          (object-put_self w.rooms b r (some r') v.room)
          (Slots-joined w a c c' v.live refl r.clients i (last_empty-slot r.clients i v.slot)
            v.slots)
          carries)

module _ (w : World) (a : ℕ) (c : Client) (cs : List ℕ) (rest : Block) (b n : ℕ) (r : Room) (i : ℕ)
    (v : IsWaiting w a c cs rest b n r i) where
  -- A client in no room asks for a room that is not full, and the owner of the room accepts it by
  -- the id that it was asked with: if the pool search finds the client by that id and no member
  -- has the same user, the owner is sent the id and the name of the client, the client gets the
  -- last empty slot of the room, and then each member, the new one included, is sent its id and
  -- name; what goes out are those packets whose send succeeds.
  pub ask_then_accept_admits :
      (o : Client) (ask answer : Reader) (e0 e1 e2 e3 b0 b1 b2 b3 d0 d1 d2 d3 : ℕ) (bs bs' : List ℕ)
      (k : ℕ)
      → Remains ask (e0 ∷ e1 ∷ e2 ∷ e3 ∷ bs)
      → signed 32 (pattern32 e0 e1 e2 e3) ≡ pos n
      → eqb_ℤ r.clients_count (pos max_clients_per_room) ≡ false
      → object w.clients r.owner ≡ some o
      → Remains answer (b0 ∷ b1 ∷ b2 ∷ b3 ∷ d0 ∷ d1 ∷ d2 ∷ d3 ∷ bs')
      → signed 32 (pattern32 b0 b1 b2 b3) ≡ c.user.id
      → signed 32 (pattern32 d0 d1 d2 d3) ≡ pos n
      → Slots w w.pool.clients
      → w.pool.size ≡ pos k
      → k ≤ length w.pool.clients
      → k < 2 ^ 32
      → IsFirst w c.user.id w.pool.clients k (addr a)
      → (handle_join_room_requested_tag (addr a) ask
            >> handle_join_room_accepted_tag r.owner answer)
          w
        ≡ ok (
          tt,
          admitted_to
              (record w { sent = posted w.outside w.sent (request o c cs ∷ []) })
              a
              c
              cs
              b
              r
              i,
        )
  ask_then_accept_admits o ask answer e0 e1 e2 e3 b0 b1 b2 b3 d0 d1 d2 d3 bs bs' k rem id free owner
        rem' same id' slots size few small first =
      let w' = record w { sent = posted w.outside w.sent (request o c cs ∷ []) } in
      rw
        (
          handle_join_room_requested_tag-asks w (addr a) c ask e0 e1 e2 e3 bs rem n id v.live b r o
              cs rest v.registered v.room free owner v.named v.text v.bytes,
          transmit-posted w (request o c cs),
        )
        (handle_join_room_accepted_tag-admits w' a c cs rest b n r i
          (record {
            live = v.live;
            alone = v.alone;
            named = v.named;
            text = v.text;
            bytes = v.bytes;
            registered = v.registered;
            room = v.room;
            slots = v.slots;
            slot = v.slot;
            new = v.new;
          })
          r.owner answer b0 b1 b2 b3 d0 d1 d2 d3 bs' rem' id'
          (ap (λ z. client_pool_get z w') same
            ∙ client_pool_get_lem w' c.user.id k (addr a) slots size few small first))
