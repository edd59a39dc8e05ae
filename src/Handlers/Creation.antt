-- ===== src/Handlers/Creation.antt =====
-- How a client makes a room of its own (server/client.c, `handle_create_room_tag`).
use lso_server.Base.{
  ℕ, zero, suc, ◌<◌, ◌≡◌, refl, ap, sym, ◌∙◌, inl, inr, List, [], ◌∷◌, ◌++◌, some, ok, ◌+ℤ◌, pos,
  length, set, signed, replicate, append-nil, append_assoc, map-append,
}
use lso_server.Memory.{Block}
use lso_server.Memory.Laws.{init, NonZero}
use lso_server.Utils.Decode.{pattern32}
use lso_server.Utils.RoundTrip.{int32_bytes}
use lso_server.Tags.{room_create_accepted_tag}
use lso_server.Reader.{Reader}
use lso_server.Reader.Remains.{Remains, lso_reader_read_string-Remains}
use lso_server.Writer.Strings.{IsBytes, string_bytes}
use lso_server.Message.Wire.{wire}
use lso_server.World.{
  Pointer, null, wild, addr, string, Client, Room, World, object, put_object, ◌>>◌, pure,
}
use lso_server.World.Heap.{object-put_self, object-malloc_self}
use lso_server.World.Laws.{get_room-live, set_room-live}
use lso_server.Client.{transmit}
use lso_server.ClientPool.Lookup.{Slots}
use lso_server.Room.{max_clients_per_room, max_room_name, room_add_client}
use lso_server.Room.Joining.{room_add_client-joins}
use lso_server.Room.Creation.{room_name, put-malloc, with_room, room_create-made}
use lso_server.Invariant.Registry.{made}
use lso_server.Invariant.Steps.{nowhere}
use lso_server.Messages.{create_room_create_accepted_message}
use lso_server.Messages.Listing.{IsUser, AreUsers, IsListed, room_message-Carries}
use lso_server.Handlers.{handle_create_room_tag, set_owner}
use lso_server.Handlers.Replies.{reply_lem}

-- The room that the client at `addr a` makes: it owns it, and has its last slot.
abbrev pub own_room : World → List ℕ → ℕ → Room
own_room w ds a = record {
  clients = set (replicate max_clients_per_room null) 29 (addr a);
  id = w.counter_room;
  clients_count = pos 1;
  name = room_name ds;
  owner = addr a;
}

-- The state with that room, and the client `c` in it.
abbrev pub with_own_room : World → List ℕ → ℕ → Client → World
with_own_room w ds a c =
    let w' = with_room w (own_room w ds a) in
    record w' {
      clients = put_object w.clients (addr a) (some (record c { room = addr (length w.rooms) }));
    }

-- The room as it is written: the client is its owner and its only member.
abbrev pub own_room_bytes : World → List ℕ → Client → List ℕ → List ℕ
own_room_bytes w ds c cs =
    let user = int32_bytes c.user.id ++ string_bytes cs in
    int32_bytes (pos w.counter_room)
    ++ (int32_bytes (pos 1)
        ++ (int32_bytes (pos max_clients_per_room) ++ (string_bytes ds ++ (user ++ user))))

nulls-Slots : (w : World) (n : ℕ) → Slots w (replicate n null)
nulls-Slots w n i q e = inl (nowhere i n q e)

nulls-AreUsers :
    (w : World) (n : ℕ) (ps : List Pointer) (bs : List ℕ)
    → AreUsers w ps bs
    → AreUsers w (replicate n null ++ ps) bs
nulls-AreUsers w zero ps bs h = h
nulls-AreUsers w (suc n) ps bs h = inl (refl, nulls-AreUsers w n ps bs h)

module _ (w : World) (a : ℕ) (c : Client) (cs : List ℕ) (after : Block) (ds : List ℕ)
    (live : object w.clients (addr a) ≡ some c)
    (named : c.user.name ≡ string (init cs ++ some 0 ∷ after)) (text : NonZero cs)
    (bytes : IsBytes cs) (title : NonZero ds) (title_bytes : IsBytes ds)
    (short : length ds < max_room_name) (place : w.counter_room < length w.g_rooms) where
  own-IsUser : IsUser (with_own_room w ds a c) (addr a) (int32_bytes c.user.id ++ string_bytes cs)
  own-IsUser = record {
    client = record c { room = addr (length w.rooms) };
    name = cs;
    rest = after;
    live = object-put_self w.clients a c (some (record c { room = addr (length w.rooms) })) live;
    named = named;
    text = text;
    bytes = bytes;
    written = refl;
  }

  own-AreUsers :
      AreUsers
        (with_own_room w ds a c)
        (own_room w ds a).clients
        (int32_bytes c.user.id ++ string_bytes cs)
  own-AreUsers =
      nulls-AreUsers (with_own_room w ds a c) 29 (addr a ∷ []) _
        (inr (_, [], refl, own-IsUser, refl, sym (append-nil _)))

  own-IsListed :
      IsListed (with_own_room w ds a c) (addr (length w.rooms)) (own_room_bytes w ds c cs)
  own-IsListed = record {
    room = own_room w ds a;
    name = ds;
    rest = _;
    owner = _;
    members = _;
    live = object-malloc_self w.rooms (own_room w ds a);
    named = refl;
    text = title;
    bytes = title_bytes;
    owned = own-IsUser;
    users = own-AreUsers;
    written = refl;
  }

  abbrev joined_room : Room
  joined_room = record (own_room w ds a) { owner = wild }

  abbrev with_member : World
  with_member = record (with_own_room w ds a c) { rooms = w.rooms ++ some joined_room ∷ [] }

  -- The new room gets its first member, and then its owner.
  joins :
      room_add_client (addr (length w.rooms)) (addr a) (with_room w (made w (room_name ds)))
      ≡ ok (tt, with_member)
  unfolding ◌+ℤ◌
  joins =
      let w' = with_room w (made w (room_name ds)) in
      let room = made w (room_name ds) in
      rw (
        room_add_client-joins w' (addr a) c live (addr (length w.rooms)) room
            (object-malloc_self w.rooms room) (nulls-Slots w' max_clients_per_room) 29 refl refl,
        put-malloc w.rooms (some room) (some joined_room),
      )

  owns : set_owner (addr (length w.rooms)) (addr a) with_member ≡ ok (tt, with_own_room w ds a c)
  unfolding set_owner
  owns =
      let there = object-malloc_self w.rooms joined_room in
      rw (
        get_room-live (addr (length w.rooms)) with_member joined_room there,
        set_room-live (addr (length w.rooms)) with_member joined_room (own_room w ds a) there,
        put-malloc w.rooms (some joined_room) (some (own_room w ds a)),
      )

  -- A signed-in client that sends the name of a room, of at most 31 characters up to its first
  -- zero, while the table has a place for the next id, gets a room of that name and id: it is the
  -- owner and the only member, in the last slot, the table has the room at its id, and the client
  -- is told of the room as the list of rooms shows it.
  pub handle_create_room_tag-creates :
      (reader : Reader) (b0 b1 b2 b3 : ℕ) (es bs : List ℕ)
      → Remains reader (b0 ∷ b1 ∷ b2 ∷ b3 ∷ ((ds ++ 0 ∷ es) ++ bs))
      → signed 32 (pattern32 b0 b1 b2 b3) ≡ pos (length (ds ++ 0 ∷ es))
      → IsBytes (ds ++ 0 ∷ es)
      → IsBytes bs
      → handle_create_room_tag (addr a) reader w
        ≡ (transmit (record {
          sockfd = c.sockfd;
          bytes = wire room_create_accepted_tag (own_room_bytes w ds c cs);
        })
              >> pure tt)
            (with_own_room w ds a c)
  unfolding handle_create_room_tag create_room_create_accepted_message
  handle_create_room_tag-creates reader b0 b1 b2 b3 es bs rem len chars others =
      let w' = with_own_room w ds a c in
      rw
        (
          (lso_reader_read_string-Remains reader b0 b1 b2 b3 (ds ++ 0 ∷ es) bs rem len chars
              others).0,
          name,
          room_create-made w ds (init es ++ some 0 ∷ []) title short place,
          joins,
          owns,
        )
        (reply_lem w' (addr a) (record c { room = addr (length w.rooms) }) room_create_accepted_tag
          _ _
          (object-put_self w.clients a c (some (record c { room = addr (length w.rooms) })) live)
          (room_message-Carries w' room_create_accepted_tag _ _ own-IsListed))
    where
      name : init (ds ++ 0 ∷ es) ++ some 0 ∷ [] ≡ init ds ++ some 0 ∷ (init es ++ some 0 ∷ [])
      name =
          ap (λ (m : Block). m ++ some 0 ∷ []) (map-append some ds (0 ∷ es))
          ∙ append_assoc (init ds) (some 0 ∷ init es) (some 0 ∷ [])
