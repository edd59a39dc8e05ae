-- ===== src/Handlers/Closing.antt =====
-- How the owner of a room closes it (server/client.c, `handle_leave_room_tag`).
use lso_server.Base.{
  ℕ, suc, ◌≡◌, refl, ◌⊎◌, inl, inr, List, [], ◌∷◌, ◌++◌, some, none, ok, true, eqb_ℤ, get_elem?,
  set, ltb, length, get_elem?-lt, arith, ℤ,
}
use lso_server.Tags.{room_closed_tag}
use lso_server.Message.{Message}
use lso_server.Message.Wire.{Carries, wire, message_create_empty-Carries}
use lso_server.World.{Pointer, null, wild, addr, Client, Room, World, object, put_object}
use lso_server.World.Heap.{object-put_self}
use lso_server.World.Laws.{get_client-live, set_client-live, get_room-live, free_room-live}
use lso_server.ClientPool.Lookup.{Slots}
use lso_server.Room.{room_delete, set_g_room}
use lso_server.Invariant.{Inv}
use lso_server.Invariant.Carried.{Slots-put}
use lso_server.Handlers.{handle_leave_room_tag, close_room, kick_all}
use lso_server.Handlers.Released.{
  released, packets-put, released-append, released-live, released-IsAlone,
}
use lso_server.Client.Posted.{posted, client_send-posted}
use lso_server.Handlers.Relay.{packets}

-- Each member leaves the room and is told so.
abbrev Kicks : World → List Pointer → Message → List ℕ → Type 0
Kicks w ps m bytes =
    kick_all ps m w
    ≡ ok (
      tt,
      record w {
        clients = released w.clients ps;
        sent = posted w.outside w.sent (packets w.clients ps bytes);
      },
    )

kick_next :
    (w : World) (a : ℕ) (ps : List Pointer) (m : Message) (tag : ℤ) (bs : List ℕ)
    → Carries m tag bs
    → (addr a ≡ null) ⊎ ((c : Client) × (object w.clients (addr a) ≡ some c))
    → ((w' : World) → Slots w' ps → Kicks w' ps m (wire tag bs))
    → Slots w ps
    → Kicks w (addr a ∷ ps) m (wire tag bs)
unfolding kick_all
kick_next w a ps m tag bs carries (inl e) rest slots = cc
kick_next w a ps m tag bs carries (inr (c, e)) rest slots =
    let c' : Client = record c { room = null } in
    let w' : World = record w { clients = put_object w.clients (addr a) (some c') } in
    let w'' : World = record w' {
      sent = posted w.outside w.sent (record { sockfd = c.sockfd; bytes = wire tag bs } ∷ []);
    } in
    let there = object-put_self w.clients a c (some c') e in
    rw
      (
        get_client-live (addr a) w c e,
        set_client-live (addr a) w c c' e,
        client_send-posted w' (addr a) c' m tag bs there carries,
        rest w'' (Slots-put w a c c' e refl ps slots),
        e,
        packets-put w.clients a c c' ps (wire tag bs) e refl,
      )
      refl

kick_all-Kicks :
    (w : World) (ps : List Pointer) (m : Message) (tag : ℤ) (bs : List ℕ)
    → Slots w ps
    → Carries m tag bs
    → Kicks w ps m (wire tag bs)
unfolding kick_all
kick_all-Kicks w [] m tag bs slots carries = refl
kick_all-Kicks w (null ∷ ps) m tag bs slots carries =
    kick_all-Kicks w ps m tag bs (λ i. slots (suc i)) carries
kick_all-Kicks w (wild ∷ ps) m tag bs slots carries = absurd (nothing (slots 0 wild refl))
  where
    nothing : (wild ≡ null) ⊎ ((c : Client) × (object w.clients wild ≡ some c)) → ⊥
    nothing (inl e) = cc
    nothing (inr (c, e)) = cc
kick_all-Kicks w (addr a ∷ ps) m tag bs slots carries =
    kick_next w a ps m tag bs carries (slots 0 (addr a) refl)
      (λ w' slots'. kick_all-Kicks w' ps m tag bs slots' carries) (λ i. slots (suc i))

-- The state after the client at `addr a` closed the room `r` at `addr b`.
abbrev pub closed : World → ℕ → ℕ → Room → World
closed w a b r = record w {
  clients = released w.clients (r.clients ++ addr a ∷ []);
  rooms = put_object w.rooms (addr b) none;
  g_rooms = set w.g_rooms r.id null;
  sent = posted w.outside w.sent (packets w.clients r.clients (wire room_closed_tag []));
}

-- In a state that satisfies the invariant, whether or not the sends succeed, a client in a room
-- whose slots lead to clients and whose owner has the same user closes it: each member is sent a
-- message, in the order of the slots, all members and the client are in no room afterwards, the
-- table has no room at that id, and the room is freed.
pub handle_leave_room_tag-closes :
    (w : World) (a b : ℕ) (c o : Client) (r : Room)
    → Inv w
    → object w.clients (addr a) ≡ some c
    → c.room ≡ addr b
    → object w.rooms (addr b) ≡ some r
    → Slots w r.clients
    → object w.clients r.owner ≡ some o
    → eqb_ℤ o.user.id c.user.id ≡ true
    → (handle_leave_room_tag (addr a) w ≡ ok (tt, closed w a b r))
      × ((i k : ℕ) (d : Client)
          → get_elem? (r.clients ++ addr a ∷ []) i ≡ some (addr k)
          → object (closed w a b r).clients (addr k) ≡ some d
          → d.room ≡ null)
unfolding handle_leave_room_tag close_room room_delete set_g_room
handle_leave_room_tag-closes w a b c o r v live inside there slots owner same =
    let (m, e, carries) = message_create_empty-Carries room_closed_tag in
    let kicks = kick_all-Kicks w r.clients m room_closed_tag [] slots carries in
    let (d, left) = released-live w.clients r.clients a c live in
    let w' : World = record w {
      clients = released w.clients r.clients;
      sent = posted w.outside w.sent (packets w.clients r.clients (wire room_closed_tag []));
    } in
    let d' : Client = record d { room = null } in
    let w'' : World = record w' { clients = put_object w'.clients (addr a) (some d') } in
    let w''' : World = record w'' { g_rooms = set w.g_rooms r.id null } in
    (
      rw (
        get_client-live (addr a) w c live,
        inside,
        get_room-live (addr b) w r there,
        get_client-live r.owner w o owner,
        same,
        e,
        get_room-live (addr b) w r there,
        kicks,
        get_client-live (addr a) w' d left,
        set_client-live (addr a) w' d d' left,
        get_room-live (addr b) w'' r there,
        inside_table,
        free_room-live (addr b) w''' r there,
        released-append w.clients r.clients (addr a),
        left,
      ),
      λ i k d at. released-IsAlone w.clients (r.clients ++ addr a ∷ []) i k at d,
    )
  where
    inside_table : ltb r.id (length w.g_rooms) ≡ true
    inside_table =
        ground (arith, get_elem?-lt w.g_rooms r.id (addr b) (v.table.registered b r there))
