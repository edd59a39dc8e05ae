-- ===== src/Handlers/Orphans.antt =====
-- Rooms whose owner has gone: `handle_create_room_tag` of server/client.c lets a client own several
-- rooms, and its thread closes only the last when it ends.
use lso_server.Base.{
  sym, ℕ, ◌≡◌, ◌≢◌, ap, subst, ◌∙◌, inl, inr, List, [], ◌∷◌, ◌++◌, some, none, true, false, pos, ok,
  fault, eqb_ℤ, get_elem?,
}
use lso_server.Memory.{Block}
use lso_server.Memory.Laws.{init, NonZero, strlen-init}
use lso_server.Writer.{Writer}
use lso_server.Writer.Holds.{Wrote, lso_writer_initialize-Wrote, lso_writer_write_int32-Wrote}
use lso_server.Writer.Strings.{IsBytes, lso_writer_write_string-Wrote}
use lso_server.World.{User, Pointer, addr, Client, Room, World, object, is_null}
use lso_server.World.Heap.{object-put_self, object-put_ne}
use lso_server.World.Laws.{Ends, get_client-live, get_client-dead, get_room-live, free_client-live}
use lso_server.Client.{client_serialize}
use lso_server.ClientPool.Lookup.{Slots}
use lso_server.Room.{max_clients_per_room, room_serialize}
use lso_server.Server.{disconnect}
use lso_server.Server.Farewell.{Printable, print_left-Printable}
use lso_server.Invariant.{Inv}
use lso_server.Invariant.Keeps.{Kept, Kept-self}
use lso_server.Invariant.Handlers.{handle_leave_room_tag-Stable}
use lso_server.Invariant.Removal.{departed, removed, client_pool_remove-removed}
use lso_server.Messages.{serialize_rooms, create_request_rooms_accepted_message}
use lso_server.Messages.Listing.{AreListed, room_serialize-Appends}
use lso_server.Handlers.{handle_request_rooms_tag}
use lso_server.Handlers.Released.{released-live}
use lso_server.Handlers.Unmoved.{released-Before}
use lso_server.Handlers.Closing.{closed, handle_leave_room_tag-closes}

some_eq : {c d : Client} → some c ≡ some d → c ≡ d
some_eq e = cc

-- In a state that satisfies the invariant, a client that owns the room it is in, and another one
-- besides, and whose name is null or ends with a zero, disconnects: it is freed, but the other
-- room is still there, with an owner that leads to no object.
pub disconnect-orphans :
    (w : World) (a b j k : ℕ) (c o : Client) (r s : Room)
    → Inv w
    → object w.clients (addr a) ≡ some c
    → get_elem? w.pool.clients j ≡ some (addr a)
    → c.room ≡ addr b
    → object w.rooms (addr b) ≡ some r
    → Slots w r.clients
    → object w.clients r.owner ≡ some o
    → eqb_ℤ o.user.id c.user.id ≡ true
    → object w.rooms (addr k) ≡ some s
    → s.owner ≡ addr a
    → b ≢ k
    → Printable c.user.name
    → (w' : World) × (disconnect (addr a) w ≡ ok (tt, w'))
      × (object w'.rooms (addr k) ≡ some s)
      × (object w'.clients s.owner ≡ none)
unfolding disconnect
disconnect-orphans w a b j k c o r s v live at inside there slots owner same other mine ne
      printable =
    let w1 = closed w a b r in
    let (closes, alone) =
      handle_leave_room_tag-closes w a b c o r v live inside there slots owner same in
    let kept : Kept w w1 =
      subst (Ends (λ _. Kept w)) closes
        ((handle_leave_room_tag-Stable (addr a)).runs w w (Kept-self w v)) in
    let (d, left) = released-live w.clients (r.clients ++ addr a ∷ []) a c live in
    let (x, before, user, _) = released-Before w.clients (r.clients ++ addr a ∷ []) a d left in
    let named : d.user ≡ c.user =
      user ∙ ap (λ (y : Client). y.user) (some_eq (sym before ∙ live)) in
    (
      departed w1 a j,
      rw (
        get_client-live (addr a) w c live,
        inside,
        closes,
        get_client-live (addr a) w1 d left,
        print_left-Printable d.user.name w1
            (subst (λ (u : User). Printable u.name) (sym named) printable),
        client_pool_remove-removed w1 a j kept.inv at,
        free_client-live (addr a) (removed w1 j) d left,
      ),
      object-put_ne w.rooms b k none ne ∙ other,
      ap (object (departed w1 a j).clients) mine ∙ object-put_self w1.clients a d none left,
    )

-- The bytes of a room whose owner has gone cannot be written.
room_serialize-orphan :
    (w : World) (p : Pointer) (s : Room) (name : List ℕ) (rest : Block) (writer : Writer)
    (bs : List ℕ)
    → object w.rooms p ≡ some s
    → s.name ≡ init name ++ some 0 ∷ rest
    → NonZero name
    → IsBytes name
    → object w.clients s.owner ≡ none
    → Wrote writer bs
    → room_serialize writer p w ≡ fault
unfolding room_serialize client_serialize
room_serialize-orphan w p s name rest writer bs there named text bytes gone h =
    let (w1, e1, h1) = lso_writer_write_int32-Wrote writer bs h (pos s.id) in
    let (w2, e2, h2) = lso_writer_write_int32-Wrote w1 _ h1 s.clients_count in
    let (w3, e3, h3) = lso_writer_write_int32-Wrote w2 _ h2 (pos max_clients_per_room) in
    let (w4, e4, h4) = lso_writer_write_string-Wrote w3 _ name (some 0 ∷ rest) h3 bytes in
    rw (
      get_room-live p w s there,
      e1,
      e2,
      e3,
      named,
      strlen-init name rest text,
      e4,
      get_client-dead s.owner w gone,
    )

module _ (w : World) (p : Pointer) (s : Room) (name : List ℕ) (rest : Block) (later : List Pointer)
    (used : is_null p ≡ false) (there : object w.rooms p ≡ some s)
    (named : s.name ≡ init name ++ some 0 ∷ rest) (text : NonZero name) (bytes : IsBytes name)
    (gone : object w.clients s.owner ≡ none) where
  serialize_rooms-orphan :
      (before : List Pointer) (us bs : List ℕ) (writer : Writer)
      → AreListed w before us
      → Wrote writer bs
      → serialize_rooms (before ++ p ∷ later) writer w ≡ fault
  unfolding serialize_rooms
  serialize_rooms-orphan [] us bs writer listed h =
      rw (used, room_serialize-orphan w p s name rest writer bs there named text bytes gone h)
  serialize_rooms-orphan (q ∷ qs) us bs writer (inl (empty, listed)) h =
      rw (ap is_null empty) (serialize_rooms-orphan qs us bs writer listed h)
  serialize_rooms-orphan (q ∷ qs) us bs writer (inr (vs, vs', full, first, listed, split)) h =
      let ((w1, _), e1, (same, h1)) = room_serialize-Appends w q vs writer bs first h in
      rw (full, e1, same) (serialize_rooms-orphan qs vs' (bs ++ vs) w1 listed h1)

  -- If the rooms that stand in the table before a room whose owner has gone can be listed, a
  -- request of any client for the list makes the server read the owner that was freed.
  pub handle_request_rooms_tag-orphan :
      (client : Pointer) (before : List Pointer) (us : List ℕ)
      → w.g_rooms ≡ before ++ p ∷ later
      → AreListed w before us
      → handle_request_rooms_tag client w ≡ fault
  unfolding handle_request_rooms_tag create_request_rooms_accepted_message
  handle_request_rooms_tag-orphan client before us table listed =
      let (w0, e0, h0) = lso_writer_initialize-Wrote 1 in
      let fails : serialize_rooms w.g_rooms w0 w ≡ fault =
        ap (λ (ps : List Pointer). serialize_rooms ps w0 w) table
        ∙ serialize_rooms-orphan before us [] w0 listed h0 in
      rw (e0, fails)
