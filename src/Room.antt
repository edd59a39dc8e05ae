-- ===== src/Room.antt =====
-- server/room.h and server/room.c: rooms, their members and the table of all rooms. Threads are
-- interleaved between whole operations, so the mutexes are left out.
pub mod Joining
pub mod Creation
pub mod Leaving
pub mod RoundTrip
pub mod Collision
use lso_server.Base.{
  ℕ, zero, suc, ◌+◌, Bool, true, false, ◌&&◌, List, [], ◌∷◌, ◌++◌, Option, none, some, ℤ, pos,
  negsuc, ◌+ℤ◌, ◌-ℤ◌, eqb_ℤ, ◌==◌, ltb, Result, ok, fault, if◌then◌else◌, get_elem?, set, replicate,
  length,
}
use lso_server.Base
use lso_server.Memory.{Block, malloc_bytes, memcpy, strlen}
use lso_server.Writer.{Writer, lso_writer_write_int32, lso_writer_write_string}
use lso_server.Message.{Message}
use lso_server.World.{
  Pointer, null, wild, addr, CString, Cmd, pure, undefined, ◌>>=◌, ◌>>◌, lift, gets, modify,
  get_client, set_client, get_room, set_room, free_room, malloc_room, is_null, deref,
}
use lso_server.ClientPool.{find_uid}
use lso_server.Client.{client_send, client_serialize}

abbrev pub max_rooms : ℕ
max_rooms = 1000

abbrev pub max_clients_per_room : ℕ
max_clients_per_room = 30

abbrev pub max_room_name : ℕ
max_room_name = 32

-- `p == q`, on pointers.
abbrev pub same_pointer : Pointer → Pointer → Bool
same_pointer null null = true
same_pointer (addr a) (addr b) = a == b
same_pointer _ _ = false

unfoldable pub room_find_client_index : Pointer → Pointer → Cmd (Option ℕ)
room_find_client_index room client = do r ← get_room room; find_uid client r.clients 0

-- `strcpy(dst, src)`.
unfoldable pub strcpy : Block → Block → Result Block
strcpy dst src = Base.◌>>=◌ (strlen src) (λ n. memcpy dst src (pos (n + 1)))

-- `gRooms[i] = p`.
unfoldable pub set_g_room : ℕ → Pointer → Cmd (Unit {0})
set_g_room i p = do
  g ← gets (λ w. w.g_rooms)
  if ltb i (length g) then modify (λ w. record w { g_rooms = set w.g_rooms i p }) else undefined

-- `owner` is not assigned.
unfoldable pub room_create : CString → Cmd Pointer
room_create name = do
  id ← gets (λ w. w.counter_room)
  modify (λ w. record w { counter_room = w.counter_room + 1 })
  src ← lift (deref name)
  copy ← lift (strcpy (malloc_bytes max_room_name) src)
  room ← malloc_room (record {
    clients = replicate max_clients_per_room null;
    id = id;
    clients_count = pos 0;
    name = copy;
    owner = wild;
  })
  set_g_room id room
  pure room

unfoldable pub room_delete : Pointer → Cmd (Unit {0})
room_delete room =
    if is_null room then pure tt else (do r ← get_room room; set_g_room r.id null; free_room room)

abbrev pub found_room : Option Pointer → Cmd Pointer
found_room none = undefined
found_room (some p) = pure p

-- `gRooms[id]`, with no check of `id`.
unfoldable pub room_get : ℤ → Cmd Pointer
room_get (pos n) = do g ← gets (λ w. w.g_rooms); found_room (get_elem? g n)
room_get (negsuc n) = undefined

-- The loop of `room_send_message` over the slots.
unfoldable pub send_all : List Pointer → Message → Cmd (Unit {0})
send_all [] m = pure tt
send_all (p ∷ ps) m =
    let rest = send_all ps m in if is_null p then rest else (do _ ← client_send p m; rest)

unfoldable pub room_send_message : Pointer → Message → Cmd (Unit {0})
room_send_message room m = do r ← get_room room; send_all r.clients m

unfoldable pub room_is_full : Pointer → Cmd Bool
room_is_full room =
    if is_null room
    then pure false
    else (do r ← get_room room; pure (eqb_ℤ r.clients_count (pos max_clients_per_room)))

-- The loop of `room_add_client` from index `i` on: the last empty slot, and whether a member has
-- the user id of `client`.
unfoldable pub scan_room : Pointer → List Pointer → ℕ → Option ℕ → Bool → Cmd (Option ℕ × Bool)
scan_room client [] i index present = pure (index, present)
scan_room client (p ∷ ps) i index present =
    let skipped = scan_room client ps (i + 1) (some i) present in
    if is_null p then skipped else (do
      member ← get_client p
      c ← get_client client
      scan_room client ps (i + 1) index (if eqb_ℤ member.user.id c.user.id then true else present))

-- `alreadyPresent && client->room->id == room->id`.
unfoldable pub already_in : Bool → Pointer → Pointer → Cmd Bool
already_in false client room = pure false
already_in true client room = do
  c ← get_client client
  mine ← get_room c.room
  r ← get_room room
  pure (mine.id == r.id)

unfoldable pub place_client : Pointer → Pointer → ℕ → Cmd (Unit {0})
place_client room client i = do
  r ← get_room room
  set_room room
      (record r { clients = set r.clients i client; clients_count = r.clients_count +ℤ pos 1 })
  c ← get_client client
  set_client client (record c { room = room })

abbrev pub join_slot : Pointer → Pointer → Option ℕ × Bool → Cmd (Unit {0})
join_slot room client (none, present) = pure tt
join_slot room client (some i, present) = do
  inside ← already_in present client room
  if inside then pure tt else place_client room client i

unfoldable pub room_add_client : Pointer → Pointer → Cmd (Unit {0})
room_add_client room client = do
  r ← get_room room
  slot ← scan_room client r.clients 0 none false
  join_slot room client slot

abbrev pub leave_slot : Pointer → Pointer → Option ℕ → Cmd Bool
leave_slot room client none = do
  c ← get_client client
  (if same_pointer c.room room then set_client client (record c { room = null }) else pure tt)
  pure false
leave_slot room client (some i) = do
  r ← get_room room
  set_room room
      (record r { clients = set r.clients i null; clients_count = r.clients_count -ℤ pos 1 })
  c ← get_client client
  set_client client (record c { room = null })
  pure true

unfoldable pub room_remove_client : Pointer → Pointer → Cmd Bool
room_remove_client room client =
    if is_null room
    then pure false
    else (do index ← room_find_client_index room client; leave_slot room client index)

-- The loop of `room_serialize` over the slots.
unfoldable pub serialize_members : List Pointer → Writer → Cmd Writer
serialize_members [] writer = pure writer
serialize_members (p ∷ ps) writer =
    let skipped = serialize_members ps writer in
    if is_null p
    then skipped
    else (do writer ← client_serialize p writer; serialize_members ps writer)

unfoldable pub room_serialize : Writer → Pointer → Cmd Writer
room_serialize writer room = do
  r ← get_room room
  writer ← lift (lso_writer_write_int32 writer (pos r.id))
  writer ← lift (lso_writer_write_int32 writer r.clients_count)
  writer ← lift (lso_writer_write_int32 writer (pos max_clients_per_room))
  n ← lift (strlen r.name)
  writer ← lift (lso_writer_write_string writer r.name (pos n))
  writer ← client_serialize r.owner writer
  serialize_members r.clients writer
