-- ===== src/Invariant/Quiet.antt =====
-- The operations that only read the shared state.
use lso_server.Base.{
  ℕ, ◌+◌, ◌-◌, Bool, true, false, List, [], ◌∷◌, Option, none, some, ℤ, pos, negsuc, not, ◌||◌,
  ◌==◌, eqb_ℤ, get_elem?,
}
use lso_server.Writer.{Writer}
use lso_server.World.{Pointer, Pool, CString, is_null, is_no_string}
use lso_server.World.Laws.{
  Quiet, Quiet-bind, Quiet-if, Quiet-pure, Quiet-undefined, Quiet-gets, Quiet-lift,
  get_client-Quiet, get_room-Quiet, quiet,
}
use lso_server.Client.{client_serialize}
use lso_server.ClientPool.{find_uid, scan_pool, client_pool_get, unsigned}
use lso_server.Room.{
  room_find_client_index, room_get, found_room, room_is_full, already_in, serialize_members,
  room_serialize,
}
use lso_server.Messages.{
  serialize_rooms, create_request_rooms_accepted_message, room_message, client_message,
  create_send_message_message,
}

pub client_serialize-Quiet : (p : Pointer) (writer : Writer) → Quiet (client_serialize p writer)
unfolding client_serialize
client_serialize-Quiet p writer = search quiet depth 12

find_uid-Quiet : (client : Pointer) (ps : List Pointer) (i : ℕ) → Quiet (find_uid client ps i)
unfolding find_uid
find_uid-Quiet client [] i = Quiet-pure
find_uid-Quiet client (p ∷ ps) i =
    let rest = find_uid-Quiet client ps (i + 1) in
    Quiet-if (is_null p) rest (
      Quiet-bind (get_client-Quiet p) λ temp.
        Quiet-bind (get_client-Quiet client) λ c. Quiet-if (temp.uid == c.uid) Quiet-pure rest)

room_find_client_index-Quiet : (room client : Pointer) → Quiet (room_find_client_index room client)
unfolding room_find_client_index
room_find_client_index-Quiet room client =
    Quiet-bind (get_room-Quiet room) λ r. find_uid-Quiet client r.clients 0

scan_pool-Quiet : (id : ℤ) (ps : List Pointer) (n : ℕ) → Quiet (scan_pool id ps n)
unfolding scan_pool
scan_pool-Quiet id [] n = Quiet-if (n == 0) Quiet-pure Quiet-undefined
scan_pool-Quiet id (p ∷ ps) n =
    let rest = scan_pool-Quiet id ps (n - 1) in
    Quiet-if (n == 0) Quiet-pure (
      Quiet-if (is_null p) rest (
        Quiet-bind (get_client-Quiet p) λ temp.
          Quiet-if (is_no_string temp.user.name || not (eqb_ℤ temp.user.id id)) rest Quiet-pure))

pub client_pool_get-Quiet : (id : ℤ) → Quiet (client_pool_get id)
unfolding client_pool_get
client_pool_get-Quiet id =
    Quiet-bind {A = Pool} Quiet-gets λ pool. scan_pool-Quiet id pool.clients (unsigned pool.size)

pub room_get-Quiet : (id : ℤ) → Quiet (room_get id)
unfolding room_get
room_get-Quiet (pos n) = Quiet-bind Quiet-gets λ g. found (get_elem? g n)
  where
    found : (o : Option Pointer) → Quiet (found_room o)
    found none = Quiet-undefined
    found (some p) = Quiet-pure
room_get-Quiet (negsuc n) = Quiet-undefined

pub room_is_full-Quiet : (room : Pointer) → Quiet (room_is_full room)
unfolding room_is_full
room_is_full-Quiet room =
    Quiet-if (is_null room) Quiet-pure (Quiet-bind (get_room-Quiet room) λ r. Quiet-pure)

pub already_in-Quiet : (b : Bool) (client room : Pointer) → Quiet (already_in b client room)
unfolding already_in
already_in-Quiet false client room = Quiet-pure
already_in-Quiet true client room =
    Quiet-bind (get_client-Quiet client) λ c.
      Quiet-bind (get_room-Quiet c.room) λ mine. Quiet-bind (get_room-Quiet room) λ r. Quiet-pure

serialize_members-Quiet :
    (ps : List Pointer) (writer : Writer) → Quiet (serialize_members ps writer)
unfolding serialize_members
serialize_members-Quiet [] writer = Quiet-pure
serialize_members-Quiet (p ∷ ps) writer =
    Quiet-if (is_null p) (serialize_members-Quiet ps writer)
      (Quiet-bind (client_serialize-Quiet p writer) λ writer. serialize_members-Quiet ps writer)

room_serialize-Quiet : (writer : Writer) (room : Pointer) → Quiet (room_serialize writer room)
unfolding room_serialize
room_serialize-Quiet writer room =
    search (quiet, client_serialize-Quiet, serialize_members-Quiet) depth 20

serialize_rooms-Quiet : (ps : List Pointer) (writer : Writer) → Quiet (serialize_rooms ps writer)
unfolding serialize_rooms
serialize_rooms-Quiet [] writer = Quiet-pure
serialize_rooms-Quiet (p ∷ ps) writer =
    Quiet-if (is_null p) (serialize_rooms-Quiet ps writer)
      (Quiet-bind (room_serialize-Quiet writer p) λ writer. serialize_rooms-Quiet ps writer)

pub create_request_rooms_accepted_message-Quiet : Quiet create_request_rooms_accepted_message
unfolding create_request_rooms_accepted_message
create_request_rooms_accepted_message-Quiet = Quiet-bind (Quiet-lift _) λ writer.
    Quiet-bind Quiet-gets λ g. Quiet-bind (serialize_rooms-Quiet g writer) λ writer. Quiet-lift _

pub room_message-Quiet : (tag : ℤ) (room : Pointer) → Quiet (room_message tag room)
unfolding room_message
room_message-Quiet tag room =
    Quiet-bind (Quiet-lift _)
      λ writer. Quiet-bind (room_serialize-Quiet writer room) λ writer. Quiet-lift _

pub client_message-Quiet : (tag : ℤ) (client : Pointer) → Quiet (client_message tag client)
unfolding client_message
client_message-Quiet tag client =
    Quiet-bind (Quiet-lift _)
      λ writer. Quiet-bind (client_serialize-Quiet client writer) λ writer. Quiet-lift _

pub create_send_message_message-Quiet :
    (sender : Pointer) (text : CString) (length : ℤ)
    → Quiet (create_send_message_message sender text length)
unfolding create_send_message_message
create_send_message_message-Quiet sender text length =
    search (quiet, client_serialize-Quiet) depth 20
