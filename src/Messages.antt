-- ===== src/Messages.antt =====
-- server/messages.h and server/messages.c: the messages that the server sends.
pub mod Listing
use lso_server.Base.{ℕ, zero, suc, List, [], ◌∷◌, ℤ, pos, negsuc, Result, ok, if◌then◌else◌}
use lso_server.Memory.{Block}
use lso_server.Tags.{
  request_rooms_accepted_tag, join_room_accepted_tag, join_room_notify_accepted_tag,
  join_room_refused_tag, join_room_requested_tag, leave_room_tag, message_received_tag,
  room_create_accepted_tag,
}
use lso_server.Writer.{Writer, lso_writer_initialize, lso_writer_write_string}
use lso_server.Message.{Message, message_create_from_writer, message_create_empty}
use lso_server.World.{Pointer, Cmd, pure, ◌>>=◌, lift, gets, is_null, CString, deref}
use lso_server.Client.{client_serialize}
use lso_server.Room.{room_serialize}

-- The loop of `create_request_rooms_accepted_message` over the table of rooms.
unfoldable pub serialize_rooms : List Pointer → Writer → Cmd Writer
serialize_rooms [] writer = pure writer
serialize_rooms (p ∷ ps) writer =
    let skipped = serialize_rooms ps writer in
    if is_null p then skipped else (do writer ← room_serialize writer p; serialize_rooms ps writer)

unfoldable pub create_request_rooms_accepted_message : Cmd Message
create_request_rooms_accepted_message = do
  writer ← lift (lso_writer_initialize (pos 1))
  g ← gets (λ w. w.g_rooms)
  writer ← serialize_rooms g writer
  lift (message_create_from_writer request_rooms_accepted_tag writer)

-- A message whose payload is one room.
unfoldable pub room_message : ℤ → Pointer → Cmd Message
room_message tag room = do
  writer ← lift (lso_writer_initialize (pos 1))
  writer ← room_serialize writer room
  lift (message_create_from_writer tag writer)

-- A message whose payload is one client.
unfoldable pub client_message : ℤ → Pointer → Cmd Message
client_message tag client = do
  writer ← lift (lso_writer_initialize (pos 1))
  writer ← client_serialize client writer
  lift (message_create_from_writer tag writer)

unfoldable pub create_join_room_accepted_message : Pointer → Cmd Message
unfolding room_message
create_join_room_accepted_message room = room_message join_room_accepted_tag room

unfoldable pub create_join_room_notify_accepted_message : Pointer → Cmd Message
unfolding client_message
create_join_room_notify_accepted_message client =
    client_message join_room_notify_accepted_tag client

unfoldable pub create_join_room_refused_message : Pointer → Cmd Message
create_join_room_refused_message room = lift (message_create_empty join_room_refused_tag)

unfoldable pub create_join_room_requested_message : Pointer → Cmd Message
unfolding client_message
create_join_room_requested_message client = client_message join_room_requested_tag client

unfoldable pub create_leave_room_message : Pointer → Cmd Message
unfolding client_message
create_leave_room_message client = client_message leave_room_tag client

-- The characters of a text of that length: none is read unless there is one.
abbrev pub text_chars : CString → ℤ → Result Block
text_chars text (pos zero) = ok []
text_chars text (pos (suc n)) = deref text
text_chars text (negsuc n) = ok []

unfoldable pub create_send_message_message : Pointer → CString → ℤ → Cmd Message
create_send_message_message sender text length = do
  writer ← lift (lso_writer_initialize length)
  writer ← client_serialize sender writer
  str ← lift (text_chars text length)
  writer ← lift (lso_writer_write_string writer str length)
  lift (message_create_from_writer message_received_tag writer)

unfoldable pub create_room_create_accepted_message : Pointer → Cmd Message
unfolding room_message
create_room_create_accepted_message room = room_message room_create_accepted_tag room
