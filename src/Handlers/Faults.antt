-- ===== src/Handlers/Faults.antt =====
-- Messages on which a handler of server/client.c runs into undefined behaviour.
use lso_server.Base.{
  ℕ, ◌+◌, ◌<◌, ◌≤◌, ◌≡◌, List, ◌∷◌, ◌++◌, some, pos, fault, false, arith, length, signed,
  get_elem?-past, leb,
}
use lso_server.Memory.{Block, memcpy, malloc_bytes}
use lso_server.Memory.Laws.{init, NonZero, strlen-init, length-malloc}
use lso_server.Buffer.{byte_buffer_create, byte_buffer_ensure_size, zero_fill}
use lso_server.Utils.Decode.{pattern32}
use lso_server.Reader.{Reader}
use lso_server.Reader.Remains.{Remains, lso_reader_read_int32-Remains}
use lso_server.Reader.Faults.{lso_reader_read_string-short}
use lso_server.Writer.{lso_writer_initialize, lso_writer_write_int32}
use lso_server.World.{Pointer, addr, string, Client, World, object}
use lso_server.World.Laws.{get_client-live}
use lso_server.Client.{client_serialize}
use lso_server.Room.{room_get, room_create, strcpy, max_room_name}
use lso_server.Messages.{create_send_message_message}
use lso_server.Handlers.{handle_join_room_requested_tag, handle_message_received_tag}

-- A request to join a room whose id is beyond the table of rooms makes the server read beyond the
-- table.
pub handle_join_room_requested_tag-beyond :
    (w : World) (client : Pointer) (reader : Reader) (b0 b1 b2 b3 : ℕ) (bs : List ℕ) (n : ℕ)
    → Remains reader (b0 ∷ b1 ∷ b2 ∷ b3 ∷ bs)
    → signed 32 (pattern32 b0 b1 b2 b3) ≡ pos n
    → length w.g_rooms ≤ n
    → handle_join_room_requested_tag client reader w ≡ fault
unfolding handle_join_room_requested_tag room_get
handle_join_room_requested_tag-beyond w client reader b0 b1 b2 b3 bs n rem id far = rw (
  (lso_reader_read_int32-Remains reader b0 b1 b2 b3 bs rem).0,
  id,
  get_elem?-past w.g_rooms n far,
)

-- A room name of 32 characters or more overflows the name of the new room.
pub room_create-long :
    (w : World) (cs : List ℕ) (rest : Block)
    → NonZero cs
    → 32 ≤ length cs
    → room_create (string (init cs ++ some 0 ∷ rest)) w ≡ fault
unfolding room_create strcpy memcpy
room_create-long w cs rest text long = rw (strlen-init cs rest text, too_long)
  where
    too_long : leb (length cs + 1) (length (malloc_bytes max_room_name)) ≡ false
    too_long = ground (arith, length-malloc max_room_name)

-- A client in a room that sends a message of less than four bytes makes memcpy copy a negative
-- number of bytes.
pub handle_message_received_tag-short :
    (w : World) (client : Pointer) (c : Client) (a : ℕ) (reader : Reader) (bs : List ℕ)
    → object w.clients client ≡ some c
    → c.room ≡ addr a
    → Remains reader bs
    → length bs < 4
    → handle_message_received_tag client reader w ≡ fault
unfolding handle_message_received_tag create_send_message_message client_serialize
    lso_writer_initialize byte_buffer_create zero_fill lso_writer_write_int32
    byte_buffer_ensure_size memcpy
handle_message_received_tag-short w client c a reader bs live inside rem short = rw (
  get_client-live client w c live,
  inside,
  lso_reader_read_string-short reader bs rem short,
  get_client-live client w c live,
)
