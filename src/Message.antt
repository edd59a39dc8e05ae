-- ===== src/Message.antt =====
-- server/message.h and server/message.c: a tag and a payload. `message_delete` only frees.
pub mod Wire
pub mod Received
pub mod Strings
use lso_server.Base.{ℕ, zero, suc, ◌+◌, List, ℤ, pos, pos_part, ◌+ℤ◌, ◌-ℤ◌, Result, ok, ◌>>=◌}
use lso_server.Memory.{Block, load, store}
use lso_server.Buffer.{ByteBuffer, byte_buffer_create, byte_buffer_clone}
use lso_server.Utils.{write_int16, read_int16, get, put}
use lso_server.Writer.{Writer, lso_writer_to_byte_buffer}
use lso_server.Reader.{Reader, lso_reader_create}

pub record Message : Type 0 where
  pub tag : ℤ
  pub buffer : ByteBuffer

unfoldable pub message_create_from_writer : ℤ → Writer → Result Message
message_create_from_writer tag w = do
  bf ← lso_writer_to_byte_buffer w
  ok (record { tag = tag; buffer = bf })

-- The tag is read from the argument, the payload starts two bytes further on in the clone.
unfoldable pub message_create_from_byte_buffer : ByteBuffer → Result Message
message_create_from_byte_buffer bf = do
  b ← byte_buffer_clone bf
  tag ← read_int16 bf bf.offset
  ok (record { tag = tag; buffer = record b { offset = bf.offset + 2; count = b.count -ℤ pos 2 } })

unfoldable pub message_create_empty : ℤ → Result Message
message_create_empty tag = do
  bf ← byte_buffer_create (pos 0)
  ok (record { tag = tag; buffer = bf })

unfoldable pub message_to_reader : Message → Reader
unfolding lso_reader_create
message_to_reader m = lso_reader_create m.buffer

-- The loop of `message_to_buffer` at index `i`, with `left` rounds to go. It reads from the start
-- of the payload's block, whatever its offset.
unfoldable pub copy_payload : Block → (left i : ℕ) → ByteBuffer → Result ByteBuffer
copy_payload src zero i bf = ok bf
copy_payload src (suc left) i bf = do
  b ← load src i
  bf' ← put bf (2 + i) b
  copy_payload src left (i + 1) bf'

unfoldable pub message_to_buffer : Message → Result ByteBuffer
message_to_buffer m = do
  bf ← byte_buffer_create (m.buffer.count +ℤ pos 2)
  bf ← write_int16 (record bf { count = m.buffer.count +ℤ pos 2 }) 0 m.tag
  copy_payload m.buffer.buffer (pos_part m.buffer.count) 0 bf
