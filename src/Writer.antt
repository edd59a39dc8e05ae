-- ===== src/Writer.antt =====
-- server/lso_writer.h and server/lso_writer.c: integers and strings appended to a buffer that
-- grows. `lso_writer_destroy` only frees, and blocks are values here.
pub mod Holds
pub mod Strings
use lso_server.Base.{
  ℕ, zero, suc, ◌+◌, Bool, ℤ, pos, ◌+ℤ◌, pos_part, Result, ok, ◌>>=◌, signed, max_ℤ, if◌then◌else◌,
}
use lso_server.Memory.{Block, load}
use lso_server.Buffer.{ByteBuffer, byte_buffer_create, byte_buffer_clone, byte_buffer_ensure_size}
use lso_server.Utils.{write_int8, write_int16, write_int32, write_int64}

-- `position` starts at 0 and only grows.
pub record Writer : Type 0 where
  pub position : ℕ
  pub buffer : ByteBuffer

-- The end of each write: `position` moves behind the `k` bytes, and `count` follows it.
abbrev pub advance : Writer → ByteBuffer → ℕ → Writer
advance w bf k = record {
  position = w.position + k;
  buffer = record bf { count = max_ℤ bf.count (pos (w.position + k)) };
}

unfoldable pub lso_writer_initialize : ℤ → Result Writer
lso_writer_initialize min_length = do
  bf ← byte_buffer_create min_length
  ok (record { position = 0; buffer = bf })

unfoldable pub lso_writer_write_bool : Writer → Bool → Result Writer
lso_writer_write_bool w v = do
  bf ← byte_buffer_ensure_size w.buffer (pos (w.position + 1))
  bf ← write_int8 bf w.position (if v then pos 1 else pos 0)
  ok (advance w bf 1)

unfoldable pub lso_writer_write_int8 : Writer → ℤ → Result Writer
lso_writer_write_int8 w v = do
  bf ← byte_buffer_ensure_size w.buffer (pos (w.position + 1))
  bf ← write_int8 bf w.position v
  ok (advance w bf 1)

unfoldable pub lso_writer_write_int16 : Writer → ℤ → Result Writer
lso_writer_write_int16 w v = do
  bf ← byte_buffer_ensure_size w.buffer (pos (w.position + 2))
  bf ← write_int16 bf w.position v
  ok (advance w bf 2)

unfoldable pub lso_writer_write_int32 : Writer → ℤ → Result Writer
lso_writer_write_int32 w v = do
  bf ← byte_buffer_ensure_size w.buffer (pos (w.position + 4))
  bf ← write_int32 bf w.position v
  ok (advance w bf 4)

unfoldable pub lso_writer_write_int64 : Writer → ℤ → Result Writer
lso_writer_write_int64 w v = do
  bf ← byte_buffer_ensure_size w.buffer (pos (w.position + 8))
  bf ← write_int64 bf w.position v
  ok (advance w bf 8)

-- The loop of `lso_writer_write_string` at index `i`, with `left` rounds to go.
unfoldable pub write_chars : Writer → Block → (left i : ℕ) → Result Writer
write_chars w str zero i = ok w
write_chars w str (suc left) i = do
  c ← load str i
  w' ← lso_writer_write_int8 w (signed 8 c)
  write_chars w' str left (i + 1)

unfoldable pub lso_writer_write_string : Writer → Block → ℤ → Result Writer
lso_writer_write_string w str length = do
  w ← lso_writer_write_int32 w (length +ℤ pos 1)
  w ← write_chars w str (pos_part length) 0
  w ← lso_writer_write_int8 w (pos 0)
  ok (record w { buffer = record w.buffer { count = max_ℤ w.buffer.count (pos w.position) } })

unfoldable pub lso_writer_to_byte_buffer : Writer → Result ByteBuffer
lso_writer_to_byte_buffer w = byte_buffer_clone w.buffer
