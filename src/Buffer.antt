-- ===== src/Buffer.antt =====
-- server/buffer.h and server/buffer.c: a growable block of bytes.
pub mod Holds
pub mod Prints
use lso_server.Base.{
  List, [], ◌∷◌, ◌++◌, signed, ℕ, zero, suc, ◌+◌, ℤ, pos, pos_part, Result, ok, ◌>>=◌, ltb_ℤ,
  if◌then◌else◌,
}
use lso_server.Memory.{Block, malloc_bytes, load, store, memcpy}
use lso_server.Text.{decimal_int}

-- `capacity` and `count` may be negative in C; `offset` is 0 or grows by 2.
pub record ByteBuffer : Type 0 where
  pub buffer : Block
  pub capacity : ℤ
  pub count : ℤ
  pub offset : ℕ

-- The loop of `byte_buffer_create`, with `left` rounds to go.
unfoldable pub zero_fill : (left i : ℕ) → Block → Result Block
zero_fill zero i m = ok m
zero_fill (suc left) i m = do m' ← store m i 0; zero_fill left (i + 1) m'

unfoldable pub byte_buffer_create : ℤ → Result ByteBuffer
byte_buffer_create min_capacity = do
  m ←
      zero_fill (pos_part min_capacity) 0
        (malloc_bytes (if ltb_ℤ min_capacity (pos 1) then 1 else pos_part min_capacity))
  ok (record { buffer = m; capacity = min_capacity; count = pos 0; offset = 0 })

unfoldable pub byte_buffer_create_from_bytes : ℤ → Block → Result ByteBuffer
byte_buffer_create_from_bytes size bytes = do
  bf ← byte_buffer_create size
  m ← memcpy bf.buffer bytes size
  ok (record bf { buffer = m; count = size })

unfoldable pub byte_buffer_clone : ByteBuffer → Result ByteBuffer
byte_buffer_clone bf = do
  b ← byte_buffer_create_from_bytes bf.capacity bf.buffer
  ok (record b { offset = bf.offset; count = bf.count })

-- The new block is not zeroed. A negative `space` never gets here with a larger capacity that
-- `memcpy` accepts.
unfoldable pub byte_buffer_ensure_size : ByteBuffer → ℤ → Result ByteBuffer
byte_buffer_ensure_size bf space =
    if ltb_ℤ bf.capacity space
    then (do
      m ← memcpy (malloc_bytes (pos_part space)) bf.buffer bf.capacity
      ok (record bf { buffer = m; capacity = space }))
    else ok bf

-- The loop of `byte_buffer_print_debug`, with `left` rounds to go, and the end of the line.
unfoldable pub print_bytes : (left i : ℕ) → Block → Result (List ℕ)
print_bytes zero i m = ok (b'\n' ∷ [])
print_bytes (suc left) i m = do
  b ← load m i
  printed ← print_bytes left (i + 1) m
  ok (decimal_int (signed 8 b) ++ b',' ∷ printed)

-- What is printed: the bytes are of the type `int8_t`.
unfoldable pub byte_buffer_print_debug : ByteBuffer → Result (List ℕ)
byte_buffer_print_debug bf = print_bytes (pos_part bf.count) 0 bf.buffer
