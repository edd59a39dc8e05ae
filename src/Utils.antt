-- ===== src/Utils.antt =====
-- server/utils.h and server/utils.c: big-endian integers at an index of a buffer.
pub mod Decode
pub mod RoundTrip
pub mod ReadBack
pub mod Decode64
use lso_server.Base.{ℕ, ◌+◌, ◌*◌, ◌%◌, ◌^◌, bit_or, ℤ, Result, ok, ◌>>=◌, shr, int8, signed, sext}
use lso_server.Memory.{load, store}
use lso_server.Buffer.{ByteBuffer}

-- `x << k` on patterns of `w` bits.
abbrev pub shl : ℕ → ℕ → ℕ → ℕ
shl w x k = x * 2 ^ k % 2 ^ w

-- `buffer->buffer[i] = b` and `buffer->buffer[i]`.
unfoldable pub put : ByteBuffer → ℕ → ℕ → Result ByteBuffer
put bf i b = do m ← store bf.buffer i b; ok (record bf { buffer = m })

unfoldable pub get : ByteBuffer → ℕ → Result ℕ
get bf i = load bf.buffer i

unfoldable pub write_int64 : ByteBuffer → ℕ → ℤ → Result ByteBuffer
write_int64 bf start value = do
  bf ← put bf (start + 0) (int8 (shr value 56))
  bf ← put bf (start + 1) (int8 (shr value 48))
  bf ← put bf (start + 2) (int8 (shr value 40))
  bf ← put bf (start + 3) (int8 (shr value 32))
  bf ← put bf (start + 4) (int8 (shr value 24))
  bf ← put bf (start + 5) (int8 (shr value 16))
  bf ← put bf (start + 6) (int8 (shr value 8))
  put bf (start + 7) (int8 value)

unfoldable pub write_int32 : ByteBuffer → ℕ → ℤ → Result ByteBuffer
write_int32 bf start value = do
  bf ← put bf start (int8 (shr value 24))
  bf ← put bf (start + 1) (int8 (shr value 16))
  bf ← put bf (start + 2) (int8 (shr value 8))
  put bf (start + 3) (int8 value)

unfoldable pub write_int16 : ByteBuffer → ℕ → ℤ → Result ByteBuffer
write_int16 bf start value = do
  bf ← put bf start (int8 (shr value 8))
  put bf (start + 1) (int8 value)

unfoldable pub write_int8 : ByteBuffer → ℕ → ℤ → Result ByteBuffer
write_int8 bf start value = put bf start (int8 value)

-- Each byte is an `int8_t`, so its conversion to the wider type extends its sign.
unfoldable pub read_int64 : ByteBuffer → ℕ → Result ℤ
read_int64 bf start = do
  b0 ← get bf (start + 0)
  b1 ← get bf (start + 1)
  b2 ← get bf (start + 2)
  b3 ← get bf (start + 3)
  b4 ← get bf (start + 4)
  b5 ← get bf (start + 5)
  b6 ← get bf (start + 6)
  b7 ← get bf (start + 7)
  let v1 = shl 64 (sext 64 b0) 56
  let v2 = shl 64 (sext 64 b1) 48
  let v3 = shl 64 (sext 64 b2) 40
  let v4 = shl 64 (sext 64 b3) 32
  let v5 = shl 64 (sext 64 b4) 24
  let v6 = shl 64 (sext 64 b5) 16
  let v7 = shl 64 (sext 64 b6) 8
  let v8 = sext 64 b7
  let high = bit_or (bit_or (bit_or v1 v2) v3) v4
  ok (signed 64 (bit_or (bit_or (bit_or (bit_or high v5) v6) v7) v8))

unfoldable pub read_int32 : ByteBuffer → ℕ → Result ℤ
read_int32 bf start = do
  b0 ← get bf start
  b1 ← get bf (start + 1)
  b2 ← get bf (start + 2)
  b3 ← get bf (start + 3)
  let high = bit_or (shl 32 (sext 32 b0) 24) (shl 32 (sext 32 b1) 16)
  ok (signed 32 (bit_or (bit_or high (shl 32 (sext 32 b2) 8)) (sext 32 b3)))

-- The operands are promoted to `int`, and the result is cut back to 16 bits.
unfoldable pub read_int16 : ByteBuffer → ℕ → Result ℤ
read_int16 bf start = do
  b0 ← get bf start
  b1 ← get bf (start + 1)
  ok (signed 16 (bit_or (shl 32 (sext 32 b0) 8) (sext 32 b1) % 2 ^ 16))

unfoldable pub read_int8 : ByteBuffer → ℕ → Result ℤ
read_int8 bf start = do b ← get bf start; ok (signed 8 b)
