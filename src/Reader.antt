-- ===== src/Reader.antt =====
-- server/lso_reader.h and server/lso_reader.c: integers and strings taken from a buffer, from
-- its offset on. `lso_reader_delete` only frees, and blocks are values here.
pub mod Remains
pub mod Faults
pub mod Spelled
use lso_server.Base.{
  ℕ, zero, suc, ◌+◌, Bool, true, false, not, Option, none, some, ℤ, pos, negsuc, ltb_ℤ, eqb_ℤ, int8,
  Result, ok, fault, ◌>>=◌, if◌then◌else◌,
}
use lso_server.Memory.{Block, malloc_bytes, store}
use lso_server.Buffer.{ByteBuffer}
use lso_server.Utils.{read_int8, read_int16, read_int32}

-- `position` starts at 0 and only grows.
pub record Reader : Type 0 where
  pub position : ℕ
  pub buffer : ByteBuffer

unfoldable pub lso_reader_create : ByteBuffer → Reader
lso_reader_create bf = record { position = 0; buffer = bf }

-- The index of the next byte.
abbrev pub cursor : Reader → ℕ
cursor r = r.buffer.offset + r.position

abbrev pub skip : Reader → ℕ → Reader
skip r n = record r { position = r.position + n }

unfoldable pub lso_reader_read_bool : Reader → Result (Bool × Reader)
lso_reader_read_bool r =
    if not (ltb_ℤ (pos r.position) r.buffer.count)
    then ok (false, r)
    else (do v ← read_int8 r.buffer (cursor r); ok (not (eqb_ℤ v (pos 0)), skip r 1))

unfoldable pub lso_reader_read_int8 : Reader → Result (ℤ × Reader)
lso_reader_read_int8 r =
    if not (ltb_ℤ (pos r.position) r.buffer.count)
    then ok (pos 0, r)
    else (do v ← read_int8 r.buffer (cursor r); ok (v, skip r 1))

unfoldable pub lso_reader_read_int16 : Reader → Result (ℤ × Reader)
lso_reader_read_int16 r =
    if ltb_ℤ r.buffer.count (pos (r.position + 2))
    then ok (pos 0, r)
    else (do v ← read_int16 r.buffer (cursor r); ok (v, skip r 2))

unfoldable pub lso_reader_read_int32 : Reader → Result (ℤ × Reader)
lso_reader_read_int32 r =
    if ltb_ℤ r.buffer.count (pos (r.position + 4))
    then ok (pos 0, r)
    else (do v ← read_int32 r.buffer (cursor r); ok (v, skip r 4))

-- The loop of `lso_reader_read_string` at index `i` of the new block, with `left` rounds to go.
unfoldable pub read_chars : Reader → (left i : ℕ) → Block → Result Block
read_chars r zero i str = ok str
read_chars r (suc left) i str = do
  c ← read_int8 r.buffer (r.buffer.offset + 4 + r.position + i)
  str' ← store str i (int8 c)
  read_chars r left (i + 1) str'

-- The string that is read, if `*string` is assigned at all.
pub record StringRead : Type 0 where
  pub length : ℤ
  pub string : Option Block
  pub reader : Reader

-- With a negative length the loop does nothing, and the terminator is written before the block.
unfoldable pub read_text : Reader → ℤ → Result StringRead
read_text r (pos n) = do
  str ← read_chars r n 0 (malloc_bytes (n + 1))
  str ← store str n 0
  ok (record { length = pos n; string = some str; reader = skip r (4 + n) })
read_text r (negsuc n) = fault

unfoldable pub lso_reader_read_string : Reader → Result StringRead
lso_reader_read_string r =
    if ltb_ℤ r.buffer.count (pos (r.position + 4))
    then ok (record { length = negsuc 0; string = none; reader = r })
    else (do n ← read_int32 r.buffer (cursor r); read_text r n)
