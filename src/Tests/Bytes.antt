-- ===== src/Tests/Bytes.antt =====
-- Integers, strings, buffers and messages at concrete bytes.
use lso_server.Base.{
  ℕ, zero, suc, ◌<◌, Result, get_elem?, ◌≡◌, refl, List, [], ◌∷◌, pos, ok, fault, Returns, ◌>>=◌,
  ◌↔◌, arith, replicate,
}
use lso_server.Memory.Laws.{init}
use lso_server.Buffer.{ByteBuffer, byte_buffer_create_from_bytes}
use lso_server.Buffer.Holds.{exactly}
use lso_server.Utils.{write_int32, read_int16, read_int32}
use lso_server.Utils.ReadBack.{ReadsBack32, read_int32-write_int32_iff}
use lso_server.Writer.Strings.{IsBytes}
use lso_server.Reader.{lso_reader_read_string}
use lso_server.Reader.Remains.{Remains}
use lso_server.Reader.Faults.{lso_reader_read_string_sign_byte, lso_reader_read_string_overrun}
use lso_server.Message.{message_create_from_byte_buffer, message_to_buffer}
use lso_server.Message.Received.{Delivers, message_roundtrip}
use lso_server.Utils.{get, read_int64}
use lso_server.Utils.Decode64.{HasBytes, read_int, read_ints-read_int}
use lso_server.Memory.{load, read_cell}
use lso_server.Tests.Data.{is_bytes-IsBytes, reading, reading-Remains, carrying, carrying-Carries}

abbrev blank_bytes : ByteBuffer
blank_bytes = exactly (replicate 8 0)

-- 200 does not come back.
read_int32-write_int32_iff_example :
    ((write_int32 blank_bytes 2 (pos 200) >>= λ b. read_int32 b 2) ≡ ok (pos 200))
    ↔ ReadsBack32 (pos 200)
read_int32-write_int32_iff_example =
    read_int32-write_int32_iff blank_bytes 2 (pos 200) (omega arith, omega arith) (omega arith)

abbrev greeting : List ℕ
greeting = 0 ∷ 0 ∷ 0 ∷ 2 ∷ 104 ∷ 105 ∷ 7 ∷ []

-- A length of 128 is read as -128.
lso_reader_read_string_sign_byte_example :
    lso_reader_read_string (reading (0 ∷ 0 ∷ 0 ∷ 128 ∷ [])) ≡ fault
lso_reader_read_string_sign_byte_example =
    lso_reader_read_string_sign_byte (reading (0 ∷ 0 ∷ 0 ∷ 128 ∷ [])) 0 0 0 128 []
      (reading-Remains (0 ∷ 0 ∷ 0 ∷ 128 ∷ []) refl) (omega arith)

-- A length of 3 before two characters.
abbrev cut_off : Remains (reading (0 ∷ 0 ∷ 0 ∷ 3 ∷ 104 ∷ 105 ∷ [])) (0 ∷ 0 ∷ 0 ∷ 3 ∷ 104 ∷ 105 ∷ [])
cut_off = record {
  front = [];
  rest = [];
  cells = refl;
  at = refl;
  count = refl;
  bytes = is_bytes-IsBytes (0 ∷ 0 ∷ 0 ∷ 3 ∷ 104 ∷ 105 ∷ []) refl;
}

lso_reader_read_string_overrun_example :
    lso_reader_read_string (reading (0 ∷ 0 ∷ 0 ∷ 3 ∷ 104 ∷ 105 ∷ [])) ≡ fault
lso_reader_read_string_overrun_example =
    lso_reader_read_string_overrun (reading (0 ∷ 0 ∷ 0 ∷ 3 ∷ 104 ∷ 105 ∷ [])) 0 0 0 3
      (104 ∷ 105 ∷ []) cut_off 3 refl (omega arith)

message_roundtrip_example :
    Returns
      (λ m. Delivers m (pos 12) (9 ∷ 8 ∷ []))
      (message_to_buffer (carrying (pos 12) (9 ∷ 8 ∷ [])) >>= λ bf.
        byte_buffer_create_from_bytes bf.count bf.buffer >>= message_create_from_byte_buffer)
message_roundtrip_example =
    message_roundtrip (carrying (pos 12) (9 ∷ 8 ∷ [])) 12 (9 ∷ 8 ∷ [])
      (carrying-Carries (pos 12) (9 ∷ 8 ∷ [])) (omega arith) (is_bytes-IsBytes (9 ∷ 8 ∷ []) refl)

init-bytes :
    (bs : List ℕ) (i b : ℕ) → IsBytes bs → read_cell (get_elem? (init bs) i) ≡ ok b → b < 256
init-bytes [] i b h e = cc
init-bytes (x ∷ bs) zero b h e = omega (arith, h.0, same e)
  where
    same : Path (Result ℕ) (ok x) (ok b) → b ≡ x
    same e = cc
init-bytes (x ∷ bs) (suc i) b h e = init-bytes bs i b h.1 e

blank_bytes-HasBytes : HasBytes blank_bytes
unfolding get load
blank_bytes-HasBytes i b e =
    init-bytes (replicate 8 0) i b (is_bytes-IsBytes (replicate 8 0) refl) e

read_ints-read_int_example :
    (read_int16 blank_bytes 0 ≡ read_int 2 blank_bytes 0)
    × (read_int32 blank_bytes 0 ≡ read_int 4 blank_bytes 0)
    × (read_int64 blank_bytes 0 ≡ read_int 8 blank_bytes 0)
read_ints-read_int_example = read_ints-read_int blank_bytes blank_bytes-HasBytes 0
