-- ===== src/Buffer/Prints.antt =====
-- What `byte_buffer_print_debug` of server/buffer.c prints.
use lso_server.Base.{
  ℕ, ◌+◌, ◌≡◌, refl, sym, List, [], ◌∷◌, ◌++◌, some, ok, arith, length, length-append, append_assoc,
  signed,
}
use lso_server.Memory.{Block, load}
use lso_server.Memory.Laws.{init, load-append}
use lso_server.Text.{decimal_int}
use lso_server.Buffer.{ByteBuffer, print_bytes, byte_buffer_print_debug}
use lso_server.Buffer.Holds.{Holds}

-- Each byte as a signed number with a comma behind it, and the end of the line.
abbrev pub printed : List ℕ → List ℕ
printed [] = b'\n' ∷ []
printed (b ∷ bs) = decimal_int (signed 8 b) ++ b',' ∷ printed bs

print_bytes-printed :
    (m rest : Block) (bs : List ℕ) (i : ℕ)
    → i ≡ length m
    → print_bytes (length bs) i (m ++ (init bs ++ rest)) ≡ ok (printed bs)
unfolding print_bytes load
print_bytes-printed m rest [] i at = refl
print_bytes-printed m rest (b ∷ bs) i at = rw (
  load-append m (some b ∷ init bs ++ rest) {i = i} 0 (omega arith),
  sym (append_assoc m (some b ∷ []) (init bs ++ rest)),
  print_bytes-printed (m ++ some b ∷ []) rest bs (i + 1)
      (omega (arith, length-append m (some b ∷ []))),
)

-- The known bytes of a buffer are printed as signed numbers, with a comma behind each and a newline
-- at the end.
pub byte_buffer_print_debug-printed :
    (bf : ByteBuffer) (bs : List ℕ) (spare : ℕ)
    → Holds bf bs spare
    → byte_buffer_print_debug bf ≡ ok (printed bs)
unfolding byte_buffer_print_debug
byte_buffer_print_debug-printed bf bs spare holds =
    rw (holds.count, holds.cells) (print_bytes-printed [] holds.rest bs 0 refl)
