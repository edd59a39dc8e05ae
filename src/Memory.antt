-- ===== src/Memory.antt =====
-- Blocks of bytes as `malloc` returns them, and the loads, stores and `memcpy` of the C code.
-- `malloc` does not fail and reuses no address.
pub mod Laws
use lso_server.Base.{
  ℕ, zero, suc, ◌+◌, ◌&&◌, Bool, List, [], ◌∷◌, ◌++◌, Option, none, some, ℤ, pos, negsuc, Result,
  ok, fault, ◌>>=◌, ltb, leb, if◌then◌else◌, length, get_elem?, set, take, drop, replicate,
}

-- `none` is a byte that was never written.
abbrev pub Cell : Type 0
Cell = Option ℕ

abbrev pub Block : Type 0
Block = List Cell

unfoldable pub malloc_bytes : ℕ → Block
malloc_bytes n = replicate n none

abbrev pub read_cell : Option Cell → Result ℕ
read_cell none = fault
read_cell (some none) = fault
read_cell (some (some b)) = ok b

-- `p[i]`: a fault outside of the block, and at a byte that was never written.
unfoldable pub load : Block → ℕ → Result ℕ
load m i = read_cell (get_elem? m i)

-- `p[i] = b`: a fault outside of the block.
unfoldable pub store : Block → ℕ → ℕ → Result Block
store m i b = if ltb i (length m) then ok (set m i (some b)) else fault

-- `memcpy(dst, src, n)`. A negative `n` becomes a `size_t` that no block holds.
unfoldable pub memcpy : Block → Block → ℤ → Result Block
memcpy dst src (pos n) =
    if leb n (length dst) && leb n (length src) then ok (take n src ++ drop n dst) else fault
memcpy dst src (negsuc n) = fault

-- `strlen(p)`: the bytes before the first zero; a fault if the block ends before one.
unfoldable pub strlen : Block → Result ℕ
strlen [] = fault
strlen (none ∷ m) = fault
strlen (some zero ∷ m) = ok 0
strlen (some (suc b) ∷ m) = do n ← strlen m; ok (suc n)

-- `n` bytes from index `i` on.
unfoldable pub read_bytes : Block → (n i : ℕ) → Result (List ℕ)
read_bytes m zero i = ok []
read_bytes m (suc n) i = do b ← load m i; bs ← read_bytes m n (i + 1); ok (b ∷ bs)

-- The bytes that `send` takes; a negative count is a size that no block has.
unfoldable pub send_bytes : Block → ℤ → Result (List ℕ)
send_bytes m (pos n) = read_bytes m n 0
send_bytes m (negsuc n) = fault

-- The characters of a C string.
unfoldable pub c_text : Block → Result (List ℕ)
c_text [] = fault
c_text (none ∷ m) = fault
c_text (some zero ∷ m) = ok []
c_text (some (suc b) ∷ m) = do cs ← c_text m; ok (suc b ∷ cs)
