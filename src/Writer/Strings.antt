-- ===== src/Writer/Strings.antt =====
-- `lso_writer_write_string`: a length that counts a terminator, the characters, the terminator.
use lso_server.Base.{
  ℕ, ◌+◌, ◌<◌, ◌≡◌, refl, List, [], ◌∷◌, ◌++◌, some, pos, ◌+ℤ◌, pos-+ℤ, ok, Returns, Returns-bind,
  arith, length, append_assoc, length-append, append-nil, max_ℤ, signed, int8-signed, subst,
}
use lso_server.Memory.{Block, load}
use lso_server.Memory.Laws.{init, load-append}
use lso_server.Utils.RoundTrip.{int32_bytes}
use lso_server.Writer.{Writer, write_chars, lso_writer_write_string}
use lso_server.Writer.Holds.{Wrote, lso_writer_write_int8-Wrote, lso_writer_write_int32-Wrote}

-- The values of a byte of memory.
abbrev pub IsBytes : List ℕ → Type 0
IsBytes [] = Unit
IsBytes (b ∷ bs) = (b < 256) × IsBytes bs

-- What stands on the wire for the string `cs`.
abbrev pub string_bytes : List ℕ → List ℕ
string_bytes cs = int32_bytes (pos (length cs + 1)) ++ (cs ++ 0 ∷ [])

-- Bytes that the writer takes one after another from `str`.
write_chars-Wrote :
    (w : Writer) (bs : List ℕ) (m : Block) (cs : List ℕ) (rest : Block) (i : ℕ)
    → Wrote w bs
    → i ≡ length m
    → IsBytes cs
    → Returns (λ w'. Wrote w' (bs ++ cs)) (write_chars w (m ++ (init cs ++ rest)) (length cs) i)
unfolding write_chars
write_chars-Wrote w bs m [] rest i wrote at bytes = (w, refl, rw append-nil wrote)
write_chars-Wrote w bs m (c ∷ cs) rest i wrote at bytes =
    rw (load-append m (some c ∷ (init cs ++ rest)) {i = i} 0 (omega arith), load_first)
      (Returns-bind _ (lso_writer_write_int8-Wrote w bs wrote (signed 8 c)) λ w' wrote'.
        simp (append_assoc) at (
          write_chars-Wrote w' (bs ++ c ∷ []) (m ++ some c ∷ []) cs rest (i + 1)
            (rw (int8-signed c bytes.0) at wrote') (omega (arith, length-append m (some c ∷ [])))
            bytes.1))
  where
    load_first : load (some c ∷ (init cs ++ rest)) 0 ≡ ok c
    load_first = unfold load in refl

-- Counting again changes nothing.
recount-Wrote :
    (w : Writer) (bs : List ℕ)
    → Wrote w bs
    → Wrote
        (record w { buffer = record w.buffer { count = max_ℤ w.buffer.count (pos w.position) } })
        bs
recount-Wrote w bs wrote = record {
  spare = wrote.spare;
  holds = record {
    rest = wrote.holds.rest;
    cells = wrote.holds.cells;
    capacity = wrote.holds.capacity;
    allocated = wrote.holds.allocated;
    count = rw (wrote.holds.count, wrote.position) (ground arith);
  };
  position = wrote.position;
  offset = wrote.offset;
}

-- Writing a string returns, and appends its length with the terminator, its characters and the
-- terminator to what was written before.
pub lso_writer_write_string-Wrote :
    (w : Writer) (bs cs : List ℕ) (rest : Block)
    → Wrote w bs
    → IsBytes cs
    → Returns
        (λ w'. Wrote w' (bs ++ string_bytes cs))
        (lso_writer_write_string w (init cs ++ rest) (pos (length cs)))
unfolding lso_writer_write_string
lso_writer_write_string-Wrote w bs cs rest wrote bytes =
    Returns-bind _ (lso_writer_write_int32-Wrote w bs wrote (pos (length cs) +ℤ pos 1)) λ w1 wrote1.
      Returns-bind _ (write_chars-Wrote w1 _ [] cs rest 0 wrote1 (omega arith) bytes) λ w2 wrote2.
        Returns-bind _ (lso_writer_write_int8-Wrote w2 _ wrote2 (pos 0))
          λ w3 wrote3. (_, refl, subst (Wrote _) regroup (recount-Wrote w3 _ wrote3))
  where
    length_bytes : List ℕ
    length_bytes = int32_bytes (pos (length cs) +ℤ pos 1)

    regroup : bs ++ length_bytes ++ cs ++ 0 ∷ [] ≡ bs ++ string_bytes cs
    regroup = simp (append_assoc, pos-+ℤ)
