-- ===== src/Reader/Faults.antt =====
-- Where `lso_reader_read_string` trusts the length that stands on the wire.
use lso_server.Base.{
  ℕ, zero, suc, ◌+◌, ◌≤◌, ◌<◌, ◌≡◌, ap, ◌∙◌, inl, inr, List, ◌∷◌, pos, negsuc, ok, fault, arith,
  length, length-append, signed, int8, none, ◌++◌, dec_lt,
}
use lso_server.Memory.{Block, malloc_bytes}
use lso_server.Memory.Laws.{init, length-init, load-cases, store-cases, load-past}
use lso_server.Utils.{get, read_int8}
use lso_server.Utils.Decode.{pattern32, signed-pattern32_sign_byte}
use lso_server.Reader.{Reader, read_chars, read_text, lso_reader_read_string}
use lso_server.Reader.Remains.{Remains, enough, too_few, read_int32-Remains}

-- A round that leaves the rest of the loop in undefined behaviour.
read_chars-past_round :
    (r : Reader) (left i : ℕ) (str : Block)
    → ((str' : Block) → read_chars r left (i + 1) str' ≡ fault)
    → read_chars r (suc left) i str ≡ fault
unfolding read_chars read_int8 get
read_chars-past_round r left i str rest =
    elim (load-cases r.buffer.buffer (r.buffer.offset + 4 + r.position + i)) [
      | inl e ↦ rw e
      | inr (c, e) ↦ elim (store-cases str i (int8 (signed 8 c))) [
        | inl e' ↦ rw (e, e')
        | inr (str', e') ↦ rw (e, e') (rest str')
      ]
    ]

-- A loop that has to leave the block ends in undefined behaviour.
read_chars-past :
    (r : Reader) (left i : ℕ) (str : Block)
    → length r.buffer.buffer < r.buffer.offset + 4 + r.position + i + left
    → r.buffer.offset + 4 + r.position + i ≤ length r.buffer.buffer
    → read_chars r left i str ≡ fault
read_chars-past r zero i str past h = absurd (omega arith)
read_chars-past r (suc left) i str past h =
    elim (dec_lt (r.buffer.offset + 4 + r.position + i) (length r.buffer.buffer)) [
      | yes inside ↦
          read_chars-past_round r left i str
            λ str'. read_chars-past r left (i + 1) str' (omega arith) (omega arith)
      | no outside ↦
          unfold read_chars read_int8 get in
          rw (load-past r.buffer.buffer (r.buffer.offset + 4 + r.position + i) (omega arith))
    ]

module _ (r : Reader) (b0 b1 b2 b3 : ℕ) (bs : List ℕ)
    (rem : Remains r (b0 ∷ b1 ∷ b2 ∷ b3 ∷ bs)) where
  size : length r.buffer.buffer ≡ length rem.front + (4 + length bs + length rem.rest)
  size =
      ap length rem.cells
      ∙ omega (
        arith,
        length-append rem.front (init (b0 ∷ b1 ∷ b2 ∷ b3 ∷ bs) ++ rem.rest),
        length-append (init (b0 ∷ b1 ∷ b2 ∷ b3 ∷ bs)) rem.rest,
        length-init bs,
      )

  -- A string whose length has a last byte with its sign bit set makes lso_reader_read_string write
  -- before the new block.
  pub lso_reader_read_string_sign_byte : 128 ≤ b3 → lso_reader_read_string r ≡ fault
  unfolding lso_reader_read_string read_text
  lso_reader_read_string_sign_byte h = rw (
    enough r (b0 ∷ b1 ∷ b2 ∷ b3 ∷ bs) 4 rem (omega arith),
    read_int32-Remains r b0 b1 b2 b3 bs rem,
    signed-pattern32_sign_byte b0 b1 b2 b3 rem.bytes.0 rem.bytes.1.0 rem.bytes.1.1.0
        rem.bytes.1.1.1.0 h,
  )

  -- A string whose length goes beyond the end of the block makes lso_reader_read_string read
  -- beyond it.
  pub lso_reader_read_string_overrun :
      (n : ℕ)
      → signed 32 (pattern32 b0 b1 b2 b3) ≡ pos n
      → length bs + length rem.rest < n
      → lso_reader_read_string r ≡ fault
  unfolding lso_reader_read_string read_text
  lso_reader_read_string_overrun n len long = rw (
    enough r (b0 ∷ b1 ∷ b2 ∷ b3 ∷ bs) 4 rem (omega arith),
    read_int32-Remains r b0 b1 b2 b3 bs rem,
    len,
    read_chars-past r n 0 (malloc_bytes (n + 1)) (omega (arith, size, rem.at))
        (omega (arith, size, rem.at)),
  )

-- With less than four bytes left lso_reader_read_string returns -1, does not assign the string,
-- and leaves the reader where it is.
pub lso_reader_read_string-short :
    (r : Reader) (bs : List ℕ)
    → Remains r bs
    → length bs < 4
    → lso_reader_read_string r ≡ ok (record { length = negsuc 0; string = none; reader = r })
unfolding lso_reader_read_string
lso_reader_read_string-short r bs rem short = rw (too_few r bs 4 rem short)
