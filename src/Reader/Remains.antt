-- ===== src/Reader/Remains.antt =====
-- What each read of server/lso_reader.c returns, by the bytes that are left.
use lso_server.Base.{
  ℕ, ◌+◌, ◌≤◌, ◌<◌, ◌≡◌, refl, ap, sym, ◌∙◌, List, [], ◌∷◌, ◌++◌, some, none, pos, ok, arith,
  length, append_assoc, length-append, map-append, signed, true, false, lt→ltb, le→ltb, ltb_ℤ, drop,
  drop-replicate, not, eqb_ℤ, ◌==◌, int8-signed,
}
use lso_server.Memory.{Block, load, store, malloc_bytes}
use lso_server.Memory.Laws.{init, length-init, store-append, length-malloc}
use lso_server.Utils.{get, read_int8, read_int32}
use lso_server.Utils.Decode.{pattern32, pattern16, read_int32-pattern32, read_int16-pattern16}
use lso_server.Utils.RoundTrip.{get-append}
use lso_server.Writer.Strings.{IsBytes}
use lso_server.Reader.{
  Reader, cursor, skip, lso_reader_read_int8, lso_reader_read_int16, lso_reader_read_int32,
  lso_reader_read_string, read_chars, read_text, lso_reader_read_bool,
}

-- The counted bytes that were not read yet are `bs`.
pub record Remains (r : Reader) (bs : List ℕ) : Type 0 where
  pub front : Block
  pub rest : Block
  pub cells : r.buffer.buffer ≡ front ++ (init bs ++ rest)
  pub at : cursor r ≡ length front
  pub count : r.buffer.count ≡ pos (r.position + length bs)
  pub bytes : IsBytes bs

is_zero : (b : ℕ) → b < 256 → eqb_ℤ (signed 8 b) (pos 0) ≡ (b == 0)
is_zero b h = ground arith

module _ (r : Reader) where
  -- The `j`-th byte that is left.
  get-Remains :
      (bs : List ℕ) (rem : Remains r bs) (j : ℕ) {i : ℕ}
      → i ≡ cursor r + j
      → get r.buffer i ≡ load (init bs ++ rem.rest) j
  get-Remains bs rem j e =
      get-append r.buffer rem.front (init bs ++ rem.rest) rem.cells j
        (e ∙ ap (λ (k : ℕ). k + j) rem.at)

  -- Behind the first bytes stand the others.
  Remains-skip :
      (xs bs : List ℕ) (n : ℕ)
      → n ≡ length xs
      → IsBytes bs
      → Remains r (xs ++ bs)
      → Remains (skip r n) bs
  Remains-skip xs bs n e bytes rem = record {
    front = rem.front ++ init xs;
    rest = rem.rest;
    cells = rem.cells ∙ simp (map-append, append_assoc);
    at = omega (arith, rem.at, length-append rem.front (init xs), length-init xs);
    count = rem.count ∙ ap pos (omega (arith, length-append xs bs));
    bytes = bytes;
  }

  -- The readers' test for `n` more bytes.
  pub enough :
      (bs : List ℕ) (n : ℕ)
      → Remains r bs
      → n ≤ length bs
      → ltb_ℤ r.buffer.count (pos (r.position + n)) ≡ false
  enough bs n rem h =
      ap (λ c. ltb_ℤ c (pos (r.position + n))) rem.count
      ∙ le→ltb (r.position + length bs + 0) (r.position + n + 0) (omega arith)

  pub too_few :
      (bs : List ℕ) (n : ℕ)
      → Remains r bs
      → length bs < n
      → ltb_ℤ r.buffer.count (pos (r.position + n)) ≡ true
  too_few bs n rem h =
      ap (λ c. ltb_ℤ c (pos (r.position + n))) rem.count
      ∙ lt→ltb (r.position + length bs + 0) (r.position + n + 0) (omega arith)

  more : (b : ℕ) (bs : List ℕ) → Remains r (b ∷ bs) → ltb_ℤ (pos r.position) r.buffer.count ≡ true
  more b bs rem =
      ap (ltb_ℤ (pos r.position)) rem.count
      ∙ lt→ltb (r.position + 0) (r.position + length (b ∷ bs) + 0) (omega arith)

  pub read_int32-Remains :
      (b0 b1 b2 b3 : ℕ) (bs : List ℕ)
      → Remains r (b0 ∷ b1 ∷ b2 ∷ b3 ∷ bs)
      → read_int32 r.buffer (cursor r) ≡ ok (signed 32 (pattern32 b0 b1 b2 b3))
  unfolding load
  read_int32-Remains b0 b1 b2 b3 bs rem =
      read_int32-pattern32 r.buffer (cursor r) b0 b1 b2 b3 (get-Remains _ rem 0 (omega arith))
        (get-Remains _ rem 1 refl) (get-Remains _ rem 2 refl) (get-Remains _ rem 3 refl) rem.bytes.0
        rem.bytes.1.0 rem.bytes.1.1.0 rem.bytes.1.1.1.0

  -- With four bytes left, lso_reader_read_int32 returns the first four as read_int32 puts them
  -- together, and a reader behind them.
  pub lso_reader_read_int32-Remains :
      (b0 b1 b2 b3 : ℕ) (bs : List ℕ)
      → Remains r (b0 ∷ b1 ∷ b2 ∷ b3 ∷ bs)
      → (lso_reader_read_int32 r ≡ ok (signed 32 (pattern32 b0 b1 b2 b3), skip r 4))
        × Remains (skip r 4) bs
  unfolding lso_reader_read_int32
  lso_reader_read_int32-Remains b0 b1 b2 b3 bs rem = (
    rw (enough (b0 ∷ b1 ∷ b2 ∷ b3 ∷ bs) 4 rem (omega arith), read_int32-Remains b0 b1 b2 b3 bs rem),
    Remains-skip (b0 ∷ b1 ∷ b2 ∷ b3 ∷ []) bs 4 refl rem.bytes.1.1.1.1 rem,
  )

  -- With less than four bytes left, 0, and the reader stays where it is.
  pub lso_reader_read_int32-short :
      (bs : List ℕ) → Remains r bs → length bs < 4 → lso_reader_read_int32 r ≡ ok (pos 0, r)
  unfolding lso_reader_read_int32
  lso_reader_read_int32-short bs rem short = rw (too_few bs 4 rem short)

  -- With two bytes left, the first two, as `read_int16` puts them together.
  pub lso_reader_read_int16-Remains :
      (b0 b1 : ℕ) (bs : List ℕ)
      → Remains r (b0 ∷ b1 ∷ bs)
      → (lso_reader_read_int16 r ≡ ok (signed 16 (pattern16 b0 b1), skip r 2))
        × Remains (skip r 2) bs
  unfolding lso_reader_read_int16 load
  lso_reader_read_int16-Remains b0 b1 bs rem = (
    rw (
      enough (b0 ∷ b1 ∷ bs) 2 rem (omega arith),
      read_int16-pattern16 r.buffer (cursor r) b0 b1 (get-Remains _ rem 0 (omega arith))
          (get-Remains _ rem 1 refl) rem.bytes.0 rem.bytes.1.0,
    ),
    Remains-skip (b0 ∷ b1 ∷ []) bs 2 refl rem.bytes.1.1 rem,
  )

  -- With a byte left, that byte with its sign.
  pub lso_reader_read_int8-Remains :
      (b : ℕ) (bs : List ℕ)
      → Remains r (b ∷ bs)
      → (lso_reader_read_int8 r ≡ ok (signed 8 b, skip r 1)) × Remains (skip r 1) bs
  unfolding lso_reader_read_int8 read_int8 load
  lso_reader_read_int8-Remains b bs rem = (
    rw (more b bs rem, get-Remains (b ∷ bs) rem 0 {i = cursor r} (omega arith)),
    Remains-skip (b ∷ []) bs 1 refl rem.bytes.1 rem,
  )

  -- With a byte left, whether it is not zero.
  pub lso_reader_read_bool-Remains :
      (b : ℕ) (bs : List ℕ)
      → Remains r (b ∷ bs)
      → (lso_reader_read_bool r ≡ ok (not (b == 0), skip r 1)) × Remains (skip r 1) bs
  unfolding lso_reader_read_bool read_int8 load
  lso_reader_read_bool-Remains b bs rem = (
    rw (more b bs rem, get-Remains (b ∷ bs) rem 0 {i = cursor r} (omega arith))
        (ap (λ v. ok (not v, skip r 1)) (is_zero b rem.bytes.0)),
    Remains-skip (b ∷ []) bs 1 refl rem.bytes.1 rem,
  )

  -- The copy loop: `cs` is what it reads behind `front`, and `str` what it overwrites.
  read_chars-copies :
      (front : Block) (cs : List ℕ) (rest written str : Block) (i : ℕ)
      → r.buffer.buffer ≡ front ++ (init cs ++ rest)
      → r.buffer.offset + 4 + r.position + i ≡ length front
      → i ≡ length written
      → length cs ≤ length str
      → IsBytes cs
      → read_chars r (length cs) i (written ++ str)
        ≡ ok (written ++ (init cs ++ drop (length cs) str))
  unfolding read_chars read_int8 load
  read_chars-copies front [] rest written str i cells from to fits bytes = refl
  read_chars-copies front (c ∷ cs) rest written [] i cells from to fits bytes = absurd (omega arith)
  read_chars-copies front (c ∷ cs) rest written (s ∷ str) i cells from to fits bytes =
      rw
        (
          get-append r.buffer front (some c ∷ (init cs ++ rest)) cells
              {i = r.buffer.offset + 4 + r.position + i} 0 (omega arith),
          int8-signed c bytes.0,
          store-append written (s ∷ str) {i = i} 0 (omega arith) c (omega arith),
        )
        (simp (append_assoc) at (
          read_chars-copies (front ++ some c ∷ []) cs rest (written ++ some c ∷ []) str (i + 1)
            (cells ∙ sym (append_assoc front (some c ∷ []) (init cs ++ rest)))
            (omega (arith, length-append front (some c ∷ [])))
            (omega (arith, length-append written (some c ∷ []))) (omega arith) bytes.1))

  -- Reading a string whose length stands before it returns the length, the characters with a
  -- terminator, and a reader behind them.
  pub lso_reader_read_string-Remains :
      (b0 b1 b2 b3 : ℕ) (cs bs : List ℕ)
      → Remains r (b0 ∷ b1 ∷ b2 ∷ b3 ∷ (cs ++ bs))
      → signed 32 (pattern32 b0 b1 b2 b3) ≡ pos (length cs)
      → IsBytes cs
      → IsBytes bs
      → (lso_reader_read_string r
          ≡ ok (record {
            length = pos (length cs);
            string = some (init cs ++ some 0 ∷ []);
            reader = skip r (4 + length cs);
          }))
        × Remains (skip r (4 + length cs)) bs
  unfolding lso_reader_read_string read_text
  lso_reader_read_string-Remains b0 b1 b2 b3 cs bs rem len bytes others = (
    rw (
      enough (b0 ∷ b1 ∷ b2 ∷ b3 ∷ (cs ++ bs)) 4 rem (omega arith),
      read_int32-Remains b0 b1 b2 b3 (cs ++ bs) rem,
      len,
      copied,
      ends,
    ),
    Remains-skip (b0 ∷ b1 ∷ b2 ∷ b3 ∷ cs) bs (4 + length cs) (omega arith) others rem,
  )
    where
      cell : Block
      cell = drop (length cs) (malloc_bytes (length cs + 1))

      copied : read_chars r (length cs) 0 (malloc_bytes (length cs + 1)) ≡ ok (init cs ++ cell)
      copied =
          read_chars-copies (rem.front ++ init (b0 ∷ b1 ∷ b2 ∷ b3 ∷ [])) cs (init bs ++ rem.rest) []
            (malloc_bytes (length cs + 1)) 0 (rem.cells ∙ simp (map-append, append_assoc))
            (omega (arith, rem.at, length-append rem.front (init (b0 ∷ b1 ∷ b2 ∷ b3 ∷ [])))) refl
            (omega (arith, length-malloc (length cs + 1))) bytes

      one_cell : cell ≡ none ∷ []
      one_cell = unfold malloc_bytes in drop-replicate (length cs) none

      ends : store (init cs ++ cell) (length cs) 0 ≡ ok (init cs ++ some 0 ∷ [])
      ends = rw one_cell (
          store-append (init cs) (none ∷ []) {i = length cs} 0 (omega (arith, length-init cs)) 0
            (omega arith))
