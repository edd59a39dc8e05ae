-- ===== src/Buffer/Holds.antt =====
-- A buffer whose first bytes are known: what server/buffer.c keeps of them.
use lso_server.Base.{
  ℕ, zero, suc, ◌+◌, ◌-◌, ◌≤◌, ◌<◌, ◌≡◌, refl, ap, sym, ◌∙◌, List, [], ◌∷◌, ◌++◌, some, none, pos,
  ok, Returns, Result, ◌>>=◌, arith, length, take, drop, drop-past, replicate, append_assoc,
  append-nil, length-append, length-drop, length-replicate, length-take_le, take-append, le→leb,
  lt→ltb, le→ltb, dec_lt, max_ℤ, map-append,
}
use lso_server.Memory.{Block, memcpy, malloc_bytes}
use lso_server.Memory.Laws.{init, length-init, length-malloc, store-append}
use lso_server.Buffer.{
  ByteBuffer, zero_fill, byte_buffer_create, byte_buffer_create_from_bytes, byte_buffer_clone,
  byte_buffer_ensure_size,
}

-- `bs` are the first `count` bytes, and the block holds `spare` more of the capacity.
pub record Holds (bf : ByteBuffer) (bs : List ℕ) (spare : ℕ) : Type 0 where
  pub rest : Block
  pub cells : bf.buffer ≡ init bs ++ rest
  pub capacity : bf.capacity ≡ pos (length bs + spare)
  pub allocated : spare ≤ length rest
  pub count : bf.count ≡ pos (length bs)

abbrev pub zeros : ℕ → List ℕ
zeros n = replicate n 0

-- The loop zeroes what is left of the block, up to `rest`.
zero_fill-init :
    (left i : ℕ) (m rest : Block)
    → i ≡ length m
    → zero_fill left i (m ++ (replicate left none ++ rest)) ≡ ok (m ++ (init (zeros left) ++ rest))
unfolding zero_fill
zero_fill-init zero i m rest at = refl
zero_fill-init (suc left) i m rest at =
    rw
      (store-append m (none ∷ (replicate left none ++ rest)) {i = i} 0 (omega arith) 0
        (omega arith))
      (simp (append_assoc) at (
        zero_fill-init left (i + 1) (m ++ some 0 ∷ []) rest
          (omega (arith, length-append m (some 0 ∷ [])))))

-- An empty capacity still allocates one byte, which stays as `malloc` left it.
abbrev slack : ℕ → Block
slack zero = none ∷ []
slack (suc n) = []

-- `byte_buffer_create` zeroes the whole capacity and counts none of it.
pub byte_buffer_create_lem :
    (n : ℕ)
    → byte_buffer_create (pos n)
      ≡ ok (record {
        buffer = init (zeros n) ++ slack n;
        capacity = pos n;
        count = pos 0;
        offset = 0;
      })
unfolding byte_buffer_create malloc_bytes zero_fill
byte_buffer_create_lem zero = refl
byte_buffer_create_lem (suc n) =
    ap
      (λ (m : Result Block).
        m >>= λ m. ok (record { buffer = m; capacity = pos (suc n); count = pos 0; offset = 0 }))
      (ap (λ (k : ℕ). zero_fill (suc n) 0 (replicate k none)) {y = suc n} (ground arith)
        ∙ ap (zero_fill (suc n) 0) (sym (append-nil (replicate (suc n) none)))
        ∙ zero_fill-init (suc n) 0 [] [] refl)

zeros-long : (n : ℕ) → n ≤ length (init (zeros n) ++ slack n)
zeros-long n = omega (
  arith,
  length-append (init (zeros n)) (slack n),
  length-init (zeros n),
  length-replicate {A = ℕ} n 0,
)

pub byte_buffer_create-Holds :
    (n : ℕ) → Returns (λ bf. Holds bf [] n × (bf.offset ≡ 0)) (byte_buffer_create (pos n))
byte_buffer_create-Holds n = (
  _,
  byte_buffer_create_lem n,
  (
    record {
      rest = init (zeros n) ++ slack n;
      cells = refl;
      capacity = ap pos (omega arith);
      allocated = zeros-long n;
      count = refl;
    },
    refl,
  ),
)

-- A copy of the whole capacity keeps the known bytes.
memcpy-init :
    (dst rest : Block) (bs : List ℕ) (s n : ℕ)
    → n ≡ length bs + s
    → s ≤ length rest
    → n ≤ length dst
    → memcpy dst (init bs ++ rest) (pos n) ≡ ok (init bs ++ (take s rest ++ drop n dst))
unfolding memcpy
memcpy-init dst rest bs s n e h fits =
    rw
      (
        le→leb n (length dst) fits,
        le→leb n (length (init bs ++ rest))
            (omega (arith, length-append (init bs) rest, length-init bs)),
      )
      (ap ok (
        ap (λ (m : Block). m ++ drop n dst) taken
        ∙ append_assoc (init bs) (take s rest) (drop n dst)))
  where
    taken : take n (init bs ++ rest) ≡ init bs ++ take s rest
    taken =
        ap (λ (k : ℕ). take k (init bs ++ rest)) (omega (arith, length-init bs))
        ∙ take-append (init bs) rest s

-- The buffer has room for `k` more bytes afterwards, and the same contents.
abbrev pub Roomy : ByteBuffer → List ℕ → ℕ → ByteBuffer → Type 0
Roomy bf bs k b = (s : ℕ) × Holds b bs s × (k ≤ s) × (b.offset ≡ bf.offset)

module _ (bf : ByteBuffer) (bs : List ℕ) (s k : ℕ) (h : Holds bf bs s) where
  -- What stands behind the known bytes in the new block.
  abbrev grown : Block
  grown = take s h.rest ++ drop (length bs + s) (malloc_bytes (length bs + k))

  ensure_size-copies :
      s < k
      → byte_buffer_ensure_size bf (pos (length bs + k))
        ≡ ok (record bf { buffer = init bs ++ grown; capacity = pos (length bs + k) })
  unfolding byte_buffer_ensure_size
  ensure_size-copies short = rw (
    h.capacity,
    h.cells,
    lt→ltb (length bs + s + 0) (length bs + k + 0) (omega arith),
    memcpy-init (malloc_bytes (length bs + k)) h.rest bs s (length bs + s) refl h.allocated
        (omega (arith, length-malloc (length bs + k))),
  )

  grown-length : s < k → k ≤ length grown
  grown-length short = omega (
    arith,
    length-append (take s h.rest) (drop (length bs + s) (malloc_bytes (length bs + k))),
    length-take_le s h.rest h.allocated,
    length-drop (length bs + s) (malloc_bytes (length bs + k)),
    length-malloc (length bs + k),
  )

  -- After a request for room for k bytes behind the known ones, the buffer has that room, with the
  -- same bytes, count and offset, whether it had to grow or not.
  pub byte_buffer_ensure_size-Roomy :
      Returns (Roomy bf bs k) (byte_buffer_ensure_size bf (pos (length bs + k)))
  unfolding byte_buffer_ensure_size
  byte_buffer_ensure_size-Roomy = elim (dec_lt s k) [
    | yes short ↦ (
      record bf { buffer = init bs ++ grown; capacity = pos (length bs + k) },
      ensure_size-copies short,
      (
        k,
        record {
          rest = grown;
          cells = refl;
          capacity = refl;
          allocated = grown-length short;
          count = h.count;
        },
        omega arith,
        refl,
      ),
    )
    | no enough ↦ (
      bf,
      rw (h.capacity, le→ltb (length bs + s + 0) (length bs + k + 0) (omega arith)),
      (s, h, omega arith, refl),
    )
  ]

module _ (bf : ByteBuffer) (bs : List ℕ) (s : ℕ) (h : Holds bf bs s) where
  -- Cloning a buffer returns, and the clone has the same known bytes, spare capacity, count and
  -- offset.
  pub byte_buffer_clone-Holds :
      Returns (λ b. Holds b bs s × (b.offset ≡ bf.offset)) (byte_buffer_clone bf)
  unfolding byte_buffer_clone byte_buffer_create_from_bytes
  byte_buffer_clone-Holds = (
    _,
    rw (
      h.capacity,
      h.cells,
      byte_buffer_create_lem (length bs + s),
      memcpy-init (init (zeros (length bs + s)) ++ slack (length bs + s)) h.rest bs s
          (length bs + s) refl h.allocated (zeros-long (length bs + s)),
    ),
    (
      record {
        rest =
            take s h.rest
            ++ drop (length bs + s) (init (zeros (length bs + s)) ++ slack (length bs + s));
        cells = refl;
        capacity = refl;
        allocated = omega (
          arith,
          length-take_le s h.rest h.allocated,
          length-append (take s h.rest)
              (drop (length bs + s) (init (zeros (length bs + s)) ++ slack (length bs + s))),
        );
        count = h.count;
      },
      refl,
    ),
  )

-- `bytes` written behind the known ones, and counted.
pub Holds-written :
    (bf : ByteBuffer) (bs bytes : List ℕ) (s n : ℕ) (h : Holds bf bs s)
    → n ≡ length bytes
    → n ≤ s
    → Holds
        (record bf {
          buffer = init bs ++ (init bytes ++ drop n h.rest);
          count = max_ℤ bf.count (pos (length bs + n));
        })
        (bs ++ bytes)
        (s - n)
Holds-written bf bs bytes s n h e fits = record {
  rest = drop n h.rest;
  cells = rw map-append (sym (append_assoc (init bs) (init bytes) (drop n h.rest)));
  capacity = h.capacity ∙ ap pos (omega (arith, length-append bs bytes));
  allocated = omega (arith, length-drop n h.rest, h.allocated);
  count = rw h.count (ground (arith, length-append bs bytes));
}

abbrev pub exactly : List ℕ → ByteBuffer
exactly bs = record {
  buffer = init bs;
  capacity = pos (length bs);
  count = pos (length bs);
  offset = 0;
}

-- Bytes copied into a buffer of their own, of which there is at least one.
pub byte_buffer_create_from_bytes_lem :
    (b : ℕ) (bs : List ℕ) (rest : Block)
    → byte_buffer_create_from_bytes (pos (length (b ∷ bs))) (init (b ∷ bs) ++ rest)
      ≡ ok (exactly (b ∷ bs))
unfolding byte_buffer_create_from_bytes
byte_buffer_create_from_bytes_lem b bs rest = rw (
  byte_buffer_create_lem (length (b ∷ bs)),
  memcpy-init (init (zeros (length (b ∷ bs))) ++ []) rest (b ∷ bs) 0 (length (b ∷ bs)) (omega arith)
      (omega arith) (zeros-long (length (b ∷ bs))),
  drop-past (length bs) (init (zeros (length bs)) ++ []) (
      omega (
        arith,
        length-append (init (zeros (length bs))) [],
        length-init (zeros (length bs)),
        length-replicate {A = ℕ} (length bs) 0,
      )),
  append-nil,
)

pub exactly-Holds : (bs : List ℕ) → Holds (exactly bs) bs 0
exactly-Holds bs = record {
  rest = [];
  cells = sym (append-nil (init bs));
  capacity = ap pos (omega arith);
  allocated = omega arith;
  count = refl;
}

pub byte_buffer_clone-exactly :
    (b : ℕ) (bs : List ℕ) → byte_buffer_clone (exactly (b ∷ bs)) ≡ ok (exactly (b ∷ bs))
unfolding byte_buffer_clone
byte_buffer_clone-exactly b bs = rw (
    ap (λ (m : Block). byte_buffer_create_from_bytes (pos (length (b ∷ bs))) m)
      (sym (append-nil (init (b ∷ bs))))
    ∙ byte_buffer_create_from_bytes_lem b bs [])
