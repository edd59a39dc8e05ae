-- ===== src/Writer/Holds.antt =====
-- What a writer of server/lso_writer.c has written, and the writes of integers.
use lso_server.Base.{
  ℕ, ◌+◌, ◌-◌, ◌≤◌, ◌≡◌, refl, ap, sym, subst, ◌∙◌, List, [], ◌∷◌, ◌++◌, ℤ, pos, ok, Returns,
  Result, Bool, true, false, ◌>>=◌, arith, length, take, drop, length-append, length-take_le, max_ℤ,
  if◌then◌else◌, take-append-drop,
}
use lso_server.Memory.{Block}
use lso_server.Memory.Laws.{init, length-init}
use lso_server.Buffer.{ByteBuffer, byte_buffer_ensure_size}
use lso_server.Buffer.Holds.{
  Holds, byte_buffer_create-Holds, byte_buffer_ensure_size-Roomy, Holds-written,
}
use lso_server.Utils.{write_int8, write_int16, write_int32, write_int64}
use lso_server.Utils.RoundTrip.{
  int8_bytes, int16_bytes, int32_bytes, int64_bytes, write_int8-append, write_int16-append,
  write_int32-append, write_int64-append,
}
use lso_server.Writer.{
  Writer, advance, lso_writer_initialize, lso_writer_write_bool, lso_writer_write_int8,
  lso_writer_write_int16, lso_writer_write_int32, lso_writer_write_int64,
}

-- The writer has written `bs`, and nothing else.
pub record Wrote (w : Writer) (bs : List ℕ) : Type 0 where
  pub spare : ℕ
  pub holds : Holds w.buffer bs spare
  pub position : w.position ≡ length bs
  pub offset : w.buffer.offset ≡ 0

pub lso_writer_initialize-Wrote :
    (n : ℕ) → Returns (λ w. Wrote w []) (lso_writer_initialize (pos n))
unfolding lso_writer_initialize
lso_writer_initialize-Wrote n =
    let (bf, e, (h, o)) = byte_buffer_create-Holds n in
    (
      record { position = 0; buffer = bf },
      rw e,
      record { spare = n; holds = h; position = refl; offset = o },
    )

-- One write of `n` bytes, for a store that replaces `n` cells behind a prefix.
module _ (w : Writer) (bs bytes : List ℕ) (n : ℕ) (wrote : Wrote w bs) (e : n ≡ length bytes)
    (write : ByteBuffer → ℕ → Result ByteBuffer)
    (stores : (bf : ByteBuffer) (m old rest : Block) (start : ℕ)
      → start ≡ length m
      → length old ≡ n
      → write (record bf { buffer = m ++ (old ++ rest) }) start
        ≡ ok (record bf { buffer = m ++ (init bytes ++ rest) })) where
  abbrev step : Result Writer
  step = do
    bf ← byte_buffer_ensure_size w.buffer (pos (w.position + n))
    bf ← write bf w.position
    ok (advance w bf n)

  write-Roomy :
      (bf : ByteBuffer) (s : ℕ) (h : Holds bf bs s)
      → n ≤ s
      → write bf w.position ≡ ok (record bf { buffer = init bs ++ (init bytes ++ drop n h.rest) })
  write-Roomy bf s h fits =
      ap (λ (m : Block). write (record bf { buffer = m }) w.position)
        (h.cells ∙ ap (◌++◌ (init bs)) (sym (take-append-drop n h.rest)))
      ∙ stores bf (init bs) (take n h.rest) (drop n h.rest) w.position
          (wrote.position ∙ sym (length-init bs))
          (length-take_le n h.rest (omega (arith, h.allocated)))

  step-Wrote : Returns (λ w'. Wrote w' (bs ++ bytes)) step
  step-Wrote =
      let (bf, grown, (s, h, fits, o)) =
        byte_buffer_ensure_size-Roomy w.buffer bs wrote.spare n wrote.holds in
      let cells = init bs ++ (init bytes ++ drop n h.rest) in
      (
        advance w (record bf { buffer = cells }) n,
        rw (
          ap (λ (k : ℕ). byte_buffer_ensure_size w.buffer (pos (k + n))) wrote.position ∙ grown,
          write-Roomy bf s h fits,
        ),
        record {
          spare = s - n;
          holds =
              subst
                (λ (k : ℕ).
                  Holds (record bf { buffer = cells; count = max_ℤ bf.count (pos (k + n)) })
                    (bs ++ bytes) (s - n))
                (sym wrote.position) (Holds-written bf bs bytes s n h e fits);
          position = omega (arith, length-append bs bytes, wrote.position);
          offset = o ∙ wrote.offset;
        },
      )

module _ (w : Writer) (bs : List ℕ) (wrote : Wrote w bs) where
  pub lso_writer_write_int8-Wrote :
      (v : ℤ) → Returns (λ w'. Wrote w' (bs ++ int8_bytes v)) (lso_writer_write_int8 w v)
  unfolding lso_writer_write_int8
  lso_writer_write_int8-Wrote v =
      step-Wrote w bs (int8_bytes v) 1 wrote refl (λ b i. write_int8 b i v)
        λ bf m old rest start at. write_int8-append bf m old rest start v at

  pub lso_writer_write_bool-Wrote :
      (v : Bool)
      → Returns (λ w'. Wrote w' (bs ++ (if v then 1 else 0) ∷ [])) (lso_writer_write_bool w v)
  unfolding lso_writer_write_bool lso_writer_write_int8
  lso_writer_write_bool-Wrote true = lso_writer_write_int8-Wrote (pos 1)
  lso_writer_write_bool-Wrote false = lso_writer_write_int8-Wrote (pos 0)

  pub lso_writer_write_int16-Wrote :
      (v : ℤ) → Returns (λ w'. Wrote w' (bs ++ int16_bytes v)) (lso_writer_write_int16 w v)
  unfolding lso_writer_write_int16
  lso_writer_write_int16-Wrote v =
      step-Wrote w bs (int16_bytes v) 2 wrote refl (λ b i. write_int16 b i v)
        λ bf m old rest start at. write_int16-append bf m old rest start v at

  -- Writing an int32_t returns, and appends the four bytes of the value, the most significant
  -- first.
  pub lso_writer_write_int32-Wrote :
      (v : ℤ) → Returns (λ w'. Wrote w' (bs ++ int32_bytes v)) (lso_writer_write_int32 w v)
  unfolding lso_writer_write_int32
  lso_writer_write_int32-Wrote v =
      step-Wrote w bs (int32_bytes v) 4 wrote refl (λ b i. write_int32 b i v)
        λ bf m old rest start at. write_int32-append bf m old rest start v at

  pub lso_writer_write_int64-Wrote :
      (v : ℤ) → Returns (λ w'. Wrote w' (bs ++ int64_bytes v)) (lso_writer_write_int64 w v)
  unfolding lso_writer_write_int64
  lso_writer_write_int64-Wrote v =
      step-Wrote w bs (int64_bytes v) 8 wrote refl (λ b i. write_int64 b i v)
        λ bf m old rest start at. write_int64-append bf m old rest start v at
