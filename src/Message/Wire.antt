-- ===== src/Message/Wire.antt =====
-- What `message_to_buffer` puts on the wire: the tag, most significant byte first, and the payload.
use lso_server.Base.{
  ℕ, suc, ◌+◌, ◌≡◌, refl, ap, ◌∙◌, List, [], ◌∷◌, ◌++◌, some, ℤ, pos, ok, Returns, Returns-bind,
  arith, length, append_assoc, append-nil, length-append, length-replicate, pos-+ℤ, ◌+ℤ◌,
}
use lso_server.Memory.{Block, load}
use lso_server.Memory.Laws.{init, length-init, load-append}
use lso_server.Buffer.{ByteBuffer}
use lso_server.Buffer.Holds.{
  Holds, zeros, byte_buffer_create_lem, byte_buffer_create-Holds, byte_buffer_clone-Holds,
}
use lso_server.Utils.RoundTrip.{int16_bytes, put-append, write_int16-append}
use lso_server.Writer.{Writer, lso_writer_to_byte_buffer}
use lso_server.Writer.Holds.{Wrote}
use lso_server.Message.{
  Message, message_create_from_writer, message_create_empty, message_to_buffer, copy_payload,
}

-- The message has the payload `bs`, from the start of its block.
pub record Carries (m : Message) (tag : ℤ) (bs : List ℕ) : Type 0 where
  pub tagged : m.tag ≡ tag
  pub spare : ℕ
  pub holds : Holds m.buffer bs spare

-- What the client that `m` is sent to receives.
abbrev pub wire : ℤ → List ℕ → List ℕ
wire tag bs = int16_bytes tag ++ bs

-- A message made from a writer has the tag it was given and carries all that was written.
pub message_create_from_writer-Carries :
    (tag : ℤ) (w : Writer) (bs : List ℕ)
    → Wrote w bs
    → Returns (λ m. Carries m tag bs) (message_create_from_writer tag w)
unfolding message_create_from_writer lso_writer_to_byte_buffer
message_create_from_writer-Carries tag w bs wrote =
    Returns-bind _ (byte_buffer_clone-Holds w.buffer bs wrote.spare wrote.holds)
      λ bf (h, o). (_, refl, record { tagged = refl; spare = wrote.spare; holds = h })

pub message_create_empty-Carries :
    (tag : ℤ) → Returns (λ m. Carries m tag []) (message_create_empty tag)
unfolding message_create_empty
message_create_empty-Carries tag =
    Returns-bind _ (byte_buffer_create-Holds 0)
      λ bf (h, o). (_, refl, record { tagged = refl; spare = 0; holds = h })

-- The loop copies `bs`, which it reads behind `read`, over the cells `old`.
copy_payload-copies :
    (read rest : Block) (bs : List ℕ) (bf : ByteBuffer) (m old tail : Block) (i : ℕ)
    → i ≡ length read
    → 2 + i ≡ length m
    → length old ≡ length bs
    → copy_payload
        (read ++ (init bs ++ rest))
        (length bs)
        i
        (record bf { buffer = m ++ (old ++ tail) })
      ≡ ok (record bf { buffer = m ++ (init bs ++ tail) })
unfolding copy_payload load
copy_payload-copies read rest [] bf m [] tail i from to e = refl
copy_payload-copies read rest [] bf m (c ∷ old) tail i from to e = absurd (omega arith)
copy_payload-copies read rest (b ∷ bs) bf m [] tail i from to e = absurd (omega arith)
copy_payload-copies read rest (b ∷ bs) bf m (c ∷ old) tail i from to e =
    rw
      (
        load-append read (some b ∷ (init bs ++ rest)) {i = i} 0 (omega arith),
        put-append (record bf { buffer = m ++ c ∷ (old ++ tail) }) m (c ∷ (old ++ tail)) refl
            {i = 2 + i} 0 (omega arith) b (omega arith),
      )
      (simp (append_assoc) at (
        copy_payload-copies (read ++ some b ∷ []) rest bs bf (m ++ some b ∷ []) old tail (i + 1)
          (omega (arith, length-append read (some b ∷ [])))
          (omega (arith, length-append m (some b ∷ []))) (omega arith)))

-- The buffer made of a message holds the two bytes of the tag and then the payload, and counts
-- exactly those.
pub message_to_buffer-wire :
    (m : Message) (tag : ℤ) (bs : List ℕ)
    → Carries m tag bs
    → message_to_buffer m
      ≡ ok (record {
        buffer = init (wire tag bs);
        capacity = pos (length bs + 2);
        count = pos (length bs + 2);
        offset = 0;
      })
unfolding message_to_buffer
message_to_buffer-wire m tag bs carries =
    rw
      (
        carries.tagged,
        carries.holds.count,
        carries.holds.cells,
        total,
        byte_buffer_create_lem (suc (suc (length bs))),
        write_int16-append (bf []) [] (some 0 ∷ some 0 ∷ []) payload 0 tag refl refl,
        copied,
        append-nil,
      )
      (ap
        (λ (n : ℕ).
          ok (record { buffer = init (wire tag bs); capacity = pos n; count = pos n; offset = 0 }))
        {x = suc (suc (length bs))} (omega arith))
  where
    payload : Block
    payload = init (zeros (length bs)) ++ []

    bf : Block → ByteBuffer
    bf cells = record {
      buffer = cells;
      capacity = pos (suc (suc (length bs)));
      count = pos (suc (suc (length bs)));
      offset = 0;
    }

    total : pos (length bs) +ℤ pos 2 ≡ pos (suc (suc (length bs)))
    total = pos-+ℤ (length bs) 2 ∙ ap pos (omega arith)

    copied :
        copy_payload
          (init bs ++ carries.holds.rest)
          (length bs)
          0
          (bf (init (int16_bytes tag) ++ payload))
        ≡ ok (bf (init (int16_bytes tag) ++ (init bs ++ [])))
    copied =
        copy_payload-copies [] carries.holds.rest bs (bf []) (init (int16_bytes tag))
          (init (zeros (length bs))) [] 0 refl refl
          (length-init (zeros (length bs)) ∙ length-replicate (length bs) 0)
