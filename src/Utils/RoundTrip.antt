-- ===== src/Utils/RoundTrip.antt =====
-- What the writers of server/utils.c store, and when the readers get it back.
use native.Mathlib.Nat.{add_assoc, add-zero}
use lso_server.Base.{
  ℕ, ◌+◌, ◌<◌, ◌≡◌, refl, ◌∙◌, List, [], ◌∷◌, ◌++◌, some, ℤ, ok, ◌>>=◌, >>=-ok, Result, arith, shr,
  int8, length, set, append_assoc, length-append,
}
use lso_server.Memory.{Block, load}
use lso_server.Memory.Laws.{init, store-append, load-append}
use lso_server.Buffer.{ByteBuffer}
use lso_server.Utils.{put, get, write_int8, write_int16, write_int32, write_int64}

-- The bytes of an integer in the order in which they are stored.
abbrev pub int8_bytes : ℤ → List ℕ
int8_bytes v = int8 v ∷ []

abbrev pub int16_bytes : ℤ → List ℕ
int16_bytes v = int8 (shr v 8) ∷ int8 v ∷ []

abbrev pub int32_bytes : ℤ → List ℕ
int32_bytes v = int8 (shr v 24) ∷ int8 (shr v 16) ∷ int8 (shr v 8) ∷ int8 v ∷ []

abbrev pub int64_bytes : ℤ → List ℕ
int64_bytes v =
    int8 (shr v 56) ∷ int8 (shr v 48) ∷ int8 (shr v 40) ∷ int8 (shr v 32) ∷ int32_bytes v

module _ (bf : ByteBuffer) (m xs : Block) (holds : bf.buffer ≡ m ++ xs) {i : ℕ} (j : ℕ)
    (at : i ≡ length m + j) where
  pub put-append :
      (b : ℕ) → j < length xs → put bf i b ≡ ok (record bf { buffer = m ++ set xs j (some b) })
  unfolding put
  put-append b h = rw (holds, store-append m xs j at b h)

  pub get-append : get bf i ≡ load xs j
  unfolding get
  get-append = rw (holds, load-append m xs j at)

-- Each writer stores its bytes one after another.
puts : ByteBuffer → ℕ → List ℕ → Result ByteBuffer
puts bf i [] = ok bf
puts bf i (b ∷ bs) = do bf ← put bf i b; puts bf (i + 1) bs

write_int8-puts : (bf : ByteBuffer) (i : ℕ) (v : ℤ) → write_int8 bf i v ≡ puts bf i (int8_bytes v)
unfolding write_int8 puts
write_int8-puts bf i v = simp >>=-ok

write_int16-puts :
    (bf : ByteBuffer) (i : ℕ) (v : ℤ) → write_int16 bf i v ≡ puts bf i (int16_bytes v)
unfolding write_int16 puts
write_int16-puts bf i v = simp >>=-ok

write_int32-puts :
    (bf : ByteBuffer) (i : ℕ) (v : ℤ) → write_int32 bf i v ≡ puts bf i (int32_bytes v)
unfolding write_int32 puts
write_int32-puts bf i v = simp (add_assoc, >>=-ok)

write_int64-puts :
    (bf : ByteBuffer) (i : ℕ) (v : ℤ) → write_int64 bf i v ≡ puts bf i (int64_bytes v)
unfolding write_int64 puts
write_int64-puts bf i v = simp (add_assoc, add-zero, >>=-ok)

-- They replace cells behind `m`, and no others.
puts-append :
    (bf : ByteBuffer) (m old rest : Block) (start : ℕ) (bs : List ℕ)
    → start ≡ length m
    → length old ≡ length bs
    → puts (record bf { buffer = m ++ (old ++ rest) }) start bs
      ≡ ok (record bf { buffer = m ++ (init bs ++ rest) })
unfolding puts
puts-append bf m [] rest start [] at e = refl
puts-append bf m (c ∷ old) rest start [] at e = absurd (omega arith)
puts-append bf m [] rest start (b ∷ bs) at e = absurd (omega arith)
puts-append bf m (c ∷ old) rest start (b ∷ bs) at e =
    rw
      (put-append (record bf { buffer = m ++ c ∷ (old ++ rest) }) m (c ∷ (old ++ rest)) refl
        {i = start} 0 (omega arith) b (omega arith))
      (simp (append_assoc) at (
        puts-append bf (m ++ some b ∷ []) old rest (start + 1) bs
          (omega (arith, length-append m (some b ∷ []))) (omega arith)))

module _ (bf : ByteBuffer) (m old rest : Block) (start : ℕ) (v : ℤ) (at : start ≡ length m) where
  abbrev before : ByteBuffer
  before = record bf { buffer = m ++ (old ++ rest) }

  abbrev after : List ℕ → ByteBuffer
  after bs = record bf { buffer = m ++ (init bs ++ rest) }

  pub write_int8-append : length old ≡ 1 → write_int8 before start v ≡ ok (after (int8_bytes v))
  write_int8-append e =
      write_int8-puts before start v ∙ puts-append bf m old rest start (int8_bytes v) at e

  pub write_int16-append : length old ≡ 2 → write_int16 before start v ≡ ok (after (int16_bytes v))
  write_int16-append e =
      write_int16-puts before start v ∙ puts-append bf m old rest start (int16_bytes v) at e

  pub write_int32-append : length old ≡ 4 → write_int32 before start v ≡ ok (after (int32_bytes v))
  write_int32-append e =
      write_int32-puts before start v ∙ puts-append bf m old rest start (int32_bytes v) at e

  pub write_int64-append : length old ≡ 8 → write_int64 before start v ≡ ok (after (int64_bytes v))
  write_int64-append e =
      write_int64-puts before start v ∙ puts-append bf m old rest start (int64_bytes v) at e
