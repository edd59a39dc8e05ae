-- ===== src/Utils/ReadBack.antt =====
-- When a reader of server/utils.c returns what the writer stored.
use lso_server.Base.{
  ℕ, ◌+◌, ◌-◌, ◌≤◌, ◌^◌, ◌≡◌, refl, ap, ◌∙◌, sym, ◌↔◌, List, [], ◌∷◌, ◌++◌, ℤ, pos, negsuc, ok,
  ◌>>=◌, ◌≤ℤ◌, arith, shr, int8, int8-lt, signed, length, take, drop, length-drop, length-take_le,
  take-append-drop, ok-eq_iff,
}
use lso_server.Memory.{Block, load}
use lso_server.Memory.Laws.{init}
use lso_server.Buffer.{ByteBuffer}
use lso_server.Utils.{write_int8, write_int16, write_int32, read_int8, read_int16, read_int32}
use lso_server.Utils.Decode.{
  pattern32, pattern16, read_int32-pattern32, read_int16-pattern16, big_endian32, big_endian16,
  FitsBehind, signed-pattern32_iff, signed-pattern16_iff,
}
use lso_server.Utils.RoundTrip.{
  int8_bytes, int16_bytes, int32_bytes, get-append, write_int8-append, write_int16-append,
  write_int32-append,
}

-- The values of `int8_t`, `int16_t` and `int32_t`.
abbrev IsInt : ℕ → ℤ → Type 0
IsInt w v = (negsuc (2 ^ (w - 1) - 1) ≤ℤ v) × (v ≤ℤ pos (2 ^ (w - 1) - 1))

-- No byte of `v` behind the first has its sign bit set, or else all bits before it are ones.
abbrev pub ReadsBack16 : ℤ → Type 0
ReadsBack16 v = FitsBehind (int8 (shr v 8) ∷ []) (int8 v)

abbrev pub ReadsBack32 : ℤ → Type 0
ReadsBack32 v =
    FitsBehind (int8 (shr v 24) ∷ []) (int8 (shr v 16))
    × FitsBehind (int8 (shr v 24) ∷ int8 (shr v 16) ∷ []) (int8 (shr v 8))
    × FitsBehind (int8 (shr v 24) ∷ int8 (shr v 16) ∷ int8 (shr v 8) ∷ []) (int8 v)

big_endian32-bytes :
    (v : ℤ)
    → IsInt 32 v
    → big_endian32 (int8 (shr v 24)) (int8 (shr v 16)) (int8 (shr v 8)) (int8 v) ≡ v
big_endian32-bytes v h = ground arith

big_endian16-bytes : (v : ℤ) → IsInt 16 v → big_endian16 (int8 (shr v 8)) (int8 v) ≡ v
big_endian16-bytes v h = ground arith

-- The cells of a buffer, split for an access of `n` bytes at `start`.
split-cells :
    (m : Block) (start n : ℕ) → m ≡ take start m ++ (take n (drop start m) ++ drop n (drop start m))
split-cells m start n =
    sym (ap (◌++◌ (take start m)) (take-append-drop n (drop start m)) ∙ take-append-drop start m)

read_int32-bytes :
    (bf : ByteBuffer) (m rest : Block) (start : ℕ) (v : ℤ)
    → start ≡ length m
    → bf.buffer ≡ m ++ (init (int32_bytes v) ++ rest)
    → read_int32 bf start
      ≡ ok (signed 32 (pattern32 (int8 (shr v 24)) (int8 (shr v 16)) (int8 (shr v 8)) (int8 v)))
unfolding load
read_int32-bytes bf m rest start v at holds =
    read_int32-pattern32 bf start (int8 (shr v 24)) (int8 (shr v 16)) (int8 (shr v 8)) (int8 v)
      (get-append bf m cells holds 0 (omega arith)) (get-append bf m cells holds 1 (omega arith))
      (get-append bf m cells holds 2 (omega arith)) (get-append bf m cells holds 3 (omega arith))
      (int8-lt (shr v 24)) (int8-lt (shr v 16)) (int8-lt (shr v 8)) (int8-lt v)
  where
    cells : Block
    cells = init (int32_bytes v) ++ rest

read_int16-bytes :
    (bf : ByteBuffer) (m rest : Block) (start : ℕ) (v : ℤ)
    → start ≡ length m
    → bf.buffer ≡ m ++ (init (int16_bytes v) ++ rest)
    → read_int16 bf start ≡ ok (signed 16 (pattern16 (int8 (shr v 8)) (int8 v)))
unfolding load
read_int16-bytes bf m rest start v at holds =
    read_int16-pattern16 bf start (int8 (shr v 8)) (int8 v)
      (get-append bf m cells holds 0 (omega arith)) (get-append bf m cells holds 1 (omega arith))
      (int8-lt (shr v 8)) (int8-lt v)
  where
    cells : Block
    cells = init (int16_bytes v) ++ rest

-- A write inside of the block, at any index.
module _ (bf : ByteBuffer) (start : ℕ) (v : ℤ) where
  -- The block with the bytes `bs` at `start`.
  abbrev replaced : List ℕ → Block
  replaced bs = take start bf.buffer ++ (init bs ++ drop (length bs) (drop start bf.buffer))

  front-length : (n : ℕ) → start + n ≤ length bf.buffer → start ≡ length (take start bf.buffer)
  front-length n fits = omega (arith, length-take_le start bf.buffer)

  old-length : (n : ℕ) → start + n ≤ length bf.buffer → length (take n (drop start bf.buffer)) ≡ n
  old-length n fits =
      length-take_le n (drop start bf.buffer) (omega (arith, length-drop start bf.buffer))

  write_int8-replaced :
      start + 1 ≤ length bf.buffer
      → write_int8 bf start v ≡ ok (record bf { buffer = replaced (int8_bytes v) })
  write_int8-replaced fits =
      ap (λ (m : Block). write_int8 (record bf { buffer = m }) start v)
        (split-cells bf.buffer start 1)
      ∙ write_int8-append bf (take start bf.buffer) (take 1 (drop start bf.buffer))
          (drop 1 (drop start bf.buffer)) start v (front-length 1 fits) (old-length 1 fits)

  write_int16-replaced :
      start + 2 ≤ length bf.buffer
      → write_int16 bf start v ≡ ok (record bf { buffer = replaced (int16_bytes v) })
  write_int16-replaced fits =
      ap (λ (m : Block). write_int16 (record bf { buffer = m }) start v)
        (split-cells bf.buffer start 2)
      ∙ write_int16-append bf (take start bf.buffer) (take 2 (drop start bf.buffer))
          (drop 2 (drop start bf.buffer)) start v (front-length 2 fits) (old-length 2 fits)

  write_int32-replaced :
      start + 4 ≤ length bf.buffer
      → write_int32 bf start v ≡ ok (record bf { buffer = replaced (int32_bytes v) })
  write_int32-replaced fits =
      ap (λ (m : Block). write_int32 (record bf { buffer = m }) start v)
        (split-cells bf.buffer start 4)
      ∙ write_int32-append bf (take start bf.buffer) (take 4 (drop start bf.buffer))
          (drop 4 (drop start bf.buffer)) start v (front-length 4 fits) (old-length 4 fits)

  -- An int8_t written inside of a block is read back as it was.
  pub read_int8-write_int8 :
      IsInt 8 v
      → start + 1 ≤ length bf.buffer
      → (write_int8 bf start v >>= λ b. read_int8 b start) ≡ ok v
  unfolding read_int8 load
  read_int8-write_int8 range fits =
      rw
        (
          write_int8-replaced fits,
          get-append (record bf { buffer = replaced (int8_bytes v) }) (take start bf.buffer)
              (init (int8_bytes v) ++ drop 1 (drop start bf.buffer)) refl {i = start} 0
              (omega (arith, front-length 1 fits)),
        )
        (ap ok (ground arith))

  -- An int16_t written inside of a block is read back as it was exactly if its low byte has no
  -- sign bit, or its high byte is all ones.
  pub read_int16-write_int16_iff :
      IsInt 16 v
      → start + 2 ≤ length bf.buffer
      → ((write_int16 bf start v >>= λ b. read_int16 b start) ≡ ok v) ↔ ReadsBack16 v
  read_int16-write_int16_iff range fits =
      rw
        (
          write_int16-replaced fits,
          read_int16-bytes (record bf { buffer = replaced (int16_bytes v) }) (take start bf.buffer)
              (drop 2 (drop start bf.buffer)) start v (front-length 2 fits) refl,
        )
        (ok-eq_iff (signed-pattern16_iff (int8 (shr v 8)) (int8 v) (int8-lt _) (int8-lt v))
          (big_endian16-bytes v range))

  -- An int32_t written inside of a block is read back as it was exactly if no byte behind its
  -- first has a sign bit, except behind ones alone.
  pub read_int32-write_int32_iff :
      IsInt 32 v
      → start + 4 ≤ length bf.buffer
      → ((write_int32 bf start v >>= λ b. read_int32 b start) ≡ ok v) ↔ ReadsBack32 v
  read_int32-write_int32_iff range fits =
      rw
        (
          write_int32-replaced fits,
          read_int32-bytes (record bf { buffer = replaced (int32_bytes v) }) (take start bf.buffer)
              (drop 4 (drop start bf.buffer)) start v (front-length 4 fits) refl,
        )
        (ok-eq_iff
          (signed-pattern32_iff (int8 (shr v 24)) (int8 (shr v 16)) (int8 (shr v 8)) (int8 v)
            (int8-lt _) (int8-lt _) (int8-lt _) (int8-lt v))
          (big_endian32-bytes v range))
