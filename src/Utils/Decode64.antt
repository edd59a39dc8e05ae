-- ===== src/Utils/Decode64.antt =====
-- The unrolled readers of server/utils.c as one loop over the bytes.
use mathlib.Core.Path.{ap₂}
use lso_server.Base.{
  ℕ, zero, suc, ◌+◌, ◌-◌, ◌*◌, ◌^◌, ◌<◌, bit_or, ◌≡◌, refl, ap, sym, ◌∙◌, ℤ, Result, ok, fault,
  exited, ◌>>=◌, arith, ltb, if◌then◌else◌, signed, sext,
}
use lso_server.Buffer.{ByteBuffer}
use lso_server.Utils.{shl, get, read_int16, read_int32, read_int64}
use lso_server.Utils.Decode.{extend, extend-lt, or_byte, or_last, or32-pattern32, or16-pattern16}

-- The number in `left` bytes from index `i` on, behind a pattern `h` of `j` bits.
unfoldable read_rest : (left : ℕ) → ByteBuffer → (i j h : ℕ) → Result ℤ
read_rest zero bf i j h = ok (signed j h)
read_rest (suc left) bf i j h = do b ← get bf i; read_rest left bf (i + 1) (j + 8) (extend j h b)

-- The number in `n` bytes at an index.
unfoldable pub read_int : (n : ℕ) → ByteBuffer → ℕ → Result ℤ
unfolding read_rest
read_int n bf start = read_rest n bf start 0 0

-- What the cells of a buffer hold, where they were written, is a byte.
abbrev pub HasBytes : ByteBuffer → Type 0
HasBytes bf = (i b : ℕ) → get bf i ≡ ok b → b < 256

module _ (bf : ByteBuffer) (bytes : HasBytes bf) where
  -- The same byte at the same index, and the same from there on.
  get-then :
      {A : Type 0} (i j : ℕ) (k k' : ℕ → Result A)
      → i ≡ j
      → ((b : ℕ) → b < 256 → k b ≡ k' b)
      → (get bf i >>= k) ≡ (get bf j >>= k')
  get-then {A} i j k k' e same = next (get bf i) (bytes i) ∙ ap (λ (x : ℕ). get bf x >>= k') e
    where
      next : (r : Result ℕ) → ((b : ℕ) → r ≡ ok b → b < 256) → (r >>= k) ≡ (r >>= k')
      next (ok b) h = same b (h b refl)
      next fault h = refl
      next exited h = refl

-- The operands of the readers, as the loop takes them.
abbrev sign_bits : ℕ → ℕ → ℕ
sign_bits j b = (if ltb b 128 then 0 else 2 ^ j - 1) * 256 + b

or64-pattern :
    (b0 b1 b2 b3 b4 b5 b6 b7 : ℕ)
    → b0 < 256
    → b1 < 256
    → b2 < 256
    → b3 < 256
    → b4 < 256
    → b5 < 256
    → b6 < 256
    → b7 < 256
    → bit_or
        (bit_or
          (bit_or
            (bit_or
              (bit_or
                (bit_or
                  (bit_or (shl 64 (sext 64 b0) 56) (shl 64 (sext 64 b1) 48))
                  (shl 64 (sext 64 b2) 40))
                (shl 64 (sext 64 b3) 32))
              (shl 64 (sext 64 b4) 24))
            (shl 64 (sext 64 b5) 16))
          (shl 64 (sext 64 b6) 8))
        (sext 64 b7)
      ≡ extend 56
          (extend 48
            (extend 40 (extend 32 (extend 24 (extend 16 (extend 8 b0 b1) b2) b3) b4) b5)
            b6)
          b7
or64-pattern b0 b1 b2 b3 b4 b5 b6 b7 h0 h1 h2 h3 h4 h5 h6 h7 =
    ap₂ bit_or
      (ap₂ bit_or
          (ap₂ bit_or
              (ap₂ bit_or
                  (ap₂ bit_or
                      (ap₂ bit_or (ap₂ bit_or top at48 ∙ or_byte 48 8 b0 b1 h0 h1 ∙ regroup40) at40
                        ∙ or_byte 40 16 e1 b2 k1 h2
                        ∙ regroup32)
                      at32
                    ∙ or_byte 32 24 e2 b3 k2 h3
                    ∙ regroup24)
                  at24
                ∙ or_byte 24 32 e3 b4 k3 h4
                ∙ regroup16)
              at16
            ∙ or_byte 16 40 e4 b5 k4 h5
            ∙ regroup8)
          at8
        ∙ or_byte 8 48 e5 b6 k5 h6)
      last
    ∙ or_last 56 e6 b7 k6 h7
  where
    e1 : ℕ
    e1 = extend 8 b0 b1

    e2 : ℕ
    e2 = extend 16 e1 b2

    e3 : ℕ
    e3 = extend 24 e2 b3

    e4 : ℕ
    e4 = extend 32 e3 b4

    e5 : ℕ
    e5 = extend 40 e4 b5

    e6 : ℕ
    e6 = extend 48 e5 b6

    k1 : e1 < 2 ^ 16
    k1 = extend-lt 8 b0 b1 h0 h1

    k2 : e2 < 2 ^ 24
    k2 = extend-lt 16 e1 b2 k1 h2

    k3 : e3 < 2 ^ 32
    k3 = extend-lt 24 e2 b3 k2 h3

    k4 : e4 < 2 ^ 40
    k4 = extend-lt 32 e3 b4 k3 h4

    k5 : e5 < 2 ^ 48
    k5 = extend-lt 40 e4 b5 k4 h5

    k6 : e6 < 2 ^ 56
    k6 = extend-lt 48 e5 b6 k5 h6

    top : shl 64 (sext 64 b0) 56 ≡ b0 * 256 * 2 ^ 48
    top = ground arith

    at48 : shl 64 (sext 64 b1) 48 ≡ sign_bits 8 b1 * 2 ^ 48
    at48 = ground arith

    at40 : shl 64 (sext 64 b2) 40 ≡ sign_bits 16 b2 * 2 ^ 40
    at40 = ground arith

    at32 : shl 64 (sext 64 b3) 32 ≡ sign_bits 24 b3 * 2 ^ 32
    at32 = ground arith

    at24 : shl 64 (sext 64 b4) 24 ≡ sign_bits 32 b4 * 2 ^ 24
    at24 = ground arith

    at16 : shl 64 (sext 64 b5) 16 ≡ sign_bits 40 b5 * 2 ^ 16
    at16 = ground arith

    at8 : shl 64 (sext 64 b6) 8 ≡ sign_bits 48 b6 * 2 ^ 8
    at8 = ground arith

    last : sext 64 b7 ≡ sign_bits 56 b7
    last = ground arith

    regroup40 : e1 * 2 ^ 48 ≡ e1 * 256 * 2 ^ 40
    regroup40 = omega arith

    regroup32 : e2 * 2 ^ 40 ≡ e2 * 256 * 2 ^ 32
    regroup32 = omega arith

    regroup24 : e3 * 2 ^ 32 ≡ e3 * 256 * 2 ^ 24
    regroup24 = omega arith

    regroup16 : e4 * 2 ^ 24 ≡ e4 * 256 * 2 ^ 16
    regroup16 = omega arith

    regroup8 : e5 * 2 ^ 16 ≡ e5 * 256 * 2 ^ 8
    regroup8 = omega arith

zero_extended : (b : ℕ) → extend 0 0 b ≡ b
zero_extended b = ground arith

module _ (bf : ByteBuffer) (bytes : HasBytes bf) (start : ℕ) where
  read_int16-read_int : read_int16 bf start ≡ read_int 2 bf start
  unfolding read_int16 read_int read_rest
  read_int16-read_int = get-then bf bytes (start) (start) _ _ refl λ b0 h0.
      get-then bf bytes (start + 1) (start + 1) _ _ refl λ b1 h1.
        ap (λ (p : ℕ). ok (signed 16 p))
          (or16-pattern16 b0 b1 h0 h1 ∙ ap (λ (x : ℕ). extend 8 x b1) (sym (zero_extended b0)))

  read_int32-read_int : read_int32 bf start ≡ read_int 4 bf start
  unfolding read_int32 read_int read_rest
  read_int32-read_int = get-then bf bytes (start) (start) _ _ refl λ b0 h0.
      get-then bf bytes (start + 1) (start + 1) _ _ refl λ b1 h1.
        get-then bf bytes (start + 2) (start + 1 + 1) _ _ (omega arith) λ b2 h2.
          get-then bf bytes (start + 3) (start + 1 + 1 + 1) _ _ (omega arith) λ b3 h3.
            ap (λ (p : ℕ). ok (signed 32 p))
              (or32-pattern32 b0 b1 b2 b3 h0 h1 h2 h3
                ∙ ap (λ (x : ℕ). extend 24 (extend 16 (extend 8 x b1) b2) b3)
                    (sym (zero_extended b0)))

  read_int64-read_int : read_int64 bf start ≡ read_int 8 bf start
  unfolding read_int64 read_int read_rest
  read_int64-read_int = get-then bf bytes (start + 0) (start) _ _ (omega arith) λ b0 h0.
      get-then bf bytes (start + 1) (start + 1) _ _ refl λ b1 h1.
        get-then bf bytes (start + 2) (start + 1 + 1) _ _ (omega arith) λ b2 h2.
          get-then bf bytes (start + 3) (start + 1 + 1 + 1) _ _ (omega arith) λ b3 h3.
            get-then bf bytes (start + 4) (start + 1 + 1 + 1 + 1) _ _ (omega arith) λ b4 h4.
              get-then bf bytes (start + 5) (start + 1 + 1 + 1 + 1 + 1) _ _ (omega arith) λ b5 h5.
                get-then bf bytes (start + 6) (start + 1 + 1 + 1 + 1 + 1 + 1) _ _ (omega arith)
                  λ b6 h6.
                    get-then bf bytes (start + 7) (start + 1 + 1 + 1 + 1 + 1 + 1 + 1) _ _
                      (omega arith)
                      λ b7 h7.
                        ap (λ (p : ℕ). ok (signed 64 p))
                          (or64-pattern b0 b1 b2 b3 b4 b5 b6 b7 h0 h1 h2 h3 h4 h5 h6 h7
                            ∙ ap
                                (λ (x : ℕ).
                                  extend 56
                                    (extend 48
                                      (extend 40
                                        (extend 32 (extend 24 (extend 16 (extend 8 x b1) b2) b3) b4)
                                        b5)
                                      b6)
                                    b7)
                                (sym (zero_extended b0)))

  -- On a buffer of bytes each unrolled reader is one loop over two, four or eight bytes, in which
  -- a byte with its sign bit set turns all bits before it into ones; it fails where the loop
  -- fails.
  pub read_ints-read_int :
      (read_int16 bf start ≡ read_int 2 bf start)
      × (read_int32 bf start ≡ read_int 4 bf start)
      × (read_int64 bf start ≡ read_int 8 bf start)
  read_ints-read_int = (read_int16-read_int, read_int32-read_int, read_int64-read_int)
