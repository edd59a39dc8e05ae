-- ===== src/Utils/Decode.antt =====
-- What the readers of server/utils.c make of the bytes that they find.
use mathlib.Core.Path.{ap₂}
use lso_server.Base.{
  ℕ, ◌+◌, ◌-◌, ◌*◌, ◌%◌, ◌^◌, ◌<◌, ◌≤◌, negsuc, bit_or, ◌≡◌, ap, ◌∙◌, ℤ, ok, List, [], ◌∷◌, ◌⊎◌,
  ◌↔◌, arith, ltb, if◌then◌else◌, signed, sext,
}
use lso_server.Base.Bits.{bit_or_shifted, bit_or_ones, bit_or_zero}
use lso_server.Buffer.{ByteBuffer}
use lso_server.Utils.{shl, get, read_int16, read_int32}

-- A pattern of `j` bits with the byte `b` behind it, as the readers put them together: a byte
-- with its sign bit set overwrites all that stands before it with ones.
abbrev pub extend : ℕ → ℕ → ℕ → ℕ
extend j h b = (if ltb b 128 then h else 2 ^ j - 1) * 256 + b

pub or_byte :
    (k j h b : ℕ)
    → h < 2 ^ j
    → b < 256
    → bit_or (h * 256 * 2 ^ k) (((if ltb b 128 then 0 else 2 ^ j - 1) * 256 + b) * 2 ^ k)
      ≡ extend j h b * 2 ^ k
or_byte k j h b fits byte = ground (
  arith,
  bit_or_shifted k (h * 256) ((if ltb b 128 then 0 else 2 ^ j - 1) * 256 + b) 0,
  bit_or_shifted 8 h (if ltb b 128 then 0 else 2 ^ j - 1) b,
  bit_or_zero h,
  bit_or_ones j h,
)

pub extend-lt : (j h b : ℕ) → h < 2 ^ j → b < 256 → extend j h b < 2 ^ j * 256
extend-lt j h b fits byte = ground arith

-- The patterns that the unrolled readers build from the bytes at consecutive indices.
abbrev pub pattern16 : ℕ → ℕ → ℕ
pattern16 b0 b1 = extend 8 b0 b1

abbrev pub pattern32 : ℕ → ℕ → ℕ → ℕ → ℕ
pattern32 b0 b1 b2 b3 = extend 24 (extend 16 (extend 8 b0 b1) b2) b3

-- One more byte behind `h`, at the last position.
pub or_last :
    (j h b : ℕ)
    → h < 2 ^ j
    → b < 256
    → bit_or (h * 256) ((if ltb b 128 then 0 else 2 ^ j - 1) * 256 + b) ≡ extend j h b
or_last j h b fits byte = ground (arith, or_byte 0 j h b)

pub or32-pattern32 :
    (b0 b1 b2 b3 : ℕ)
    → b0 < 256
    → b1 < 256
    → b2 < 256
    → b3 < 256
    → bit_or
        (bit_or (bit_or (shl 32 (sext 32 b0) 24) (shl 32 (sext 32 b1) 16)) (shl 32 (sext 32 b2) 8))
        (sext 32 b3)
      ≡ pattern32 b0 b1 b2 b3
or32-pattern32 b0 b1 b2 b3 h0 h1 h2 h3 =
    ap₂ bit_or
      (ap₂ bit_or (ap₂ bit_or top second ∙ or_byte 16 8 b0 b1 h0 h1 ∙ regroup) third
        ∙ or_byte 8 16 (extend 8 b0 b1) b2 (extend-lt 8 b0 b1 h0 h1) h2)
      last
    ∙ or_last 24 (extend 16 (extend 8 b0 b1) b2) b3
        (extend-lt 16 (extend 8 b0 b1) b2 (extend-lt 8 b0 b1 h0 h1) h2) h3
  where
    top : shl 32 (sext 32 b0) 24 ≡ b0 * 256 * 2 ^ 16
    top = ground arith

    second : shl 32 (sext 32 b1) 16 ≡ ((if ltb b1 128 then 0 else 2 ^ 8 - 1) * 256 + b1) * 2 ^ 16
    second = ground arith

    third : shl 32 (sext 32 b2) 8 ≡ ((if ltb b2 128 then 0 else 2 ^ 16 - 1) * 256 + b2) * 2 ^ 8
    third = ground arith

    last : sext 32 b3 ≡ (if ltb b3 128 then 0 else 2 ^ 24 - 1) * 256 + b3
    last = ground arith

    regroup : extend 8 b0 b1 * 2 ^ 16 ≡ extend 8 b0 b1 * 256 * 2 ^ 8
    regroup = omega arith

-- `read_int32` from the four bytes that it reads.
pub read_int32-pattern32 :
    (bf : ByteBuffer) (start b0 b1 b2 b3 : ℕ)
    → get bf start ≡ ok b0
    → get bf (start + 1) ≡ ok b1
    → get bf (start + 2) ≡ ok b2
    → get bf (start + 3) ≡ ok b3
    → b0 < 256
    → b1 < 256
    → b2 < 256
    → b3 < 256
    → read_int32 bf start ≡ ok (signed 32 (pattern32 b0 b1 b2 b3))
unfolding read_int32
read_int32-pattern32 bf start b0 b1 b2 b3 e0 e1 e2 e3 h0 h1 h2 h3 =
    rw (e0, e1, e2, e3) (ap (λ p. ok (signed 32 p)) (or32-pattern32 b0 b1 b2 b3 h0 h1 h2 h3))

pub or16-pattern16 :
    (b0 b1 : ℕ)
    → b0 < 256
    → b1 < 256
    → bit_or (shl 32 (sext 32 b0) 8) (sext 32 b1) % 2 ^ 16 ≡ pattern16 b0 b1
or16-pattern16 b0 b1 h0 h1 =
    ap (λ p. p % 2 ^ 16) (ap₂ bit_or first last ∙ or_last 24 high b1 (ground arith) h1)
    ∙ ground arith
  where
    high : ℕ
    high = if ltb b0 128 then b0 else b0 + (2 ^ 24 - 256)

    first : shl 32 (sext 32 b0) 8 ≡ high * 256
    first = ground arith

    last : sext 32 b1 ≡ (if ltb b1 128 then 0 else 2 ^ 24 - 1) * 256 + b1
    last = ground arith

pub read_int16-pattern16 :
    (bf : ByteBuffer) (start b0 b1 : ℕ)
    → get bf start ≡ ok b0
    → get bf (start + 1) ≡ ok b1
    → b0 < 256
    → b1 < 256
    → read_int16 bf start ≡ ok (signed 16 (pattern16 b0 b1))
unfolding read_int16
read_int16-pattern16 bf start b0 b1 e0 e1 h0 h1 =
    rw (e0, e1) (ap (λ p. ok (signed 16 p)) (or16-pattern16 b0 b1 h0 h1))

-- The number that the bytes stand for in two's complement, most significant byte first.
abbrev pub big_endian16 : ℕ → ℕ → ℤ
big_endian16 b0 b1 = signed 16 (b0 * 256 + b1)

abbrev pub big_endian32 : ℕ → ℕ → ℕ → ℕ → ℤ
big_endian32 b0 b1 b2 b3 = signed 32 (((b0 * 256 + b1) * 256 + b2) * 256 + b3)

abbrev AllOnes : List ℕ → Type 0
AllOnes [] = Unit
AllOnes (b ∷ bs) = (b ≡ 255) × AllOnes bs

-- A byte behind others is read right if its sign bit is clear or it extends a row of ones.
abbrev pub FitsBehind : List ℕ → ℕ → Type 0
FitsBehind before b = (b < 128) ⊎ AllOnes before

pub signed-pattern32_iff :
    (b0 b1 b2 b3 : ℕ)
    → b0 < 256
    → b1 < 256
    → b2 < 256
    → b3 < 256
    → (signed 32 (pattern32 b0 b1 b2 b3) ≡ big_endian32 b0 b1 b2 b3)
      ↔ (FitsBehind (b0 ∷ []) b1 × FitsBehind (b0 ∷ b1 ∷ []) b2 × FitsBehind (b0 ∷ b1 ∷ b2 ∷ []) b3)
signed-pattern32_iff b0 b1 b2 b3 h0 h1 h2 h3 = ground arith

pub signed-pattern16_iff :
    (b0 b1 : ℕ)
    → b0 < 256
    → b1 < 256
    → (signed 16 (pattern16 b0 b1) ≡ big_endian16 b0 b1) ↔ FitsBehind (b0 ∷ []) b1
signed-pattern16_iff b0 b1 h0 h1 = ground arith

-- A last byte with its sign bit set is all that is left of the value.
pub signed-pattern32_sign_byte :
    (b0 b1 b2 b3 : ℕ)
    → b0 < 256
    → b1 < 256
    → b2 < 256
    → b3 < 256
    → 128 ≤ b3
    → signed 32 (pattern32 b0 b1 b2 b3) ≡ negsuc (255 - b3)
signed-pattern32_sign_byte b0 b1 b2 b3 h0 h1 h2 h3 sign = ground arith
