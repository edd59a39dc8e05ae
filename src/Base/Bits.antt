-- ===== src/Base/Bits.antt =====
-- `|` of shifted bytes, as arithmetic: the left operand has `k` zero bits at its end.
use Prim.Native.Nat.{
  ℕ, zero, suc, ◌+◌, ◌-◌, ◌*◌, ◌/◌, ◌%◌, ◌^◌, ◌≤◌, ◌<◌, max, min, bit_or, bit_and, digits,
  bit_or-bitwise, bit_and-bitwise,
}
use mathlib.Core.Path.{◌≡◌, refl, sym, ap, ◌∙◌}
use native.Mathlib.Nat.{pow-suc, one-le-pow}
use native.Mathlib.Omega.{arith}

-- An operation on digits, by what it makes of the right operand when the left one has no digits
-- more, and of two digits.
module _ (alone : ℕ → ℕ) (both : ℕ → ℕ → ℕ) where
  used_up : (fuel b : ℕ) → digits alone both fuel 0 b ≡ alone b
  used_up zero b = refl
  used_up (suc fuel) b = refl

  enough :
      (a b fuel fuel' : ℕ)
      → a ≤ fuel
      → a ≤ fuel'
      → digits alone both fuel a b ≡ digits alone both fuel' a b
  enough zero b fuel fuel' h h' = used_up fuel b ∙ sym (used_up fuel' b)
  enough (suc a) b zero fuel' h h' = absurd (omega arith)
  enough (suc a) b (suc fuel) zero h h' = absurd (omega arith)
  enough (suc a) b (suc fuel) (suc fuel') h h' =
      ap (λ (d : ℕ). d * 2 + both (suc a % 2) (b % 2))
        (enough (suc a / 2) (b / 2) fuel fuel' (omega arith) (omega arith))

  halved :
      (a b : ℕ)
      → digits alone both (suc a) (suc a) b
        ≡ digits alone both (suc a / 2) (suc a / 2) (b / 2) * 2 + both (suc a % 2) (b % 2)
  halved a b =
      ap (λ (d : ℕ). d * 2 + both (suc a % 2) (b % 2))
        (enough (suc a / 2) (b / 2) a (suc a / 2) (omega arith) (omega arith))

zero-bit_or : (b : ℕ) → bit_or 0 b ≡ b
zero-bit_or b = bit_or-bitwise 0 b

-- The lowest bit of `a | b`, and the rest.
bit_or_step : (a b : ℕ) → bit_or a b ≡ bit_or (a / 2) (b / 2) * 2 + max (a % 2) (b % 2)
bit_or_step zero b = omega (arith, zero-bit_or b, zero-bit_or (b / 2))
bit_or_step (suc a) b =
    bit_or-bitwise (suc a) b
    ∙ halved (λ y. y) max a b
    ∙ ap (λ (d : ℕ). d * 2 + max (suc a % 2) (b % 2)) (sym (bit_or-bitwise (suc a / 2) (b / 2)))

bit_or_zero_fuel : (n a : ℕ) → a ≤ n → bit_or a 0 ≡ a
bit_or_zero_fuel n zero h = refl
bit_or_zero_fuel zero (suc a) h = absurd (omega arith)
bit_or_zero_fuel (suc n) (suc a) h =
    omega (arith, bit_or_step (suc a) 0, bit_or_zero_fuel n (suc a / 2) (omega arith))

pub bit_or_zero : (a : ℕ) → bit_or a 0 ≡ a
bit_or_zero a = bit_or_zero_fuel a a (omega arith)

double : (q k : ℕ) → q * 2 ^ suc k ≡ 2 * (q * 2 ^ k)
double q k = omega (arith, ap (λ (t : ℕ). q * t) (pow-suc 2 k))

-- The low `k` bits come from the right operand alone.
pub bit_or_shifted :
    (k q p r : ℕ) → r < 2 ^ k → bit_or (q * 2 ^ k) (p * 2 ^ k + r) ≡ bit_or q p * 2 ^ k + r
bit_or_shifted zero q p r fits = ground arith
bit_or_shifted (suc k) q p r fits = ground (
  arith,
  bit_or_step (q * 2 ^ suc k) (p * 2 ^ suc k + r),
  double q k,
  double p k,
  double (bit_or q p) k,
  pow-suc 2 k,
  bit_or_shifted k q p (r / 2),
)

-- Ones absorb every pattern that is no wider.
pub bit_or_ones : (k q : ℕ) → q < 2 ^ k → bit_or q (2 ^ k - 1) ≡ 2 ^ k - 1
bit_or_ones zero q fits = ground (arith, zero-bit_or 0)
bit_or_ones (suc k) q fits =
    ground
      (arith, bit_or_step q (2 ^ suc k - 1), pow-suc 2 k, one-le-pow k 2, bit_or_ones k (q / 2))

-- The lowest bit of `a & b`, and the rest.
bit_and_split : (a b : ℕ) → bit_and a b ≡ min (a % 2) (b % 2) + 2 * bit_and (a / 2) (b / 2)
bit_and_split zero b = omega (arith, bit_and-bitwise 0 b, bit_and-bitwise 0 (b / 2))
bit_and_split (suc a) b = omega (
  arith,
  bit_and-bitwise (suc a) b
      ∙ halved (λ y. 0) min a b
      ∙ ap (λ (d : ℕ). d * 2 + min (suc a % 2) (b % 2)) (sym (bit_and-bitwise (suc a / 2) (b / 2))),
)

-- Only zeros are left, by the number of digits.
no_bits : (digits_left a : ℕ) → a ≤ digits_left → bit_and a 0 ≡ 0
no_bits k zero fits = bit_and-bitwise 0 0
no_bits zero (suc a) fits = absurd (omega arith)
no_bits (suc k) (suc a) fits =
    omega (arith, bit_and_split (suc a) 0, no_bits k (suc a / 2) (omega arith))

-- A mask that ends with `k` zeros takes nothing from the low `k` bits.
pub bit_and_shifted :
    (k q m r : ℕ) → r < 2 ^ k → bit_and (q * 2 ^ k + r) (m * 2 ^ k) ≡ bit_and q m * 2 ^ k
bit_and_shifted zero q m r fits = ground arith
bit_and_shifted (suc k) q m r fits = ground (
  arith,
  bit_and_split (q * 2 ^ suc k + r) (m * 2 ^ suc k),
  double q k,
  double m k,
  double (bit_and q m) k,
  pow-suc 2 k,
  bit_and_shifted k q m (r / 2),
)

bit_and_15 : (a : ℕ) → bit_and a 15 ≡ a % 16
bit_and_15 a = omega (
  arith,
  bit_and_split a 15,
  bit_and_split (a / 2) 7,
  bit_and_split (a / 2 / 2) 3,
  bit_and_split (a / 2 / 2 / 2) 1,
  no_bits (a / 2 / 2 / 2 / 2) (a / 2 / 2 / 2 / 2),
)

pub bit_and_255 : (a : ℕ) → bit_and a 255 ≡ a % 256
bit_and_255 a = omega (
  arith,
  bit_and_split a 255,
  bit_and_split (a / 2) 127,
  bit_and_split (a / 2 / 2) 63,
  bit_and_split (a / 2 / 2 / 2) 31,
  bit_and_15 (a / 2 / 2 / 2 / 2),
)
