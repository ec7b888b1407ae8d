-- ===== src/Base/Bits.antt =====
-- `&`, `|` and `^` one binary digit at a time, and the masks that the positions of the board use.
use Prim.Native.Nat.{
  ℕ, zero, suc, ◌+◌, ◌*◌, ◌/◌, ◌%◌, ◌≤◌, ◌<◌, min, max, digits, bitwise, differ, bit_and, bit_or,
  bit_xor, bit_and-bitwise, bit_or-bitwise, bit_xor-bitwise,
}
use mathlib.Core.Path.{◌≡◌, refl, ap}
use native.Mathlib.Omega.{arith}

module _ (tail : ℕ → ℕ) (op : ℕ → ℕ → ℕ) where
  -- Any fuel that is at least the first operand gives the same digits.
  digits_enough : (k l x y : ℕ) → x ≤ k → x ≤ l → digits tail op k x y ≡ digits tail op l x y
  digits_enough zero zero x y hk hl = refl
  digits_enough zero (suc l) zero y hk hl = refl
  digits_enough zero (suc l) (suc x) y hk hl = absurd (omega arith)
  digits_enough (suc k) zero zero y hk hl = refl
  digits_enough (suc k) zero (suc x) y hk hl = absurd (omega arith)
  digits_enough (suc k) (suc l) zero y hk hl = refl
  digits_enough (suc k) (suc l) (suc x) y hk hl =
      rw (digits_enough k l (suc x / 2) (y / 2) (omega arith) (omega arith))

  -- The lowest digit, and the rest.
  bitwise_digit :
      (x y : ℕ)
      → bitwise tail op (suc x) y ≡ bitwise tail op (suc x / 2) (y / 2) * 2 + op (suc x % 2) (y % 2)
  bitwise_digit x y =
      omega (arith, digits_enough x (suc x / 2) (suc x / 2) (y / 2) (omega arith) (omega arith))

differ_digit : (x y : ℕ) → x < 2 → y < 2 → differ x y ≡ (x + y) % 2
differ_digit zero y hx hy = omega arith
differ_digit (suc zero) zero hx hy = refl
differ_digit (suc zero) (suc zero) hx hy = refl
differ_digit (suc zero) (suc (suc y)) hx hy = absurd (omega arith)
differ_digit (suc (suc x)) y hx hy = absurd (omega arith)

pub bit_and_digit : (x y : ℕ) → bit_and x y ≡ bit_and (x / 2) (y / 2) * 2 + min (x % 2) (y % 2)
bit_and_digit zero y = simp bit_and-bitwise (omega arith)
bit_and_digit (suc x) y = simp bit_and-bitwise (bitwise_digit (λ n. 0) min x y)

pub bit_or_digit : (x y : ℕ) → bit_or x y ≡ bit_or (x / 2) (y / 2) * 2 + max (x % 2) (y % 2)
bit_or_digit zero y = simp bit_or-bitwise (omega arith)
bit_or_digit (suc x) y = simp bit_or-bitwise (bitwise_digit (λ n. n) max x y)

pub bit_xor_digit : (x y : ℕ) → bit_xor x y ≡ bit_xor (x / 2) (y / 2) * 2 + (x + y) % 2
bit_xor_digit zero y = simp bit_xor-bitwise (omega arith)
bit_xor_digit (suc x) y = simp bit_xor-bitwise (
    omega (
      arith,
      bitwise_digit (λ n. n) differ x y,
      differ_digit (suc x % 2) (y % 2) (omega arith) (omega arith),
    ))

bit_and-zero_below : (n x : ℕ) → x ≤ n → bit_and x 0 ≡ 0
bit_and-zero_below n zero h = refl
bit_and-zero_below zero (suc x) h = absurd (omega arith)
bit_and-zero_below (suc n) (suc x) h =
    omega (arith, bit_and_digit (suc x) 0, bit_and-zero_below n (suc x / 2) (omega arith))

pub bit_and-zero : (x : ℕ) → bit_and x 0 ≡ 0
bit_and-zero x = bit_and-zero_below x x (omega arith)

-- A mask that ends in a zero, or in a one.
pub bit_and_even : (x m : ℕ) → bit_and x (m * 2) ≡ bit_and (x / 2) m * 2
bit_and_even x m = ground (arith, bit_and_digit x (m * 2))

pub bit_and_odd : (x m : ℕ) → bit_and x (m * 2 + 1) ≡ bit_and (x / 2) m * 2 + x % 2
bit_and_odd x m = ground (arith, bit_and_digit x (m * 2 + 1))

pub zero-bit_or : (y : ℕ) → bit_or 0 y ≡ y
zero-bit_or y = bit_or-bitwise 0 y

-- `|` with a field that lies above the digits of the other operand.
pub bit_or_even : (x y z : ℕ) → z ≡ y * 2 → bit_or x z ≡ bit_or (x / 2) y * 2 + x % 2
bit_or_even x y z h = rw h (ground (arith, bit_or_digit x (y * 2)))

pub bit_xor-half : (x y : ℕ) → bit_xor x y / 2 ≡ bit_xor (x / 2) (y / 2)
bit_xor-half x y = omega (arith, bit_xor_digit x y)

pub bit_xor-parity : (x y : ℕ) → bit_xor x y % 2 ≡ (x + y) % 2
bit_xor-parity x y = omega (arith, bit_xor_digit x y)

-- The low byte and the low half byte.
pub bit_and_0x0f : (x : ℕ) → bit_and x 0x0f ≡ x % 16
bit_and_0x0f x = omega (
  arith,
  bit_and_odd x 7,
  bit_and_odd (x / 2) 3,
  bit_and_odd (x / 2 / 2) 1,
  bit_and_odd (x / 2 / 2 / 2) 0,
  bit_and-zero (x / 2 / 2 / 2 / 2),
)

pub bit_and_0x07 : (x : ℕ) → bit_and x 0x07 ≡ x % 8
bit_and_0x07 x = omega (
  arith,
  bit_and_odd x 3,
  bit_and_odd (x / 2) 1,
  bit_and_odd (x / 2 / 2) 0,
  bit_and-zero (x / 2 / 2 / 2),
)

pub bit_and_0x1f : (x : ℕ) → bit_and x 0x1f ≡ x % 32
bit_and_0x1f x = omega (arith, bit_and_odd x 0x0f, bit_and_0x0f (x / 2))

pub bit_and_0x3f : (x : ℕ) → bit_and x 0x3f ≡ x % 64
bit_and_0x3f x = omega (arith, bit_and_odd x 0x1f, bit_and_0x1f (x / 2))

pub bit_and_0xf0 : (x : ℕ) → bit_and x 0xf0 ≡ x / 16 % 16 * 16
bit_and_0xf0 x = omega (
  arith,
  bit_and_even x 0x78,
  bit_and_even (x / 2) 0x3c,
  bit_and_even (x / 2 / 2) 0x1e,
  bit_and_even (x / 2 / 2 / 2) 0x0f,
  bit_and_0x0f (x / 2 / 2 / 2 / 2),
)

pub bit_and_0xff : (x : ℕ) → bit_and x 0xff ≡ x % 256
bit_and_0xff x = omega (
  arith,
  bit_and_odd x 0x7f,
  bit_and_odd (x / 2) 0x3f,
  bit_and_odd (x / 2 / 2) 0x1f,
  bit_and_odd (x / 2 / 2 / 2) 0x0f,
  bit_and_0x0f (x / 2 / 2 / 2 / 2),
)

pub bit_and_0x80 : (x : ℕ) → bit_and x 0x80 ≡ x / 128 % 2 * 128
bit_and_0x80 x = omega (
  arith,
  bit_and_even x 0x40,
  bit_and_even (x / 2) 0x20,
  bit_and_even (x / 2 / 2) 0x10,
  bit_and_even (x / 2 / 2 / 2) 8,
  bit_and_even (x / 2 / 2 / 2 / 2) 4,
  bit_and_even (x / 2 / 2 / 2 / 2 / 2) 2,
  bit_and_even (x / 2 / 2 / 2 / 2 / 2 / 2) 1,
  bit_and_odd (x / 2 / 2 / 2 / 2 / 2 / 2 / 2) 0,
  bit_and-zero (x / 2 / 2 / 2 / 2 / 2 / 2 / 2 / 2),
)

gone : (low : ℕ) → low < 256 → low / 2 / 2 / 2 / 2 / 2 / 2 / 2 / 2 ≡ 0
gone low h = omega arith

-- `low | (high << 8)` for a byte `low`.
pub bit_or_bytes : (low high : ℕ) → low < 256 → bit_or low (high * 256) ≡ low + high * 256
bit_or_bytes low high h = omega (
  arith,
  bit_or_even low (high * 128) (high * 256) (omega arith),
  bit_or_even (low / 2) (high * 64) (high * 128) (omega arith),
  bit_or_even (low / 2 / 2) (high * 32) (high * 64) (omega arith),
  bit_or_even (low / 2 / 2 / 2) (high * 16) (high * 32) (omega arith),
  bit_or_even (low / 2 / 2 / 2 / 2) (high * 8) (high * 16) (omega arith),
  bit_or_even (low / 2 / 2 / 2 / 2 / 2) (high * 4) (high * 8) (omega arith),
  bit_or_even (low / 2 / 2 / 2 / 2 / 2 / 2) (high * 2) (high * 4) (omega arith),
  bit_or_even (low / 2 / 2 / 2 / 2 / 2 / 2 / 2) high (high * 2) (omega arith),
  ap (λ (top : ℕ). bit_or top high) (gone low h),
  zero-bit_or high,
)
