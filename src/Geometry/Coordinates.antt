-- ===== src/Geometry/Coordinates.antt =====
-- assets/js/utils.js: what the tests on squares mean in rows and columns.
use cchess.Base.{
  ℕ, ◌+◌, ◌*◌, ◌/◌, ◌%◌, ◌<◌, ◌≤◌, ◌≡◌, refl, ◌↔◌, arith, Bool, true, false, ◌&&◌, ◌||◌, ◌⊎◌, leb,
  ◌==◌, ==_iff, if◌then◌else◌, bit_xor, holds_below, holds_below-at,
}
use cchess.Base.Int.{ℤ, pos, negsuc, ◌+ℤ◌, ◌-ℤ◌}
use cchess.Base.Bits.{bit_and_0x0f, bit_and_0xf0, bit_and_0x80, bit_xor-half, bit_xor-parity}
use cchess.Geometry.{
  in_board, in_fort, same_half, same_col, same_row, convert_to_pos, col_of_pos, row_of_pos,
  mirror_pos, convert_coordinates,
}

-- The low four digits of `x ^ y` are 0 just when those of `x` and `y` agree.
low_digits_agree : (x y : ℕ) → (bit_xor x y % 16 ≡ 0) ↔ (x % 16 ≡ y % 16)
low_digits_agree x y = (λ h. omega (arith, facts x y, h), λ h. omega (arith, facts x y, h))
  where
    facts :
        (x y : ℕ)
        → bit_xor x y % 16
          ≡ (x + y) % 2
            + (x / 2 + y / 2) % 2 * 2
            + (x / 2 / 2 + y / 2 / 2) % 2 * 4
            + (x / 2 / 2 / 2 + y / 2 / 2 / 2) % 2 * 8
    facts x y = omega (
      arith,
      bit_xor-half x y,
      bit_xor-parity x y,
      bit_xor-half (x / 2) (y / 2),
      bit_xor-parity (x / 2) (y / 2),
      bit_xor-half (x / 2 / 2) (y / 2 / 2),
      bit_xor-parity (x / 2 / 2) (y / 2 / 2),
      bit_xor-parity (x / 2 / 2 / 2) (y / 2 / 2 / 2),
    )

xor-sixteenth : (x y : ℕ) → bit_xor x y / 16 ≡ bit_xor (x / 16) (y / 16)
xor-sixteenth x y =
    rw (quarters x, quarters y)
      (omega (
        arith,
        bit_xor-half x y,
        bit_xor-half (x / 2) (y / 2),
        bit_xor-half (x / 2 / 2) (y / 2 / 2),
        bit_xor-half (x / 2 / 2 / 2) (y / 2 / 2 / 2),
      ))
  where
    quarters : (n : ℕ) → n / 16 ≡ n / 2 / 2 / 2 / 2
    quarters n = omega arith

-- Equality of two tests.
abbrev same_bool : Bool → Bool → Bool
same_bool true b = b
same_bool false true = false
same_bool false false = true

same_bool_sound : (a b : Bool) → same_bool a b ≡ true → a ≡ b
same_bool_sound a b h = ground arith

-- A square has a mirror image on the board, whose own image is the square.
abbrev mirrors : ℕ → ℤ → Bool
mirrors p (pos q) = in_board q && elim (mirror_pos q) [ pos r ↦ r == p | negsuc n ↦ false ]
mirrors p (negsuc n) = false

-- Two squares share a column just when their numbers agree modulo 16.
pub same_col_iff : (a b : ℕ) → (same_col a b ≡ true) ↔ (a % 16 ≡ b % 16)
unfolding same_col
same_col_iff a b = (
  λ h. (low_digits_agree a b).0 (ground (arith, bit_and_0x0f (bit_xor a b))),
  λ h. ground (arith, bit_and_0x0f (bit_xor a b), (low_digits_agree a b).1 h),
)

-- Two squares share a row just when the second hexadecimal digits of their numbers agree.
pub same_row_iff : (a b : ℕ) → (same_row a b ≡ true) ↔ (a / 16 % 16 ≡ b / 16 % 16)
unfolding same_row
same_row_iff a b = (
  λ h.
      (low_digits_agree (a / 16) (b / 16)).0
        (ground (arith, bit_and_0xf0 (bit_xor a b), xor-sixteenth a b)),
  λ h. ground (
    arith,
    bit_and_0xf0 (bit_xor a b),
    xor-sixteenth a b,
    (low_digits_agree (a / 16) (b / 16)).1 h,
  ),
)

eighth : (x y : ℕ) → bit_xor x y / 128 % 2 ≡ (x / 128 + y / 128) % 2
eighth x y = omega (
  arith,
  xor-sixteenth x y,
  bit_xor-half (x / 16) (y / 16),
  bit_xor-half (x / 16 / 2) (y / 16 / 2),
  bit_xor-half (x / 16 / 2 / 2) (y / 16 / 2 / 2),
  bit_xor-parity (x / 16 / 2 / 2 / 2) (y / 16 / 2 / 2 / 2),
)

-- Two squares share a half just when their numbers agree in the bit of value 128, whose change is
-- between rows 7 and 8 of the array.
pub same_half_iff : (a b : ℕ) → (same_half a b ≡ true) ↔ (a / 128 % 2 ≡ b / 128 % 2)
unfolding same_half
same_half_iff a b = (
  λ h. ground (arith, bit_and_0x80 (bit_xor a b), eighth a b),
  λ h. ground (arith, bit_and_0x80 (bit_xor a b), eighth a b),
)

abbrev inside : ℕ → ℕ → ℕ → ℕ → ℕ → Bool
inside top bottom left right p =
    leb top (p / 16) && leb (p / 16) bottom && leb left (p % 16) && leb (p % 16) right

in_board_table : holds_below (λ p. same_bool (in_board p) (inside 3 12 3 11 p)) 256 ≡ true
unfolding holds_below in_board
in_board_table = refl

-- On the array, `in_board` holds just on rows 3 to 12 and columns 3 to 11.
pub in_board_iff :
    (p : ℕ)
    → p < 256
    → (in_board p ≡ true) ↔ ((3 ≤ p / 16) × (p / 16 ≤ 12) × (3 ≤ p % 16) × (p % 16 ≤ 11))
in_board_iff p h =
    rw (same_bool_sound (in_board p) (inside 3 12 3 11 p) (holds_below-at _ p h in_board_table))
      (λ e. ground arith, λ e. ground arith)

in_fort_table :
    holds_below (λ p. same_bool (in_fort p) (inside 3 5 6 8 p || inside 10 12 6 8 p)) 256 ≡ true
unfolding holds_below in_fort
in_fort_table = refl

-- On the array, `in_fort` holds just on columns 6 to 8 of rows 3 to 5 and of rows 10 to 12.
in_fort_iff :
    (p : ℕ)
    → p < 256
    → (in_fort p ≡ true) ↔ (
        ((3 ≤ p / 16) × (p / 16 ≤ 5) ⊎ (10 ≤ p / 16) × (p / 16 ≤ 12)) × (6 ≤ p % 16) × (p % 16 ≤ 8))
in_fort_iff p h =
    rw
      (same_bool_sound (in_fort p) (inside 3 5 6 8 p || inside 10 12 6 8 p)
        (holds_below-at _ p h in_fort_table))
      (λ e. ground arith, λ e. ground arith)

-- Any row and a column below 13 are read back from the square that they give.
pub coordinates-convert_to_pos :
    (row col : ℕ)
    → col < 13
    → (row_of_pos (convert_to_pos row col) ≡ pos row)
      × (col_of_pos (convert_to_pos row col) ≡ pos col)
unfolding row_of_pos col_of_pos convert_to_pos
coordinates-convert_to_pos row col h = ground (arith, bit_and_0x0f ((row + 3) * 16 + (col + 3)))

mirror_table : holds_below (λ p. if in_board p then mirrors p (mirror_pos p) else true) 256 ≡ true
unfolding holds_below in_board mirror_pos convert_coordinates row_of_pos col_of_pos ◌+ℤ◌ ◌-ℤ◌
mirror_table = refl

-- A square of the board has a mirror image, which is on the board and whose own image is the
-- square.
mirror_pos_twice :
    (p : ℕ)
    → p < 256
    → in_board p ≡ true
    → (q : ℕ) × (mirror_pos p ≡ pos q) × (in_board q ≡ true) × (mirror_pos q ≡ pos p)
mirror_pos_twice p h board =
    by_image (mirror_pos p) refl (rw board at (holds_below-at _ p h mirror_table))
  where
    by_twice :
        (q : ℕ) (z : ℤ)
        → mirror_pos q ≡ z
        → in_board q && elim z [ pos r ↦ r == p | negsuc n ↦ false ] ≡ true
        → (in_board q ≡ true) × (mirror_pos q ≡ pos p)
    by_twice q (pos r) e passes = ground (arith, ==_iff r p)
    by_twice q (negsuc n) e passes = ground arith

    by_image :
        (z : ℤ)
        → mirror_pos p ≡ z
        → mirrors p z ≡ true
        → (q : ℕ) × (mirror_pos p ≡ pos q) × (in_board q ≡ true) × (mirror_pos q ≡ pos p)
    by_image (pos q) e passes =
        let (on, twice) = by_twice q (mirror_pos q) refl passes in (q, e, on, twice)
    by_image (negsuc n) e passes = cc
