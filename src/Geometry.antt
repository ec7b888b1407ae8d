-- ===== src/Geometry.antt =====
-- assets/js/utils.js: squares of the 16 by 16 array, their coordinates, and moves packed in a
-- number. A position is a native number; where the source can reach a negative one, the result is an
-- integer, or an `Option` where no use of a negative one is modelled.
pub mod Packing
pub mod Coordinates
use cchess.Base.{
  ℕ, suc, ◌+◌, ◌-◌, ◌*◌, ◌/◌, ◌%◌, bit_and, bit_or, bit_xor, Bool, true, false, not, Option, none,
  some, ltb, leb, ◌==◌, if◌then◌else◌, get_elem?, ◌>>=◌,
}
use cchess.Base.Int.{ℤ, pos, negsuc, sub_ℕ, ◌+ℤ◌, ◌-ℤ◌}
use cchess.Constants.{array_in_borad, array_in_fort}

-- `p + d` as an index; `none` is a negative one.
unfoldable pub shift : ℕ → ℤ → Option ℕ
shift p (pos n) = some (p + n)
shift p (negsuc n) = if ltb n p then some (p - (n + 1)) else none

-- `undefined != 0` holds, so an index past the table counts as inside.
nonzero_entry : Option ℕ → Bool
nonzero_entry none = true
nonzero_entry (some v) = not (v == 0)

unfoldable pub in_board : ℕ → Bool
unfolding array_in_borad nonzero_entry
in_board p = nonzero_entry (get_elem? array_in_borad p)

unfoldable pub in_fort : ℕ → Bool
unfolding array_in_fort nonzero_entry
in_fort p = nonzero_entry (get_elem? array_in_fort p)

unfoldable pub same_half : ℕ → ℕ → Bool
same_half a b = bit_and (bit_xor a b) 0x80 == 0

unfoldable pub same_col : ℕ → ℕ → Bool
same_col a b = bit_and (bit_xor a b) 0x0f == 0

unfoldable pub same_row : ℕ → ℕ → Bool
same_row a b = bit_and (bit_xor a b) 0xf0 == 0

-- The step from `a` towards `b`, 0 if they share neither a row nor a column.
unfoldable pub get_offset : ℕ → ℕ → ℤ
get_offset a b =
    if same_row a b
    then (if ltb b a then negsuc 0 else pos 1)
    else (if same_col a b then (if ltb b a then negsuc 15 else pos 16) else pos 0)

unfoldable pub convert_to_pos : ℕ → ℕ → ℕ
convert_to_pos row col = (row + 3) * 16 + (col + 3)

unfoldable pub col_of_pos : ℕ → ℤ
col_of_pos p = sub_ℕ (bit_and p 0x0f) 3

unfoldable pub row_of_pos : ℕ → ℤ
row_of_pos p = sub_ℕ (p / 16) 3

-- `convert_to_pos` of any coordinates.
abbrev pub sixteenfold : ℤ → ℤ
sixteenfold (pos n) = pos (n * 16)
sixteenfold (negsuc n) = sub_ℕ 0 (suc n * 16)

unfoldable pub convert_coordinates : ℤ → ℤ → ℤ
convert_coordinates row col = sixteenfold (row +ℤ pos 3) +ℤ (col +ℤ pos 3)

unfoldable pub mirror_pos : ℕ → ℤ
mirror_pos p = convert_coordinates (row_of_pos p) (pos 8 -ℤ col_of_pos p)

unfoldable pub flip_pos : ℕ → Option ℕ
flip_pos p = if leb p 254 then some (254 - p) else none

unfoldable pub start_of_move : ℕ → ℕ
start_of_move mv = bit_and mv 0xff

unfoldable pub end_of_move : ℕ → ℕ
end_of_move mv = mv / 256

unfoldable pub get_move : ℕ → ℕ → ℕ
get_move start end = bit_or start (end * 256)

unfoldable pub convert_reserse_move : ℕ → ℕ
convert_reserse_move mv = get_move (end_of_move mv) (start_of_move mv)

-- The 32 digits of an integer, and the integer that has them.
abbrev pub digits_of_int : ℤ → ℕ
digits_of_int (pos n) = n % 4294967296
digits_of_int (negsuc n) = 4294967295 - n % 4294967296

abbrev pub int_of_digits : ℕ → ℤ
int_of_digits n = if ltb n 2147483648 then pos n else negsuc (4294967295 - n)

-- `get_move` of any integers: `start | (end << 8)`.
unfoldable pub get_int_move : ℤ → ℤ → ℤ
get_int_move start end =
    int_of_digits (bit_or (digits_of_int start) (digits_of_int end * 256 % 4294967296))

unfoldable pub convert_mirror_move : ℕ → ℤ
convert_mirror_move mv = get_int_move (mirror_pos (start_of_move mv)) (mirror_pos (end_of_move mv))
