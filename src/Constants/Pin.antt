-- ===== src/Constants/Pin.antt =====
-- assets/js/constants.js: `array_knight_pin`, the step to the square that blocks a knight (index
-- `dest - pos + 256`).
use cchess.Base.{List, [], ◌∷◌}
use cchess.Base.Int.{ℤ, pos, negsuc}

-- The numbers 0, -16, -1, 1 and 16 of the table.
abbrev pub o : ℤ
o = pos 0

abbrev pub up : ℤ
up = negsuc 15

abbrev pub left : ℤ
left = negsuc 0

abbrev pub right : ℤ
right = pos 1

abbrev pub down : ℤ
down = pos 16

unfoldable pub array_knight_pin : List ℤ
array_knight_pin =
    o ∷ o ∷ o ∷ o ∷ o ∷ o ∷ o ∷ o ∷ o ∷ o ∷ o ∷ o ∷ o ∷ o ∷ o ∷ o ∷ o ∷ o ∷ o ∷ o ∷ o ∷ o ∷ o ∷ o
    ∷ o ∷ o ∷ o ∷ o ∷ o ∷ o ∷ o ∷ o ∷ o ∷ o ∷ o ∷ o ∷ o ∷ o ∷ o ∷ o ∷ o ∷ o ∷ o ∷ o ∷ o ∷ o ∷ o ∷ o
    ∷ o ∷ o ∷ o ∷ o ∷ o ∷ o ∷ o ∷ o ∷ o ∷ o ∷ o ∷ o ∷ o ∷ o ∷ o ∷ o ∷ o ∷ o ∷ o ∷ o ∷ o ∷ o ∷ o ∷ o
    ∷ o ∷ o ∷ o ∷ o ∷ o ∷ o ∷ o ∷ o ∷ o ∷ o ∷ o ∷ o ∷ o ∷ o ∷ o ∷ o ∷ o ∷ o ∷ o ∷ o ∷ o ∷ o ∷ o ∷ o
    ∷ o ∷ o ∷ o ∷ o ∷ o ∷ o ∷ o ∷ o ∷ o ∷ o ∷ o ∷ o ∷ o ∷ o ∷ o ∷ o ∷ o ∷ o ∷ o ∷ o ∷ o ∷ o ∷ o ∷ o
    ∷ o ∷ o ∷ o ∷ o ∷ o ∷ o ∷ o ∷ o ∷ o ∷ o ∷ o ∷ o ∷ o ∷ o ∷ o ∷ o ∷ o ∷ o ∷ o ∷ o ∷ o ∷ o ∷ o ∷ o
    ∷ o ∷ o ∷ o ∷ o ∷ o ∷ o ∷ o ∷ o ∷ o ∷ o ∷ o ∷ o ∷ o ∷ o ∷ o ∷ o ∷ o ∷ o ∷ o ∷ o ∷ o ∷ o ∷ o ∷ o
    ∷ o ∷ o ∷ o ∷ o ∷ o ∷ o ∷ o ∷ o ∷ o ∷ o ∷ o ∷ o ∷ o ∷ o ∷ o ∷ o ∷ o ∷ o ∷ o ∷ o ∷ o ∷ o ∷ o ∷ o
    ∷ o ∷ o ∷ o ∷ o ∷ o ∷ o ∷ o ∷ o ∷ o ∷ o ∷ o ∷ o ∷ o ∷ o ∷ o ∷ o ∷ o ∷ o ∷ o ∷ o ∷ o ∷ o ∷ o ∷ o
    ∷ o ∷ o ∷ o ∷ o ∷ o ∷ o ∷ o ∷ up ∷ o ∷ up ∷ o ∷ o ∷ o ∷ o ∷ o ∷ o ∷ o ∷ o ∷ o ∷ o ∷ o ∷ o ∷ left
    ∷ o ∷ o ∷ o ∷ right ∷ o ∷ o ∷ o ∷ o ∷ o ∷ o ∷ o ∷ o ∷ o ∷ o ∷ o ∷ o ∷ o ∷ o ∷ o ∷ o ∷ o ∷ o ∷ o
    ∷ o ∷ o ∷ o ∷ o ∷ o ∷ o ∷ o ∷ o ∷ left ∷ o ∷ o ∷ o ∷ right ∷ o ∷ o ∷ o ∷ o ∷ o ∷ o ∷ o ∷ o ∷ o
    ∷ o ∷ o ∷ o ∷ down ∷ o ∷ down ∷ o ∷ o ∷ o ∷ o ∷ o ∷ o ∷ o ∷ o ∷ o ∷ o ∷ o ∷ o ∷ o ∷ o ∷ o ∷ o
    ∷ o ∷ o ∷ o ∷ o ∷ o ∷ o ∷ o ∷ o ∷ o ∷ o ∷ o ∷ o ∷ o ∷ o ∷ o ∷ o ∷ o ∷ o ∷ o ∷ o ∷ o ∷ o ∷ o ∷ o
    ∷ o ∷ o ∷ o ∷ o ∷ o ∷ o ∷ o ∷ o ∷ o ∷ o ∷ o ∷ o ∷ o ∷ o ∷ o ∷ o ∷ o ∷ o ∷ o ∷ o ∷ o ∷ o ∷ o ∷ o
    ∷ o ∷ o ∷ o ∷ o ∷ o ∷ o ∷ o ∷ o ∷ o ∷ o ∷ o ∷ o ∷ o ∷ o ∷ o ∷ o ∷ o ∷ o ∷ o ∷ o ∷ o ∷ o ∷ o ∷ o
    ∷ o ∷ o ∷ o ∷ o ∷ o ∷ o ∷ o ∷ o ∷ o ∷ o ∷ o ∷ o ∷ o ∷ o ∷ o ∷ o ∷ o ∷ o ∷ o ∷ o ∷ o ∷ o ∷ o ∷ o
    ∷ o ∷ o ∷ o ∷ o ∷ o ∷ o ∷ o ∷ o ∷ o ∷ o ∷ o ∷ o ∷ o ∷ o ∷ o ∷ o ∷ o ∷ o ∷ o ∷ o ∷ o ∷ o ∷ o ∷ o
    ∷ o ∷ o ∷ o ∷ o ∷ o ∷ o ∷ o ∷ o ∷ o ∷ o ∷ o ∷ o ∷ o ∷ o ∷ o ∷ o ∷ o ∷ o ∷ o ∷ o ∷ o ∷ o ∷ o ∷ o
    ∷ o ∷ o ∷ o ∷ o ∷ o ∷ o ∷ o ∷ o ∷ o ∷ o ∷ o ∷ o ∷ o ∷ o ∷ o ∷ o ∷ o ∷ o ∷ o ∷ o ∷ o ∷ o ∷ o ∷ o
    ∷ o ∷ o ∷ o ∷ o ∷ o ∷ o ∷ o ∷ o ∷ o ∷ o ∷ o ∷ o ∷ o ∷ o ∷ o ∷ o ∷ o ∷ o ∷ o ∷ o ∷ o ∷ o ∷ o ∷ o
    ∷ o ∷ o ∷ o ∷ o ∷ o ∷ o ∷ o ∷ o ∷ o ∷ o ∷ o ∷ o ∷ o ∷ o ∷ []
