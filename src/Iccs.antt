-- ===== src/Iccs.antt =====
-- The moves of the Internet Chinese Chess Server: the conversions of assets/js/utils.js, and
-- `playIccsMv` of assets/js/board.js. A text is the list of its characters' codes.
pub mod Converts
use cchess.Base.{ℕ, ◌+◌, List, [], ◌∷◌, ◌++◌, Option, none, some, get_elem?, ◌>>=◌}
use cchess.Base.Int.{ℤ, pos, negsuc, sub_ℕ, ◌-ℤ◌}
use cchess.Geometry.{
  convert_coordinates, col_of_pos, row_of_pos, get_int_move, start_of_move, end_of_move,
}
use cchess.Board.State.{Board}
use cchess.Board.Moves.{play}
use cchess.Fen.{codes}

-- `ICCS_MOVE_ROW_HELPER`
abbrev pub iccs_move_row_helper : List ℕ
iccs_move_row_helper = 9 ∷ 8 ∷ 7 ∷ 6 ∷ 5 ∷ 4 ∷ 3 ∷ 2 ∷ 1 ∷ 0 ∷ []

-- `ICCS_MOVE_COL_HELPER`
abbrev pub iccs_move_col_helper : List ℕ
iccs_move_col_helper = b'a' ∷ b'b' ∷ b'c' ∷ b'd' ∷ b'e' ∷ b'f' ∷ b'g' ∷ b'h' ∷ b'i' ∷ []

-- An element of a table at an integer; `none` is `undefined`.
abbrev pub element_at : List ℕ → ℤ → Option ℕ
element_at table (pos i) = get_elem? table i
element_at table (negsuc i) = none

unfoldable pub iccs_pos_to_pos : ℕ → ℕ → ℤ
iccs_pos_to_pos iccs_col iccs_row =
    convert_coordinates (pos 9 -ℤ sub_ℕ iccs_row b'0') (sub_ℕ iccs_col b'a')

-- A text that is too short gives `undefined`, on which `charCodeAt` throws.
unfoldable pub iccs_move_to_move : List ℕ → Option ℤ
iccs_move_to_move (c ∷ r ∷ d ∷ s ∷ rest) =
    some (get_int_move (iccs_pos_to_pos c r) (iccs_pos_to_pos d s))
iccs_move_to_move _ = none

-- What `+` gives here: a text, or `NaN`.
pub data Sum : Type 0 where
  nan : Sum
  text : List ℕ → Sum

-- `+` of two of these: texts are joined, `NaN` as its name where the other one is a text.
abbrev pub plus : Sum → Sum → Sum
plus nan nan = nan
plus nan (text t) = text (codes "NaN" ++ t)
plus (text s) nan = text (s ++ codes "NaN")
plus (text s) (text t) = text (s ++ t)

-- `+` of an entry of the table of letters and one of the table of digits, `none` for `undefined`.
abbrev pub join_entries : Option ℕ → Option ℕ → Sum
join_entries none row = nan
join_entries (some col) none = text (col ∷ codes "undefined")
join_entries (some col) (some row) = text (col ∷ (b'0' + row) ∷ [])

-- A coordinate of a position that may be `undefined`, whose digits are those of 0.
abbrev pub coordinate_of : (ℕ → ℤ) → Option ℕ → ℤ
coordinate_of coordinate none = coordinate 0
coordinate_of coordinate (some square) = coordinate square

-- The first argument is not used; the second is `none` where it is not given.
unfoldable pub pos_to_iccs_pos : ℕ → Option ℕ → Sum
pos_to_iccs_pos iccs_pos square =
    join_entries (element_at iccs_move_col_helper (coordinate_of col_of_pos square))
      (element_at iccs_move_row_helper (coordinate_of row_of_pos square))

-- Both calls give one argument only.
unfoldable pub move_to_iccs_move : ℕ → Sum
move_to_iccs_move mv =
    plus (pos_to_iccs_pos (start_of_move mv) none) (pos_to_iccs_pos (end_of_move mv) none)

-- The board's moves are native numbers: a negative one, which starts or ends outside of the array,
-- is not followed.
abbrev pub native_move : ℤ → Option ℕ
native_move (pos mv) = some mv
native_move (negsuc n) = none

-- `playIccsMv`
unfoldable pub play_iccs_mv : List ℕ → Board → Option Board
play_iccs_mv iccs_mv b = iccs_move_to_move iccs_mv >>= λ z. native_move z >>= λ mv. play mv b
