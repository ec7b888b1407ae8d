-- ===== src/Fen.antt =====
-- The FEN text of a position: `initFromFen` of assets/js/chinese_chess.js, without the images that it
-- draws, and `getPieceType`, `toFen` of assets/js/board.js. A text is the list of its characters'
-- codes.
pub mod Load
pub mod Loading
pub mod Scanned
pub mod RoundTrip
use Prim.Native.String.{String}
use Prim.Native.Char.{code}
use cchess.Base.{
  ℕ, zero, suc, ◌+◌, ◌-◌, Bool, true, false, ◌&&◌, ◌||◌, List, [], ◌∷◌, ◌++◌, Option, none, some,
  leb, ltb, ◌==◌, if◌then◌else◌, ◌>>=◌,
}
use cchess.Constants.{
  Side, red, black, PieceType, king, advisor, bishop, knight, rook, cannon, pawn,
}
use cchess.Geometry.{convert_to_pos}
use cchess.Board.State.{Piece, Position, Board, add_piece_to_board}

abbrev pub codes : String → List ℕ
codes String.[] = []
codes (String.◌∷◌ c s) = code c ∷ codes s

unfoldable pub is_between : ℕ → ℕ → ℕ → Bool
is_between c x y = leb x c && leb c y

unfoldable pub is_number : ℕ → Bool
unfolding is_between
is_number c = is_between c b'0' b'9'

unfoldable pub is_lower_alpha : ℕ → Bool
unfolding is_between
is_lower_alpha c = is_between c b'a' b'z'

unfoldable pub is_upper_alpha : ℕ → Bool
unfolding is_between
is_upper_alpha c = is_between c b'A' b'Z'

unfoldable pub is_alpha : ℕ → Bool
unfolding is_lower_alpha is_upper_alpha
is_alpha c = is_lower_alpha c || is_upper_alpha c

-- `getPieceType`; `none` is its -1.
unfoldable pub get_piece_type : ℕ → Option PieceType
get_piece_type c =
    if c == b'K' || c == b'k'
    then some king
    else (if c == b'A' || c == b'a'
        then some advisor
        else (if c == b'B' || c == b'b'
            then some bishop
            else (if c == b'N' || c == b'n'
                then some knight
                else (if c == b'R' || c == b'r'
                    then some rook
                    else (if c == b'C' || c == b'c'
                        then some cannon
                        else (if c == b'P' || c == b'p' then some pawn else none))))))

-- The loop of `initFromFen`, with `row` and `col`. A letter that names no piece makes
-- `addPieceToBoard` read a row of values that is not there.
unfoldable pub place_all : List ℕ → ℕ → ℕ → Position → Option Position
unfolding is_number is_alpha is_lower_alpha
place_all [] row col b = some b
place_all (c ∷ rest) row col b =
    let after_digit = place_all rest row (col + (c - b'0')) b in
    let side : Side = if is_lower_alpha c then black else red in
    let after_piece = get_piece_type c >>= λ kind.
    add_piece_to_board kind side (convert_to_pos row col) b >>= place_all rest row (col + 1) in
    let after_slash = place_all rest (row + 1) 0 b in
    let after_other = place_all rest row col b in
    if is_number c
    then after_digit
    else (if is_alpha c
        then after_piece
        else (if c == b'/' then after_slash else (if c == b' ' then some b else after_other)))

-- The side to move, by the last character.
unfoldable pub side_to_move : List ℕ → Side
side_to_move [] = red
side_to_move (c ∷ []) = if c == b'b' then black else red
side_to_move (c ∷ d ∷ rest) = side_to_move (d ∷ rest)

-- `initFromFen` on a board: the side that it returns, and the board.
unfoldable pub init_from_fen : List ℕ → Board → Option (Side × Board)
init_from_fen fen b = place_all fen 0 0 b.position >>= λ placed.
    some (side_to_move fen, record b { position = placed })

-- `INIT_FEN_STRING`
abbrev pub init_fen_string : List ℕ
init_fen_string = codes "rnbakabnr/9/1c5c1/p1p1p1p1p/9/9/P1P1P1P1P/1C5C1/9/RNBAKABNR w"

-- `PIECE_FEN_STRING`
unfoldable pub piece_fen_string : Side → PieceType → ℕ
piece_fen_string red king = b'K'
piece_fen_string red advisor = b'A'
piece_fen_string red bishop = b'B'
piece_fen_string red knight = b'N'
piece_fen_string red rook = b'R'
piece_fen_string red cannon = b'C'
piece_fen_string red pawn = b'P'
piece_fen_string black king = b'k'
piece_fen_string black advisor = b'a'
piece_fen_string black bishop = b'b'
piece_fen_string black knight = b'n'
piece_fen_string black rook = b'r'
piece_fen_string black cannon = b'c'
piece_fen_string black pawn = b'p'

-- `if (number > 0) fen += number.toString()`; a row has nine columns, so it is one digit.
unfoldable pub flush : ℕ → List ℕ
flush zero = []
flush (suc n) = (b'0' + suc n) ∷ []

-- What stands on a square and is shown.
unfoldable pub shown_at : Position → ℕ → Option Piece
shown_at b square = b.cells square >>= λ r. if (b.store r).show then some (b.store r) else none

-- The inner loop of `toFen`: the columns left, the column, and the empty squares so far.
unfoldable pub row_to_fen : ℕ → Position → ℕ → ℕ → ℕ → List ℕ
row_to_fen zero b row col number = flush number
row_to_fen (suc left) b row col number = elim (shown_at b (convert_to_pos row col)) [
  | some p ↦ flush number ++ piece_fen_string p.side p.kind ∷ row_to_fen left b row (col + 1) 0
  | none ↦ row_to_fen left b row (col + 1) (number + 1)
]

-- The outer loop; the last slash is cut off.
unfoldable pub rows_to_fen : ℕ → Position → ℕ → List ℕ
rows_to_fen zero b row = []
rows_to_fen (suc zero) b row = row_to_fen 9 b row 0 0
rows_to_fen (suc (suc left)) b row =
    row_to_fen 9 b row 0 0 ++ b'/' ∷ rows_to_fen (suc left) b (row + 1)

-- `toFen`
unfoldable pub to_fen : Board → List ℕ
to_fen b = rows_to_fen 10 b.position 0 ++ b' ' ∷ (side_code b.cur_side) ∷ []
  where
    side_code : Side → ℕ
    side_code red = b'w'
    side_code black = b'b'
