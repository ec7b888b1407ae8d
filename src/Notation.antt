-- ===== src/Notation.antt =====
-- assets/js/board.js: `toChineseMove`, the written form of a move, with the characters of
-- assets/js/constants.js. A text is the list of its characters' codes; `none` is a run that throws or
-- writes `undefined`.
pub mod Written
use cchess.Base.{
  ℕ, zero, suc, ◌+◌, ◌-◌, ◌/◌, Bool, true, false, not, ◌&&◌, List, [], ◌∷◌, ◌++◌, Option, none,
  some, length, ltb, ◌==◌, if◌then◌else◌, get_elem?, ◌>>=◌,
}
use cchess.Base.Int.{ℤ, pos, negsuc, sub_ℕ, ◌-ℤ◌}
use cchess.Constants.{
  Side, red, black, PieceType, king, advisor, bishop, knight, rook, cannon, pawn,
}
use cchess.Geometry.{same_row, same_col, col_of_pos, start_of_move, end_of_move}
use cchess.Board.State.{Piece, Position, Board, player}
use cchess.Board.Rules.{king_square, is_down}
use cchess.Fen.{codes}
use cchess.Iccs.{element_at}

-- `CHINESE_MOVE_NUMBER`
abbrev pub chinese_move_number : Side → List ℕ
chinese_move_number red = codes "一二三四五六七八九"
chinese_move_number black = codes "123456789"

-- `CHINESE_MOVE_PAWN_NUMBER`
abbrev pub chinese_move_pawn_number : List (List ℕ)
chinese_move_pawn_number = codes "前后" ∷ codes "前中后" ∷ codes "前二三后" ∷ codes "前二三四后" ∷ []

-- `PIECE_NAME_STRING[side]`, in the order of the types.
abbrev pub piece_name_string : Side → List ℕ
piece_name_string red = codes "帅仕相马车炮兵"
piece_name_string black = codes "将士象马车炮卒"

abbrev pub piece_name : PieceType → Side → Option ℕ
piece_name king side = get_elem? (piece_name_string side) 0
piece_name advisor side = get_elem? (piece_name_string side) 1
piece_name bishop side = get_elem? (piece_name_string side) 2
piece_name knight side = get_elem? (piece_name_string side) 3
piece_name rook side = get_elem? (piece_name_string side) 4
piece_name cannon side = get_elem? (piece_name_string side) 5
piece_name pawn side = get_elem? (piece_name_string side) 6

-- 平, 进, 退, 前 and 后.
abbrev pub level : ℕ
level = 24179

abbrev pub advance : ℕ
advance = 36827

abbrev pub retreat : ℕ
retreat = 36864

abbrev pub front : ℕ
front = 21069

abbrev pub rear : ℕ
rear = 21518

-- `downSide ? 8 - col_of_pos(pos) : col_of_pos(pos)`, and its numeral.
unfoldable pub side_col : Bool → ℕ → ℤ
side_col down_side square = if down_side then pos 8 -ℤ col_of_pos square else col_of_pos square

unfoldable pub numeral : Side → ℤ → Option ℕ
numeral side n = element_at (chinese_move_number side) n

unfoldable pub heading : Bool → ℕ → ℕ → ℕ
heading down_side start end =
    if down_side
    then (if ltb end start then advance else retreat)
    else (if ltb end start then retreat else advance)

-- `(Math.abs(piece.pos - end) >> 4) - 1`
unfoldable pub distance : ℕ → ℕ → ℤ
distance start end = sub_ℕ (((start - end) + (end - start)) / 16) 1

-- The last two characters of a piece that moves along lines.
unfoldable pub along_line : Side → Bool → ℕ → ℕ → Option (List ℕ)
along_line side down_side start end =
    if same_row start end
    then (numeral side (side_col down_side end) >>= λ n. some (level ∷ n ∷ []))
    else (numeral side (distance start end) >>= λ n. some (heading down_side start end ∷ n ∷ []))

-- The last two characters of the advisor, the bishop and the knight.
unfoldable pub aslant : Side → Bool → ℕ → ℕ → Option (List ℕ)
aslant side down_side start end =
    numeral side (side_col down_side end) >>= λ n. some (heading down_side start end ∷ n ∷ [])

unfoldable pub same_type : PieceType → PieceType → Bool
same_type king king = true
same_type advisor advisor = true
same_type bishop bishop = true
same_type knight knight = true
same_type rook rook = true
same_type cannon cannon = true
same_type pawn pawn = true
same_type _ _ = false

-- `p != piece && p.type == piece.type && p.show`
unfoldable pub is_twin : Position → ℕ → ℕ → Bool
is_twin b r s = not (s == r) && same_type (b.store s).kind (b.store r).kind && (b.store s).show

-- `sameTypePiece`: the first such piece.
unfoldable pub same_type_piece : Position → ℕ → List ℕ → Option ℕ
same_type_piece b r [] = none
same_type_piece b r (s ∷ pieces) = if is_twin b r s then some s else same_type_piece b r pieces

-- The name and the column of a piece.
unfoldable pub name_and_col : Piece → Bool → Option (List ℕ)
name_and_col p down_side = piece_name p.kind p.side >>= λ name.
    numeral p.side (side_col down_side p.square) >>= λ n. some (name ∷ n ∷ [])

-- The first two characters of a piece that is no pawn.
unfoldable pub first_two : Position → ℕ → Bool → Option (List ℕ)
first_two b r down_side = elim (same_type_piece b r (player b (b.store r).side).pieces) [
  | none ↦ name_and_col (b.store r) down_side
  | some s ↦
      if same_col (b.store r).square (b.store s).square
      then (piece_name (b.store r).kind (b.store r).side >>= λ name.
          some (rank_of (b.store s).square (b.store r).square down_side ∷ name ∷ []))
      else name_and_col (b.store r) down_side
]
  where
    rank_of : ℕ → ℕ → Bool → ℕ
    rank_of other square true = if ltb other square then rear else front
    rank_of other square false = if ltb other square then front else rear

-- The squares of the other pawns of the side.
unfoldable pub twin_squares : Position → ℕ → List ℕ → List ℕ
twin_squares b r [] = []
twin_squares b r (s ∷ pieces) =
    let rest = twin_squares b r pieces in if is_twin b r s then (b.store s).square ∷ rest else rest

unfoldable pub count_if : (ℕ → Bool) → List ℕ → ℕ
count_if test [] = 0
count_if test (x ∷ xs) = let rest = count_if test xs in if test x then rest + 1 else rest

-- `col_of_pos(pos) == i` for a column `i` of `line`.
unfoldable pub in_column : ℕ → ℕ → Bool
in_column i square = elim (col_of_pos square) [ pos n ↦ n == i | negsuc n ↦ false ]

-- `multiSameCol`: of the first `columns` columns one, not the pawn's own, has two pawns or more.
unfoldable pub multi_same_col : ℕ → ℕ → List ℕ → Bool
multi_same_col zero square squares = false
multi_same_col (suc i) square squares =
    let earlier = multi_same_col i square squares in
    if not (in_column i square) && ltb 1 (count_if (in_column i) squares) then true else earlier

-- The first two characters of a pawn, with the squares of the others.
unfoldable pub pawn_two : Piece → Bool → List ℕ → Option (List ℕ)
pawn_two p down_side squares =
    let same_cols : ℕ = count_if (same_col p.square) squares in
    let before : ℕ = count_if (λ q. same_col p.square q && ltb q p.square) squares in
    let cur_pos : ℕ = if down_side then before else same_cols - before in
    let multi : Bool = multi_same_col 9 p.square squares && not (same_cols == 2 && cur_pos == 1) in
    if ltb 0 same_cols
    then (get_elem? chinese_move_pawn_number (same_cols - 1) >>= λ ranks.
        get_elem? ranks cur_pos >>= λ rank.
        (if multi then numeral p.side (side_col down_side p.square) else piece_name p.kind p.side)
        >>= λ second. some (rank ∷ second ∷ []))
    else name_and_col p down_side

-- The two halves for a piece of each type.
unfoldable pub written : PieceType → Position → ℕ → Bool → ℕ → Option (List ℕ)
written kind b r down_side end =
    first_half kind >>= λ first. second_half kind >>= λ second. some (first ++ second)
  where
    first_half : PieceType → Option (List ℕ)
    first_half pawn =
        pawn_two (b.store r) down_side (twin_squares b r (player b (b.store r).side).pieces)
    first_half _ = first_two b r down_side

    second_half : PieceType → Option (List ℕ)
    second_half advisor = aslant (b.store r).side down_side (b.store r).square end
    second_half bishop = aslant (b.store r).side down_side (b.store r).square end
    second_half knight = aslant (b.store r).side down_side (b.store r).square end
    second_half _ = along_line (b.store r).side down_side (b.store r).square end

-- `toChineseMove`
unfoldable pub to_chinese_move : ℕ → Board → Option (List ℕ)
to_chinese_move mv b = do
  r ← b.position.cells (start_of_move mv)
  home ← king_square b.position (b.position.store r).side
  written (b.position.store r).kind b.position r (is_down home) (end_of_move mv)
