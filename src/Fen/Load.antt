-- ===== src/Fen/Load.antt =====
-- assets/js/chinese_chess.js: the board that `initFromFen` sets up.
use cchess.Base.{
  ℕ, ◌+◌, ◌-◌, ◌≡◌, ap, subst, List, [], ◌∷◌, Option, none, some, ◌==◌, if◌then◌else◌, if-eq-some,
  inl, inr, >>=-eq-some,
}
use cchess.Constants.{Side, red, black}
use cchess.Geometry.{convert_to_pos}
use cchess.Board.State.{Position, Board, new_board, add_piece_to_board}
use cchess.Board.Setup.{IsReady, new_board-IsReady}
use cchess.Board.Setup.Joined.{add_piece_to_board-IsReady}
use cchess.Board.Value.Books.{IsAccounted}
use cchess.Fen.{is_number, is_alpha, is_lower_alpha, get_piece_type, place_all, init_from_fen}

place_all-IsReady :
    (fen : List ℕ) (row col : ℕ) (b : Position) {b' : Position}
    → IsReady b
    → place_all fen row col b ≡ some b'
    → IsReady b'
unfolding place_all
place_all-IsReady [] row col b ready e = subst IsReady (cc) ready
place_all-IsReady (c ∷ rest) row col b {b'} ready e = elim (if-eq-some (is_number c) _ _ e) [
  | inl (_, f) ↦ place_all-IsReady rest row (col + (c - b'0')) b ready f
  | inr (_, f) ↦ elim (if-eq-some (is_alpha c) _ _ f) [
    | inl (_, g) ↦
        let side : Side = if is_lower_alpha c then black else red in
        let (kind, _, h) = >>=-eq-some (get_piece_type c) _ g in
        let (b1, e1, k) =
          >>=-eq-some (add_piece_to_board kind side (convert_to_pos row col) b) _ h in
        place_all-IsReady rest row (col + 1) b1
          (add_piece_to_board-IsReady kind side (convert_to_pos row col) b ready e1) k
    | inr (_, g) ↦ elim (if-eq-some (c == b'/') _ _ g) [
      | inl (_, h) ↦ place_all-IsReady rest (row + 1) 0 b ready h
      | inr (_, h) ↦ elim (if-eq-some (c == b' ') _ _ h) [
        | inl (_, k) ↦ subst IsReady (cc) ready
        | inr (_, k) ↦ place_all-IsReady rest row col b ready k
      ]
    ]
  ]
]

-- Whatever text is loaded on a new board, if loading gives a board at all, the squares and pieces
-- of that board agree, each piece is once in its own player's list and not in the other's, and
-- both players' values are the sums over their pieces.
pub init_from_fen-IsAccounted :
    (fen : List ℕ) {side : Side} {b : Board}
    → init_from_fen fen new_board ≡ some (side, b)
    → IsAccounted b.position
unfolding init_from_fen
init_from_fen-IsAccounted fen {b} e =
    let (placed, e1, f1) = >>=-eq-some (place_all fen 0 0 new_board.position) _ e in
    let ready = place_all-IsReady fen 0 0 new_board.position new_board-IsReady e1 in
    let same : placed ≡ b.position = ap (λ (o : Option (Side × Board)). position_of placed o) f1 in
    subst IsAccounted same ready.accounted
  where
    position_of : Position → Option (Side × Board) → Position
    position_of p none = p
    position_of p (some (s, c)) = c.position
