-- ===== src/Fen/RoundTrip.antt =====
-- assets/js/board.js and assets/js/chinese_chess.js: the board that is set up from the text of a board.
use cchess.Base.{
  ℕ, ◌<◌, ◌≡◌, refl, ap, ◌∙◌, arith, Bool, true, false, List, [], ◌∷◌, ◌++◌, Option, none, some,
  if◌then◌else◌, >>=-of, All, holds_below, holds_below-at,
}
use cchess.Constants.{Side, red, black, PieceType}
use cchess.Geometry.{convert_to_pos, in_board}
use cchess.Board.State.{Board, new_board}
use cchess.Board.Setup.{new_board-IsReady}
use cchess.Fen.{shown_at, rows_to_fen, to_fen, side_to_move, init_from_fen, place_all}
use cchess.Fen.Loading.{rows_squares, load, scan, load-rows, board_step, no_step, place_all-load}
use cchess.Fen.Scanned.{seen_man, or_else, listed, scan-seen}

-- All squares that `toFen` reads, and no others, are those of the board.
pub board_squares : List ℕ
board_squares = rows_squares 10 0

same_test : Bool → Bool → Bool
same_test true b = b
same_test false b = if b then false else true

listed-board_squares : (p : ℕ) → p < 256 → listed p board_squares ≡ in_board p
unfolding in_board convert_to_pos same_test holds_below board_squares
listed-board_squares p h =
    sound (listed p board_squares) (in_board p)
      (holds_below-at (λ q. same_test (listed q board_squares) (in_board q)) p h runs)
  where
    sound : (a b : Bool) → same_test a b ≡ true → a ≡ b
    sound true true e = refl
    sound true false e = cc
    sound false true e = cc
    sound false false e = refl

    runs : holds_below (λ q. same_test (listed q board_squares) (in_board q)) 256 ≡ true
    runs = refl

board_squares-small : All (λ q. q < 255) board_squares
unfolding convert_to_pos board_squares
board_squares-small = omega arith

side_to_move-last :
    (text : List ℕ) (c d : ℕ) → side_to_move (text ++ c ∷ d ∷ []) ≡ side_to_move (d ∷ [])
unfolding side_to_move
side_to_move-last [] c d = refl
side_to_move-last (x ∷ []) c d = refl
side_to_move-last (x ∷ y ∷ text) c d = side_to_move-last (y ∷ text) c d

side_to_move-to_fen :
    (side : Side) (b : Board) → side_to_move (to_fen (record b { cur_side = side })) ≡ side
unfolding to_fen side_to_move
side_to_move-to_fen red b = side_to_move-last (rows_to_fen 10 b.position 0) b' ' b'w'
side_to_move-to_fen black b = side_to_move-last (rows_to_fen 10 b.position 0) b' ' b'b'

-- The text of a board, read in any way, takes in its squares.
pub load-to_fen {ℓ} :
    {S : Type ℓ} (step : Side → PieceType → ℕ → S → Option S) (unknown : Side → ℕ → S → Option S)
    (b : Board) (s : S)
    → load step unknown (to_fen b) 0 0 s ≡ scan step unknown b.position board_squares s
unfolding to_fen board_squares
load-to_fen step unknown b s = load-rows step unknown b.position 9 0 _ s

-- For every board, `toFen` gives a text that `initFromFen` loads on a new board: it gives the
-- side to move, and a board on which every square of the board shows a piece of the same side and
-- type, or none, as before, and nothing is shown on the other squares of the array.
pub init_from_fen-to_fen :
    (b : Board)
    → (b' : Board) × (init_from_fen (to_fen b) new_board ≡ some (b.cur_side, b'))
      × ((p : ℕ)
          → p < 256
          → seen_man b'.position p ≡ (if in_board p then seen_man b.position p else none))
unfolding init_from_fen shown_at in_board
init_from_fen-to_fen b =
    let (s, made, ready, seen) =
      scan-seen b.position board_squares new_board.position board_squares-small new_board-IsReady in
    let placed : place_all (to_fen b) 0 0 new_board.position ≡ some s =
      place_all-load (to_fen b) 0 0 new_board.position
      ∙ load-to_fen board_step no_step b new_board.position
      ∙ made in
    (
      record new_board { position = s },
      >>=-of _ placed
          ∙ ap (λ (side : Side). some (side, record new_board { position = s }))
              (side_to_move-to_fen b.cur_side b),
      λ p h.
          seen p
          ∙ ap (λ (t : Bool). if t then or_else (seen_man b.position p) none else none)
              (listed-board_squares p h)
          ∙ ap (λ (m : Option (Side × PieceType)). if in_board p then m else none)
              (tidy (seen_man b.position p)),
    )
  where
    tidy : (m : Option (Side × PieceType)) → or_else m none ≡ m
    tidy none = refl
    tidy (some x) = refl
