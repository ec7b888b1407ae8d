-- ===== src/Board/Try.antt =====
-- assets/js/board.js: all moves of the side to move, `noWayToMove`, `tryMovePiece` and `prompt`.
use cchess.Base.{
  ℕ, zero, suc, Bool, true, false, List, [], ◌∷◌, ◌++◌, Option, none, some, if◌then◌else◌, ◌>>=◌,
}
use cchess.Constants.{MoveRes, regular, capatured, general, illegal, killed, lore}
use cchess.Geometry.{start_of_move, end_of_move}
use cchess.Board.State.{Position, Board, player}
use cchess.Board.Rules.{is_empty, legal_move_piece, will_kill_self_king, will_kill_opp_king}
use cchess.Board.Moves.{change_side, make_move, undo_move, probe, is_click_self_piece}
use cchess.Board.Generate.{Generated, moves, zero_result, generate_moves}

-- What `concat` appends: the elements of an array, or a number.
abbrev pub appended : Generated → List ℕ
appended (moves mvs) = mvs
appended zero_result = 0 ∷ []

-- The loop of `generateAllMovesNonCheck`, with the rounds left and the pieces left; a round past the
-- last piece reads `undefined`.
unfoldable pub generate_rounds : ℕ → Position → Bool → List ℕ → Option (List ℕ)
generate_rounds zero b only_captures pieces = some []
generate_rounds (suc n) b only_captures [] = generate_moves b none only_captures >>= λ g.
    generate_rounds n b only_captures [] >>= λ rest. some (appended g ++ rest)
generate_rounds (suc n) b only_captures (r ∷ pieces) =
    generate_moves b (some r) only_captures >>= λ g.
    generate_rounds n b only_captures pieces >>= λ rest. some (appended g ++ rest)

-- `generateAllMovesNonCheck`
unfoldable pub generate_all_moves_non_check : Bool → Board → Option (List ℕ)
generate_all_moves_non_check only_captures b =
    generate_rounds 16 b.position only_captures (player b.position b.cur_side).pieces

-- The loop of `generateAllMoves` and of `prompt`: the moves after which the own king is safe.
unfoldable pub keep_safe : List ℕ → Board → Option (List ℕ × Board)
keep_safe [] b = some ([], b)
keep_safe (mv ∷ rest) b = do
  (attacked, back) ← probe mv will_kill_self_king b
  (safe, last) ← keep_safe rest back
  some ((if attacked then safe else mv ∷ safe), last)

-- `generateAllMoves`
unfoldable pub generate_all_moves : Bool → Board → Option (List ℕ × Board)
generate_all_moves only_captures b =
    generate_all_moves_non_check only_captures b >>= λ mvs. keep_safe mvs b

abbrev pub is_nil : List ℕ → Bool
is_nil [] = true
is_nil (mv ∷ mvs) = false

-- `noWayToMove`
unfoldable pub no_way_to_move : Board → Option (Bool × Board)
no_way_to_move b = generate_all_moves false b >>= λ (mvs, back). some (is_nil mvs, back)

-- The last part of `tryMovePiece`: with the move made and the opponent not stuck, is it a check, a
-- capture or neither?
unfoldable pub classify : ℕ → Board → Option (MoveRes × Board)
classify mv b = do
  check ← will_kill_opp_king b
  back ← undo_move b
  some (
    (if check
        then general
        else (if is_empty (back.position.cells (end_of_move mv)) then regular else capatured)),
    back,
  )

-- `tryMovePiece` from the point where the move is made and leaves the own king safe.
unfoldable pub after_safe_move : ℕ → Board → Option (MoveRes × Board)
after_safe_move mv made = no_way_to_move (change_side made) >>= λ (stuck, turned).
    if stuck
    then (undo_move turned >>= λ back. some (lore, change_side back))
    else classify mv (change_side turned)

-- `tryMovePiece`: the kind of the move, and the board that it leaves.
unfoldable pub try_move_piece : ℕ → Board → Option (MoveRes × Board)
try_move_piece mv b = elim (b.position.cells (start_of_move mv)) [
  | none ↦ some (illegal, b)
  | some r ↦ legal_move_piece b.position r (end_of_move mv) >>= λ legal.
      if legal
      then (make_move mv b >>= λ made. will_kill_self_king made >>= λ attacked.
          if attacked
          then (undo_move made >>= λ back. some (killed, back))
          else after_safe_move mv made)
      else some (illegal, b)
]

-- `prompt`: a hidden piece, for which `generateMoves` returns 0, gives no moves.
abbrev pub prompted : Generated → List ℕ
prompted (moves mvs) = mvs
prompted zero_result = []

unfoldable pub prompt : ℕ → Board → Option (List ℕ × Board)
prompt square b =
    if is_click_self_piece square b
    then (generate_moves b.position (b.position.cells square) false >>= λ g.
        keep_safe (prompted g) b)
    else some ([], b)
