-- ===== src/Board/Moves.antt =====
-- assets/js/board.js: making and taking back a move, and the side to move.
use cchess.Base.{ℕ, Bool, false, ◌&&◌, [], ◌∷◌, Option, none, some, if◌then◌else◌, ◌>>=◌, not}
use cchess.Base.Int.{ℤ, pos, ◌+ℤ◌, ◌-ℤ◌}
use cchess.Geometry.{start_of_move, end_of_move}
use cchess.Board.State.{
  Position, Step, Board, player, opponent, same_side, cmp_piece_same_side, add_piece, del_piece,
}
use cchess.Board.Rules.{legal_move_piece, will_kill_self_king, will_kill_king}

-- `changeSide`
unfoldable pub change_side : Board → Board
change_side b = record b { cur_side = opponent b.cur_side }

-- `evaluate`
unfoldable pub evaluate : Board → ℤ
evaluate b =
    (player b.position b.cur_side).value -ℤ (player b.position (opponent b.cur_side)).value +ℤ pos 3

-- `addHistoryStep`
unfoldable pub add_history_step : Step → Board → Board
add_history_step step b = record b {
  cur_step_idx = b.cur_step_idx +ℤ pos 1;
  history = step ∷ b.history;
}

-- `removeLastHistoryStep`; with no step it returns null.
unfoldable pub remove_last_history_step : Board → Option (Step × Board)
remove_last_history_step b = elim b.history [
  | [] ↦ none
  | step ∷ rest ↦ some (step, record b { cur_step_idx = b.cur_step_idx -ℤ pos 1; history = rest })
]

-- What `makeMove` does to the pieces: the piece that stood on the end, and the new position.
unfoldable pub relocate : ℕ → Position → Option (Option ℕ × Position)
relocate mv b = do
  (end_piece, without_end) ← del_piece (end_of_move mv) b
  (piece, without_both) ← del_piece (start_of_move mv) without_end
  moved ← add_piece piece (end_of_move mv) without_both
  some (end_piece, moved)

-- `makeMove`
unfoldable pub make_move : ℕ → Board → Option Board
make_move mv b = do
  (end_piece, moved) ← relocate mv b.position
  in_check ← will_kill_king moved (opponent b.cur_side)
  let step : Step = record { mv = mv; end_piece = end_piece; in_check = in_check; zobrist_key = 0 }
  some (add_history_step step (record b { position = moved }))

-- What `undoMove` does to the pieces.
unfoldable pub relocate_back : ℕ → Option ℕ → Position → Option Position
relocate_back mv end_piece b = do
  (piece, without_end) ← del_piece (end_of_move mv) b
  back ← add_piece piece (start_of_move mv) without_end
  add_piece end_piece (end_of_move mv) back

-- `undoMove`; with no step to take back it throws.
unfoldable pub undo_move : Board → Option Board
undo_move b = do
  (step, rest) ← remove_last_history_step b
  back ← relocate_back step.mv step.end_piece rest.position
  some (record rest { position = back })

-- `makeMove`, a test, `undoMove`.
unfoldable pub probe {ℓ} : {A : Type ℓ} → ℕ → (Board → Option A) → Board → Option (A × Board)
probe mv test b = do
  made ← make_move mv b
  answer ← test made
  back ← undo_move made
  some (answer, back)

-- `legalMove`, up to its probe.
unfoldable pub may_try : Position → ℕ → ℕ → Option Bool
may_try b r dest =
    if (b.store r).show && not (cmp_piece_same_side b r (b.cells dest))
    then legal_move_piece b r dest
    else some false

-- `legalMove`: its answer and the board that it leaves.
unfoldable pub legal_move : ℕ → Board → Option (Bool × Board)
legal_move mv b = elim (b.position.cells (start_of_move mv)) [
  | none ↦ some (false, b)
  | some r ↦
      if same_side (b.position.store r).side b.cur_side
      then (may_try b.position r (end_of_move mv) >>= λ try.
          if try
          then (probe mv will_kill_self_king b >>= λ (killed, back). some (not killed, back))
          else some (false, b))
      else some (false, b)
]

-- `getLastMove`
unfoldable pub get_last_move : Board → ℕ
get_last_move b = elim b.history [ [] ↦ 0 | step ∷ rest ↦ step.mv ]

-- `play`
unfoldable pub play : ℕ → Board → Option Board
play mv b = make_move mv b >>= λ made. some (change_side made)

-- `backStep`: the move that was taken back, and the board.
unfoldable pub back_step : Board → Option (ℕ × Board)
back_step b = undo_move b >>= λ back. some (get_last_move b, change_side back)

-- `isClickSelfPiece`
unfoldable pub is_click_self_piece : ℕ → Board → Bool
is_click_self_piece square b = elim (b.position.cells square) [
  | none ↦ false
  | some r ↦ same_side (b.position.store r).side b.cur_side
]
