-- ===== src/Board/Game.antt =====
-- assets/js/board.js: the boards of a game. A game puts pieces on a new board, and then plays moves
-- and takes them back.
use cchess.Base.{ℕ, ◌≡◌, ◌≢◌, refl, subst, some, length, >>=-eq-some}
use cchess.Base.Int.{pos, ◌+ℤ◌, ◌-ℤ◌, int_laws}
use cchess.Board.State.{Board, opponent}
use cchess.Board.Moves.{change_side, evaluate, make_move, play, back_step, add_history_step}
use cchess.Board.Undo.{make_move-Made}
use cchess.Board.Probe.Turn.{back_step-play}
use cchess.Board.Value.Books.{IsAccounted, make_move-IsAccounted, material, evaluate-material}

-- The boards that `play` and `backStep` lead to from a first one, whose own history is not taken
-- back.
pub data Game (first : Board) : Board → Type 0 where
  start : Game first first
  played : (mv : ℕ) {b b' : Board} → Game first b → play mv b ≡ some b' → Game first b'
  taken_back :
      (mv : ℕ) {b b' : Board}
      → Game first b
      → length b.history ≢ length first.history
      → back_step b ≡ some (mv, b')
      → Game first b'

-- The boards reached by moves alone.
pub data Line (first : Board) : Board → Type 0 where
  start : Line first first
  step : (mv : ℕ) {b b' : Board} → Line first b → play mv b ≡ some b' → Line first b'

pub play-IsAccounted :
    (mv : ℕ) (b : Board) {b' : Board}
    → IsAccounted b.position
    → play mv b ≡ some b'
    → IsAccounted b'.position
unfolding play change_side
play-IsAccounted mv b {b'} a e =
    let (made, e1, f1) = >>=-eq-some (make_move mv b) _ e in
    let same : change_side made ≡ b' = cc in
    subst (λ c. IsAccounted c.position) same (make_move-IsAccounted mv b a e1)

pub Line-IsAccounted :
    {first b : Board} → IsAccounted first.position → Line first b → IsAccounted b.position
Line-IsAccounted a start = a
Line-IsAccounted a (step mv {b} line e) = play-IsAccounted mv b (Line-IsAccounted a line) e

-- A board that moves led to and whose last move is taken back was itself reached by moves.
back-Line :
    {first b : Board} (mv : ℕ) {b' : Board}
    → IsAccounted first.position
    → Line first b
    → length b.history ≢ length first.history
    → back_step b ≡ some (mv, b')
    → Line first b'
back-Line mv a start ne e = absurd (ne refl)
back-Line mv {b'} a (step mv0 {b = before} line e0) ne e =
    let exact = back_step-play mv0 before (Line-IsAccounted a line).placed e0 in
    let same : before ≡ b' = cc in subst (Line _) same line

-- On a first board whose position is accounted for, every board of a game, in which moves are
-- played and taken back in any order, is reached from the first one by playing moves alone: a
-- move taken back leaves nothing behind.
pub Game-Line : {first b : Board} → IsAccounted first.position → Game first b → Line first b
Game-Line a start = start
Game-Line a (played mv game e) = step mv (Game-Line a game) e
Game-Line a (taken_back mv game ne e) = back-Line mv a (Game-Line a game) ne e

-- On every board of a game that began on a position that is accounted for, `evaluate` is the sum
-- of the table's values over the pieces that the side to move has on the board, less the other
-- side's, plus 3.
pub evaluate-Game :
    {first b : Board}
    → IsAccounted first.position
    → Game first b
    → evaluate b
      ≡ pos (material b.position b.cur_side)
        -ℤ pos (material b.position (opponent b.cur_side))
        +ℤ pos 3
evaluate-Game {b} a game = evaluate-material b (Line-IsAccounted a (Game-Line a game))

-- The counter of steps is the length of the history.
abbrev pub IsCounted : Board → Type 0
IsCounted b = b.cur_step_idx ≡ pos (length b.history)

play-IsCounted :
    (mv : ℕ) (b : Board) {b' : Board} → IsCounted b → play mv b ≡ some b' → IsCounted b'
unfolding play change_side add_history_step
play-IsCounted mv b {b'} c e =
    let (made, e1, f1) = >>=-eq-some (make_move mv b) _ e in
    let m = make_move-Made mv b e1 in
    let same : change_side made ≡ b' = cc in subst IsCounted same (rw (m.after, c) (omega int_laws))

Line-IsCounted : {first b : Board} → IsCounted first → Line first b → IsCounted b
Line-IsCounted c start = c
Line-IsCounted c (step mv {b} line e) = play-IsCounted mv b (Line-IsCounted c line) e

-- On every board of a game that began on a position that is accounted for, the counter of steps
-- is the length of the history, if it was at first.
Game-IsCounted :
    {first b : Board} → IsAccounted first.position → IsCounted first → Game first b → IsCounted b
Game-IsCounted a c game = Line-IsCounted c (Game-Line a game)
