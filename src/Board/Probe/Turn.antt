-- ===== src/Board/Probe/Turn.antt =====
-- assets/js/board.js: `tryMovePiece`, and `backStep` after `play`.
use cchess.Base.{
  ℕ, ◌≡◌, refl, ap, ◌∙◌, Bool, true, false, Option, none, some, if◌then◌else◌, ◌>>=◌, >>=-eq-some,
  if-eq-some, inl, inr, ap₂,
}
use cchess.Constants.{MoveRes, killed, lore}
use cchess.Geometry.{start_of_move, end_of_move}
use cchess.Board.State.{Board}
use cchess.Board.Rules.{legal_move_piece, will_kill_self_king, will_kill_opp_king}
use cchess.Board.Placed.{IsPlaced}
use cchess.Board.Moves.{
  change_side, make_move, undo_move, add_history_step, play, back_step, get_last_move,
}
use cchess.Board.Undo.{undo_move-make_move, make_move-IsPlaced, make_move-Made}
use cchess.Board.Try.{no_way_to_move, classify, after_safe_move, try_move_piece}
use cchess.Board.Probe.{change_side_twice, undo_move-change_side, no_way_to_move_pure}

classify_pure :
    (mv : ℕ) (b : Board) {res : MoveRes} {back b' : Board}
    → undo_move b ≡ some back
    → classify mv b ≡ some (res, b')
    → b' ≡ back
unfolding classify
classify_pure mv b undone e =
    let (check, e1, f1) = >>=-eq-some (will_kill_opp_king b) _ e in
    let (back, e2, f2) = >>=-eq-some (undo_move b) _ f1 in cc

after_safe_move_pure :
    (mv : ℕ) (made : Board) {res : MoveRes} {back b' : Board}
    → IsPlaced made.position
    → undo_move made ≡ some back
    → after_safe_move mv made ≡ some (res, b')
    → b' ≡ back
unfolding after_safe_move
after_safe_move_pure mv made {res} {back} {b'} placed undone e =
    let (x, e1, f1) = >>=-eq-some (no_way_to_move (change_side made)) _ e in
    let same : x.1 ≡ change_side made =
      no_way_to_move_pure (change_side made) (unfold change_side in placed) e1 in
    by_answer x.0 x.1 same f1
  where
    by_answer :
        (stuck : Bool) (turned : Board)
        → turned ≡ change_side made
        → (if stuck
            then (undo_move turned >>= λ back. some (lore, change_side back))
            else classify mv (change_side turned))
          ≡ some (res, b')
        → b' ≡ back
    by_answer true turned same f =
        let (y, e1, f1) = >>=-eq-some (undo_move turned) _ f in
        let first = undo_move-change_side made undone in
        let twice = change_side_twice back in
        let same' : y ≡ change_side back = cc in
        let end : change_side y ≡ back = ap change_side same' ∙ twice in cc
    by_answer false turned same f = classify_pure mv made undone (rw (same, change_side_twice) at f)

-- From such a position (every piece that a square holds is shown and knows that square), where
-- `tryMovePiece` gives an answer, it leaves the board exactly as it was, whatever the answer.
pub try_move_piece_pure :
    (mv : ℕ) (b : Board) {res : MoveRes} {b' : Board}
    → IsPlaced b.position
    → try_move_piece mv b ≡ some (res, b')
    → b' ≡ b
unfolding try_move_piece
try_move_piece_pure mv b {res} {b'} placed e = by_cell (b.position.cells (start_of_move mv)) refl
  where
    after_move :
        (made : Board)
        → make_move mv b ≡ some made
        → (will_kill_self_king made >>= λ attacked.
            if attacked
            then (undo_move made >>= λ back. some (killed, back))
            else after_safe_move mv made)
          ≡ some (res, b')
        → b' ≡ b
    after_move made e1 f =
        let undone = undo_move-make_move mv b placed e1 in
        let (attacked, e2, f2) = >>=-eq-some (will_kill_self_king made) _ f in
        elim (if-eq-some attacked _ _ f2) [
          | inl (_, g) ↦ let (back, e3, f3) = >>=-eq-some (undo_move made) _ g in cc
          | inr (_, g) ↦ after_safe_move_pure mv made (make_move-IsPlaced mv b placed e1) undone g
        ]

    by_cell : (cell : Option ℕ) → b.position.cells (start_of_move mv) ≡ cell → b' ≡ b
    by_cell none h = let e' = rw (h, try_move_piece) at e in cc
    by_cell (some r) h =
        let (legal, e1, f1) =
          >>=-eq-some (legal_move_piece b.position r (end_of_move mv)) _
            (rw (h, try_move_piece) at e) in
        elim (if-eq-some legal _ _ f1) [
          | inl (_, f) ↦
              let (made, e2, f2) = >>=-eq-some (make_move mv b) _ f in after_move made e2 f2
          | inr (_, f) ↦ cc
        ]

last-make_move :
    (mv : ℕ) (b : Board) {made : Board}
    → make_move mv b ≡ some made
    → get_last_move (change_side made) ≡ mv
unfolding get_last_move change_side add_history_step
last-make_move mv b e = let m = make_move-Made mv b e in rw m.after m.same_mv

-- From a position on which every piece that a square holds is shown and knows that square, if
-- `play` gives a board, `backStep` on it gives back the move and the first board, the side to
-- move included.
pub back_step-play :
    (mv : ℕ) (b : Board) {b' : Board}
    → IsPlaced b.position
    → play mv b ≡ some b'
    → back_step b' ≡ some (mv, b)
unfolding play back_step get_last_move
back_step-play mv b {b'} placed e =
    let (made, e1, f1) = >>=-eq-some (make_move mv b) _ e in
    let m = make_move-Made mv b e1 in
    let undone = undo_move-change_side made (undo_move-make_move mv b placed e1) in
    let same : change_side made ≡ b' = cc in
    rw (← same, undone)
      (ap₂ (λ (last : ℕ) (back : Board). some (last, back)) (last-make_move mv b e1)
        (change_side_twice b))
