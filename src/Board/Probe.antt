-- ===== src/Board/Probe.antt =====
-- assets/js/board.js: `generateAllMoves`, `noWayToMove`, `prompt` and `legalMove`, which look at the
-- board by making moves on it and taking them back.
pub mod Turn
use cchess.Base.{
  ℕ, ◌≡◌, refl, ap, ◌∙◌, arith, Bool, true, false, not, List, [], ◌∷◌, Option, none, some,
  if◌then◌else◌, ◌>>=◌, >>=-eq-some, if-eq-some, inl, inr, ap₂,
}
use cchess.Constants.{MoveRes, killed, lore}
use cchess.Geometry.{start_of_move, end_of_move}
use cchess.Board.State.{Board, same_side}
use cchess.Board.Rules.{legal_move_piece, will_kill_self_king, will_kill_opp_king}
use cchess.Board.Placed.{IsPlaced}
use cchess.Board.Moves.{
  change_side, make_move, undo_move, remove_last_history_step, probe, legal_move, may_try,
  add_history_step, play, back_step, get_last_move, is_click_self_piece,
}
use cchess.Board.Undo.{undo_move-make_move, make_move-IsPlaced, make_move-Made}
use cchess.Board.Generate.{generate_moves}
use cchess.Board.Try.{
  generate_all_moves_non_check, keep_safe, generate_all_moves, no_way_to_move, classify,
  after_safe_move, try_move_piece, prompt, prompted,
}

pub change_side_twice : (b : Board) → change_side (change_side b) ≡ b
unfolding change_side
change_side_twice b = ground arith

-- Taking a move back does not look at whose turn it is.
pub undo_move-change_side :
    (b : Board) {b' : Board}
    → undo_move b ≡ some b'
    → undo_move (change_side b) ≡ some (change_side b')
unfolding undo_move change_side remove_last_history_step
undo_move-change_side b e = ground arith

module _ {ℓ} {A : Type ℓ} (mv : ℕ) (test : Board → Option A) (b : Board)
    (placed : IsPlaced b.position) where
  pub probe_pure : {a : A} {b' : Board} → probe mv test b ≡ some (a, b') → b' ≡ b
  unfolding probe
  probe_pure e =
      let (made, e1, f1) = >>=-eq-some (make_move mv b) _ e in
      let (answer, e2, f2) = >>=-eq-some (test made) _ f1 in
      let (back, e3, f3) = >>=-eq-some (undo_move made) _ f2 in
      let same = undo_move-make_move mv b placed e1 in cc

pub keep_safe_pure :
    (mvs : List ℕ) (b : Board) {safe : List ℕ} {b' : Board}
    → IsPlaced b.position
    → keep_safe mvs b ≡ some (safe, b')
    → b' ≡ b
unfolding keep_safe
keep_safe_pure [] b placed e = cc
keep_safe_pure (mv ∷ rest) b {safe} {b'} placed e =
    let (x, e1, f1) = >>=-eq-some (probe mv will_kill_self_king b) _ e in
    let (y, e2, f2) = >>=-eq-some (keep_safe rest x.1) _ f1 in
    let same : x.1 ≡ b = probe_pure mv will_kill_self_king b placed e1 in
    let tail : y.1 ≡ b = keep_safe_pure rest b placed (rw same at e2) in cc

-- From a position on which every piece that a square holds is shown and knows that square, where
-- `generateAllMoves` gives its moves, it leaves the board as it was.
pub generate_all_moves_pure :
    (only_captures : Bool) (b : Board) {mvs : List ℕ} {b' : Board}
    → IsPlaced b.position
    → generate_all_moves only_captures b ≡ some (mvs, b')
    → b' ≡ b
unfolding generate_all_moves
generate_all_moves_pure only_captures b placed e =
    let (mvs, e1, f1) = >>=-eq-some (generate_all_moves_non_check only_captures b) _ e in
    keep_safe_pure mvs b placed f1

-- From a position on which every piece that a square holds is shown and knows that square, where
-- `noWayToMove` answers, it leaves the board as it was.
pub no_way_to_move_pure :
    (b : Board) {stuck : Bool} {b' : Board}
    → IsPlaced b.position
    → no_way_to_move b ≡ some (stuck, b')
    → b' ≡ b
unfolding no_way_to_move
no_way_to_move_pure b placed e =
    let (x, e1, f1) = >>=-eq-some (generate_all_moves false b) _ e in
    let same : x.1 ≡ b = generate_all_moves_pure false b placed e1 in cc

-- From a position on which every piece that a square holds is shown and knows that square, where
-- `prompt` gives its moves, it leaves the board as it was.
pub prompt_pure :
    (square : ℕ) (b : Board) {mvs : List ℕ} {b' : Board}
    → IsPlaced b.position
    → prompt square b ≡ some (mvs, b')
    → b' ≡ b
unfolding prompt
prompt_pure square b {mvs} {b'} placed e = by_click (is_click_self_piece square b) refl
  where
    by_click : (click : Bool) → is_click_self_piece square b ≡ click → b' ≡ b
    by_click true h =
        let (g, e1, f1) =
          >>=-eq-some (generate_moves b.position (b.position.cells square) false) _
            (rw (h, prompt) at e) in
        keep_safe_pure (prompted g) b placed f1
    by_click false h = let e' = rw (h, prompt) at e in cc

-- From a position on which every piece that a square holds is shown and knows that square, where
-- `legalMove` answers, it leaves the board as it was.
legal_move_pure :
    (mv : ℕ) (b : Board) {legal : Bool} {b' : Board}
    → IsPlaced b.position
    → legal_move mv b ≡ some (legal, b')
    → b' ≡ b
unfolding legal_move
legal_move_pure mv b {legal} {b'} placed e = by_cell (b.position.cells (start_of_move mv)) refl
  where
    answered : Option (Bool × Board)
    answered = probe mv will_kill_self_king b >>= λ (attacked, back). some (not attacked, back)

    after_probe : answered ≡ some (legal, b') → b' ≡ b
    after_probe f =
        let (x, e1, f1) = >>=-eq-some (probe mv will_kill_self_king b) _ f in
        let same : x.1 ≡ b = probe_pure mv will_kill_self_king b placed e1 in cc

    by_try : (try : Bool) → (if try then answered else some (false, b)) ≡ some (legal, b') → b' ≡ b
    by_try true f = after_probe f
    by_try false f = cc

    by_cell : (cell : Option ℕ) → b.position.cells (start_of_move mv) ≡ cell → b' ≡ b
    by_cell none h = let e' = rw (h, legal_move) at e in cc
    by_cell (some r) h =
        elim (if-eq-some (same_side (b.position.store r).side b.cur_side) _ _
          (rw (h, legal_move) at e)) [
            | inl (own, f) ↦
                let (try, e1, f1) = >>=-eq-some (may_try b.position r (end_of_move mv)) _ f in
                by_try try f1
            | inr (other, f) ↦ cc
          ]
