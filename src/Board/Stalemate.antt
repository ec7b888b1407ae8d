-- ===== src/Board/Stalemate.antt =====
-- assets/js/board.js: `noWayToMove` and the number 0 that `generateMoves` returns for a piece that is
-- not on the board. `concat` puts that 0 among the moves, and the move 0 changes nothing.
use cchess.Base.{
  ℕ, zero, suc, ◌≡◌, refl, sym, subst, ◌∙◌, ◌⊎◌, inl, inr, Bool, true, false, List, [], ◌∷◌, ◌++◌,
  none, some, if◌then◌else◌, >>=-eq-some, >>=-of,
}
use cchess.Geometry.{start_of_move, end_of_move}
use cchess.Board.State.{Position, Board, player, add_piece, del_piece}
use cchess.Board.Rules.{will_kill_king, will_kill_self_king}
use cchess.Board.Placed.{IsPlaced}
use cchess.Board.Moves.{make_move, undo_move, relocate, probe, add_history_step}
use cchess.Board.Undo.{make_move-Made}
use cchess.Board.Generate.{zero_result, generate_moves}
use cchess.Board.Try.{
  generate_rounds, generate_all_moves_non_check, keep_safe, generate_all_moves, no_way_to_move,
  appended, is_nil,
}
use cchess.Board.Probe.{probe_pure}

abbrev pub Has : ℕ → List ℕ → Type 0
Has x [] = ⊥
Has x (y ∷ ys) = (x ≡ y) ⊎ Has x ys

Has-append : (x : ℕ) (xs ys : List ℕ) → Has x ys → Has x (xs ++ ys)
Has-append x [] ys h = h
Has-append x (z ∷ xs) ys h = inr (Has-append x xs ys h)

-- Some piece of the first sixteen is off the board, or there are fewer than sixteen.
abbrev pub HasLost : Position → ℕ → List ℕ → Type 0
HasLost b zero pieces = ⊥
HasLost b (suc n) [] = Unit
HasLost b (suc n) (r ∷ rest) = ((b.store r).show ≡ false) ⊎ HasLost b n rest

hidden-zero_result :
    (b : Position) (r : ℕ) (c : Bool)
    → (b.store r).show ≡ false
    → generate_moves b (some r) c ≡ some zero_result
unfolding generate_moves
hidden-zero_result b r c h = rw h

-- The 0 of the first piece that is off the board is among the moves.
generate_rounds-Has :
    (n : ℕ) (b : Position) (c : Bool) (pieces : List ℕ) {mvs : List ℕ}
    → HasLost b n pieces
    → generate_rounds n b c pieces ≡ some mvs
    → Has 0 mvs
unfolding generate_rounds generate_moves
generate_rounds-Has zero b c pieces h e = absurd h
generate_rounds-Has (suc n) b c [] {mvs} h e =
    let (rest, e2, f2) = >>=-eq-some (generate_rounds n b c []) _ e in
    let same : mvs ≡ 0 ∷ rest = cc in rw same (inl refl)
generate_rounds-Has (suc n) b c (r ∷ pieces) {mvs} (inl h) e =
    let e' = rw h at e in
    let (rest, e2, f2) = >>=-eq-some (generate_rounds n b c pieces) _ e' in
    let same : mvs ≡ 0 ∷ rest = cc in rw same (inl refl)
generate_rounds-Has (suc n) b c (r ∷ pieces) {mvs} (inr h) e =
    let (g, e1, f1) = >>=-eq-some (generate_moves b (some r) c) _ e in
    let (rest, e2, f2) = >>=-eq-some (generate_rounds n b c pieces) _ f1 in
    let same : mvs ≡ appended g ++ rest = cc in
    rw same (Has-append 0 (appended g) rest (generate_rounds-Has n b c pieces h e2))

del_piece-zero : (b : Position) → b.cells 0 ≡ none → del_piece 0 b ≡ some (none, b)
unfolding del_piece
del_piece-zero b h = rw (h, del_piece)

-- With nothing on square 0 the move 0 moves nothing.
relocate-zero : (b : Position) → b.cells 0 ≡ none → relocate 0 b ≡ some (none, b)
unfolding relocate add_piece start_of_move end_of_move
relocate-zero b h = >>=-of _ (del_piece-zero b h) ∙ >>=-of _ (del_piece-zero b h)

-- So the probe of the move 0 answers whether the own king is attacked already.
probe-zero :
    (b : Board) {attacked : Bool} {back : Board}
    → b.position.cells 0 ≡ none
    → will_kill_self_king b ≡ some false
    → probe 0 will_kill_self_king b ≡ some (attacked, back)
    → attacked ≡ false
unfolding probe will_kill_self_king add_history_step
probe-zero b {attacked} h safe e =
    let (made, e1, f1) = >>=-eq-some (make_move 0 b) _ e in
    let (answer, e2, f2) = >>=-eq-some (will_kill_self_king made) _ f1 in
    let (back, e3, f3) = >>=-eq-some (undo_move made) _ f2 in
    let m = make_move-Made 0 b e1 in
    let stays : m.moved ≡ b.position = cc (relocate-zero b.position h) in
    let at_made : will_kill_king made.position made.cur_side ≡ some false =
      rw (m.after, stays) safe in
    cc

keep_safe-Has :
    (mvs : List ℕ) (b : Board) {safe : List ℕ} {b' : Board}
    → IsPlaced b.position
    → b.position.cells 0 ≡ none
    → will_kill_self_king b ≡ some false
    → Has 0 mvs
    → keep_safe mvs b ≡ some (safe, b')
    → is_nil safe ≡ false
unfolding keep_safe
keep_safe-Has [] b placed h k i e = absurd i
keep_safe-Has (mv ∷ rest) b {safe} placed h k i e =
    let (x, e1, f1) = >>=-eq-some (probe mv will_kill_self_king b) _ e in
    let (y, e2, f2) = >>=-eq-some (keep_safe rest x.1) _ f1 in
    let same : x.1 ≡ b = probe_pure mv will_kill_self_king b placed e1 in
    let kept : safe ≡ (if x.0 then y.0 else mv ∷ y.0) = cc in
    rw kept (
      by_place i x.0 y.0
        (λ at_zero.
          probe-zero b {attacked = x.0} {back = x.1} h k
            (subst (λ m. probe m will_kill_self_king b ≡ some x) (sym at_zero) e1))
        λ later. keep_safe-Has rest b placed h k later (rw same at e2))
  where
    by_place :
        Has 0 (mv ∷ rest)
        → (attacked : Bool) (ys : List ℕ) → (0 ≡ mv → attacked ≡ false)
        → (Has 0 rest → is_nil ys ≡ false)
        → is_nil (if attacked then ys else mv ∷ ys) ≡ false
    by_place (inl z) attacked ys first later = rw (first z)
    by_place (inr l) true ys first later = later l
    by_place (inr l) false ys first later = refl

-- From a position on which every piece that a square holds is shown and knows that square, with
-- square 0 empty, fewer than sixteen pieces of the side to move shown among the first sixteen of
-- its list and its king not attacked, an answer of `noWayToMove` is always false, whether or not
-- the side has a move.
pub no_way_to_move-false :
    (b : Board) {stuck : Bool} {b' : Board}
    → IsPlaced b.position
    → b.position.cells 0 ≡ none
    → HasLost b.position 16 (player b.position b.cur_side).pieces
    → will_kill_self_king b ≡ some false
    → no_way_to_move b ≡ some (stuck, b')
    → stuck ≡ false
unfolding no_way_to_move generate_all_moves generate_all_moves_non_check
no_way_to_move-false b placed h lost k e =
    let (x, e1, f1) = >>=-eq-some (generate_all_moves false b) _ e in
    let (mvs, e2, f2) = >>=-eq-some (generate_all_moves_non_check false b) _ e1 in
    let among =
      generate_rounds-Has 16 b.position false (player b.position b.cur_side).pieces lost e2 in
    let some_left = keep_safe-Has mvs b placed h k among f2 in cc
