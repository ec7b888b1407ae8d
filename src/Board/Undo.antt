-- ===== src/Board/Undo.antt =====
-- assets/js/board.js: `undoMove` after `makeMove`.
use cchess.Base.{ℕ, ◌≡◌, ◌≢◌, refl, ap, ◌∙◌, arith, Option, none, some, ==_iff, >>=-eq-some, >>=-of}
use cchess.Base.Int.{pos, add-sub_cancel}
use cchess.Geometry.{start_of_move, end_of_move}
use cchess.Board.State.{
  Position, Step, Board, add_piece, del_piece, with_piece, with_piece, without_piece, opponent,
}
use cchess.Board.Rules.{will_kill_king}
use cchess.Board.Placed.{
  add_piece-eq, cells-with_piece, store-with_piece, IsPlaced, Deleted, nothing, removes,
  del_piece-Deleted, add_piece-del_piece, del_piece-add_piece, cells-without_piece,
  store-without_piece,
}
use cchess.Board.Moves.{
  relocate, relocate_back, make_move, undo_move, add_history_step, remove_last_history_step,
}

-- A square from which a piece was taken is empty, and stays so when another is emptied.
pub del_piece-empties :
    (square : ℕ) (b : Position) {o : Option ℕ} {b' : Position}
    → Deleted square b o b'
    → b'.cells square ≡ none
del_piece-empties square b (nothing h g e) = rw e h
del_piece-empties square b (removes r v m) =
    rw (m.after, cells-without_piece b (b.store r).side r square v)
      (ground (arith, ==_iff square square))

pub del_piece-keeps_empty :
    (square other : ℕ) (b : Position) {o : Option ℕ} {b' : Position}
    → Deleted square b o b'
    → b.cells other ≡ none
    → b'.cells other ≡ none
del_piece-keeps_empty square other b (nothing h g e) empty = rw e empty
del_piece-keeps_empty square other b (removes r v m) empty =
    rw (m.after, cells-without_piece b (b.store r).side r square v)
      (ground (arith, ==_iff square other))

pub del_piece-IsPlaced :
    (square : ℕ) (b : Position) {o : Option ℕ} {b' : Position}
    → IsPlaced b
    → Deleted square b o b'
    → IsPlaced b'
del_piece-IsPlaced square b placed (nothing h g e) = rw e placed
del_piece-IsPlaced square b placed (removes r v m) = rw m.after kept
  where
    kept : IsPlaced (without_piece b (b.store r).side r square v)
    kept p s =
        rw
          (
            cells-without_piece b (b.store r).side r square v,
            store-without_piece b (b.store r).side r square v,
          )
          λ h. ground (arith, ==_iff square p, ==_iff r s, placed p s, placed square r m.found)

-- The three parts of `relocate`, with the positions between them.
pub record Relocated (mv : ℕ) (b : Position) (o : Option ℕ) (b' : Position) : Type 0 where
  pub without_end : Position
  pub piece : Option ℕ
  pub without_both : Position
  pub first : Deleted (end_of_move mv) b o without_end
  pub second : Deleted (start_of_move mv) without_end piece without_both
  pub third : add_piece piece (end_of_move mv) without_both ≡ some b'

pub relocate-Relocated :
    (mv : ℕ) (b : Position) {o : Option ℕ} {b' : Position}
    → relocate mv b ≡ some (o, b')
    → Relocated mv b o b'
unfolding relocate
relocate-Relocated mv b {o} {b'} e =
    let (x, e1, f1) = >>=-eq-some (del_piece (end_of_move mv) b) _ e in
    let (y, e2, f2) = >>=-eq-some (del_piece (start_of_move mv) x.1) _ f1 in
    let (z, e3, f3) = >>=-eq-some (add_piece y.0 (end_of_move mv) y.1) _ f2 in
    let same : x.0 ≡ o = cc in
    record {
      without_end = x.1;
      piece = y.0;
      without_both = y.1;
      first = rw (← same) (del_piece-Deleted (end_of_move mv) b e1);
      second = del_piece-Deleted (start_of_move mv) x.1 e2;
      third = cc;
    }

-- The pieces are put back as they stood, whatever the two squares held.
pub relocate_back-relocate :
    (mv : ℕ) (b : Position) {o : Option ℕ} {b' : Position}
    → IsPlaced b
    → Relocated mv b o b'
    → relocate_back mv o b' ≡ some b
unfolding relocate_back
relocate_back-relocate mv b {o} placed m =
    let empty =
      del_piece-keeps_empty (start_of_move mv) (end_of_move mv) m.without_end m.second
        (del_piece-empties (end_of_move mv) b m.first) in
    let (b'', taken, again) =
      del_piece-add_piece m.piece (end_of_move mv) m.without_both empty m.third in
    let returned =
      again (start_of_move mv)
      ∙ add_piece-del_piece (start_of_move mv) m.without_end
          (del_piece-IsPlaced (end_of_move mv) b placed m.first) m.second in
    >>=-of _ taken ∙ >>=-of _ returned ∙ add_piece-del_piece (end_of_move mv) b placed m.first

-- What `makeMove` did where it gives a result.
pub record Made (mv : ℕ) (b b' : Board) : Type 0 where
  pub step : Step
  pub moved : Position
  pub relocated : relocate mv b.position ≡ some (step.end_piece, moved)
  pub checked : will_kill_king moved (opponent b.cur_side) ≡ some step.in_check
  pub same_mv : step.mv ≡ mv
  pub after : b' ≡ add_history_step step (record b { position = moved })

pub make_move-Made : (mv : ℕ) (b : Board) {b' : Board} → make_move mv b ≡ some b' → Made mv b b'
unfolding make_move
make_move-Made mv b e =
    let (x, e1, f1) = >>=-eq-some (relocate mv b.position) _ e in
    let (c, e2, f2) = >>=-eq-some (will_kill_king x.1 (opponent b.cur_side)) _ f1 in
    record {
      step = record { mv = mv; end_piece = x.0; in_check = c; zobrist_key = 0 };
      moved = x.1;
      relocated = e1;
      checked = e2;
      same_mv = refl;
      after = cc;
    }

-- From a position on which every piece that a square holds is shown and knows that square, if
-- `makeMove` gives a board, then `undoMove` of that board gives the first one back, whole: the
-- pieces, both players' values, the history and the side to move. The move need not be legal, and
-- may start or end anywhere.
pub undo_move-make_move :
    (mv : ℕ) (b : Board) {b' : Board}
    → IsPlaced b.position
    → make_move mv b ≡ some b'
    → undo_move b' ≡ some b
unfolding undo_move remove_last_history_step add_history_step
undo_move-make_move mv b placed e =
    let m = make_move-Made mv b e in
    let back =
      relocate_back-relocate mv b.position placed (relocate-Relocated mv b.position m.relocated) in
    rw (m.after, m.same_mv, back)
      (ap some (λ i. record b { cur_step_idx = add-sub_cancel b.cur_step_idx (pos 1) i }))

-- A piece that was taken off stands nowhere else.
pub del_piece-absent :
    (square : ℕ) (b : Position) {r : ℕ} {b' : Position}
    → IsPlaced b
    → Deleted square b (some r) b'
    → (p : ℕ) → b'.cells p ≢ some r
del_piece-absent square b placed (nothing h g e) p = cc
del_piece-absent square b {r} placed (removes s v m) p =
    rw (m.after, cells-without_piece b (b.store s).side s square v)
      λ h. ground (arith, ==_iff square p, placed p r, placed square s m.found, m.given)

pub add_piece-IsPlaced :
    (r square : ℕ) (b : Position) {b' : Position}
    → IsPlaced b
    → ((p : ℕ) → b.cells p ≢ some r)
    → add_piece (some r) square b ≡ some b'
    → IsPlaced b'
add_piece-IsPlaced r square b placed absent e =
    let (v, w, h) = add_piece-eq r square b e in rw h (kept v)
  where
    kept : (v : ℕ) → IsPlaced (with_piece b (b.store r).side r square v)
    kept v p s =
        rw
          (
            cells-with_piece b (b.store r).side r square v,
            store-with_piece b (b.store r).side r square v,
          )
          λ h. ground (arith, ==_iff square p, ==_iff r s, placed p s, absent p)

relocate-IsPlaced :
    (mv : ℕ) (b : Position) {o : Option ℕ} {b' : Position}
    → IsPlaced b
    → Relocated mv b o b'
    → IsPlaced b'
relocate-IsPlaced mv b {o} {b'} placed m = by_piece m.piece m.second m.third
  where
    before : IsPlaced m.without_end
    before = del_piece-IsPlaced (end_of_move mv) b placed m.first

    by_piece :
        (piece : Option ℕ)
        → Deleted (start_of_move mv) m.without_end piece m.without_both
        → add_piece piece (end_of_move mv) m.without_both ≡ some b'
        → IsPlaced b'
    by_piece none d e =
        let same : b' ≡ m.without_both = unfold add_piece in cc in
        rw same (del_piece-IsPlaced (start_of_move mv) m.without_end before d)
    by_piece (some r) d e =
        add_piece-IsPlaced r (end_of_move mv) m.without_both
          (del_piece-IsPlaced (start_of_move mv) m.without_end before d)
          (del_piece-absent (start_of_move mv) m.without_end before d) e

-- Making any move keeps the squares and the pieces in agreement.
pub make_move-IsPlaced :
    (mv : ℕ) (b : Board) {b' : Board}
    → IsPlaced b.position
    → make_move mv b ≡ some b'
    → IsPlaced b'.position
unfolding add_history_step
make_move-IsPlaced mv b placed e =
    let m = make_move-Made mv b e in
    rw m.after
      (relocate-IsPlaced mv b.position placed (relocate-Relocated mv b.position m.relocated))
