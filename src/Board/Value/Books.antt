-- ===== src/Board/Value/Books.antt =====
-- assets/js/board.js: `makeMove`, `evaluate` and the running values of both players.
use cchess.Base.{
  ℕ, ◌≡◌, ◌≢◌, refl, arith, Bool, true, false, Option, none, some, ◌==◌, ==_iff, if◌then◌else◌,
}
use cchess.Base.Int.{pos, ◌+ℤ◌, ◌-ℤ◌}
use cchess.Constants.{Side, red, black}
use cchess.Geometry.{start_of_move, end_of_move}
use cchess.Board.State.{
  Piece, Position, Board, player, opponent, update, with_piece, without_piece, add_piece,
}
use cchess.Board.Placed.{
  IsPlaced, Deleted, nothing, removes, add_piece-eq, cells-without_piece, store-without_piece,
  cells-with_piece, store-with_piece,
}
use cchess.Board.Undo.{
  Relocated, relocate-Relocated, make_move-Made, del_piece-IsPlaced, del_piece-absent,
  add_piece-IsPlaced,
}
use cchess.Board.Moves.{evaluate, make_move, add_history_step}
use cchess.Board.Value.{IsBalanced, IsOwned, without_piece-IsBalanced, with_piece-IsBalanced}
use cchess.Board.Value.Sums.{total, shown_worth-shown}

-- Squares and pieces agree, each piece on the board is its player's, and both players' values are
-- the sums over their pieces.
pub record IsAccounted (b : Position) : Type 0 where
  pub placed : IsPlaced b
  pub owned : (square r : ℕ) → b.cells square ≡ some r → IsOwned b r
  pub balanced : (s : Side) → IsBalanced b s

side-update :
    (store : ℕ → Piece) (r s : ℕ) (p : Piece)
    → p.side ≡ (store r).side
    → (update store r p s).side ≡ (store s).side
side-update store r s p h = ground (arith, ==_iff r s)

pieces-with_piece :
    (b : Position) (side s : Side) (r square v : ℕ)
    → (player (with_piece b side r square v) s).pieces ≡ (player b s).pieces
pieces-with_piece b red red r square v = refl
pieces-with_piece b red black r square v = refl
pieces-with_piece b black red r square v = refl
pieces-with_piece b black black r square v = refl

pieces-without_piece :
    (b : Position) (side s : Side) (r square v : ℕ)
    → (player (without_piece b side r square v) s).pieces ≡ (player b s).pieces
pieces-without_piece b red red r square v = refl
pieces-without_piece b red black r square v = refl
pieces-without_piece b black red r square v = refl
pieces-without_piece b black black r square v = refl

with_piece-IsOwned :
    (b : Position) (side : Side) (r square v s : ℕ)
    → IsOwned b s
    → IsOwned (with_piece b side r square v) s
with_piece-IsOwned b side r square v s owned =
    rw
      (
        store-with_piece b side r square v,
        side-update b.store r s (record (b.store r) { show = true; square = square }) refl,
        pieces-with_piece b side (b.store s).side r square v,
        pieces-with_piece b side (opponent (b.store s).side) r square v,
      )
      owned

without_piece-IsOwned :
    (b : Position) (side : Side) (r square v s : ℕ)
    → IsOwned b s
    → IsOwned (without_piece b side r square v) s
without_piece-IsOwned b side r square v s owned =
    rw
      (
        store-without_piece b side r square v,
        side-update b.store r s (record (b.store r) { show = false }) refl,
        pieces-without_piece b side (b.store s).side r square v,
        pieces-without_piece b side (opponent (b.store s).side) r square v,
      )
      owned

cells_of-without_piece :
    (b : Position) (side : Side) (r square v p s : ℕ)
    → (without_piece b side r square v).cells p ≡ some s
    → b.cells p ≡ some s
cells_of-without_piece b side r square v p s =
    rw (cells-without_piece b side r square v) λ h. ground arith

-- Taking a piece off, and putting one back that is off.
del_piece-IsAccounted :
    (square : ℕ) (b : Position) {o : Option ℕ} {b' : Position}
    → IsAccounted b
    → Deleted square b o b'
    → IsAccounted b'
del_piece-IsAccounted square b a (nothing h g e) = rw e a
del_piece-IsAccounted square b {b'} a (removes r v m) =
    let side = (b.store r).side in
    let owned = a.owned square r m.found in
    let (at_square, shown) = a.placed square r m.found in
    record {
      placed = del_piece-IsPlaced square b a.placed (removes r v m);
      owned = λ p s h. rw m.after (
          without_piece-IsOwned b side r square v s
            (a.owned p s (cells_of-without_piece b side r square v p s (rw m.after at h))));
      balanced = λ s. rw m.after (
          without_piece-IsBalanced b r square v owned
            (shown_worth-shown (b.store r) v shown m.worth) s (a.balanced s));
    }

taken-IsOwned :
    (square : ℕ) (b : Position) {r : ℕ} {b' : Position}
    → IsAccounted b
    → Deleted square b (some r) b'
    → IsOwned b' r × ((b'.store r).show ≡ false)
taken-IsOwned square b a (nothing h g e) = cc
taken-IsOwned square b {r} a (removes s v m) =
    let same : s ≡ r = cc m.given in
    let side = (b.store s).side in
    rw (m.after, ← same)
      (
        without_piece-IsOwned b side s square v s (a.owned square s m.found),
        rw (store-without_piece b side s square v) (ground (arith, ==_iff s s)),
      )

add_piece-IsAccounted :
    (r square : ℕ) (b : Position) {b' : Position}
    → IsAccounted b
    → IsOwned b r
    → (b.store r).show ≡ false
    → ((p : ℕ) → b.cells p ≢ some r)
    → add_piece (some r) square b ≡ some b'
    → IsAccounted b'
add_piece-IsAccounted r square b a owned off absent e =
    let (v, worth, after) = add_piece-eq r square b e in
    let side = (b.store r).side in
    record {
      placed = add_piece-IsPlaced r square b a.placed absent e;
      owned = λ p s h. rw after (
          with_piece-IsOwned b side r square v s
            (owned_at v p s (rw (after, cells-with_piece b side r square v) at h)));
      balanced =
          λ s. rw after (with_piece-IsBalanced b r square v owned off worth s (a.balanced s));
    }
  where
    owned_at : (v p s : ℕ) → update b.cells square (some r) p ≡ some s → IsOwned b s
    owned_at v p s h = by_square (square == p) h
      where
        by_square : (t : Bool) → (if t then some r else b.cells p) ≡ some s → IsOwned b s
        by_square true h = let same : r ≡ s = cc in rw (← same) owned
        by_square false h = a.owned p s h

relocate-IsAccounted :
    (mv : ℕ) (b : Position) {o : Option ℕ} {b' : Position}
    → IsAccounted b
    → Relocated mv b o b'
    → IsAccounted b'
relocate-IsAccounted mv b {o} {b'} a m = by_piece m.piece m.second m.third
  where
    before : IsAccounted m.without_end
    before = del_piece-IsAccounted (end_of_move mv) b a m.first

    by_piece :
        (piece : Option ℕ)
        → Deleted (start_of_move mv) m.without_end piece m.without_both
        → add_piece piece (end_of_move mv) m.without_both ≡ some b'
        → IsAccounted b'
    by_piece none d e =
        let same : b' ≡ m.without_both = unfold add_piece in cc in
        rw same (del_piece-IsAccounted (start_of_move mv) m.without_end before d)
    by_piece (some r) d e =
        let (owned, off) = taken-IsOwned (start_of_move mv) m.without_end before d in
        add_piece-IsAccounted r (end_of_move mv) m.without_both
          (del_piece-IsAccounted (start_of_move mv) m.without_end before d) owned off
          (del_piece-absent (start_of_move mv) m.without_end before.placed d) e

-- From a position that is accounted for, a board that `makeMove` gives is accounted for too: its
-- squares and pieces agree, each piece on it is its own player's, and both players' values are
-- the sums over their pieces.
pub make_move-IsAccounted :
    (mv : ℕ) (b : Board) {b' : Board}
    → IsAccounted b.position
    → make_move mv b ≡ some b'
    → IsAccounted b'.position
unfolding add_history_step
make_move-IsAccounted mv b a e =
    let m = make_move-Made mv b e in
    rw m.after (relocate-IsAccounted mv b.position a (relocate-Relocated mv b.position m.relocated))

-- The sum over the pieces that a player has on the board, from the table.
unfoldable pub material : Position → Side → ℕ
material b s = total b.store (player b s).pieces

-- On such a position `evaluate` is the material of the side to move, less the other's, plus 3.
pub evaluate-material :
    (b : Board)
    → IsAccounted b.position
    → evaluate b
      ≡ pos (material b.position b.cur_side)
        -ℤ pos (material b.position (opponent b.cur_side))
        +ℤ pos 3
unfolding evaluate material
evaluate-material b a = rw (a.balanced b.cur_side, a.balanced (opponent b.cur_side))
