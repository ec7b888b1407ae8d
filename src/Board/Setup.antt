-- ===== src/Board/Setup.antt =====
-- assets/js/board.js: a new board, and what `addPieceToBoard` makes of one.
pub mod Joined
use cchess.Base.{
  ℕ, ◌+◌, ◌<◌, ◌≤◌, ◌≡◌, refl, sym, subst, ap, ◌∙◌, arith, Bool, true, false, List, [], ◌∷◌, ◌++◌,
  some, ◌==◌, ==_iff, if◌then◌else◌, >>=-eq-some,
}
use cchess.Base.Int.{pos, ◌+ℤ◌}
use cchess.Constants.{Side, red, black, PieceType}
use cchess.Board.State.{
  Piece, Player, Position, new_board, player, with_player, opponent, update, get_piece_value,
  add_piece_to_board, add_piece_to_player,
}
use cchess.Board.Placed.{IsPlaced}
use cchess.Board.Value.{earn, IsBalanced, IsOwned}
use cchess.Board.Value.Books.{IsAccounted}
use cchess.Board.Value.Sums.{
  total, count, total-append, total-single, total-update_absent, count-append, count-single,
  shown_worth, shown_worth-shown,
}

-- Every reference in use is below the next one.
pub record IsReady (b : Position) : Type 0 where
  pub accounted : IsAccounted b
  pub below : (square r : ℕ) → b.cells square ≡ some r → r < b.next
  pub unused : (r : ℕ) (s : Side) → b.next ≤ r → count r (player b s).pieces ≡ 0

-- What `addPieceToBoard` makes of the board, for the value `v` of the piece.
module _ (b : Position) (kind : PieceType) (side : Side) (square v : ℕ) where
  abbrev pub newcomer : Piece
  newcomer = record { kind = kind; side = side; square = square; show = true }

  abbrev pub stocked : Position
  stocked = record b {
    cells = update b.cells square (some b.next);
    store = update b.store b.next newcomer;
    next = b.next + 1;
  }

  abbrev pub joined : Position
  joined = with_player stocked side (add_piece_to_player (player b side) newcomer b.next v)

pub with_player-parts :
    (b : Position) (side : Side) (p : Player)
    → ((with_player b side p).cells ≡ b.cells)
      × ((with_player b side p).store ≡ b.store)
      × ((with_player b side p).next ≡ b.next)
      × (player (with_player b side p) side ≡ p)
      × (player (with_player b side p) (opponent side) ≡ player b (opponent side))
with_player-parts b red p = (refl, refl, refl, refl, refl)
with_player-parts b black p = (refl, refl, refl, refl, refl)

pub player-stocked :
    (b : Position) (kind : PieceType) (side : Side) (square v : ℕ) (s : Side)
    → player (stocked b kind side square v) s ≡ player b s
player-stocked b _ side square v red = refl
player-stocked b _ side square v black = refl

pub new_board-IsReady : IsReady new_board.position
unfolding total count
new_board-IsReady = record {
  accounted = record {
    placed = λ p r h. cc;
    owned = λ p r h. cc;
    balanced = elim [ red ↦ refl | black ↦ refl ];
  };
  below = λ p r h. cc;
  unused = λ r. elim [ red ↦ λ h. refl | black ↦ λ h. refl ];
}

pub both {ℓ} : (P : Side → Type ℓ) (s side : Side) → P side → P (opponent side) → P s
both P red red h k = h
both P red black h k = k
both P black red h k = k
both P black black h k = h
