-- ===== src/Board/Value.antt =====
-- assets/js/board.js: the running value of a player against the sum over the pieces on the board.
pub mod Sums
pub mod Books
use cchess.Base.{
  ℕ, zero, suc, ◌+◌, ◌-◌, ◌*◌, ◌<◌, ◌≤◌, ◌≡◌, ◌≢◌, refl, sym, subst, ap, ◌∙◌, ◌⊎◌, inl, inr, arith,
  Bool, true, false, List, [], ◌∷◌, Option, none, some, ◌==◌, ==_iff, if◌then◌else◌, ◌>>=◌,
}
use cchess.Base.Int.{ℤ, pos, ◌+ℤ◌, ◌-ℤ◌, int_laws}
use cchess.Constants.{Side, red, black}
use cchess.Geometry.{start_of_move, end_of_move}
use cchess.Board.State.{
  Piece, Player, Position, Board, player, opponent, get_piece_value, update, with_piece,
  without_piece, add_piece, gain, lose,
}
use cchess.Board.Placed.{
  IsPlaced, Deleted, nothing, removes, add_piece-eq, cells-without_piece, store-without_piece,
  cells-with_piece, store-with_piece,
}
use cchess.Board.Undo.{
  Relocated, relocate-Relocated, Made, make_move-Made, del_piece-IsPlaced, make_move-IsPlaced,
}
use cchess.Board.Moves.{evaluate, make_move, add_history_step}
use Sums.{
  worth, shown_worth, total, count, total-update_once, total-update_absent, shown_worth-hidden,
  shown_worth-shown,
}

-- The player's running value is the sum over the shown pieces of its list.
abbrev pub IsBalanced : Position → Side → Type 0
IsBalanced b side = (player b side).value ≡ pos (total b.store (player b side).pieces)

-- A piece stands once in the list of its own player, and not in the other's.
abbrev pub IsOwned : Position → ℕ → Type 0
IsOwned b r =
    (count r (player b (b.store r).side).pieces ≡ 1)
    × (count r (player b (opponent (b.store r).side)).pieces ≡ 0)

player-with_piece :
    (b : Position) (side : Side) (r square v : ℕ)
    → (player (with_piece b side r square v) side ≡ gain (player b side) v)
      × (player (with_piece b side r square v) (opponent side) ≡ player b (opponent side))
player-with_piece b red r square v = (refl, refl)
player-with_piece b black r square v = (refl, refl)

player-without_piece :
    (b : Position) (side : Side) (r square v : ℕ)
    → (player (without_piece b side r square v) side ≡ lose (player b side) v)
      × (player (without_piece b side r square v) (opponent side) ≡ player b (opponent side))
player-without_piece b red r square v = (refl, refl)
player-without_piece b black r square v = (refl, refl)

pub side-cases : (s side : Side) → (s ≡ side) ⊎ (s ≡ opponent side)
side-cases red red = inl refl
side-cases red black = inr refl
side-cases black red = inr refl
side-cases black black = inl refl

spend : (sum sum' v : ℕ) → sum' + v ≡ sum → pos sum -ℤ pos v ≡ pos sum'
spend sum sum' v h = omega int_laws

pub earn : (sum sum' v : ℕ) → sum + v ≡ sum' → pos sum +ℤ pos v ≡ pos sum'
earn sum sum' v h = omega int_laws

-- Taking a shown piece off, or showing a hidden one, on the books of its own player and the other's.
module _ (b : Position) (r square v : ℕ) (owned : IsOwned b r) where
  pub without_piece-IsBalanced :
      shown_worth (b.store r) ≡ v
      → (s : Side) → IsBalanced b s
      → IsBalanced (without_piece b (b.store r).side r square v) s
  without_piece-IsBalanced hv s bal = by_side (side-cases s side)
    where
      side : Side
      side = (b.store r).side

      hidden : Piece
      hidden = record (b.store r) { show = false }

      by_side : (s ≡ side) ⊎ (s ≡ opponent side) → IsBalanced (without_piece b side r square v) s
      by_side (inl e) =
          let bal' = subst (IsBalanced b) e bal in
          let change = total-update_once b.store r hidden (player b side).pieces owned.0 in
          let none_left = shown_worth-hidden hidden refl in
          rw
            (
              e,
              (player-without_piece b side r square v).0,
              store-without_piece b side r square v,
              bal',
            )
            (spend _ _ v (omega (arith, hv, change, none_left)))
      by_side (inr e) =
          let bal' = subst (IsBalanced b) e bal in
          rw
            (
              e,
              (player-without_piece b side r square v).1,
              store-without_piece b side r square v,
              bal',
            )
            (ap pos (
              sym (total-update_absent b.store r hidden (player b (opponent side)).pieces owned.1)))

  pub with_piece-IsBalanced :
      (b.store r).show ≡ false
      → get_piece_value (b.store r).kind (b.store r).side square ≡ some v
      → (s : Side) → IsBalanced b s
      → IsBalanced (with_piece b (b.store r).side r square v) s
  with_piece-IsBalanced off hv s bal = by_side (side-cases s side)
    where
      side : Side
      side = (b.store r).side

      put : Piece
      put = record (b.store r) { show = true; square = square }

      by_side : (s ≡ side) ⊎ (s ≡ opponent side) → IsBalanced (with_piece b side r square v) s
      by_side (inl e) =
          let bal' = subst (IsBalanced b) e bal in
          let change = total-update_once b.store r put (player b side).pieces owned.0 in
          let before = shown_worth-hidden (b.store r) off in
          let after = shown_worth-shown put v refl hv in
          rw (e, (player-with_piece b side r square v).0, store-with_piece b side r square v, bal')
            (earn _ _ v (omega (arith, before, change, after)))
      by_side (inr e) =
          let bal' = subst (IsBalanced b) e bal in
          rw (e, (player-with_piece b side r square v).1, store-with_piece b side r square v, bal')
            (ap pos
              (sym (total-update_absent b.store r put (player b (opponent side)).pieces owned.1)))
