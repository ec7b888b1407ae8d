-- ===== src/Board/Setup/Joined.antt =====
-- assets/js/board.js: `addPieceToBoard` on a board in order.
use cchess.Base.{
  ℕ, ◌+◌, ◌<◌, ◌≤◌, ◌≡◌, refl, sym, subst, ap, ◌∙◌, arith, Bool, true, false, List, [], ◌∷◌, ◌++◌,
  some, ◌==◌, ==_iff, if◌then◌else◌, >>=-eq-some,
}
use cchess.Base.Int.{pos, ◌+ℤ◌}
use cchess.Constants.{Side, PieceType}
use cchess.Board.State.{
  Piece, Position, player, opponent, update, get_piece_value, add_piece_to_board,
}
use cchess.Board.Placed.{IsPlaced}
use cchess.Board.Value.{earn, IsBalanced, IsOwned}
use cchess.Board.Value.Sums.{
  total, count, total-append, total-single, total-update_absent, count-append, count-single,
  shown_worth, shown_worth-shown,
}
use cchess.Board.Setup.{IsReady, newcomer, stocked, joined, with_player-parts, player-stocked, both}

-- The lists of both players, the store and the squares after a piece joined.
module _ (b : Position) (kind : PieceType) (side : Side) (square v : ℕ) where
  after : Position
  after = joined b kind side square v

  pieces-own : (player after side).pieces ≡ (player b side).pieces ++ b.next ∷ []
  unfolding after
  pieces-own = rw (with_player-parts (stocked b kind side square v) side _).3 refl

  value-own : (player after side).value ≡ (player b side).value +ℤ pos v
  unfolding after
  value-own = rw (with_player-parts (stocked b kind side square v) side _).3 refl

  player-other : player after (opponent side) ≡ player b (opponent side)
  unfolding after
  player-other =
      (with_player-parts (stocked b kind side square v) side _).4
      ∙ player-stocked b kind side square v (opponent side)

  cells-after : after.cells ≡ update b.cells square (some b.next)
  unfolding after
  cells-after = (with_player-parts (stocked b kind side square v) side _).0

  store-after : after.store ≡ update b.store b.next (newcomer b kind side square v)
  unfolding after
  store-after = (with_player-parts (stocked b kind side square v) side _).1

  next-after : after.next ≡ b.next + 1
  unfolding after
  next-after = (with_player-parts (stocked b kind side square v) side _).2

  -- A new piece is on its square and on the books, where the square was empty and all is in order.
  module _ (ready : IsReady b) (worth : get_piece_value kind side square ≡ some v) where
    IsPlaced-after : IsPlaced after
    IsPlaced-after p r =
        rw (cells-after, store-after)
          λ h.
            ground
              (arith, ==_iff square p, ==_iff b.next r, ready.accounted.placed p r, ready.below p r)

    below-after : (p r : ℕ) → after.cells p ≡ some r → r < after.next
    below-after p r =
        rw (cells-after, next-after) λ h. ground (arith, ==_iff square p, ready.below p r)

    count-own :
        (r : ℕ)
        → count r (player after side).pieces
          ≡ count r (player b side).pieces + (if r == b.next then 1 else 0)
    count-own r =
        ap (count r) pieces-own
        ∙ count-append r (player b side).pieces (b.next ∷ [])
        ∙ ap (λ (n : ℕ). count r (player b side).pieces + n) (count-single r b.next)

    count-other :
        (r : ℕ)
        → count r (player after (opponent side)).pieces ≡ count r (player b (opponent side)).pieces
    count-other r = rw player-other

    unused-after : (r : ℕ) (s : Side) → after.next ≤ r → count r (player after s).pieces ≡ 0
    unused-after r s h =
        both (λ t. count r (player after t).pieces ≡ 0) s side
          (ground (arith, count-own r, ready.unused r side, next-after, ==_iff r b.next))
          (ground (arith, count-other r, ready.unused r (opponent side), next-after))

    -- The lists name the older pieces as often as before.
    count-older :
        (r : ℕ) (s : Side)
        → r < b.next
        → count r (player after s).pieces ≡ count r (player b s).pieces
    count-older r s h =
        both (λ t. count r (player after t).pieces ≡ count r (player b t).pieces) s side
          (ground (arith, count-own r, ==_iff r b.next)) (count-other r)

    IsOwned-new : IsOwned after b.next
    IsOwned-new =
        rw (store-after, update_new)
          (
            ground (
              arith,
              count-own b.next,
              ready.unused b.next side (omega arith),
              ==_iff b.next b.next,
            ),
            ground (arith, count-other b.next, ready.unused b.next (opponent side) (omega arith)),
          )
      where
        update_new :
            update b.store b.next (newcomer b kind side square v) b.next
            ≡ newcomer b kind side square v
        update_new = ground (arith, ==_iff b.next b.next)

    IsOwned-old : (r : ℕ) → r < b.next → IsOwned b r → IsOwned after r
    IsOwned-old r h owned =
        rw
          (
            store-after,
            update_old,
            count-older r (b.store r).side h,
            count-older r (opponent (b.store r).side) h,
          )
          owned
      where
        update_old : update b.store b.next (newcomer b kind side square v) r ≡ b.store r
        update_old = ground (arith, ==_iff b.next r)

    IsOwned-after : (p r : ℕ) → after.cells p ≡ some r → IsOwned after r
    IsOwned-after p r h = by_square (square == p) (rw cells-after at h)
      where
        by_square : (t : Bool) → (if t then some b.next else b.cells p) ≡ some r → IsOwned after r
        by_square true e = let same : b.next ≡ r = cc in subst (IsOwned after) same IsOwned-new
        by_square false e = IsOwned-old r (ready.below p r e) (ready.accounted.owned p r e)

    IsBalanced-after : (s : Side) → IsBalanced after s
    IsBalanced-after s = both (IsBalanced after) s side own other
      where
        store' : ℕ → Piece
        store' = update b.store b.next (newcomer b kind side square v)

        listed : List ℕ
        listed = (player b side).pieces

        update_new : store' b.next ≡ newcomer b kind side square v
        update_new = ground (arith, ==_iff b.next b.next)

        sum : total store' (listed ++ b.next ∷ []) ≡ total b.store listed + v
        sum = omega (
          arith,
          total-append store' listed (b.next ∷ []),
          total-single store' b.next,
          ap shown_worth update_new
              ∙ shown_worth-shown (newcomer b kind side square v) v refl worth,
          total-update_absent b.store b.next (newcomer b kind side square v) listed
              (ready.unused b.next side (omega arith)),
        )

        own : IsBalanced after side
        own =
            rw (value-own, pieces-own, store-after, ready.accounted.balanced side)
              (earn _ _ v (sym sum))

        other : IsBalanced after (opponent side)
        other =
            rw (player-other, store-after, ready.accounted.balanced (opponent side))
              (ap pos (
                sym (
                  total-update_absent b.store b.next (newcomer b kind side square v)
                    (player b (opponent side)).pieces
                    (ready.unused b.next (opponent side) (omega arith)))))

    joined-IsReady : IsReady after
    joined-IsReady = record {
      accounted = record {
        placed = IsPlaced-after;
        owned = IsOwned-after;
        balanced = IsBalanced-after;
      };
      below = below-after;
      unused = unused-after;
    }

-- Putting a piece on a square of a board in order leaves it in order.
pub add_piece_to_board-IsReady :
    (kind : PieceType) (side : Side) (square : ℕ) (b : Position) {b' : Position}
    → IsReady b
    → add_piece_to_board kind side square b ≡ some b'
    → IsReady b'
unfolding add_piece_to_board after
add_piece_to_board-IsReady kind side square b {b'} ready e =
    let (v, worth, f) = >>=-eq-some (get_piece_value kind side square) _ e in
    let same : after b kind side square v ≡ b' = cc in
    subst IsReady same (joined-IsReady b kind side square v ready worth)
