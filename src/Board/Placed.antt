-- ===== src/Board/Placed.antt =====
-- assets/js/board.js: `addPiece` and `delPiece`, and the agreement of the array `pieces_` and the
-- pieces' own squares.
pub mod Cells
pub use Cells.{cells-with_piece, store-with_piece, cells-without_piece, store-without_piece}
use Cells.{
  update-update, update_self, lose-gain, gain-lose, restored, refilled, with-without_piece,
  update_at,
}
use cchess.Base.{
  ℕ, ◌≡◌, refl, sym, ap, fun_ext, ◌∙◌, arith, true, false, Option, none, some, ==_iff, ◌>>=◌,
  >>=-eq-some,
}
use cchess.Base.Int.{pos, sub-add_cancel, add-sub_cancel}
use cchess.Constants.{Side, red, black, PieceType}
use cchess.Board.State.{
  Piece, Player, Position, update, get_piece_value, gain, lose, with_piece, without_piece,
  add_piece, take_off, del_piece,
}

-- What stands on a square is shown and knows the square.
abbrev pub IsPlaced : Position → Type 0
IsPlaced b =
    (square r : ℕ)
    → b.cells square ≡ some r
    → ((b.store r).square ≡ square) × ((b.store r).show ≡ true)

-- What `add_piece` did where it gives a result.
pub add_piece-eq :
    (r square : ℕ) (b : Position) {b' : Position}
    → add_piece (some r) square b ≡ some b'
    → (v : ℕ) × (get_piece_value (b.store r).kind (b.store r).side square ≡ some v)
      × (b' ≡ with_piece b (b.store r).side r square v)
unfolding add_piece
add_piece-eq r square b e =
    let (v, h, g) = >>=-eq-some (get_piece_value (b.store r).kind (b.store r).side square) _ e in
    (v, h, cc)

-- What `del_piece` did: the square was empty, or the piece on it is gone.
pub record Removes (square r v : ℕ) (b : Position) (o : Option ℕ) (b' : Position) : Type 0 where
  pub found : b.cells square ≡ some r
  pub worth : get_piece_value (b.store r).kind (b.store r).side (b.store r).square ≡ some v
  pub given : o ≡ some r
  pub after : b' ≡ without_piece b (b.store r).side r square v

pub data Deleted (square : ℕ) (b : Position) (o : Option ℕ) (b' : Position) : Type 0 where
  nothing : b.cells square ≡ none → o ≡ none → b' ≡ b → Deleted square b o b'
  removes : (r v : ℕ) → Removes square r v b o b' → Deleted square b o b'

take_off-Removes :
    (r square : ℕ) (b : Position) {o : Option ℕ} {b' : Position}
    → b.cells square ≡ some r
    → take_off r square b ≡ some (o, b')
    → Deleted square b o b'
unfolding take_off
take_off-Removes r square b {o} {b'} h e =
    let (v, w, g) =
      >>=-eq-some (get_piece_value (b.store r).kind (b.store r).side (b.store r).square) _ e in
    removes r v (record { found = h; worth = w; given = cc; after = cc })

pub del_piece-Deleted :
    (square : ℕ) (b : Position) {o : Option ℕ} {b' : Position}
    → del_piece square b ≡ some (o, b')
    → Deleted square b o b'
unfolding del_piece
del_piece-Deleted square b {o} {b'} e = by_cell (b.cells square) refl
  where
    by_cell : (cell : Option ℕ) → b.cells square ≡ cell → Deleted square b o b'
    by_cell none h = let e' = rw (h, del_piece) at e in nothing h (cc) (cc)
    by_cell (some r) h = take_off-Removes r square b h (rw (h, del_piece) at e)

-- The two operations at a piece whose type and side are known.
module _ (b : Position) (r square v : ℕ) (kind : PieceType) (side : Side) where
  pub add_piece_of :
      (b.store r).kind ≡ kind
      → (b.store r).side ≡ side
      → get_piece_value kind side square ≡ some v
      → add_piece (some r) square b ≡ some (with_piece b side r square v)
  unfolding add_piece
  add_piece_of hk hs hv = rw (hk, hs, hv)

  pub del_piece_of :
      b.cells square ≡ some r
      → (b.store r).kind ≡ kind
      → (b.store r).side ≡ side
      → (b.store r).square ≡ square
      → get_piece_value kind side square ≡ some v
      → del_piece square b ≡ some (some r, without_piece b side r square v)
  unfolding del_piece take_off
  del_piece_of hc hk hs hq hv = rw (hc, del_piece, hk, hs, hq, hv)

module _ (b : Position) (side : Side) (r square v : ℕ) where
  kept_by-without_piece :
      let piece = (without_piece b side r square v).store r in
      (piece.kind ≡ (b.store r).kind) × (piece.side ≡ (b.store r).side)
  kept_by-without_piece = rw (store-without_piece b side r square v) (ground (arith, ==_iff r r))

  kept_by-with_piece :
      let piece = (with_piece b side r square v).store r in
      (piece.kind ≡ (b.store r).kind)
      × (piece.side ≡ (b.store r).side)
      × (piece.square ≡ square)
      × (piece.show ≡ true)
  kept_by-with_piece = rw (store-with_piece b side r square v) (ground (arith, ==_iff r r))

-- Putting back what was taken off gives the position.
pub add_piece-del_piece :
    (square : ℕ) (b : Position) {o : Option ℕ} {b' : Position}
    → IsPlaced b
    → Deleted square b o b'
    → add_piece o square b' ≡ some b
unfolding add_piece
add_piece-del_piece square b placed (nothing h g e) = rw (g, e)
add_piece-del_piece square b placed (removes r v m) =
    let side = (b.store r).side in
    let (kind', side') = kept_by-without_piece b side r square v in
    let (at_square, shown) = placed square r m.found in
    rw (m.given, m.after)
      (add_piece_of (without_piece b side r square v) r square v (b.store r).kind side kind' side'
          (ap (get_piece_value (b.store r).kind side) (sym at_square) ∙ m.worth)
        ∙ ap some (with-without_piece b side r square v at_square shown m.found))

-- A piece that was put on an empty square, taken off it and put elsewhere stands as if it had been
-- put there at once.
refit :
    (s : ℕ → Piece) (r p q : ℕ)
    → let a = update s r (record (s r) { show = true; square = p }) in
      let c = update a r (record (a r) { show = false }) in
      update c r (record (c r) { show = true; square = q })
      ≡ update s r (record (s r) { show = true; square = q })
refit s r p q = fun_ext λ j. ground (arith, ==_iff r j)

emptied :
    (cells : ℕ → Option ℕ) (square r : ℕ)
    → cells square ≡ none
    → update (update cells square (some r)) square none ≡ cells
emptied cells square r h = fun_ext λ j. ground (arith, ==_iff square j)

with_piece_again :
    (b : Position) (side : Side) (r p q v w : ℕ)
    → b.cells p ≡ none
    → with_piece (without_piece (with_piece b side r p v) side r p v) side r q w
      ≡ with_piece b side r q w
with_piece_again b red r p q v w hc = λ i. record b {
  red_player = gain (gain-lose b.red_player v i) w;
  cells = update (emptied b.cells p r hc i) q (some r);
  store = refit b.store r p q i;
}
with_piece_again b black r p q v w hc = λ i. record b {
  black_player = gain (gain-lose b.black_player v i) w;
  cells = update (emptied b.cells p r hc i) q (some r);
  store = refit b.store r p q i;
}

add_piece-bind :
    (b : Position) (r square : ℕ) {kind : PieceType} {side : Side}
    → (b.store r).kind ≡ kind
    → (b.store r).side ≡ side
    → add_piece (some r) square b
      ≡ (get_piece_value kind side square >>= λ v. some (with_piece b side r square v))
unfolding add_piece
add_piece-bind b r square hk hs = rw (hk, hs)

-- Taking off what was put on an empty square gives a position that differs from the first one in
-- nothing that matters once the piece is put somewhere else.
pub del_piece-add_piece :
    (o : Option ℕ) (p : ℕ) (b : Position) {b' : Position}
    → b.cells p ≡ none
    → add_piece o p b ≡ some b'
    → (b'' : Position) × (del_piece p b' ≡ some (o, b''))
      × ((q : ℕ) → add_piece o q b'' ≡ add_piece o q b)
unfolding add_piece del_piece
del_piece-add_piece none p b {b'} hc e =
    let same : b' ≡ b = cc in (b, rw same (rw (hc, del_piece)), λ q. refl)
del_piece-add_piece (some r) p b {b'} hc e =
    let (v, worth, after) = add_piece-eq r p b e in
    let piece = b.store r in
    let mid = with_piece b piece.side r p v in
    let (kind', side', square', _) = kept_by-with_piece b piece.side r p v in
    let (kind'', side'') = kept_by-without_piece mid piece.side r p v in
    (
      without_piece mid piece.side r p v,
      rw after (
          del_piece_of mid r p v piece.kind piece.side
            (rw (cells-with_piece b piece.side r p v) (update_at b.cells p (some r))) kind' side'
            square' worth),
      λ q.
          add_piece-bind (without_piece mid piece.side r p v) r q (kind'' ∙ kind') (side'' ∙ side')
          ∙ ap (λ (f : ℕ → Option Position). get_piece_value piece.kind piece.side q >>= f)
              (fun_ext λ w. ap some (with_piece_again b piece.side r p q v w hc)),
    )
