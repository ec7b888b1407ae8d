-- ===== src/Board/Placed/Cells.antt =====
-- assets/js/board.js: the array, the pieces and the values after `addPiece` and `delPiece`.
use cchess.Base.{ℕ, ◌≡◌, refl, fun_ext, arith, true, false, Option, none, some, ==_iff}
use cchess.Base.Int.{pos, sub-add_cancel, add-sub_cancel}
use cchess.Constants.{Side, red, black}
use cchess.Board.State.{Piece, Player, Position, update, gain, lose, with_piece, without_piece}

module _ {ℓ} {A : Type ℓ} where
  pub update-update : (f : ℕ → A) (i : ℕ) (v w : A) → update (update f i v) i w ≡ update f i w
  update-update f i v w = fun_ext λ j. ground arith

  pub update_self : (f : ℕ → A) (i : ℕ) {v : A} → f i ≡ v → update f i v ≡ f
  update_self f i {v} e = fun_ext λ j. ground (arith, ==_iff i j)

pub lose-gain : (p : Player) (v : ℕ) → gain (lose p v) v ≡ p
lose-gain p v = λ i. record p { value = sub-add_cancel p.value (pos v) i }

pub gain-lose : (p : Player) (v : ℕ) → lose (gain p v) v ≡ p
gain-lose p v = λ i. record p { value = add-sub_cancel p.value (pos v) i }

pub restored :
    (s : ℕ → Piece) (r square : ℕ)
    → (s r).square ≡ square
    → (s r).show ≡ true
    → let hidden = update s r (record (s r) { show = false }) in
      update hidden r (record (hidden r) { show = true; square = square }) ≡ s
restored s r square hs hw = fun_ext λ j. ground (arith, ==_iff r j)

pub refilled :
    (cells : ℕ → Option ℕ) (square r : ℕ)
    → cells square ≡ some r
    → update (update cells square none) square (some r) ≡ cells
refilled cells square r h = fun_ext λ j. ground (arith, ==_iff square j)

pub with-without_piece :
    (b : Position) (side : Side) (r square v : ℕ)
    → (b.store r).square ≡ square
    → (b.store r).show ≡ true
    → b.cells square ≡ some r
    → with_piece (without_piece b side r square v) side r square v ≡ b
with-without_piece b red r square v hs hw hc = λ i. record b {
  red_player = lose-gain b.red_player v i;
  cells = refilled b.cells square r hc i;
  store = restored b.store r square hs hw i;
}
with-without_piece b black r square v hs hw hc = λ i. record b {
  black_player = lose-gain b.black_player v i;
  cells = refilled b.cells square r hc i;
  store = restored b.store r square hs hw i;
}

-- The array and the store after either operation, whichever player pays.
pub cells-with_piece :
    (b : Position) (side : Side) (r square v : ℕ)
    → (with_piece b side r square v).cells ≡ update b.cells square (some r)
cells-with_piece b red r square v = refl
cells-with_piece b black r square v = refl

pub store-with_piece :
    (b : Position) (side : Side) (r square v : ℕ)
    → (with_piece b side r square v).store
      ≡ update b.store r (record (b.store r) { show = true; square = square })
store-with_piece b red r square v = refl
store-with_piece b black r square v = refl

pub cells-without_piece :
    (b : Position) (side : Side) (r square v : ℕ)
    → (without_piece b side r square v).cells ≡ update b.cells square none
cells-without_piece b red r square v = refl
cells-without_piece b black r square v = refl

pub store-without_piece :
    (b : Position) (side : Side) (r square v : ℕ)
    → (without_piece b side r square v).store
      ≡ update b.store r (record (b.store r) { show = false })
store-without_piece b red r square v = refl
store-without_piece b black r square v = refl

pub update_at {ℓ} : {A : Type ℓ} (f : ℕ → A) (i : ℕ) (v : A) → update f i v i ≡ v
update_at f i v = ground (arith, ==_iff i i)
