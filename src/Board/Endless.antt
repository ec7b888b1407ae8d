-- ===== src/Board/Endless.antt =====
-- assets/js/board.js: `legalMovePiece` of a rook or a cannon to the square on which it stands.
use cchess.Base.{
  ℕ, zero, suc, ◌+◌, ◌<◌, ◌≡◌, ◌⊎◌, inl, inr, refl, arith, true, false, none, ◌==◌, ==_iff,
}
use cchess.Base.Int.{pos}
use cchess.Constants.{rook, cannon}
use cchess.Geometry.{shift, get_offset, same_row}
use cchess.Geometry.Coordinates.{same_row_iff}
use cchess.Board.State.{Position}
use cchess.Board.Rules.{
  walk, stride, along, from_offset, legal_line, legal_by_type, legal_move_piece,
}

-- Past the target, with nothing ahead, no number of rounds is enough.
walk-none :
    (fuel : ℕ) (b : Position) (dest cur : ℕ)
    → dest < cur
    → ((p : ℕ) → dest < p → b.cells p ≡ none)
    → walk fuel b (pos 1) dest cur ≡ none
unfolding walk shift
walk-none zero b dest cur past free = refl
walk-none (suc fuel) b dest cur past free =
    let away : (cur == dest) ≡ false = ground (arith, ==_iff cur dest) in
    rw (away, free cur past, walk) (walk-none fuel b dest (cur + 1) (omega arith) free)

get_offset_self : (a : ℕ) → get_offset a a ≡ pos 1
unfolding get_offset
get_offset_self a =
    let row : same_row a a ≡ true = (same_row_iff a a).1 refl in rw row (ground arith)

-- For a rook or a cannon with nothing on any higher square of the array, `legalMovePiece` to the
-- square on which the piece stands gives no answer: its loop does not end in any number of
-- rounds.
pub legal_move_piece-endless :
    (b : Position) (r : ℕ)
    → ((b.store r).kind ≡ rook) ⊎ ((b.store r).kind ≡ cannon)
    → ((p : ℕ) → (b.store r).square < p → b.cells p ≡ none)
    → ((fuel : ℕ) → walk fuel b (pos 1) (b.store r).square ((b.store r).square + 1) ≡ none)
      × (legal_move_piece b r (b.store r).square ≡ none)
unfolding legal_move_piece
legal_move_piece-endless b r which free = (never, by_kind which)
  where
    never : (fuel : ℕ) → walk fuel b (pos 1) (b.store r).square ((b.store r).square + 1) ≡ none
    never fuel = walk-none fuel b (b.store r).square ((b.store r).square + 1) (omega arith) free

    line : legal_line b r (b.store r).square ≡ none
    line =
        unfold legal_line from_offset along stride shift in
        rw (get_offset_self (b.store r).square, never) refl

    by_kind :
        ((b.store r).kind ≡ rook) ⊎ ((b.store r).kind ≡ cannon)
        → legal_by_type (b.store r).kind b r (b.store r).square ≡ none
    by_kind (inl h) = unfold legal_by_type in rw h line
    by_kind (inr h) = unfold legal_by_type in rw h line
