-- ===== src/Notation/Written.antt =====
-- assets/js/board.js: the length of what `toChineseMove` writes.
use cchess.Base.{
  ℕ, ◌+◌, ◌-◌, ◌/◌, ◌<◌, ◌≡◌, ◌≢◌, refl, ◌∙◌, ◌⊎◌, inl, inr, arith, Bool, true, false, List, [],
  ◌∷◌, ◌++◌, Option, none, some, if◌then◌else◌, ◌>>=◌, >>=-of, Bool-cases, holds_below,
  holds_below-at,
}
use cchess.Base.Int.{pos, sub_ℕ, ◌-ℤ◌}
use cchess.Constants.{
  Side, red, black, PieceType, king, advisor, bishop, knight, rook, cannon, pawn,
}
use cchess.Geometry.{in_board, same_row, same_col, col_of_pos, start_of_move, end_of_move}
use cchess.Geometry.Coordinates.{in_board_iff, same_col_iff}
use cchess.Board.State.{Piece, Position, Board, player}
use cchess.Board.Rules.{king_square, is_down}
use cchess.Board.Answers.{Answers}
use cchess.Notation.{
  side_col, numeral, distance, along_line, aslant, piece_name, name_and_col, first_two,
  same_type_piece, written, to_chinese_move,
}

is_given : Option ℕ → Bool
is_given none = false
is_given (some n) = true

is_given-Answers : (o : Option ℕ) → is_given o ≡ true → Answers o
unfolding is_given
is_given-Answers none h = cc
is_given-Answers (some n) h = (n, refl)

column_table :
    (side : Side) (down : Bool)
    → holds_below (λ p. if in_board p then is_given (numeral side (side_col down p)) else true) 256
      ≡ true
unfolding holds_below in_board is_given numeral side_col col_of_pos ◌-ℤ◌
column_table red true = refl
column_table red false = refl
column_table black true = refl
column_table black false = refl

-- Every square of the board has a numeral for its column.
numeral-side_col-Answers :
    (side : Side) (down : Bool) (p : ℕ)
    → p < 256
    → in_board p ≡ true
    → Answers (numeral side (side_col down p))
numeral-side_col-Answers side down p h on =
    is_given-Answers _ (rw on at (holds_below-at _ p h (column_table side down)))

steps_table : (side : Side) → holds_below (λ n. is_given (numeral side (pos n))) 9 ≡ true
unfolding holds_below is_given numeral
steps_table red = refl
steps_table black = refl

-- So have the steps between two squares of a column.
numeral-distance-Answers :
    (side : Side) (p q : ℕ)
    → p < 256
    → q < 256
    → in_board p ≡ true
    → in_board q ≡ true
    → same_col p q ≡ true
    → p ≢ q
    → Answers (numeral side (distance p q))
unfolding distance
numeral-distance-Answers side p q hp hq on_p on_q col ne =
    let inside_p = (in_board_iff p hp).0 on_p in
    let inside_q = (in_board_iff q hq).0 on_q in
    let agree = (same_col_iff p q).0 col in
    let steps : ℕ = ((p - q) + (q - p)) / 16 in
    let is_steps : sub_ℕ steps 1 ≡ pos (steps - 1) = ground arith in
    let near : steps - 1 < 9 = omega (arith, inside_p, inside_q) in
    rw is_steps (is_given-Answers _ (holds_below-at _ (steps - 1) near (steps_table side)))

-- Text of two characters, and of four.
abbrev Two : Option (List ℕ) → Type 0
Two o = (c : ℕ) × (d : ℕ) × (o ≡ some (c ∷ d ∷ []))

abbrev pub Four : Option (List ℕ) → Type 0
Four o = (w : ℕ) × (x : ℕ) × (y : ℕ) × (z : ℕ) × (o ≡ some (w ∷ x ∷ y ∷ z ∷ []))

aslant-Two :
    (side : Side) (down : Bool) (p q : ℕ) → q < 256 → in_board q ≡ true → Two (aslant side down p q)
unfolding aslant
aslant-Two side down p q hq on_q =
    let (n, e) = numeral-side_col-Answers side down q hq on_q in (_, _, >>=-of _ e)

-- The squares of a move along a line.
abbrev pub IsStraight : ℕ → ℕ → Type 0
IsStraight p q = (same_row p q ≡ true) ⊎ ((same_col p q ≡ true) × (p ≢ q))

along_line-Two :
    (side : Side) (down : Bool) (p q : ℕ)
    → p < 256
    → q < 256
    → in_board p ≡ true
    → in_board q ≡ true
    → IsStraight p q
    → Two (along_line side down p q)
unfolding along_line
along_line-Two side down p q hp hq on_p on_q straight = elim (Bool-cases (same_row p q)) [
  | inl r ↦ let (n, e) = numeral-side_col-Answers side down q hq on_q in rw r (_, _, >>=-of _ e)
  | inr r ↦ elim straight [
    | inl r' ↦ cc
    | inr (col, ne) ↦
        let (n, e) = numeral-distance-Answers side p q hp hq on_p on_q col ne in
        rw r (_, _, >>=-of _ e)
  ]
]

piece_name-Answers : (kind' : PieceType) (side : Side) → Answers (piece_name kind' side)
piece_name-Answers king red = (_, refl)
piece_name-Answers king black = (_, refl)
piece_name-Answers advisor red = (_, refl)
piece_name-Answers advisor black = (_, refl)
piece_name-Answers bishop red = (_, refl)
piece_name-Answers bishop black = (_, refl)
piece_name-Answers knight red = (_, refl)
piece_name-Answers knight black = (_, refl)
piece_name-Answers rook red = (_, refl)
piece_name-Answers rook black = (_, refl)
piece_name-Answers cannon red = (_, refl)
piece_name-Answers cannon black = (_, refl)
piece_name-Answers pawn red = (_, refl)
piece_name-Answers pawn black = (_, refl)

name_and_col-Two :
    (p : Piece) (down : Bool)
    → p.square < 256
    → in_board p.square ≡ true
    → Two (name_and_col p down)
unfolding name_and_col
name_and_col-Two p down h on =
    let (name, e) = piece_name-Answers p.kind p.side in
    let (n, f) = numeral-side_col-Answers p.side down p.square h on in
    (name, n, >>=-of _ e ∙ >>=-of _ f)

first_two-Two :
    (b : Position) (r : ℕ) (down : Bool)
    → (b.store r).square < 256
    → in_board (b.store r).square ≡ true
    → Two (first_two b r down)
unfolding first_two
first_two-Two b r down h on = by_twin (same_type_piece b r (player b (b.store r).side).pieces) refl
  where
    by_twin :
        (o : Option ℕ)
        → same_type_piece b r (player b (b.store r).side).pieces ≡ o
        → Two (first_two b r down)
    by_twin none e = rw (e, first_two) (name_and_col-Two (b.store r) down h on)
    by_twin (some s) e = elim (Bool-cases (same_col (b.store r).square (b.store s).square)) [
      | inl col ↦
          let (name, f) = piece_name-Answers (b.store r).kind (b.store r).side in
          rw (e, col, first_two) (_, name, >>=-of _ f)
      | inr col ↦ rw (e, col, first_two) (name_and_col-Two (b.store r) down h on)
    ]

-- The moves that can be written: those of a piece that moves along lines are straight.
abbrev pub IsWritable : PieceType → ℕ → ℕ → Type 0
IsWritable pawn p q = ⊥
IsWritable advisor p q = Unit
IsWritable bishop p q = Unit
IsWritable knight p q = Unit
IsWritable _ p q = IsStraight p q

written-Four :
    (kind' : PieceType) (b : Position) (r : ℕ) (down : Bool) (q : ℕ)
    → (b.store r).square < 256
    → q < 256
    → in_board (b.store r).square ≡ true
    → in_board q ≡ true
    → IsWritable kind' (b.store r).square q
    → Four (written kind' b r down q)
unfolding written
written-Four kind' b r down q hp hq on_p on_q ok = by_type kind' ok
  where
    line :
        IsStraight (b.store r).square q
        → Two (along_line (b.store r).side down (b.store r).square q)
    line = along_line-Two (b.store r).side down (b.store r).square q hp hq on_p on_q

    slant : Two (aslant (b.store r).side down (b.store r).square q)
    slant = aslant-Two (b.store r).side down (b.store r).square q hq on_q

    join :
        {second : Option (List ℕ)}
        → Two second
        → Four (first_two b r down >>= λ s. second >>= λ t. some (s ++ t))
    join (y, z, f) =
        let (w, x, e) = first_two-Two b r down hp on_p in (w, x, y, z, >>=-of _ e ∙ >>=-of _ f)

    by_type : (t : PieceType) → IsWritable t (b.store r).square q → Four (written t b r down q)
    by_type king h = join (line h)
    by_type advisor h = join slant
    by_type bishop h = join slant
    by_type knight h = join slant
    by_type rook h = join (line h)
    by_type cannon h = join (line h)
    by_type pawn h = absurd h

-- For a piece that is no pawn and stands on the board, with the king of its side in place, and a
-- move that ends on the board and, for a king, a rook or a cannon, stays in the piece's row or
-- goes to another square of its column, `toChineseMove` gives a text of exactly four characters
-- and reads nothing outside of its tables.
pub to_chinese_move-Four :
    (mv r home : ℕ) (b : Board)
    → b.position.cells (start_of_move mv) ≡ some r
    → king_square b.position (b.position.store r).side ≡ some home
    → (b.position.store r).square < 256
    → end_of_move mv < 256
    → in_board (b.position.store r).square ≡ true
    → in_board (end_of_move mv) ≡ true
    → IsWritable (b.position.store r).kind (b.position.store r).square (end_of_move mv)
    → Four (to_chinese_move mv b)
unfolding to_chinese_move
to_chinese_move-Four mv r home b found crowned hp hq on_p on_q ok =
    let (w, x, y, z, e) =
      written-Four (b.position.store r).kind b.position r (is_down home) (end_of_move mv) hp hq on_p
        on_q ok in
    (w, x, y, z, >>=-of _ found ∙ >>=-of _ crowned ∙ e)
