-- ===== src/Iccs/Converts.antt =====
-- assets/js/utils.js: reading and writing the ICCS texts of squares and moves.
use cchess.Base.{
  ℕ, ◌*◌, ◌<◌, ◌≡◌, refl, ap, ap₂, ◌∙◌, Bool, true, false, List, [], ◌∷◌, none, some, ◌==◌, ==_iff,
  if◌then◌else◌, ltb, ◌%◌, bit_or, holds_below, holds_below-at, arith,
}
use cchess.Base.Int.{ℤ, pos, negsuc, ◌+ℤ◌, ◌-ℤ◌}
use cchess.Geometry.{
  in_board, convert_coordinates, col_of_pos, row_of_pos, get_move, get_int_move, start_of_move,
  end_of_move,
}
use cchess.Geometry.Packing.{start_of_move-mod, get_move-squares, get_move-add}
use cchess.Iccs.{
  Sum, nan, text, plus, iccs_pos_to_pos, iccs_move_to_move, pos_to_iccs_pos, move_to_iccs_move,
}

-- The text of a square has two characters, which give the square.
abbrev reads_back : ℕ → Sum → Bool
reads_back p (text (c ∷ r ∷ [])) = elim (iccs_pos_to_pos c r) [ pos q ↦ q == p | negsuc n ↦ false ]
reads_back p _ = false

text_table :
    holds_below (λ p. if in_board p then reads_back p (pos_to_iccs_pos 0 (some p)) else true) 256
    ≡ true
unfolding holds_below in_board pos_to_iccs_pos iccs_pos_to_pos convert_coordinates row_of_pos
    col_of_pos ◌+ℤ◌ ◌-ℤ◌
text_table = refl

-- A square of the board, given as the second argument, has an ICCS text of two characters, which are
-- read back as the square.
iccs_pos_to_pos-pos_to_iccs_pos :
    (x p : ℕ)
    → p < 256
    → in_board p ≡ true
    → (c : ℕ) × (r : ℕ) × (pos_to_iccs_pos x (some p) ≡ text (c ∷ r ∷ []))
      × (iccs_pos_to_pos c r ≡ pos p)
unfolding pos_to_iccs_pos
iccs_pos_to_pos-pos_to_iccs_pos x p h board =
    by_text (pos_to_iccs_pos 0 (some p)) refl (rw board at (holds_below-at _ p h text_table))
  where
    by_square :
        (c r : ℕ) (z : ℤ)
        → iccs_pos_to_pos c r ≡ z
        → elim z [ pos q ↦ q == p | negsuc n ↦ false ] ≡ true
        → iccs_pos_to_pos c r ≡ pos p
    by_square c r (pos q) e t = let same : q ≡ p = (==_iff q p).0 t in cc
    by_square c r (negsuc n) e t = cc

    by_text :
        (o : Sum)
        → pos_to_iccs_pos 0 (some p) ≡ o
        → reads_back p o ≡ true
        → (c : ℕ) × (r : ℕ) × (pos_to_iccs_pos x (some p) ≡ text (c ∷ r ∷ []))
          × (iccs_pos_to_pos c r ≡ pos p)
    by_text nan e t = cc
    by_text (text []) e t = cc
    by_text (text (c ∷ [])) e t = cc
    by_text (text (c ∷ r ∷ [])) e t = (c, r, e, by_square c r (iccs_pos_to_pos c r) refl t)
    by_text (text (c ∷ r ∷ d ∷ rest)) e t = cc

get_int_move-pos :
    (start end : ℕ)
    → start < 256
    → end < 256
    → get_int_move (pos start) (pos end) ≡ pos (get_move start end)
unfolding get_int_move get_move
get_int_move-pos start end h k =
    let low : start % 4294967296 ≡ start = omega arith in
    let digits : end % 4294967296 * 256 % 4294967296 ≡ end * 256 = omega arith in
    let small : ltb (bit_or start (end * 256)) 2147483648 ≡ true =
      ground (arith, get_move-add start end h) in
    rw (low, digits, small) refl

nothing_written : (a b : ℕ) → plus (pos_to_iccs_pos a none) (pos_to_iccs_pos b none) ≡ nan
unfolding pos_to_iccs_pos col_of_pos row_of_pos
nothing_written a b = refl

-- For a move below 65536 between squares of the board, the sum of what `pos_to_iccs_pos` gives
-- for its two squares, each as the second argument and with any first one, is a text that
-- `iccs_move_to_move` reads back as the move; but `move_to_iccs_move`, which gives them one
-- argument only, is `NaN`.
pub iccs_move_to_move-pos_to_iccs_pos :
    (mv x y : ℕ)
    → mv < 65536
    → in_board (start_of_move mv) ≡ true
    → in_board (end_of_move mv) ≡ true
    → ((t : List ℕ) × (plus
            (pos_to_iccs_pos x (some (start_of_move mv)))
            (pos_to_iccs_pos y (some (end_of_move mv)))
          ≡ text t)
        × (iccs_move_to_move t ≡ some (pos mv)))
      × (move_to_iccs_move mv ≡ nan)
unfolding move_to_iccs_move iccs_move_to_move
iccs_move_to_move-pos_to_iccs_pos mv x y h from_board to_board =
    let low : start_of_move mv < 256 = omega (arith, start_of_move-mod mv) in
    let high : end_of_move mv < 256 = unfold end_of_move in omega arith in
    let (c, r, e, f) = iccs_pos_to_pos-pos_to_iccs_pos x (start_of_move mv) low from_board in
    let (d, s, g, k) = iccs_pos_to_pos-pos_to_iccs_pos y (end_of_move mv) high to_board in
    (
      (
        c ∷ r ∷ d ∷ s ∷ [],
        ap₂ plus e g,
        ap some (
            ap₂ get_int_move f k
            ∙ get_int_move-pos (start_of_move mv) (end_of_move mv) low high
            ∙ ap pos (get_move-squares mv)),
      ),
      nothing_written (start_of_move mv) (end_of_move mv),
    )
