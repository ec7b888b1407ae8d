-- ===== src/Board/Generate.antt =====
-- assets/js/board.js: `generateMoves`, the moves of one piece by the squares that it reaches.
use cchess.Base.{
  ℕ, zero, suc, Bool, true, false, not, ◌&&◌, ◌||◌, List, [], ◌∷◌, ◌++◌, Option, none, some,
  if◌then◌else◌, ◌>>=◌,
}
use cchess.Base.Int.{ℤ, pos, negsuc}
use cchess.Constants.{
  PieceType, king, advisor, bishop, knight, rook, cannon, pawn, array_king_delta,
  array_advisor_delta,
}
use cchess.Geometry.{shift, in_board, in_fort, same_half, get_move}
use cchess.Board.State.{Position, cmp_piece_opp_side}
use cchess.Board.Rules.{is_empty, king_square, get_piece_forward_step}

-- `generateMoves` returns an array of moves, or the number 0 for no piece and for a hidden one.
pub data Generated : Type 0 where
  moves : List ℕ → Generated
  zero_result : Generated

-- A loop over steps that appends the moves found by its body.
unfoldable pub collect : (ℤ → Option (List ℕ)) → List ℤ → Option (List ℕ)
collect body [] = some []
collect body (delta ∷ rest) = do
  here ← body delta
  others ← collect body rest
  some (here ++ others)

-- The parameters of `generateMoves`: the board, the piece, and whether only captures are wanted.
module _ (b : Position) (r : ℕ) (capatured : Bool) where
  abbrev pub from_here : ℕ → ℕ
  from_here dest = get_move (b.store r).square dest

  -- `if (!capatured) if (!this.pieces_[dest]) mvs.push(…)`
  abbrev pub quiet : ℕ → List ℕ
  quiet dest = if not capatured && is_empty (b.cells dest) then from_here dest ∷ [] else []

  -- `if (cmpPieceOppSide(piece, this.pieces_[dest])) mvs.push(…)`
  abbrev pub capture : ℕ → List ℕ
  capture dest = if cmp_piece_opp_side b r (b.cells dest) then from_here dest ∷ [] else []

  unfoldable pub palace_step : ℤ → Option (List ℕ)
  palace_step delta = shift (b.store r).square delta >>= λ dest.
      some (if in_fort dest then quiet dest ++ capture dest else [])

  unfoldable pub bishop_step : ℤ → Option (List ℕ)
  bishop_step delta = shift (b.store r).square delta >>= λ eye.
      if not (in_board eye)
        || not (same_half (b.store r).square eye)
        || not (is_empty (b.cells eye))
      then some []
      else (shift eye delta >>= λ dest. some (quiet dest ++ capture dest))

  unfoldable pub knight_step : ℤ → Option (List ℕ)
  knight_step delta = shift (b.store r).square delta >>= λ dest.
      some (if in_board dest then quiet dest ++ capture dest else [])

  -- One leg of the knight: its step to the pin, and its two jumps.
  unfoldable pub knight_leg : ℤ → ℤ → ℤ → Option (List ℕ)
  knight_leg pin near far = shift (b.store r).square pin >>= λ leg.
      if is_empty (b.cells leg) then collect knight_step (near ∷ far ∷ []) else some []

  -- `array_king_delta` and `array_knight_delta`, walked together.
  unfoldable pub knight_legs : Option (List ℕ)
  knight_legs = do
    up ← knight_leg (negsuc 15) (negsuc 32) (negsuc 30)
    left ← knight_leg (negsuc 0) (negsuc 17) (pos 14)
    right ← knight_leg (pos 1) (negsuc 13) (pos 18)
    down ← knight_leg (pos 16) (pos 31) (pos 33)
    some (up ++ left ++ right ++ down)

  -- `while (in_board(dest))` of the rook. Below 0 and past the array `in_board` holds, so a loop
  -- that gets there never ends.
  unfoldable pub rook_ray : ℕ → ℤ → ℕ → Option (List ℕ)
  rook_ray zero delta dest = none
  rook_ray (suc fuel) delta dest = elim (in_board dest) [
    | false ↦ some []
    | true ↦ elim (b.cells dest) [
      | some s ↦ some (capture dest)
      | none ↦ shift dest delta >>= rook_ray fuel delta >>= λ others.
          some (if capatured then others else from_here dest ∷ others)
    ]
  ]

  -- The first loop of the cannon: its moves, and where it stopped.
  unfoldable pub cannon_slide : ℕ → ℤ → ℕ → Option (List ℕ × ℕ)
  cannon_slide zero delta dest = none
  cannon_slide (suc fuel) delta dest = elim (in_board dest && is_empty (b.cells dest)) [
    | false ↦ some ([], dest)
    | true ↦ shift dest delta >>= cannon_slide fuel delta >>= λ (others, stop).
        some ((if capatured then others else from_here dest ∷ others), stop)
  ]

  -- The second loop, beyond the screen.
  unfoldable pub cannon_shoot : ℕ → ℤ → ℕ → Option (List ℕ)
  cannon_shoot zero delta dest = none
  cannon_shoot (suc fuel) delta dest = elim (in_board dest) [
    | false ↦ some []
    | true ↦ elim (b.cells dest) [
      | none ↦ shift dest delta >>= cannon_shoot fuel delta
      | some s ↦ some (capture dest)
    ]
  ]

  -- No line of the array is longer than this.
  abbrev pub ray_fuel : ℕ
  ray_fuel = 17

  unfoldable pub rook_line : ℤ → Option (List ℕ)
  rook_line delta = shift (b.store r).square delta >>= rook_ray ray_fuel delta

  unfoldable pub cannon_line : ℤ → Option (List ℕ)
  cannon_line delta = do
    dest ← shift (b.store r).square delta
    (slides, screen) ← cannon_slide ray_fuel delta dest
    beyond ← shift screen delta
    shots ← cannon_shoot ray_fuel delta beyond
    some (slides ++ shots)

  -- `in_board(dest)`, then the capture and the quiet move of a pawn.
  unfoldable pub pawn_step : Option ℕ → Option (List ℕ)
  pawn_step none = none
  pawn_step (some dest) = some (if in_board dest then capture dest ++ quiet dest else [])

  unfoldable pub pawn_moves : ℕ → Option (List ℕ)
  pawn_moves home =
      let start : ℕ = (b.store r).square in
      pawn_step (get_piece_forward_step home start) >>= λ ahead.
      if same_half home start
      then some ahead
      else (collect (λ delta. pawn_step (shift start delta)) (negsuc 0 ∷ pos 1 ∷ []) >>= λ aside.
          some (ahead ++ aside))

  unfoldable pub generate_by_type : PieceType → Option (List ℕ)
  generate_by_type king = collect palace_step array_king_delta
  generate_by_type advisor = collect palace_step array_advisor_delta
  generate_by_type bishop = collect bishop_step array_advisor_delta
  generate_by_type knight = knight_legs
  generate_by_type rook = collect rook_line array_king_delta
  generate_by_type cannon = collect cannon_line array_king_delta
  generate_by_type pawn = king_square b (b.store r).side >>= pawn_moves

-- `generateMoves`, its piece null, `undefined` or an object.
unfoldable pub generate_moves : Position → Option ℕ → Bool → Option Generated
generate_moves b none capatured = some zero_result
generate_moves b (some r) capatured =
    if (b.store r).show
    then (generate_by_type b r capatured (b.store r).kind >>= λ mvs. some (moves mvs))
    else some zero_result
