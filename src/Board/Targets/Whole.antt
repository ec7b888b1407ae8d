-- ===== src/Board/Targets/Whole.antt =====
-- assets/js/board.js: the moves of `generateMoves`, for every type of piece.
use cchess.Base.{ℕ, ◌<◌, ◌≡◌, inl, inr, Bool, List, some, >>=-eq-some, if-eq-some}
use cchess.Constants.{
  PieceType, king, advisor, bishop, knight, rook, cannon, pawn, array_king_delta,
  array_advisor_delta,
}
use cchess.Board.State.{Position}
use cchess.Board.Rules.{king_square}
use cchess.Board.Generate.{
  moves, palace_step, bishop_step, rook_line, cannon_line, generate_by_type, generate_moves,
}
use cchess.Board.Targets.{All, collect-All, Moves}
use cchess.Board.Targets.Steps.{
  palace_step-Moves, bishop_step-Moves, knight_legs-Moves, pawn_moves-Moves,
}
use cchess.Board.Targets.Rays.{rook_line-Moves, cannon_line-Moves}

module _ (b : Position) (r : ℕ) (c : Bool) (near : (b.store r).square < 256) where
  generate_by_type-Moves :
      (kind : PieceType) {mvs : List ℕ}
      → generate_by_type b r c kind ≡ some mvs
      → All (Moves b r c) mvs
  unfolding generate_by_type
  generate_by_type-Moves king e =
      collect-All (palace_step b r c) (palace_step-Moves b r c near) array_king_delta e
  generate_by_type-Moves advisor e =
      collect-All (palace_step b r c) (palace_step-Moves b r c near) array_advisor_delta e
  generate_by_type-Moves bishop e =
      collect-All (bishop_step b r c) (bishop_step-Moves b r c near) array_advisor_delta e
  generate_by_type-Moves knight e = knight_legs-Moves b r c near e
  generate_by_type-Moves rook e =
      collect-All (rook_line b r c) (rook_line-Moves b r c near) array_king_delta e
  generate_by_type-Moves cannon e =
      collect-All (cannon_line b r c) (cannon_line-Moves b r c near) array_king_delta e
  generate_by_type-Moves pawn e =
      let (home, e1, f1) = >>=-eq-some (king_square b (b.store r).side) _ e in
      pawn_moves-Moves b r c near home f1

-- Where `generateMoves` gives an array of moves for a piece on the array, each of the moves
-- starts on the piece's square, and ends on a piece of the opponent or on an empty square; with
-- captures only, always on a piece of the opponent.
pub generate_moves-Moves :
    (b : Position) (r : ℕ) (capatured : Bool) {mvs : List ℕ}
    → (b.store r).square < 256
    → generate_moves b (some r) capatured ≡ some (moves mvs)
    → All (Moves b r capatured) mvs
unfolding generate_moves
generate_moves-Moves b r capatured {mvs} near e = elim (if-eq-some (b.store r).show _ _ e) [
  | inl (_, f) ↦
      let (found, e1, f1) = >>=-eq-some (generate_by_type b r capatured (b.store r).kind) _ f in
      let same : mvs ≡ found = cc in
      rw same (generate_by_type-Moves b r capatured near (b.store r).kind e1)
  | inr (_, f) ↦ cc
]
