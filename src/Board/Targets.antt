-- ===== src/Board/Targets.antt =====
-- assets/js/board.js: where the moves of `generateMoves` start and end.
pub mod Steps
pub mod Rays
pub mod Whole
use cchess.Base.{
  ℕ, zero, suc, ◌+◌, ◌<◌, ◌≡◌, refl, ap, ◌∙◌, ◌⊎◌, inl, inr, arith, Bool, true, false, not, ◌&&◌,
  ◌||◌, List, [], ◌∷◌, ◌++◌, Option, none, some, if◌then◌else◌, ◌>>=◌, >>=-eq-some, if-eq-some,
  Bool-cases, Option-cases,
}
use cchess.Base.Int.{ℤ, pos, negsuc}
use cchess.Constants.{
  PieceType, king, advisor, bishop, knight, rook, cannon, pawn, array_king_delta,
  array_advisor_delta,
}
use cchess.Geometry.{shift, in_board, in_fort, same_half, get_move, start_of_move, end_of_move}
use cchess.Geometry.Packing.{squares-get_move}
use cchess.Board.State.{Position, cmp_piece_opp_side}
use cchess.Board.Rules.{is_empty, king_square, get_piece_forward_step}
use cchess.Board.Generate.{
  Generated, moves, zero_result, collect, from_here, quiet, capture, palace_step, bishop_step,
  knight_step, knight_leg, knight_legs, rook_ray, cannon_slide, cannon_shoot, ray_fuel, rook_line,
  cannon_line, pawn_step, pawn_moves, generate_by_type, generate_moves,
}

abbrev pub All {ℓ κ} : {A : Type ℓ} → (A → Type κ) → List A → Type κ
All P [] = Unit
All P (x ∷ xs) = P x × All P xs

pub All-append {ℓ κ} :
    {A : Type ℓ} (P : A → Type κ) (xs ys : List A) → All P xs → All P ys → All P (xs ++ ys)
All-append P [] ys h k = k
All-append P (x ∷ xs) ys (h, hs) k = (h, All-append P xs ys hs k)

-- A loop whose body finds only good moves finds only good moves.
pub collect-All {κ} :
    {P : ℕ → Type κ} (body : ℤ → Option (List ℕ))
    → ((delta : ℤ) (mvs : List ℕ) → body delta ≡ some mvs → All P mvs)
    → (deltas : List ℤ) {mvs : List ℕ} → collect body deltas ≡ some mvs
    → All P mvs
unfolding collect
collect-All {P} body good [] {mvs} e = let same : mvs ≡ [] = cc in rw same tt
collect-All {P} body good (delta ∷ rest) {mvs} e =
    let (here, e1, f1) = >>=-eq-some (body delta) _ e in
    let (others, e2, f2) = >>=-eq-some (collect body rest) _ f1 in
    let same : mvs ≡ here ++ others = cc in
    rw same (All-append P here others (good delta here e1) (collect-All body good rest e2))

-- A move of the piece `r`: it starts where the piece stands, and ends on an opponent's piece or, if
-- not only captures are wanted, on an empty square.
abbrev pub Moves : Position → ℕ → Bool → ℕ → Type 0
Moves b r capatured mv =
    (start_of_move mv ≡ (b.store r).square)
    × ((cmp_piece_opp_side b r (b.cells (end_of_move mv)) ≡ true)
        ⊎ (capatured ≡ false) × (is_empty (b.cells (end_of_move mv)) ≡ true))

module _ (b : Position) (r : ℕ) (c : Bool) (near : (b.store r).square < 256) where
  pub capture-Moves : (dest : ℕ) → All (Moves b r c) (capture b r c dest)
  capture-Moves dest = by_test (cmp_piece_opp_side b r (b.cells dest)) refl
    where
      by_test :
          (t : Bool)
          → cmp_piece_opp_side b r (b.cells dest) ≡ t
          → All (Moves b r c) (if t then from_here b r c dest ∷ [] else [])
      by_test true h =
          let (start, end) = squares-get_move (b.store r).square dest near in
          ((start, inl (rw end h)), tt)
      by_test false h = tt

  pub slide-Moves :
      (dest : ℕ) → c ≡ false → is_empty (b.cells dest) ≡ true → Moves b r c (from_here b r c dest)
  slide-Moves dest hc he =
      let (start, end) = squares-get_move (b.store r).square dest near in
      (start, inr (hc, rw end he))

  pub quiet-Moves : (dest : ℕ) → All (Moves b r c) (quiet b r c dest)
  quiet-Moves dest = by_test c (is_empty (b.cells dest)) refl refl
    where
      by_test :
          (t e : Bool)
          → c ≡ t
          → is_empty (b.cells dest) ≡ e
          → All (Moves b r c) (if not t && e then from_here b r c dest ∷ [] else [])
      by_test false true hc he = (slide-Moves dest hc he, tt)
      by_test false false hc he = tt
      by_test true _ hc he = tt

  pub both-Moves :
      (t : Bool) (dest : ℕ)
      → All (Moves b r c) (if t then quiet b r c dest ++ capture b r c dest else [])
  both-Moves true dest = All-append (Moves b r c) _ _ (quiet-Moves dest) (capture-Moves dest)
  both-Moves false dest = tt

  -- An empty square of a line gives a move unless only captures are wanted.
  pub glide-Moves :
      (dest : ℕ) (others : List ℕ)
      → is_empty (b.cells dest) ≡ true
      → All (Moves b r c) others
      → All (Moves b r c) (if c then others else from_here b r c dest ∷ others)
  glide-Moves dest others free rest = by_flag c refl
    where
      by_flag :
          (t : Bool)
          → c ≡ t
          → All (Moves b r c) (if t then others else from_here b r c dest ∷ others)
      by_flag true h = rest
      by_flag false h = (slide-Moves dest h free, rest)
