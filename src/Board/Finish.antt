-- ===== src/Board/Finish.antt =====
-- assets/js/board.js: the loops of `generateMoves` along a line, and the fuel for them.
pub mod Pieces
pub mod Whole
use cchess.Base.{
  ℕ, zero, suc, ◌+◌, ◌-◌, ◌/◌, ◌%◌, ◌<◌, ◌≤◌, ◌≡◌, refl, ◌∙◌, ◌⊎◌, inl, inr, arith, Bool, true,
  false, not, ◌&&◌, ◌||◌, List, [], ◌∷◌, ◌++◌, Option, none, some, if◌then◌else◌, ◌>>=◌, >>=-of,
  Bool-cases, Option-cases,
}
use cchess.Base.Int.{ℤ, pos, negsuc}
use cchess.Constants.{
  PieceType, king, advisor, bishop, knight, rook, cannon, pawn, array_king_delta,
  array_advisor_delta,
}
use cchess.Geometry.{shift, in_board, in_fort, same_half}
use cchess.Geometry.Coordinates.{in_board_iff}
use cchess.Board.State.{Position}
use cchess.Board.Rules.{is_empty, king_square, get_piece_forward_step, is_down}
use cchess.Board.Answers.{Answers}
use cchess.Board.Generate.{
  Generated, moves, zero_result, collect, from_here, quiet, capture, palace_step, bishop_step,
  knight_step, knight_leg, knight_legs, rook_ray, cannon_slide, cannon_shoot, rook_line,
  cannon_line, pawn_step, pawn_moves, generate_by_type, generate_moves,
}

-- A square of the board or next to it.
abbrev pub Near : ℕ → Type 0
Near p = (35 ≤ p) × (p ≤ 219)

-- Along a line the squares ahead of a square of the board get fewer.
pub record Ray (delta : ℤ) : Type 0 where
  pub rank : ℕ → ℕ
  pub bound : (p : ℕ) → p < 256 → rank p ≤ 16
  pub next :
      (p : ℕ)
      → p < 256
      → in_board p ≡ true
      → (q : ℕ) × (shift p delta ≡ some q) × Near q × (rank q < rank p)
  pub beyond : (p : ℕ) → Near p → (q : ℕ) × (shift p delta ≡ some q) × (q < 256)

pub up_Ray : Ray (negsuc 15)
unfolding shift
up_Ray = record {
  rank = λ p. p / 16;
  bound = λ p h. omega arith;
  next = λ p h on.
      let inside = (in_board_iff p h).0 on in
      (p - 16, ground arith, (omega (arith, inside), omega (arith, inside)), omega (arith, inside));
  beyond = λ p h. (p - 16, ground arith, omega arith);
}

pub left_Ray : Ray (negsuc 0)
unfolding shift
left_Ray = record {
  rank = λ p. p % 16;
  bound = λ p h. omega arith;
  next = λ p h on.
      let inside = (in_board_iff p h).0 on in
      (p - 1, ground arith, (omega (arith, inside), omega (arith, inside)), omega (arith, inside));
  beyond = λ p h. (p - 1, ground arith, omega arith);
}

pub right_Ray : Ray (pos 1)
unfolding shift
right_Ray = record {
  rank = λ p. 16 - p % 16;
  bound = λ p h. omega arith;
  next = λ p h on.
      let inside = (in_board_iff p h).0 on in
      (p + 1, refl, (omega (arith, inside), omega (arith, inside)), omega (arith, inside));
  beyond = λ p h. (p + 1, refl, omega arith);
}

pub down_Ray : Ray (pos 16)
unfolding shift
down_Ray = record {
  rank = λ p. 16 - p / 16;
  bound = λ p h. omega arith;
  next = λ p h on.
      let inside = (in_board_iff p h).0 on in
      (p + 16, refl, (omega (arith, inside), omega (arith, inside)), omega (arith, inside));
  beyond = λ p h. (p + 16, refl, omega arith);
}

module _ (b : Position) (r : ℕ) (c : Bool) (delta : ℤ) (ray : Ray delta) where
  pub rook_ray-Answers :
      (fuel dest : ℕ) → dest < 256 → ray.rank dest < fuel → Answers (rook_ray b r c fuel delta dest)
  unfolding rook_ray
  rook_ray-Answers zero dest h lt = absurd (omega arith)
  rook_ray-Answers (suc fuel) dest h lt = elim (Bool-cases (in_board dest)) [
    | inr off ↦ ([], rw (off, rook_ray))
    | inl on ↦ elim (Option-cases (b.cells dest)) [
      | inr (s, e) ↦ rw (on, e, rook_ray) (_, refl)
      | inl e ↦
          let (q, step, near, less) = ray.next dest h on in
          let (others, f) = rook_ray-Answers fuel q (omega (arith, near)) (omega (arith, less)) in
          rw (on, e, rook_ray) (_, >>=-of _ (>>=-of _ step ∙ f))
    ]
  ]

  pub cannon_shoot-Answers :
      (fuel dest : ℕ)
      → dest < 256
      → ray.rank dest < fuel
      → Answers (cannon_shoot b r c fuel delta dest)
  unfolding cannon_shoot
  cannon_shoot-Answers zero dest h lt = absurd (omega arith)
  cannon_shoot-Answers (suc fuel) dest h lt = elim (Bool-cases (in_board dest)) [
    | inr off ↦ ([], rw (off, cannon_shoot))
    | inl on ↦ elim (Option-cases (b.cells dest)) [
      | inr (s, e) ↦ rw (on, e, cannon_shoot) (_, refl)
      | inl e ↦
          let (q, step, near, less) = ray.next dest h on in
          let (others, f) =
            cannon_shoot-Answers fuel q (omega (arith, near)) (omega (arith, less)) in
          (others, rw (on, e, cannon_shoot) (>>=-of _ step ∙ f))
    ]
  ]

  pub cannon_slide-Answers :
      (fuel dest : ℕ)
      → Near dest
      → ray.rank dest < fuel
      → (mvs : List ℕ) × (stop : ℕ) × (cannon_slide b r c fuel delta dest ≡ some (mvs, stop))
        × Near stop
  unfolding cannon_slide
  cannon_slide-Answers zero dest h lt = absurd (omega arith)
  cannon_slide-Answers (suc fuel) dest h lt =
      elim (Bool-cases (in_board dest && is_empty (b.cells dest))) [
        | inr off ↦ ([], dest, rw (off, cannon_slide), h)
        | inl on ↦
            let (q, step, near, less) = ray.next dest (omega arith) (first _ _ on) in
            let (others, stop, f, last) = cannon_slide-Answers fuel q near (omega (arith, less)) in
            rw (on, cannon_slide) (_, stop, >>=-of _ (>>=-of _ step ∙ f), last)
      ]
    where
      first : (x y : Bool) → (x && y) ≡ true → x ≡ true
      first true y h = refl
      first false y h = cc
