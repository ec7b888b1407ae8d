-- ===== src/Board/Finish/Pieces.antt =====
-- assets/js/board.js: the parts of `generateMoves`, for a piece on the board.
use cchess.Base.{
  ℕ, ◌+◌, ◌-◌, ◌<◌, ◌≤◌, ◌≡◌, refl, ◌∙◌, inl, inr, arith, Bool, true, false, not, ◌||◌, List, [],
  ◌∷◌, ◌++◌, Option, none, some, if◌then◌else◌, ltb, ◌>>=◌, >>=-of, Bool-cases,
}
use cchess.Base.Int.{ℤ, pos, negsuc}
use cchess.Geometry.{shift, in_board, same_half}
use cchess.Geometry.Coordinates.{in_board_iff}
use cchess.Board.State.{Position}
use cchess.Board.Rules.{is_empty, get_piece_forward_step, is_down}
use cchess.Board.Answers.{Answers}
use cchess.Board.Targets.{All}
use cchess.Board.Generate.{
  collect, quiet, capture, palace_step, bishop_step, knight_step, knight_leg, knight_legs,
  rook_line, cannon_line, pawn_step, pawn_moves,
}
use cchess.Board.Finish.{Ray, rook_ray-Answers, cannon_shoot-Answers, cannon_slide-Answers}

-- A step that leads to a square from every square of the board and next to it.
abbrev pub Small : ℤ → Type 0
Small delta = (p : ℕ) → 51 ≤ p → (q : ℕ) × (shift p delta ≡ some q)

pub forth_Small : (n : ℕ) → Small (pos n)
unfolding shift
forth_Small n p h = (p + n, refl)

pub back_Small : (n : ℕ) → n < 51 → Small (negsuc n)
unfolding shift
back_Small n small p h = (p - (n + 1), ground arith)

pub forth_short : (n : ℕ) → n ≤ 17 → (p q : ℕ) → shift p (pos n) ≡ some q → q ≤ p + 17
unfolding shift
forth_short n small p q e = let same : p + n ≡ q = cc in omega arith

pub back_short : (n : ℕ) (p q : ℕ) → shift p (negsuc n) ≡ some q → q ≤ p + 17
unfolding shift
back_short n p q e = by_test (ltb n p) e
  where
    by_test : (t : Bool) → (if t then some (p - (n + 1)) else none) ≡ some q → q ≤ p + 17
    by_test true e = let same : p - (n + 1) ≡ q = cc in omega arith
    by_test false e = cc

collect-Answers :
    (body : ℤ → Option (List ℕ)) (deltas : List ℤ)
    → All (λ delta. Answers (body delta)) deltas
    → Answers (collect body deltas)
unfolding collect
collect-Answers body [] h = ([], refl)
collect-Answers body (delta ∷ rest) ((here, e), h) =
    let (others, f) = collect-Answers body rest h in (here ++ others, >>=-of _ e ∙ >>=-of _ f)

pub collect_four-Answers :
    (body : ℤ → Option (List ℕ)) {w x y z : ℤ}
    → Answers (body w) × Answers (body x) × Answers (body y) × Answers (body z)
    → Answers (collect body (w ∷ x ∷ y ∷ z ∷ []))
collect_four-Answers body (h, i, j, k) = collect-Answers body _ (h, (i, (j, (k, tt))))

module _ (b : Position) (r : ℕ) (c : Bool) (low : 51 ≤ (b.store r).square)
    (high : (b.store r).square < 256) (on : in_board (b.store r).square ≡ true) where
  pub palace_step-Answers : (delta : ℤ) → Small delta → Answers (palace_step b r c delta)
  unfolding palace_step
  palace_step-Answers delta small = let (q, e) = small (b.store r).square low in (_, >>=-of _ e)

  knight_step-Answers : (delta : ℤ) → Small delta → Answers (knight_step b r c delta)
  unfolding knight_step
  knight_step-Answers delta small = let (q, e) = small (b.store r).square low in (_, >>=-of _ e)

  -- The eye of a bishop that is on the board is as far from the edge of the array as the bishop.
  pub bishop_step-Answers :
      (delta : ℤ)
      → Small delta
      → ((q : ℕ) → shift (b.store r).square delta ≡ some q → q < 256)
      → Answers (bishop_step b r c delta)
  unfolding bishop_step
  bishop_step-Answers delta small near =
      let (eye, e) = small (b.store r).square low in
      let (answer, f) = by_eye eye (near eye e) in (answer, >>=-of _ e ∙ f)
    where
      by_eye :
          (eye : ℕ)
          → eye < 256
          → Answers (
              if not (in_board eye)
                || not (same_half (b.store r).square eye)
                || not (is_empty (b.cells eye))
              then some []
              else (shift eye delta >>= λ dest. some (quiet b r c dest ++ capture b r c dest)))
      by_eye eye h = elim (Bool-cases (in_board eye)) [
        | inr off ↦ rw off ([], refl)
        | inl at ↦
            let inside = (in_board_iff eye h).0 at in
            let (dest, f) = small eye (omega (arith, inside)) in
            rw at (
              by_rest eye dest f
                (not (same_half (b.store r).square eye) || not (is_empty (b.cells eye))))
      ]
        where
          by_rest :
              (eye dest : ℕ)
              → shift eye delta ≡ some dest
              → (t : Bool)
              → Answers (
                  if t
                  then some []
                  else (shift eye delta >>= λ dest'.
                      some (quiet b r c dest' ++ capture b r c dest')))
          by_rest eye dest f true = ([], refl)
          by_rest eye dest f false = (_, >>=-of _ f)

  knight_leg-Answers :
      (pin near far : ℤ)
      → Small pin
      → Small near
      → Small far
      → Answers (knight_leg b r c pin near far)
  unfolding knight_leg
  knight_leg-Answers pin near far sp sn sf =
      let (leg, e) = sp (b.store r).square low in
      let (answer, f) = by_leg (is_empty (b.cells leg)) in (answer, >>=-of _ e ∙ f)
    where
      by_leg :
          (t : Bool)
          → Answers (if t then collect (knight_step b r c) (near ∷ far ∷ []) else some [])
      by_leg true =
          collect-Answers (knight_step b r c) (near ∷ far ∷ [])
            (knight_step-Answers near sn, (knight_step-Answers far sf, tt))
      by_leg false = ([], refl)

  pub knight_legs-Answers : Answers (knight_legs b r c)
  unfolding knight_legs
  knight_legs-Answers =
      let (w, e) =
        knight_leg-Answers (negsuc 15) (negsuc 32) (negsuc 30) (back_Small 15 (omega arith))
          (back_Small 32 (omega arith)) (back_Small 30 (omega arith)) in
      let (x, f) =
        knight_leg-Answers (negsuc 0) (negsuc 17) (pos 14) (back_Small 0 (omega arith))
          (back_Small 17 (omega arith)) (forth_Small 14) in
      let (y, g) =
        knight_leg-Answers (pos 1) (negsuc 13) (pos 18) (forth_Small 1)
          (back_Small 13 (omega arith)) (forth_Small 18) in
      let (z, h) =
        knight_leg-Answers (pos 16) (pos 31) (pos 33) (forth_Small 16) (forth_Small 31)
          (forth_Small 33) in
      (w ++ x ++ y ++ z, >>=-of _ e ∙ >>=-of _ f ∙ >>=-of _ g ∙ >>=-of _ h)

  pub rook_line-Answers : (delta : ℤ) → Ray delta → Answers (rook_line b r c delta)
  unfolding rook_line
  rook_line-Answers delta ray =
      let (q, e, near, less) = ray.next (b.store r).square high on in
      let (answer, f) =
        rook_ray-Answers b r c delta ray 17 q (omega (arith, near))
          (omega (arith, less, ray.bound (b.store r).square high)) in
      (answer, >>=-of _ e ∙ f)

  pub cannon_line-Answers : (delta : ℤ) → Ray delta → Answers (cannon_line b r c delta)
  unfolding cannon_line
  cannon_line-Answers delta ray =
      let (q, e, near, less) = ray.next (b.store r).square high on in
      let (slides, stop, f, last) =
        cannon_slide-Answers b r c delta ray 17 q near
          (omega (arith, less, ray.bound (b.store r).square high)) in
      let (beyond, g, below) = ray.beyond stop last in
      let (shots, h) =
        cannon_shoot-Answers b r c delta ray 17 beyond below
          (omega (arith, ray.bound beyond below)) in
      (slides ++ shots, >>=-of _ e ∙ >>=-of _ f ∙ >>=-of _ g ∙ >>=-of _ h)

  pawn_step-Answers :
      (delta : ℤ) → Small delta → Answers (pawn_step b r c (shift (b.store r).square delta))
  unfolding pawn_step
  pawn_step-Answers delta small = let (q, e) = small (b.store r).square low in rw e (_, refl)

  pub pawn_moves-Answers : (home : ℕ) → Answers (pawn_moves b r c home)
  unfolding pawn_moves get_piece_forward_step
  pawn_moves-Answers home =
      let (ahead, e) = forward (is_down home) in
      let (answer, f) = by_half ahead (same_half home (b.store r).square) in
      (answer, >>=-of _ e ∙ f)
    where
      forward :
          (t : Bool)
          → Answers (pawn_step b r c (shift (b.store r).square (if t then negsuc 15 else pos 16)))
      forward true = pawn_step-Answers (negsuc 15) (back_Small 15 (omega arith))
      forward false = pawn_step-Answers (pos 16) (forth_Small 16)

      by_half :
          (ahead : List ℕ) (t : Bool)
          → Answers (
              if t
              then some ahead
              else (collect
                    (λ delta. pawn_step b r c (shift (b.store r).square delta))
                    (negsuc 0 ∷ pos 1 ∷ [])
                  >>= λ aside. some (ahead ++ aside)))
      by_half ahead true = (ahead, refl)
      by_half ahead false =
          let (aside, e) =
            collect-Answers (λ delta. pawn_step b r c (shift (b.store r).square delta))
              (negsuc 0 ∷ pos 1 ∷ [])
              (
                pawn_step-Answers (negsuc 0) (back_Small 0 (omega arith)),
                (pawn_step-Answers (pos 1) (forth_Small 1), tt),
              ) in
          (ahead ++ aside, >>=-of _ e)
