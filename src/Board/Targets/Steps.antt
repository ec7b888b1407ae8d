-- ===== src/Board/Targets/Steps.antt =====
-- assets/js/board.js: the moves of the king, the advisor, the bishop, the knight and the pawn.
use cchess.Base.{
  ℕ, ◌<◌, ◌≡◌, inl, inr, Bool, true, false, not, ◌||◌, List, [], ◌∷◌, ◌++◌, Option, none, some,
  if◌then◌else◌, >>=-eq-some, if-eq-some,
}
use cchess.Base.Int.{ℤ, pos, negsuc}
use cchess.Geometry.{shift, in_board, in_fort, same_half}
use cchess.Board.State.{Position}
use cchess.Board.Rules.{is_empty, get_piece_forward_step}
use cchess.Board.Generate.{
  collect, quiet, capture, palace_step, bishop_step, knight_step, knight_leg, knight_legs,
  pawn_step, pawn_moves,
}
use cchess.Board.Targets.{
  All, All-append, collect-All, Moves, capture-Moves, quiet-Moves, both-Moves,
}

module _ (b : Position) (r : ℕ) (c : Bool) (near : (b.store r).square < 256) where
  pub palace_step-Moves :
      (delta : ℤ) (mvs : List ℕ) → palace_step b r c delta ≡ some mvs → All (Moves b r c) mvs
  unfolding palace_step
  palace_step-Moves delta mvs e =
      let (dest, e1, f1) = >>=-eq-some (shift (b.store r).square delta) _ e in
      let same : mvs ≡ (if in_fort dest then quiet b r c dest ++ capture b r c dest else []) = cc in
      rw same (both-Moves b r c near (in_fort dest) dest)

  pub bishop_step-Moves :
      (delta : ℤ) (mvs : List ℕ) → bishop_step b r c delta ≡ some mvs → All (Moves b r c) mvs
  unfolding bishop_step
  bishop_step-Moves delta mvs e =
      let (eye, e1, f1) = >>=-eq-some (shift (b.store r).square delta) _ e in
      elim (if-eq-some
        (not (in_board eye)
          || not (same_half (b.store r).square eye)
          || not (is_empty (b.cells eye)))
        _ _ f1) [
          | inl (_, g) ↦ let same : mvs ≡ [] = cc in rw same tt
          | inr (_, g) ↦
              let (dest, e2, f2) = >>=-eq-some (shift eye delta) _ g in
              let same : mvs ≡ quiet b r c dest ++ capture b r c dest = cc in
              rw same (both-Moves b r c near true dest)
        ]

  knight_step-Moves :
      (delta : ℤ) (mvs : List ℕ) → knight_step b r c delta ≡ some mvs → All (Moves b r c) mvs
  unfolding knight_step
  knight_step-Moves delta mvs e =
      let (dest, e1, f1) = >>=-eq-some (shift (b.store r).square delta) _ e in
      let same : mvs ≡ (if in_board dest then quiet b r c dest ++ capture b r c dest else []) =
        cc in
      rw same (both-Moves b r c near (in_board dest) dest)

  knight_leg-Moves :
      (pin near' far : ℤ) {mvs : List ℕ}
      → knight_leg b r c pin near' far ≡ some mvs
      → All (Moves b r c) mvs
  unfolding knight_leg
  knight_leg-Moves pin near' far {mvs} e =
      let (leg, e1, f1) = >>=-eq-some (shift (b.store r).square pin) _ e in
      elim (if-eq-some (is_empty (b.cells leg)) _ _ f1) [
        | inl (_, g) ↦ collect-All (knight_step b r c) knight_step-Moves (near' ∷ far ∷ []) g
        | inr (_, g) ↦ let same : mvs ≡ [] = cc in rw same tt
      ]

  pub knight_legs-Moves : {mvs : List ℕ} → knight_legs b r c ≡ some mvs → All (Moves b r c) mvs
  unfolding knight_legs
  knight_legs-Moves {mvs} e =
      let (up, e1, f1) = >>=-eq-some (knight_leg b r c (negsuc 15) (negsuc 32) (negsuc 30)) _ e in
      let (left, e2, f2) = >>=-eq-some (knight_leg b r c (negsuc 0) (negsuc 17) (pos 14)) _ f1 in
      let (right, e3, f3) = >>=-eq-some (knight_leg b r c (pos 1) (negsuc 13) (pos 18)) _ f2 in
      let (down, e4, f4) = >>=-eq-some (knight_leg b r c (pos 16) (pos 31) (pos 33)) _ f3 in
      let same : mvs ≡ up ++ left ++ right ++ down = cc in
      rw same (
        All-append (Moves b r c) (up ++ left ++ right) down
          (All-append (Moves b r c) (up ++ left) right
            (All-append (Moves b r c) up left (knight_leg-Moves _ _ _ e1)
              (knight_leg-Moves _ _ _ e2))
            (knight_leg-Moves _ _ _ e3))
          (knight_leg-Moves _ _ _ e4))

  pawn_step-Moves :
      (o : Option ℕ) (mvs : List ℕ) → pawn_step b r c o ≡ some mvs → All (Moves b r c) mvs
  unfolding pawn_step
  pawn_step-Moves none mvs e = cc
  pawn_step-Moves (some dest) mvs e =
      let same : mvs ≡ (if in_board dest then capture b r c dest ++ quiet b r c dest else []) =
        cc in
      rw same (by_test (in_board dest))
    where
      by_test :
          (t : Bool) → All (Moves b r c) (if t then capture b r c dest ++ quiet b r c dest else [])
      by_test true =
          All-append (Moves b r c) (capture b r c dest) _ (capture-Moves b r c near dest)
            (quiet-Moves b r c near dest)
      by_test false = tt

  pub pawn_moves-Moves :
      (home : ℕ) {mvs : List ℕ} → pawn_moves b r c home ≡ some mvs → All (Moves b r c) mvs
  unfolding pawn_moves
  pawn_moves-Moves home {mvs} e =
      let start = (b.store r).square in
      let (ahead, e1, f1) = >>=-eq-some (pawn_step b r c (get_piece_forward_step home start)) _ e in
      let first = pawn_step-Moves (get_piece_forward_step home start) ahead e1 in
      elim (if-eq-some (same_half home start) _ _ f1) [
        | inl (_, g) ↦ let same : mvs ≡ ahead = cc in rw same first
        | inr (_, g) ↦
            let (aside, e2, f2) =
              >>=-eq-some
                (collect (λ delta. pawn_step b r c (shift start delta)) (negsuc 0 ∷ pos 1 ∷ [])) _
                g in
            let same : mvs ≡ ahead ++ aside = cc in
            rw same (
              All-append (Moves b r c) ahead aside first (
                collect-All (λ delta. pawn_step b r c (shift start delta))
                  (λ delta mvs'. pawn_step-Moves (shift start delta) mvs') (negsuc 0 ∷ pos 1 ∷ [])
                  e2))
      ]
