-- ===== src/Board/Targets/Rays.antt =====
-- assets/js/board.js: the moves of the rook and the cannon along their lines.
use cchess.Base.{
  ℕ, zero, suc, ◌<◌, ◌≡◌, refl, Bool, true, false, ◌&&◌, List, [], ◌∷◌, ◌++◌, Option, none, some,
  if◌then◌else◌, ◌>>=◌, >>=-eq-some,
}
use cchess.Base.Int.{ℤ}
use cchess.Geometry.{shift, in_board}
use cchess.Board.State.{Position}
use cchess.Board.Rules.{is_empty}
use cchess.Board.Generate.{
  from_here, capture, rook_ray, cannon_slide, cannon_shoot, rook_line, cannon_line,
}
use cchess.Board.Targets.{All, All-append, Moves, capture-Moves, glide-Moves}

module _ (b : Position) (r : ℕ) (c : Bool) (near : (b.store r).square < 256) where
  rook_ray-Moves :
      (fuel : ℕ) (delta : ℤ) (dest : ℕ) {mvs : List ℕ}
      → rook_ray b r c fuel delta dest ≡ some mvs
      → All (Moves b r c) mvs
  unfolding rook_ray
  rook_ray-Moves zero delta dest e = cc
  rook_ray-Moves (suc fuel) delta dest {mvs} e =
      by_square (in_board dest) (b.cells dest) refl refl
        λ next others f. rook_ray-Moves fuel delta next f
    where
      by_square :
          (on : Bool) (cell : Option ℕ)
          → in_board dest ≡ on
          → b.cells dest ≡ cell
          → ((next : ℕ) (others : List ℕ)
              → rook_ray b r c fuel delta next ≡ some others
              → All (Moves b r c) others)
          → All (Moves b r c) mvs
      by_square false cell off h later =
          let e' = rw (off, rook_ray) at e in let same : mvs ≡ [] = cc in rw same tt
      by_square true (some s) on h later =
          let e' = rw (on, h, rook_ray) at e in
          let same : mvs ≡ capture b r c dest = rw h (cc) in rw same (capture-Moves b r c near dest)
      by_square true none on h later =
          let e' = rw (on, h, rook_ray) at e in
          let (others, e1, f1) =
            >>=-eq-some (shift dest delta >>= rook_ray b r c fuel delta) _ e' in
          let (next, e2, f2) = >>=-eq-some (shift dest delta) _ e1 in
          let same : mvs ≡ (if c then others else from_here b r c dest ∷ others) = cc in
          rw same (glide-Moves b r c near dest others (rw h) (later next others f2))

  cannon_shoot-Moves :
      (fuel : ℕ) (delta : ℤ) (dest : ℕ) {mvs : List ℕ}
      → cannon_shoot b r c fuel delta dest ≡ some mvs
      → All (Moves b r c) mvs
  unfolding cannon_shoot
  cannon_shoot-Moves zero delta dest e = cc
  cannon_shoot-Moves (suc fuel) delta dest {mvs} e =
      by_square (in_board dest) (b.cells dest) refl refl
        λ next f. cannon_shoot-Moves fuel delta next f
    where
      by_square :
          (on : Bool) (cell : Option ℕ)
          → in_board dest ≡ on
          → b.cells dest ≡ cell
          → ((next : ℕ) → cannon_shoot b r c fuel delta next ≡ some mvs → All (Moves b r c) mvs)
          → All (Moves b r c) mvs
      by_square false cell off h later =
          let e' = rw (off, cannon_shoot) at e in let same : mvs ≡ [] = cc in rw same tt
      by_square true (some s) on h later =
          let e' = rw (on, h, cannon_shoot) at e in
          let same : mvs ≡ capture b r c dest = rw h (cc) in rw same (capture-Moves b r c near dest)
      by_square true none on h later =
          let (next, e1, f1) = >>=-eq-some (shift dest delta) _ (rw (on, h, cannon_shoot) at e) in
          later next f1

  free_of : (on free : Bool) → (on && free) ≡ true → free ≡ true
  free_of true free h = h
  free_of false free h = cc

  cannon_slide-Moves :
      (fuel : ℕ) (delta : ℤ) (dest : ℕ) {mvs : List ℕ} {stop : ℕ}
      → cannon_slide b r c fuel delta dest ≡ some (mvs, stop)
      → All (Moves b r c) mvs
  unfolding cannon_slide
  cannon_slide-Moves zero delta dest e = cc
  cannon_slide-Moves (suc fuel) delta dest {mvs} {stop} e =
      by_test (in_board dest && is_empty (b.cells dest)) refl
        λ next others last f. cannon_slide-Moves fuel delta next f
    where
      by_test :
          (go : Bool)
          → (in_board dest && is_empty (b.cells dest)) ≡ go
          → ((next : ℕ) (others : List ℕ) (last : ℕ)
              → cannon_slide b r c fuel delta next ≡ some (others, last)
              → All (Moves b r c) others)
          → All (Moves b r c) mvs
      by_test false h later =
          let e' = rw (h, cannon_slide) at e in let same : mvs ≡ [] = cc in rw same tt
      by_test true h later =
          let (x, e1, f1) =
            >>=-eq-some (shift dest delta >>= cannon_slide b r c fuel delta) _
              (rw (h, cannon_slide) at e) in
          let (next, e2, f2) = >>=-eq-some (shift dest delta) _ e1 in
          let same : mvs ≡ (if c then x.0 else from_here b r c dest ∷ x.0) = cc in
          rw same (glide-Moves b r c near dest x.0 (free_of _ _ h) (later next x.0 x.1 f2))

  pub rook_line-Moves :
      (delta : ℤ) (mvs : List ℕ) → rook_line b r c delta ≡ some mvs → All (Moves b r c) mvs
  unfolding rook_line
  rook_line-Moves delta mvs e =
      let (dest, e1, f1) = >>=-eq-some (shift (b.store r).square delta) _ e in
      rook_ray-Moves 17 delta dest f1

  pub cannon_line-Moves :
      (delta : ℤ) (mvs : List ℕ) → cannon_line b r c delta ≡ some mvs → All (Moves b r c) mvs
  unfolding cannon_line
  cannon_line-Moves delta mvs e =
      let (dest, e1, f1) = >>=-eq-some (shift (b.store r).square delta) _ e in
      let (x, e2, f2) = >>=-eq-some (cannon_slide b r c 17 delta dest) _ f1 in
      let (beyond, e3, f3) = >>=-eq-some (shift x.1 delta) _ f2 in
      let (shots, e4, f4) = >>=-eq-some (cannon_shoot b r c 17 delta beyond) _ f3 in
      let same : mvs ≡ x.0 ++ shots = cc in
      rw same (
        All-append (Moves b r c) x.0 shots (cannon_slide-Moves 17 delta dest e2)
          (cannon_shoot-Moves 17 delta beyond e4))
