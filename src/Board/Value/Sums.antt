-- ===== src/Board/Value/Sums.antt =====
-- Sums of piece values over a list of references, and what one changed piece does to them.
use cchess.Base.{
  ℕ, suc, ◌+◌, ◌*◌, ◌≡◌, arith, true, false, List, [], ◌∷◌, ◌++◌, Option, none, some, ◌==◌, ==_iff,
  if◌then◌else◌, Bool-cases, inl, inr,
}
use cchess.Board.State.{Piece, get_piece_value, update}

abbrev or_zero : Option ℕ → ℕ
or_zero none = 0
or_zero (some v) = v

-- The table's value of a piece where it stands.
pub worth : Piece → ℕ
worth p = or_zero (get_piece_value p.kind p.side p.square)

pub worth-eq : (p : Piece) (v : ℕ) → get_piece_value p.kind p.side p.square ≡ some v → worth p ≡ v
unfolding worth
worth-eq p v h = rw h

unfoldable pub shown_worth : Piece → ℕ
shown_worth p = if p.show then worth p else 0

unfoldable pub total : (ℕ → Piece) → List ℕ → ℕ
total store [] = 0
total store (r ∷ rest) = shown_worth (store r) + total store rest

-- How often a list names a piece.
unfoldable pub count : ℕ → List ℕ → ℕ
count r [] = 0
count r (s ∷ rest) = if r == s then suc (count r rest) else count r rest

-- A changed piece moves the sum by its difference, as often as the list names it.
pub total-update :
    (store : ℕ → Piece) (r : ℕ) (p : Piece) (pieces : List ℕ)
    → total (update store r p) pieces + count r pieces * shown_worth (store r)
      ≡ total store pieces + count r pieces * shown_worth p
unfolding total count
total-update store r p [] = omega arith
total-update store r p (s ∷ rest) = elim (Bool-cases (r == s)) [
  | inl e ↦
      let same : r ≡ s = (==_iff r s).0 e in
      rw (e, ← same) (omega (arith, total-update store r p rest))
  | inr e ↦ rw e (omega (arith, total-update store r p rest))
]

-- A piece named once, and one not named.
module _ (store : ℕ → Piece) (r : ℕ) (p : Piece) (pieces : List ℕ) where
  pub total-update_once :
      count r pieces ≡ 1
      → total (update store r p) pieces + shown_worth (store r) ≡ total store pieces + shown_worth p
  total-update_once h = let t = rw h at (total-update store r p pieces) in omega arith

  pub total-update_absent :
      count r pieces ≡ 0 → total (update store r p) pieces ≡ total store pieces
  total-update_absent h = let t = rw h at (total-update store r p pieces) in omega arith

pub shown_worth-hidden : (p : Piece) → p.show ≡ false → shown_worth p ≡ 0
unfolding shown_worth
shown_worth-hidden p h = rw h

pub shown_worth-shown :
    (p : Piece) (v : ℕ)
    → p.show ≡ true
    → get_piece_value p.kind p.side p.square ≡ some v
    → shown_worth p ≡ v
unfolding shown_worth worth
shown_worth-shown p v h e = rw (h, e)

pub total-append :
    (store : ℕ → Piece) (xs ys : List ℕ) → total store (xs ++ ys) ≡ total store xs + total store ys
unfolding total
total-append store [] ys = omega arith
total-append store (x ∷ xs) ys = omega (arith, total-append store xs ys)

pub count-append : (r : ℕ) (xs ys : List ℕ) → count r (xs ++ ys) ≡ count r xs + count r ys
unfolding count
count-append r [] ys = omega arith
count-append r (x ∷ xs) ys = ground (arith, count-append r xs ys)

pub count-single : (r s : ℕ) → count r (s ∷ []) ≡ (if r == s then 1 else 0)
unfolding count
count-single r s = ground arith

pub total-single : (store : ℕ → Piece) (r : ℕ) → total store (r ∷ []) ≡ shown_worth (store r)
unfolding total
total-single store r = omega arith
