-- ===== src/Board/Lines.antt =====
-- assets/js/board.js: the loops of `legalMovePiece` along a row or a column.
use cchess.Base.{
  ℕ, zero, suc, ◌+◌, ◌-◌, ◌*◌, ◌/◌, ◌≤◌, ◌<◌, ◌≡◌, ◌≢◌, refl, ◌∙◌, ◌⊎◌, inl, inr, arith, Bool, true,
  false, not, ◌||◌, some, ◌==◌, ==_iff, ltb, >>=-of, Bool-cases,
}
use cchess.Base.Int.{ℤ, pos, negsuc}
use cchess.Geometry.{shift, get_offset, same_row, same_col}
use cchess.Geometry.Coordinates.{same_col_iff}
use cchess.Board.State.{Position}
use cchess.Board.Rules.{walk, stride, is_empty}

-- `dest` is `m` steps of `offset` ahead of `cur`.
abbrev pub Ahead : ℤ → ℕ → ℕ → ℕ → Type 0
Ahead (pos d) cur dest m = (cur + m * d ≡ dest) × (0 < d)
Ahead (negsuc k) cur dest m = cur ≡ dest + m * (k + 1)

pub shift-Ahead :
    (offset : ℤ) (cur dest m : ℕ)
    → Ahead offset cur dest (suc m)
    → (next : ℕ) × (shift cur offset ≡ some next) × Ahead offset next dest m
unfolding shift
shift-Ahead (pos d) cur dest m (h, p) = (cur + d, refl, (omega (arith, h), p))
shift-Ahead (negsuc k) cur dest m h = (cur - (k + 1), ground arith, omega (arith, h))

-- Where a loop stopped: on the way, at the target or at a piece.
pub record Stop (b : Position) (offset : ℤ) (dest limit stop : ℕ) : Type 0 where
  pub left : ℕ
  pub ahead : Ahead offset stop dest left
  pub nearer : left ≤ limit
  pub reason : (stop ≡ dest) ⊎ (is_empty (b.cells stop) ≡ false)

abbrev ends : Position → ℕ → ℕ → Bool
ends b dest cur = cur == dest || not (is_empty (b.cells cur))

walk-ends :
    (fuel : ℕ) (b : Position) (offset : ℤ) (dest cur : ℕ)
    → ends b dest cur ≡ true
    → walk (suc fuel) b offset dest cur ≡ some cur
unfolding walk
walk-ends fuel b offset dest cur e = rw (e, walk)

walk-onward :
    (fuel : ℕ) (b : Position) (offset : ℤ) (dest cur next : ℕ)
    → ends b dest cur ≡ false
    → shift cur offset ≡ some next
    → walk (suc fuel) b offset dest cur ≡ walk fuel b offset dest next
unfolding walk
walk-onward fuel b offset dest cur next e h = rw (e, h, walk)

ends-reason :
    (b : Position) (dest cur : ℕ) (free : Bool)
    → is_empty (b.cells cur) ≡ free
    → (cur == dest || not free) ≡ true
    → (cur ≡ dest) ⊎ (is_empty (b.cells cur) ≡ false)
ends-reason b dest cur true e f = inl (ground arith)
ends-reason b dest cur false e f = inr e

pub Ahead-zero : (offset : ℤ) (cur dest : ℕ) → Ahead offset cur dest 0 → cur ≡ dest
Ahead-zero (pos d) cur dest h = omega (arith, h.0)
Ahead-zero (negsuc k) cur dest h = omega (arith, h)

ends-at : (b : Position) (cur dest : ℕ) → cur ≡ dest → ends b dest cur ≡ true
ends-at b cur dest h = ground (arith, ==_iff cur dest)

pub walk-Stop :
    (fuel : ℕ) (b : Position) (offset : ℤ) (dest cur m : ℕ)
    → Ahead offset cur dest m
    → m < fuel
    → (stop : ℕ) × (walk fuel b offset dest cur ≡ some stop) × Stop b offset dest m stop
walk-Stop zero b offset dest cur m h lt = absurd (omega arith)
walk-Stop (suc fuel) b offset dest cur zero h lt =
    let here = Ahead-zero offset cur dest h in
    (
      cur,
      walk-ends fuel b offset dest cur (ends-at b cur dest here),
      record { left = 0; ahead = h; nearer = omega arith; reason = inl here },
    )
walk-Stop (suc fuel) b offset dest cur (suc m) h lt = elim (Bool-cases (ends b dest cur)) [
  | inl e ↦ (
    cur,
    walk-ends fuel b offset dest cur e,
    record {
      left = suc m;
      ahead = h;
      nearer = omega arith;
      reason = ends-reason b dest cur (is_empty (b.cells cur)) refl e;
    },
  )
  | inr e ↦
      let (next, step, ahead) = shift-Ahead offset cur dest m h in
      let (stop, rest, s) = walk-Stop fuel b offset dest next m ahead (omega arith) in
      (
        stop,
        walk-onward fuel b offset dest cur next e step ∙ rest,
        record {
          left = s.left;
          ahead = s.ahead;
          nearer = omega (arith, s.nearer);
          reason = s.reason;
        },
      )
]

-- The number of steps is at most the larger of the two squares.
Ahead-bound : (offset : ℤ) (cur dest m : ℕ) → Ahead offset cur dest m → m ≤ cur + dest
Ahead-bound (pos d) cur dest m (h, p) = grind arith
Ahead-bound (negsuc k) cur dest m h = grind arith

-- From a square with the target some steps ahead, one step and the loop `while (curPos != dest &&
-- !this.pieces_[curPos])` end, not past the target, and on the target or on a piece.
pub stride-Stop :
    (b : Position) (offset : ℤ) (dest cur m : ℕ)
    → Ahead offset cur dest (suc m)
    → (stop : ℕ) × (stride b offset dest cur ≡ some stop) × Stop b offset dest m stop
unfolding stride
stride-Stop b offset dest cur m h =
    let (next, step, ahead) = shift-Ahead offset cur dest m h in
    let (stop, rest, s) =
      walk-Stop (suc (cur + dest + 256)) b offset dest next m ahead
        (omega (arith, Ahead-bound offset cur dest (suc m) h)) in
    (stop, >>=-of _ step ∙ rest, s)

-- Between different squares of the array `get_offset` is 0, or a step that leads from the first
-- to the second when it is taken often enough.
pub get_offset-Ahead :
    (a b : ℕ)
    → a < 256
    → b < 256
    → a ≢ b
    → (get_offset a b ≡ pos 0) ⊎ ((m : ℕ) × Ahead (get_offset a b) a b (suc m))
unfolding get_offset
get_offset-Ahead a b ha hb ne = elim (Bool-cases (same_row a b)) [
  | inl r ↦ elim (Bool-cases (ltb b a)) [
    | inl l ↦ rw (r, l) (inr (a - b - 1, ground arith))
    | inr l ↦ rw (r, l) (inr (b - a - 1, (ground arith, omega arith)))
  ]
  | inr r ↦ elim (Bool-cases (same_col a b)) [
    | inl c ↦
        let agree = (same_col_iff a b).0 c in
        elim (Bool-cases (ltb b a)) [
          | inl l ↦ rw (r, c, l) (inr ((a - b) / 16 - 1, ground arith))
          | inr l ↦ rw (r, c, l) (inr ((b - a) / 16 - 1, (ground arith, omega arith)))
        ]
    | inr c ↦ rw (r, c) (inl refl)
  ]
]
