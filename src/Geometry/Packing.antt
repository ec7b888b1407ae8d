-- ===== src/Geometry/Packing.antt =====
-- assets/js/utils.js: `get_move`, `start_of_move`, `end_of_move` and `convert_reserse_move` as a
-- pairing of two squares.
use cchess.Base.{ℕ, ◌+◌, ◌*◌, ◌/◌, ◌%◌, ◌<◌, ◌≡◌, arith}
use cchess.Base.Bits.{bit_and_0xff, bit_or_bytes}
use cchess.Geometry.{start_of_move, end_of_move, get_move, convert_reserse_move}

pub start_of_move-mod : (mv : ℕ) → start_of_move mv ≡ mv % 256
unfolding start_of_move
start_of_move-mod mv = bit_and_0xff mv

pub get_move-add : (start end : ℕ) → start < 256 → get_move start end ≡ start + end * 256
unfolding get_move
get_move-add start end h = bit_or_bytes start end h

-- A move packed from a start below 256 and any end gives both back.
pub squares-get_move :
    (start end : ℕ)
    → start < 256
    → (start_of_move (get_move start end) ≡ start) × (end_of_move (get_move start end) ≡ end)
unfolding end_of_move
squares-get_move start end h =
    omega (arith, get_move-add start end h, start_of_move-mod (get_move start end))

-- Packing the two squares of any move gives the move back.
pub get_move-squares : (mv : ℕ) → get_move (start_of_move mv) (end_of_move mv) ≡ mv
unfolding end_of_move
get_move-squares mv =
    omega (arith, start_of_move-mod mv, get_move-add (start_of_move mv) (mv / 256))

convert_reserse_move-add :
    (mv : ℕ) → mv / 256 < 256 → convert_reserse_move mv ≡ mv / 256 + mv % 256 * 256
unfolding convert_reserse_move end_of_move
convert_reserse_move-add mv h =
    omega (arith, start_of_move-mod mv, get_move-add (mv / 256) (start_of_move mv) h)

-- A move below 65536 that is reversed twice is the move.
convert_reserse_move_twice :
    (mv : ℕ) → mv < 65536 → convert_reserse_move (convert_reserse_move mv) ≡ mv
convert_reserse_move_twice mv h = omega (
  arith,
  convert_reserse_move-add mv (omega arith),
  convert_reserse_move-add (convert_reserse_move mv)
      (omega (arith, convert_reserse_move-add mv (omega arith))),
)
