-- ===== src/Constants.antt =====
-- assets/js/constants.js: the tables and the small enumerations of the rules. A table is the list
-- of its numbers in the source's order.
pub mod Area
pub mod Span
pub mod Pin
mod PalaceValue
mod RoamValue
unfoldable pub use Area.*
unfoldable pub use Span.*
unfoldable pub use Pin.{array_knight_pin}
use PalaceValue.{king_value, advisor_value, bishop_value}
use RoamValue.{knight_value, rook_value, cannon_value, pawn_value}
use cchess.Base.{ℕ, List, [], ◌∷◌}
use cchess.Base.Int.{ℤ, pos, negsuc}

-- `SIDE_TYPE_*`
pub data Side : Type 0 where
  red black : Side

-- `PIECE_TYPE_*`
pub data PieceType : Type 0 where
  king advisor bishop knight rook cannon pawn : PieceType

-- `MOVE_RES_*`
pub data MoveRes : Type 0 where
  regular capatured general illegal killed lore : MoveRes

abbrev pub array_king_delta : List ℤ
array_king_delta = negsuc 15 ∷ negsuc 0 ∷ pos 1 ∷ pos 16 ∷ []

abbrev pub array_advisor_delta : List ℤ
array_advisor_delta = negsuc 16 ∷ negsuc 14 ∷ pos 15 ∷ pos 17 ∷ []

abbrev pub array_knight_delta : List (List ℤ)
array_knight_delta =
    (negsuc 32 ∷ negsuc 30 ∷ [])
    ∷ (negsuc 17 ∷ pos 14 ∷ [])
    ∷ (negsuc 13 ∷ pos 18 ∷ [])
    ∷ (pos 31 ∷ pos 33 ∷ [])
    ∷ []

-- `array_piece_value`, its row picked by the type of the piece.
unfoldable pub array_piece_value : PieceType → List ℕ
unfolding king_value advisor_value bishop_value knight_value rook_value cannon_value pawn_value
array_piece_value king = king_value
array_piece_value advisor = advisor_value
array_piece_value bishop = bishop_value
array_piece_value knight = knight_value
array_piece_value rook = rook_value
array_piece_value cannon = cannon_value
array_piece_value pawn = pawn_value
