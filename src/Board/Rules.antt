-- ===== src/Board/Rules.antt =====
-- assets/js/board.js: `getPieceForwardStep`, `legalMovePiece` and the tests for check,
-- `willKillKing` and its two users.
use cchess.Base.{
  ℕ, zero, suc, ◌+◌, ◌-◌, ◌/◌, bit_and, Bool, true, false, not, ◌&&◌, ◌||◌, List, [], ◌∷◌, Option,
  none, some, get_elem?, leb, ◌==◌, if◌then◌else◌, ◌>>=◌,
}
use cchess.Base.Int.{ℤ, pos, negsuc}
use cchess.Constants.{
  Side, PieceType, king, advisor, bishop, knight, rook, cannon, pawn, array_legal_span,
  array_knight_pin,
}
use cchess.Geometry.{shift, in_fort, same_half, get_offset}
use cchess.Board.State.{Position, Board, player, opponent, cmp_piece_same_side}

-- `array[dest - start + 256]`
abbrev pub entry {ℓ} : {A : Type ℓ} → List A → ℕ → ℕ → Option A
entry table start dest =
    if leb start (dest + 256) then get_elem? table (dest + 256 - start) else none

-- `array_legal_span[dest - start + 256] == kind`
unfoldable pub spans : ℕ → ℕ → ℕ → Bool
spans kind start dest = elim (entry array_legal_span start dest) [
  | none ↦ false
  | some k ↦ k == kind
]

abbrev pub is_empty : Option ℕ → Bool
is_empty none = true
is_empty (some r) = false

-- `!this.pieces_[i]`; there is nothing at a negative index.
abbrev pub vacant : Position → Option ℕ → Bool
vacant b none = true
vacant b (some i) = is_empty (b.cells i)

-- `kingPiece.pos`; reading it from no king throws.
unfoldable pub king_square : Position → Side → Option ℕ
king_square b side = (player b side).king_piece >>= λ k. some (b.store k).square

-- `0x80 & kingPiece.pos`: the player's home is the lower half of the array.
unfoldable pub is_down : ℕ → Bool
is_down square = not (bit_and square 0x80 == 0)

-- `getPieceForwardStep`, its king's square given.
unfoldable pub get_piece_forward_step : ℕ → ℕ → Option ℕ
get_piece_forward_step home square = shift square (if is_down home then negsuc 15 else pos 16)

-- `while (curPos != dest && !this.pieces_[curPos]) curPos += offset`: where it stops. With the
-- fuel spent the loop has passed every square of the array.
unfoldable pub walk : ℕ → Position → ℤ → ℕ → ℕ → Option ℕ
walk zero b offset dest cur = none
walk (suc fuel) b offset dest cur = elim (cur == dest || not (is_empty (b.cells cur))) [
  | true ↦ some cur
  | false ↦ elim (shift cur offset) [ none ↦ none | some next ↦ walk fuel b offset dest next ]
]

-- One step on, then the loop, with fuel for all squares up to 256 past both ends.
unfoldable pub stride : Position → ℤ → ℕ → ℕ → Option ℕ
stride b offset dest cur = shift cur offset >>= walk (suc (cur + dest + 256)) b offset dest

-- Where the line is free up to `dest`, by the type of the piece.
unfoldable pub line_reaches : Position → ℕ → ℕ → PieceType → Bool
line_reaches b r dest king = elim (b.cells dest) [
  | none ↦ false
  | some s ↦ elim (b.store s).kind [ king ↦ true | _ ↦ false ]
]
line_reaches b r dest rook = not (cmp_piece_same_side b r (b.cells dest))
line_reaches b r dest _ = is_empty (b.cells dest)

-- Where a piece stands at `cur` on the way: only the cannon goes on, to the next piece.
unfoldable pub line_blocked : Position → ℤ → ℕ → ℕ → PieceType → Option Bool
line_blocked b offset dest cur cannon = stride b offset dest cur >>= λ end. some (end == dest)
line_blocked b offset dest cur _ = some false

-- The loop up to the first piece, and what follows it.
unfoldable pub along : Position → ℕ → ℕ → ℤ → Option Bool
along b r dest offset = stride b offset dest (b.store r).square >>= λ cur.
    if cur == dest
    then some (line_reaches b r dest (b.store r).kind)
    else line_blocked b offset dest cur (b.store r).kind

unfoldable pub from_offset : Position → ℕ → ℕ → ℤ → Option Bool
from_offset b r dest (pos zero) = some false
from_offset b r dest offset = along b r dest offset

-- The branch of `legalMovePiece` for king, rook and cannon along a row or a column.
unfoldable pub legal_line : Position → ℕ → ℕ → Option Bool
legal_line b r dest = from_offset b r dest (get_offset (b.store r).square dest)

-- The branch for the knight: the pin is not 0, and nothing stands there. Past the table the pin is
-- `undefined`, and both tests hold.
unfoldable pub knight_jumps : Position → ℕ → ℕ → Bool
knight_jumps b start dest = elim (entry array_knight_pin start dest) [
  | none ↦ true
  | some (pos zero) ↦ false
  | some pin ↦ vacant b (shift start pin)
]

abbrev pub reaches : Option ℕ → ℕ → Bool
reaches none dest = false
reaches (some square) dest = dest == square

-- The branch for the pawn, its king's square given.
unfoldable pub pawn_steps : ℕ → ℕ → ℕ → Bool
pawn_steps home start dest =
    if not (same_half home start) && (start + 1 == dest || start == dest + 1)
    then true
    else reaches (get_piece_forward_step home start) dest

-- `legalMovePiece` by the type of the piece.
unfoldable pub legal_by_type : PieceType → Position → ℕ → ℕ → Option Bool
legal_by_type king b r dest =
    if in_fort dest && spans 1 (b.store r).square dest then some true else legal_line b r dest
legal_by_type advisor b r dest = some (in_fort dest && spans 2 (b.store r).square dest)
legal_by_type bishop b r dest =
    let start : ℕ = (b.store r).square in
    some (same_half start dest && spans 3 start dest && is_empty (b.cells ((start + dest) / 2)))
legal_by_type knight b r dest = some (knight_jumps b (b.store r).square dest)
legal_by_type rook b r dest = legal_line b r dest
legal_by_type cannon b r dest = legal_line b r dest
legal_by_type pawn b r dest =
    king_square b (b.store r).side >>= λ home. some (pawn_steps home (b.store r).square dest)

-- `legalMovePiece`; `none` if it throws or loops for ever.
unfoldable pub legal_move_piece : Position → ℕ → ℕ → Option Bool
legal_move_piece b r dest = legal_by_type (b.store r).kind b r dest

-- The loop of `willKillKing` over the opponent's pieces; `target` is the king's square.
unfoldable pub some_piece_kills : Position → Option ℕ → List ℕ → Option Bool
some_piece_kills b target [] = some false
some_piece_kills b target (r ∷ rest) =
    let others = some_piece_kills b target rest in
    if (b.store r).show
    then (target >>= legal_move_piece b r >>= λ hit. if hit then some true else others)
    else others

-- `willKillKing`: can the opponent of `side` take its king?
unfoldable pub will_kill_king : Position → Side → Option Bool
will_kill_king b side = some_piece_kills b (king_square b side) (player b (opponent side)).pieces

unfoldable pub will_kill_self_king : Board → Option Bool
will_kill_self_king b = will_kill_king b.position b.cur_side

unfoldable pub will_kill_opp_king : Board → Option Bool
will_kill_opp_king b = will_kill_king b.position (opponent b.cur_side)
