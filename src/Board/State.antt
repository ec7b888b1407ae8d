-- ===== src/Board/State.antt =====
-- assets/js/board.js: pieces, players, the position and the board with its history.
--
-- A piece is an object that its player's list, the array `pieces_` and the history share, so the
-- pieces stand in a store and a reference is a number. A player is reached by its side.
use cchess.Base.{
  ℕ, ◌+◌, Bool, true, false, List, [], ◌∷◌, ◌++◌, Option, none, some, get_elem?, ◌==◌,
  if◌then◌else◌, ◌>>=◌,
}
use cchess.Base.Int.{ℤ, pos, ◌+ℤ◌, ◌-ℤ◌}
use cchess.Constants.{Side, red, black, PieceType, king, array_piece_value}
use cchess.Geometry.{flip_pos}

-- `createPiece`. The name follows from the side and the type.
pub record Piece : Type 0 where
  pub kind : PieceType
  pub side : Side
  pub square : ℕ
  pub show : Bool

-- `createPlayer`
pub record Player : Type 0 where
  pub value : ℤ
  pub king_piece : Option ℕ
  pub pieces : List ℕ

-- `cells` is the array `pieces_`, `store` the objects and `next` the number of them.
pub record Position : Type 0 where
  pub red_player : Player
  pub black_player : Player
  pub cells : ℕ → Option ℕ
  pub store : ℕ → Piece
  pub next : ℕ

-- One entry of `historyStepRecords_`.
pub record Step : Type 0 where
  pub mv : ℕ
  pub end_piece : Option ℕ
  pub in_check : Bool
  pub zobrist_key : ℕ

-- The class `Board`; the last step of the history comes first.
pub record Board : Type 0 where
  pub position : Position
  open position use *
  pub cur_side : Side
  pub cur_step_idx : ℤ
  pub history : List Step

abbrev pub create_player : Player
create_player = record { value = pos 0; king_piece = none; pieces = [] }

abbrev pub no_piece : Piece
no_piece = record { kind = king; side = red; square = 0; show = false }

-- The constructor of `Board`.
abbrev pub new_board : Board
new_board = record {
  position = record {
    red_player = create_player;
    black_player = create_player;
    cells = λ p. none;
    store = λ r. no_piece;
    next = 0;
  };
  cur_side = red;
  cur_step_idx = pos 0;
  history = [];
}

abbrev pub update {ℓ} : {A : Type ℓ} → (ℕ → A) → ℕ → A → ℕ → A
update f i v j = if i == j then v else f j

abbrev pub player : Position → Side → Player
player b red = b.red_player
player b black = b.black_player

abbrev pub with_player : Position → Side → Player → Position
with_player b red p = record b { red_player = p }
with_player b black p = record b { black_player = p }

-- `getOppPlayerByPlayer`
abbrev pub opponent : Side → Side
opponent red = black
opponent black = red

abbrev pub same_side : Side → Side → Bool
same_side red red = true
same_side black black = true
same_side _ _ = false

-- `cmpPieceSameSide` and `cmpPieceOppSide`, their second argument what a cell holds.
abbrev pub cmp_piece_same_side : Position → ℕ → Option ℕ → Bool
cmp_piece_same_side b r none = false
cmp_piece_same_side b r (some s) = same_side (b.store r).side (b.store s).side

abbrev pub cmp_piece_opp_side : Position → ℕ → Option ℕ → Bool
cmp_piece_opp_side b r none = false
cmp_piece_opp_side b r (some s) =
    if same_side (b.store r).side (b.store s).side then false else true

-- `getPieceValue`; `none` where the table has no entry and the value would be `NaN`.
unfoldable pub get_piece_value : PieceType → Side → ℕ → Option ℕ
get_piece_value kind red square = get_elem? (array_piece_value kind) square
get_piece_value kind black square = flip_pos square >>= get_elem? (array_piece_value kind)

-- `addPieceValueToPlayer` and `delPieceValueToPlayer`
abbrev pub gain : Player → ℕ → Player
gain p v = record p { value = p.value +ℤ pos v }

abbrev pub lose : Player → ℕ → Player
lose p v = record p { value = p.value -ℤ pos v }

-- `addPieceToPlayer`
abbrev pub add_piece_to_player : Player → Piece → ℕ → ℕ → Player
add_piece_to_player p piece r v = record p {
  king_piece = crowned piece.kind;
  pieces = p.pieces ++ r ∷ [];
  value = p.value +ℤ pos v;
}
  where
    crowned : PieceType → Option ℕ
    crowned king = some r
    crowned _ = p.king_piece

-- `addPieceToBoard`
unfoldable pub add_piece_to_board : PieceType → Side → ℕ → Position → Option Position
add_piece_to_board kind side square b =
    let piece : Piece = record { kind = kind; side = side; square = square; show = true } in
    get_piece_value kind side square >>= λ v. some (
      with_player
        (record b {
          cells = update b.cells square (some b.next);
          store = update b.store b.next piece;
          next = b.next + 1;
        })
        side (add_piece_to_player (player b side) piece b.next v))

-- The position with a piece put on a square, or hidden and taken off it, for its value `v`.
abbrev pub with_piece : Position → Side → ℕ → ℕ → ℕ → Position
with_piece b side r square v =
    with_player
      (record b {
        cells = update b.cells square (some r);
        store = update b.store r (record (b.store r) { show = true; square = square });
      })
      side (gain (player b side) v)

abbrev pub without_piece : Position → Side → ℕ → ℕ → ℕ → Position
without_piece b side r square v =
    with_player
      (record b {
        cells = update b.cells square none;
        store = update b.store r (record (b.store r) { show = false });
      })
      side (lose (player b side) v)

-- `addPiece`, nothing where the piece is null.
unfoldable pub add_piece : Option ℕ → ℕ → Position → Option Position
add_piece none square b = some b
add_piece (some r) square b =
    let piece : Piece = b.store r in
    get_piece_value piece.kind piece.side square >>= λ v. some (with_piece b piece.side r square v)

-- The part of `delPiece` after its guard.
unfoldable pub take_off : ℕ → ℕ → Position → Option (Option ℕ × Position)
take_off r square b =
    let piece : Piece = b.store r in
    get_piece_value piece.kind piece.side piece.square >>= λ v.
    some (some r, without_piece b piece.side r square v)

-- `delPiece`, which returns the piece that stood there.
unfoldable pub del_piece : ℕ → Position → Option (Option ℕ × Position)
del_piece square b = elim (b.cells square) [ none ↦ some (none, b) | some r ↦ take_off r square b ]
