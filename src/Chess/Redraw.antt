-- ===== src/Chess/Redraw.antt =====
-- assets/js/chinese_chess.js: the operations of `ChineseChess` that draw the game again: other styles,
-- the flipped board, and a past situation.
use cchess.Base.{
  ℕ, zero, suc, ◌+◌, ◌-◌, ◌%◌, Bool, true, false, List, [], ◌∷◌, Option, none, some, ◌==◌,
  if◌then◌else◌, ◌>>=◌, get_elem?,
}
use cchess.Constants.{Side, red, black}
use cchess.Geometry.{in_board, convert_to_pos, start_of_move, end_of_move}
use cchess.Board.State.{Board, Piece, opponent}
use cchess.Board.Moves.{get_last_move}
use cchess.Fen.{is_number, is_alpha, is_lower_alpha, get_piece_type}
use cchess.Displayer
use cchess.Displayer.{UiDisplayer, PieceStyle, piece_styles}
use cchess.Chess.{ChineseChess, show_prompt, mark_last_move}

-- What the loop of `initFromFen` draws. A letter that names no piece is drawn by a file that does not
-- exist.
unfoldable pub draw_all : List ℕ → ℕ → ℕ → UiDisplayer → Option UiDisplayer
unfolding is_number is_alpha is_lower_alpha
draw_all [] row col d = some d
draw_all (c ∷ rest) row col d =
    let after_digit = draw_all rest row (col + (c - b'0')) d in
    let side : Side = if is_lower_alpha c then black else red in
    let square : ℕ = convert_to_pos row col in
    let drawn : Option UiDisplayer = elim (get_piece_type c) [
      | some kind ↦ Displayer.add_piece side kind square d
      | none ↦ Displayer.add_unknown side square d
    ] in
    let after_piece = drawn >>= draw_all rest row (col + 1) in
    let after_slash = draw_all rest (row + 1) 0 d in
    let after_other = draw_all rest row col d in
    if is_number c
    then after_digit
    else (if is_alpha c
        then after_piece
        else (if c == b'/' then after_slash else (if c == b' ' then some d else after_other)))

-- The selected piece and its prompts, where a piece is selected.
unfoldable pub mark_selected : Side → Side → ChineseChess → Option ChineseChess
mark_selected side prompt_side c =
    let marked =
      show_prompt c.selected_pos prompt_side
        (record c { displayer = Displayer.select_piece c.selected_pos side c.displayer }) in
    if c.selected_pos == 0 then some c else marked

-- The loop of `changePieceStyle`, its last `left` squares.
unfoldable pub redraw : ℕ → Board → UiDisplayer → Option UiDisplayer
redraw zero b d = some d
redraw (suc left) b d =
    let square : ℕ = 256 - suc left in
    let drawn : Option UiDisplayer = elim (b.position.cells square) [
      | none ↦ some d
      | some r ↦ let p : Piece = b.position.store r in Displayer.add_piece p.side p.kind p.square d
    ] in
    let after_piece = drawn >>= redraw left b in
    let skipped = redraw left b d in if in_board square then after_piece else skipped

-- `changePieceStyle`, with the index of `config`.
unfoldable pub change_piece_style : ℕ → ChineseChess → Option ChineseChess
change_piece_style idx c =
    let changed = (do
      style ← get_elem? piece_styles idx
      d ← redraw 256 c.board (Displayer.change_piece_style style c.displayer)
      let drawn : ChineseChess = record c { piece_style_idx = idx; displayer = mark_last_move c d }
      mark_selected drawn.board.cur_side drawn.board.cur_side drawn) in
    if c.piece_style_idx == idx then some c else changed

-- `changeBoardStyle`, with the index of `config`.
unfoldable pub change_board_style : ℕ → ChineseChess → ChineseChess
change_board_style idx c = if c.board_style_idx == idx then c else record c {
  board_style_idx = idx;
  displayer = Displayer.change_board_style idx c.displayer;
}

-- `flipBoard`, once the constructor is done.
unfoldable pub flip_board : ChineseChess → Option ChineseChess
flip_board c =
    let flipped : UiDisplayer = Displayer.flip c.displayer in
    let marked : UiDisplayer =
      if get_last_move c.board == 0
      then flipped
      else mark_last_move c (Displayer.remove_last_track flipped) in
    let unmarked : UiDisplayer =
      if c.selected_pos == 0
      then marked
      else (let unselected : UiDisplayer = Displayer.un_selecte_piece marked in
          if c.switch_prompt then Displayer.unshow_prompt unselected else unselected) in
    mark_selected c.board.cur_side c.board.cur_side (record c { displayer = unmarked })

-- `addLastTrack`
unfoldable pub add_last_track : ℕ → ChineseChess → ChineseChess
add_last_track mv c = record c {
  displayer =
      Displayer.add_last_track (start_of_move mv) (end_of_move mv) (opponent c.board.cur_side)
        c.displayer;
}

-- `skipToSituationForDisplay`. The prompts are drawn while its `side` is not yet set, which is black's
-- colour.
unfoldable pub skip_to_situation_for_display : ℕ → ℕ → Bool → ChineseChess → Option ChineseChess
skip_to_situation_for_display idx r_offset is_watch_mode c =
    let play_again : ChineseChess = record c {
      displayer = Displayer.set_play_mode c.displayer;
      watch_mode = false;
    } in
    let watched : Option ChineseChess =
      some (record c { displayer = Displayer.set_watch_mode c.displayer; watch_mode = true }) in
    let played = mark_selected c.side black play_again in
    let skipped = (do
      step ← get_elem? c.history_step_records idx
      turned ← if is_watch_mode then watched else played
      d ← draw_all step.fen 0 0 turned.displayer
      let side : Side = if r_offset % 2 == 0 then opponent c.side else c.side
      some (record turned {
        displayer = Displayer.add_last_track (start_of_move step.mv) (end_of_move step.mv) side d;
      })) in
    if c.watch_mode then skipped else (if is_watch_mode then skipped else some c)
