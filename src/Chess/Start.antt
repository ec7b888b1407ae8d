-- ===== src/Chess/Start.antt =====
-- assets/js/chinese_chess.js: the constructor of `ChineseChess`, and `clear`.
pub mod Drawn
pub mod Shown
pub mod Answers
use cchess.Base.{
  ℕ, Bool, true, false, List, [], ◌∷◌, Option, none, some, if◌then◌else◌, ◌>>=◌, get_elem?,
}
use cchess.Base.Int.{pos, negsuc, ◌+ℤ◌}
use cchess.Constants.{Side, red, black}
use cchess.Board.State.{Board, new_board, same_side}
use cchess.Board.Moves.{change_side}
use cchess.Fen.{init_from_fen, init_fen_string}
use cchess.Timer.{TimeInfo, create_play_timer, quickly_pattern_time, slowly_pattern_time}
use cchess.Displayer
use cchess.Displayer.{Img, UiDisplayer, piece_styles, select_file, times_56, create_ui_displayer}
use cchess.Chess.{ChineseChess, pause_cur, start_timer}
use cchess.Chess.Redraw.{draw_all}

-- What the constructor reads of `config`.
pub record Config : Type 0 where
  pub side : Side
  pub switch_sound_effect : Bool
  pub switch_prompt : Bool
  pub switch_animation : Bool
  pub piece_style_idx : ℕ
  pub board_style_idx : ℕ

-- The times spent, of a game that goes on.
pub record Spent : Type 0 where
  pub self_game : ℕ
  pub self_step : ℕ
  pub opp_game : ℕ
  pub opp_step : ℕ
  pub turn_to_me : Bool

unfoldable pub self_info : TimeInfo → Option Spent → TimeInfo
self_info info none = info
self_info info (some t) = record info {
  game_spend_time = t.self_game;
  step_spend_time = if t.turn_to_me then t.self_step else info.step_spend_time;
}

unfoldable pub opp_info : TimeInfo → Option Spent → TimeInfo
opp_info info none = info
opp_info info (some t) = record info {
  game_spend_time = t.opp_game;
  step_spend_time = if t.turn_to_me then info.step_spend_time else t.opp_step;
}

-- `flipBoard` as the constructor calls it: the board is empty, and `selectedPos_` is undefined, which
-- differs from 0 and whose column and row are those of 0.
unfoldable pub flip_unset : UiDisplayer → UiDisplayer
flip_unset d =
    let flipped : UiDisplayer = Displayer.flip d in
    let img : Img = flipped.selected_img in
    record flipped {
      selected_img = record img {
        display = true;
        path = d.style.img_path;
        picture = select_file red;
        left = pos d.style.left +ℤ times_56 (negsuc 2);
        top = pos d.style.top +ℤ times_56 (negsuc 2);
      };
    }

-- The text that is loaded: the first one where none is given, or an empty one.
abbrev pub fen_or_first : Option (List ℕ) → List ℕ
fen_or_first none = init_fen_string
fen_or_first (some []) = init_fen_string
fen_or_first (some (c ∷ rest)) = c ∷ rest

-- The constructor, on a page that shows a list of moves, which it leaves as it is.
unfoldable pub create_chinese_chess :
    Config → Bool → List (List ℕ × Side) → Option (List ℕ) → Option Spent → Option ChineseChess
create_chinese_chess config quickly steps fen spent = do
  style ← get_elem? piece_styles config.piece_style_idx
  let fresh : UiDisplayer = create_ui_displayer config.board_style_idx style
  let d : UiDisplayer = elim config.side [ red ↦ fresh | black ↦ flip_unset fresh ]
  let info : TimeInfo = if quickly then quickly_pattern_time else slowly_pattern_time
  let fen_string : List ℕ = fen_or_first fen
  (side, placed) ← init_from_fen fen_string new_board
  drawn ← draw_all fen_string 0 0 d
  let board : Board = elim side [ red ↦ placed | black ↦ change_side placed ]
  some (
      start_timer (same_side config.side side) (record {
        side = config.side;
        switch_sound_effect = config.switch_sound_effect;
        switch_prompt = config.switch_prompt;
        switch_animation = config.switch_animation;
        piece_style_idx = config.piece_style_idx;
        board_style_idx = config.board_style_idx;
        watch_mode = false;
        history_step_records = [];
        board = board;
        displayer = drawn;
        self_play_timer = create_play_timer (self_info info spent);
        opp_play_timer = create_play_timer (opp_info info spent);
        self_counts = same_side config.side side;
        selected_pos = 0;
        step_records = steps;
        play_side_flag = side;
        effects = [];
      }))

-- `clear`
unfoldable pub clear : ChineseChess → ChineseChess
clear c = record (pause_cur c) { step_records = []; displayer = Displayer.reset c.displayer }
