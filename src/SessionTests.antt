-- ===== src/SessionTests.antt =====
-- Runs of whole games, and the theorems about them at concrete inputs. The game of the runs has two
-- kings and a red rook.
use cchess.Base.{◌≡◌, ◌<◌, ℕ, arith, refl, true, none, some, if◌then◌else◌}
use cchess.Base.Int.{◌-ℤ◌}
use cchess.Constants
use cchess.Constants.{Side, red, black, illegal, MoveRes}
use cchess.Geometry
use cchess.Geometry.{in_board}
use cchess.Board
use cchess.Board.State.{Board, new_board}
use cchess.Fen
use cchess.Fen.{init_from_fen, to_fen}
use cchess.Fen.Scanned.{seen_man}
use cchess.Fen.RoundTrip.{init_from_fen-to_fen}
use cchess.Notation
use cchess.Displayer
use cchess.Displayer.Pictures.Boards.{Shows}
use cchess.Chess
use cchess.Chess.{ChineseChess, click_piece, back_step}
use cchess.Chess.Redraw
use cchess.Chess.Start.{Config, create_chinese_chess}
use cchess.Chess.Start
use cchess.Chess.Start.Shown.{create_chinese_chess-Shows}
use cchess.Chess.Session.{IsInOrder, IsProper}
use cchess.Chess.Session.Lives.{created, clicked, Session-IsInOrder}
use cchess.Chess.Session.Replies.{play-Answers}
use cchess.Base.{List}
use cchess.Chess.Session.Undone.{Restored, accepts, back_step-Restored}
use cchess.Base.{subst, not, Option, true, false, []}
use cchess.Client.{Client}
use cchess.Settings.{
  Page, Outcome, returned, threw, toggle_sound_effect, toggle_prompt, toggle_animation,
}
use cchess.Settings
use cchess.Net.Messages.{UserInfo, red_player_type, quickly_pattern}
use cchess.Client.{reponse_match}
use cchess.Client.Opening.{reponse_match-IsInOrder}
use cchess.Chess.{turn_to_play}
use cchess.Base.Int.{pos}
use cchess.Settings.Boxes.{Agrees, sound, Set-Agrees, toggle_sound_effect-threw}
use cchess.Settings.Switches.{switches, config_switches}
use cchess.Tests.{from_some, is_some-eq, duel_fen, duel, game, check_move}

init_from_fen-to_fen_example :
    (b' : Board) × (init_from_fen (to_fen duel) new_board ≡ some (red, b'))
    × ((p : ℕ)
        → p < 256
        → seen_man b'.position p ≡ (if in_board p then seen_man duel.position p else none))
unfolding init_from_fen Fen.place_all Fen.get_piece_type Board.add_piece_to_board
    Board.get_piece_value Geometry.flip_pos Geometry.convert_to_pos Constants.array_piece_value
init_from_fen-to_fen_example = init_from_fen-to_fen duel

abbrev config : Config
config = record {
  side = red;
  switch_sound_effect = true;
  switch_prompt = true;
  switch_animation = true;
  piece_style_idx = 0;
  board_style_idx = 0;
}

abbrev new_game : ChineseChess
new_game = from_some game (create_chinese_chess config true [] (some duel_fen) none)

-- The rook is clicked, and then the square from which it checks.
abbrev chosen : ChineseChess
chosen = from_some game (click_piece 203 new_game)

abbrev checking : ChineseChess
checking = from_some game (click_piece 59 chosen)

abbrev tried : MoveRes × Board
tried = from_some (illegal, new_board) (Board.try_move_piece check_move new_game.board)

abbrev text : List ℕ
text = from_some [] (Notation.to_chinese_move check_move new_game.board)

abbrev checked : ChineseChess
checked = from_some game (Chess.play check_move new_game)

record Runs : Type 0 where
  creates : create_chinese_chess config true [] (some duel_fen) none ≡ some new_game
  chooses : click_piece 203 new_game ≡ some chosen
  checks : click_piece 59 chosen ≡ some checking
  plays : Chess.play check_move new_game ≡ some checked
  is_tried : Board.try_move_piece check_move new_game.board ≡ some tried
  is_written : Notation.to_chinese_move check_move new_game.board ≡ some text
  moves : accepts tried.0 ≡ true

runs : Runs
unfolding Fen.init_from_fen Fen.place_all Fen.get_piece_type Board.add_piece_to_board
    Board.get_piece_value Geometry.flip_pos Geometry.convert_to_pos Fen.is_number Fen.is_alpha
    Fen.is_between Fen.is_lower_alpha Fen.is_upper_alpha Constants.array_piece_value
    Geometry.get_move Geometry.start_of_move Geometry.end_of_move Board.make_move Board.relocate
    Board.del_piece Board.take_off Board.add_piece Board.will_kill_king Board.some_piece_kills
    Board.legal_move_piece Board.legal_by_type Board.legal_line Board.from_offset Board.along
    Board.stride Board.walk Board.line_reaches Board.line_blocked Board.king_square
    Board.add_history_step Board.play Board.change_side Geometry.in_fort Board.spans
    Constants.array_legal_span Geometry.get_offset Geometry.same_row Geometry.same_col
    Constants.array_in_fort Constants.array_in_borad Geometry.shift Geometry.in_board
    Board.try_move_piece Board.after_safe_move Board.classify Board.no_way_to_move
    Board.generate_all_moves Board.generate_all_moves_non_check Board.generate_rounds
    Board.generate_moves Board.keep_safe Board.will_kill_self_king Board.will_kill_opp_king
    Board.undo_move Board.remove_last_history_step Board.relocate_back Board.probe
    Board.generate_by_type Board.collect Board.palace_step Board.rook_line Board.rook_ray
    Board.from_here Geometry.col_of_pos Board.is_down Notation.to_chinese_move Notation.written
    Notation.first_two Notation.same_type_piece Notation.is_twin Notation.same_type
    Notation.name_and_col Notation.numeral Notation.side_col Notation.along_line Notation.heading
    Notation.distance ◌-ℤ◌ Chess.play Chess.play_accepted Chess.show_move
    Displayer.create_ui_displayer Displayer.init_resource Displayer.init_piece_image
    Displayer.make_move Displayer.swap_image Displayer.with_img Displayer.unshow_image
    Displayer.show_image Displayer.add_last_track Displayer.unshow_prompt Displayer.un_selecte_piece
    Chess.play_sound_for_move_res Chess.Start.create_chinese_chess Chess.Redraw.draw_all
    Displayer.add_piece Displayer.draw_file Chess.start_timer Chess.click_piece Chess.select_or_not
    Chess.show_prompt Board.prompt Board.is_click_self_piece Displayer.select_piece
    Displayer.set_selected Displayer.show_prompt Displayer.add_prompt_image Chess.turn_to_play
    Chess.back_step Chess.taken_back Board.back_step Displayer.undo_move Displayer.remove_last_track
    Board.get_last_move Chess.mark_last_move Chess.switch_play_timer Fen.side_to_move
runs = record {
  creates = is_some-eq game (create_chinese_chess config true [] (some duel_fen) none) refl;
  chooses = is_some-eq game (click_piece 203 new_game) refl;
  checks = is_some-eq game (click_piece 59 chosen) refl;
  plays = is_some-eq game (Chess.play check_move new_game) refl;
  is_tried = is_some-eq (illegal, new_board) (Board.try_move_piece check_move new_game.board) refl;
  is_written = is_some-eq [] (Notation.to_chinese_move check_move new_game.board) refl;
  moves = refl;
}

create_chinese_chess-Shows_example : Shows new_game.displayer new_game.board.position
create_chinese_chess-Shows_example =
    create_chinese_chess-Shows config true [] (some duel_fen) none runs.creates

Session-IsInOrder_example : IsInOrder checking
unfolding in_board Geometry.start_of_move Geometry.end_of_move Geometry.get_move
    Constants.array_in_borad
Session-IsInOrder_example = Session-IsInOrder (
    clicked
      (clicked (created config true [] (some duel_fen) none runs.creates) 203 (omega arith, refl)
        runs.chooses)
      59 (omega arith, refl) runs.checks)

-- The move of the rook.
check_move-IsProper : IsProper check_move
unfolding in_board Geometry.start_of_move Geometry.end_of_move Geometry.get_move
    Constants.array_in_borad
check_move-IsProper = record {
  start = (omega arith, refl);
  end = (omega arith, refl);
  apart = λ h. omega (arith, h);
}

back_step-Restored_example :
    (c2 : ChineseChess) × (back_step checked ≡ some (check_move, c2)) × Restored new_game c2
back_step-Restored_example =
    back_step-Restored check_move new_game
      (Session-IsInOrder (created config true [] (some duel_fen) none runs.creates))
      check_move-IsProper runs.is_tried runs.moves runs.plays

-- A page before and in a game.
abbrev client : Option ChineseChess → Client
client o = record {
  config = config;
  self_user = none;
  opp_user = none;
  cchess = o;
  dlg = none;
  notices = [];
  sent = [];
  ending = [];
}

abbrev page : Option ChineseChess → Page
page o = record {
  client = client o;
  bk_music = false;
  music_plays = false;
  music_box = false;
  sound_box = true;
  prompt_box = true;
  animation_box = true;
}

abbrev silent : Page
silent = record (page (some (record game { switch_sound_effect = false }))) {
  client = record (client (some (record game { switch_sound_effect = false }))) {
    config = record config { switch_sound_effect = false };
  };
  sound_box = false;
}

page-Agrees :
    (o : Option ChineseChess)
    → ((c : ChineseChess) → o ≡ some c → switches c ≡ config_switches config)
    → Agrees (page o)
page-Agrees o h = record {
  music = (refl, refl);
  sound = refl;
  prompts = refl;
  animation = refl;
  game = h;
}

game_page-Agrees : Agrees (page (some game))
game_page-Agrees =
    page-Agrees (some game) (λ c e.
      let same : game ≡ c = cc in subst (λ x. switches x ≡ config_switches config) same refl)

silenced : toggle_sound_effect (page (some game)) ≡ returned silent
unfolding toggle_sound_effect Settings.with_cchess Chess.toggle_sound_effect
silenced = refl

Set-Agrees_example : Agrees silent
Set-Agrees_example = Set-Agrees game_page-Agrees (sound silenced)

toggle_sound_effect-threw_example :
    ((q : Page) × (toggle_sound_effect (page none) ≡ threw q)
      × (q.sound_box ≡ not q.client.config.switch_sound_effect))
    × ((q : Page) × (toggle_prompt (page none) ≡ threw q)
        × (q.prompt_box ≡ not q.client.config.switch_prompt))
    × ((q : Page) × (toggle_animation (page none) ≡ threw q)
        × (q.animation_box ≡ not q.client.config.switch_animation))
toggle_sound_effect-threw_example =
    toggle_sound_effect-threw (page none) (page-Agrees none (λ c e. cc)) refl

abbrev opp_user : UserInfo
opp_user = record { username = []; score = pos 0; total = pos 0; nwin = pos 0; nloss = pos 0 }

reponse_match-IsInOrder_example :
    (c' : Client) × (started : ChineseChess) × (reponse_match red_player_type quickly_pattern
        opp_user
        (client none)
      ≡ some c')
    × (c'.cchess ≡ some started)
    × (c'.opp_user ≡ some opp_user)
    × IsInOrder started
    × (turn_to_play started ≡ true)
reponse_match-IsInOrder_example =
    reponse_match-IsInOrder red_player_type quickly_pattern opp_user (client none) (omega arith)

play-Answers_example : (c' : ChineseChess) × (Chess.play check_move new_game ≡ some c')
play-Answers_example =
    play-Answers check_move new_game
      (Session-IsInOrder (created config true [] (some duel_fen) none runs.creates))
      check_move-IsProper runs.is_tried runs.is_written
