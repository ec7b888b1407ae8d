-- ===== src/Tests.antt =====
-- Runs of the model at inputs that can be followed in the source, and the theorems at concrete
-- inputs. The game of the runs has two kings and a red rook.
use cchess.Base.{
  if◌then◌else◌, ◌==◌, ◌∷◌, ◌≢◌, ◌<◌, ◌≤◌, ◌↔◌, ◌⊎◌, ◌/◌, ◌%◌, arith, length, inr, ℕ, ◌≡◌, refl,
  Bool, true, false, List, [], Option, none, some,
}
use cchess.Base.Int.{negsuc, pos, ◌+ℤ◌, ◌-ℤ◌}
use cchess.Constants
use cchess.Constants.{Side, red, black, MoveRes, regular, capatured, general, illegal, killed, lore}
use cchess.Geometry
use cchess.Board
use cchess.Board.State.{Board, player, new_board}
use cchess.Fen
use cchess.Board.State.{opponent}
use cchess.Board.Generate.{Generated, moves}
use cchess.Board.Game.{Game, start, played, taken_back, Line, IsCounted, Game-Line, evaluate-Game}
use cchess.Board.Value.Books.{material}
use cchess.Board.Targets.{All, Moves}
use cchess.Board.Targets.Whole.{generate_moves-Moves}
use cchess.Board.Answers.{Hunters, legal_move_piece-Answers, will_kill_king-Answers}
use cchess.Geometry.Coordinates.{in_board_iff}
use cchess.Iccs.{
  nan, text, plus, iccs_pos_to_pos, iccs_move_to_move, pos_to_iccs_pos, move_to_iccs_move,
}
use cchess.Iccs.Converts.{iccs_move_to_move-pos_to_iccs_pos}
use cchess.Notation
use cchess.Timer
use cchess.Timer.{quickly_pattern_time}
use cchess.Timer.Runs.{create_play_timer-IsStopped, start-IsRunning}
use cchess.Displayer
use cchess.Displayer.{create_ui_displayer, PieceStyle, Img, UiDisplayer}
use cchess.Displayer.Pictures.{seen_in}
use cchess.Displayer.Pictures.Boards.{Shows, make_move-Shows}
use cchess.Board.Men.{man_at, man_of}
use cchess.Board.State.{Position}
use cchess.Chess
use cchess.Chess.{ChineseChess}
use cchess.Chess.Turns.Played.{Played, play-Accepted}
use cchess.Net.Messages.{a_move_step, a_forgive_response, answer_forgive}
use cchess.Client.{
  Client, Dialog, opp_forgive_request_dialog, reponse_message, press, press_open, step_back,
  response_forgive_res,
}
use cchess.Client.Together.{reponse_message-play, response_forgive_res-press}
use cchess.Notation.{to_chinese_move}
use cchess.Notation.Written.{IsWritable, Four, to_chinese_move-Four}
use cchess.Board.State.{update}
use cchess.Constants.{rook, cannon, king}
use cchess.Base.{inl, ==_iff, ◌+◌}
use cchess.Board.Endless.{legal_move_piece-endless}
use cchess.Fen.Load.{init_from_fen-IsAccounted}
use cchess.Board.Placed.{IsPlaced}
use cchess.Board.Undo.{undo_move-make_move}
use cchess.Board.Probe.{prompt_pure}
use cchess.Board.Probe.Turn.{try_move_piece_pure, back_step-play}
use cchess.Board.Stalemate.{HasLost, no_way_to_move-false}
use cchess.Board.Value.Books.{IsAccounted}

abbrev pub is_some {ℓ} : {A : Type ℓ} → Option A → Bool
is_some none = false
is_some (some x) = true

abbrev pub from_some {ℓ} : {A : Type ℓ} → A → Option A → A
from_some d none = d
from_some d (some x) = x

abbrev listed : Option Generated → List ℕ
listed (some (moves mvs)) = mvs
listed _ = []

abbrev pub duel_fen : List ℕ
duel_fen = Fen.codes "3k5/9/9/9/9/9/9/9/9/4K3R w"

abbrev loaded : Option (Side × Board)
loaded = Fen.init_from_fen duel_fen new_board

abbrev pub duel : Board
duel = (from_some (red, new_board) loaded).1

pub is_some-eq {ℓ} :
    {A : Type ℓ} (d : A) (o : Option A) → is_some o ≡ true → o ≡ some (from_some d o)
is_some-eq d none h = cc
is_some-eq d (some x) h = refl

duel_loads : is_some loaded ≡ true
unfolding Fen.init_from_fen Fen.place_all Fen.get_piece_type Board.add_piece_to_board
    Board.get_piece_value Geometry.flip_pos Geometry.convert_to_pos Fen.is_number Fen.is_alpha
    Fen.is_between Fen.is_lower_alpha Fen.is_upper_alpha Constants.array_piece_value
duel_loads = refl

duel_eq : loaded ≡ some ((from_some (red, new_board) loaded).0, duel)
duel_eq = is_some-eq (red, new_board) loaded duel_loads

-- The rook goes one square up, from 0xcb to 0xbb.
abbrev advance : ℕ
advance = Geometry.get_move 203 187

abbrev advanced : Board
advanced = from_some duel (Board.make_move advance duel)

abbrev replied : Board
replied = from_some duel (Board.play advance duel)

-- The rook goes to the black king's row and gives check.
abbrev pub check_move : ℕ
check_move = Geometry.get_move 203 59

abbrev tried : MoveRes × Board
tried = from_some (illegal, new_board) (Board.try_move_piece check_move duel)

abbrev all_moves : List ℕ × Board
all_moves = from_some ([], new_board) (Board.generate_all_moves false duel)

abbrev hints : List ℕ × Board
hints = from_some ([], new_board) (Board.prompt 203 duel)

abbrev judged : Bool × Board
judged = from_some (false, new_board) (Board.legal_move check_move duel)

-- The rook's move to the black king's row, as it is written.
notation_run : to_chinese_move check_move duel ≡ some (Fen.codes "车一进九")
unfolding Fen.init_from_fen Fen.place_all Fen.get_piece_type Board.add_piece_to_board
    Board.get_piece_value Geometry.flip_pos Geometry.convert_to_pos Constants.array_piece_value
    Fen.is_number Fen.is_alpha Fen.is_between Fen.is_lower_alpha Fen.is_upper_alpha
    Geometry.get_move Geometry.start_of_move Geometry.end_of_move Geometry.same_row
    Geometry.same_col Geometry.col_of_pos Board.king_square Board.is_down Notation.to_chinese_move
    Notation.written Notation.first_two Notation.same_type_piece Notation.is_twin Notation.same_type
    Notation.name_and_col Notation.numeral Notation.side_col Notation.along_line Notation.heading
    Notation.distance ◌-ℤ◌
notation_run = refl

abbrev stuck : Bool × Board
stuck = from_some (true, new_board) (Board.no_way_to_move duel)

-- The rook is the piece 2.
abbrev rook_moves : List ℕ
rook_moves = listed (Board.generate_moves duel.position (some 2) false)

-- What the runs give.
record Runs : Type 0 where
  made : Board.make_move advance duel ≡ some advanced
  played : Board.play advance duel ≡ some replied
  is_tried : Board.try_move_piece check_move duel ≡ some tried
  checks : tried.0 ≡ general
  generates : Board.generate_all_moves false duel ≡ some all_moves
  is_hinted : Board.prompt 203 duel ≡ some hints
  is_judged : Board.legal_move check_move duel ≡ some judged
  is_stuck : Board.no_way_to_move duel ≡ some stuck
  corner : duel.position.cells 0 ≡ none
  lost : HasLost duel.position 16 (player duel.position duel.cur_side).pieces
  safe : Board.will_kill_self_king duel ≡ some false
  longer : length replied.history ≢ length duel.history
  counted : IsCounted duel
  rook_generates : Board.generate_moves duel.position (some 2) false ≡ some (moves rook_moves)
  rook_near : (duel.position.store 2).square < 256
  rook_away : (duel.position.store 2).square ≢ 59
  rook_home : Board.king_square duel.position (duel.position.store 2).side ≡ some 199
  red_home : Board.king_square duel.position red ≡ some 199
  black_home : Board.king_square duel.position black ≡ some 54
  hunters : Hunters duel.position red 54 (player duel.position red).pieces
  check_small : check_move < 65536
  check_start : Geometry.in_board (Geometry.start_of_move check_move) ≡ true
  check_end : Geometry.in_board (Geometry.end_of_move check_move) ≡ true
  rook_found : duel.position.cells (Geometry.start_of_move check_move) ≡ some 2
  check_below : Geometry.end_of_move check_move < 256
  rook_straight :
      IsWritable
        (duel.position.store 2).kind
        (duel.position.store 2).square
        (Geometry.end_of_move check_move)
  rook_shown : (duel.position.store 2).show ≡ true
  rook_on : Geometry.in_board (duel.position.store 2).square ≡ true
  rook_board : Geometry.in_board 203 ≡ true

runs : Runs
unfolding Fen.init_from_fen Fen.place_all Fen.get_piece_type Board.add_piece_to_board
    Board.get_piece_value Geometry.flip_pos Geometry.convert_to_pos Fen.is_number Fen.is_alpha
    Fen.is_between Fen.is_lower_alpha Fen.is_upper_alpha Constants.array_piece_value
    Geometry.get_move Geometry.start_of_move Geometry.end_of_move Board.make_move Board.relocate
    Board.del_piece Board.take_off Board.add_piece Board.will_kill_king Board.some_piece_kills
    Board.legal_move_piece Board.legal_by_type Board.legal_line Board.from_offset Board.along
    Board.stride Board.walk Board.line_reaches Board.line_blocked Board.king_square
    Board.add_history_step Board.play Board.change_side Geometry.in_fort Board.spans
    Constants.array_legal_span Geometry.get_offset Geometry.same_row Geometry.same_col
    Constants.array_in_fort Constants.array_in_borad Geometry.shift Geometry.in_board
    Board.try_move_piece Board.after_safe_move Board.classify Board.no_way_to_move
    Board.generate_all_moves Board.generate_all_moves_non_check Board.generate_rounds
    Board.generate_moves Board.keep_safe Board.will_kill_self_king Board.will_kill_opp_king
    Board.undo_move Board.remove_last_history_step Board.relocate_back Board.probe Board.prompt
    Board.is_click_self_piece Board.legal_move Board.may_try Board.generate_by_type Board.collect
    Board.palace_step Board.rook_line Board.rook_ray Board.from_here
runs = record {
  made = is_some-eq duel (Board.make_move advance duel) refl;
  played = is_some-eq duel (Board.play advance duel) refl;
  is_tried = is_some-eq (illegal, new_board) (Board.try_move_piece check_move duel) refl;
  checks = refl;
  generates = is_some-eq ([], new_board) (Board.generate_all_moves false duel) refl;
  is_hinted = is_some-eq ([], new_board) (Board.prompt 203 duel) refl;
  is_judged = is_some-eq (false, new_board) (Board.legal_move check_move duel) refl;
  is_stuck = is_some-eq (true, new_board) (Board.no_way_to_move duel) refl;
  corner = refl;
  lost = inr (inr tt);
  safe = refl;
  longer = λ h. omega (arith, h);
  counted = refl;
  rook_generates = refl;
  rook_near = omega arith;
  rook_away = λ h. omega (arith, h);
  rook_home = refl;
  red_home = refl;
  black_home = refl;
  hunters = (
    (refl, λ _. (omega arith, λ h. omega (arith, h))),
    ((refl, λ _. (omega arith, λ h. omega (arith, h))), tt),
  );
  check_small = omega arith;
  check_start = refl;
  check_end = refl;
  rook_found = refl;
  check_below = omega arith;
  rook_straight = inr (refl, λ h. omega (arith, h));
  rook_shown = refl;
  rook_on = refl;
  rook_board = refl;
}

-- Past the rook the array is empty.
rook_free : (p : ℕ) → (duel.position.store 2).square < p → duel.position.cells p ≡ none
unfolding Fen.init_from_fen Fen.place_all Fen.get_piece_type Board.add_piece_to_board
    Board.get_piece_value Geometry.flip_pos Geometry.convert_to_pos Constants.array_piece_value
    Fen.is_number Fen.is_alpha Fen.is_between Fen.is_lower_alpha Fen.is_upper_alpha
rook_free p h = emptied p h
  where
    pieces_at : ℕ → Option ℕ
    pieces_at = update (update (update (λ q. none) 54 (some 0)) 199 (some 1)) 203 (some 2)

    emptied : (p : ℕ) → 203 < p → pieces_at p ≡ none
    emptied p h = ground (arith, ==_iff 203 p, ==_iff 199 p, ==_iff 54 p)

rook_kind : ((duel.position.store 2).kind ≡ rook) ⊎ ((duel.position.store 2).kind ≡ cannon)
unfolding Fen.init_from_fen Fen.place_all Fen.get_piece_type Board.add_piece_to_board
    Board.get_piece_value Geometry.flip_pos Geometry.convert_to_pos Constants.array_piece_value
    Fen.is_number Fen.is_alpha Fen.is_between Fen.is_lower_alpha Fen.is_upper_alpha
rook_kind = inl refl

duel-IsAccounted : IsAccounted duel.position
duel-IsAccounted = init_from_fen-IsAccounted duel_fen duel_eq

duel-IsPlaced : IsPlaced duel.position
duel-IsPlaced = duel-IsAccounted.placed

undo_move-make_move_example : Board.undo_move advanced ≡ some duel
undo_move-make_move_example = undo_move-make_move advance duel duel-IsPlaced runs.made

back_step-play_example : Board.back_step replied ≡ some (advance, duel)
back_step-play_example = back_step-play advance duel duel-IsPlaced runs.played

try_move_piece_pure_example : tried.1 ≡ duel
try_move_piece_pure_example = try_move_piece_pure check_move duel duel-IsPlaced runs.is_tried

prompt_pure_example : hints.1 ≡ duel
prompt_pure_example = prompt_pure 203 duel duel-IsPlaced runs.is_hinted

no_way_to_move-false_example : stuck.0 ≡ false
no_way_to_move-false_example =
    no_way_to_move-false duel duel-IsPlaced runs.corner runs.lost runs.safe runs.is_stuck

-- The game in which the rook advances and the move is taken back.
duel-back_step : Board.back_step replied ≡ some (advance, duel)
duel-back_step = back_step-play_example

duel-Game : Game duel duel
duel-Game = taken_back advance (played advance start runs.played) runs.longer duel-back_step

evaluate-Game_example :
    Board.evaluate replied
    ≡ pos (material replied.position replied.cur_side)
      -ℤ pos (material replied.position (opponent replied.cur_side))
      +ℤ pos 3
evaluate-Game_example = evaluate-Game duel-IsAccounted (played advance start runs.played)

Game-Line_example : Line duel duel
Game-Line_example = Game-Line duel-IsAccounted duel-Game

generate_moves-Moves_example : All (Moves duel.position 2 false) rook_moves
generate_moves-Moves_example =
    generate_moves-Moves duel.position 2 false runs.rook_near runs.rook_generates

legal_move_piece-Answers_example :
    (legal : Bool) × (Board.legal_move_piece duel.position 2 59 ≡ some legal)
legal_move_piece-Answers_example =
    legal_move_piece-Answers duel.position 2 59 199 runs.rook_near (omega arith) runs.rook_away
      runs.rook_home

will_kill_king-Answers_example :
    (attacked : Bool) × (Board.will_kill_king duel.position black ≡ some attacked)
will_kill_king-Answers_example =
    will_kill_king-Answers duel.position black 54 199 runs.black_home (omega arith) runs.red_home
      runs.hunters

in_board_iff_example :
    (Geometry.in_board 203 ≡ true)
    ↔ ((3 ≤ 203 / 16) × (203 / 16 ≤ 12) × (3 ≤ 203 % 16) × (203 % 16 ≤ 11))
in_board_iff_example = in_board_iff 203 (omega arith)

iccs_move_to_move-pos_to_iccs_pos_example :
    ((t : List ℕ) × (plus
          (pos_to_iccs_pos 0 (some (Geometry.start_of_move check_move)))
          (pos_to_iccs_pos 0 (some (Geometry.end_of_move check_move)))
        ≡ text t)
      × (iccs_move_to_move t ≡ some (pos check_move)))
    × (move_to_iccs_move check_move ≡ nan)
iccs_move_to_move-pos_to_iccs_pos_example =
    iccs_move_to_move-pos_to_iccs_pos check_move 0 0 runs.check_small runs.check_start
      runs.check_end

-- A letter before "a" gives a negative column: "A0" is 163.
outside_run : iccs_pos_to_pos b'A' b'0' ≡ pos 163
unfolding iccs_pos_to_pos Geometry.convert_coordinates ◌+ℤ◌ ◌-ℤ◌
outside_run = refl

-- The mirror image of 15 is -1.
mirror_run : Geometry.mirror_pos 15 ≡ negsuc 0
unfolding Geometry.mirror_pos Geometry.convert_coordinates Geometry.row_of_pos Geometry.col_of_pos
    ◌+ℤ◌ ◌-ℤ◌
mirror_run = refl

to_chinese_move-Four_example : Four (to_chinese_move check_move duel)
to_chinese_move-Four_example =
    to_chinese_move-Four check_move 2 199 duel runs.rook_found runs.rook_home runs.rook_near
      runs.check_below runs.rook_on runs.check_end runs.rook_straight

legal_move_piece-endless_example :
    ((fuel : ℕ)
      → Board.walk fuel duel.position
          (pos 1)
          (duel.position.store 2).square
          ((duel.position.store 2).square + 1)
        ≡ none)
    × (Board.legal_move_piece duel.position 2 (duel.position.store 2).square ≡ none)
legal_move_piece-endless_example = legal_move_piece-endless duel.position 2 rook_kind rook_free

abbrev piece_style : PieceStyle
piece_style = record { img_path = 1; left = 7; top = 6; width = 56; height = 64 }

-- The controller's game on the board of the runs: red is the own side and its clock runs.
abbrev pub game : ChineseChess
game = record {
  side = red;
  switch_sound_effect = true;
  switch_prompt = true;
  switch_animation = true;
  piece_style_idx = 0;
  board_style_idx = 0;
  watch_mode = false;
  history_step_records = [];
  board = duel;
  displayer = create_ui_displayer 0 piece_style;
  self_play_timer = Timer.start (Timer.create_play_timer quickly_pattern_time);
  opp_play_timer = Timer.create_play_timer quickly_pattern_time;
  self_counts = true;
  selected_pos = 203;
  step_records = [];
  play_side_flag = red;
  effects = [];
}

abbrev next_game : ChineseChess
next_game = from_some game (Chess.play check_move game)

-- The same game at the opponent's.
abbrev opp_game : ChineseChess
opp_game = record game {
  side = black;
  self_play_timer = Timer.create_play_timer quickly_pattern_time;
  opp_play_timer = Timer.start (Timer.create_play_timer quickly_pattern_time);
  self_counts = false;
}

abbrev client_of : ChineseChess → Option Dialog → Client
client_of c dlg = record {
  config = record {
    side = c.side;
    switch_sound_effect = true;
    switch_prompt = true;
    switch_animation = true;
    piece_style_idx = 0;
    board_style_idx = 0;
  };
  self_user = none;
  opp_user = none;
  cchess = some c;
  dlg = dlg;
  notices = [];
  sent = [];
  ending = [];
}

abbrev opp_client : Client
opp_client = client_of opp_game none

abbrev opp_played : Client
opp_played = from_some opp_client (reponse_message (a_move_step false check_move []) opp_client)

-- Both clients after a move, the opponent asked to take it back.
abbrev asking : Client
asking = client_of (record game { board = replied }) none

abbrev being_asked : Client
being_asked = client_of (record opp_game { board = replied }) (some opp_forgive_request_dialog)

abbrev asked_back : Client
asked_back = from_some asking (reponse_message (a_forgive_response true 0 []) asking)

abbrev agreed : Client
agreed = from_some being_asked (press true being_asked)

-- What the games and the clients give.
record Games : Type 0 where
  plays : Chess.play check_move game ≡ some next_game
  relayed : reponse_message (a_move_step false check_move []) opp_client ≡ some opp_played
  agrees : press true being_asked ≡ some agreed
  goes_back : reponse_message (a_forgive_response true 0 []) asking ≡ some asked_back

games : Games
unfolding Fen.init_from_fen Fen.place_all Fen.get_piece_type Board.add_piece_to_board
    Board.get_piece_value Geometry.flip_pos Geometry.convert_to_pos Fen.is_number Fen.is_alpha
    Fen.is_between Fen.is_lower_alpha Fen.is_upper_alpha Constants.array_piece_value
    Geometry.get_move Geometry.start_of_move Geometry.end_of_move Board.make_move Board.relocate
    Board.del_piece Board.take_off Board.add_piece Board.will_kill_king Board.some_piece_kills
    Board.legal_move_piece Board.legal_by_type Board.legal_line Board.from_offset Board.along
    Board.stride Board.walk Board.line_reaches Board.line_blocked Board.king_square
    Board.add_history_step Board.play Board.change_side Geometry.in_fort Board.spans
    Constants.array_legal_span Geometry.get_offset Geometry.same_row Geometry.same_col
    Constants.array_in_fort Constants.array_in_borad Geometry.shift Geometry.in_board
    Board.try_move_piece Board.after_safe_move Board.classify Board.no_way_to_move
    Board.generate_all_moves Board.generate_all_moves_non_check Board.generate_rounds
    Board.generate_moves Board.keep_safe Board.will_kill_self_king Board.will_kill_opp_king
    Board.undo_move Board.remove_last_history_step Board.relocate_back Board.probe
    Board.generate_by_type Board.collect Board.palace_step Board.rook_line Board.rook_ray
    Board.from_here Geometry.col_of_pos Board.is_down Notation.to_chinese_move Notation.written
    Notation.first_two Notation.same_type_piece Notation.is_twin Notation.same_type
    Notation.name_and_col Notation.numeral Notation.side_col Notation.along_line Notation.heading
    Notation.distance ◌-ℤ◌ Chess.play Chess.play_accepted Chess.show_move
    Displayer.create_ui_displayer Displayer.init_resource Displayer.init_piece_image
    Displayer.make_move Displayer.swap_image Displayer.with_img Displayer.unshow_image
    Displayer.show_image Displayer.add_last_track Displayer.unshow_prompt Displayer.un_selecte_piece
    Chess.play_sound_for_move_res reponse_message response_forgive_res step_back press press_open
    Chess.back_step Chess.taken_back Board.back_step Displayer.undo_move Displayer.remove_last_track
    Board.get_last_move Chess.mark_last_move Chess.switch_play_timer
games = record {
  plays = is_some-eq game (Chess.play check_move game) refl;
  relayed =
      is_some-eq opp_client (reponse_message (a_move_step false check_move []) opp_client) refl;
  agrees = is_some-eq being_asked (press true being_asked) refl;
  goes_back = is_some-eq asking (reponse_message (a_forgive_response true 0 []) asking) refl;
}

play-Accepted_example : Played check_move tried.0 game next_game
play-Accepted_example =
    play-Accepted check_move game duel-IsPlaced
      (
        inl (start-IsRunning _ (create_play_timer-IsStopped quickly_pattern_time)),
        create_play_timer-IsStopped quickly_pattern_time,
      )
      runs.is_tried games.plays

-- A displayer that shows the board of the runs.
abbrev rook_file : Img
rook_file = Displayer.create_image piece_style (Displayer.piece_file red rook) 1 false

abbrev piece_at : ℕ → Img
piece_at p =
    if 203 == p
    then rook_file
    else (if 199 == p
        then record rook_file { picture = Displayer.piece_file red king }
        else (if 54 == p
            then record rook_file { picture = Displayer.piece_file black king }
            else record rook_file { picture = Displayer.null_file }))

abbrev pictures : UiDisplayer
pictures = record game.displayer { imgs = λ p. some (piece_at p) }

pictures-Shows : Shows pictures duel.position
unfolding Fen.init_from_fen Fen.place_all Fen.get_piece_type Board.add_piece_to_board
    Board.get_piece_value Geometry.flip_pos Geometry.convert_to_pos Constants.array_piece_value
    Fen.is_number Fen.is_alpha Fen.is_between Fen.is_lower_alpha Fen.is_upper_alpha
    Displayer.create_image
pictures-Shows p near on = (piece_at p, refl, by_tests (203 == p) (199 == p) (54 == p))
  where
    by_tests :
        (r k e : Bool)
        → seen_in (
            if r
            then rook_file
            else (if k
                then record rook_file { picture = Displayer.piece_file red king }
                else (if e
                    then record rook_file { picture = Displayer.piece_file black king }
                    else record rook_file { picture = Displayer.null_file })))
          ≡ man_of duel.position.store
              (if r then some 2 else (if k then some 1 else (if e then some 0 else none)))
    by_tests true k e = refl
    by_tests false true e = refl
    by_tests false false true = refl
    by_tests false false false = refl

abbrev advanced_position : Option ℕ × Position
advanced_position = from_some (none, duel.position) (Board.relocate advance duel.position)

-- What the pictures' example needs.
record Seen : Type 0 where
  from_board : Geometry.in_board (Geometry.start_of_move advance) ≡ true
  to_board : Geometry.in_board (Geometry.end_of_move advance) ≡ true
  near : Geometry.end_of_move advance < 256
  away : Geometry.start_of_move advance ≢ Geometry.end_of_move advance
  stands : man_at duel.position (Geometry.start_of_move advance) ≡ some (red, rook)
  relocated : Board.relocate advance duel.position ≡ some advanced_position

seen : Seen
unfolding Fen.init_from_fen Fen.place_all Fen.get_piece_type Board.add_piece_to_board
    Board.get_piece_value Geometry.flip_pos Geometry.convert_to_pos Constants.array_piece_value
    Fen.is_number Fen.is_alpha Fen.is_between Fen.is_lower_alpha Fen.is_upper_alpha
    Geometry.get_move Geometry.start_of_move Geometry.end_of_move Board.relocate Board.del_piece
    Board.take_off Board.add_piece Geometry.in_board Constants.array_in_borad
seen = record {
  from_board = refl;
  to_board = refl;
  near = omega arith;
  away = λ h. omega (arith, h);
  stands = refl;
  relocated = is_some-eq (none, duel.position) (Board.relocate advance duel.position) refl;
}

make_move-Shows_example :
    (d : UiDisplayer) × (Displayer.make_move
        (Geometry.start_of_move advance)
        (Geometry.end_of_move advance)
        red
        pictures
      ≡ some d)
    × Shows d advanced_position.1
make_move-Shows_example =
    make_move-Shows advance red pictures duel.position pictures-Shows seen.from_board seen.to_board
      seen.near seen.away seen.stands seen.relocated

reponse_message-play_example :
    (y : ChineseChess) × (opp_played.cchess ≡ some y) × (y.board ≡ next_game.board)
reponse_message-play_example =
    reponse_message-play check_move false [] game next_game opp_game opp_client duel-IsPlaced
      (
        inl (start-IsRunning _ (create_play_timer-IsStopped quickly_pattern_time)),
        create_play_timer-IsStopped quickly_pattern_time,
      )
      (
        create_play_timer-IsStopped quickly_pattern_time,
        inl (start-IsRunning _ (create_play_timer-IsStopped quickly_pattern_time)),
      )
      refl refl runs.is_tried games.plays games.relayed

response_forgive_res-press_example :
    (x : ChineseChess) × (y : ChineseChess) × (taken : ℕ) × (asked_back.cchess ≡ some x)
    × (agreed.cchess ≡ some y)
    × (x.board ≡ y.board)
    × (Board.back_step replied ≡ some (taken, y.board))
    × (agreed.sent ≡ answer_forgive true taken (Fen.to_fen y.board) ∷ [])
response_forgive_res-press_example =
    response_forgive_res-press asking being_asked 0 [] refl refl refl refl games.agrees
      games.goes_back
