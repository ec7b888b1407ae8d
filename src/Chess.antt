-- ===== src/Chess.antt =====
-- assets/js/chinese_chess.js: `ChineseChess`, which joins the board, its pictures and the two clocks,
-- and answers the clicks of the player and the moves of the opponent.
pub mod Redraw
pub mod Start
pub mod Turns
pub mod Session
use cchess.Base.{
  ℕ, ◌-◌, Bool, true, false, not, List, [], ◌∷◌, ◌++◌, Option, none, some, ◌==◌, if◌then◌else◌,
  ◌>>=◌, length, take,
}
use cchess.Constants.{Side, MoveRes, regular, capatured, general, illegal, killed, lore}
use cchess.Geometry.{start_of_move, end_of_move, get_move}
use cchess.Board.State.{Board, opponent, same_side}
use cchess.Board.Moves
use cchess.Board.Moves.{is_click_self_piece, get_last_move}
use cchess.Board.Try.{try_move_piece, prompt}
use cchess.Notation.{to_chinese_move}
use cchess.Fen.{to_fen}
use cchess.Iccs.{iccs_move_to_move, native_move}
use cchess.Timer
use cchess.Timer.{PlayTimer}
use cchess.Displayer
use cchess.Displayer.{UiDisplayer}

-- The files of `playSound`.
pub data Sound : Type 0 where
  illegal_mp3 self_move_wav opp_move_wav mate_mp3 loss_wav gene_mp3 : Sound
  killed_wav capatured_mp3 select_wav : Sound

-- What the game does outside its own state: a sound, a message box, MOVE_STEP sent to the server, an
-- animation begun.
pub data Effect : Type 0 where
  sounds : Sound → Effect
  message_box : Effect
  to_move_step : (over : Bool) (mv : ℕ) (fen : List ℕ) → Effect
  animates : (start end : ℕ) → Effect

-- An entry of `historyStepRecords_`: the text of the board after a move, and the move.
pub record Situation : Type 0 where
  pub fen : List ℕ
  pub mv : ℕ

-- The class `ChineseChess`, with the list of moves and the flag of the page. `self_counts` tells which
-- clock `curPlayTimer_` is; 0 in `selected_pos` is no square; the newest effect comes first.
pub record ChineseChess : Type 0 where
  pub side : Side
  pub switch_sound_effect : Bool
  pub switch_prompt : Bool
  pub switch_animation : Bool
  pub piece_style_idx : ℕ
  pub board_style_idx : ℕ
  pub watch_mode : Bool
  pub history_step_records : List Situation
  pub board : Board
  pub displayer : UiDisplayer
  pub self_play_timer : PlayTimer
  pub opp_play_timer : PlayTimer
  pub self_counts : Bool
  pub selected_pos : ℕ
  pub step_records : List (List ℕ × Side)
  pub play_side_flag : Side
  pub effects : List Effect

abbrev pub did : Effect → ChineseChess → ChineseChess
did effect c = record c { effects = effect ∷ c.effects }

-- `turnToPlay`
unfoldable pub turn_to_play : ChineseChess → Bool
turn_to_play c = same_side c.side c.board.cur_side

-- `playSoundForMoveRes`
unfoldable pub sound_for_move_res : Bool → MoveRes → Sound
sound_for_move_res turn_to_self illegal = illegal_mp3
sound_for_move_res turn_to_self regular = if turn_to_self then self_move_wav else opp_move_wav
sound_for_move_res turn_to_self lore = if turn_to_self then mate_mp3 else loss_wav
sound_for_move_res turn_to_self general = if turn_to_self then gene_mp3 else killed_wav
sound_for_move_res turn_to_self capatured = capatured_mp3
sound_for_move_res turn_to_self killed = killed_wav

unfoldable pub play_sound_for_move_res : MoveRes → ChineseChess → ChineseChess
play_sound_for_move_res res c =
    if c.switch_sound_effect then did (sounds (sound_for_move_res (turn_to_play c) res)) c else c

-- `pause` on the clock that runs, and `start` on one of the two.
unfoldable pub pause_cur : ChineseChess → ChineseChess
pause_cur c =
    if c.self_counts
    then record c { self_play_timer = Timer.pause c.self_play_timer }
    else record c { opp_play_timer = Timer.pause c.opp_play_timer }

unfoldable pub start_timer : Bool → ChineseChess → ChineseChess
start_timer true c = record c {
  self_counts = true;
  self_play_timer = Timer.start c.self_play_timer;
}
start_timer false c = record c {
  self_counts = false;
  opp_play_timer = Timer.start c.opp_play_timer;
}

-- `switchPlayTimer`
unfoldable pub switch_play_timer : ChineseChess → ChineseChess
switch_play_timer c =
    let started : ChineseChess = start_timer (turn_to_play c) (pause_cur c) in
    record started { play_side_flag = c.board.cur_side }

-- `addHistoryStep`
unfoldable pub add_history_step : List ℕ → ℕ → ChineseChess → ChineseChess
add_history_step fen mv c = record c {
  history_step_records = c.history_step_records ++ record { fen = fen; mv = mv } ∷ [];
}

-- What `play` shows of a move: nothing but a message in watch mode.
unfoldable pub show_move : ℕ → Side → ChineseChess → Option ChineseChess
show_move mv side c =
    let cleared : UiDisplayer = Displayer.unshow_prompt (Displayer.un_selecte_piece c.displayer) in
    let moved = Displayer.make_move (start_of_move mv) (end_of_move mv) side cleared >>= λ d.
    let drawn : ChineseChess = record c { displayer = d } in
    some (
      if c.switch_animation
      then did (animates (start_of_move mv) (end_of_move mv)) drawn
      else drawn) in
    if c.watch_mode then some (did message_box c) else moved

-- The rest of `play`, on a move that is neither illegal nor killed.
unfoldable pub play_accepted : ℕ → MoveRes → ChineseChess → Option ChineseChess
play_accepted mv res c = do
  text ← to_chinese_move mv c.board
  board ← Moves.play mv c.board
  let side : Side = c.board.cur_side
  drawn ←
      show_move mv side
        (record c { board = board; step_records = c.step_records ++ (text, side) ∷ [] })
  let fen : List ℕ = to_fen board
  let over : Bool = elim res [ lore ↦ true | _ ↦ false ]
  let rested : ChineseChess = record drawn { selected_pos = 0 }
  let sent : ChineseChess =
      if same_side c.side side then did (to_move_step over mv fen) rested else rested
  some (add_history_step fen mv (switch_play_timer sent))

-- `play`
unfoldable pub play : ℕ → ChineseChess → Option ChineseChess
play mv c = try_move_piece mv c.board >>= λ (res, tried).
    let heard : ChineseChess = play_sound_for_move_res res (record c { board = tried }) in
    let accepted = play_accepted mv res heard in
    elim res [ illegal ↦ some heard | killed ↦ some heard | _ ↦ accepted ]

-- `playIccsMv`, on the moves that the board follows.
unfoldable pub play_iccs_mv : List ℕ → ChineseChess → Option ChineseChess
play_iccs_mv iccs_mv c = iccs_move_to_move iccs_mv >>= λ z. native_move z >>= λ mv. play mv c

-- `prompt` and `showPrompt`, where prompts are switched on.
unfoldable pub show_prompt : ℕ → Side → ChineseChess → Option ChineseChess
show_prompt square side c =
    let prompted = prompt square c.board >>= λ (mvs, board).
    some (record c { board = board; displayer = Displayer.show_prompt mvs side c.displayer }) in
    if c.switch_prompt then prompted else some c

-- `clickPiece`
unfoldable pub select_or_not : ℕ → ChineseChess → Option ChineseChess
select_or_not square c =
    let cleared : UiDisplayer = Displayer.unshow_prompt c.displayer in
    let side : Side = c.board.cur_side in
    let selected =
      show_prompt square side (record c { displayer = Displayer.select_piece square side cleared })
      >>= λ shown. some (record shown { selected_pos = square }) in
    if c.selected_pos == square
    then some (record c { displayer = Displayer.un_selecte_piece cleared; selected_pos = 0 })
    else selected

unfoldable pub click_piece : ℕ → ChineseChess → Option ChineseChess
click_piece square c =
    let own = select_or_not square c >>= λ clicked.
    some (if c.switch_sound_effect then did (sounds select_wav) clicked else clicked) in
    let moved = play (get_move c.selected_pos square) c in
    if turn_to_play c
    then (if is_click_self_piece square c.board
        then own
        else (if c.selected_pos == 0 then some c else moved))
    else some c

-- The marks of the last move of the board, where it has one.
unfoldable pub mark_last_move : ChineseChess → UiDisplayer → UiDisplayer
mark_last_move c d =
    let mv : ℕ = get_last_move c.board in
    if mv == 0
    then d
    else Displayer.add_last_track (start_of_move mv) (end_of_move mv) (opponent c.board.cur_side) d

abbrev pub but_last {ℓ} : {A : Type ℓ} → List A → List A
but_last xs = take (length xs - 1) xs

-- What `backStep` makes of a game, from the move and the board before it and the pictures of
-- `undoMove` on.
unfoldable pub taken_back : ℕ → Board → UiDisplayer → ChineseChess → ChineseChess
taken_back mv board undone c =
    let back : ChineseChess = record c { selected_pos = 0; board = board } in
    let d : UiDisplayer =
      if get_last_move board == 0
      then undone
      else mark_last_move back (Displayer.remove_last_track undone) in
    let drawn : ChineseChess = record back { displayer = d } in
    let shown : ChineseChess =
      if c.switch_animation
      then did (animates (start_of_move mv) (end_of_move mv)) drawn
      else drawn in
    let switched : ChineseChess = switch_play_timer shown in
    record switched {
      history_step_records = but_last switched.history_step_records;
      step_records = elim switched.history_step_records [
        | [] ↦ switched.step_records
        | _ ↦ but_last switched.step_records
      ];
    }

-- `backStep`: the move that was taken back, and the game.
unfoldable pub back_step : ChineseChess → Option (ℕ × ChineseChess)
back_step c = do
  (mv, board) ← Moves.back_step c.board
  let cleared : UiDisplayer = Displayer.un_selecte_piece (Displayer.unshow_prompt c.displayer)
  undone ← Displayer.undo_move (end_of_move mv) (start_of_move mv) cleared
  some (mv, taken_back mv board undone c)

-- `toggleSoundEffect`, `togglePrompt` and `toggleAnimation`, with the setting of `config`.
unfoldable pub toggle_sound_effect : Bool → ChineseChess → ChineseChess
toggle_sound_effect on c = record c { switch_sound_effect = on }

unfoldable pub toggle_prompt : Bool → ChineseChess → ChineseChess
toggle_prompt on c = record c {
  switch_prompt = on;
  displayer = if on then c.displayer else Displayer.unshow_prompt c.displayer;
}

unfoldable pub toggle_animation : Bool → ChineseChess → ChineseChess
toggle_animation on c = record c { switch_animation = on }
