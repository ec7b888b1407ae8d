-- ===== src/Client.antt =====
-- assets/js/net.js and assets/js/ui_displayer.js: what the client does with a message of the server
-- (`reponseMessage` and the class `Net`), and with a button of a dialog. The socket is left out: a
-- message that was decoded comes in, and a request goes into a list.
pub mod Records
pub mod Opening
pub mod Together
pub mod Labels
use cchess.Base.{ℕ, ◌+◌, Bool, true, false, List, [], ◌∷◌, Option, none, some, if◌then◌else◌, ◌>>=◌}
use cchess.Base.Int.{ℤ, pos, negsuc, ◌+ℤ◌, ◌-ℤ◌}
use cchess.Constants.{Side, red, black}
use cchess.Fen.{to_fen}
use cchess.Net.Messages
use cchess.Net.Messages.{
  RoomType, quickly_pattern, slowly_pattern, PlayerType, red_player_type, black_player_type,
  FailedReason, OverType, self_timeout, self_giveup, draw, loss, UserInfo, GameSituation, Message,
  a_login_success_response, a_login_failed_response, a_match_response, a_move_step,
  a_forgive_request, a_forgive_response, a_draw_request, a_draw_response, a_opp_disconnected,
  a_opp_reconnected, a_game_situation, a_game_over, Request, match, cancel_match, ask_forgive,
  answer_forgive, ask_draw, answer_draw, give_up,
}
use cchess.Chess
use cchess.Chess.{ChineseChess, turn_to_play}
use cchess.Chess.Redraw.{add_last_track}
use cchess.Chess.Start.{Config, Spent, create_chinese_chess, clear}

-- The dialogs with buttons of `UIDisplayer`.
pub data Dialog : Type 0 where
  match_dialog matching_dialog self_forgive_request_dialog opp_forgive_request_dialog : Dialog
  self_draw_request_dialog opp_draw_request_dialog giveup_dialog : Dialog
  result_dialog : OverType → (change_score : ℕ) → Dialog

-- The message boxes.
pub data Notice : Type 0 where
  login_failed : FailedReason → Notice
  draw_response_label opp_disconnected_label opp_reconnected_label : Notice
  forgive_response_label : Bool → Notice
  no_forgiving_now : Notice

-- What the handlers share: `config`, with the game, and the dialog that is open. `ending` has the ends
-- of games whose second has not passed; the newest notice and request come first.
pub record Client : Type 0 where
  pub config : Config
  pub self_user : Option UserInfo
  pub opp_user : Option UserInfo
  pub cchess : Option ChineseChess
  pub dlg : Option Dialog
  pub notices : List Notice
  pub sent : List Request
  pub ending : List (OverType × ℕ)

abbrev pub noticed : Notice → Client → Client
noticed notice c = record c { notices = notice ∷ c.notices }

abbrev pub asked : Request → Client → Client
asked req c = record c { sent = req ∷ c.sent }

-- `quickly` is the pattern 0.
abbrev pub is_quickly : RoomType → Bool
is_quickly quickly_pattern = true
is_quickly slowly_pattern = false

-- The moves that the page shows: those of the game so far, and none before the first game.
abbrev pub steps_shown : Client → List (List ℕ × Side)
steps_shown c = elim c.cchess [ none ↦ [] | some game ↦ game.step_records ]

-- `reponseMatch`
unfoldable pub reponse_match : PlayerType → RoomType → UserInfo → Client → Option Client
reponse_match self_type room_type opp_user c =
    let side : Side = elim self_type [ red_player_type ↦ red | black_player_type ↦ black ] in
    let config : Config = record c.config { side = side } in
    create_chinese_chess config (is_quickly room_type) (steps_shown c) none none >>= λ game.
    some (record c { config = config; opp_user = some opp_user; cchess = some game; dlg = none })

-- `responseForgiveRequest`
unfoldable pub response_forgive_request : Client → Option Client
response_forgive_request c = c.cchess >>= λ game. some (
    if turn_to_play game
    then record c { dlg = some opp_forgive_request_dialog }
    else asked (answer_forgive false 0 []) c)

-- `backStep` of the game.
unfoldable pub step_back : Client → Option ((ℕ × List ℕ) × Client)
step_back c = do
  game ← c.cchess
  (mv, back) ← Chess.back_step game
  some ((mv, to_fen back.board), record c { cchess = some back })

-- `responseForgiveRes`
unfoldable pub response_forgive_res : Bool → Client → Option Client
response_forgive_res agree c =
    let told : Client = noticed (forgive_response_label agree) c in
    let back = step_back told >>= λ (answer, stepped). some stepped in
    if agree then back else some told

-- `responseGameSituation`; an empty text of the board is no text.
unfoldable pub response_game_situation : GameSituation → Client → Option Client
response_game_situation s c =
    let config : Config = record c.config { side = if s.is_red then red else black } in
    let spent : Spent = record {
      self_game = s.self_time.game_spend_time;
      self_step = s.self_time.step_spend_time;
      opp_game = s.opp_time.game_spend_time;
      opp_step = s.opp_time.step_spend_time;
      turn_to_me = s.turn_to_me;
    } in
    create_chinese_chess config (is_quickly s.room_type) (steps_shown c) (some s.fen) (some spent)
    >>= λ game. some (record c {
      config = config;
      self_user = some s.self;
      opp_user = some s.opp;
      cchess = some (add_last_track s.last_mv game);
      dlg = none;
    })

abbrev pub magnitude : ℤ → ℕ
magnitude (pos n) = n
magnitude (negsuc n) = n + 1

-- `reponseMessage`, with the method of `Net` that it calls; other messages have no callback.
unfoldable pub reponse_message : Message → Client → Option Client
reponse_message (a_login_success_response user) c =
    some (record c { self_user = some user; dlg = some match_dialog })
reponse_message (a_login_failed_response reason) c = some (noticed (login_failed reason) c)
reponse_message (a_match_response self_type room_type opp_user) c =
    reponse_match self_type room_type opp_user c
reponse_message (a_move_step over mv fen) c = do
  game ← c.cchess
  played ← Chess.play mv game
  some (record c { cchess = some played })
reponse_message a_draw_request c = some (record c { dlg = some opp_draw_request_dialog })
reponse_message (a_draw_response agree) c = some (noticed draw_response_label c)
reponse_message a_opp_disconnected c = some (noticed opp_disconnected_label c)
reponse_message a_forgive_request c = response_forgive_request c
reponse_message (a_forgive_response agree mv fen) c = response_forgive_res agree c
reponse_message a_opp_reconnected c = some (noticed opp_reconnected_label c)
reponse_message (a_game_situation s) c = response_game_situation s c
reponse_message (a_game_over type change_score self_time opp_time) c =
    some (record c { ending = (type, magnitude change_score) ∷ c.ending })
reponse_message _ c = some c

-- `updateUserInfo`
unfoldable pub update_user_info : OverType → ℕ → UserInfo → UserInfo
update_user_info type change_score user =
    let counted : UserInfo = record user { total = user.total +ℤ pos 1 } in
    let lost : UserInfo = record counted {
      score = user.score -ℤ pos change_score;
      nloss = user.nloss +ℤ pos 1;
    } in
    let won : UserInfo = record counted {
      score = user.score +ℤ pos change_score;
      nwin = user.nwin +ℤ pos 1;
    } in
    elim type [ self_timeout ↦ lost | self_giveup ↦ lost | loss ↦ lost | draw ↦ counted | _ ↦ won ]

-- The function that `responseGameOver` leaves to a timeout.
unfoldable pub game_over_shown : OverType → ℕ → Client → Option Client
game_over_shown type change_score c = do
  user ← c.self_user
  opp ← c.opp_user
  some (record c {
    self_user = some (update_user_info type change_score user);
    opp_user = none;
    dlg = some (result_dialog type change_score);
  })

-- The buttons of the dialogs, the first one by `true`. The dialog of a result has one button.
unfoldable pub press_open : Dialog → Bool → Client → Option Client
press_open match_dialog first c = some (
    asked (match (if first then quickly_pattern else slowly_pattern))
      (record c { dlg = some matching_dialog }))
press_open matching_dialog first c =
    some (asked cancel_match (record c { dlg = some match_dialog }))
press_open self_forgive_request_dialog first c =
    let closed : Client = record c { dlg = none } in
    some (if first then asked ask_forgive closed else closed)
press_open opp_forgive_request_dialog true c = step_back c >>= λ ((mv, fen), back).
    some (asked (answer_forgive true mv fen) (record back { dlg = none }))
press_open opp_forgive_request_dialog false c =
    some (asked (answer_forgive false 0 []) (record c { dlg = none }))
press_open self_draw_request_dialog first c =
    let closed : Client = record c { dlg = none } in
    some (if first then asked ask_draw closed else closed)
press_open opp_draw_request_dialog first c =
    some (asked (answer_draw first) (record c { dlg = none }))
press_open giveup_dialog first c =
    let closed : Client = record c { dlg = none } in
    some (if first then asked give_up closed else closed)
press_open (result_dialog type change_score) first c =
    c.cchess >>= λ game. some (record c { cchess = some (clear game); dlg = some match_dialog })

unfoldable pub press : Bool → Client → Option Client
press first c = c.dlg >>= λ dialog. press_open dialog first c

-- `onForgiveRequestBtnClick`
unfoldable pub on_forgive_request_btn_click : Client → Option Client
on_forgive_request_btn_click c = c.cchess >>= λ game. some (
    if turn_to_play game
    then noticed no_forgiving_now c
    else record c { dlg = some self_forgive_request_dialog })

-- The games drawn, as `displayUserInfoOnLabel` shows them.
unfoldable pub ndraw : UserInfo → ℤ
ndraw user = user.total -ℤ user.nwin -ℤ user.nloss
