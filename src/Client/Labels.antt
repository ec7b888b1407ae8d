-- ===== src/Client/Labels.antt =====
-- assets/js/ui_displayer.js: what the page writes about the users: the labels of a user, and the
-- dialog at the end of a game.
pub mod Standings
use cchess.Base.{
  ℕ, suc, ◌+◌, ◌*◌, ◌/◌, Bool, true, false, List, [], Option, none, some, if◌then◌else◌, ◌==◌,
}
use cchess.Base.Int.{ℤ, pos, negsuc, sub_ℕ, ◌+ℤ◌, ◌-ℤ◌}
use cchess.Fen.{codes}
use cchess.Net.Messages.{
  OverType, self_timeout, opp_timeout, self_giveup, opp_giveup, draw, win, loss, UserInfo,
}
use cchess.Client.{ndraw}

-- `Math.floor(a / b)`, for another b than 0.
unfoldable pub floor_div : ℤ → ℤ → ℤ
floor_div (pos a) (pos b) = pos (a / b)
floor_div (pos a) (negsuc b) = sub_ℕ 0 ((a + b) / suc b)
floor_div (negsuc a) (pos b) = sub_ℕ 0 ((a + b) / b)
floor_div (negsuc a) (negsuc b) = pos (suc a / suc b)

abbrev pub is_zero : ℤ → Bool
is_zero (pos n) = n == 0
is_zero (negsuc n) = false

abbrev pub hundredfold : ℤ → ℤ
hundredfold (pos n) = pos (n * 100)
hundredfold (negsuc n) = sub_ℕ 0 (suc n * 100)

-- The percentage of games won, of those that are not drawn.
unfoldable pub percent : UserInfo → ℤ
percent user =
    if is_zero (user.total -ℤ ndraw user)
    then pos 0
    else floor_div (hundredfold user.nwin) (user.nwin +ℤ user.nloss)

-- The labels of one user, before their numbers are written as texts.
pub record UserLabels : Type 0 where
  pub username : List ℕ
  pub score : ℤ
  pub percent_won : ℤ
  pub won : ℤ
  pub lost : ℤ
  pub drawn : ℤ

-- `displayUserInfoOnLabel`
unfoldable pub display_user_info_on_label : UserInfo → UserLabels
display_user_info_on_label user = record {
  username = user.username;
  score = user.score;
  percent_won = percent user;
  won = user.nwin;
  lost = user.nloss;
  drawn = ndraw user;
}

-- The picture of the dialog.
pub data ResultImg : Type 0 where
  play_win play_loss play_draw : ResultImg

-- The dialog of a result: its picture, its text, and the names after which it writes the change of
-- the score, with a plus and with a minus.
pub record ResultInfo : Type 0 where
  pub img : ResultImg
  pub info : List ℕ
  pub win_user_name : List ℕ
  pub loss_user_name : List ℕ

unfoldable pub result_text : OverType → List ℕ
result_text self_timeout = codes "您超时判负"
result_text opp_timeout = codes "对方超时判负"
result_text self_giveup = codes "您选择认输"
result_text opp_giveup = codes "对方认输"
result_text win = codes "绝杀"
result_text loss = codes "困毙"
result_text draw = codes "同意和棋"

-- `displayResultDialog`
unfoldable pub display_result_dialog : OverType → UserInfo → UserInfo → ResultInfo
display_result_dialog type self_user opp_user =
    let lost : ResultInfo = record {
      img = play_loss;
      info = result_text type;
      win_user_name = opp_user.username;
      loss_user_name = self_user.username;
    } in
    let drawn : ResultInfo = record {
      img = play_draw;
      info = result_text type;
      win_user_name = self_user.username;
      loss_user_name = opp_user.username;
    } in
    elim type [
      | self_timeout ↦ lost
      | self_giveup ↦ lost
      | loss ↦ lost
      | draw ↦ drawn
      | _ ↦ record drawn { img = play_win }
    ]
