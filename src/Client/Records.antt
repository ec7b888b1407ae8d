-- ===== src/Client/Records.antt =====
-- assets/js/ui_displayer.js: the numbers of a user through `updateUserInfo`.
use cchess.Base.{ℕ, ◌≡◌}
use cchess.Base.Int.{pos, ◌+ℤ◌, int_laws}
use cchess.Net.Messages.{
  OverType, self_timeout, opp_timeout, self_giveup, opp_giveup, draw, win, loss, UserInfo,
}
use cchess.Client.{update_user_info, ndraw}

-- The draws that the end of a game adds.
abbrev pub draws : OverType → ℕ
draws draw = 1
draws _ = 0

-- At the end of a game of any kind, the number of drawn games that is shown, the total less those
-- won and lost, grows by one after a draw and stays as it is after every other end.
pub ndraw-update_user_info :
    (type : OverType) (n : ℕ) (user : UserInfo)
    → ndraw (update_user_info type n user) ≡ ndraw user +ℤ pos (draws type)
unfolding update_user_info ndraw
ndraw-update_user_info self_timeout n user = omega int_laws
ndraw-update_user_info opp_timeout n user = omega int_laws
ndraw-update_user_info self_giveup n user = omega int_laws
ndraw-update_user_info opp_giveup n user = omega int_laws
ndraw-update_user_info draw n user = omega int_laws
ndraw-update_user_info win n user = omega int_laws
ndraw-update_user_info loss n user = omega int_laws
