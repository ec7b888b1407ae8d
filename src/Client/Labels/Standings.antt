-- ===== src/Client/Labels/Standings.antt =====
-- assets/js/ui_displayer.js: the percentage of games won, and the dialog of a result beside
-- `updateUserInfo`.
use cchess.Base.{
  ℕ, suc, ◌+◌, ◌*◌, ◌/◌, ◌≤◌, ◌<◌, ◌≡◌, ◌≢◌, refl, arith, Bool, true, false, ◌⊎◌, inl, inr,
  if◌then◌else◌, ◌==◌, ==_iff,
}
use cchess.Base.Int.{pos, ◌+ℤ◌, ◌-ℤ◌, int_laws}
use cchess.Net.Messages.{
  OverType, self_timeout, opp_timeout, self_giveup, opp_giveup, draw, win, loss, UserInfo,
}
use native.Mathlib.Nat.{div-lt_iff_lt-mul, div-mul-le_self, lt-div-mul-add}
use cchess.Client.{ndraw, update_user_info}
use cchess.Client.Labels.{floor_div, percent, play_win, play_loss, display_result_dialog}

-- For a user with numbers of games won and lost that are not negative, the percentage on the
-- label is a whole number of at most 100; that many hundredths of the games won and lost are at
-- most the games won, and, where some were won or lost, one hundredth more is more than those.
pub percent_lem :
    (user : UserInfo) {w l : ℕ}
    → user.nwin ≡ pos w
    → user.nloss ≡ pos l
    → (n : ℕ) × (percent user ≡ pos n)
      × (n ≤ 100)
      × (n * (w + l) ≤ w * 100)
      × ((w + l ≡ 0) ⊎ (w * 100 < suc n * (w + l)))
unfolding percent floor_div ndraw
percent_lem user {w} {l} won lost =
    let played : user.nwin +ℤ user.nloss ≡ pos (w + l) = rw (won, lost) (omega int_laws) in
    let counted : user.total -ℤ (user.total -ℤ user.nwin -ℤ user.nloss) ≡ pos (w + l) =
      rw (won, lost) (omega int_laws) in
    rw (counted, played, won) (by_played (w + l == 0) refl)
  where
    by_played :
        (t : Bool)
        → (w + l == 0) ≡ t
        → (n : ℕ) × ((if t then pos 0 else pos (w * 100 / (w + l))) ≡ pos n)
          × (n ≤ 100)
          × (n * (w + l) ≤ w * 100)
          × ((w + l ≡ 0) ⊎ (w * 100 < suc n * (w + l)))
    by_played true h =
        (0, refl, omega arith, omega arith, inl (ground (arith, ==_iff (w + l) 0, h)))
    by_played false h =
        let some_played : 0 < w + l = ground (arith, ==_iff (w + l) 0, h) in
        let n : ℕ = w * 100 / (w + l) in
        (
          n,
          refl,
          omega (
            arith,
            (div-lt_iff_lt-mul {x = w * 100} {y = 101} some_played).1 (omega (arith, some_played)),
          ),
          div-mul-le_self (w * 100) (w + l),
          inr (omega (arith, lt-div-mul-add {a = w * 100} some_played)),
        )

-- At the end of a game that is not drawn, either the dialog has the picture of a won game and
-- names the own user as the winner, and `updateUserInfo` adds the change to the user's score and
-- one to the games won, or it has the picture of a lost game and names the own user as the loser,
-- and `updateUserInfo` takes the change from the score and adds one to the games lost.
pub display_result_dialog-update_user_info :
    (type : OverType) (n : ℕ) (self_user opp_user : UserInfo)
    → type ≢ draw
    → ((display_result_dialog type self_user opp_user).img ≡ play_win)
        × ((display_result_dialog type self_user opp_user).win_user_name ≡ self_user.username)
        × ((update_user_info type n self_user).score ≡ self_user.score +ℤ pos n)
        × ((update_user_info type n self_user).nwin ≡ self_user.nwin +ℤ pos 1)
        × ((update_user_info type n self_user).nloss ≡ self_user.nloss)
      ⊎ ((display_result_dialog type self_user opp_user).img ≡ play_loss)
        × ((display_result_dialog type self_user opp_user).loss_user_name ≡ self_user.username)
        × ((update_user_info type n self_user).score ≡ self_user.score -ℤ pos n)
        × ((update_user_info type n self_user).nloss ≡ self_user.nloss +ℤ pos 1)
        × ((update_user_info type n self_user).nwin ≡ self_user.nwin)
unfolding display_result_dialog update_user_info
display_result_dialog-update_user_info self_timeout n a b h = inr (refl, refl, refl, refl, refl)
display_result_dialog-update_user_info opp_timeout n a b h = inl (refl, refl, refl, refl, refl)
display_result_dialog-update_user_info self_giveup n a b h = inr (refl, refl, refl, refl, refl)
display_result_dialog-update_user_info opp_giveup n a b h = inl (refl, refl, refl, refl, refl)
display_result_dialog-update_user_info draw n a b h = absurd (h refl)
display_result_dialog-update_user_info win n a b h = inl (refl, refl, refl, refl, refl)
display_result_dialog-update_user_info loss n a b h = inr (refl, refl, refl, refl, refl)
