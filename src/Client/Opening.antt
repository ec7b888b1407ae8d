-- ===== src/Client/Opening.antt =====
-- assets/js/net.js: the game that `reponseMatch` begins.
use cchess.Base.{◌<◌, ◌≡◌, refl, sym, ap₂, ◌∙◌, Bool, true, false, none, some, >>=-of, length}
use cchess.Constants.{Side, red, black}
use cchess.Board.State.{same_side}
use cchess.Displayer.{piece_styles}
use cchess.Net.Messages.{PlayerType, RoomType, UserInfo, red_player_type, black_player_type}
use cchess.Chess.{ChineseChess, turn_to_play}
use cchess.Chess.Start.Answers.{create_chinese_chess-Answers, create_chinese_chess-first}
use cchess.Chess.Session.{IsInOrder}
use cchess.Chess.Session.Lives.{created, Session-IsInOrder}
use cchess.Client.{Client, reponse_match, is_quickly, steps_shown}

-- Red moves first.
abbrev pub moves_first : PlayerType → Bool
moves_first red_player_type = true
moves_first black_player_type = false

-- Where the style of the pieces in `config` is one of the styles, `reponseMatch` always gives a
-- client, for both sides and both kinds of room, with the opponent and a game in order (its
-- pictures show its board, its pieces are accounted for, and its clocks, flag and selected piece
-- fit the side to move), and it is the own turn just for the red player.
pub reponse_match-IsInOrder :
    (type : PlayerType) (room : RoomType) (opp_user : UserInfo) (c : Client)
    → c.config.piece_style_idx < length piece_styles
    → (c' : Client) × (game : ChineseChess) × (reponse_match type room opp_user c ≡ some c')
      × (c'.cchess ≡ some game)
      × (c'.opp_user ≡ some opp_user)
      × IsInOrder game
      × (turn_to_play game ≡ moves_first type)
unfolding reponse_match turn_to_play
reponse_match-IsInOrder type room opp_user c h =
    let side : Side = elim type [ red_player_type ↦ red | black_player_type ↦ black ] in
    let (game, made) =
      create_chinese_chess-Answers (record c.config { side = side }) (is_quickly room)
        (steps_shown c) none h in
    let order = Session-IsInOrder (created _ _ _ none none made) in
    let (own, flag) =
      create_chinese_chess-first (record c.config { side = side }) (is_quickly room) (steps_shown c)
        none made in
    (
      _,
      game,
      >>=-of _ made,
      refl,
      refl,
      order,
      ap₂ same_side own (sym order.flagged ∙ flag) ∙ by_type type,
    )
  where
    by_type :
        (type : PlayerType)
        → same_side
            (elim type as (λ x. Side) [ red_player_type ↦ red | black_player_type ↦ black ])
            red
          ≡ moves_first type
    by_type red_player_type = refl
    by_type black_player_type = refl
