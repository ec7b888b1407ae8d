-- ===== src/Chess/Start/Answers.antt =====
-- assets/js/chinese_chess.js: the constructor with no text.
use cchess.Base.{
  ℕ, ◌<◌, ◌≡◌, refl, arith, Bool, true, false, List, [], ◌∷◌, Option, none, some, >>=-of,
  >>=-eq-some, sym, ap, ◌∙◌, zero, suc, get_elem?, length,
}
use cchess.Constants
use cchess.Constants.{Side, red, black}
use cchess.Geometry
use cchess.Board
use cchess.Board.State.{Board, new_board, same_side}
use cchess.Fen
use cchess.Fen.{init_from_fen, init_fen_string}
use cchess.Displayer
use cchess.Displayer.{PieceStyle, UiDisplayer, create_ui_displayer, piece_styles}
use cchess.Chess.{ChineseChess, start_timer}
use cchess.Chess.Redraw.{draw_all}
use cchess.Chess.Start.{Config, Spent, create_chinese_chess, flip_unset}

abbrev is_some {ℓ} : {A : Type ℓ} → Option A → Bool
is_some none = false
is_some (some x) = true

first_loads : is_some (init_from_fen init_fen_string new_board) ≡ true
unfolding init_from_fen Fen.place_all Fen.get_piece_type Board.add_piece_to_board
    Board.get_piece_value Geometry.flip_pos Geometry.convert_to_pos Fen.is_number Fen.is_alpha
    Fen.is_between Fen.is_lower_alpha Fen.is_upper_alpha Constants.array_piece_value
first_loads = refl

first_draws :
    (board_style : ℕ) (style : PieceStyle)
    → is_some (draw_all init_fen_string 0 0 (create_ui_displayer board_style style)) ≡ true
unfolding draw_all Fen.get_piece_type Geometry.convert_to_pos Fen.is_number Fen.is_alpha
    Fen.is_between Fen.is_lower_alpha Fen.is_upper_alpha Displayer.create_ui_displayer
    Displayer.init_resource Displayer.init_piece_image Displayer.with_img Displayer.add_piece
    Displayer.draw_file Geometry.in_board Constants.array_in_borad
first_draws board_style style = refl

first_draws_flipped :
    (board_style : ℕ) (style : PieceStyle)
    → is_some (draw_all init_fen_string 0 0 (flip_unset (create_ui_displayer board_style style)))
      ≡ true
unfolding draw_all Fen.get_piece_type Geometry.convert_to_pos Fen.is_number Fen.is_alpha
    Fen.is_between Fen.is_lower_alpha Fen.is_upper_alpha Displayer.create_ui_displayer
    Displayer.init_resource Displayer.init_piece_image Displayer.with_img Displayer.add_piece
    Displayer.draw_file Geometry.in_board Constants.array_in_borad flip_unset Displayer.flip
first_draws_flipped board_style style = refl

is_some-some {ℓ} : {A : Type ℓ} (o : Option A) → is_some o ≡ true → (x : A) × (o ≡ some x)
is_some-some none h = cc
is_some-some (some x) h = (x, refl)

get_elem?-some {ℓ} :
    {A : Type ℓ} (xs : List A) (i : ℕ) → i < length xs → (x : A) × (get_elem? xs i ≡ some x)
get_elem?-some [] i h = absurd (omega (arith, h))
get_elem?-some (x ∷ xs) zero h = (x, refl)
get_elem?-some (x ∷ xs) (suc i) h = get_elem?-some xs i (omega (arith, h))

-- The constructor gives a game from the first text, for both sides, where the style of the pieces
-- exists.
pub create_chinese_chess-Answers :
    (config : Config) (quickly : Bool) (steps : List (List ℕ × Side)) (spent : Option Spent)
    → config.piece_style_idx < length piece_styles
    → (c : ChineseChess) × (create_chinese_chess config quickly steps none spent ≡ some c)
unfolding create_chinese_chess
create_chinese_chess-Answers config quickly steps spent h =
    let (style, found) = get_elem?-some piece_styles config.piece_style_idx h in
    let (_, loaded) = is_some-some (init_from_fen init_fen_string new_board) first_loads in
    let (_, drawn) = is_some-some _ (draws style config.side) in
    (_, >>=-of _ found ∙ >>=-of _ loaded ∙ >>=-of _ drawn)
  where
    draws :
        (style : PieceStyle) (side : Side)
        → is_some (
            draw_all init_fen_string 0 0 (elim side as (λ x. UiDisplayer) [
              | red ↦ create_ui_displayer config.board_style_idx style
              | black ↦ flip_unset (create_ui_displayer config.board_style_idx style)
            ]))
          ≡ true
    draws style red = first_draws config.board_style_idx style
    draws style black = first_draws_flipped config.board_style_idx style

start_timer-sides :
    (t : Bool) (c : ChineseChess)
    → ((start_timer t c).side ≡ c.side) × ((start_timer t c).play_side_flag ≡ c.play_side_flag)
unfolding start_timer
start_timer-sides true c = (refl, refl)
start_timer-sides false c = (refl, refl)

side_loaded : Option (Side × Board) → Side
side_loaded none = red
side_loaded (some (side, b)) = side

first_side : side_loaded (init_from_fen init_fen_string new_board) ≡ red
unfolding side_loaded init_from_fen Fen.side_to_move Fen.place_all Fen.get_piece_type
    Board.add_piece_to_board Board.get_piece_value Geometry.flip_pos Geometry.convert_to_pos
    Fen.is_number Fen.is_alpha Fen.is_between Fen.is_lower_alpha Fen.is_upper_alpha
    Constants.array_piece_value
first_side = refl

-- A game from the first text has the side of the settings, and red moves first.
pub create_chinese_chess-first :
    (config : Config) (quickly : Bool) (steps : List (List ℕ × Side)) (spent : Option Spent)
    {c : ChineseChess}
    → create_chinese_chess config quickly steps none spent ≡ some c
    → (c.side ≡ config.side) × (c.play_side_flag ≡ red)
unfolding create_chinese_chess side_loaded
create_chinese_chess-first config quickly steps spent {c} e =
    let (style, _, f) = >>=-eq-some (get_elem? piece_styles config.piece_style_idx) _ e in
    let ((side, placed), loaded, g) = >>=-eq-some (init_from_fen init_fen_string new_board) _ f in
    let (drawn, _, h) = >>=-eq-some (draw_all _ 0 0 _) _ g in
    let sides = start_timer-sides (same_side config.side side) _ in
    (
      sym (ap (side_of config.side) h) ∙ sides.0,
      sym (ap (flag_of side) h) ∙ sides.1 ∙ sym (ap side_loaded loaded) ∙ first_side,
    )
  where
    side_of : Side → Option ChineseChess → Side
    side_of s none = s
    side_of s (some x) = x.side

    flag_of : Side → Option ChineseChess → Side
    flag_of s none = s
    flag_of s (some x) = x.play_side_flag
