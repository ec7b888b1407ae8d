-- ===== src/Chess/Start/Shown.antt =====
-- assets/js/chinese_chess.js: the board and the pictures that `initFromFen` sets up side by side.
use cchess.Base.{
  not, ℕ, ◌<◌, ◌≡◌, refl, sym, ap, ◌∙◌, subst, arith, Bool, true, false, List, Option, none, some,
  ltb, >>=-eq-some, get_elem?,
}
use cchess.Constants.{Side, red, black}
use cchess.Board.State.{Position, Board, new_board, same_side}
use cchess.Board.Moves.{change_side}
use cchess.Board.Setup.{IsReady, new_board-IsReady}
use cchess.Fen.{place_all, init_from_fen, shown_at}
use cchess.Fen.Scanned.{seen_man-man_at}
use cchess.Displayer
use cchess.Displayer.{Img, UiDisplayer, Opacity, unset, PieceStyle}
use cchess.Displayer.Pictures.{piece_on, through}
use cchess.Displayer.Pictures.Boards.{Shows}
use cchess.Chess.{ChineseChess, start_timer}
use cchess.Chess.Redraw.{draw_all}
use cchess.Chess.Start.{Config, Spent, fen_or_first, create_chinese_chess, flip_unset}
use cchess.Chess.Start.Drawn.{Drawn, draw_all-Drawn}

below : (p : ℕ) → p < 256 → ltb p 256 ≡ true
below p near = ground arith

create_ui_displayer-Drawn :
    (board_style : ℕ) (style : PieceStyle)
    → Drawn (Displayer.create_ui_displayer board_style style) new_board.position
unfolding Displayer.create_ui_displayer Displayer.init_resource Displayer.init_piece_image
    Displayer.create_null_piece_image Displayer.create_image Displayer.change_pos shown_at
create_ui_displayer-Drawn board_style style p near on =
    (Displayer.create_null_piece_image style false false p, rw (below p near, on) refl, refl, refl)

flip_unset-Drawn :
    (d : UiDisplayer) → Drawn d new_board.position → Drawn (flip_unset d) new_board.position
unfolding flip_unset Displayer.flip Displayer.change_pos
flip_unset-Drawn d drawn p near on =
    let (img, found, plain, same) = drawn p near on in
    (
      Displayer.change_pos d.style (not d.flipped) p img,
      rw (below p near, on, found) refl,
      plain,
      same,
    )

start_timer-kept :
    (t : Bool) (c : ChineseChess)
    → ((start_timer t c).displayer ≡ c.displayer)
      × ((start_timer t c).board.position ≡ c.board.position)
unfolding start_timer
start_timer-kept true c = (refl, refl)
start_timer-kept false c = (refl, refl)

Drawn-Shows : (d : UiDisplayer) (b : Position) → IsReady b → Drawn d b → Shows d b
Drawn-Shows d b ready drawn p near on =
    let (img, found, plain, same) = drawn p near on in
    (
      img,
      found,
      ap (λ (o : Opacity). through o (piece_on img.picture)) plain
          ∙ same
          ∙ seen_man-man_at b ready.accounted.placed p,
    )

-- With any settings, list of moves shown, text and times spent, if the constructor gives a game,
-- then on every square of the board a viewer sees the piece that stands there.
pub create_chinese_chess-Shows :
    (config : Config) (quickly : Bool) (steps : List (List ℕ × Side)) (fen : Option (List ℕ))
    (spent : Option Spent) {c : ChineseChess}
    → create_chinese_chess config quickly steps fen spent ≡ some c
    → Shows c.displayer c.board.position
unfolding create_chinese_chess init_from_fen change_side
create_chinese_chess-Shows config quickly steps fen spent {c} e =
    let (style, _, f) = >>=-eq-some (get_elem? Displayer.piece_styles config.piece_style_idx) _ e in
    let ((side, placed), e1, g) = >>=-eq-some (init_from_fen _ new_board) _ f in
    let (drawn, e2, h) = >>=-eq-some (draw_all _ 0 0 _) _ g in
    let kept = start_timer-kept (same_side config.side side) _ in
    finish style side placed drawn e1 e2 (sym kept.0 ∙ ap (displayer_of drawn) h)
      (sym kept.1 ∙ ap board_of h)
  where
    displayer_of : UiDisplayer → Option ChineseChess → UiDisplayer
    displayer_of d none = d
    displayer_of d (some x) = x.displayer

    board_of : Option ChineseChess → Position
    board_of none = new_board.position
    board_of (some x) = x.board.position

    placed_of : Option (Side × Board) → Position
    placed_of none = new_board.position
    placed_of (some (s, b)) = b.position

    text : List ℕ
    text = fen_or_first fen

    fresh : PieceStyle → Side → UiDisplayer
    fresh style red = Displayer.create_ui_displayer config.board_style_idx style
    fresh style black = flip_unset (Displayer.create_ui_displayer config.board_style_idx style)

    fresh-Drawn : (style : PieceStyle) (side : Side) → Drawn (fresh style side) new_board.position
    fresh-Drawn style red = create_ui_displayer-Drawn config.board_style_idx style
    fresh-Drawn style black =
        flip_unset-Drawn (Displayer.create_ui_displayer config.board_style_idx style)
          (create_ui_displayer-Drawn config.board_style_idx style)

    by_side :
        (style : PieceStyle) (side : Side) {o : Option UiDisplayer}
        → draw_all text 0 0 (elim side [
          | red ↦ Displayer.create_ui_displayer config.board_style_idx style
          | black ↦ flip_unset (Displayer.create_ui_displayer config.board_style_idx style)
        ])
          ≡ o
        → draw_all text 0 0 (fresh style side) ≡ o
    by_side style red h = h
    by_side style black h = h

    turned :
        (side : Side) (b : Board)
        → (elim side as (λ x. Board) [ red ↦ b | black ↦ change_side b ]).position ≡ b.position
    turned red b = refl
    turned black b = refl

    finish :
        (style : PieceStyle) (side : Side) (placed : Board) (drawn : UiDisplayer)
        → init_from_fen text new_board ≡ some (side, placed)
        → draw_all text 0 0 (elim config.side [
          | red ↦ Displayer.create_ui_displayer config.board_style_idx style
          | black ↦ flip_unset (Displayer.create_ui_displayer config.board_style_idx style)
        ])
          ≡ some drawn
        → drawn ≡ c.displayer
        → (elim side as (λ x. Board) [ red ↦ placed | black ↦ change_side placed ]).position
          ≡ c.board.position
        → Shows c.displayer c.board.position
    finish style side placed drawn loads draws same_d same_b =
        let (b, e3, k) = >>=-eq-some (place_all text 0 0 new_board.position) _ loads in
        let (all_drawn, ready) =
          draw_all-Drawn text 0 0 (fresh style config.side) new_board.position new_board-IsReady
            (fresh-Drawn style config.side) e3 (by_side style config.side draws) in
        let same : b ≡ c.board.position = ap placed_of k ∙ sym (turned side placed) ∙ same_b in
        subst (λ x. Shows c.displayer x) same
          (subst (λ x. Shows x b) same_d (Drawn-Shows drawn b ready all_drawn))
