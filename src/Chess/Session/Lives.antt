-- ===== src/Chess/Session/Lives.antt =====
-- assets/js/chinese_chess.js: every game that the constructor, clicks, moves and switches lead to.
use cchess.Base.{
  ℕ, ◌≡◌, refl, sym, ap, subst, Bool, true, false, List, Option, none, some, inl, >>=-eq-some,
  if◌then◌else◌, get_elem?,
}
use cchess.Constants.{Side, red, black}
use cchess.Board.State.{Board, Position, new_board, same_side}
use cchess.Board.Moves.{change_side}
use cchess.Board.Value.Books.{IsAccounted}
use cchess.Fen.{init_from_fen, place_all}
use cchess.Fen.Load.{init_from_fen-IsAccounted}
use cchess.Timer.Runs.{IsStopped, create_play_timer-IsStopped, start-IsRunning}
use cchess.Displayer
use cchess.Displayer.{UiDisplayer, Img, create_ui_displayer}
use cchess.Chess.{
  ChineseChess, start_timer, turn_to_play, play, click_piece, toggle_sound_effect, toggle_prompt,
  toggle_animation,
}
use cchess.Chess.Redraw.{draw_all}
use cchess.Displayer.Pictures.Boards.{Shows}
use cchess.Chess.Start.{Config, Spent, create_chinese_chess}
use cchess.Chess.Start.Shown.{create_chinese_chess-Shows}
use cchess.Chess.Session.{IsOnBoard, IsProper, IsInOrder, play-IsInOrder}
use cchess.Chess.Session.Clicks.{Marked-IsInOrder, click_piece-IsInOrder}

-- The parts of a new game, before its clock runs.
record IsNew (c : ChineseChess) : Type 0 where
  own_stopped : IsStopped c.self_play_timer
  opp_stopped : IsStopped c.opp_play_timer
  counted : c.self_counts ≡ turn_to_play c
  flagged : c.play_side_flag ≡ c.board.cur_side
  live : c.watch_mode ≡ false
  unselected : c.selected_pos ≡ 0
  accounted : IsAccounted c.board.position

start_timer-IsInOrder :
    (t : Bool) (c : ChineseChess)
    → IsNew c
    → turn_to_play c ≡ t
    → Shows (start_timer t c).displayer (start_timer t c).board.position
    → IsInOrder (start_timer t c)
unfolding start_timer turn_to_play
start_timer-IsInOrder true c new turn shows = record {
  shows = shows;
  accounted = new.accounted;
  clocks = (inl (start-IsRunning _ new.own_stopped), new.opp_stopped);
  counted = sym turn;
  flagged = new.flagged;
  live = new.live;
  selectable = inl new.unselected;
}
start_timer-IsInOrder false c new turn shows = record {
  shows = shows;
  accounted = new.accounted;
  clocks = (new.own_stopped, inl (start-IsRunning _ new.opp_stopped));
  counted = sym turn;
  flagged = new.flagged;
  live = new.live;
  selectable = inl new.unselected;
}

-- The side that the text names is the one that the board moves next.
loaded_side :
    (text : List ℕ) (side : Side) (placed : Board)
    → init_from_fen text new_board ≡ some (side, placed)
    → (elim side as (λ x. Board) [ red ↦ placed | black ↦ change_side placed ]).cur_side ≡ side
unfolding init_from_fen change_side
loaded_side text side placed e =
    let (b, _, f) = >>=-eq-some (place_all text 0 0 new_board.position) _ e in
    let same : record new_board { position = b } ≡ placed = ap (board_in new_board) f in
    subst (λ x. (elim side as (λ y. Board) [ red ↦ x | black ↦ change_side x ]).cur_side ≡ side)
      same (by_side side b)
  where
    board_in : Board → Option (Side × Board) → Board
    board_in b none = b
    board_in b (some (_, x)) = x

    by_side :
        (side : Side) (b : Position)
        → (elim side as (λ y. Board) [
          | red ↦ record new_board { position = b }
          | black ↦ change_side (record new_board { position = b })
        ]).cur_side
          ≡ side
    by_side red b = refl
    by_side black b = refl

create_chinese_chess-IsInOrder :
    (config : Config) (quickly : Bool) (steps : List (List ℕ × Side)) (fen : Option (List ℕ))
    (spent : Option Spent) {c : ChineseChess}
    → create_chinese_chess config quickly steps fen spent ≡ some c
    → IsInOrder c
unfolding create_chinese_chess change_side turn_to_play
create_chinese_chess-IsInOrder config quickly steps fen spent {c} e =
    let shows = create_chinese_chess-Shows config quickly steps fen spent e in
    let (style, _, f) = >>=-eq-some (get_elem? Displayer.piece_styles config.piece_style_idx) _ e in
    let ((side, placed), e1, g) = >>=-eq-some (init_from_fen _ new_board) _ f in
    let (drawn, e2, h) = >>=-eq-some (draw_all _ 0 0 _) _ g in
    let started = loaded_side _ side placed e1 in
    finish (same_side config.side side) _
      (record {
        own_stopped = create_play_timer-IsStopped _;
        opp_stopped = create_play_timer-IsStopped _;
        counted = ap (same_side config.side) (sym started);
        flagged = sym started;
        live = refl;
        unselected = refl;
        accounted = subst IsAccounted (turned side placed) (init_from_fen-IsAccounted _ e1);
      })
      (ap (same_side config.side) started) shows h
  where
    turned :
        (side : Side) (b : Board)
        → b.position ≡ (elim side as (λ x. Board) [ red ↦ b | black ↦ change_side b ]).position
    turned red b = refl
    turned black b = refl

    finish :
        (t : Bool) (g : ChineseChess)
        → IsNew g
        → turn_to_play g ≡ t
        → Shows c.displayer c.board.position
        → some (start_timer t g) ≡ some c
        → IsInOrder c
    finish t g new turn shows h =
        let same : start_timer t g ≡ c = cc in
        subst IsInOrder same (
          start_timer-IsInOrder t g new turn
            (subst (λ x. Shows x.displayer x.board.position) (sym same) shows))

-- The games that a page comes to: a new one, and after a click on a square of the board, after a
-- move between two squares of the board that came in, and after a switch of the settings.
pub data Session : ChineseChess → Type 0 where
  created :
      (config : Config) (quickly : Bool) (steps : List (List ℕ × Side)) (fen : Option (List ℕ))
      (spent : Option Spent) {c : ChineseChess}
      → create_chinese_chess config quickly steps fen spent ≡ some c
      → Session c
  clicked :
      {c c' : ChineseChess}
      → Session c
      → (square : ℕ) → IsOnBoard square
      → click_piece square c ≡ some c'
      → Session c'
  told :
      {c c' : ChineseChess} → Session c → (mv : ℕ) → IsProper mv → play mv c ≡ some c' → Session c'
  sounded : {c : ChineseChess} → Session c → (on : Bool) → Session (toggle_sound_effect on c)
  prompted : {c : ChineseChess} → Session c → (on : Bool) → Session (toggle_prompt on c)
  animated : {c : ChineseChess} → Session c → (on : Bool) → Session (toggle_animation on c)

-- In every game that a page comes to from the constructor, with any settings, list of moves
-- shown, text and times spent, by clicks on squares of the board, moves that come in between two
-- different squares of the board, and the switches of sound, prompts and animation, as long as
-- each of these gives a game: on every square of the board a viewer sees the piece that stands
-- there; squares and pieces agree, each piece on the board is its player's and both values are
-- the sums over the pieces; the clock that is not current is stopped and the current one runs or
-- is stopped; the current clock and the flag are those of the side to move; the game is not in
-- watch mode; and no piece is selected, or one of the own side on a square of the board, in the
-- own turn.
pub Session-IsInOrder : {c : ChineseChess} → Session c → IsInOrder c
unfolding toggle_sound_effect toggle_prompt toggle_animation Displayer.unshow_prompt turn_to_play
Session-IsInOrder (created config quickly steps fen spent e) =
    create_chinese_chess-IsInOrder config quickly steps fen spent e
Session-IsInOrder (clicked s square on e) =
    click_piece-IsInOrder square _ (Session-IsInOrder s) on e
Session-IsInOrder (told s mv proper e) = play-IsInOrder mv _ (Session-IsInOrder s) proper e
Session-IsInOrder (sounded {c} s on) =
    let o = Session-IsInOrder s in
    Marked-IsInOrder c _ o (record { same = refl; same_imgs = refl }) o.selectable
Session-IsInOrder (prompted {c} s on) =
    let o = Session-IsInOrder s in
    Marked-IsInOrder c _ o (record { same = refl; same_imgs = by_switch on c.displayer })
      o.selectable
  where
    by_switch :
        (on : Bool) (d : UiDisplayer) → (if on then d else Displayer.unshow_prompt d).imgs ≡ d.imgs
    by_switch true d = refl
    by_switch false d = refl
Session-IsInOrder (animated {c} s on) =
    let o = Session-IsInOrder s in
    Marked-IsInOrder c _ o (record { same = refl; same_imgs = refl }) o.selectable
