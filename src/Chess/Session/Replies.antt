-- ===== src/Chess/Session/Replies.antt =====
-- assets/js/chinese_chess.js: when `play` gives a game.
use cchess.Base.{
  ℕ, ◌≡◌, refl, ap, ap₂, ◌∙◌, Bool, true, false, List, Option, none, some, inl, inr, if◌then◌else◌,
  >>=-of, >>=-eq-some, if-eq-some,
}
use cchess.Constants.{Side, PieceType, MoveRes, regular, capatured, general, illegal, killed, lore}
use cchess.Geometry.{start_of_move, end_of_move}
use cchess.Board.State.{Board}
use cchess.Board.Rules.{legal_move_piece}
use cchess.Board.Men.{man_at}
use cchess.Board.Moves
use cchess.Board.Moves.{make_move}
use cchess.Board.Undo.{make_move-Made}
use cchess.Board.Try.{try_move_piece}
use cchess.Board.Probe.Turn.{try_move_piece_pure}
use cchess.Notation.{to_chinese_move}
use cchess.Displayer
use cchess.Displayer.{UiDisplayer}
use cchess.Displayer.Pictures.Boards.{make_move-Shows}
use cchess.Chess.{ChineseChess, play_sound_for_move_res, show_move, play_accepted, play}
use cchess.Chess.Turns.Played.{play_sound-same}
use cchess.Chess.Session.{IsProper, IsInOrder}
use cchess.Chess.Session.Undone.{accepts}

-- An accepted move was made on the board, and moves a piece.
try_move_piece-made :
    (mv : ℕ) (b : Board) {res : MoveRes} {tried : Board}
    → try_move_piece mv b ≡ some (res, tried)
    → accepts res ≡ true
    → (made : Board) × (m : Side × PieceType) × (make_move mv b ≡ some made)
      × (man_at b.position (start_of_move mv) ≡ some m)
unfolding try_move_piece
try_move_piece-made mv b {res} t ok = by_cell (b.position.cells (start_of_move mv)) refl
  where
    Goal : Type 0
    Goal =
        (made : Board) × (m : Side × PieceType) × (make_move mv b ≡ some made)
        × (man_at b.position (start_of_move mv) ≡ some m)

    refused : illegal ≡ res → Goal
    refused h = let bad : false ≡ true = ap accepts h ∙ ok in cc

    by_cell : (cell : Option ℕ) → b.position.cells (start_of_move mv) ≡ cell → Goal
    by_cell none h = let t' = rw (h, try_move_piece) at t in refused cc
    by_cell (some r) h =
        let (legal, _, f) =
          >>=-eq-some (legal_move_piece b.position r (end_of_move mv)) _
            (rw (h, try_move_piece) at t) in
        elim (if-eq-some legal _ _ f) [
          | inl (_, g) ↦
              let (made, e, _) = >>=-eq-some (make_move mv b) _ g in
              (made, ((b.position.store r).side, (b.position.store r).kind), e, rw h refl)
          | inr (_, g) ↦ refused cc
        ]

if-false :
    (t : Bool) (x y : Option ChineseChess) {c : ChineseChess}
    → t ≡ false
    → y ≡ some c
    → (if t then x else y) ≡ some c
if-false true x y h e = cc
if-false false x y h e = e

show_move-Answers :
    (mv : ℕ) (side : Side) (c : ChineseChess) {d : UiDisplayer}
    → c.watch_mode ≡ false
    → Displayer.make_move
        (start_of_move mv)
        (end_of_move mv)
        side
        (Displayer.unshow_prompt (Displayer.un_selecte_piece c.displayer))
      ≡ some d
    → (c' : ChineseChess) × (show_move mv side c ≡ some c')
unfolding show_move
show_move-Answers mv side c live drawn = (_, if-false c.watch_mode _ _ live (>>=-of _ drawn))

-- The rest of `play`, where the move can be written, made on the board and drawn.
play_accepted-Answers :
    (mv : ℕ) (res : MoveRes) (c : ChineseChess) {text : List ℕ} {board : Board} {d : UiDisplayer}
    → c.watch_mode ≡ false
    → to_chinese_move mv c.board ≡ some text
    → Moves.play mv c.board ≡ some board
    → Displayer.make_move
        (start_of_move mv)
        (end_of_move mv)
        c.board.cur_side
        (Displayer.unshow_prompt (Displayer.un_selecte_piece c.displayer))
      ≡ some d
    → (c' : ChineseChess) × (play_accepted mv res c ≡ some c')
unfolding play_accepted
play_accepted-Answers mv res c live written played drawn =
    let (_, shown) = show_move-Answers mv c.board.cur_side _ live drawn in
    (_, >>=-of _ written ∙ >>=-of _ played ∙ >>=-of _ shown)

-- In a game in order (its pictures show its board, its pieces are accounted for, its clocks, flag
-- and selected piece fit the side to move, and it is not in watch mode), for a move between two
-- different squares of the board, `play` of the game gives a game wherever `tryMovePiece` answers
-- and `toChineseMove` gives a text: making the move, drawing it, writing it down and switching
-- the clocks always succeed.
pub play-Answers :
    (mv : ℕ) (c : ChineseChess) {res : MoveRes} {tried : Board} {text : List ℕ}
    → IsInOrder c
    → IsProper mv
    → try_move_piece mv c.board ≡ some (res, tried)
    → to_chinese_move mv c.board ≡ some text
    → (c' : ChineseChess) × (play mv c ≡ some c')
unfolding play Moves.play Displayer.unshow_prompt Displayer.un_selecte_piece
play-Answers mv c {res} {tried} {text} o proper t written = by_res res t
  where
    heard : MoveRes → ChineseChess
    heard r = play_sound_for_move_res r (record c { board = tried })

    on_game :
        (r : MoveRes) (g : ChineseChess)
        → g.board ≡ c.board
        → g.displayer ≡ c.displayer
        → g.watch_mode ≡ c.watch_mode
        → try_move_piece mv c.board ≡ some (r, tried)
        → accepts r ≡ true
        → (c' : ChineseChess) × (play_accepted mv r g ≡ some c')
    on_game r g same_board same_d same_mode e ok =
        let (made, m, made_eq, stands) = try_move_piece-made mv c.board e ok in
        let moved = make_move-Made mv c.board made_eq in
        let (d, drawn, _) =
          make_move-Shows mv c.board.cur_side
            (Displayer.unshow_prompt (Displayer.un_selecte_piece c.displayer)) c.board.position
            o.shows proper.start.1 proper.end.1 proper.end.0 proper.apart stands moved.relocated in
        play_accepted-Answers mv r g {d = d} (same_mode ∙ o.live)
          (ap (to_chinese_move mv) same_board ∙ written)
          (ap (Moves.play mv) same_board ∙ >>=-of _ made_eq)
          (ap
              (λ (x : Board × UiDisplayer).
                Displayer.make_move (start_of_move mv) (end_of_move mv) x.0.cur_side
                  (Displayer.unshow_prompt (Displayer.un_selecte_piece x.1)))
              (ap₂ (λ (b : Board) (y : UiDisplayer). (b, y)) same_board same_d)
            ∙ drawn)

    accepted :
        (r : MoveRes)
        → try_move_piece mv c.board ≡ some (r, tried)
        → accepts r ≡ true
        → (c' : ChineseChess) × (play_accepted mv r (heard r) ≡ some c')
    accepted r e ok =
        let s = play_sound-same r (record c { board = tried }) in
        on_game r (heard r)
          (ap (λ x. x.board) s ∙ try_move_piece_pure mv c.board o.accounted.placed e)
          (ap (λ x. x.displayer) s) (ap (λ x. x.watch_mode) s) e ok

    by_res :
        (r : MoveRes)
        → try_move_piece mv c.board ≡ some (r, tried)
        → (c' : ChineseChess) × (play mv c ≡ some c')
    by_res illegal e = (_, >>=-of _ e)
    by_res killed e = (_, >>=-of _ e)
    by_res regular e = let (_, f) = accepted regular e refl in (_, >>=-of _ e ∙ f)
    by_res capatured e = let (_, f) = accepted capatured e refl in (_, >>=-of _ e ∙ f)
    by_res general e = let (_, f) = accepted general e refl in (_, >>=-of _ e ∙ f)
    by_res lore e = let (_, f) = accepted lore e refl in (_, >>=-of _ e ∙ f)
