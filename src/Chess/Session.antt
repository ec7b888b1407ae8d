-- ===== src/Chess/Session.antt =====
-- assets/js/chinese_chess.js: a game from its constructor on, in which the player clicks and the
-- opponent's moves come in.
pub mod Clicks
pub mod Lives
pub mod Undone
pub mod Replies
use cchess.Base.{
  ℕ, ◌<◌, ◌≡◌, ◌≢◌, refl, sym, ap, ◌∙◌, subst, Bool, true, false, List, Option, none, some, ◌⊎◌,
  inl, inr, Option-cases, Bool-cases, if◌then◌else◌, ◌>>=◌, >>=-eq-some, if-eq-some, ◌==◌, ==_iff,
}
use cchess.Constants.{Side, PieceType, MoveRes, regular, capatured, general, illegal, killed, lore}
use cchess.Geometry.{in_board, start_of_move, end_of_move, get_move}
use cchess.Board.State.{Board, Position, same_side}
use cchess.Board.Moves
use cchess.Board.Moves.{relocate, is_click_self_piece, add_history_step, change_side}
use cchess.Board.Undo.{make_move-Made}
use cchess.Board.Try.{try_move_piece}
use cchess.Board.Men.{man_at}
use cchess.Board.Game.{play-IsAccounted}
use cchess.Board.Value.Books.{IsAccounted}
use cchess.Timer.{PlayTimer}
use cchess.Displayer
use cchess.Displayer.{UiDisplayer}
use cchess.Displayer.Pictures.Boards.{Shows, make_move-Shows}
use cchess.Chess.{ChineseChess, turn_to_play, play, click_piece, select_or_not, show_prompt}
use cchess.Chess.Turns.{Ticks, Clocks, Accepted, pictured_move}
use cchess.Chess.Turns.Played.{Played, play-Accepted}

-- A square of the board.
abbrev pub IsOnBoard : ℕ → Type 0
IsOnBoard p = (p < 256) × (in_board p ≡ true)

-- A move between two different squares of the board.
pub record IsProper (mv : ℕ) : Type 0 where
  pub start : IsOnBoard (start_of_move mv)
  pub end : IsOnBoard (end_of_move mv)
  pub apart : start_of_move mv ≢ end_of_move mv

-- No piece is selected, or an own one on a square of the board, in the own turn.
abbrev pub IsSelectable : ChineseChess → Type 0
IsSelectable c =
    (c.selected_pos ≡ 0)
    ⊎ IsOnBoard c.selected_pos
      × (turn_to_play c ≡ true)
      × (is_click_self_piece c.selected_pos c.board ≡ true)

-- A game whose parts agree.
pub record IsInOrder (c : ChineseChess) : Type 0 where
  pub shows : Shows c.displayer c.board.position
  pub accounted : IsAccounted c.board.position
  pub clocks : Clocks c.self_counts c.self_play_timer c.opp_play_timer
  pub counted : c.self_counts ≡ turn_to_play c
  pub flagged : c.play_side_flag ≡ c.board.cur_side
  pub live : c.watch_mode ≡ false
  pub selectable : IsSelectable c

Ticks-Clocks : (turn : Bool) (own opp : PlayTimer) → Ticks turn own opp → Clocks turn own opp
Ticks-Clocks true own opp (r, s) = (inl r, s)
Ticks-Clocks false own opp (s, r) = (s, inl r)

-- An accepted move starts on a piece.
try_move_piece-stands :
    (mv : ℕ) (b : Board) {res : MoveRes} {tried : Board}
    → try_move_piece mv b ≡ some (res, tried)
    → (res ≡ illegal) ⊎ ((m : Side × PieceType) × (man_at b.position (start_of_move mv) ≡ some m))
unfolding try_move_piece
try_move_piece-stands mv b {res} t = elim (Option-cases (b.position.cells (start_of_move mv))) [
  | inl h ↦ let t' = rw (h, try_move_piece) at t in inl (let same : illegal ≡ res = cc in sym same)
  | inr (r, h) ↦ inr (((b.position.store r).side, (b.position.store r).kind), rw h refl)
]

pictured-Shows :
    (mv : ℕ) (d : UiDisplayer) (b : Board) {m : Side × PieceType} {d' : UiDisplayer} {b' : Board}
    → Shows d b.position
    → IsProper mv
    → man_at b.position (start_of_move mv) ≡ some m
    → Moves.play mv b ≡ some b'
    → pictured_move mv b.cur_side false d ≡ some d'
    → Shows d' b'.position
unfolding Displayer.unshow_prompt Displayer.un_selecte_piece Moves.play add_history_step change_side
pictured-Shows mv d b {d'} {b'} shows proper stands played pictured =
    let (made, e, f) = >>=-eq-some (Moves.make_move mv b) _ played in
    let m = make_move-Made mv b e in
    let (d1, drawn, shown) =
      make_move-Shows mv b.cur_side (Displayer.unshow_prompt (Displayer.un_selecte_piece d))
        b.position shows proper.start.1 proper.end.1 proper.end.0 proper.apart stands m.relocated in
    let same_d : d1 ≡ d' = cc in
    let same_b : change_side made ≡ b' = cc in
    let same_p : m.moved ≡ b'.position =
      sym (ap (λ z. z.position) m.after) ∙ ap (λ z. z.position) same_b in
    subst (λ x. Shows d' x) same_p (subst (λ x. Shows x m.moved) same_d shown)

Accepted-IsInOrder :
    (mv : ℕ) (res : MoveRes) (c c' : ChineseChess)
    → IsInOrder c
    → IsProper mv
    → ((m : Side × PieceType) × (man_at c.board.position (start_of_move mv) ≡ some m))
    → Accepted mv res c c'
    → IsInOrder c'
Accepted-IsInOrder mv res c c' o proper (m, stands) a = record {
  shows =
      pictured-Shows mv c.displayer c.board o.shows proper stands a.board_played
        (rw o.live at a.pictured);
  accounted = play-IsAccounted mv c.board o.accounted a.board_played;
  clocks =
      subst (λ t. Clocks t c'.self_play_timer c'.opp_play_timer) (sym a.counted)
        (Ticks-Clocks (turn_to_play c') c'.self_play_timer c'.opp_play_timer a.ticks);
  counted = a.counted;
  flagged = a.flagged;
  live = a.same_mode ∙ o.live;
  selectable = inl a.unselected;
}

-- `play` of a move between squares of the board keeps the game in order.
pub play-IsInOrder :
    (mv : ℕ) (c : ChineseChess) {c' : ChineseChess}
    → IsInOrder c
    → IsProper mv
    → play mv c ≡ some c'
    → IsInOrder c'
unfolding play turn_to_play
play-IsInOrder mv c {c'} o proper e =
    let ((res, tried), t, _) = >>=-eq-some (try_move_piece mv c.board) _ e in
    by_res res (play-Accepted mv c o.accounted.placed o.clocks t e)
      (try_move_piece-stands mv c.board t)
  where
    heard : c' ≡ record c { effects = c'.effects } → IsInOrder c'
    heard h =
        let quiet : IsInOrder (record c { effects = c'.effects }) = record {
          shows = o.shows;
          accounted = o.accounted;
          clocks = o.clocks;
          counted = o.counted;
          flagged = o.flagged;
          live = o.live;
          selectable = o.selectable;
        } in
        subst IsInOrder (sym h) quiet

    accepted :
        (res : MoveRes)
        → Accepted mv res c c'
        → (res ≡ illegal → ⊥)
        → (res ≡ illegal)
          ⊎ ((m : Side × PieceType) × (man_at c.board.position (start_of_move mv) ≡ some m))
        → IsInOrder c'
    accepted res a legal (inl bad) = absurd (legal bad)
    accepted res a legal (inr stands) = Accepted-IsInOrder mv res c c' o proper stands a

    by_res :
        (res : MoveRes)
        → Played mv res c c'
        → (res ≡ illegal)
          ⊎ ((m : Side × PieceType) × (man_at c.board.position (start_of_move mv) ≡ some m))
        → IsInOrder c'
    by_res illegal p s = heard p
    by_res killed p s = heard p
    by_res regular p s = accepted regular p (λ h. cc) s
    by_res capatured p s = accepted capatured p (λ h. cc) s
    by_res general p s = accepted general p (λ h. cc) s
    by_res lore p s = accepted lore p (λ h. cc) s
