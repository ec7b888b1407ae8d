-- ===== src/Chess/Session/Undone.antt =====
-- assets/js/chinese_chess.js: `backStep` after `play`.
use cchess.Base.{
  ℕ, ◌-◌, ◌≡◌, refl, ap, ◌∙◌, subst, arith, Bool, true, false, List, [], ◌∷◌, ◌++◌, some,
  if◌then◌else◌, ◌==◌, length, take, length-append, take-append,
}
use cchess.Constants.{Side, MoveRes, regular, capatured, general, illegal, killed, lore}
use cchess.Geometry.{start_of_move, end_of_move}
use cchess.Board.State.{Board, same_side}
use cchess.Board.Moves
use cchess.Board.Moves.{get_last_move}
use cchess.Board.Try.{try_move_piece}
use cchess.Board.Probe.Turn.{back_step-play}
use cchess.Displayer
use cchess.Displayer.{UiDisplayer}
use cchess.Displayer.Pictures.{undo_move-Moved}
use cchess.Chess.{
  ChineseChess, Effect, Situation, turn_to_play, play, back_step, taken_back, but_last,
  switch_play_timer, did, animates, mark_last_move,
}
use cchess.Chess.Turns.{Clocks, Ticks, Accepted, switch_play_timer-Switched}
use cchess.Chess.Turns.Played.{Played, play-Accepted}
use cchess.Chess.Session.{IsProper, IsInOrder, play-IsInOrder}

but_last-append : {A : Type 0} → (xs : List A) (x : A) → but_last (xs ++ x ∷ []) ≡ xs
but_last-append xs x =
    let long : length (xs ++ x ∷ []) - 1 ≡ length xs = omega (arith, length-append xs (x ∷ [])) in
    ap (λ n. take n (xs ++ x ∷ [])) long ∙ take-append xs (x ∷ [])

-- A game with the board, the situations and the moves of another, no piece selected, and the clock
-- of the side to move running.
pub record Restored (c c' : ChineseChess) : Type 0 where
  pub same_board : c'.board ≡ c.board
  pub situations : c'.history_step_records ≡ c.history_step_records
  pub listed : c'.step_records ≡ c.step_records
  pub unselected : c'.selected_pos ≡ 0
  pub own_side : c'.side ≡ c.side
  pub flagged : c'.play_side_flag ≡ c.board.cur_side
  pub counted : c'.self_counts ≡ turn_to_play c
  pub ticks : Ticks (turn_to_play c) c'.self_play_timer c'.opp_play_timer

-- The end of `backStep`.
taken_back-Restored :
    (mv : ℕ) (undone : UiDisplayer) (c c' : ChineseChess) (s : Situation) (text : List ℕ × Side)
    → c'.history_step_records ≡ c.history_step_records ++ s ∷ []
    → c'.step_records ≡ c.step_records ++ text ∷ []
    → c'.side ≡ c.side
    → Clocks c'.self_counts c'.self_play_timer c'.opp_play_timer
    → Restored c (taken_back mv c.board undone c')
unfolding taken_back turn_to_play
taken_back-Restored mv undone c c' s text recorded listed own clocks = by_switch c'.switch_animation
  where
    d : UiDisplayer
    d =
        if get_last_move c.board == 0
        then undone
        else mark_last_move (record c' { selected_pos = 0; board = c.board })
            (Displayer.remove_last_track undone)

    drawn : ChineseChess
    drawn = record c' { selected_pos = 0; board = c.board; displayer = d }

    finished : ChineseChess → ChineseChess
    finished x = record x {
      history_step_records = but_last x.history_step_records;
      step_records = elim x.history_step_records [
        | [] ↦ x.step_records
        | _ ↦ but_last x.step_records
      ];
    }

    still : List Effect → ChineseChess
    still fx = record drawn { effects = fx }

    shorter :
        (before : List Situation)
        → (elim (before ++ s ∷ []) as (λ x. List (List ℕ × Side)) [
          | [] ↦ c'.step_records
          | _ ↦ but_last c'.step_records
        ])
          ≡ c.step_records
    shorter [] = ap but_last listed ∙ but_last-append c.step_records text
    shorter (x ∷ before) = ap but_last listed ∙ but_last-append c.step_records text

    restored : (fx : List Effect) → Restored c (finished (switch_play_timer (still fx)))
    restored fx =
        let t = switch_play_timer-Switched (still fx) in
        let same_turn : turn_to_play (still fx) ≡ turn_to_play c =
          ap (λ x. same_side x c.board.cur_side) own in
        let kept = ap (λ (x : ChineseChess). x.history_step_records) t.same ∙ recorded in
        record {
          same_board = ap (λ x. x.board) t.same;
          situations = ap but_last kept ∙ but_last-append c.history_step_records s;
          listed =
              ap (λ (x : ChineseChess). (finished x).step_records) t.same
              ∙ ap
                  (λ (h : List Situation). elim h as (λ x. List (List ℕ × Side)) [
                    | [] ↦ c'.step_records
                    | _ ↦ but_last c'.step_records
                  ])
                  recorded
              ∙ shorter c.history_step_records;
          unselected = ap (λ x. x.selected_pos) t.same;
          own_side = ap (λ x. x.side) t.same ∙ own;
          flagged = ap (λ x. x.play_side_flag) t.same;
          counted = ap (λ x. x.self_counts) t.same ∙ same_turn;
          ticks =
              subst
                (λ on.
                  Ticks on (switch_play_timer (still fx)).self_play_timer
                    (switch_play_timer (still fx)).opp_play_timer)
                same_turn (t.ticks clocks);
        }

    by_switch :
        (on : Bool)
        → Restored c (
            finished (
              switch_play_timer
                (if on then did (animates (start_of_move mv) (end_of_move mv)) drawn else drawn)))
    by_switch true = restored (animates (start_of_move mv) (end_of_move mv) ∷ c'.effects)
    by_switch false = restored c'.effects

-- The answers of `tryMovePiece` on which `play` moves the piece.
abbrev pub accepts : MoveRes → Bool
accepts illegal = false
accepts killed = false
accepts _ = true

-- From a game in order (its pictures show its board, its pieces are accounted for, its clocks,
-- flag and selected piece fit the side to move, and it is not in watch mode), where
-- `tryMovePiece` accepts a move between two different squares of the board and `play` of the game
-- gives a game, `backStep` of that game gives back the move and a game with the first one's
-- board, situations and list of moves, its side, no selected piece, and the clock and the flag of
-- the side that moved.
pub back_step-Restored :
    (mv : ℕ) (c : ChineseChess) {res : MoveRes} {tried : Board} {c' : ChineseChess}
    → IsInOrder c
    → IsProper mv
    → try_move_piece mv c.board ≡ some (res, tried)
    → accepts res ≡ true
    → play mv c ≡ some c'
    → (c2 : ChineseChess) × (back_step c' ≡ some (mv, c2)) × Restored c c2
unfolding back_step Displayer.un_selecte_piece Displayer.unshow_prompt
back_step-Restored mv c {res} {tried} {c'} o proper t accepted e =
    let a = by_res res accepted (play-Accepted mv c o.accounted.placed o.clocks t e) in
    let o' = play-IsInOrder mv c o proper e in
    let (_, from, _) = o'.shows (start_of_move mv) proper.start.0 proper.start.1 in
    let (_, to, _) = o'.shows (end_of_move mv) proper.end.0 proper.end.1 in
    let cleared : UiDisplayer = Displayer.un_selecte_piece (Displayer.unshow_prompt c'.displayer) in
    let (undone, drawn) =
      undo_move-Moved (end_of_move mv) (start_of_move mv) cleared from to proper.apart in
    let back : Moves.back_step c'.board ≡ some (mv, c.board) =
      back_step-play mv c.board o.accounted.placed a.board_played in
    (
      taken_back mv c.board undone c',
      rw (back, drawn) refl,
      taken_back-Restored mv undone c c' _ _ a.recorded a.listed a.same_side_played o'.clocks,
    )
  where
    by_res : (res : MoveRes) → accepts res ≡ true → Played mv res c c' → Accepted mv res c c'
    by_res illegal h p = cc
    by_res killed h p = cc
    by_res regular h p = p
    by_res capatured h p = p
    by_res general h p = p
    by_res lore h p = p
