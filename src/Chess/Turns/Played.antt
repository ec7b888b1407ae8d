-- ===== src/Chess/Turns/Played.antt =====
-- assets/js/chinese_chess.js: `play`, move by move.
use cchess.Base.{
  ℕ, ◌≡◌, refl, sym, ap, ap₂, ◌∙◌, subst, Bool, true, false, List, [], ◌∷◌, ◌++◌, Option, some,
  if◌then◌else◌, >>=-eq-some,
}
use cchess.Constants.{MoveRes, regular, capatured, general, illegal, killed, lore}
use cchess.Board.State.{Board, same_side}
use cchess.Board.Moves
use cchess.Board.Moves.{change_side}
use cchess.Board.Try.{try_move_piece}
use cchess.Board.Placed.{IsPlaced}
use cchess.Board.Probe.Turn.{try_move_piece_pure}
use cchess.Notation.{to_chinese_move}
use cchess.Fen.{to_fen}
use cchess.Displayer.{UiDisplayer}
use cchess.Chess.{
  ChineseChess, Effect, sounds, to_move_step, Situation, turn_to_play, play_sound_for_move_res,
  switch_play_timer, add_history_step, show_move, play_accepted, play, did, sound_for_move_res,
}
use cchess.Chess.Turns.{
  moves_sent, SameGame, play_sound-SameGame, show_move-SameGame, Ticks, Clocks,
  switch_play_timer-Switched, Accepted, pictured_move, show_move-pictured_move,
}

-- A move sent or not: the moves sent then.
abbrev sent_if : Bool → Bool × ℕ × List ℕ → List (Bool × ℕ × List ℕ) → List (Bool × ℕ × List ℕ)
sent_if own step before = if own then step ∷ before else before

switched-Accepted :
    (mv : ℕ) (res : MoveRes) (c : ChineseChess) (board : Board) (text : List ℕ) (d : UiDisplayer)
    (fx : List Effect)
    → pictured_move mv c.board.cur_side c.watch_mode c.displayer ≡ some d
    → Clocks c.self_counts c.self_play_timer c.opp_play_timer
    → Moves.play mv c.board ≡ some board
    → to_chinese_move mv c.board ≡ some text
    → moves_sent fx ≡ (
        if turn_to_play c
        then (elim res [ lore ↦ true | _ ↦ false ], mv, to_fen board) ∷ moves_sent c.effects
        else moves_sent c.effects)
    → Accepted mv res c (
        add_history_step (to_fen board) mv (
          switch_play_timer (record c {
            board = board;
            step_records = c.step_records ++ (text, c.board.cur_side) ∷ [];
            displayer = d;
            selected_pos = 0;
            effects = fx;
          })))
unfolding add_history_step turn_to_play
switched-Accepted mv res c board text d fx pictured clocks played written sent =
    let g : ChineseChess = record c {
      board = board;
      step_records = c.step_records ++ (text, c.board.cur_side) ∷ [];
      displayer = d;
      selected_pos = 0;
      effects = fx;
    } in
    let s = switch_play_timer-Switched g in
    let same_board : (switch_play_timer g).board ≡ board = ap (λ x. x.board) s.same in
    let same_turn : turn_to_play (switch_play_timer g) ≡ turn_to_play g =
      ap₂ same_side (ap (λ x. x.side) s.same) (ap (λ x. x.board.cur_side) s.same) in
    record {
      board_played = played ∙ ap some (sym same_board);
      recorded =
          ap₂ (λ (h : List Situation) (b : Board). h ++ record { fen = to_fen b; mv = mv } ∷ [])
            (ap (λ x. x.history_step_records) s.same) (sym same_board);
      text = text;
      written = written;
      listed = ap (λ x. x.step_records) s.same;
      unselected = ap (λ x. x.selected_pos) s.same;
      same_side_played = ap (λ x. x.side) s.same;
      same_mode = ap (λ x. x.watch_mode) s.same;
      sent =
          ap (λ x. moves_sent x.effects) s.same
          ∙ sent
          ∙ ap
              (λ (b : Board).
                sent_if (turn_to_play c) (elim res [ lore ↦ true | _ ↦ false ], mv, to_fen b)
                  (moves_sent c.effects))
              (sym same_board);
      flagged = ap (λ x. x.play_side_flag) s.same ∙ ap (λ (b : Board). b.cur_side) (sym same_board);
      counted = ap (λ x. x.self_counts) s.same ∙ sym same_turn;
      ticks =
          subst
            (λ t.
              Ticks t (switch_play_timer g).self_play_timer (switch_play_timer g).opp_play_timer)
            (sym same_turn) (s.ticks clocks);
      pictured = pictured ∙ ap some (sym (ap (λ x. x.displayer) s.same));
    }

play_accepted-Accepted :
    (mv : ℕ) (res : MoveRes) (c : ChineseChess) {c' : ChineseChess}
    → Clocks c.self_counts c.self_play_timer c.opp_play_timer
    → play_accepted mv res c ≡ some c'
    → Accepted mv res c c'
unfolding play_accepted turn_to_play
play_accepted-Accepted mv res c {c'} clocks e =
    let (text, written, f) = >>=-eq-some (to_chinese_move mv c.board) _ e in
    let (board, played, g) = >>=-eq-some (Moves.play mv c.board) _ f in
    let (drawn, shown, h) = >>=-eq-some (show_move mv c.board.cur_side _) _ g in
    let s = show_move-SameGame mv c.board.cur_side _ shown in
    finish text board (show_move-pictured_move mv c.board.cur_side _ shown) written played s h
  where
    over : Bool
    over = elim res [ lore ↦ true | _ ↦ false ]

    ended : List ℕ → Bool → ChineseChess → ChineseChess
    ended fen own drawn =
        if own
        then did (to_move_step over mv fen) (record drawn { selected_pos = 0 })
        else record drawn { selected_pos = 0 }

    played_on : Board → List ℕ → ChineseChess
    played_on board text = record c {
      board = board;
      step_records = c.step_records ++ (text, c.board.cur_side) ∷ [];
    }

    by_turn :
        (text : List ℕ) (board : Board) (d : UiDisplayer) (fx : List Effect)
        → pictured_move mv c.board.cur_side c.watch_mode c.displayer ≡ some d
        → to_chinese_move mv c.board ≡ some text
        → Moves.play mv c.board ≡ some board
        → moves_sent fx ≡ moves_sent c.effects
        → (own : Bool) → turn_to_play c ≡ own
        → Accepted mv res c (
            add_history_step (to_fen board) mv (
              switch_play_timer (
                ended
                  (to_fen board)
                  own
                  (record (played_on board text) { displayer = d; effects = fx }))))
    by_turn text board d fx pictured written played quiet true turn =
        switched-Accepted mv res c board text d (to_move_step over mv (to_fen board) ∷ fx) pictured
          clocks played written (rw (quiet, turn) refl)
    by_turn text board d fx pictured written played quiet false turn =
        switched-Accepted mv res c board text d fx pictured clocks played written
          (rw (quiet, turn) refl)

    finish :
        (text : List ℕ) (board : Board) {drawn : ChineseChess}
        → pictured_move mv c.board.cur_side c.watch_mode c.displayer ≡ some drawn.displayer
        → to_chinese_move mv c.board ≡ some text
        → Moves.play mv c.board ≡ some board
        → SameGame (played_on board text) drawn
        → some (
            add_history_step
              (to_fen board)
              mv
              (switch_play_timer (ended (to_fen board) (turn_to_play c) drawn)))
          ≡ some c'
        → Accepted mv res c c'
    finish text board {drawn} pictured written played s h =
        let same : add_history_step (to_fen board) mv (
              switch_play_timer (
                ended (to_fen board) (turn_to_play c) (record (played_on board text) {
                  displayer = drawn.displayer;
                  effects = drawn.effects;
                })))
            ≡ c' =
          ap
            (λ x.
              add_history_step (to_fen board) mv
                (switch_play_timer (ended (to_fen board) (turn_to_play c) x)))
            (sym s.same)
          ∙ by_some h in
        subst (Accepted mv res c) same (
          by_turn text board drawn.displayer drawn.effects pictured written played s.same_sent
            (turn_to_play c) refl)
      where
        by_some : {x y : ChineseChess} → some x ≡ some y → x ≡ y
        by_some e = cc

SameGame-Accepted :
    (mv : ℕ) (res : MoveRes) {c h c' : ChineseChess}
    → SameGame c h
    → h.displayer ≡ c.displayer
    → Accepted mv res h c'
    → Accepted mv res c c'
unfolding turn_to_play
SameGame-Accepted mv res {c} {h} {c'} s pictures accepted =
    let a = subst (λ x. Accepted mv res x c') s.same accepted in
    record {
      board_played = a.board_played;
      recorded = a.recorded;
      text = a.text;
      written = a.written;
      listed = a.listed;
      unselected = a.unselected;
      same_side_played = a.same_side_played;
      same_mode = a.same_mode;
      sent =
          a.sent
          ∙ ap
              (sent_if (turn_to_play c) (elim res [ lore ↦ true | _ ↦ false ], mv, to_fen c'.board))
              s.same_sent;
      flagged = a.flagged;
      counted = a.counted;
      ticks = a.ticks;
      pictured = ap (pictured_move mv c.board.cur_side c.watch_mode) (sym pictures) ∙ a.pictured;
    }

pub play_sound-same :
    (res : MoveRes) (c : ChineseChess)
    → play_sound_for_move_res res c ≡ record c { effects = (play_sound_for_move_res res c).effects }
unfolding play_sound_for_move_res
play_sound-same res c =
    by_switch c.switch_sound_effect (did (sounds (sound_for_move_res (turn_to_play c) res)) c) refl
  where
    by_switch :
        (on : Bool) (d : ChineseChess)
        → d ≡ record c { effects = d.effects }
        → (if on then d else c) ≡ record c { effects = (if on then d else c).effects }
    by_switch true d h = h
    by_switch false d h = refl

-- What an answer of `tryMovePiece` makes of a game: but effects, nothing, or a move.
abbrev pub Played : ℕ → MoveRes → ChineseChess → ChineseChess → Type 0
Played mv illegal c c' = c' ≡ record c { effects = c'.effects }
Played mv killed c c' = c' ≡ record c { effects = c'.effects }
Played mv res c c' = Accepted mv res c c'

-- From a board on which every piece that a square holds is shown and knows that square, with the
-- clock that is not current stopped and the current one running or stopped, where `tryMovePiece`
-- answers and `play` of the game gives a game: on an illegal or killed answer the game differs by
-- its effects at most; on every other answer its board is the board's own `play` of the move, the
-- text of the new board and the move end the history of situations, the written move ends the
-- list of moves, no piece is selected, the side is kept, the move is sent to the server just when
-- it was the own turn, and over just when the answer is MOVE_RES_LORE, the flag shows the new
-- side to move, and the clock of that side runs and the other is stopped.
pub play-Accepted :
    (mv : ℕ) (c : ChineseChess) {res : MoveRes} {tried : Board} {c' : ChineseChess}
    → IsPlaced c.board.position
    → Clocks c.self_counts c.self_play_timer c.opp_play_timer
    → try_move_piece mv c.board ≡ some (res, tried)
    → play mv c ≡ some c'
    → Played mv res c c'
unfolding play
play-Accepted mv c {res} {tried} {c'} placed clocks t e =
    let ((res', tried'), t', f) = >>=-eq-some (try_move_piece mv c.board) _ e in
    let same_res : res' ≡ res = cc in
    let same_board : tried' ≡ c.board = try_move_piece_pure mv c.board placed t' in
    let g : resolved res' tried' ≡ some c' = named res' tried' f in
    subst answer same_res (by_res res' (subst (λ b. resolved res' b ≡ some c') same_board g))
  where
    heard : MoveRes → Board → ChineseChess
    heard r b = play_sound_for_move_res r (record c { board = b })

    resolved : MoveRes → Board → Option ChineseChess
    resolved illegal b = some (heard illegal b)
    resolved killed b = some (heard killed b)
    resolved regular b = play_accepted mv regular (heard regular b)
    resolved capatured b = play_accepted mv capatured (heard capatured b)
    resolved general b = play_accepted mv general (heard general b)
    resolved lore b = play_accepted mv lore (heard lore b)

    answer : MoveRes → Type 0
    answer r = Played mv r c c'

    named :
        (r : MoveRes) (b : Board)
        → elim r as (λ x. Option ChineseChess) [
          | illegal ↦ some (heard r b)
          | killed ↦ some (heard r b)
          | x ↦ play_accepted mv r (heard r b)
        ]
          ≡ some c'
        → resolved r b ≡ some c'
    named illegal b h = h
    named killed b h = h
    named regular b h = h
    named capatured b h = h
    named general b h = h
    named lore b h = h

    only_heard :
        (r : MoveRes) → some (heard r c.board) ≡ some c' → c' ≡ record c { effects = c'.effects }
    only_heard r h =
        let same : heard r c.board ≡ c' = cc in
        subst (λ x. x ≡ record c { effects = x.effects }) same (play_sound-same r c)

    accepted : (r : MoveRes) → play_accepted mv r (heard r c.board) ≡ some c' → Accepted mv r c c'
    accepted r h =
        let s = play_sound-SameGame r c in
        SameGame-Accepted mv r s (ap (λ x. x.displayer) (play_sound-same r c)) (
          play_accepted-Accepted mv r (heard r c.board)
            (subst (λ x. Clocks x.self_counts x.self_play_timer x.opp_play_timer) (sym s.same)
              clocks)
            h)

    by_res : (r : MoveRes) → resolved r c.board ≡ some c' → answer r
    by_res illegal h = only_heard illegal h
    by_res killed h = only_heard killed h
    by_res regular h = accepted regular h
    by_res capatured h = accepted capatured h
    by_res general h = accepted general h
    by_res lore h = accepted lore h
