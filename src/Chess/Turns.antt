-- ===== src/Chess/Turns.antt =====
-- assets/js/chinese_chess.js: what `play` does to a game, and which clock runs.
pub mod Played
use cchess.Base.{
  ℕ, ◌≡◌, refl, sym, ap, ap₂, ◌∙◌, subst, Bool, true, false, List, [], ◌∷◌, ◌++◌, Option, none,
  some, if◌then◌else◌, ◌>>=◌, >>=-eq-some, if-eq-some, inl, inr, ◌⊎◌, Bool-cases,
}
use cchess.Constants.{Side, MoveRes, regular, capatured, general, illegal, killed, lore}
use cchess.Geometry.{start_of_move, end_of_move}
use cchess.Board.State.{Board, opponent, same_side}
use cchess.Board.Moves
use cchess.Board.Moves.{change_side}
use cchess.Board.Try.{try_move_piece}
use cchess.Board.Placed.{IsPlaced}
use cchess.Board.Probe.Turn.{try_move_piece_pure}
use cchess.Notation.{to_chinese_move}
use cchess.Fen.{to_fen}
use cchess.Timer
use cchess.Timer.{PlayTimer}
use cchess.Timer.Runs.{IsStopped, IsRunning, start-IsRunning, pause-IsStopped}
use cchess.Displayer
use cchess.Displayer.{UiDisplayer}
use cchess.Chess.{
  ChineseChess, Effect, sounds, message_box, to_move_step, animates, Situation, turn_to_play,
  play_sound_for_move_res, pause_cur, start_timer, switch_play_timer, add_history_step, show_move,
  play_accepted, play, back_step, did, sound_for_move_res,
}

-- The moves that were sent to the server, the newest first.
abbrev pub moves_sent : List Effect → List (Bool × ℕ × List ℕ)
moves_sent [] = []
moves_sent (to_move_step over mv fen ∷ rest) = (over, mv, fen) ∷ moves_sent rest
moves_sent (sounds sound ∷ rest) = moves_sent rest
moves_sent (message_box ∷ rest) = moves_sent rest
moves_sent (animates start end ∷ rest) = moves_sent rest

-- Two games that differ in their pictures and effects only, with the same moves sent.
pub record SameGame (c c' : ChineseChess) : Type 0 where
  same : c' ≡ record c { displayer = c'.displayer; effects = c'.effects }
  pub same_sent : moves_sent c'.effects ≡ moves_sent c.effects

if-SameGame :
    (t : Bool) {c c1 c2 : ChineseChess}
    → SameGame c c1
    → SameGame c c2
    → SameGame c (if t then c1 else c2)
if-SameGame true s1 s2 = s1
if-SameGame false s1 s2 = s2

pub play_sound-SameGame :
    (res : MoveRes) (c : ChineseChess) → SameGame c (play_sound_for_move_res res c)
unfolding play_sound_for_move_res
play_sound-SameGame res c =
    if-SameGame c.switch_sound_effect (record { same = refl; same_sent = refl })
      (record { same = refl; same_sent = refl })

pub show_move-SameGame :
    (mv : ℕ) (side : Side) (c : ChineseChess) {c' : ChineseChess}
    → show_move mv side c ≡ some c'
    → SameGame c c'
unfolding show_move
show_move-SameGame mv side c {c'} e = elim (if-eq-some c.watch_mode _ _ e) [
  | inl (_, f) ↦ subst (SameGame c) (by_some f) (record { same = refl; same_sent = refl })
  | inr (_, f) ↦
      let (d, e1, f1) = >>=-eq-some (Displayer.make_move _ _ side _) _ f in
      subst (SameGame c) (by_some f1) (
        if-SameGame c.switch_animation (record { same = refl; same_sent = refl })
          (record { same = refl; same_sent = refl }))
]
  where
    by_some : {x y : ChineseChess} → some x ≡ some y → x ≡ y
    by_some h = cc

-- What `play` makes of the pictures: nothing in watch mode.
abbrev pub pictured_move : ℕ → Side → Bool → UiDisplayer → Option UiDisplayer
pictured_move mv side watch d =
    if watch
    then some d
    else Displayer.make_move (start_of_move mv) (end_of_move mv) side
        (Displayer.unshow_prompt (Displayer.un_selecte_piece d))

pub show_move-pictured_move :
    (mv : ℕ) (side : Side) (c : ChineseChess) {c' : ChineseChess}
    → show_move mv side c ≡ some c'
    → pictured_move mv side c.watch_mode c.displayer ≡ some c'.displayer
unfolding show_move
show_move-pictured_move mv side c {c'} e = elim (if-eq-some c.watch_mode _ _ e) [
  | inl (t, f) ↦ rw t (ap some (ap (displayer_in c.displayer) f))
  | inr (t, f) ↦
      let (d, e1, f1) = >>=-eq-some (Displayer.make_move _ _ side _) _ f in
      rw t (e1 ∙ ap some (sym (either c.switch_animation _ _ refl refl) ∙ ap (displayer_in d) f1))
]
  where
    displayer_in : UiDisplayer → Option ChineseChess → UiDisplayer
    displayer_in d none = d
    displayer_in d (some x) = x.displayer

    either :
        (t : Bool) (x y : ChineseChess) {d : UiDisplayer}
        → x.displayer ≡ d
        → y.displayer ≡ d
        → (if t then x else y).displayer ≡ d
    either true x y hx hy = hx
    either false x y hx hy = hy

-- One clock runs, the own one where the first argument tells so, and the other is stopped.
abbrev pub Ticks : Bool → PlayTimer → PlayTimer → Type 0
Ticks true own opp = IsRunning own × IsStopped opp
Ticks false own opp = IsStopped own × IsRunning opp

-- The same, but the clock may have stopped when its time was over.
abbrev pub Clocks : Bool → PlayTimer → PlayTimer → Type 0
Clocks true own opp = (IsRunning own ⊎ IsStopped own) × IsStopped opp
Clocks false own opp = IsStopped own × (IsRunning opp ⊎ IsStopped opp)

-- What `switchPlayTimer` leaves of a game, and what it does to the clocks.
pub record Switched (c c' : ChineseChess) (turn : Bool) : Type 0 where
  pub same : c' ≡ record c {
    self_play_timer = c'.self_play_timer;
    opp_play_timer = c'.opp_play_timer;
    self_counts = turn;
    play_side_flag = c.board.cur_side;
  }
  pub ticks :
      Clocks c.self_counts c.self_play_timer c.opp_play_timer
      → Ticks turn c'.self_play_timer c'.opp_play_timer

pub switch_play_timer-Switched :
    (c : ChineseChess) → Switched c (switch_play_timer c) (turn_to_play c)
unfolding switch_play_timer pause_cur start_timer
switch_play_timer-Switched c = record {
  same = by_same c.self_counts (turn_to_play c);
  ticks = λ clocks. by_clocks c.self_counts (turn_to_play c) clocks;
}
  where
    paused : Bool → ChineseChess
    paused own =
        if own
        then record c { self_play_timer = Timer.pause c.self_play_timer }
        else record c { opp_play_timer = Timer.pause c.opp_play_timer }

    switched : Bool → Bool → ChineseChess
    switched own turn = record (start_timer turn (paused own)) { play_side_flag = c.board.cur_side }

    by_same :
        (own turn : Bool)
        → switched own turn ≡ record c {
          self_play_timer = (switched own turn).self_play_timer;
          opp_play_timer = (switched own turn).opp_play_timer;
          self_counts = turn;
          play_side_flag = c.board.cur_side;
        }
    by_same true true = refl
    by_same true false = refl
    by_same false true = refl
    by_same false false = refl

    by_clocks :
        (own turn : Bool)
        → Clocks own c.self_play_timer c.opp_play_timer
        → Ticks turn (switched own turn).self_play_timer (switched own turn).opp_play_timer
    by_clocks true true (t, s) = (start-IsRunning _ (pause-IsStopped c.self_play_timer t), s)
    by_clocks true false (t, s) = (pause-IsStopped c.self_play_timer t, start-IsRunning _ s)
    by_clocks false true (s, t) = (start-IsRunning _ s, pause-IsStopped c.opp_play_timer t)
    by_clocks false false (s, t) = (s, start-IsRunning _ (pause-IsStopped c.opp_play_timer t))

-- What `play` makes of a game with a move that it accepts.
pub record Accepted (mv : ℕ) (res : MoveRes) (c c' : ChineseChess) : Type 0 where
  pub board_played : Moves.play mv c.board ≡ some c'.board
  pub recorded :
      c'.history_step_records
      ≡ c.history_step_records ++ record { fen = to_fen c'.board; mv = mv } ∷ []
  pub text : List ℕ
  pub written : to_chinese_move mv c.board ≡ some text
  pub listed : c'.step_records ≡ c.step_records ++ (text, c.board.cur_side) ∷ []
  pub unselected : c'.selected_pos ≡ 0
  pub same_side_played : c'.side ≡ c.side
  pub same_mode : c'.watch_mode ≡ c.watch_mode
  pub sent : moves_sent c'.effects ≡ (
      if turn_to_play c
      then (elim res [ lore ↦ true | _ ↦ false ], mv, to_fen c'.board) ∷ moves_sent c.effects
      else moves_sent c.effects)
  pub flagged : c'.play_side_flag ≡ c'.board.cur_side
  pub counted : c'.self_counts ≡ turn_to_play c'
  pub ticks : Ticks (turn_to_play c') c'.self_play_timer c'.opp_play_timer
  pub pictured : pictured_move mv c.board.cur_side c.watch_mode c.displayer ≡ some c'.displayer
