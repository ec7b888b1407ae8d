-- ===== src/Settings/Switches.antt =====
-- assets/js/chinese_chess.js: the settings that a game keeps, through the operations that draw it again.
use cchess.Base.{
  ℕ, ◌%◌, ◌≡◌, refl, sym, ap, ◌∙◌, Bool, true, false, Option, none, some, inl, inr, if◌then◌else◌,
  ◌==◌, ==_iff, ◌>>=◌, >>=-eq-some, if-eq-some, get_elem?, List,
}
use cchess.Geometry.{start_of_move, end_of_move}
use cchess.Constants.{Side, black}
use cchess.Board.State.{opponent, new_board, same_side}
use cchess.Board.Try.{prompt}
use cchess.Displayer
use cchess.Displayer.{UiDisplayer, piece_styles}
use cchess.Chess.{ChineseChess, start_timer, show_prompt}
use cchess.Chess.Redraw
use cchess.Chess.Redraw.{draw_all, redraw, mark_selected, skip_to_situation_for_display}
use cchess.Chess.Start.{Config, Spent, create_chinese_chess}
use cchess.Fen.{init_from_fen}

-- The settings: sound, prompts, animation, and the styles of the board and the pieces.
abbrev pub Switches : Type 0
Switches = Bool × Bool × Bool × ℕ × ℕ

abbrev pub switches : ChineseChess → Switches
switches c = (
  c.switch_sound_effect, c.switch_prompt, c.switch_animation, c.board_style_idx, c.piece_style_idx,
)

abbrev pub config_switches : Config → Switches
config_switches c = (
  c.switch_sound_effect, c.switch_prompt, c.switch_animation, c.board_style_idx, c.piece_style_idx,
)

switches_in : Switches → Option ChineseChess → Switches
switches_in s none = s
switches_in s (some c) = switches c

show_prompt-switches :
    (square : ℕ) (side : Side) (c : ChineseChess) {c' : ChineseChess}
    → show_prompt square side c ≡ some c'
    → switches c' ≡ switches c
unfolding show_prompt switches_in
show_prompt-switches square side c e = elim (if-eq-some c.switch_prompt _ _ e) [
  | inl (_, f) ↦
      let (_, _, g) = >>=-eq-some (prompt square c.board) _ f in
      sym (ap (switches_in (switches c)) g)
  | inr (_, f) ↦ sym (ap (switches_in (switches c)) f)
]

mark_selected-switches :
    (side prompt_side : Side) (c : ChineseChess) {c' : ChineseChess}
    → mark_selected side prompt_side c ≡ some c'
    → switches c' ≡ switches c
unfolding mark_selected switches_in
mark_selected-switches side prompt_side c e = elim (if-eq-some (c.selected_pos == 0) _ _ e) [
  | inl (_, f) ↦ sym (ap (switches_in (switches c)) f)
  | inr (_, f) ↦ show_prompt-switches c.selected_pos prompt_side _ f
]

pub change_board_style-switches :
    (idx : ℕ) (c : ChineseChess)
    → switches (Redraw.change_board_style idx c)
      ≡ (c.switch_sound_effect, c.switch_prompt, c.switch_animation, idx, c.piece_style_idx)
unfolding Redraw.change_board_style
change_board_style-switches idx c = by_test (c.board_style_idx == idx) refl
  where
    by_test :
        (t : Bool)
        → (c.board_style_idx == idx) ≡ t
        → switches (
            if t then c else record c {
              board_style_idx = idx;
              displayer = Displayer.change_board_style idx c.displayer;
            })
          ≡ (c.switch_sound_effect, c.switch_prompt, c.switch_animation, idx, c.piece_style_idx)
    by_test true h = rw ((==_iff c.board_style_idx idx).0 h) refl
    by_test false h = refl

pub change_piece_style-switches :
    (idx : ℕ) (c : ChineseChess) {c' : ChineseChess}
    → Redraw.change_piece_style idx c ≡ some c'
    → switches c'
      ≡ (c.switch_sound_effect, c.switch_prompt, c.switch_animation, c.board_style_idx, idx)
unfolding Redraw.change_piece_style switches_in
change_piece_style-switches idx c e = elim (if-eq-some (c.piece_style_idx == idx) _ _ e) [
  | inl (h, f) ↦
      sym (ap (switches_in (switches c)) f) ∙ rw ((==_iff c.piece_style_idx idx).0 h) refl
  | inr (_, f) ↦
      let (style, _, g) = >>=-eq-some (get_elem? piece_styles idx) _ f in
      let (d, _, h) = >>=-eq-some (redraw 256 c.board _) _ g in
      mark_selected-switches c.board.cur_side c.board.cur_side _ h
]

pub skipped-switches :
    (idx r_offset : ℕ) (watch : Bool) (c : ChineseChess) {c' : ChineseChess}
    → skip_to_situation_for_display idx r_offset watch c ≡ some c'
    → switches c' ≡ switches c
unfolding skip_to_situation_for_display switches_in
skipped-switches idx r_offset watch c {c'} e = elim (if-eq-some c.watch_mode _ _ e) [
  | inl (_, f) ↦ skipped f
  | inr (_, f) ↦ elim (if-eq-some watch _ _ f) [
    | inl (_, g) ↦ skipped g
    | inr (_, g) ↦ sym (ap (switches_in (switches c)) g)
  ]
]
  where
    turned_to : Option ChineseChess
    turned_to =
        let play_again : ChineseChess = record c {
          displayer = Displayer.set_play_mode c.displayer;
          watch_mode = false;
        } in
        let watched : Option ChineseChess =
          some (record c { displayer = Displayer.set_watch_mode c.displayer; watch_mode = true }) in
        let played = mark_selected c.side black play_again in if watch then watched else played

    turned_to-switches :
        {turned : ChineseChess} → turned_to ≡ some turned → switches turned ≡ switches c
    turned_to-switches f = elim (if-eq-some watch _ _ f) [
      | inl (_, g) ↦ sym (ap (switches_in (switches c)) g)
      | inr (_, g) ↦ mark_selected-switches c.side black _ g
    ]

    skipped :
        (get_elem? c.history_step_records idx >>= λ step. turned_to >>= λ turned.
        draw_all step.fen 0 0 turned.displayer >>= λ d.
        let side : Side = if r_offset % 2 == 0 then opponent c.side else c.side in
        some (record turned {
          displayer = Displayer.add_last_track (start_of_move step.mv) (end_of_move step.mv) side d;
        }))
          ≡ some c'
        → switches c' ≡ switches c
    skipped f =
        let (step, _, g) = >>=-eq-some (get_elem? c.history_step_records idx) _ f in
        let (turned, t, h) = >>=-eq-some turned_to _ g in
        let (d, _, k) = >>=-eq-some (draw_all step.fen 0 0 turned.displayer) _ h in
        sym (ap (switches_in (switches c)) k) ∙ turned_to-switches t

start_timer-switches : (t : Bool) (c : ChineseChess) → switches (start_timer t c) ≡ switches c
unfolding start_timer
start_timer-switches true c = refl
start_timer-switches false c = refl

pub create_chinese_chess-switches :
    (config : Config) (quickly : Bool) (steps : List (List ℕ × Side)) (fen : Option (List ℕ))
    (spent : Option Spent) {c : ChineseChess}
    → create_chinese_chess config quickly steps fen spent ≡ some c
    → switches c ≡ config_switches config
unfolding create_chinese_chess switches_in
create_chinese_chess-switches config quickly steps fen spent e =
    let (style, _, f) = >>=-eq-some (get_elem? piece_styles config.piece_style_idx) _ e in
    let ((side, placed), _, g) = >>=-eq-some (init_from_fen _ new_board) _ f in
    let (drawn, _, h) = >>=-eq-some (draw_all _ 0 0 _) _ g in
    sym (ap (switches_in (config_switches config)) h)
    ∙ start_timer-switches (same_side config.side side) _
