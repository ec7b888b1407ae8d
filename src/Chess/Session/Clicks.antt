-- ===== src/Chess/Session/Clicks.antt =====
-- assets/js/chinese_chess.js: `clickPiece`, on a game whose parts agree.
use cchess.Base.{
  ℕ, ◌≡◌, refl, sym, ap, ◌∙◌, subst, Bool, true, false, List, [], ◌∷◌, some, inl, inr,
  if◌then◌else◌, >>=-eq-some, if-eq-some, ◌==◌,
}
use cchess.Constants.{Side}
use cchess.Geometry.{get_move}
use cchess.Geometry.Packing.{squares-get_move}
use cchess.Board.State.{same_side}
use cchess.Board.Moves.{is_click_self_piece}
use cchess.Board.Placed.{IsPlaced}
use cchess.Board.Probe.{prompt_pure}
use cchess.Board.Try.{prompt}
use cchess.Displayer
use cchess.Displayer.{UiDisplayer, Img}
use cchess.Chess.{
  ChineseChess, did, sounds, select_wav, turn_to_play, click_piece, select_or_not, show_prompt,
}
use cchess.Board.Men.{man_at}
use cchess.Board.Value.Books.{IsAccounted}
use cchess.Chess.Turns.{Clocks}
use cchess.Chess.Session.{IsOnBoard, IsProper, IsSelectable, IsInOrder, play-IsInOrder}

-- Two games that differ by their marks, effects, switches and selected piece.
pub record Marked (c c' : ChineseChess) : Type 0 where
  pub same : c' ≡ record c {
    displayer = c'.displayer;
    effects = c'.effects;
    selected_pos = c'.selected_pos;
    switch_sound_effect = c'.switch_sound_effect;
    switch_prompt = c'.switch_prompt;
    switch_animation = c'.switch_animation;
  }
  pub same_imgs : c'.displayer.imgs ≡ c.displayer.imgs

show_prompt-imgs :
    (mvs : List ℕ) (side : Side) (d : UiDisplayer)
    → (Displayer.show_prompt mvs side d).imgs ≡ d.imgs
unfolding Displayer.show_prompt Displayer.add_prompt_image
show_prompt-imgs [] side d = refl
show_prompt-imgs (mv ∷ mvs) side d = show_prompt-imgs mvs side (Displayer.add_prompt_image _ side d)

some_inj : {x y : ChineseChess} → some x ≡ some y → x ≡ y
some_inj h = cc

show_prompt-Marked :
    (square : ℕ) (side : Side) (c : ChineseChess) {c' : ChineseChess}
    → IsPlaced c.board.position
    → show_prompt square side c ≡ some c'
    → Marked c c'
unfolding show_prompt
show_prompt-Marked square side c {c'} placed e = elim (if-eq-some c.switch_prompt _ _ e) [
  | inl (_, f) ↦
      let ((mvs, board), e1, g) = >>=-eq-some (prompt square c.board) _ f in
      subst (Marked c) (some_inj g) (record {
        same =
            ap (λ b. record c { board = b; displayer = Displayer.show_prompt mvs side c.displayer })
              (prompt_pure square c.board placed e1);
        same_imgs = show_prompt-imgs mvs side c.displayer;
      })
  | inr (_, f) ↦ subst (Marked c) (some_inj f) (record { same = refl; same_imgs = refl })
]

pub Marked-IsInOrder :
    (c c' : ChineseChess) → IsInOrder c → Marked c c' → IsSelectable c' → IsInOrder c'
unfolding turn_to_play
Marked-IsInOrder c c' o m selectable = record {
  shows = λ p near on.
      let (img, found, seen) = o.shows p near on in
      (
        img,
        ap (λ i. i p) m.same_imgs ∙ found,
        seen ∙ ap (λ x. man_at x.board.position p) (sym m.same),
      );
  accounted = subst IsAccounted (ap (λ x. x.board.position) (sym m.same)) o.accounted;
  clocks =
      subst (λ x. Clocks x.self_counts x.self_play_timer x.opp_play_timer) (sym m.same) o.clocks;
  counted = subst (λ x. x.self_counts ≡ turn_to_play x) (sym m.same) o.counted;
  flagged = subst (λ x. x.play_side_flag ≡ x.board.cur_side) (sym m.same) o.flagged;
  live = subst (λ x. x.watch_mode ≡ false) (sym m.same) o.live;
  selectable = selectable;
}

abbrev selecting : ℕ → ChineseChess → ChineseChess
selecting square c = record c { selected_pos = square }

-- A click on an own piece: it is selected, or it was and is no more.
select_or_not-IsInOrder :
    (square : ℕ) (c : ChineseChess) {c' : ChineseChess}
    → IsInOrder c
    → IsOnBoard square
    → turn_to_play c ≡ true
    → is_click_self_piece square c.board ≡ true
    → select_or_not square c ≡ some c'
    → IsInOrder c'
unfolding select_or_not turn_to_play Displayer.unshow_prompt Displayer.un_selecte_piece
    Displayer.select_piece
select_or_not-IsInOrder square c {c'} o on turn own e =
    elim (if-eq-some (c.selected_pos == square) _ _ e) [
      | inl (_, f) ↦
          subst IsInOrder (some_inj f)
            (Marked-IsInOrder c _ o (record { same = refl; same_imgs = refl }) (inl refl))
      | inr (_, f) ↦
          let (shown, e1, g) = >>=-eq-some (show_prompt square c.board.cur_side _) _ f in
          let m = show_prompt-Marked square c.board.cur_side _ o.accounted.placed e1 in
          let kept : IsInOrder (record shown { selected_pos = square }) =
            Marked-IsInOrder c (record shown { selected_pos = square }) o
              (record { same = ap (selecting square) m.same; same_imgs = m.same_imgs })
              (inr (
                on,
                ap (λ x. same_side x.side x.board.cur_side) m.same ∙ turn,
                ap (λ x. is_click_self_piece square x.board) m.same ∙ own,
              )) in
          subst IsInOrder (some_inj g) kept
    ]

-- The move that a click ends, where it is not on an own piece.
click-IsProper :
    (square : ℕ) (c : ChineseChess)
    → IsOnBoard square
    → is_click_self_piece square c.board ≡ false
    → IsSelectable c
    → (c.selected_pos == 0) ≡ false
    → IsProper (get_move c.selected_pos square)
click-IsProper square c on other (inl none_selected) unset =
    absurd (let zero_is : (0 == 0) ≡ false = rw none_selected at unset in cc)
click-IsProper square c on other (inr (from, _, own)) _ =
    let (s, t) = squares-get_move c.selected_pos square from.0 in
    record {
      start = subst IsOnBoard (sym s) from;
      end = subst IsOnBoard (sym t) on;
      apart = λ h.
          let same : c.selected_pos ≡ square = sym s ∙ h ∙ t in
          let both : true ≡ false =
            sym own ∙ ap (λ x. is_click_self_piece x c.board) same ∙ other in
          cc;
    }

-- A click on a square of the board keeps the game in order.
pub click_piece-IsInOrder :
    (square : ℕ) (c : ChineseChess) {c' : ChineseChess}
    → IsInOrder c
    → IsOnBoard square
    → click_piece square c ≡ some c'
    → IsInOrder c'
unfolding click_piece turn_to_play
click_piece-IsInOrder square c {c'} o on e = elim (if-eq-some (turn_to_play c) _ _ e) [
  | inr (_, f) ↦ subst IsInOrder (some_inj f) o
  | inl (turn, f) ↦ elim (if-eq-some (is_click_self_piece square c.board) _ _ f) [
    | inl (own, g) ↦
        let (clicked, e1, h) = >>=-eq-some (select_or_not square c) _ g in
        let o1 = select_or_not-IsInOrder square c o on turn own e1 in
        subst IsInOrder (some_inj h) (sounded c.switch_sound_effect clicked o1)
    | inr (other, g) ↦ elim (if-eq-some (c.selected_pos == 0) _ _ g) [
      | inl (_, h) ↦ subst IsInOrder (some_inj h) o
      | inr (unset, h) ↦
          play-IsInOrder _ c o (click-IsProper square c on other o.selectable unset) h
    ]
  ]
]
  where
    sounded :
        (on : Bool) (x : ChineseChess)
        → IsInOrder x
        → IsInOrder (if on then did (sounds select_wav) x else x)
    sounded true x o =
        Marked-IsInOrder x (did (sounds select_wav) x) o (record { same = refl; same_imgs = refl })
          o.selectable
    sounded false x o = o
