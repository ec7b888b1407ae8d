-- ===== src/Chess/Start/Drawn.antt =====
-- assets/js/chinese_chess.js: the loop of `initFromFen`, on the board and on its pictures side by side.
use cchess.Base.{
  ℕ, ◌+◌, ◌-◌, ◌<◌, ◌≡◌, refl, sym, ap, ◌∙◌, subst, Bool, true, false, List, [], ◌∷◌, Option, none,
  some, ◌==◌, ==_iff, if◌then◌else◌, ◌>>=◌, >>=-eq-some,
}
use cchess.Constants.{Side, red, black, PieceType}
use cchess.Geometry.{in_board, convert_to_pos}
use cchess.Board.State.{Position, add_piece_to_board}
use cchess.Board.Setup.{IsReady}
use cchess.Fen.{is_number, is_alpha, is_lower_alpha, get_piece_type, place_all}
use cchess.Fen.Scanned.{seen_man, board_step-kept}
use cchess.Displayer
use cchess.Displayer.{Img, UiDisplayer, Opacity, unset, PieceStyle}
use cchess.Displayer.Pictures.{piece_on}
use cchess.Chess.Redraw.{draw_all}

-- The pictures of the board's squares are the pieces shown on them, and no opacity is written yet.
abbrev pub Drawn : UiDisplayer → Position → Type 0
Drawn d b =
    (p : ℕ)
    → p < 256
    → in_board p ≡ true
    → (img : Img) × (d.imgs p ≡ some img)
      × (img.opacity ≡ unset)
      × (piece_on img.picture ≡ seen_man b p)

add_piece-Drawn :
    (side : Side) (kind : PieceType) (square : ℕ) (d : UiDisplayer) (b : Position)
    {d' : UiDisplayer} {b' : Position}
    → IsReady b
    → Drawn d b
    → add_piece_to_board kind side square b ≡ some b'
    → Displayer.add_piece side kind square d ≡ some d'
    → Drawn d' b'
unfolding Displayer.add_piece Displayer.draw_file Displayer.with_img
add_piece-Drawn side kind square d b {d'} {b'} ready drawn e f p near on =
    let (img, there, g) = >>=-eq-some (d.imgs square) _ f in
    let (old, found, plain, same) = drawn p near on in
    let (_, seen) = board_step-kept side kind square b ready e in
    by_square (square == p) refl img there old found plain same (seen p)
      (ap (λ o. imgs_of o p) (sym g))
  where
    imgs_of : Option UiDisplayer → ℕ → Option Img
    imgs_of none q = none
    imgs_of (some x) q = x.imgs q

    by_square :
        (t : Bool)
        → (square == p) ≡ t
        → (img : Img) → d.imgs square ≡ some img
        → (old : Img) → d.imgs p ≡ some old
        → old.opacity ≡ unset
        → piece_on old.picture ≡ seen_man b p
        → seen_man b' p ≡ (if t then some (side, kind) else seen_man b p)
        → d'.imgs p ≡ (
            if t
            then some (record img {
              path = d.style.img_path;
              picture = Displayer.piece_file side kind;
              z_index = 1;
            })
            else d.imgs p)
        → (new : Img) × (d'.imgs p ≡ some new)
          × (new.opacity ≡ unset)
          × (piece_on new.picture ≡ seen_man b' p)
    by_square false s img there old found plain same seen new =
        (old, new ∙ found, plain, same ∙ sym seen)
    by_square true s img there old found plain same seen new =
        let at : square ≡ p = (==_iff square p).0 s in
        let one : some img ≡ some old = sym there ∙ ap d.imgs at ∙ found in
        let img_plain : img.opacity ≡ unset =
          let same_img : img ≡ old = cc in ap (λ (x : Img). x.opacity) same_img ∙ plain in
        (_, new, img_plain, sym seen)

-- The two loops side by side.
pub draw_all-Drawn :
    (fen : List ℕ) (row col : ℕ) (d : UiDisplayer) (b : Position) {d' : UiDisplayer} {b' : Position}
    → IsReady b
    → Drawn d b
    → place_all fen row col b ≡ some b'
    → draw_all fen row col d ≡ some d'
    → Drawn d' b' × IsReady b'
unfolding place_all draw_all
draw_all-Drawn [] row col d b {d'} {b'} ready drawn e f =
    let same_d : d ≡ d' = cc in
    let same_b : b ≡ b' = cc in
    (
      subst (λ x. Drawn d' x) same_b (subst (λ x. Drawn x b) same_d drawn),
      subst IsReady same_b ready,
    )
draw_all-Drawn (c ∷ rest) row col d b {d'} {b'} ready drawn e f =
    by_char (is_number c) (is_alpha c) (c == b'/') (c == b' ') e f
      (draw_all-Drawn rest row (col + (c - b'0')) d b ready drawn)
      (λ d1 b1 r1 w1. draw_all-Drawn rest row (col + 1) d1 b1 r1 w1)
      (draw_all-Drawn rest (row + 1) 0 d b ready drawn)
      (draw_all-Drawn rest row col d b ready drawn)
  where
    side : Side
    side = if is_lower_alpha c then black else red

    square : ℕ
    square = convert_to_pos row col

    Goal : Type 0
    Goal = Drawn d' b' × IsReady b'

    by_kind :
        (o : Option PieceType)
        → ((d1 : UiDisplayer) (b1 : Position)
            → IsReady b1
            → Drawn d1 b1
            → place_all rest row (col + 1) b1 ≡ some b'
            → draw_all rest row (col + 1) d1 ≡ some d'
            → Goal)
        → (o >>= λ kind. add_piece_to_board kind side square b >>= place_all rest row (col + 1))
          ≡ some b'
        → ((elim o [
          | some kind ↦ Displayer.add_piece side kind square d
          | none ↦ Displayer.add_unknown side square d
        ])
            >>= draw_all rest row (col + 1))
          ≡ some d'
        → Goal
    by_kind none next e f = cc
    by_kind (some kind) next e f =
        let (b1, e1, e2) = >>=-eq-some (add_piece_to_board kind side square b) _ e in
        let (d1, f1, f2) = >>=-eq-some (Displayer.add_piece side kind square d) _ f in
        let (r1, _) = board_step-kept side kind square b ready e1 in
        next d1 b1 r1 (add_piece-Drawn side kind square d b ready drawn e1 f1) e2 f2

    Next : ℕ → ℕ → Type 0
    Next r k = place_all rest r k b ≡ some b' → draw_all rest r k d ≡ some d' → Goal

    by_char :
        (number alpha slash space : Bool)
        → (if number
            then place_all rest row (col + (c - b'0')) b
            else (if alpha
                then (get_piece_type c >>= λ kind.
                    add_piece_to_board kind side square b >>= place_all rest row (col + 1))
                else (if slash
                    then place_all rest (row + 1) 0 b
                    else (if space then some b else place_all rest row col b))))
          ≡ some b'
        → (if number
            then draw_all rest row (col + (c - b'0')) d
            else (if alpha
                then ((elim (get_piece_type c) [
                  | some kind ↦ Displayer.add_piece side kind square d
                  | none ↦ Displayer.add_unknown side square d
                ])
                    >>= draw_all rest row (col + 1))
                else (if slash
                    then draw_all rest (row + 1) 0 d
                    else (if space then some d else draw_all rest row col d))))
          ≡ some d'
        → Next row (col + (c - b'0'))
        → ((d1 : UiDisplayer) (b1 : Position)
            → IsReady b1
            → Drawn d1 b1
            → place_all rest row (col + 1) b1 ≡ some b'
            → draw_all rest row (col + 1) d1 ≡ some d'
            → Goal)
        → Next (row + 1) 0
        → Next row col
        → Goal
    by_char true a l s e f digit piece slash other = digit e f
    by_char false true l s e f digit piece slash other = by_kind (get_piece_type c) piece e f
    by_char false false true s e f digit piece slash other = slash e f
    by_char false false false true e f digit piece slash other =
        let same_d : d ≡ d' = cc in
        let same_b : b ≡ b' = cc in
        (
          subst (λ x. Drawn d' x) same_b (subst (λ x. Drawn x b) same_d drawn),
          subst IsReady same_b ready,
        )
    by_char false false false false e f digit piece slash other = other e f
