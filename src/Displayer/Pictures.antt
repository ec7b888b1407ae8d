-- ===== src/Displayer/Pictures.antt =====
-- assets/js/displayer.js: what a viewer sees on the squares, against what stands on them.
pub mod Boards
use cchess.Base.{
  ℕ, ◌<◌, ◌≡◌, ◌≢◌, refl, sym, ap, ap₂, ◌∙◌, arith, Bool, true, false, Option, none, some, ◌==◌,
  ==_iff, if◌then◌else◌, ◌>>=◌, >>=-of, Bool-cases, inl, inr,
}
use cchess.Constants.{Side, PieceType}
use cchess.Geometry.{in_board, start_of_move, end_of_move}
use cchess.Board.State.{Position, update}
use cchess.Board.Moves.{relocate}
use cchess.Board.Undo.{relocate-Relocated}
use cchess.Board.Men.{man_at, relocate-man_at}
use cchess.Displayer.{
  Picture, piece_file, Opacity, unset, dim, transparent, opaque, Img, UiDisplayer, with_img,
  add_last_track, remove_last_track, swap_image, show_image, unshow_image, make_move, undo_move,
  unshow_prompt, piece_img_zindex, null_img_zindex,
}

abbrev pub piece_on : Picture → Option (Side × PieceType)
piece_on (piece_file side kind) = some (side, kind)
piece_on _ = none

abbrev pub through : Opacity → Option (Side × PieceType) → Option (Side × PieceType)
through transparent seen = none
through _ seen = seen

-- The piece that a viewer sees in an element.
abbrev pub seen_in : Img → Option (Side × PieceType)
seen_in img = through img.opacity (piece_on img.picture)

abbrev pub seen_img : Option Img → Option (Side × PieceType)
seen_img none = none
seen_img (some img) = seen_in img

abbrev pub seen_at : UiDisplayer → ℕ → Option (Side × PieceType)
seen_at d square = seen_img (d.imgs square)

abbrev pub shown : Img → Img
shown img = record img { opacity = opaque; z_index = piece_img_zindex }

abbrev pub hidden : Img → Img
hidden img = record img { opacity = transparent; z_index = null_img_zindex }

-- An element with the file of another.
abbrev pub faced : Img → Img → Img
faced img other = record img { path = other.path; picture = other.picture }

-- Two elements of `imgs_` replaced.
abbrev pub two_imgs : ℕ → ℕ → Img → Img → (ℕ → Option Img) → ℕ → Option Img
two_imgs start end from to imgs p =
    if end == p then some to else (if start == p then some from else imgs p)

abbrev imgs_of : Option UiDisplayer → ℕ → Option Img
imgs_of none p = none
imgs_of (some d) p = d.imgs p

pub make_move-imgs :
    (start end : ℕ) (side : Side) (d : UiDisplayer) {from to : Img} {d' : UiDisplayer}
    → d.imgs start ≡ some from
    → d.imgs end ≡ some to
    → start ≢ end
    → make_move start end side d ≡ some d'
    → (p : ℕ)
    → d'.imgs p ≡ two_imgs start end (hidden (faced from to)) (shown (faced to from)) d.imgs p
unfolding make_move swap_image with_img show_image unshow_image add_last_track
make_move-imgs start end side d {from} {to} {d'} hs he apart e p =
    let sf : (start == end) ≡ false = ground (arith, ==_iff start end, apart) in
    let fs : (end == start) ≡ false = ground (arith, ==_iff end start, apart) in
    let ss : (start == start) ≡ true = ground (arith, ==_iff start start) in
    let ee : (end == end) ≡ true = ground (arith, ==_iff end end) in
    let e1 = rw (hs, he, sf) at e in
    let e2 = rw (fs, ss, ee) at e1 in
    let e3 = rw sf at e2 in
    sym (ap (λ (o : Option UiDisplayer). imgs_of o p) e3) ∙ by_tests (end == p) (start == p)
  where
    by_tests :
        (t s : Bool)
        → (if t
            then some (shown (faced to from))
            else (if s
                then some (hidden (faced from to))
                else (if t
                    then some (faced to from)
                    else (if s then some (faced from to) else d.imgs p))))
          ≡ (if t
              then some (shown (faced to from))
              else (if s then some (hidden (faced from to)) else d.imgs p))
    by_tests true s = refl
    by_tests false true = refl
    by_tests false false = refl

pub undo_move-imgs :
    (end start : ℕ) (d : UiDisplayer) {from to : Img} {d' : UiDisplayer}
    → d.imgs start ≡ some from
    → d.imgs end ≡ some to
    → start ≢ end
    → undo_move end start d ≡ some d'
    → (p : ℕ)
    → d'.imgs p ≡ two_imgs end start (shown (faced to from)) (shown (faced from to)) d.imgs p
unfolding undo_move swap_image with_img show_image unshow_prompt remove_last_track
undo_move-imgs end start d {from} {to} {d'} hs he apart e p =
    let sf : (start == end) ≡ false = ground (arith, ==_iff start end, apart) in
    let fs : (end == start) ≡ false = ground (arith, ==_iff end start, apart) in
    let ss : (start == start) ≡ true = ground (arith, ==_iff start start) in
    let ee : (end == end) ≡ true = ground (arith, ==_iff end end) in
    let e1 = rw (hs, he, sf) at e in
    let e2 = rw (ee, fs, ss) at e1 in
    sym (ap (λ (o : Option UiDisplayer). imgs_of o p) e2) ∙ by_tests (start == p) (end == p)
  where
    by_tests :
        (s t : Bool)
        → (if s
            then some (shown (faced from to))
            else (if t
                then some (shown (faced to from))
                else (if t
                    then some (faced to from)
                    else (if s then some (faced from to) else d.imgs p))))
          ≡ (if s
              then some (shown (faced from to))
              else (if t then some (shown (faced to from)) else d.imgs p))
    by_tests true t = refl
    by_tests false true = refl
    by_tests false false = refl

pub make_move-Moved :
    (start end : ℕ) (side : Side) (d : UiDisplayer) {from to : Img}
    → d.imgs start ≡ some from
    → d.imgs end ≡ some to
    → start ≢ end
    → (d' : UiDisplayer) × (make_move start end side d ≡ some d')
unfolding make_move swap_image with_img show_image unshow_image add_last_track
make_move-Moved start end side d {from} {to} hs he apart =
    let sf : (start == end) ≡ false = ground (arith, ==_iff start end, apart) in
    let fs : (end == start) ≡ false = ground (arith, ==_iff end start, apart) in
    let ss : (start == start) ≡ true = ground (arith, ==_iff start start) in
    let ee : (end == end) ≡ true = ground (arith, ==_iff end end) in
    (
      record (add_last_track start end side d) {
        imgs =
            update
              (update
                (update (update d.imgs start (some (faced from to))) end (some (faced to from)))
                start (some (hidden (faced from to))))
              end (some (shown (faced to from)));
      },
      rw (hs, he, sf) (rw (fs, ss, ee) (rw sf refl)),
    )

pub undo_move-Moved :
    (end start : ℕ) (d : UiDisplayer) {from to : Img}
    → d.imgs start ≡ some from
    → d.imgs end ≡ some to
    → start ≢ end
    → (d' : UiDisplayer) × (undo_move end start d ≡ some d')
unfolding undo_move swap_image with_img show_image unshow_prompt remove_last_track
undo_move-Moved end start d {from} {to} hs he apart =
    let sf : (start == end) ≡ false = ground (arith, ==_iff start end, apart) in
    let fs : (end == start) ≡ false = ground (arith, ==_iff end start, apart) in
    let ss : (start == start) ≡ true = ground (arith, ==_iff start start) in
    let ee : (end == end) ≡ true = ground (arith, ==_iff end end) in
    (
      record (remove_last_track (unshow_prompt d)) {
        imgs =
            update
              (update
                (update (update d.imgs start (some (faced from to))) end (some (faced to from))) end
                (some (shown (faced to from))))
              start (some (shown (faced from to)));
      },
      rw (hs, he, sf) (rw (ee, fs, ss) refl),
    )
