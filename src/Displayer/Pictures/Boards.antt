-- ===== src/Displayer/Pictures/Boards.antt =====
-- assets/js/displayer.js: `makeMove` and `undoMove` of the displayer beside those of the board.
use cchess.Base.{
  ◌<◌, ℕ, ◌≡◌, ◌≢◌, refl, sym, ap, ◌∙◌, arith, Bool, true, false, Option, none, some, ◌==◌, ==_iff,
  if◌then◌else◌,
}
use cchess.Constants.{Side, PieceType}
use cchess.Geometry.Packing.{start_of_move-mod}
use cchess.Geometry.{in_board, start_of_move, end_of_move}
use cchess.Board.State.{Position}
use cchess.Board.Moves.{relocate}
use cchess.Board.Undo.{relocate-Relocated}
use cchess.Board.Men.{man_at, relocate-man_at}
use cchess.Displayer.{
  Opacity, unset, dim, transparent, opaque, Img, UiDisplayer, make_move, undo_move,
}
use cchess.Displayer.Pictures.{
  piece_on, through, seen_in, shown, hidden, faced, make_move-imgs, undo_move-imgs, make_move-Moved,
  seen_img, seen_at,
}

-- On every square of the board a viewer sees the piece that stands there.
abbrev pub Shows : UiDisplayer → Position → Type 0
Shows d b =
    (p : ℕ)
    → p < 256
    → in_board p ≡ true
    → (img : Img) × (d.imgs p ≡ some img) × (seen_in img ≡ man_at b p)

through-some :
    (o : Opacity) (x : Option (Side × PieceType)) {m : Side × PieceType}
    → through o x ≡ some m
    → x ≡ through o x
through-some unset x h = refl
through-some opaque x h = refl
through-some transparent x h = cc
through-some dim x h = refl

-- If on every square of the board, below 256, a viewer sees the piece that stands there, and a
-- move between two different squares of the board, its end below 256, takes a piece that stands
-- on its start, and the board's part of `makeMove` gives a position, then the displayer's
-- `makeMove` of those squares gives pictures on which a viewer sees the pieces of the new
-- position on every square of the board.
pub make_move-Shows :
    (mv : ℕ) (side : Side) (d : UiDisplayer) (b : Position) {m : Side × PieceType} {o : Option ℕ}
    {b' : Position}
    → Shows d b
    → in_board (start_of_move mv) ≡ true
    → in_board (end_of_move mv) ≡ true
    → end_of_move mv < 256
    → start_of_move mv ≢ end_of_move mv
    → man_at b (start_of_move mv) ≡ some m
    → relocate mv b ≡ some (o, b')
    → (d' : UiDisplayer) × (make_move (start_of_move mv) (end_of_move mv) side d ≡ some d')
      × Shows d' b'
make_move-Shows mv side d b shows on_start on_end end_near apart stands e =
    let start : ℕ = start_of_move mv in
    let end : ℕ = end_of_move mv in
    let (from, hs, gs) = shows start (omega (arith, start_of_move-mod mv)) on_start in
    let (to, he, ge) = shows end end_near on_end in
    let (d', made) = make_move-Moved start end side d hs he apart in
    (
      d',
      made,
      λ p near on.
          after p near on (end == p) (start == p) refl refl from to gs
            (make_move-imgs start end side d hs he apart made p)
            (relocate-man_at mv b (relocate-Relocated mv b e) apart p),
    )
  where
    after :
        (p : ℕ)
        → p < 256
        → in_board p ≡ true
        → (t s : Bool) → (end_of_move mv == p) ≡ t
        → (start_of_move mv == p) ≡ s
        → {i : Option Img} {x : Option (Side × PieceType)} (from to : Img)
        → seen_in from ≡ man_at b (start_of_move mv)
        → i ≡ (
            if t
            then some (shown (faced to from))
            else (if s then some (hidden (faced from to)) else d.imgs p))
        → x ≡ (if t then man_at b (start_of_move mv) else (if s then none else man_at b p))
        → (img : Img) × (i ≡ some img) × (seen_in img ≡ x)
    after p near on true s ht hs from to g hi hx = (
      shown (faced to from),
      hi,
      through-some from.opacity (piece_on from.picture) (g ∙ stands) ∙ g ∙ sym hx,
    )
    after p near on false true ht hs from to g hi hx = (hidden (faced from to), hi, sym hx)
    after p near on false false ht hs from to g hi hx =
        let (img, h, f) = shows p near on in (img, hi ∙ h, f ∙ sym hx)

-- After the displayer's `makeMove` between two different squares with elements and its
-- `undoMove`, a viewer sees on both squares the piece of the element's picture before the move,
-- even of an element that was transparent then, and on every other square what was seen there
-- before.
pub seen_at-undo_move :
    (start end : ℕ) (side : Side) (d : UiDisplayer) {from to : Img} {made back : UiDisplayer}
    → d.imgs start ≡ some from
    → d.imgs end ≡ some to
    → start ≢ end
    → make_move start end side d ≡ some made
    → undo_move end start made ≡ some back
    → (p : ℕ)
    → seen_at back p ≡ (
        if start == p
        then piece_on from.picture
        else (if end == p then piece_on to.picture else seen_at d p))
seen_at-undo_move start end side d {from} {to} {made} {back} hs he apart e f p =
    let sf : (start == end) ≡ false = ground (arith, ==_iff start end, apart) in
    let fs : (end == start) ≡ false = ground (arith, ==_iff end start, apart) in
    let ss : (start == start) ≡ true = ground (arith, ==_iff start start) in
    let ee : (end == end) ≡ true = ground (arith, ==_iff end end) in
    let at_start : made.imgs start ≡ some (hidden (faced from to)) =
      make_move-imgs start end side d hs he apart e start ∙ rw (fs, ss) refl in
    let at_end : made.imgs end ≡ some (shown (faced to from)) =
      make_move-imgs start end side d hs he apart e end ∙ rw ee refl in
    ap seen_img (undo_move-imgs end start made at_start at_end apart f p)
    ∙ by_tests (start == p) (end == p) (made.imgs p)
        (make_move-imgs start end side d hs he apart e p)
  where
    by_tests :
        (s t : Bool) (o : Option Img)
        → o ≡ (
            if t
            then some (shown (faced to from))
            else (if s then some (hidden (faced from to)) else d.imgs p))
        → seen_img (
            if s
            then some (shown (faced (hidden (faced from to)) (shown (faced to from))))
            else (if t
                then some (shown (faced (shown (faced to from)) (hidden (faced from to))))
                else o))
          ≡ (if s then piece_on from.picture else (if t then piece_on to.picture else seen_at d p))
    by_tests true t o h = refl
    by_tests false true o h = refl
    by_tests false false o h = rw h refl
