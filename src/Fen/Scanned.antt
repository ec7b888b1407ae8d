-- ===== src/Fen/Scanned.antt =====
-- assets/js/board.js and assets/js/chinese_chess.js: what stands on a board that took in the squares of
-- another one.
use cchess.Base.{
  >>=-eq-some, ℕ, zero, suc, ◌-◌, ◌<◌, ◌≡◌, refl, sym, ap, ap₂, ◌∙◌, subst, arith, Bool, true,
  false, List, [], ◌∷◌, Option, none, some, ◌==◌, ==_iff, if◌then◌else◌, ◌>>=◌, >>=-of, length,
  get_elem?, All,
}
use cchess.Constants.{
  Side, red, black, PieceType, king, advisor, bishop, knight, rook, cannon, pawn, array_piece_value,
}
use cchess.Geometry.{flip_pos}
use cchess.Board.State.{
  add_piece_to_player, player, Piece, Position, add_piece_to_board, get_piece_value, update,
}
use cchess.Board.Setup.{IsReady, joined, newcomer, stocked, with_player-parts}
use cchess.Board.Setup.Joined.{add_piece_to_board-IsReady}
use cchess.Board.Men.{man_of, man_at}
use cchess.Board.Placed.{IsPlaced}
use cchess.Fen.{shown_at}
use cchess.Fen.Loading.{scan, take_shown, board_step, no_step}

-- The side and the type of what is shown on a square.
abbrev pub man : Option Piece → Option (Side × PieceType)
man none = none
man (some p) = some (p.side, p.kind)

abbrev pub seen_man : Position → ℕ → Option (Side × PieceType)
seen_man b square = man (shown_at b square)

get_elem?-Answers : (xs : List ℕ) (k : ℕ) → k < length xs → (v : ℕ) × (get_elem? xs k ≡ some v)
get_elem?-Answers [] k h = absurd (omega (arith, h))
get_elem?-Answers (x ∷ xs) zero h = (x, refl)
get_elem?-Answers (x ∷ xs) (suc k) h = get_elem?-Answers xs k (omega (arith, h))

length-array_piece_value : (kind : PieceType) → length (array_piece_value kind) ≡ 256
unfolding array_piece_value
length-array_piece_value king = refl
length-array_piece_value advisor = refl
length-array_piece_value bishop = refl
length-array_piece_value knight = refl
length-array_piece_value rook = refl
length-array_piece_value cannon = refl
length-array_piece_value pawn = refl

get_piece_value-Answers :
    (kind : PieceType) (side : Side) (square : ℕ)
    → square < 255
    → (v : ℕ) × (get_piece_value kind side square ≡ some v)
unfolding get_piece_value flip_pos
get_piece_value-Answers kind red square h =
    get_elem?-Answers (array_piece_value kind) square (omega (arith, length-array_piece_value kind))
get_piece_value-Answers kind black square h =
    let (v, e) =
      get_elem?-Answers (array_piece_value kind) (254 - square)
        (omega (arith, length-array_piece_value kind)) in
    (v, ground (arith, e))

abbrev shown_of : (ℕ → Piece) → Option ℕ → Option (Side × PieceType)
shown_of store none = none
shown_of store (some r) = if (store r).show then some ((store r).side, (store r).kind) else none

seen_man-shown_of : (b : Position) (p : ℕ) → seen_man b p ≡ shown_of b.store (b.cells p)
unfolding shown_at
seen_man-shown_of b p = by_cell (b.cells p)
  where
    by_show :
        (r : ℕ) (t : Bool)
        → man (if t then some (b.store r) else none)
          ≡ (if t then some ((b.store r).side, (b.store r).kind) else none)
    by_show r true = refl
    by_show r false = refl

    by_cell :
        (o : Option ℕ)
        → man (o >>= λ r. if (b.store r).show then some (b.store r) else none) ≡ shown_of b.store o
    by_cell none = refl
    by_cell (some r) = by_show r (b.store r).show

-- A piece that joins is seen on its square, and nothing else changes.
joined-seen :
    (side : Side) (kind : PieceType) (square v : ℕ) (b : Position)
    → IsReady b
    → (p : ℕ)
    → seen_man (joined b kind side square v) p
      ≡ (if square == p then some (side, kind) else seen_man b p)
joined-seen side kind square v b ready p =
    let parts =
      with_player-parts (stocked b kind side square v) side
        (add_piece_to_player (player b side) (newcomer b kind side square v) b.next v) in
    seen_man-shown_of (joined b kind side square v) p
    ∙ ap₂ (λ (st : ℕ → Piece) (cs : ℕ → Option ℕ). shown_of st (cs p)) parts.1 parts.0
    ∙ by_test (square == p)
  where
    by_test :
        (t : Bool)
        → shown_of
            (update b.store b.next (newcomer b kind side square v))
            (if t then some b.next else b.cells p)
          ≡ (if t then some (side, kind) else seen_man b p)
    by_test true = ground (arith, ==_iff b.next b.next)
    by_test false = older (b.cells p) (ready.below p) ∙ sym (seen_man-shown_of b p)
      where
        older :
            (o : Option ℕ)
            → ((r : ℕ) → o ≡ some r → r < b.next)
            → shown_of (update b.store b.next (newcomer b kind side square v)) o
              ≡ shown_of b.store o
        older none below = refl
        older (some r) below = let near = below r refl in ground (arith, ==_iff b.next r)

pub board_step-kept :
    (side : Side) (kind : PieceType) (square : ℕ) (b : Position) {b' : Position}
    → IsReady b
    → board_step side kind square b ≡ some b'
    → IsReady b'
      × ((p : ℕ) → seen_man b' p ≡ (if square == p then some (side, kind) else seen_man b p))
unfolding add_piece_to_board
board_step-kept side kind square b {b'} ready e =
    let (v, worth, f) = >>=-eq-some (get_piece_value kind side square) _ e in
    let same : joined b kind side square v ≡ b' = cc in
    (
      add_piece_to_board-IsReady kind side square b ready e,
      λ p. ap (λ z. seen_man z p) (sym same) ∙ joined-seen side kind square v b ready p,
    )

board_step-Answers :
    (side : Side) (kind : PieceType) (square : ℕ) (b : Position)
    → square < 255
    → (b' : Position) × (board_step side kind square b ≡ some b')
unfolding add_piece_to_board
board_step-Answers side kind square b h =
    let (v, e) = get_piece_value-Answers kind side square h in
    (joined b kind side square v, >>=-of _ e)

pub seen_man-man_at : (b : Position) → IsPlaced b → (p : ℕ) → seen_man b p ≡ man_at b p
seen_man-man_at b placed p = seen_man-shown_of b p ∙ by_cell (b.cells p) (placed p)
  where
    by_cell :
        (o : Option ℕ)
        → ((r : ℕ) → o ≡ some r → ((b.store r).square ≡ p) × ((b.store r).show ≡ true))
        → shown_of b.store o ≡ man_of b.store o
    by_cell none h = refl
    by_cell (some r) h = rw (h r refl).1 refl

-- Whether a square is in a list.
abbrev pub listed : ℕ → List ℕ → Bool
listed p [] = false
listed p (q ∷ qs) = if q == p then true else listed p qs

abbrev pub or_else :
    Option (Side × PieceType) → Option (Side × PieceType) → Option (Side × PieceType)
or_else none y = y
or_else (some x) y = some x

abbrev pub Taken : Position → List ℕ → Position → Type 0
Taken b squares s =
    (s' : Position) × (scan board_step no_step b squares s ≡ some s')
    × IsReady s'
    × ((p : ℕ)
        → seen_man s' p
          ≡ (if listed p squares then or_else (seen_man b p) (seen_man s p) else seen_man s p))

pub scan-seen :
    (b : Position) (squares : List ℕ) (s : Position)
    → All (λ q. q < 255) squares
    → IsReady s
    → Taken b squares s
scan-seen b [] s h ready = (s, refl, ready, λ p. refl)
scan-seen b (q ∷ squares) s (near, h) ready =
    by_shown (shown_at b q) refl (λ t r. scan-seen b squares t h r)
  where
    by_shown :
        (o : Option Piece)
        → shown_at b q ≡ o
        → ((t : Position) → IsReady t → Taken b squares t)
        → (s' : Position) × ((take_shown board_step no_step o q s
              >>= scan board_step no_step b squares)
            ≡ some s')
          × IsReady s'
          × ((p : ℕ)
              → seen_man s' p ≡ (
                  if (if q == p then true else listed p squares)
                  then or_else (seen_man b p) (seen_man s p)
                  else seen_man s p))
    by_shown none e next =
        let (s', made, r, seen) = next s ready in
        (s', made, r, λ p. seen p ∙ empty p (q == p) refl (listed p squares))
      where
        empty :
            (p : ℕ) (t : Bool)
            → (q == p) ≡ t
            → (l : Bool)
            → (if l then or_else (seen_man b p) (seen_man s p) else seen_man s p) ≡ (
                if (if t then true else l)
                then or_else (seen_man b p) (seen_man s p)
                else seen_man s p)
        empty p false same l = refl
        empty p true same true = refl
        empty p true same false =
            let at : q ≡ p = (==_iff q p).0 same in
            let gone : seen_man b p ≡ none = subst (λ k. seen_man b k ≡ none) at (ap man e) in
            rw gone refl
    by_shown (some x) e next =
        let (s1, made1) = board_step-Answers x.side x.kind q s near in
        let (r1, seen1) = board_step-kept x.side x.kind q s ready made1 in
        let (s', made, r, seen) = next s1 r1 in
        (
          s',
          >>=-of _ made1 ∙ made,
          r,
          λ p. seen p ∙ joined_now p (q == p) refl (listed p squares) (seen_man s1 p) (seen1 p),
        )
      where
        joined_now :
            (p : ℕ) (t : Bool)
            → (q == p) ≡ t
            → (l : Bool) (y : Option (Side × PieceType))
            → y ≡ (if t then some (x.side, x.kind) else seen_man s p)
            → (if l then or_else (seen_man b p) y else y) ≡ (
                if (if t then true else l)
                then or_else (seen_man b p) (seen_man s p)
                else seen_man s p)
        joined_now p false same l y h = rw h refl
        joined_now p true same l y h =
            let at : q ≡ p = (==_iff q p).0 same in
            let here : seen_man b p ≡ some (x.side, x.kind) =
              subst (λ k. seen_man b k ≡ some (x.side, x.kind)) at (ap man e) in
            rw (here, h) (by_list l (some (x.side, x.kind)))
          where
            by_list : (l : Bool) (m : Option (Side × PieceType)) → (if l then m else m) ≡ m
            by_list true m = refl
            by_list false m = refl
