-- ===== src/Board/Answers.antt =====
-- assets/js/board.js: the runs of `legalMovePiece` and `willKillKing`, their loops included.
use cchess.Base.{
  ℕ, zero, suc, ◌<◌, ◌≡◌, ◌≢◌, refl, ap, ◌∙◌, inl, inr, arith, Bool, true, false, ◌&&◌, List, [],
  ◌∷◌, Option, some, ◌==◌, if◌then◌else◌, >>=-of, Bool-cases,
}
use cchess.Base.Int.{ℤ, pos, negsuc}
use cchess.Constants.{PieceType, king, rook, cannon, pawn, Side}
use cchess.Geometry.{get_offset, in_fort}
use cchess.Board.State.{Position, player, opponent}
use cchess.Board.Rules.{
  line_reaches, line_blocked, along, from_offset, legal_line, legal_by_type, legal_move_piece,
  king_square, some_piece_kills, will_kill_king, spans,
}
use cchess.Board.Lines.{Ahead, Ahead-zero, stride-Stop, get_offset-Ahead}

abbrev pub Answers {ℓ} : {A : Type ℓ} → Option A → Type ℓ
Answers {A} o = (a : A) × (o ≡ some a)

if-Answers :
    (t : Bool) (m n : Option Bool)
    → (t ≡ true → Answers m)
    → (t ≡ false → Answers n)
    → Answers (if t then m else n)
if-Answers true m n f g = f refl
if-Answers false m n f g = g refl

line_blocked-Answers :
    (b : Position) (offset : ℤ) (dest cur left : ℕ) (kind : PieceType)
    → Ahead offset cur dest left
    → cur ≢ dest
    → Answers (line_blocked b offset dest cur kind)
unfolding line_blocked
line_blocked-Answers b offset dest cur zero cannon h ne = absurd (ne (Ahead-zero offset cur dest h))
line_blocked-Answers b offset dest cur (suc left) cannon h ne =
    let (stop, e, s) = stride-Stop b offset dest cur left h in (stop == dest, >>=-of _ e)
line_blocked-Answers b offset dest cur left _ h ne = (false, refl)

along-Answers :
    (b : Position) (r dest : ℕ) (offset : ℤ) (m : ℕ)
    → Ahead offset (b.store r).square dest (suc m)
    → Answers (along b r dest offset)
unfolding along
along-Answers b r dest offset m h =
    let (stop, e, s) = stride-Stop b offset dest (b.store r).square m h in
    let (answer, f) =
      if-Answers (stop == dest) (some (line_reaches b r dest (b.store r).kind))
        (line_blocked b offset dest stop (b.store r).kind)
        (λ _. (line_reaches b r dest (b.store r).kind, refl))
        (λ away.
          line_blocked-Answers b offset dest stop s.left (b.store r).kind s.ahead (ground arith)) in
    (answer, >>=-of _ e ∙ f)

from_offset-Answers :
    (b : Position) (r dest : ℕ) (offset : ℤ) (m : ℕ)
    → Ahead offset (b.store r).square dest (suc m)
    → Answers (from_offset b r dest offset)
unfolding from_offset
from_offset-Answers b r dest (pos zero) m h = (false, refl)
from_offset-Answers b r dest (pos (suc d)) m h = along-Answers b r dest (pos (suc d)) m h
from_offset-Answers b r dest (negsuc k) m h = along-Answers b r dest (negsuc k) m h

legal_line-Answers :
    (b : Position) (r dest : ℕ)
    → (b.store r).square < 256
    → dest < 256
    → (b.store r).square ≢ dest
    → Answers (legal_line b r dest)
unfolding legal_line from_offset
legal_line-Answers b r dest hs hd ne = elim (get_offset-Ahead (b.store r).square dest hs hd ne) [
  | inl z ↦ rw z (false, refl)
  | inr (m, h) ↦ from_offset-Answers b r dest (get_offset (b.store r).square dest) m h
]

-- Between different squares of the array, and with the king of the piece's side in place,
-- `legalMovePiece` answers for every piece: none of its loops runs on for ever.
pub legal_move_piece-Answers :
    (b : Position) (r dest home : ℕ)
    → (b.store r).square < 256
    → dest < 256
    → (b.store r).square ≢ dest
    → king_square b (b.store r).side ≡ some home
    → (legal : Bool) × (legal_move_piece b r dest ≡ some legal)
unfolding legal_move_piece
legal_move_piece-Answers b r dest home hs hd ne hk = by_type (b.store r).kind
  where
    line : Answers (legal_line b r dest)
    line = legal_line-Answers b r dest hs hd ne

    by_type : (kind : PieceType) → Answers (legal_by_type kind b r dest)
    by_type king =
        unfold legal_by_type in
        if-Answers (in_fort dest && spans 1 (b.store r).square dest) (some true)
          (legal_line b r dest) (λ _. (true, refl)) (λ _. line)
    by_type rook = unfold legal_by_type in line
    by_type cannon = unfold legal_by_type in line
    by_type pawn = unfold legal_by_type in (_, >>=-of _ hk)
    by_type _ = unfold legal_by_type in (_, refl)

-- The pieces belong to a side, and those that are shown stand on the array, off a square.
abbrev pub Hunters : Position → Side → ℕ → List ℕ → Type 0
Hunters b side target [] = Unit
Hunters b side target (r ∷ rest) =
    (((b.store r).side ≡ side)
      × ((b.store r).show ≡ true → ((b.store r).square < 256) × ((b.store r).square ≢ target)))
    × Hunters b side target rest

some_piece_kills-Answers :
    (b : Position) (side : Side) (target home : ℕ) (pieces : List ℕ)
    → target < 256
    → king_square b side ≡ some home
    → Hunters b side target pieces
    → Answers (some_piece_kills b (some target) pieces)
unfolding some_piece_kills
some_piece_kills-Answers b side target home [] ht hk h = (false, refl)
some_piece_kills-Answers b side target home (r ∷ rest) ht hk ((own, stands), others) =
    let (last, e) = some_piece_kills-Answers b side target home rest ht hk others in
    elim (Bool-cases (b.store r).show) [
      | inl s ↦
          let (near, off) = stands s in
          let (hit, f) =
            legal_move_piece-Answers b r target home near ht off (ap (king_square b) own ∙ hk) in
          let (answer, g) =
            if-Answers hit (some true) (some_piece_kills b (some target) rest) (λ _. (true, refl))
              (λ _. (last, e)) in
          (answer, rw s (>>=-of _ f ∙ g))
      | inr s ↦ (last, rw s e)
    ]

-- `willKillKing` answers where both players have a king, the attacked one on the array, each
-- piece in the opponent's list is the opponent's, and the shown ones stand on the array and off
-- the attacked king's square.
pub will_kill_king-Answers :
    (b : Position) (side : Side) (target home : ℕ)
    → king_square b side ≡ some target
    → target < 256
    → king_square b (opponent side) ≡ some home
    → Hunters b (opponent side) target (player b (opponent side)).pieces
    → (attacked : Bool) × (will_kill_king b side ≡ some attacked)
unfolding will_kill_king
will_kill_king-Answers b side target home ht hr hk h =
    rw ht (some_piece_kills-Answers b (opponent side) target home _ hr hk h)
