-- ===== src/Board/Men.antt =====
-- assets/js/board.js: which side's piece of which type stands on a square, through `makeMove`.
use cchess.Base.{
  ℕ, ◌≡◌, ◌≢◌, refl, sym, ap, ap₂, ◌∙◌, arith, Bool, true, false, Option, none, some, ◌==◌, ==_iff,
  if◌then◌else◌,
}
use cchess.Constants.{Side, PieceType}
use cchess.Geometry.{start_of_move, end_of_move}
use cchess.Board.State.{Piece, Position, update, add_piece}
use cchess.Board.Placed.{
  Deleted, nothing, removes, add_piece-eq, cells-with_piece, store-with_piece, cells-without_piece,
  store-without_piece,
}
use cchess.Board.Undo.{Relocated}

-- The side and the type of the piece that a square holds.
abbrev pub man_of : (ℕ → Piece) → Option ℕ → Option (Side × PieceType)
man_of store none = none
man_of store (some r) = some ((store r).side, (store r).kind)

abbrev pub man_at : Position → ℕ → Option (Side × PieceType)
man_at b square = man_of b.store (b.cells square)

man_of-update :
    (store : ℕ → Piece) (r : ℕ) (p : Piece) (o : Option ℕ)
    → p.side ≡ (store r).side
    → p.kind ≡ (store r).kind
    → man_of (update store r p) o ≡ man_of store o
man_of-update store r p none hs hk = refl
man_of-update store r p (some s) hs hk =
    ap₂ (λ (a : Side) (k : PieceType). some (a, k)) (ground (arith, ==_iff r s))
      (ground (arith, ==_iff r s))

del_piece-man_at :
    (square : ℕ) (b : Position) {o : Option ℕ} {b' : Position}
    → Deleted square b o b'
    → (p : ℕ) → man_at b' p ≡ (if square == p then none else man_at b p)
del_piece-man_at square b (nothing h g e) p = rw e (by_test (square == p) refl)
  where
    by_test : (t : Bool) → (square == p) ≡ t → man_at b p ≡ (if t then none else man_at b p)
    by_test true s = let same : square ≡ p = (==_iff square p).0 s in rw (← same, h) refl
    by_test false s = refl
del_piece-man_at square b (removes r v m) p =
    rw
      (
        m.after,
        cells-without_piece b (b.store r).side r square v,
        store-without_piece b (b.store r).side r square v,
      )
      (man_of-update b.store r (record (b.store r) { show = false }) (update b.cells square none p)
          refl refl
        ∙ by_test (square == p))
  where
    by_test :
        (t : Bool)
        → man_of b.store (if t then none else b.cells p) ≡ (if t then none else man_at b p)
    by_test true = refl
    by_test false = refl

add_piece-man_at :
    (r square : ℕ) (b : Position) {b' : Position}
    → add_piece (some r) square b ≡ some b'
    → (p : ℕ) → man_at b' p ≡ (if square == p then man_of b.store (some r) else man_at b p)
add_piece-man_at r square b e p =
    let (v, w, after) = add_piece-eq r square b e in
    rw
      (
        after,
        cells-with_piece b (b.store r).side r square v,
        store-with_piece b (b.store r).side r square v,
      )
      (man_of-update b.store r (record (b.store r) { show = true; square = square })
          (update b.cells square (some r) p) refl refl
        ∙ by_test (square == p))
  where
    by_test :
        (t : Bool)
        → man_of b.store (if t then some r else b.cells p)
          ≡ (if t then man_of b.store (some r) else man_at b p)
    by_test true = refl
    by_test false = refl

-- The piece taken off is the one that stood there, and its type and side stay.
del_piece-given :
    (square : ℕ) (b : Position) {o : Option ℕ} {b' : Position}
    → Deleted square b o b'
    → (o ≡ b.cells square) × (man_of b'.store o ≡ man_at b square)
del_piece-given square b (nothing h g e) = (g ∙ sym h, rw (g, h) refl)
del_piece-given square b (removes r v m) = (
  m.given ∙ sym m.found,
  rw (m.given, m.after, m.found, store-without_piece b (b.store r).side r square v)
      (man_of-update b.store r (record (b.store r) { show = false }) (some r) refl refl),
)

-- What stands where after a move between two squares.
pub relocate-man_at :
    (mv : ℕ) (b : Position) {o : Option ℕ} {b' : Position}
    → Relocated mv b o b'
    → start_of_move mv ≢ end_of_move mv
    → (p : ℕ)
    → man_at b' p ≡ (
        if end_of_move mv == p
        then man_at b (start_of_move mv)
        else (if start_of_move mv == p then none else man_at b p))
relocate-man_at mv b {b'} m apart p =
    by_piece m.piece (del_piece-given start m.without_end m.second).1 m.third
  where
    start : ℕ
    start = start_of_move mv

    end : ℕ
    end = end_of_move mv

    kept : man_at m.without_end start ≡ man_at b start
    kept =
        let other : (end == start) ≡ false = ground (arith, ==_iff end start, apart) in
        del_piece-man_at end b m.first start ∙ rw other refl

    both_gone :
        man_at m.without_both p
        ≡ (if start == p then none else (if end == p then none else man_at b p))
    both_gone =
        del_piece-man_at start m.without_end m.second p
        ∙ ap (λ (x : Option (Side × PieceType)). if start == p then none else x)
            (del_piece-man_at end b m.first p)

    tidy :
        (s e : Bool) (x y : Option (Side × PieceType))
        → (e ≡ true → x ≡ y)
        → (if e then x else (if s then none else (if e then none else man_at b p)))
          ≡ (if e then y else (if s then none else man_at b p))
    tidy s true x y h = h refl
    tidy s false x y h = refl

    by_piece :
        (piece : Option ℕ)
        → man_of m.without_both.store piece ≡ man_at m.without_end start
        → add_piece piece end m.without_both ≡ some b'
        → man_at b' p
          ≡ (if end == p then man_at b start else (if start == p then none else man_at b p))
    by_piece none g e =
        let same : b' ≡ m.without_both = unfold add_piece in cc in
        rw same (both_gone ∙ gone (start == p) (end == p) (man_at b start) (sym (g ∙ kept)))
      where
        gone :
            (s e : Bool) (x : Option (Side × PieceType))
            → x ≡ none
            → (if s then none else (if e then none else man_at b p))
              ≡ (if e then x else (if s then none else man_at b p))
        gone true true x h = sym h
        gone true false x h = refl
        gone false true x h = sym h
        gone false false x h = refl
    by_piece (some r) g e =
        add_piece-man_at r end m.without_both e p
        ∙ ap
            (λ (x : Option (Side × PieceType)).
              if end == p then man_of m.without_both.store (some r) else x)
            both_gone
        ∙ tidy (start == p) (end == p) (man_of m.without_both.store (some r)) (man_at b start)
            (λ t. g ∙ kept)
