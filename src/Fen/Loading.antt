-- ===== src/Fen/Loading.antt =====
-- assets/js/chinese_chess.js and assets/js/board.js: the loop of `initFromFen` on what `toFen` writes,
-- for any way to take a piece in: on a board, or on its pictures.
use cchess.Base.{
  ℕ, zero, suc, ◌+◌, ◌-◌, ◌≤◌, ◌≡◌, refl, sym, ap, ◌∙◌, arith, Bool, true, List, [], ◌∷◌, ◌++◌,
  append_assoc, Option, none, some, ◌==◌, if◌then◌else◌, ◌>>=◌,
}
use cchess.Constants.{
  Side, red, black, PieceType, king, advisor, bishop, knight, rook, cannon, pawn,
}
use cchess.Geometry.{convert_to_pos}
use cchess.Board.State.{Piece, Position, add_piece_to_board}
use cchess.Fen.{
  is_number, is_alpha, is_lower_alpha, is_upper_alpha, is_between, get_piece_type, place_all,
  piece_fen_string, flush, shown_at, row_to_fen, rows_to_fen,
}

-- The squares of a row from a column on, and those of the rows from a row on.
abbrev pub row_squares : ℕ → ℕ → ℕ → List ℕ
row_squares zero row col = []
row_squares (suc left) row col = convert_to_pos row col ∷ row_squares left row (col + 1)

abbrev pub rows_squares : ℕ → ℕ → List ℕ
rows_squares zero row = []
rows_squares (suc left) row = row_squares 9 row 0 ++ rows_squares left (row + 1)

pub >>=-cong {ℓ κ} :
    {A : Type ℓ} {B : Type κ} (m : Option A) {f g : A → Option B}
    → ((a : A) → f a ≡ g a)
    → (m >>= f) ≡ (m >>= g)
>>=-cong none h = refl
>>=-cong (some a) h = h a

pub >>=-assoc {ℓ κ μ} :
    {A : Type ℓ} {B : Type κ} {C : Type μ} (m : Option A) (f : A → Option B) (g : B → Option C)
    → ((m >>= f) >>= g) ≡ (m >>= λ a. f a >>= g)
>>=-assoc none f g = refl
>>=-assoc (some a) f g = refl

module _ {ℓ} {S : Type ℓ} (step : Side → PieceType → ℕ → S → Option S)
    (unknown : Side → ℕ → S → Option S) where
  abbrev pub take_in : Side → Option PieceType → ℕ → S → Option S
  take_in side none square s = unknown side square s
  take_in side (some kind) square s = step side kind square s

  -- The loop, with a state of any kind.
  unfoldable pub load : List ℕ → ℕ → ℕ → S → Option S
  unfolding is_number is_alpha is_lower_alpha
  load [] row col s = some s
  load (c ∷ rest) row col s =
      let after_digit = load rest row (col + (c - b'0')) s in
      let side : Side = if is_lower_alpha c then black else red in
      let after_piece =
        take_in side (get_piece_type c) (convert_to_pos row col) s >>= load rest row (col + 1) in
      let after_slash = load rest (row + 1) 0 s in
      let after_other = load rest row col s in
      if is_number c
      then after_digit
      else (if is_alpha c
          then after_piece
          else (if c == b'/' then after_slash else (if c == b' ' then some s else after_other)))

  -- What stands on a square of a board, taken in.
  abbrev pub take_shown : Option Piece → ℕ → S → Option S
  take_shown none square s = some s
  take_shown (some p) square s = step p.side p.kind square s

  abbrev pub take_square : Position → ℕ → S → Option S
  take_square b square s = take_shown (shown_at b square) square s

  abbrev pub scan : Position → List ℕ → S → Option S
  scan b [] s = some s
  scan b (square ∷ squares) s = take_square b square s >>= scan b squares

  load-flush :
      (n : ℕ) (rest : List ℕ) (row col : ℕ) (s : S)
      → n ≤ 9
      → load (flush n ++ rest) row col s ≡ load rest row (col + n) s
  unfolding load flush is_number is_between
  load-flush zero rest row col s h = ap (λ (k : ℕ). load rest row k s) (omega arith)
  load-flush (suc n) rest row col s h =
      let digit : is_number (b'0' + suc n) ≡ true = ground arith in
      rw digit (ap (λ (k : ℕ). load rest row (col + k) s) (omega arith))

  load-piece :
      (side : Side) (kind : PieceType) (rest : List ℕ) (row col : ℕ) (s : S)
      → load (piece_fen_string side kind ∷ rest) row col s
        ≡ (step side kind (convert_to_pos row col) s >>= load rest row (col + 1))
  unfolding load piece_fen_string is_number is_between is_alpha is_lower_alpha is_upper_alpha
      get_piece_type
  load-piece red king rest row col s = refl
  load-piece red advisor rest row col s = refl
  load-piece red bishop rest row col s = refl
  load-piece red knight rest row col s = refl
  load-piece red rook rest row col s = refl
  load-piece red cannon rest row col s = refl
  load-piece red pawn rest row col s = refl
  load-piece black king rest row col s = refl
  load-piece black advisor rest row col s = refl
  load-piece black bishop rest row col s = refl
  load-piece black knight rest row col s = refl
  load-piece black rook rest row col s = refl
  load-piece black cannon rest row col s = refl
  load-piece black pawn rest row col s = refl

  load-row :
      (b : Position) (left row col number col0 : ℕ) (rest : List ℕ) (s : S)
      → col0 + number ≡ col
      → number + left ≤ 9
      → load (row_to_fen left b row col number ++ rest) row col0 s
        ≡ (scan b (row_squares left row col) s >>= load rest row (col + left))
  unfolding row_to_fen
  load-row b zero row col number col0 rest s h small =
      load-flush number rest row col0 s (omega arith)
      ∙ ap (λ (k : ℕ). load rest row k s) (omega arith)
  load-row b (suc left) row col number col0 rest s h small =
      by_shown (shown_at b (convert_to_pos row col)) refl
        (λ number' col0' t. load-row b left row (col + 1) number' col0' rest t)
    where
      Goes : ℕ → ℕ → S → Type ℓ
      Goes number' col0' t =
          col0' + number' ≡ col + 1
          → number' + left ≤ 9
          → load (row_to_fen left b row (col + 1) number' ++ rest) row col0' t
            ≡ (scan b (row_squares left row (col + 1)) t >>= load rest row (col + 1 + left))

      by_shown :
          (o : Option Piece)
          → shown_at b (convert_to_pos row col) ≡ o
          → ((number' col0' : ℕ) (t : S) → Goes number' col0' t)
          → load
              (elim o [
                | some p ↦
                    flush number
                    ++ piece_fen_string p.side p.kind ∷ row_to_fen left b row (col + 1) 0
                | none ↦ row_to_fen left b row (col + 1) (number + 1)
              ]
                ++ rest)
              row
              col0
              s
            ≡ (take_shown o (convert_to_pos row col) s
                >>= scan b (row_squares left row (col + 1))
                >>= load rest row (col + suc left))
      by_shown none e next =
          next (number + 1) col0 s (omega arith) (omega arith)
          ∙ ap (λ (k : ℕ). scan b (row_squares left row (col + 1)) s >>= load rest row k)
              (omega arith)
      by_shown (some p) e next =
          let text : List ℕ = row_to_fen left b row (col + 1) 0 in
          let goes : (t : S)
              → load (text ++ rest) row (col + 1) t
                ≡ (scan b (row_squares left row (col + 1)) t >>= load rest row (col + suc left)) =
            λ t.
              next 0 (col + 1) t (omega arith) (omega arith)
              ∙ ap (λ (k : ℕ). scan b (row_squares left row (col + 1)) t >>= load rest row k)
                  (omega arith) in
          ap (λ (l : List ℕ). load l row col0 s)
            (append_assoc (flush number) (piece_fen_string p.side p.kind ∷ text) rest)
          ∙ load-flush number (piece_fen_string p.side p.kind ∷ (text ++ rest)) row col0 s
              (omega arith)
          ∙ ap (λ (k : ℕ). load (piece_fen_string p.side p.kind ∷ (text ++ rest)) row k s) h
          ∙ load-piece p.side p.kind (text ++ rest) row col s
          ∙ >>=-cong (step p.side p.kind (convert_to_pos row col) s) goes
          ∙ sym (>>=-assoc (step p.side p.kind (convert_to_pos row col) s) _ _)

  scan-append :
      (b : Position) (xs ys : List ℕ) (s : S) → scan b (xs ++ ys) s ≡ (scan b xs s >>= scan b ys)
  scan-append b [] ys s = refl
  scan-append b (x ∷ xs) ys s =
      >>=-cong (take_square b x s) (scan-append b xs ys)
      ∙ sym (>>=-assoc (take_square b x s) (scan b xs) (scan b ys))

  -- The text of the rows that are left, up to its space, takes in the squares of these rows.
  pub load-rows :
      (b : Position) (left row : ℕ) (rest : List ℕ) (s : S)
      → load (rows_to_fen (suc left) b row ++ b' ' ∷ rest) row 0 s
        ≡ scan b (rows_squares (suc left) row) s
  unfolding rows_to_fen load is_number is_between is_alpha is_lower_alpha is_upper_alpha
  load-rows b zero row rest s =
      load-row b 9 row 0 0 0 (b' ' ∷ rest) s (omega arith) (omega arith)
      ∙ >>=-cong (scan b (row_squares 9 row 0) s) (λ t. refl)
      ∙ sym (scan-append b (row_squares 9 row 0) [] s)
  load-rows b (suc left) row rest s =
      let more : List ℕ = rows_to_fen (suc left) b (row + 1) in
      ap (λ (l : List ℕ). load l row 0 s)
        (append_assoc (row_to_fen 9 b row 0 0) (b'/' ∷ more) (b' ' ∷ rest))
      ∙ load-row b 9 row 0 0 0 (b'/' ∷ (more ++ b' ' ∷ rest)) s (omega arith) (omega arith)
      ∙ >>=-cong (scan b (row_squares 9 row 0) s) (λ t. load-rows b left (row + 1) rest t)
      ∙ sym (scan-append b (row_squares 9 row 0) (rows_squares (suc left) (row + 1)) s)

-- A choice of the loop, of which each outcome is exchanged for an equal one.
abbrev chosen {ℓ} : {A : Type ℓ} → Bool → Bool → Bool → Bool → A → A → A → A → A → A
chosen number alpha slash space a p l e o =
    if number then a else (if alpha then p else (if slash then l else (if space then e else o)))

pub chosen-cong {ℓ} :
    {A : Type ℓ} (number alpha slash space : Bool) {a a' p p' l l' o o' : A} (e : A)
    → a ≡ a'
    → p ≡ p'
    → l ≡ l'
    → o ≡ o'
    → chosen number alpha slash space a p l e o ≡ chosen number alpha slash space a' p' l' e o'
chosen-cong number alpha slash space e ha hp hl ho = rw (ha, hp, hl, ho) refl

-- How a piece is put on a board, and a letter that names none.
abbrev pub board_step : Side → PieceType → ℕ → Position → Option Position
board_step side kind square b = add_piece_to_board kind side square b

abbrev pub no_step : Side → ℕ → Position → Option Position
no_step side square b = none

-- `initFromFen` on a board is the loop.
pub place_all-load :
    (fen : List ℕ) (row col : ℕ) (b : Position)
    → place_all fen row col b ≡ load board_step no_step fen row col b
unfolding place_all load is_number is_alpha is_lower_alpha
place_all-load [] row col b = refl
place_all-load (c ∷ rest) row col b =
    chosen-cong (is_number c) (is_alpha c) (c == b'/') (c == b' ') (some b)
      (place_all-load rest row (col + (c - b'0')) b)
      (by_kind (get_piece_type c) (place_all-load rest row (col + 1)))
      (place_all-load rest (row + 1) 0 b) (place_all-load rest row col b)
  where
    by_kind :
        (o : Option PieceType)
        → ((t : Position)
            → place_all rest row (col + 1) t ≡ load board_step no_step rest row (col + 1) t)
        → (o >>= λ kind.
            add_piece_to_board kind
              (if is_lower_alpha c then black else red)
              (convert_to_pos row col)
              b
            >>= place_all rest row (col + 1))
          ≡ (take_in board_step no_step
                (if is_lower_alpha c then black else red)
                o
                (convert_to_pos row col)
                b
              >>= load board_step no_step rest row (col + 1))
    by_kind none h = refl
    by_kind (some kind) h = >>=-cong (add_piece_to_board kind _ (convert_to_pos row col) b) h
