-- ===== src/QuickSort/Parts.antt =====
-- assets/js/utils.js: how `quickSort` parts an array.
use cchess.Base.{
  ℕ, zero, suc, ◌+◌, ◌<◌, ◌≡◌, refl, sym, subst, arith, Bool, true, false, List, [], ◌∷◌, ◌++◌,
  some, inl, inr, Bool-cases, length, length-append, All, append_assoc,
}
use cchess.Base.Int.{ℤ}
use mathlib.Core.Bool.{Bool-set}
use mathlib.Core.Logic.{∥∥₁_elim}
use mathlib.Core.List.{Mem, Memᴰ, Perm, perm_middle, append-nil}
use mathlib.Core.List.Perm
use cchess.QuickSort.{splice, is_less, push_all}

module _ {ℓ κ} {A : Type ℓ} (P : A → Type κ) where
  pub All-append : (xs ys : List A) → All P xs → All P ys → All P (xs ++ ys)
  All-append [] ys u v = v
  All-append (x ∷ xs) ys (p, u) v = (p, All-append xs ys u v)

  All-Memᴰ : (xs : List A) → All P xs → (a : A) → Memᴰ a xs → P a
  All-Memᴰ [] u a m = elim m [ ]
  All-Memᴰ (x ∷ xs) (p, u) a (Memᴰ.head e) = subst P (sym e) p
  All-Memᴰ (x ∷ xs) (p, u) a (Memᴰ.tail m) = All-Memᴰ xs u a m

-- Items that a test answers alike.
abbrev pub Alike {ℓ} : {A : Type ℓ} → (A → Bool) → Bool → List A → Type 0
Alike test answer xs = All (λ a. test a ≡ answer) xs

pub Alike-Mem {ℓ} :
    {A : Type ℓ} (test : A → Bool) (answer : Bool) (xs : List A)
    → Alike test answer xs
    → (a : A) → Mem a xs
    → test a ≡ answer
Alike-Mem test answer xs u a m =
    ∥∥₁_elim m (Bool-set (test a) answer) (λ d. All-Memᴰ (λ x. test x ≡ answer) xs u a d)

-- What `splice` takes out and leaves, of an array that is long enough.
pub record Spliced {ℓ} {A : Type ℓ} (i : ℕ) (xs : List A) : Type ℓ where
  pub item : A
  pub rest : List A
  pub taken : splice i xs ≡ some (item, rest)
  pub perm : Perm (item ∷ rest) xs
  pub size : length rest + 1 ≡ length xs
  pub kept :
      (test : A → Bool) (answer : Bool) → Alike test answer xs → Alike test answer (item ∷ rest)

pub splice-Spliced {ℓ} : {A : Type ℓ} (i : ℕ) (xs : List A) → i < length xs → Spliced i xs
unfolding splice
splice-Spliced i [] h = absurd (omega (arith, h))
splice-Spliced zero (x ∷ xs) h = record {
  item = x;
  rest = xs;
  taken = refl;
  perm = Perm.refl (x ∷ xs);
  size = omega arith;
  kept = λ test answer u. u;
}
splice-Spliced (suc i) (x ∷ xs) h =
    let s = splice-Spliced i xs (omega (arith, h)) in
    record {
      item = s.item;
      rest = x ∷ s.rest;
      taken = rw s.taken refl;
      perm = Perm.trans (Perm.swap x s.item s.rest) (Perm.cons x s.perm);
      size = omega (arith, s.size);
      kept = λ test answer (p, u). let (q, v) = s.kept test answer u in (q, (p, v));
    }

module _ {ℓ} {A : Type ℓ} (compare_func : A → A → ℤ) where
  -- What the loop makes of the items left and the two arrays so far.
  pub record Parted (pivot : A) (items left right low high : List A) : Type ℓ where
    pub perm : Perm (low ++ high) (items ++ left ++ right)
    pub size : length low + length high ≡ length items + length left + length right
    pub lows :
        Alike (λ a. is_less compare_func a pivot) true left
        → Alike (λ a. is_less compare_func a pivot) true low
    pub highs :
        Alike (λ a. is_less compare_func a pivot) false right
        → Alike (λ a. is_less compare_func a pivot) false high
    pub kept :
        (test : A → Bool) (answer : Bool)
        → Alike test answer items
        → Alike test answer left
        → Alike test answer right
        → Alike test answer low × Alike test answer high

  -- An item that goes to the end of the first or the second array.
  to_left :
      (items left right : List A) (item : A)
      → Perm (items ++ (left ++ item ∷ []) ++ right) (item ∷ items ++ left ++ right)
  to_left items left right item =
      rw (← append_assoc items left (item ∷ []), append_assoc (items ++ left) (item ∷ []) right)
        (perm_middle (items ++ left) right)

  to_right :
      (items left right : List A) (item : A)
      → Perm (items ++ left ++ (right ++ item ∷ [])) (item ∷ items ++ left ++ right)
  to_right items left right item = rw (← append_assoc (items ++ left) right (item ∷ [])) (
      rw (append-nil (items ++ left ++ right)) at
        (perm_middle {a = item} (items ++ left ++ right) []))

  pub push_all-Parted :
      (pivot : A) (items left right : List A)
      → Parted pivot items left right
          (push_all compare_func pivot items left right).0
          (push_all compare_func pivot items left right).1
  unfolding push_all
  push_all-Parted pivot [] left right = record {
    perm = Perm.refl (left ++ right);
    size = omega arith;
    lows = λ u. u;
    highs = λ u. u;
    kept = λ test answer n u v. (u, v);
  }
  push_all-Parted pivot (item ∷ items) left right =
      elim (Bool-cases (is_less compare_func item pivot)) [
        | inl t ↦
            rw (t, push_all)
              (let s = push_all-Parted pivot items (left ++ item ∷ []) right in
                record {
                  perm = Perm.trans s.perm (to_left items left right item);
                  size = omega (arith, s.size, length-append left (item ∷ []));
                  lows = λ u. s.lows (All-append _ left (item ∷ []) u (t, tt));
                  highs = s.highs;
                  kept = λ test answer (p, n) u v.
                      s.kept test answer n (All-append _ left (item ∷ []) u (p, tt)) v;
                })
        | inr t ↦
            rw (t, push_all)
              (let s = push_all-Parted pivot items left (right ++ item ∷ []) in
                record {
                  perm = Perm.trans s.perm (to_right items left right item);
                  size = omega (arith, s.size, length-append right (item ∷ []));
                  lows = s.lows;
                  highs = λ u. s.highs (All-append _ right (item ∷ []) u (t, tt));
                  kept = λ test answer (p, n) u v.
                      s.kept test answer n u (All-append _ right (item ∷ []) v (p, tt));
                })
      ]
