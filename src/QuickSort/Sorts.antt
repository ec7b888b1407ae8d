-- ===== src/QuickSort/Sorts.antt =====
-- assets/js/utils.js: what `quickSort` returns.
use cchess.Base.{
  ℕ, zero, suc, ◌/◌, ◌<◌, ◌≤◌, ◌≡◌, ◌⊎◌, refl, sym, ◌∙◌, arith, Bool, true, false, List, [], ◌∷◌,
  ◌++◌, Option, none, some, All, inl, inr, Bool-cases, leb, length,
}
use cchess.Base.Int.{ℤ}
use mathlib.Core.Bool.{Bool-set}
use mathlib.Core.List.{Perm, Pairwise, Pairwise-singleton, Pairwise-append, perm_middle, append-nil}
use mathlib.Core.List.Perm
use cchess.QuickSort.Parts.{All-append, Alike, Alike-Mem, splice-Spliced, push_all-Parted}
use cchess.QuickSort.{is_less, push_all, quick_sort_within, quick_sort, concat_of}

module _ {ℓ} {A : Type ℓ} (compare_func : A → A → ℤ) where
  -- Of two items at most one is less, and what is less than a lesser one is less.
  pub record IsConsistent : Type ℓ where
    pub asym : (a b : A) → is_less compare_func a b ≡ true → is_less compare_func b a ≡ false
    pub trans :
        (a b c : A)
        → is_less compare_func a b ≡ true
        → is_less compare_func b c ≡ true
        → is_less compare_func a c ≡ true

  -- No item is less than one before it.
  abbrev pub IsSorted : List A → Type ℓ
  IsSorted = Pairwise (λ a b. is_less compare_func b a ≡ false)

  joined-IsSorted :
      (pivot : A) (low high : List A)
      → IsConsistent
      → IsSorted low
      → IsSorted high
      → Alike (λ a. is_less compare_func a pivot) true low
      → Alike (λ a. is_less compare_func a pivot) false high
      → IsSorted (low ++ pivot ∷ high)
  joined-IsSorted pivot low high c sorted_low sorted_high lows highs =
      (Pairwise-append (λ a b. Bool-set (is_less compare_func b a) false) {l₁ = low}
          {l₂ = pivot ∷ high}).1
        (
          sorted_low,
          Pairwise.cons (Alike-Mem _ false high highs) sorted_high,
          λ a low_a b m.
              let below : is_less compare_func a pivot ≡ true = Alike-Mem _ true low lows a low_a in
              Alike-Mem (λ x. is_less compare_func x a) false (pivot ∷ high)
                (c.asym a pivot below, above a below high highs) b m,
        )
    where
      not_less :
          (a b : A)
          → is_less compare_func a pivot ≡ true
          → is_less compare_func b pivot ≡ false
          → is_less compare_func b a ≡ false
      not_less a b below over = elim (Bool-cases (is_less compare_func b a)) [
        | inl t ↦ let both : true ≡ false = sym (c.trans b a pivot t below) ∙ over in cc
        | inr f ↦ f
      ]

      above :
          (a : A)
          → is_less compare_func a pivot ≡ true
          → (xs : List A) → Alike (λ x. is_less compare_func x pivot) false xs
          → Alike (λ x. is_less compare_func x a) false xs
      above a below [] u = tt
      above a below (x ∷ xs) (over, u) = (not_less a x below over, above a below xs u)

  short-IsSorted : (xs : List A) → length xs ≤ 1 → IsSorted xs
  short-IsSorted [] h = Pairwise.nil
  short-IsSorted (x ∷ []) h = Pairwise-singleton _ x
  short-IsSorted (x ∷ y ∷ xs) h = absurd (omega (arith, h))

module _ {ℓ} {A : Type ℓ} (elements : A → Option (List A)) (compare_func : A → A → ℤ) where
  -- Is an item an array?
  abbrev pub is_array : A → Bool
  is_array item = elim (elements item) [ none ↦ false | some items ↦ true ]

  concat_of-flat : (item : A) → is_array item ≡ false → concat_of elements item ≡ item ∷ []
  concat_of-flat item h = by_elements (elements item) h
    where
      by_elements :
          (o : Option (List A))
          → elim o as (λ x. Bool) [ none ↦ false | some items ↦ true ] ≡ false
          → elim o as (λ x. List A) [ none ↦ item ∷ [] | some items ↦ items ] ≡ item ∷ []
      by_elements none h = refl
      by_elements (some items) h = cc

  none-Alike : (xs : List A) → All (λ item. elements item ≡ none) xs → Alike is_array false xs
  none-Alike [] u = tt
  none-Alike (x ∷ xs) (h, u) = (rw (h, is_array) refl, none-Alike xs u)

  -- What `quickSort` makes of an array of no arrays, with that much fuel.
  record Sorted (fuel : ℕ) (xs : List A) : Type ℓ where
    result : List A
    rest : List A
    made : quick_sort_within elements compare_func fuel xs ≡ some (result, rest)
    perm : Perm result xs
    left_over : (length xs ≤ 1) × (rest ≡ xs) ⊎ ((item : A) × Perm (item ∷ rest) xs)
    sorted : IsConsistent compare_func → IsSorted compare_func result
    kept : (test : A → Bool) (answer : Bool) → Alike test answer xs → Alike test answer result

  quick_sort_within-Sorted :
      (fuel : ℕ) (xs : List A) → length xs < fuel → Alike is_array false xs → Sorted fuel xs
  unfolding quick_sort_within
  quick_sort_within-Sorted zero xs h flat = absurd (omega (arith, h))
  quick_sort_within-Sorted (suc fuel) xs h flat = elim (Bool-cases (leb (length xs) 1)) [
    | inl t ↦ record {
      result = xs;
      rest = xs;
      made = rw t refl;
      perm = Perm.refl xs;
      left_over = inl (ground (arith, t), refl);
      sorted = λ c. short-IsSorted compare_func xs (ground (arith, t));
      kept = λ test answer u. u;
    }
    | inr t ↦
        let long : 1 < length xs = ground (arith, t) in
        let s = splice-Spliced (length xs / 2) xs (omega (arith, long)) in
        let p = push_all-Parted compare_func s.item s.rest [] [] in
        let (item_flat, rest_flat) = s.kept is_array false flat in
        let (low_flat, high_flat) = p.kept is_array false rest_flat tt tt in
        let one = concat_of-flat s.item item_flat in
        let low =
          quick_sort_within-Sorted fuel (push_all compare_func s.item s.rest [] []).0
            (omega (arith, p.size, s.size, h)) low_flat in
        let high =
          quick_sort_within-Sorted fuel (push_all compare_func s.item s.rest [] []).1
            (omega (arith, p.size, s.size, h)) high_flat in
        let parts : Perm
            ((push_all compare_func s.item s.rest [] []).0
              ++ (push_all compare_func s.item s.rest [] []).1)
            s.rest =
          rw (append-nil s.rest, append-nil s.rest) at p.perm in
        record {
          result = low.result ++ s.item ∷ high.result;
          rest = s.rest;
          made = rw (t, s.taken) (rw (low.made, high.made, one) refl);
          perm = Perm.trans (perm_middle low.result high.result) (
              Perm.trans (Perm.cons s.item (Perm.trans (Perm.append low.perm high.perm) parts))
                s.perm);
          left_over = inr (s.item, s.perm);
          sorted = λ c.
              joined-IsSorted compare_func s.item low.result high.result c (low.sorted c)
                (high.sorted c) (low.kept _ true (p.lows tt)) (high.kept _ false (p.highs tt));
          kept = λ test answer u.
              let (q, v) = s.kept test answer u in
              let (a, b) = p.kept test answer v tt tt in
              All-append _ low.result (s.item ∷ high.result) (low.kept test answer a)
                (q, high.kept test answer b);
        }
  ]

  -- For an array of which no item is itself an array, and a function that compares consistently
  -- (of two items at most one is less, and what is less than a lesser item is less), `quickSort`
  -- returns an array in which no item is less than one before it.
  pub quick_sort-IsSorted :
      (array : List A)
      → All (λ item. elements item ≡ none) array
      → IsConsistent compare_func
      → (result : List A) × (rest : List A) × (quick_sort elements compare_func array
          ≡ some (result, rest))
        × IsSorted compare_func result
  unfolding quick_sort
  quick_sort-IsSorted array no_arrays c =
      let s =
        quick_sort_within-Sorted (suc (length array)) array (omega arith)
          (none-Alike array no_arrays) in
      (s.result, s.rest, s.made, s.sorted c)
