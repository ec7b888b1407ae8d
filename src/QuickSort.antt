-- ===== src/QuickSort.antt =====
-- assets/js/utils.js: `quickSort`, for items of any type, of which some may be arrays, and any function
-- that compares two items.
pub mod Parts
pub mod Sorts
use cchess.Base.{
  ℕ, zero, suc, ◌/◌, Bool, true, false, List, [], ◌∷◌, ◌++◌, Option, none, some, if◌then◌else◌,
  ◌>>=◌, leb, length,
}
use cchess.Base.Int.{ℤ, pos, negsuc}

-- `splice(index, 1)`: the item taken out, and the array that is left.
unfoldable pub splice {ℓ} : {A : Type ℓ} → ℕ → List A → Option (A × List A)
splice i [] = none
splice zero (x ∷ xs) = some (x, xs)
splice (suc i) (x ∷ xs) = splice i xs >>= λ (item, rest). some (item, x ∷ rest)

-- What `concat` appends of an argument: the elements of an array, and any other item itself.
-- `elements` tells the elements of an item that is an array.
abbrev pub concat_of {ℓ} : {A : Type ℓ} → (A → Option (List A)) → A → List A
concat_of elements item = elim (elements item) [ none ↦ item ∷ [] | some items ↦ items ]

module _ {ℓ} {A : Type ℓ} (compare_func : A → A → ℤ) where
  -- `compareFunc(item, pivot) < 0`
  unfoldable pub is_less : A → A → Bool
  is_less item pivot = elim (compare_func item pivot) [ pos n ↦ false | negsuc n ↦ true ]

  -- The loop of `forEach`, which pushes each item onto `left` or `right`.
  unfoldable pub push_all : A → List A → List A → List A → List A × List A
  push_all pivot [] left right = (left, right)
  push_all pivot (item ∷ items) left right = elim (is_less item pivot) [
    | true ↦ push_all pivot items (left ++ item ∷ []) right
    | false ↦ push_all pivot items left (right ++ item ∷ [])
  ]

module _ {ℓ} {A : Type ℓ} (elements : A → Option (List A)) (compare_func : A → A → ℤ) where
  -- The array that is returned, and what is left of the argument, which `splice` shortens.
  unfoldable pub quick_sort_within : ℕ → List A → Option (List A × List A)
  quick_sort_within zero array = none
  quick_sort_within (suc fuel) array =
      let parted = splice (length array / 2) array >>= λ (pivot, rest).
      let (left, right) = push_all compare_func pivot rest [] [] in
      quick_sort_within fuel left >>= λ (low, _). quick_sort_within fuel right >>= λ (high, _).
      some (low ++ (concat_of elements pivot ++ high), rest) in
      if leb (length array) 1 then some (array, array) else parted

  -- `quickSort`
  unfoldable pub quick_sort : List A → Option (List A × List A)
  quick_sort array = quick_sort_within (suc (length array)) array
