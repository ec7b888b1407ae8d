-- ===== src/Net/Utf8/Digits.antt =====
-- assets/js/net.js: the binary digits that `utf8ToUtf16` takes from the bytes of `utf16ToUtf8`.
use cchess.Base.{
  ℕ, ◌+◌, ◌-◌, ◌*◌, ◌%◌, ◌<◌, ◌≡◌, refl, ap, arith, bit_or, Bool, true, false, not, ◌&&◌, List, [],
  ◌∷◌, ◌++◌, Option, none, some, length, drop, ltb, append_assoc, ◌==◌, ==_iff, holds_below,
  holds_below-at,
}
use cchess.Net.Utf8.{digits, to_string_2, ones_before_zero, match_ones, place_value, parse_int_2}

-- A string of digits before six others.
pub place_value-append :
    (xs ys : List Bool) → place_value ys ≡ 64 → place_value (xs ++ ys) ≡ place_value xs * 64
unfolding place_value
place_value-append [] ys h = omega (arith, h)
place_value-append (x ∷ xs) ys h = omega (arith, place_value-append xs ys h)

pub parse_int_2-append :
    (xs ys : List Bool)
    → place_value ys ≡ 64
    → parse_int_2 (xs ++ ys) ≡ parse_int_2 xs * 64 + parse_int_2 ys
unfolding parse_int_2
parse_int_2-append [] ys h = omega arith
parse_int_2-append (true ∷ xs) ys h =
    omega (arith, place_value-append xs ys h, parse_int_2-append xs ys h)
parse_int_2-append (false ∷ xs) ys h = omega (arith, parse_int_2-append xs ys h)

abbrev is_numbered : ℕ → Option ℕ → Bool
is_numbered n none = false
is_numbered n (some m) = m == n

is_numbered-eq : (n : ℕ) (o : Option ℕ) → is_numbered n o ≡ true → o ≡ some n
is_numbered-eq n none h = cc
is_numbered-eq n (some m) h = ap some ((==_iff m n).0 h)

both : (x y : Bool) → (x && y) ≡ true → (x ≡ true) × (y ≡ true)
both true true h = (refl, refl)
both true false h = cc
both false y h = cc

-- A single byte is not eight digits long.
short_table : holds_below (λ b. not (length (to_string_2 b) == 8)) 128 ≡ true
unfolding holds_below digits
short_table = refl

pub to_string_2-short : (b : ℕ) → b < 128 → (length (to_string_2 b) == 8) ≡ false
to_string_2-short b h = flip (length (to_string_2 b) == 8) (holds_below-at _ b h short_table)
  where
    flip : (t : Bool) → not t ≡ true → t ≡ false
    flip true e = cc
    flip false e = refl

-- What the first byte of several says: how many there are, and its digits' value.
pub record Lead (count : ℕ) (byte value : ℕ) : Type 0 where
  pub matched : match_ones (to_string_2 byte) ≡ some count
  pub long : (length (to_string_2 byte) == 8) ≡ true
  pub worth : parse_int_2 (drop (7 - count) (to_string_2 byte)) ≡ value

abbrev leads : ℕ → ℕ → ℕ → Bool
leads count byte value =
    is_numbered count (match_ones (to_string_2 byte))
    && ((length (to_string_2 byte) == 8)
        && (parse_int_2 (drop (7 - count) (to_string_2 byte)) == value))

leads-Lead : (count byte value : ℕ) → leads count byte value ≡ true → Lead count byte value
leads-Lead count byte value h =
    let (first, rest) = both _ _ h in
    let (second, third) = both _ _ rest in
    record {
      matched = is_numbered-eq count (match_ones (to_string_2 byte)) first;
      long = second;
      worth = (==_iff (parse_int_2 (drop (7 - count) (to_string_2 byte))) value).0 third;
    }

two_table : holds_below (λ a. leads 2 (bit_or 192 a) (a % 8)) 32 ≡ true
unfolding holds_below digits match_ones ones_before_zero parse_int_2 place_value
two_table = refl

pub two-Lead : (a : ℕ) → a < 32 → Lead 2 (bit_or 192 a) (a % 8)
two-Lead a h = leads-Lead 2 (bit_or 192 a) (a % 8) (holds_below-at _ a h two_table)

three_table : holds_below (λ a. leads 3 (bit_or 224 a) a) 16 ≡ true
unfolding holds_below digits match_ones ones_before_zero parse_int_2 place_value
three_table = refl

pub three-Lead : (a : ℕ) → a < 16 → Lead 3 (bit_or 224 a) a
three-Lead a h = leads-Lead 3 (bit_or 224 a) a (holds_below-at _ a h three_table)

-- The six digits of a byte that goes on.
pub record Six (byte value : ℕ) : Type 0 where
  pub place : place_value (drop 2 (to_string_2 byte)) ≡ 64
  pub worth : parse_int_2 (drop 2 (to_string_2 byte)) ≡ value

six_table :
    holds_below
      (λ a.
        (place_value (drop 2 (to_string_2 (bit_or 128 a))) == 64)
        && (parse_int_2 (drop 2 (to_string_2 (bit_or 128 a))) == a))
      64
    ≡ true
unfolding holds_below digits parse_int_2 place_value
six_table = refl

pub bit_or-Six : (a : ℕ) → a < 64 → Six (bit_or 128 a) a
bit_or-Six a h =
    let (first, second) = both _ _ (holds_below-at _ a h six_table) in
    record {
      place = (==_iff (place_value (drop 2 (to_string_2 (bit_or 128 a)))) 64).0 first;
      worth = (==_iff (parse_int_2 (drop 2 (to_string_2 (bit_or 128 a)))) a).0 second;
    }

append-nil : (xs : List Bool) → xs ++ [] ≡ xs
append-nil [] = refl
append-nil (x ∷ xs) = ap (λ (rest : List Bool). x ∷ rest) (append-nil xs)

-- The digits of a first byte and of one more, or of two more.
pub parse_int_2-two :
    (xs : List Bool) (byte d : ℕ)
    → Six byte d
    → parse_int_2 (xs ++ (drop 2 (to_string_2 byte) ++ [])) ≡ parse_int_2 xs * 64 + d
parse_int_2-two xs byte d six =
    rw (append-nil (drop 2 (to_string_2 byte)))
      (omega (arith, six.worth, parse_int_2-append xs (drop 2 (to_string_2 byte)) six.place))

pub parse_int_2-three :
    (xs : List Bool) (byte d byte' e : ℕ)
    → Six byte d
    → Six byte' e
    → parse_int_2 (xs ++ (drop 2 (to_string_2 byte) ++ (drop 2 (to_string_2 byte') ++ [])))
      ≡ (parse_int_2 xs * 64 + d) * 64 + e
parse_int_2-three xs byte d byte' e six six' =
    rw (← append_assoc xs (drop 2 (to_string_2 byte)) (drop 2 (to_string_2 byte') ++ [])) (
      omega (
        arith,
        six.worth,
        parse_int_2-append xs (drop 2 (to_string_2 byte)) six.place,
        parse_int_2-two (xs ++ drop 2 (to_string_2 byte)) byte' e six',
      ))

two_low_table : holds_below (λ a. ltb (bit_or 192 a) 256) 32 ≡ true
unfolding holds_below
two_low_table = refl

pub two_low : (a : ℕ) → a < 32 → bit_or 192 a < 256
two_low a h = let t = holds_below-at (λ n. ltb (bit_or 192 n) 256) a h two_low_table in ground arith

three_low_table : holds_below (λ a. ltb (bit_or 224 a) 256) 16 ≡ true
unfolding holds_below
three_low_table = refl

pub three_low : (a : ℕ) → a < 16 → bit_or 224 a < 256
three_low a h =
    let t = holds_below-at (λ n. ltb (bit_or 224 n) 256) a h three_low_table in ground arith

go_on_low_table : holds_below (λ a. ltb (bit_or 128 a) 256) 64 ≡ true
unfolding holds_below
go_on_low_table = refl

pub go_on_low : (a : ℕ) → a < 64 → bit_or 128 a < 256
go_on_low a h =
    let t = holds_below-at (λ n. ltb (bit_or 128 n) 256) a h go_on_low_table in ground arith
