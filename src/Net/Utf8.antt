-- ===== src/Net/Utf8.antt =====
-- assets/js/net.js: `utf16ToUtf8` and `utf8ToUtf16`. A string is the list of its 16-bit units, an
-- array of bytes the list of its numbers.
pub mod Digits
pub mod Received
use cchess.Base.{
  ℕ, zero, suc, ◌+◌, ◌-◌, ◌/◌, ◌%◌, bit_and, bit_or, Bool, true, false, ◌&&◌, ◌||◌, List, [], ◌∷◌,
  ◌++◌, Option, none, some, length, drop, ltb, leb, ◌==◌, if◌then◌else◌, ◌>>=◌,
}

-- `n.toString(2)` for a number of at most `size` digits, the highest first.
unfoldable pub digits : ℕ → ℕ → List Bool
digits zero n = []
digits (suc size) n =
    let higher = digits size (n / 2) in
    if ltb n 2 then (n == 1) ∷ [] else higher ++ ((n % 2 == 1) ∷ [])

abbrev pub to_string_2 : ℕ → List Bool
to_string_2 byte = digits 8 byte

-- The ones before the first zero.
unfoldable pub ones_before_zero : List Bool → Option ℕ
ones_before_zero [] = none
ones_before_zero (false ∷ rest) = some 0
ones_before_zero (true ∷ rest) = ones_before_zero rest >>= λ n. some (suc n)

-- `one.match(/^1+?(?=0)/)`, the length of the match.
unfoldable pub match_ones : List Bool → Option ℕ
match_ones one = elim (ones_before_zero one) [
  | none ↦ none
  | some n ↦ if n == 0 then none else some n
]

-- `parseInt(store, 2)`
unfoldable pub place_value : List Bool → ℕ
place_value [] = 1
place_value (d ∷ rest) = place_value rest + place_value rest

unfoldable pub parse_int_2 : List Bool → ℕ
parse_int_2 [] = 0
parse_int_2 (d ∷ rest) = (if d then place_value rest else 0) + parse_int_2 rest

-- The digits that `count` more bytes add to `store`, and the bytes after them; with too few bytes
-- left the loop reads `undefined` and throws.
unfoldable pub continued : ℕ → List ℕ → Option (List Bool × List ℕ)
continued zero bytes = some ([], bytes)
continued (suc count) [] = none
continued (suc count) (byte ∷ bytes) = do
  (store, rest) ← continued count bytes
  some (drop 2 (to_string_2 byte) ++ store, rest)

-- `String.fromCharCode`
abbrev pub from_char_code : ℕ → ℕ
from_char_code n = n % 65536

-- One round of `utf8ToUtf16`: the unit that a byte and those after it give, and the bytes left.
unfoldable pub unit_at : ℕ → List ℕ → Option (ℕ × List ℕ)
unit_at byte bytes =
    let one : List Bool = to_string_2 byte in
    elim (match_ones one) [
      | none ↦ some (from_char_code byte, bytes)
      | some bytes_length ↦
          if length one == 8
          then (continued (bytes_length - 1) bytes >>= λ (store, rest).
              some (from_char_code (parse_int_2 (drop (7 - bytes_length) one ++ store)), rest))
          else some (from_char_code byte, bytes)
    ]

-- The loop, with one round for each byte at most.
unfoldable pub units_from : ℕ → List ℕ → Option (List ℕ)
units_from rounds [] = some []
units_from zero (byte ∷ bytes) = none
units_from (suc rounds) (byte ∷ bytes) = do
  (unit, rest) ← unit_at byte bytes
  units ← units_from rounds rest
  some (unit ∷ units)

unfoldable pub utf8_to_utf16 : List ℕ → Option (List ℕ)
utf8_to_utf16 utf8_arr = units_from (length utf8_arr) utf8_arr

-- The bytes of one unit. The last case is never taken: `charCodeAt` gives at most 0xffff.
unfoldable pub encode_unit : ℕ → List ℕ
encode_unit code =
    if leb code 0x7f
    then code ∷ []
    else (if leb code 0x7ff
        then bit_or 192 (bit_and (code / 64) 31) ∷ bit_or 128 (bit_and code 63) ∷ []
        else (if leb code 0xd7ff || (leb 0xe000 code && leb code 0xffff)
            then bit_or 224 (bit_and (code / 4096) 15)
              ∷ bit_or 128 (bit_and (code / 64) 63)
              ∷ bit_or 128 (bit_and code 63)
              ∷ []
            else (if leb 0x10000 code && leb code 0x10ffff
                then bit_or 240 (bit_and (code / 262144) 7)
                  ∷ bit_or 128 (bit_and (code / 4096) 63)
                  ∷ bit_or 128 (bit_and (code / 64) 63)
                  ∷ bit_or 128 (bit_and code 63)
                  ∷ []
                else [])))

unfoldable pub utf16_to_utf8 : List ℕ → List ℕ
utf16_to_utf8 [] = []
utf16_to_utf8 (code ∷ utf16_str) = encode_unit code ++ utf16_to_utf8 utf16_str
