-- ===== src/Net/Utf8/Received.antt =====
-- assets/js/net.js: what `utf8ToUtf16` makes of the bytes that `utf16ToUtf8` writes.
use cchess.Base.{
  ℕ, zero, suc, ◌+◌, ◌*◌, ◌/◌, ◌%◌, ◌<◌, ◌≤◌, ◌≡◌, refl, ap, ◌∙◌, ◌⊎◌, inl, inr, arith, bit_or,
  Bool, ◌&&◌, List, [], ◌∷◌, ◌++◌, some, length, length-append, drop, All, leb, if◌then◌else◌,
  >>=-of, Option-cases, Bool-cases,
}
use cchess.Base.Bits.{bit_and_0x0f, bit_and_0x1f, bit_and_0x3f}
use cchess.Net.Utf8.{
  to_string_2, match_ones, continued, unit_at, units_from, utf8_to_utf16, encode_unit,
  utf16_to_utf8,
}
use cchess.Net.Utf8.Digits.{
  to_string_2-short, parse_int_2-two, parse_int_2-three, two-Lead, two_low, three_low, go_on_low,
  three-Lead, bit_or-Six,
}

-- Half of a surrogate pair.
abbrev pub is_surrogate : ℕ → Bool
is_surrogate code = leb 0xd800 code && leb code 0xdfff

-- What arrives of one unit: nothing of a surrogate, and only the low nine bits of a unit that takes
-- two bytes.
abbrev pub received_unit : ℕ → List ℕ
received_unit code =
    if is_surrogate code
    then []
    else (if leb 0x80 code && leb code 0x7ff then code % 512 ∷ [] else code ∷ [])

abbrev pub received : List ℕ → List ℕ
received [] = []
received (code ∷ text) = received_unit code ++ received text

unit_at-short : (b : ℕ) (bytes : List ℕ) → b < 128 → unit_at b bytes ≡ some (b, bytes)
unfolding unit_at
unit_at-short b bytes h = elim (Option-cases (match_ones (to_string_2 b))) [
  | inl e ↦ rw (e, unit_at) (ap (λ (c : ℕ). some (c, bytes)) (omega arith))
  | inr (n, e) ↦
      rw (e, to_string_2-short b h, unit_at) (ap (λ (c : ℕ). some (c, bytes)) (omega arith))
]

unit_at-two :
    (a d : ℕ) (rest : List ℕ)
    → a < 32
    → d < 64
    → unit_at (bit_or 192 a) (bit_or 128 d ∷ rest) ≡ some (a % 8 * 64 + d, rest)
unfolding unit_at continued
unit_at-two a d rest ha hd =
    let lead = two-Lead a ha in
    let value =
      parse_int_2-two (drop 5 (to_string_2 (bit_or 192 a))) (bit_or 128 d) d (bit_or-Six d hd) in
    rw (lead.matched, lead.long, unit_at)
      (ap (λ (c : ℕ). some (c, rest)) (omega (arith, value, lead.worth)))

unit_at-three :
    (a d e : ℕ) (rest : List ℕ)
    → a < 16
    → d < 64
    → e < 64
    → unit_at (bit_or 224 a) (bit_or 128 d ∷ bit_or 128 e ∷ rest)
      ≡ some ((a * 64 + d) * 64 + e, rest)
unfolding unit_at continued
unit_at-three a d e rest ha hd he =
    let lead = three-Lead a ha in
    let value =
      parse_int_2-three (drop 4 (to_string_2 (bit_or 224 a))) (bit_or 128 d) d (bit_or 128 e) e
        (bit_or-Six d hd) (bit_or-Six e he) in
    rw (lead.matched, lead.long, unit_at)
      (ap (λ (c : ℕ). some (c, rest)) (omega (arith, value, lead.worth)))

-- One round reads what one unit wrote.
units_from-unit :
    (rounds : ℕ) (byte : ℕ) (more rest : List ℕ) (unit : ℕ) {units : List ℕ}
    → unit_at byte (more ++ rest) ≡ some (unit, rest)
    → units_from rounds rest ≡ some units
    → units_from (suc rounds) (byte ∷ (more ++ rest)) ≡ some (unit ∷ units)
unfolding units_from
units_from-unit rounds byte more rest unit e f = >>=-of _ e ∙ >>=-of _ f

-- The bytes of a unit, by the range in which it lies.
data Shape (code : ℕ) : Type 0 where
  one_byte : code < 128 → encode_unit code ≡ code ∷ [] → received_unit code ≡ code ∷ [] → Shape code
  two_bytes :
      code < 2048
      → encode_unit code ≡ bit_or 192 (code / 64 % 32) ∷ bit_or 128 (code % 64) ∷ []
      → received_unit code ≡ code % 512 ∷ []
      → Shape code
  three_bytes :
      code < 65536
      → encode_unit code
        ≡ bit_or 224 (code / 4096 % 16) ∷ bit_or 128 (code / 64 % 64) ∷ bit_or 128 (code % 64) ∷ []
      → received_unit code ≡ code ∷ []
      → Shape code
  no_bytes : encode_unit code ≡ [] → received_unit code ≡ [] → Shape code

le_cases : (m n : ℕ) → (m ≤ n) ⊎ (n < m)
le_cases m n = elim (Bool-cases (leb m n)) [
  | inl e ↦ inl (ground arith)
  | inr e ↦ inr (ground arith)
]

encode_unit-Shape : (code : ℕ) → code < 65536 → Shape code
unfolding encode_unit
encode_unit-Shape code h = elim (le_cases code 0x7f) [
  | inl l ↦ one_byte (omega (arith, l)) (ground (arith, l)) (ground (arith, l))
  | inr l ↦ elim (le_cases code 0x7ff) [
    | inl m ↦
        two_bytes (omega (arith, m))
          (rw (← bit_and_0x1f (code / 64), ← bit_and_0x3f code) (ground (arith, l, m)))
          (ground (arith, l, m))
    | inr m ↦ elim (Bool-cases (is_surrogate code)) [
      | inl e ↦ no_bytes (ground (arith, l, m, e)) (ground (arith, e))
      | inr e ↦
          three_bytes h
            (rw (← bit_and_0x0f (code / 4096), ← bit_and_0x3f (code / 64), ← bit_and_0x3f code)
              (ground (arith, l, m, e)))
            (ground (arith, l, m, e))
    ]
  ]
]

units_from-received :
    (text : List ℕ) (rounds : ℕ)
    → All (λ code. code < 65536) text
    → length (utf16_to_utf8 text) ≤ rounds
    → units_from rounds (utf16_to_utf8 text) ≡ some (received text)
unfolding utf16_to_utf8
units_from-received [] rounds h enough = unfold units_from in refl
units_from-received (code ∷ text) rounds (small, h) enough =
    by_shape (encode_unit-Shape code small) rounds
      (omega (arith, enough, length-append (encode_unit code) (utf16_to_utf8 text)))
      (λ k. units_from-received text k h)
  where
    rest : List ℕ
    rest = utf16_to_utf8 text

    by_shape :
        Shape code
        → (k : ℕ) → length (encode_unit code) + length rest ≤ k
        → ((k : ℕ) → length rest ≤ k → units_from k rest ≡ some (received text))
        → units_from k (encode_unit code ++ rest) ≡ some (received_unit code ++ received text)
    by_shape (no_bytes e f) k le later = rw (e, f) (later k (omega (arith, le)))
    by_shape (one_byte l e f) zero le later = absurd (omega (arith, le, ap length e))
    by_shape (one_byte l e f) (suc k) le later =
        rw (e, f)
          (units_from-unit k code [] rest code (unit_at-short code rest l)
            (later k (omega (arith, le, ap length e))))
    by_shape (two_bytes l e f) zero le later = absurd (omega (arith, le, ap length e))
    by_shape (two_bytes l e f) (suc k) le later =
        rw (e, f)
          (units_from-unit k (bit_or 192 (code / 64 % 32)) (bit_or 128 (code % 64) ∷ []) rest
            (code % 512)
            (unit_at-two (code / 64 % 32) (code % 64) rest (omega arith) (omega arith)
              ∙ ap (λ (u : ℕ). some (u, rest)) (omega arith))
            (later k (omega (arith, le, ap length e))))
    by_shape (three_bytes l e f) zero le later = absurd (omega (arith, le, ap length e))
    by_shape (three_bytes l e f) (suc k) le later =
        rw (e, f)
          (units_from-unit k (bit_or 224 (code / 4096 % 16))
            (bit_or 128 (code / 64 % 64) ∷ bit_or 128 (code % 64) ∷ []) rest code
            (unit_at-three (code / 4096 % 16) (code / 64 % 64) (code % 64) rest (omega arith)
                (omega arith) (omega arith)
              ∙ ap (λ (u : ℕ). some (u, rest)) (omega (arith, l)))
            (later k (omega (arith, le, ap length e))))

-- The bytes of a unit are below 256.
encode_unit-Bytes :
    (code : ℕ) (rest : List ℕ)
    → code < 65536
    → All (λ n. n < 256) rest
    → All (λ n. n < 256) (encode_unit code ++ rest)
encode_unit-Bytes code rest h ok = by_shape (encode_unit-Shape code h)
  where
    by_shape : Shape code → All (λ n. n < 256) (encode_unit code ++ rest)
    by_shape (no_bytes e f) = rw e ok
    by_shape (one_byte l e f) = rw e (omega (arith, l), ok)
    by_shape (two_bytes l e f) =
        rw e (two_low (code / 64 % 32) (omega arith), (go_on_low (code % 64) (omega arith), ok))
    by_shape (three_bytes l e f) = rw e (
      three_low (code / 4096 % 16) (omega arith),
      (go_on_low (code / 64 % 64) (omega arith), (go_on_low (code % 64) (omega arith), ok)),
    )

-- For a text of 16-bit units `utf16ToUtf8` gives numbers below 256 only.
pub utf16_to_utf8-Bytes :
    (text : List ℕ) → All (λ code. code < 65536) text → All (λ n. n < 256) (utf16_to_utf8 text)
unfolding utf16_to_utf8
utf16_to_utf8-Bytes [] h = tt
utf16_to_utf8-Bytes (code ∷ text) (small, h) =
    encode_unit-Bytes code (utf16_to_utf8 text) small (utf16_to_utf8-Bytes text h)

-- For a text of 16-bit units, `utf8ToUtf16` of `utf16ToUtf8` gives the text as it is received:
-- surrogates are gone, a unit from 0x80 to 0x7ff is reduced modulo 512, and every other unit is
-- as it was.
pub utf8_to_utf16-utf16_to_utf8 :
    (text : List ℕ)
    → All (λ code. code < 65536) text
    → utf8_to_utf16 (utf16_to_utf8 text) ≡ some (received text)
unfolding utf8_to_utf16
utf8_to_utf16-utf16_to_utf8 text h =
    units_from-received text (length (utf16_to_utf8 text)) h (omega arith)
