-- ===== src/Net/Packet/Fields.antt =====
-- assets/js/net.js: the numbers and the bytes of a packet, written and read.
use cchess.Base.{
  ℕ, suc, ◌-◌, ◌%◌, ◌<◌, ◌≡◌, refl, ap, ap₂, ◌∙◌, arith, true, List, [], ◌∷◌, ◌++◌, some, length,
  take, drop, take-append, drop-append, All, ==_iff, >>=-of,
}
use cchess.Base.Int.{ℤ, pos, negsuc}
use cchess.Net.Packet.{set_uint32, set_int32, get_uint32, signed, get_int32, copy_to, same_int}

-- The numbers that fit in 32 bits with a sign.
abbrev pub IsInt32 : ℤ → Type 0
IsInt32 (pos n) = n < 2147483648
IsInt32 (negsuc n) = n < 2147483648

pub get_uint32-set_uint32 :
    (before rest : List ℕ) (n : ℕ)
    → n < 4294967296
    → get_uint32 (length before) (before ++ (set_uint32 n ++ rest)) ≡ some n
unfolding get_uint32 set_uint32
get_uint32-set_uint32 before rest n h =
    rw (drop-append before (set_uint32 n ++ rest)) (ap some (omega (arith, h)))

pub get_int32-set_int32 :
    (before rest : List ℕ) (z : ℤ)
    → IsInt32 z
    → get_int32 (length before) (before ++ (set_int32 z ++ rest)) ≡ some z
unfolding get_int32 set_int32 signed
get_int32-set_int32 before rest (pos n) h =
    >>=-of _ (get_uint32-set_uint32 before rest n (omega (arith, h))) ∙ ap some (ground (arith, h))
get_int32-set_int32 before rest (negsuc n) h =
    >>=-of _ (get_uint32-set_uint32 before rest (4294967295 - n % 4294967296) (omega (arith, h)))
    ∙ ap some (ground (arith, h))

pub same_int_refl : (z : ℤ) → same_int z z ≡ true
same_int_refl (pos n) = (==_iff n n).1 refl
same_int_refl (negsuc n) = (==_iff n n).1 refl

pub same_int_sound : (x y : ℤ) → same_int x y ≡ true → x ≡ y
same_int_sound (pos m) (pos n) h = ap pos ((==_iff m n).0 h)
same_int_sound (negsuc m) (negsuc n) h = ap negsuc ((==_iff m n).0 h)
same_int_sound (pos m) (negsuc n) h = cc
same_int_sound (negsuc m) (pos n) h = cc

abbrev pub Bytes : List ℕ → Type 0
Bytes = All (λ n. n < 256)

pub copy_to-Bytes : (bytes : List ℕ) → Bytes bytes → copy_to bytes ≡ bytes
unfolding copy_to
copy_to-Bytes [] h = refl
copy_to-Bytes (n ∷ bytes) (small, h) =
    ap₂ (λ (m : ℕ) (rest : List ℕ). m ∷ rest) (omega (arith, small)) (copy_to-Bytes bytes h)

pub length-copy_to : (bytes : List ℕ) → length (copy_to bytes) ≡ length bytes
unfolding copy_to
length-copy_to [] = refl
length-copy_to (n ∷ bytes) = ap suc (length-copy_to bytes)

pub copy_to_twice : (bytes : List ℕ) → copy_to (copy_to bytes) ≡ copy_to bytes
unfolding copy_to
copy_to_twice [] = refl
copy_to_twice (n ∷ bytes) =
    ap₂ (λ (m : ℕ) (rest : List ℕ). m ∷ rest) (omega arith) (copy_to_twice bytes)

pub take-at : (k : ℕ) (xs ys : List ℕ) → k ≡ length xs → take k (xs ++ ys) ≡ xs
take-at k xs ys h = rw h (take-append xs ys)

pub drop-at : (k : ℕ) (xs ys : List ℕ) → k ≡ length xs → drop k (xs ++ ys) ≡ ys
drop-at k xs ys h = rw h (drop-append xs ys)
