-- ===== src/Net/Packet/Whole.antt =====
-- assets/js/net.js: opening the packets that were sealed.
use cchess.Base.{
  ℕ, ◌+◌, ◌-◌, ◌<◌, ◌≡◌, ◌≢◌, refl, sym, ap, ◌∙◌, arith, Bool, true, false, List, [], ◌∷◌, ◌++◌,
  Option, some, length, length-append, take, drop, append_assoc, All, if◌then◌else◌, >>=-of,
}
use cchess.Base.Int.{ℤ, pos, negsuc}
use cchess.Net.Utf8.{utf16_to_utf8, encode_unit}
use cchess.Net.Utf8.Received.{utf16_to_utf8-Bytes}
use cchess.Net.Packet.{
  encode_type_name, k_name_len, k_checksum_len, set_uint32, set_int32, get_uint32, get_int32, slice,
  same_int, packet_body, Opened, error_message, opened, seal_packet, open_packet,
}
use cchess.Net.Packet.Fields.{
  IsInt32, get_uint32-set_uint32, get_int32-set_int32, same_int_refl, same_int_sound, Bytes,
  copy_to-Bytes, take-at, drop-at,
}

-- A buffer with the four parts of a packet, whatever its checksum.
module _ (text msg : List ℕ) (c : ℤ) (total : ℕ) where
  abbrev name_len : ℕ
  name_len = length text + 1

  abbrev array : List ℕ
  array = set_uint32 name_len ++ ((text ++ (0 ∷ [])) ++ msg)

  abbrev buffer : List ℕ
  buffer = set_uint32 total ++ (array ++ set_int32 c)

  length-array : length array ≡ 5 + length text + length msg
  unfolding set_uint32
  length-array = omega (arith, length-append (text ++ (0 ∷ [])) msg, length-append text (0 ∷ []))

  checksum_there :
      total ≡ 9 + length text + length msg → IsInt32 c → get_int32 total buffer ≡ some c
  unfolding set_uint32 set_int32
  checksum_there h fits = ap (λ (k : ℕ). get_int32 k buffer) (sym h') ∙ at_end c fits
    where
      h' : length (set_uint32 total ++ array) ≡ total
      h' = omega (arith, h, length-array)

      at_end :
          (z : ℤ)
          → IsInt32 z
          → get_int32
              (length (set_uint32 total ++ array))
              ((set_uint32 total ++ array) ++ set_int32 z)
            ≡ some z
      at_end (pos n) f = get_int32-set_int32 (set_uint32 total ++ array) [] (pos n) f
      at_end (negsuc n) f = get_int32-set_int32 (set_uint32 total ++ array) [] (negsuc n) f

  name_len_there :
      total ≡ 9 + length text + length msg
      → total < 4294967296
      → get_uint32 4 buffer ≡ some name_len
  unfolding set_uint32
  name_len_there h small =
      get_uint32-set_uint32 (set_uint32 total) (((text ++ (0 ∷ [])) ++ msg) ++ set_int32 c) name_len
        (omega (arith, h, small))

  array_there : total ≡ 9 + length text + length msg → slice 4 total buffer ≡ array
  unfolding set_uint32
  array_there h = take-at (total - 4) array (set_int32 c) (omega (arith, h, length-array))

  text_there : slice 8 (8 + name_len - 1) buffer ≡ text
  unfolding set_uint32
  text_there =
      ap (take (8 + name_len - 1 - 8)) bracketed
      ∙ take-at (8 + name_len - 1 - 8) text _ (omega arith)
    where
      bracketed :
          ((text ++ (0 ∷ [])) ++ msg) ++ set_int32 c ≡ text ++ ((0 ∷ []) ++ (msg ++ set_int32 c))
      bracketed =
          append_assoc (text ++ (0 ∷ [])) msg (set_int32 c)
          ∙ append_assoc text (0 ∷ []) (msg ++ set_int32 c)

  msg_there : total ≡ 9 + length text + length msg → slice (8 + name_len) total buffer ≡ msg
  unfolding set_uint32
  msg_there h =
      ap (take (total - (8 + name_len))) (
        ap (drop (8 + name_len)) bracketed
        ∙ drop-at (8 + name_len) before (msg ++ set_int32 c)
            (omega (arith, length-append text (0 ∷ []))))
      ∙ take-at (total - (8 + name_len)) msg (set_int32 c) (omega (arith, h))
    where
      before : List ℕ
      before = set_uint32 total ++ (set_uint32 name_len ++ (text ++ (0 ∷ [])))

      bracketed : buffer ≡ before ++ (msg ++ set_int32 c)
      bracketed =
          ap (λ (rest : List ℕ). set_uint32 total ++ (set_uint32 name_len ++ rest))
            (append_assoc (text ++ (0 ∷ [])) msg (set_int32 c))

  -- What opening the buffer gives.
  pub open_packet-buffer :
      (get_check_sum : List ℕ → ℤ)
      → total ≡ 9 + length text + length msg
      → total < 4294967296
      → IsInt32 c
      → open_packet get_check_sum buffer
        ≡ some (if same_int c (get_check_sum array) then opened text msg else error_message)
  unfolding open_packet
  open_packet-buffer get_check_sum h small fits =
      >>=-of _ (get_uint32-set_uint32 [] (array ++ set_int32 c) total small)
      ∙ >>=-of _ (name_len_there h small)
      ∙ >>=-of _ (checksum_there h fits)
      ∙ rw (array_there h, text_there, msg_there h) refl

utf16_to_utf8-append : (s t : List ℕ) → utf16_to_utf8 (s ++ t) ≡ utf16_to_utf8 s ++ utf16_to_utf8 t
unfolding utf16_to_utf8
utf16_to_utf8-append [] t = refl
utf16_to_utf8-append (c ∷ s) t =
    ap (λ (rest : List ℕ). encode_unit c ++ rest) (utf16_to_utf8-append s t)
    ∙ sym (append_assoc (encode_unit c) (utf16_to_utf8 s) (utf16_to_utf8 t))

encode_type_name-eq : (name : List ℕ) → encode_type_name name ≡ utf16_to_utf8 name ++ (0 ∷ [])
unfolding encode_type_name
encode_type_name-eq name =
    utf16_to_utf8-append name (0 ∷ [])
    ∙ ap (λ (last : List ℕ). utf16_to_utf8 name ++ last) (unfold utf16_to_utf8 encode_unit in refl)

All-append : (xs ys : List ℕ) → Bytes xs → Bytes ys → Bytes (xs ++ ys)
All-append [] ys h k = k
All-append (x ∷ xs) ys (small, h) k = (small, All-append xs ys h k)

packet_body-Bytes : (name msg : List ℕ) → Bytes name → Bytes msg → Bytes (packet_body name msg)
unfolding packet_body set_uint32
packet_body-Bytes name msg h k =
    rw (copy_to-Bytes name h, copy_to-Bytes msg k)
      (omega arith, (omega arith, (omega arith, (omega arith, All-append name msg h k))))

-- A sealed packet has the four parts, with its own checksum.
module _ (get_check_sum : List ℕ → ℤ) (name msg : List ℕ) (units : All (λ code. code < 65536) name)
    (bytes : Bytes msg) where
  abbrev text : List ℕ
  text = utf16_to_utf8 name

  abbrev whole : ℕ
  whole = 9 + length text + length msg

  text-Bytes : Bytes (text ++ (0 ∷ []))
  text-Bytes = All-append text (0 ∷ []) (utf16_to_utf8-Bytes name units) (omega arith, tt)

  packet_body-array : packet_body (encode_type_name name) msg ≡ array text msg (pos 0) whole
  unfolding packet_body
  packet_body-array =
      rw
        (
          encode_type_name-eq name,
          copy_to-Bytes (text ++ (0 ∷ [])) text-Bytes,
          copy_to-Bytes msg bytes,
        )
        (ap (λ (n : ℕ). set_uint32 n ++ ((text ++ (0 ∷ [])) ++ msg)) (length-append text (0 ∷ [])))

  array-Bytes : Bytes (array text msg (pos 0) whole)
  unfolding set_uint32
  array-Bytes = (
    omega arith,
    (omega arith, (omega arith, (omega arith, All-append (text ++ (0 ∷ [])) msg text-Bytes bytes))),
  )

  whole-eq : k_name_len + length (encode_type_name name) + length msg + k_checksum_len ≡ whole
  whole-eq = rw (encode_type_name-eq name) (omega (arith, length-append text (0 ∷ [])))

  pub seal_packet-buffer :
      seal_packet get_check_sum (encode_type_name name) msg
      ≡ buffer text msg (get_check_sum (array text msg (pos 0) whole)) whole
  unfolding seal_packet
  seal_packet-buffer =
      rw (whole-eq, packet_body-array, copy_to-Bytes (array text msg (pos 0) whole) array-Bytes)
        refl

-- With a checksum of 32 bits, a name of 16-bit units, a message of bytes and a packet below 2 to
-- the 32 bytes, the packet that is sealed around the name and the message opens, and gives the
-- bytes of the name, without its closing zero, and those of the message.
pub open_packet-seal_packet :
    (get_check_sum : List ℕ → ℤ) (name msg : List ℕ)
    → ((bytes : List ℕ) → IsInt32 (get_check_sum bytes))
    → All (λ code. code < 65536) name
    → Bytes msg
    → 9 + length (utf16_to_utf8 name) + length msg < 4294967296
    → open_packet get_check_sum (seal_packet get_check_sum (encode_type_name name) msg)
      ≡ some (opened (utf16_to_utf8 name) msg)
open_packet-seal_packet get_check_sum name msg fits units bytes small =
    let body : List ℕ = array (utf16_to_utf8 name) msg (pos 0) 0 in
    ap (open_packet get_check_sum) (seal_packet-buffer get_check_sum name msg units bytes)
    ∙ open_packet-buffer (utf16_to_utf8 name) msg (get_check_sum body)
        (9 + length (utf16_to_utf8 name) + length msg) get_check_sum refl small (fits body)
    ∙ rw (same_int_refl (get_check_sum body)) refl

-- A packet below 2 to the 32 bytes whose checksum field holds a 32-bit number other than the
-- checksum of its body is answered with the error message and no message is read from it.
pub open_packet-error_message :
    (get_check_sum : List ℕ → ℤ) (text msg : List ℕ) (checksum : ℤ)
    → 9 + length text + length msg < 4294967296
    → IsInt32 checksum
    → checksum ≢ get_check_sum (set_uint32 (length text + 1) ++ ((text ++ (0 ∷ [])) ++ msg))
    → open_packet get_check_sum (
        set_uint32 (9 + length text + length msg)
        ++ ((set_uint32 (length text + 1) ++ ((text ++ (0 ∷ [])) ++ msg)) ++ set_int32 checksum))
      ≡ some error_message
open_packet-error_message get_check_sum text msg checksum small fits differs =
    open_packet-buffer text msg checksum (9 + length text + length msg) get_check_sum refl small
      fits
    ∙ by_test (same_int checksum (get_check_sum (array text msg (pos 0) 0))) refl
  where
    by_test :
        (t : Bool)
        → same_int checksum (get_check_sum (array text msg (pos 0) 0)) ≡ t
        → ◌≡◌ {A = Option Opened}
            (some (if t then opened text msg else error_message))
            (some error_message)
    by_test true e = absurd (differs (same_int_sound _ _ e))
    by_test false e = refl
