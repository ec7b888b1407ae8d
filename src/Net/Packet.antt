-- ===== src/Net/Packet.antt =====
-- assets/js/net.js: the packets of `ProtobufMesssageEncode` and `ProtobufMesssageDecode`, as lists of
-- bytes. A packet is a length, the length of the type's name, the name with a 0 after it, the
-- message and a checksum. The checksum `ADLER32.buf(data, 1)` is a parameter.
pub mod Fields
pub mod Whole
use cchess.Base.{
  ℕ, zero, suc, ◌+◌, ◌-◌, ◌*◌, ◌/◌, ◌%◌, ◌<◌, Bool, true, false, ◌&&◌, List, [], ◌∷◌, ◌++◌, Option,
  none, some, map, length, take, drop, ltb, ◌==◌, if◌then◌else◌, ◌>>=◌,
}
use cchess.Base.Int.{ℤ, pos, negsuc}
use cchess.Net.Utf8.{utf16_to_utf8, utf8_to_utf16}

abbrev pub k_head_len : ℕ
k_head_len = 4

abbrev pub k_name_len : ℕ
k_name_len = 4

abbrev pub k_checksum_len : ℕ
k_checksum_len = 4

-- `setUint32`: four bytes, the highest first.
unfoldable pub set_uint32 : ℕ → List ℕ
set_uint32 n = n / 16777216 % 256 ∷ n / 65536 % 256 ∷ n / 256 % 256 ∷ n % 256 ∷ []

-- `setInt32`: the two's complement.
unfoldable pub set_int32 : ℤ → List ℕ
set_int32 (pos n) = set_uint32 n
set_int32 (negsuc n) = set_uint32 (4294967295 - n % 4294967296)

-- `getUint32`; past the end of the buffer it throws.
unfoldable pub get_uint32 : ℕ → List ℕ → Option ℕ
get_uint32 offset buffer = word (drop offset buffer)
  where
    word : List ℕ → Option ℕ
    word (a ∷ b ∷ c ∷ d ∷ rest) = some (a * 16777216 + b * 65536 + c * 256 + d)
    word _ = none

-- `getInt32`
unfoldable pub signed : ℕ → ℤ
signed n = if ltb n 2147483648 then pos n else negsuc (4294967295 - n)

unfoldable pub get_int32 : ℕ → List ℕ → Option ℤ
get_int32 offset buffer = get_uint32 offset buffer >>= λ n. some (signed n)

-- `copyTo`, which stores each number as a byte.
unfoldable pub copy_to : List ℕ → List ℕ
copy_to = map (λ n. n % 256)

-- `buffer.slice(begin, end)`
abbrev pub slice : ℕ → ℕ → List ℕ → List ℕ
slice begin end buffer = take (end - begin) (drop begin buffer)

abbrev pub same_int : ℤ → ℤ → Bool
same_int (pos m) (pos n) = m == n
same_int (negsuc m) (negsuc n) = m == n
same_int _ _ = false

-- `encodeTypeName` and `decodeTypeName`
unfoldable pub encode_type_name : List ℕ → List ℕ
encode_type_name msg_type = utf16_to_utf8 (msg_type ++ (0 ∷ []))

unfoldable pub decode_type_name : List ℕ → Option (List ℕ)
decode_type_name array_buffer = utf8_to_utf16 array_buffer

-- `array` of `ProtobufMesssageEncode`: what the checksum is taken of.
unfoldable pub packet_body : List ℕ → List ℕ → List ℕ
packet_body type_name msg_binary =
    set_uint32 (length type_name) ++ (copy_to type_name ++ copy_to msg_binary)

-- What a packet that arrived holds: an error in the checksum, or the name and the message.
pub data Opened : Type 0 where
  error_message : Opened
  opened : (type_name msg_binary : List ℕ) → Opened

module _ (get_check_sum : List ℕ → ℤ) where
  -- The packet around a type's name and a message.
  unfoldable pub seal_packet : List ℕ → List ℕ → List ℕ
  seal_packet type_name msg_binary =
      let array : List ℕ = packet_body type_name msg_binary in
      set_uint32 (k_name_len + length type_name + length msg_binary + k_checksum_len)
      ++ (copy_to array ++ set_int32 (get_check_sum array))

  -- `ProtobufMesssageDecode` up to the message's bytes.
  unfoldable pub open_packet : List ℕ → Option Opened
  open_packet buffer = do
    total_len ← get_uint32 0 buffer
    type_name_len ← get_uint32 k_head_len buffer
    checksum ← get_int32 total_len buffer
    some (
        if same_int checksum (get_check_sum (slice k_head_len total_len buffer))
        then opened
            (slice (k_head_len + k_name_len) (k_head_len + k_name_len + type_name_len - 1) buffer)
            (slice (k_head_len + k_name_len + type_name_len) total_len buffer)
        else error_message)
