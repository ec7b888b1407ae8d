-- ===== src/Net/Messages/Relay.antt =====
-- assets/js/net.js: the messages that one player's client sends to the other's.
use cchess.Base.{ℕ, ◌+◌, ◌<◌, ◌≡◌, refl, ap, ◌∙◌, arith, List, Option, some, length, All, >>=-of}
use cchess.Base.Int.{ℤ}
use cchess.Net.Utf8.{utf16_to_utf8}
use cchess.Net.Utf8.Received.{received, utf8_to_utf16-utf16_to_utf8}
use cchess.Net.Packet.{decode_type_name}
use cchess.Net.Packet.Whole.{open_packet-seal_packet}
use cchess.Net.Packet.Fields.{IsInt32, Bytes}
use cchess.Net.Messages.{
  ProtocolType, login_request, login_success_response, login_failed_response, match_request,
  cancel_match_request, match_response, move_step, giveup, forgive_request, forgive_response,
  draw_request, draw_response, opp_disconnected, opp_reconnected, game_situation, game_over,
  type_name, Message, Request, login, match, cancel_match, step, ask_forgive, answer_forgive,
  ask_draw, answer_draw, give_up, request_type, filled, same_text, type_among, protocol_types,
  arrived, get_message_instance, protobuf_messsage_encode, message_of, protobuf_messsage_decode,
}

-- The names are plain text, and no two are equal.
record Named (t : ProtocolType) : Type 0 where
  units : All (λ code. code < 65536) (type_name t)
  plain : received (type_name t) ≡ type_name t
  found : type_among protocol_types (type_name t) ≡ some t

type_name-Named : (t : ProtocolType) → Named t
unfolding type_name type_among same_text
type_name-Named login_request = record { units = omega arith; plain = refl; found = refl }
type_name-Named login_success_response = record { units = omega arith; plain = refl; found = refl }
type_name-Named login_failed_response = record { units = omega arith; plain = refl; found = refl }
type_name-Named match_request = record { units = omega arith; plain = refl; found = refl }
type_name-Named cancel_match_request = record { units = omega arith; plain = refl; found = refl }
type_name-Named match_response = record { units = omega arith; plain = refl; found = refl }
type_name-Named move_step = record { units = omega arith; plain = refl; found = refl }
type_name-Named giveup = record { units = omega arith; plain = refl; found = refl }
type_name-Named forgive_request = record { units = omega arith; plain = refl; found = refl }
type_name-Named forgive_response = record { units = omega arith; plain = refl; found = refl }
type_name-Named draw_request = record { units = omega arith; plain = refl; found = refl }
type_name-Named draw_response = record { units = omega arith; plain = refl; found = refl }
type_name-Named opp_disconnected = record { units = omega arith; plain = refl; found = refl }
type_name-Named opp_reconnected = record { units = omega arith; plain = refl; found = refl }
type_name-Named game_situation = record { units = omega arith; plain = refl; found = refl }
type_name-Named game_over = record { units = omega arith; plain = refl; found = refl }

-- The requests whose messages `getMessageInstance` reads from the bytes.
abbrev pub IsRelayed : Request → Type 0
IsRelayed (login username passwd) = ⊥
IsRelayed (match type) = ⊥
IsRelayed cancel_match = ⊥
IsRelayed _ = Unit

module _ (get_check_sum : List ℕ → ℤ) (serialize_binary : Message → List ℕ)
    (deserialize_binary : ProtocolType → List ℕ → Option Message) where
  get_message_instance-relayed :
      (req : Request) (bytes : List ℕ)
      → IsRelayed req
      → get_message_instance get_check_sum serialize_binary deserialize_binary
          (request_type req)
          bytes
        ≡ deserialize_binary (request_type req) bytes
  unfolding get_message_instance request_type
  get_message_instance-relayed (login username passwd) bytes h = absurd h
  get_message_instance-relayed (match type) bytes h = absurd h
  get_message_instance-relayed cancel_match bytes h = absurd h
  get_message_instance-relayed (step over mv fen) bytes h = refl
  get_message_instance-relayed ask_forgive bytes h = refl
  get_message_instance-relayed (answer_forgive agree mv fen) bytes h = refl
  get_message_instance-relayed ask_draw bytes h = refl
  get_message_instance-relayed (answer_draw agree) bytes h = refl
  get_message_instance-relayed give_up bytes h = refl

  decode_type_name-type_name :
      (t : ProtocolType) → decode_type_name (utf16_to_utf8 (type_name t)) ≡ some (type_name t)
  unfolding decode_type_name
  decode_type_name-type_name t =
      let named = type_name-Named t in
      utf8_to_utf16-utf16_to_utf8 (type_name t) named.units ∙ ap some named.plain

  -- For every request but those of a login, a match and a cancelled match, with a checksum of 32
  -- bits, a binary form of bytes that is read back as the message, and a packet below 2 to the 32
  -- bytes, `ProtobufMesssageDecode` of what `ProtobufMesssageEncode` builds arrives as that
  -- message with the fields of the request.
  pub protobuf_messsage_decode-protobuf_messsage_encode :
      (req : Request)
      → IsRelayed req
      → ((bytes : List ℕ) → IsInt32 (get_check_sum bytes))
      → Bytes (serialize_binary (filled req))
      → 9
          + length (utf16_to_utf8 (type_name (request_type req)))
          + length (serialize_binary (filled req))
        < 4294967296
      → deserialize_binary (request_type req) (serialize_binary (filled req)) ≡ some (filled req)
      → protobuf_messsage_decode get_check_sum serialize_binary deserialize_binary
          (protobuf_messsage_encode get_check_sum serialize_binary deserialize_binary req)
        ≡ some (arrived (filled req))
  unfolding protobuf_messsage_decode protobuf_messsage_encode message_of
  protobuf_messsage_decode-protobuf_messsage_encode req relayed fits bytes small codec =
      let named = type_name-Named (request_type req) in
      >>=-of _ (
        open_packet-seal_packet get_check_sum (type_name (request_type req))
          (serialize_binary (filled req)) fits named.units bytes small)
      ∙ >>=-of _ (decode_type_name-type_name (request_type req))
      ∙ rw named.found (
          >>=-of _
            (get_message_instance-relayed req (serialize_binary (filled req)) relayed ∙ codec))
