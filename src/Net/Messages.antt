-- ===== src/Net/Messages.antt =====
-- assets/js/net.js: the messages, `getMessageInstance`, `ProtobufMesssageEncode` and
-- `ProtobufMesssageDecode`. The classes of the messages are generated from cchess.proto: here a
-- message is the values of its fields, and the two directions of its binary form are parameters.
pub mod Relay
use cchess.Base.{
  ℕ, ◌+◌, Bool, true, false, ◌&&◌, List, [], ◌∷◌, ◌++◌, Option, none, some, ◌==◌, if◌then◌else◌,
  ◌>>=◌,
}
use cchess.Base.Int.{ℤ, pos}
use cchess.Fen.{codes}
use cchess.Net.Packet.{
  Opened, error_message, opened, seal_packet, open_packet, encode_type_name, decode_type_name,
}

-- `ProtocolType`
pub data ProtocolType : Type 0 where
  login_request login_success_response login_failed_response match_request cancel_match_request
        match_response move_step giveup forgive_request forgive_response draw_request draw_response
        opp_disconnected opp_reconnected game_situation game_over :
      ProtocolType

unfoldable pub type_name : ProtocolType → List ℕ
type_name login_request = codes "wsun.LoginRequest"
type_name login_success_response = codes "wsun.LoginSuccessResponse"
type_name login_failed_response = codes "wsun.LoginFailedResponse"
type_name match_request = codes "wsun.MatchRequest"
type_name cancel_match_request = codes "wsun.CancelMatchRequest"
type_name match_response = codes "wsun.MatchResponse"
type_name move_step = codes "wsun.MoveStep"
type_name giveup = codes "wsun.Giveup"
type_name forgive_request = codes "wsun.ForgiveRequest"
type_name forgive_response = codes "wsun.ForgiveResponse"
type_name draw_request = codes "wsun.DrawRequest"
type_name draw_response = codes "wsun.DrawResponse"
type_name opp_disconnected = codes "wsun.OppDisconnected"
type_name opp_reconnected = codes "wsun.OppReconnected"
type_name game_situation = codes "wsun.GameSituation"
type_name game_over = codes "wsun.GameOver"

pub data RoomType : Type 0 where
  quickly_pattern slowly_pattern : RoomType

pub data PlayerType : Type 0 where
  red_player_type black_player_type : PlayerType

pub data FailedReason : Type 0 where
  multi_login vertify_error : FailedReason

pub data OverType : Type 0 where
  self_timeout opp_timeout self_giveup opp_giveup draw win loss : OverType

pub record UserInfo : Type 0 where
  pub username : List ℕ
  pub score : ℤ
  pub total : ℤ
  pub nwin : ℤ
  pub nloss : ℤ

pub record GameTimeInfo : Type 0 where
  pub game_spend_time : ℕ
  pub step_spend_time : ℕ

pub record GameSituation : Type 0 where
  pub self : UserInfo
  pub opp : UserInfo
  pub is_red : Bool
  pub turn_to_me : Bool
  pub room_type : RoomType
  pub self_time : GameTimeInfo
  pub opp_time : GameTimeInfo
  pub last_mv : ℕ
  pub fen : List ℕ

-- The fields of a message of each type.
pub data Message : Type 0 where
  a_login_request : (username passwd : List ℕ) → Message
  a_login_success_response : UserInfo → Message
  a_login_failed_response : FailedReason → Message
  a_match_request : RoomType → Message
  a_cancel_match_request : Message
  a_match_response : PlayerType → RoomType → UserInfo → Message
  a_move_step : (over : Bool) (mv : ℕ) (fen : List ℕ) → Message
  a_giveup : Message
  a_forgive_request : Message
  a_forgive_response : (agree : Bool) (mv : ℕ) (fen : List ℕ) → Message
  a_draw_request : Message
  a_draw_response : (agree : Bool) → Message
  a_opp_disconnected : Message
  a_opp_reconnected : Message
  a_game_situation : GameSituation → Message
  a_game_over :
      OverType → (change_score : ℤ) (self_spend_game_time opp_spend_game_time : ℕ) → Message

-- What `sendMessage` is called with.
pub data Request : Type 0 where
  login : (username passwd : List ℕ) → Request
  match : RoomType → Request
  cancel_match : Request
  step : (over : Bool) (mv : ℕ) (fen : List ℕ) → Request
  ask_forgive : Request
  answer_forgive : (agree : Bool) (mv : ℕ) (fen : List ℕ) → Request
  ask_draw : Request
  answer_draw : (agree : Bool) → Request
  give_up : Request

unfoldable pub request_type : Request → ProtocolType
request_type (login username passwd) = login_request
request_type (match type) = match_request
request_type cancel_match = cancel_match_request
request_type (step over mv fen) = move_step
request_type ask_forgive = forgive_request
request_type (answer_forgive agree mv fen) = forgive_response
request_type ask_draw = draw_request
request_type (answer_draw agree) = draw_response
request_type give_up = giveup

-- The new message with its fields set: the first half of `ProtobufMesssageEncode`.
unfoldable pub filled : Request → Message
filled (login username passwd) = a_login_request username passwd
filled (match type) = a_match_request type
filled cancel_match = a_cancel_match_request
filled (step over mv fen) = a_move_step over mv fen
filled ask_forgive = a_forgive_request
filled (answer_forgive agree mv fen) =
    if agree then a_forgive_response agree mv fen else a_forgive_response agree 0 []
filled ask_draw = a_draw_request
filled (answer_draw agree) = a_draw_response agree
filled give_up = a_giveup

-- `==` on strings.
unfoldable pub same_text : List ℕ → List ℕ → Bool
same_text [] [] = true
same_text (c ∷ s) (d ∷ t) = (c == d) && same_text s t
same_text _ _ = false

-- The types in the order in which `getMessageInstance` compares them.
abbrev pub protocol_types : List ProtocolType
protocol_types =
    login_request ∷ login_success_response ∷ login_failed_response ∷ match_request
    ∷ cancel_match_request ∷ match_response ∷ move_step ∷ giveup ∷ forgive_request
    ∷ forgive_response ∷ draw_request ∷ draw_response ∷ opp_disconnected ∷ opp_reconnected
    ∷ game_situation ∷ game_over ∷ []

unfoldable pub type_among : List ProtocolType → List ℕ → Option ProtocolType
type_among [] name = none
type_among (t ∷ types) name =
    let later = type_among types name in if same_text name (type_name t) then some t else later

-- What a packet brought: nothing for a wrong checksum, an unknown name, or a message.
pub data Arrived : Type 0 where
  corrupted : Arrived
  not_found : Arrived
  arrived : Message → Arrived

module _ (get_check_sum : List ℕ → ℤ) (serialize_binary : Message → List ℕ)
    (deserialize_binary : ProtocolType → List ℕ → Option Message) where
  -- `getMessageInstance` with bytes; three types take a new message instead of reading them.
  unfoldable pub get_message_instance : ProtocolType → List ℕ → Option Message
  get_message_instance login_request bytes = some (a_login_request [] [])
  get_message_instance match_request bytes = some (a_match_request quickly_pattern)
  get_message_instance cancel_match_request bytes = some a_cancel_match_request
  get_message_instance t bytes = deserialize_binary t bytes

  -- `ProtobufMesssageEncode`
  unfoldable pub protobuf_messsage_encode : Request → List ℕ
  protobuf_messsage_encode req =
      seal_packet get_check_sum (encode_type_name (type_name (request_type req)))
        (serialize_binary (filled req))

  -- `ProtobufMesssageDecode` up to the call of `reponseMessage`.
  unfoldable pub message_of : Opened → Option Arrived
  message_of error_message = some corrupted
  message_of (opened name_bytes msg_binary) = do
    name ← decode_type_name name_bytes
    elim (type_among protocol_types name) [
      | none ↦ some not_found
      | some t ↦ get_message_instance t msg_binary >>= λ message. some (arrived message)
    ]

  unfoldable pub protobuf_messsage_decode : List ℕ → Option Arrived
  protobuf_messsage_decode array_buffer =
      open_packet get_check_sum array_buffer >>= λ o. message_of o
