-- ===== src/PageTests.antt =====
-- The packets, the clocks and the pictures at concrete inputs.
use cchess.Base.{
  ◌%◌, ℕ, ◌≡◌, ◌<◌, arith, refl, List, [], ◌∷◌, ◌++◌, Option, none, some, true, false, All, length,
}
use cchess.Base.Int.{ℤ, pos, negsuc, sub_ℕ, ◌-ℤ◌}
use cchess.Constants.{red, black, rook}
use cchess.Net.Utf8
use cchess.Net.Utf8.{utf8_to_utf16, utf16_to_utf8}
use cchess.Net.Utf8.Received.{received, utf16_to_utf8-Bytes, utf8_to_utf16-utf16_to_utf8}
use cchess.Net.Packet.{
  seal_packet, open_packet, encode_type_name, opened, error_message, set_uint32, set_int32,
}
use cchess.Net.Packet.Whole.{open_packet-seal_packet, open_packet-error_message}
use cchess.Net.Packet.Fields.{IsInt32}
use cchess.Net.Messages
use cchess.Net.Messages.{
  ProtocolType, Message, step, a_move_step, arrived, protobuf_messsage_encode,
  protobuf_messsage_decode,
}
use cchess.Net.Messages.{UserInfo}
use cchess.Base.Int.{◌+ℤ◌}
use cchess.Client.{ndraw, update_user_info}
use cchess.Client.Records.{ndraw-update_user_info}
use cchess.Net.Messages.Relay.{protobuf_messsage_decode-protobuf_messsage_encode}
use cchess.Displayer
use cchess.Displayer.{move_px, Img, UiDisplayer, PieceStyle, max_step, piece_img_zindex}
use cchess.Displayer.Motion.{Motion, do_move_animation, motion_ticks}
use cchess.Displayer.Motion.Frames.{motion_ticks-do_move_animation}
use cchess.Timer.{PlayTimer, quickly_pattern_time, create_play_timer, count, start, tick, pause}
use cchess.Timer.Runs.{
  Turn, started, ticked, pause-Turn, create_play_timer-IsStopped, IsStopped, seconds,
}
use cchess.Board.State.{update}
use cchess.Displayer.Pictures.{seen_at}
use cchess.Displayer.Pictures.Boards.{seen_at-undo_move}
use cchess.Base.{◌+◌, ◌*◌, ◌≤◌, ◌⊎◌, ◌↔◌, suc}
use cchess.Client.Labels.{percent, display_result_dialog, play_win, play_loss}
use cchess.Client.Labels.Standings.{percent_lem, display_result_dialog-update_user_info}
use cchess.QuickSort.{quick_sort, is_less}
use cchess.QuickSort.Sorts.{IsConsistent, IsSorted, quick_sort-IsSorted}

-- "AЖ", of which the second letter does not come back.
abbrev letters : List ℕ
letters = 65 ∷ 1046 ∷ []

letters_received : utf8_to_utf16 (utf16_to_utf8 letters) ≡ some (65 ∷ 22 ∷ [])
letters_received = utf8_to_utf16-utf16_to_utf8 letters (omega arith, (omega arith, tt))

utf16_to_utf8-Bytes_example : All (λ n. n < 256) (utf16_to_utf8 letters)
utf16_to_utf8-Bytes_example = utf16_to_utf8-Bytes letters (omega arith, (omega arith, tt))

utf8_to_utf16-utf16_to_utf8_example :
    utf8_to_utf16 (utf16_to_utf8 letters) ≡ some (received letters)
utf8_to_utf16-utf16_to_utf8_example =
    utf8_to_utf16-utf16_to_utf8 letters (omega arith, (omega arith, tt))

abbrev plain_sum : List ℕ → ℤ
plain_sum bytes = pos (length bytes % 65521)

plain_sum-IsInt32 : (bytes : List ℕ) → IsInt32 (plain_sum bytes)
plain_sum-IsInt32 bytes = omega arith

open_packet-seal_packet_example :
    open_packet plain_sum (seal_packet plain_sum (encode_type_name letters) (7 ∷ []))
    ≡ some (opened (utf16_to_utf8 letters) (7 ∷ []))
unfolding Utf8.encode_unit
open_packet-seal_packet_example =
    open_packet-seal_packet plain_sum letters (7 ∷ []) plain_sum-IsInt32
      (omega arith, (omega arith, tt)) (omega arith, tt) (unfold utf16_to_utf8 in omega arith)

open_packet-error_message_example :
    open_packet plain_sum (
      set_uint32 11
      ++ ((set_uint32 2 ++ (((65 ∷ []) ++ (0 ∷ [])) ++ (7 ∷ []))) ++ set_int32 (negsuc 0)))
    ≡ some error_message
open_packet-error_message_example =
    open_packet-error_message plain_sum (65 ∷ []) (7 ∷ []) (negsuc 0) (omega arith) (omega arith)
      (λ h. cc)

abbrev plain_binary : Message → List ℕ
plain_binary message = 7 ∷ []

abbrev read_plain : ProtocolType → List ℕ → Option Message
read_plain type bytes = some (a_move_step true 15307 letters)

protobuf_messsage_decode-protobuf_messsage_encode_example :
    protobuf_messsage_decode plain_sum plain_binary read_plain
      (protobuf_messsage_encode plain_sum plain_binary read_plain (step true 15307 letters))
    ≡ some (arrived (a_move_step true 15307 letters))
unfolding Messages.type_name Messages.request_type Utf8.encode_unit Messages.filled
protobuf_messsage_decode-protobuf_messsage_encode_example =
    protobuf_messsage_decode-protobuf_messsage_encode plain_sum plain_binary read_plain
      (step true 15307 letters) tt plain_sum-IsInt32 (omega arith, tt)
      (unfold utf16_to_utf8 in omega arith) refl

-- A second of a turn.
abbrev clock : PlayTimer
clock = create_play_timer quickly_pattern_time

clock_turn : Turn clock (tick (start clock))
unfolding start count create_play_timer
clock_turn = ticked 0 [] started refl

pause-Turn_example :
    IsStopped (pause (tick (start clock)))
    × ((pause (tick (start clock))).step_left_time ≡ pos clock.step_time)
    × ((pause (tick (start clock))).game_left_time
        ≡ clock.game_left_time -ℤ pos (seconds clock_turn))
pause-Turn_example = pause-Turn (create_play_timer-IsStopped quickly_pattern_time) clock_turn

abbrev from_some : UiDisplayer → Option UiDisplayer → UiDisplayer
from_some d none = d
from_some d (some x) = x

abbrev style_1 : PieceStyle
style_1 = record { img_path = 1; left = 7; top = 6; width = 56; height = 64 }

-- Two elements, and a displayer that has no others.
abbrev left_img : Img
left_img = Displayer.create_image style_1 Displayer.null_file 0 false

abbrev hidden_rook : Img
hidden_rook = record left_img {
  picture = Displayer.piece_file black rook;
  opacity = Displayer.transparent;
  left = pos 63;
}

abbrev two_elements : UiDisplayer
two_elements = record (Displayer.create_ui_displayer 0 style_1) {
  imgs = update (update (λ p. none) 52 (some hidden_rook)) 51 (some left_img);
}

motion_ticks-do_move_animation_example :
    (m : Motion) × (begun : UiDisplayer) × (do_move_animation 51 52 two_elements ≡ some (m, begun))
    × (motion_ticks max_step m begun
        ≡ some (
          none,
          record two_elements {
            imgs =
                update two_elements.imgs 52
                  (some (record hidden_rook { z_index = piece_img_zindex }));
          },
        ))
unfolding Displayer.create_image
motion_ticks-do_move_animation_example =
    motion_ticks-do_move_animation 51 52 two_elements left_img hidden_rook 0 0 63 0 refl refl
      (refl, refl, refl, refl)

abbrev moved_on : UiDisplayer
moved_on = from_some two_elements (Displayer.make_move 51 52 red two_elements)

abbrev taken_back : UiDisplayer
taken_back = from_some two_elements (Displayer.undo_move 52 51 moved_on)

-- The rook that was hidden is seen again.
seen_at-undo_move_example : seen_at taken_back 52 ≡ some (black, rook)
unfolding Displayer.make_move Displayer.undo_move Displayer.swap_image Displayer.with_img
    Displayer.show_image Displayer.unshow_image Displayer.add_last_track Displayer.remove_last_track
    Displayer.unshow_prompt
seen_at-undo_move_example =
    seen_at-undo_move 51 52 red two_elements refl refl (λ h. omega (arith, h)) refl refl 52

-- A user of ten games, seven of them won and one lost, draws once more.
abbrev user : UserInfo
user = record { username = letters; score = pos 100; total = pos 10; nwin = pos 7; nloss = pos 1 }

ndraw-update_user_info_example : ndraw (update_user_info Messages.draw 5 user) ≡ ndraw user +ℤ pos 1
ndraw-update_user_info_example = ndraw-update_user_info Messages.draw 5 user

percent_lem_example :
    (n : ℕ) × (percent user ≡ pos n)
    × (n ≤ 100)
    × (n * (7 + 1) ≤ 7 * 100)
    × ((7 + 1 ≡ 0) ⊎ (7 * 100 < suc n * (7 + 1)))
percent_lem_example = percent_lem user refl refl

abbrev opp : UserInfo
opp = record user { username = 66 ∷ [] }

display_result_dialog-update_user_info_example :
    ((display_result_dialog Messages.win user opp).img ≡ play_win)
      × ((display_result_dialog Messages.win user opp).win_user_name ≡ user.username)
      × ((update_user_info Messages.win 5 user).score ≡ user.score +ℤ pos 5)
      × ((update_user_info Messages.win 5 user).nwin ≡ user.nwin +ℤ pos 1)
      × ((update_user_info Messages.win 5 user).nloss ≡ user.nloss)
    ⊎ ((display_result_dialog Messages.win user opp).img ≡ play_loss)
      × ((display_result_dialog Messages.win user opp).loss_user_name ≡ user.username)
      × ((update_user_info Messages.win 5 user).score ≡ user.score -ℤ pos 5)
      × ((update_user_info Messages.win 5 user).nloss ≡ user.nloss +ℤ pos 1)
      × ((update_user_info Messages.win 5 user).nwin ≡ user.nwin)
display_result_dialog-update_user_info_example =
    display_result_dialog-update_user_info Messages.win 5 user opp (λ h. cc)

-- Three numbers, sorted by their difference.
abbrev numbers : List ℕ
numbers = 3 ∷ 1 ∷ 2 ∷ []

-- A number is no array.
abbrev no_elements : ℕ → Option (List ℕ)
no_elements n = none

numbers_run : quick_sort no_elements sub_ℕ numbers ≡ some (1 ∷ 2 ∷ 3 ∷ [], 3 ∷ 2 ∷ [])
unfolding quick_sort cchess.QuickSort.quick_sort_within cchess.QuickSort.push_all is_less
    cchess.QuickSort.splice
numbers_run = refl

less_iff : (a b : ℕ) → (is_less sub_ℕ a b ≡ true) ↔ (a < b)
unfolding is_less
less_iff a b = ground arith

difference-IsConsistent : IsConsistent sub_ℕ
difference-IsConsistent = record {
  asym = λ a b h. ground (arith, less_iff a b, less_iff b a, h);
  trans = λ a b c h k. (less_iff a c).1 (omega (arith, (less_iff a b).0 h, (less_iff b c).0 k));
}

quick_sort-IsSorted_example :
    (result : List ℕ) × (rest : List ℕ) × (quick_sort no_elements sub_ℕ numbers
      ≡ some (result, rest))
    × IsSorted sub_ℕ result
quick_sort-IsSorted_example =
    quick_sort-IsSorted no_elements sub_ℕ numbers (refl, (refl, (refl, tt))) difference-IsConsistent

-- Numbers and arrays of numbers, compared by their first number.
data Item : Type 0 where
  number : ℕ → Item
  array : List ℕ → Item

numbers_in : List ℕ → List Item
numbers_in [] = []
numbers_in (n ∷ ns) = number n ∷ numbers_in ns

elements : Item → Option (List Item)
elements (number n) = none
elements (array ns) = some (numbers_in ns)

first_of : Item → ℕ
first_of (number n) = n
first_of (array []) = 0
first_of (array (n ∷ ns)) = n

-- An array that is the pivot is spread: [[9], [5, 1]] gives [5, 1, [9]].
spread_run :
    quick_sort elements
      (λ a b. sub_ℕ (first_of a) (first_of b))
      (array (9 ∷ []) ∷ array (5 ∷ 1 ∷ []) ∷ [])
    ≡ some (number 5 ∷ number 1 ∷ array (9 ∷ []) ∷ [], array (9 ∷ []) ∷ [])
unfolding quick_sort cchess.QuickSort.quick_sort_within cchess.QuickSort.push_all is_less
    cchess.QuickSort.splice elements numbers_in first_of
spread_run = refl
