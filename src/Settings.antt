-- ===== src/Settings.antt =====
-- assets/js/chinese_chess.js: the settings of the page and its list of moves, from `toggleBkMusic` on.
pub mod Boxes
pub mod Switches
use cchess.Base.{ℕ, ◌-◌, Bool, not, Option, none, some, ◌==◌, ◌>>=◌}
use cchess.Chess
use cchess.Chess.{ChineseChess}
use cchess.Chess.Redraw
use cchess.Chess.Redraw.{skip_to_situation_for_display}
use cchess.Chess.Start.{Config}
use cchess.Client.{Client}

-- The state that the handlers share: the client, whether the music is set and plays, and the boxes,
-- true where the picture is that of a checked one.
pub record Page : Type 0 where
  pub client : Client
  pub bk_music : Bool
  pub music_plays : Bool
  pub music_box : Bool
  pub sound_box : Bool
  pub prompt_box : Bool
  pub animation_box : Bool

-- A handler that ends, or throws since there is no game; either way with the page that it leaves.
pub data Outcome : Type 0 where
  returned threw : Page → Outcome

-- A change of `config`.
abbrev pub configured : Config → Page → Page
configured config p = record p { client = record p.client { config = config } }

-- The game of `config`, changed, and what is left to do.
unfoldable pub with_cchess : (ChineseChess → ChineseChess) → (Page → Page) → Page → Outcome
with_cchess change after p = elim p.client.cchess [
  | none ↦ threw p
  | some game ↦
      returned (after (record p { client = record p.client { cchess = some (change game) } }))
]

-- `toggleBkMusic`
unfoldable pub toggle_bk_music : Page → Page
toggle_bk_music p =
    let on : Bool = not p.bk_music in record p { bk_music = on; music_plays = on; music_box = on }

-- `toggleSoundEffect`, `togglePrompt` and `toggleAnimation`
unfoldable pub toggle_sound_effect : Page → Outcome
toggle_sound_effect p =
    let on : Bool = not p.client.config.switch_sound_effect in
    with_cchess (Chess.toggle_sound_effect on) (λ (q : Page). record q { sound_box = on })
      (configured (record p.client.config { switch_sound_effect = on }) p)

unfoldable pub toggle_prompt : Page → Outcome
toggle_prompt p =
    let on : Bool = not p.client.config.switch_prompt in
    with_cchess (Chess.toggle_prompt on) (λ (q : Page). record q { prompt_box = on })
      (configured (record p.client.config { switch_prompt = on }) p)

unfoldable pub toggle_animation : Page → Outcome
toggle_animation p =
    let on : Bool = not p.client.config.switch_animation in
    with_cchess (Chess.toggle_animation on) (λ (q : Page). record q { animation_box = on })
      (configured (record p.client.config { switch_animation = on }) p)

-- `onChangeBoardStyle`, with the index of the option that is selected.
unfoldable pub on_change_board_style : ℕ → Page → Outcome
on_change_board_style selected_index p =
    with_cchess (Redraw.change_board_style selected_index) (λ (q : Page). q)
      (configured (record p.client.config { board_style_idx = selected_index }) p)

-- The same, where the game's operation may give no usable result.
unfoldable pub with_cchess? : (ChineseChess → Option ChineseChess) → Page → Option Outcome
with_cchess? change p = elim p.client.cchess [
  | none ↦ some (threw p)
  | some game ↦ change game >>= λ changed.
      some (returned (record p { client = record p.client { cchess = some changed } }))
]

-- `onChangePieceStyle`
unfoldable pub on_change_piece_style : ℕ → Page → Option Outcome
on_change_piece_style selected_index p =
    with_cchess? (Redraw.change_piece_style selected_index)
      (configured (record p.client.config { piece_style_idx = selected_index }) p)

-- `onChangeStepRecords`, for a list of moves with that length, one of which is selected.
unfoldable pub on_change_step_records : (length selected_index : ℕ) → Page → Option Outcome
on_change_step_records length selected_index p =
    let watch_mode : Bool = not (selected_index == length - 1) in
    let r_offset : ℕ = length - 1 - selected_index in
    with_cchess? (skip_to_situation_for_display selected_index r_offset watch_mode) p
