-- ===== src/Displayer.antt =====
-- assets/js/displayer.js: the pictures of the board. A picture element is the record of the style
-- attributes that the code writes; a number of pixels is a number.
pub mod Motion
pub mod Pictures
use cchess.Base.{
  ℕ, zero, suc, ◌+◌, ◌-◌, ◌*◌, ◌/◌, Bool, true, false, not, List, [], ◌∷◌, ◌++◌, Option, none, some,
  ltb, ◌==◌, if◌then◌else◌, ◌>>=◌,
}
use cchess.Base.Int.{ℤ, pos, negsuc, ◌+ℤ◌}
use cchess.Constants.{Side, red, black, PieceType}
use cchess.Geometry.{in_board, flip_pos, col_of_pos, row_of_pos, end_of_move}
use cchess.Board.State.{update}

abbrev pub null_img_zindex : ℕ
null_img_zindex = 0

abbrev pub piece_img_zindex : ℕ
piece_img_zindex = 1

abbrev pub select_img_zindex : ℕ
select_img_zindex = 2

abbrev pub move_piece_img_zindex : ℕ
move_piece_img_zindex = 3

abbrev pub max_step : ℕ
max_step = 8

-- `MOVE_PX`, for places that are not negative: `floor(n / 8 + .5)` is `floor((n + 4) / 8)`.
unfoldable pub move_px : ℕ → ℕ → ℕ → ℕ
move_px src dst step = (src * step + dst * (max_step - step) + 4) / max_step

-- An entry of `PIECE_STYLES`; the path of the images is its number.
pub record PieceStyle : Type 0 where
  pub img_path : ℕ
  pub left : ℕ
  pub top : ℕ
  pub width : ℕ
  pub height : ℕ

-- `PIECE_STYLES`
abbrev pub piece_styles : List PieceStyle
piece_styles =
    record { img_path = 1; left = 7; top = 6; width = 56; height = 64 }
    ∷ record { img_path = 2; left = 7; top = 6; width = 64; height = 64 }
    ∷ record { img_path = 3; left = 7; top = 6; width = 56; height = 56 }
    ∷ record { img_path = 4; left = 4; top = 6; width = 60; height = 60 }
    ∷ []

-- A file under the path: no file, null.png, a piece, xSELECT.png, xNULL.png or xundefined.png.
pub data Picture : Type 0 where
  no_file null_file : Picture
  piece_file : Side → PieceType → Picture
  select_file null_side_file undefined_file : Side → Picture

-- `opacity`: not written, "1", "0" or 0.6.
pub data Opacity : Type 0 where
  unset opaque transparent dim : Opacity

pub record Img : Type 0 where
  pub width : ℕ
  pub height : ℕ
  pub path : ℕ
  pub picture : Picture
  pub z_index : ℕ
  pub opacity : Opacity
  pub left : ℤ
  pub top : ℤ
  pub display : Bool
  pub pointer_events : Bool
  pub on_mouse_down : Option ℕ

-- The class `UiDisplayer`.
pub record UiDisplayer : Type 0 where
  pub board_style : ℕ
  pub style : PieceStyle
  pub imgs : ℕ → Option Img
  pub flipped : Bool
  pub selected_img : Img
  pub track_start_img : Img
  pub track_end_img : Img
  pub prompt_records : List Img

-- `createImage`
unfoldable pub create_image : PieceStyle → Picture → ℕ → Bool → Img
create_image style picture z_index disable_click = record {
  width = style.width;
  height = style.height;
  path = style.img_path;
  picture = picture;
  z_index = z_index;
  opacity = unset;
  left = pos 0;
  top = pos 0;
  display = true;
  pointer_events = not disable_click;
  on_mouse_down = none;
}

-- `changePos`; a square that cannot be flipped is past the array and never drawn.
unfoldable pub seen_pos : Bool → ℕ → ℕ
seen_pos true square = elim (flip_pos square) [ none ↦ square | some p ↦ p ]
seen_pos false square = square

unfoldable pub times_56 : ℤ → ℤ
times_56 (pos n) = pos (n * 56)
times_56 (negsuc n) = negsuc ((n + 1) * 56 - 1)

unfoldable pub change_pos : PieceStyle → Bool → ℕ → Img → Img
change_pos style flipped square img = record img {
  left = pos style.left +ℤ times_56 (col_of_pos (seen_pos flipped square));
  top = pos style.top +ℤ times_56 (row_of_pos (seen_pos flipped square));
}

-- `createNullPieceImage`. In the handler `this` is the element, whose `flip_` is not defined, so the
-- square is not flipped.
unfoldable pub create_null_piece_image : PieceStyle → Bool → Bool → ℕ → Img
create_null_piece_image style flipped disable_click square =
    let img : Img =
      change_pos style flipped square (create_image style null_file null_img_zindex false) in
    if disable_click then img else record img { on_mouse_down = some square }

-- `initPieceImage`
unfoldable pub init_piece_image : PieceStyle → Bool → Bool → ℕ → Option Img
init_piece_image style flipped disable_click square =
    if ltb square 256
    then (if in_board square
        then some (create_null_piece_image style flipped disable_click square)
        else none)
    else none

-- `initResource`
unfoldable pub init_resource : Bool → UiDisplayer → UiDisplayer
init_resource disable_click d =
    let mark : Img = create_image d.style no_file select_img_zindex true in
    record d {
      selected_img = mark;
      track_start_img = mark;
      track_end_img = mark;
      prompt_records = [];
      imgs = init_piece_image d.style d.flipped disable_click;
    }

-- The constructor.
unfoldable pub create_ui_displayer : ℕ → PieceStyle → UiDisplayer
create_ui_displayer board_style style =
    let mark : Img = create_image style no_file select_img_zindex true in
    init_resource false (record {
      board_style = board_style;
      style = style;
      imgs = λ square. none;
      flipped = false;
      selected_img = mark;
      track_start_img = mark;
      track_end_img = mark;
      prompt_records = [];
    })

-- `setMode`, `setWatchMode`, `setPlayMode` and `reset`
unfoldable pub set_mode : Bool → UiDisplayer → UiDisplayer
set_mode watch d = init_resource watch (record d { imgs = λ square. none; prompt_records = [] })

unfoldable pub set_watch_mode : UiDisplayer → UiDisplayer
set_watch_mode d = set_mode true d

unfoldable pub set_play_mode : UiDisplayer → UiDisplayer
set_play_mode d = set_mode false d

unfoldable pub reset : UiDisplayer → UiDisplayer
reset d = set_play_mode (record d { flipped = false })

-- An element of `imgs_` changed; with no element there it throws.
unfoldable pub with_img : ℕ → (Img → Img) → UiDisplayer → Option UiDisplayer
with_img square change d =
    d.imgs square >>= λ img. some (record d { imgs = update d.imgs square (some (change img)) })

-- `addPiece`, of a type and of -1.
unfoldable pub draw_file : Picture → ℕ → UiDisplayer → Option UiDisplayer
draw_file picture square d =
    with_img square
      (λ img. record img { path = d.style.img_path; picture = picture; z_index = piece_img_zindex })
      d

unfoldable pub add_piece : Side → PieceType → ℕ → UiDisplayer → Option UiDisplayer
add_piece side kind = draw_file (piece_file side kind)

unfoldable pub add_unknown : Side → ℕ → UiDisplayer → Option UiDisplayer
add_unknown side = draw_file (undefined_file side)

-- `changePieceStyle` and `changeBoardStyle`
unfoldable pub change_piece_style : PieceStyle → UiDisplayer → UiDisplayer
change_piece_style piece_style d = init_resource false (record d { style = piece_style })

unfoldable pub change_board_style : ℕ → UiDisplayer → UiDisplayer
change_board_style board_style d = record d { board_style = board_style }

-- `flip`
unfoldable pub flip : UiDisplayer → UiDisplayer
flip d =
    let turned : Bool = not d.flipped in
    record d {
      flipped = turned;
      imgs = λ square.
          if ltb square 256
          then (if in_board square
              then (d.imgs square >>= λ img. some (change_pos d.style turned square img))
              else d.imgs square)
          else d.imgs square;
    }

-- `setSelected` and `unSelected`
unfoldable pub set_selected : UiDisplayer → ℕ → Side → Img → Img
set_selected d square side img =
    change_pos d.style d.flipped square
      (record img { display = true; path = d.style.img_path; picture = select_file side })

abbrev pub un_selected : Img → Img
un_selected img = record img { display = false }

-- `selectPiece` and `unSelectePiece`
unfoldable pub select_piece : ℕ → Side → UiDisplayer → UiDisplayer
select_piece square side d = record d { selected_img = set_selected d square side d.selected_img }

unfoldable pub un_selecte_piece : UiDisplayer → UiDisplayer
un_selecte_piece d = record d { selected_img = un_selected d.selected_img }

-- `addLastTrack` and `removeLastTrack`
unfoldable pub add_last_track : ℕ → ℕ → Side → UiDisplayer → UiDisplayer
add_last_track start end side d = record d {
  track_start_img = set_selected d start side d.track_start_img;
  track_end_img = set_selected d end side d.track_end_img;
}

unfoldable pub remove_last_track : UiDisplayer → UiDisplayer
remove_last_track d = record d {
  track_start_img = un_selected d.track_start_img;
  track_end_img = un_selected d.track_end_img;
}

-- `addPromptImage`, `showPrompt` and `unshowPrompt`
unfoldable pub add_prompt_image : ℕ → Side → UiDisplayer → UiDisplayer
add_prompt_image square side d =
    let img : Img = create_image d.style (null_side_file side) select_img_zindex true in
    record d {
      prompt_records =
          d.prompt_records
          ++ (change_pos d.style d.flipped square (record img { opacity = dim }) ∷ []);
    }

unfoldable pub show_prompt : List ℕ → Side → UiDisplayer → UiDisplayer
show_prompt [] side d = d
show_prompt (mv ∷ mvs) side d = show_prompt mvs side (add_prompt_image (end_of_move mv) side d)

unfoldable pub unshow_prompt : UiDisplayer → UiDisplayer
unshow_prompt d = record d { prompt_records = [] }

-- `swapImage` on two elements of `imgs_`, which may be one.
unfoldable pub swap_image : ℕ → ℕ → UiDisplayer → Option UiDisplayer
swap_image square1 square2 d = do
  img1 ← d.imgs square1
  img2 ← d.imgs square2
  first ← with_img square1 (λ img. record img { path = img2.path; picture = img2.picture }) d
  with_img square2 (λ img. record img { path = img1.path; picture = img1.picture }) first

-- `showImage` and `unshowImage`
unfoldable pub show_image : ℕ → UiDisplayer → Option UiDisplayer
show_image square d =
    with_img square (λ img. record img { opacity = opaque; z_index = piece_img_zindex }) d

unfoldable pub unshow_image : ℕ → UiDisplayer → Option UiDisplayer
unshow_image square d =
    with_img square (λ img. record img { opacity = transparent; z_index = null_img_zindex }) d

-- `makeMove`, its animation apart.
unfoldable pub make_move : ℕ → ℕ → Side → UiDisplayer → Option UiDisplayer
make_move start end side d = do
  swapped ← swap_image start end (add_last_track start end side d)
  left ← unshow_image start swapped
  show_image end left

-- `undoMove`, its animation apart.
unfoldable pub undo_move : ℕ → ℕ → UiDisplayer → Option UiDisplayer
undo_move end start d = do
  swapped ← swap_image start end (remove_last_track (unshow_prompt d))
  shown ← show_image end swapped
  show_image start shown
