-- ===== src/Displayer/Motion.antt =====
-- assets/js/displayer.js: `doMoveAnimation`. The interval runs on the element of the end square as
-- it was when the animation began, with the pictures not made anew in between.
pub mod Frames
use cchess.Base.{ℕ, zero, suc, ◌-◌, List, [], ◌∷◌, Option, none, some, ◌>>=◌}
use cchess.Base.Int.{ℤ, pos, negsuc}
use cchess.Displayer.{
  Img, UiDisplayer, with_img, move_px, max_step, move_piece_img_zindex, piece_img_zindex,
}

-- What the interval's function remembers.
pub record Motion : Type 0 where
  pub end : ℕ
  pub start_x : ℕ
  pub start_y : ℕ
  pub end_x : ℕ
  pub end_y : ℕ
  pub step : ℕ

-- `parseInt` of a place; the elements of the board stand at no negative one.
abbrev pub parse_int : ℤ → Option ℕ
parse_int (pos n) = some n
parse_int (negsuc n) = none

-- `doMoveAnimation` up to the interval.
unfoldable pub do_move_animation : ℕ → ℕ → UiDisplayer → Option (Motion × UiDisplayer)
do_move_animation start end d = do
  start_piece_img ← d.imgs start
  end_piece_img ← d.imgs end
  start_x ← parse_int start_piece_img.left
  start_y ← parse_int start_piece_img.top
  end_x ← parse_int end_piece_img.left
  end_y ← parse_int end_piece_img.top
  begun ←
      with_img end
        (λ img. record img {
          z_index = move_piece_img_zindex;
          left = start_piece_img.left;
          top = start_piece_img.top;
        })
        d
  some (
    record {
      end = end;
      start_x = start_x;
      start_y = start_y;
      end_x = end_x;
      end_y = end_y;
      step = max_step - 1;
    },
    begun,
  )

-- The function that the interval runs; `none` in place of the motion is the interval cleared.
unfoldable pub motion_tick : Motion → UiDisplayer → Option (Option Motion × UiDisplayer)
motion_tick m d = by_step m.step
  where
    by_step : ℕ → Option (Option Motion × UiDisplayer)
    by_step zero =
        with_img m.end
          (λ img. record img { left = pos m.end_x; top = pos m.end_y; z_index = piece_img_zindex })
          d
        >>= λ moved. some (none, moved)
    by_step (suc k) =
        with_img m.end
          (λ img. record img {
            left = pos (move_px m.start_x m.end_x (suc k));
            top = pos (move_px m.start_y m.end_y (suc k));
          })
          d
        >>= λ moved. some (some (record m { step = k }), moved)

-- The interval run a number of times at most.
unfoldable pub motion_ticks : ℕ → Motion → UiDisplayer → Option (Option Motion × UiDisplayer)
motion_ticks zero m d = some (some m, d)
motion_ticks (suc n) m d = motion_tick m d >>= λ (left, moved). elim left [
  | none ↦ some (none, moved)
  | some m' ↦ motion_ticks n m' moved
]
