-- ===== src/Displayer/Motion/Frames.antt =====
-- assets/js/displayer.js: the frames of an animation, and its end.
use cchess.Base.{
  ℕ, zero, suc, ◌-◌, ◌≤◌, ◌≡◌, refl, sym, ap, ap₂, ◌∙◌, ◌⊎◌, inl, inr, arith, Option, none, some,
  >>=-of,
}
use cchess.Base.Int.{ℤ, pos}
use cchess.Board.State.{update}
use cchess.Board.Placed.Cells.{update-update, update_at}
use cchess.Displayer.{
  move_piece_img_zindex, Img, UiDisplayer, with_img, move_px, max_step, piece_img_zindex,
}
use cchess.Displayer.Motion.{Motion, parse_int, do_move_animation, motion_tick, motion_ticks}

move_px_ordered :
    (src dst step : ℕ)
    → step ≤ 8
    → (src ≤ dst → (src ≤ move_px src dst step) × (move_px src dst step ≤ dst))
      × (dst ≤ src → (dst ≤ move_px src dst step) × (move_px src dst step ≤ src))
unfolding move_px
move_px_ordered src dst zero h =
    ((λ le. (omega arith, omega arith)), (λ le. (omega arith, omega arith)))
move_px_ordered src dst (suc zero) h =
    ((λ le. (omega arith, omega arith)), (λ le. (omega arith, omega arith)))
move_px_ordered src dst (suc (suc zero)) h =
    ((λ le. (omega arith, omega arith)), (λ le. (omega arith, omega arith)))
move_px_ordered src dst (suc (suc (suc zero))) h =
    ((λ le. (omega arith, omega arith)), (λ le. (omega arith, omega arith)))
move_px_ordered src dst (suc (suc (suc (suc zero)))) h =
    ((λ le. (omega arith, omega arith)), (λ le. (omega arith, omega arith)))
move_px_ordered src dst (suc (suc (suc (suc (suc zero))))) h =
    ((λ le. (omega arith, omega arith)), (λ le. (omega arith, omega arith)))
move_px_ordered src dst (suc (suc (suc (suc (suc (suc zero)))))) h =
    ((λ le. (omega arith, omega arith)), (λ le. (omega arith, omega arith)))
move_px_ordered src dst (suc (suc (suc (suc (suc (suc (suc zero))))))) h =
    ((λ le. (omega arith, omega arith)), (λ le. (omega arith, omega arith)))
move_px_ordered src dst (suc (suc (suc (suc (suc (suc (suc (suc zero)))))))) h =
    ((λ le. (omega arith, omega arith)), (λ le. (omega arith, omega arith)))
move_px_ordered src dst (suc (suc (suc (suc (suc (suc (suc (suc (suc k))))))))) h =
    absurd (omega arith)

-- For a step of 8 at most, `MOVE_PX` lies between its two places, whichever is the smaller.
move_px-between :
    (src dst step : ℕ)
    → step ≤ 8
    → (src ≤ move_px src dst step) × (move_px src dst step ≤ dst)
      ⊎ (dst ≤ move_px src dst step) × (move_px src dst step ≤ src)
move_px-between src dst step h =
    let (up, down) = move_px_ordered src dst step h in
    elim (ordered src dst) [ inl le ↦ inl (up le) | inr le ↦ inr (down le) ]
  where
    ordered : (m n : ℕ) → (m ≤ n) ⊎ (n ≤ m)
    ordered m n = omega arith

-- The element at its place again.
abbrev pub settled : Motion → Img → Img
settled m img = record img { left = pos m.end_x; top = pos m.end_y; z_index = piece_img_zindex }

motion_ticks-settled :
    (k : ℕ) (m : Motion) (d : UiDisplayer) (img : Img)
    → m.step ≡ k
    → d.imgs m.end ≡ some img
    → motion_ticks (suc k) m d
      ≡ some (none, record d { imgs = update d.imgs m.end (some (settled m img)) })
unfolding motion_ticks motion_tick with_img
motion_ticks-settled zero m d img h e = rw (h, e, motion_tick, with_img, motion_ticks) refl
motion_ticks-settled (suc k) m d img h e =
    >>=-of _ first
    ∙ motion_ticks-settled k (record m { step = k }) onward frame refl
        (update_at d.imgs m.end (some frame))
    ∙ ap (λ (imgs : ℕ → Option Img). with_imgs imgs)
        (update-update d.imgs m.end (some frame) (some (settled m img)))
  where
    frame : Img
    frame = record img {
      left = pos (move_px m.start_x m.end_x (suc k));
      top = pos (move_px m.start_y m.end_y (suc k));
    }

    onward : UiDisplayer
    onward = record d { imgs = update d.imgs m.end (some frame) }

    first : motion_tick m d ≡ some (some (record m { step = k }), onward)
    first = rw (h, e, motion_tick, with_img) refl

    with_imgs : (ℕ → Option Img) → Option (Option Motion × UiDisplayer)
    with_imgs imgs = some (none, record d { imgs = imgs })

-- Between squares whose elements stand at places that are not negative, the animation of a move
-- begins, and after eight runs of its interval the interval is cleared and the moving element
-- stands at its own place again, with the height of a piece and nothing else changed.
pub motion_ticks-do_move_animation :
    (start end : ℕ) (d : UiDisplayer) (from to : Img) (sx sy ex ey : ℕ)
    → d.imgs start ≡ some from
    → d.imgs end ≡ some to
    → (from.left ≡ pos sx) × (from.top ≡ pos sy) × (to.left ≡ pos ex) × (to.top ≡ pos ey)
    → (m : Motion) × (begun : UiDisplayer) × (do_move_animation start end d ≡ some (m, begun))
      × (motion_ticks max_step m begun
          ≡ some (
            none,
            record d { imgs = update d.imgs end (some (record to { z_index = piece_img_zindex })) },
          ))
unfolding do_move_animation with_img
motion_ticks-do_move_animation start end d from to sx sy ex ey e f (hx, hy, kx, ky) = (
  m,
  begun,
  >>=-of _ e
      ∙ >>=-of _ f
      ∙ >>=-of _ (ap parse_int hx)
      ∙ >>=-of _ (ap parse_int hy)
      ∙ >>=-of _ (ap parse_int kx)
      ∙ >>=-of _ (ap parse_int ky)
      ∙ >>=-of _ (>>=-of _ f),
  motion_ticks-settled 7 m begun away refl (update_at d.imgs end (some away))
      ∙ ap with_imgs (update-update d.imgs end (some away) (some (settled m away)))
      ∙ ap
          (λ (place : ℤ × ℤ). with_imgs (
            update d.imgs end
              (some (record to { left = place.0; top = place.1; z_index = piece_img_zindex }))))
          (ap₂ (λ (x y : ℤ). (x, y)) (sym kx) (sym ky)),
)
  where
    m : Motion
    m = record {
      end = end;
      start_x = sx;
      start_y = sy;
      end_x = ex;
      end_y = ey;
      step = max_step - 1;
    }

    away : Img
    away = record to { z_index = move_piece_img_zindex; left = from.left; top = from.top }

    begun : UiDisplayer
    begun = record d { imgs = update d.imgs end (some away) }

    with_imgs : (ℕ → Option Img) → Option (Option Motion × UiDisplayer)
    with_imgs imgs = some (none, record d { imgs = imgs })
