-- ===== src/Engine/Geometry.antt =====
-- graphics/geometry.hpp: points and rectangles of `int` coordinates, which are taken not to overflow.
pub mod Clip
use kindle_myts.Base.{Bool, ◌||◌, if◌then◌else◌}
use kindle_myts.Base.Int.{ℤ, pos, ◌+ℤ◌, ◌-ℤ◌, ltz, lez}

pub record Rect : Type 0 where
  pub x : ℤ
  pub y : ℤ
  pub width : ℤ
  pub height : ℤ

abbrev pub no_rect : Rect
no_rect = record { x = pos 0; y = pos 0; width = pos 0; height = pos 0 }

unfoldable pub is_empty : Rect → Bool
is_empty r = lez r.width (pos 0) || lez r.height (pos 0)

-- `nx` and `nw` behind the clipping at the left edge, or `ny` and `nh` at the top
unfoldable pub clip_start : ℤ → ℤ → ℤ
clip_start x low = if ltz x low then low else x

unfoldable pub clip_low : ℤ → ℤ → ℤ → ℤ
clip_low x size low = if ltz x low then size -ℤ (low -ℤ x) else size

-- `nw` behind the clipping at the right edge, `nh` at the bottom
unfoldable pub clip_high : ℤ → ℤ → ℤ → ℤ
clip_high start size high = if ltz high (start +ℤ size) then high -ℤ start else size

unfoldable pub clipped : Rect → Rect → Rect
unfolding clip_start clip_low clip_high
clipped r bounds = record {
  x = clip_start r.x bounds.x;
  y = clip_start r.y bounds.y;
  width =
      clip_high (clip_start r.x bounds.x) (clip_low r.x r.width bounds.x)
        (bounds.x +ℤ bounds.width);
  height =
      clip_high (clip_start r.y bounds.y) (clip_low r.y r.height bounds.y)
        (bounds.y +ℤ bounds.height);
}

unfoldable pub clip : Rect → Rect → Rect
unfolding is_empty clipped
clip r bounds =
    if is_empty r || is_empty bounds
    then no_rect
    else if is_empty (clipped r bounds)
    then no_rect
    else clipped r bounds
