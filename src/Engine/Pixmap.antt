-- ===== src/Engine/Pixmap.antt =====
-- graphics/pixmap.hpp: a surface of 4 bits for each pixel, two pixels to a byte. Its width and height are
-- not negative. `none` is an access outside the storage. The masks and shifts of a byte are
-- written as divisions and remainders by 16.
pub mod Pixels
use kindle_myts.Base.{
  ℕ, zero, suc, ◌+◌, ◌-◌, ◌*◌, ◌/◌, ◌%◌, Bool, true, false, ◌||◌, List, [], ◌∷◌, Option, none, some,
  ◌>>=◌, ltb, leb, ◌==◌, if◌then◌else◌, length, replicate, get_elem?, store, bit_or,
}
use kindle_myts.Base.Int.{ℤ, pos, negsuc, ◌+ℤ◌, ◌-ℤ◌}
use kindle_myts.Engine.Geometry.{Rect, is_empty, clip}

pub record OwnedPixmap : Type 0 where
  pub width : ℕ
  pub height : ℕ
  pub stride : ℕ
  pub storage : List ℕ

unfoldable pub new_pixmap : ℕ → ℕ → OwnedPixmap
new_pixmap w h = record {
  width = w;
  height = h;
  stride = (w + 1) / 2;
  storage = replicate ((w + 1) / 2 * h) 0;
}

unfoldable pub clear : ℕ → OwnedPixmap → OwnedPixmap
clear byte p = record p { storage = replicate (length p.storage) byte }

abbrev pub byte_index : OwnedPixmap → ℕ → ℕ → ℕ
byte_index p x y = y * p.stride + x / 2

abbrev pub is_even : ℕ → Bool
is_even n = n % 2 == 0

-- the byte with one of its halves replaced
abbrev pub with_half : Bool → ℕ → ℕ → ℕ
with_half high byte color =
    if high then byte % 16 + color % 16 * 16 else byte / 16 * 16 + color % 16

-- one of the halves
abbrev pub half : Bool → ℕ → ℕ
half high byte = if high then byte / 16 % 16 else byte % 16

-- `set_pixel`, for a column and a row that are not negative
unfoldable pub put_pixel : ℕ → ℕ → ℕ → OwnedPixmap → Option OwnedPixmap
put_pixel x y color p =
    if leb p.width x || leb p.height y
    then some p
    else (get_elem? p.storage (byte_index p x y) >>= λ byte.
        store p.storage (byte_index p x y) (with_half (is_even x) byte color) >>= λ s.
        some (record p { storage = s }))

unfoldable pub set_pixel : ℤ → ℤ → ℕ → OwnedPixmap → Option OwnedPixmap
unfolding put_pixel
set_pixel (pos x) (pos y) color p = put_pixel x y color p
set_pixel (pos x) (negsuc y) color p = some p
set_pixel (negsuc x) y color p = some p

-- `get_pixel`, for a column and a row that are not negative
unfoldable pub get_pixel : OwnedPixmap → ℕ → ℕ → Option ℕ
get_pixel p x y =
    if leb p.width x || leb p.height y
    then some 0
    else (get_elem? p.storage (byte_index p x y) >>= λ byte. some (half (is_even x) byte))

-- `PixmapView` that is not null
pub record PixmapView : Type 0 where
  pub width : ℕ
  pub height : ℕ
  pub stride : ℕ
  pub bytes : List ℕ

unfoldable pub view : OwnedPixmap → PixmapView
view p = record { width = p.width; height = p.height; stride = p.stride; bytes = p.storage }

-- an index that must not be negative
abbrev pub index_of : ℤ → Option ℕ
index_of (pos n) = some n
index_of (negsuc n) = none

-- bytes of a row from column `col` on, for `n` rounds of two columns
unfoldable pub blit_columns : ℕ → ℕ → List ℕ → ℕ → ℕ → ℕ → ℕ → Bool → List ℕ → Option (List ℕ)
blit_columns zero col src src_row dst_row sx x bg_or dst = some dst
blit_columns (suc n) col src src_row dst_row sx x bg_or dst = do
  s ← get_elem? src (src_row + (sx + col) / 2)
  d ← get_elem? dst (dst_row + (x + col) / 2)
  dst' ← store dst (dst_row + (x + col) / 2) (if bg_or then bit_or d s else s)
  blit_columns n (col + 2) src src_row dst_row sx x bg_or dst'

-- `n` rows, from row `row` of the clipped rectangle on; `cols` is its width
unfoldable pub blit_rows :
    ℕ → ℕ → ℕ → PixmapView → ℕ → ℕ → ℕ → ℕ → ℕ → Bool → List ℕ → Option (List ℕ)
unfolding blit_columns
blit_rows zero row cols src stride sx sy x y bg_or dst = some dst
blit_rows (suc n) row cols src stride sx sy x y bg_or dst =
    blit_columns ((cols + 1) / 2) 0 src.bytes ((sy + row) * src.stride) ((y + row) * stride) sx x
      bg_or dst
    >>= blit_rows n (row + 1) cols src stride sx sy x y bg_or

abbrev pub screen_of : OwnedPixmap → Rect
screen_of p = record { x = pos 0; y = pos 0; width = pos p.width; height = pos p.height }

abbrev pub target_of : PixmapView → ℤ → ℤ → Rect
target_of src x y = record { x = x; y = y; width = pos src.width; height = pos src.height }

unfoldable pub blit : PixmapView → ℤ → ℤ → Bool → OwnedPixmap → Option (Bool × OwnedPixmap)
unfolding blit_rows
blit src dx dy bg_or p =
    if src.width == 0 || src.height == 0
    then some (false, p)
    else (let c = clip (target_of src dx dy) (screen_of p) in
        if is_empty c then some (false, p) else do
          sx ← index_of (c.x -ℤ dx)
          sy ← index_of (c.y -ℤ dy)
          x ← index_of c.x
          y ← index_of c.y
          cols ← index_of c.width
          rows ← index_of c.height
          s ← blit_rows rows 0 cols src p.stride sx sy x y bg_or p.storage
          some (true, record p { storage = s }))
