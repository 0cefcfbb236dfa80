-- ===== src/Pixop.antt =====
-- pixop.c: `pix_blt`, which draws a part of one pixmap on another, four bits for each pixel, and
-- `pix_alloc`.
pub mod Rows
pub mod Safety
mod Tests
use kindle_myts.Base.{
  ℕ, Bool, replicate, zero, suc, ◌+◌, ◌-◌, ◌*◌, ◌/◌, ◌%◌, List, Option, none, some, ◌>>=◌, ◌>>◌,
  require, ltb, ◌==◌, if◌then◌else◌, get_elem?, store, copy, bit_and, bit_or,
}

-- `struct pixmap_str`, with the bytes of `surface`
pub record Pixmap : Type 0 where
  pub width : ℕ
  pub height : ℕ
  pub bpp : ℕ
  pub surface : List ℕ

-- a byte of a surface changed in its place
unfoldable pub poke : List ℕ → ℕ → (ℕ → ℕ) → Option (List ℕ)
poke xs i f = get_elem? xs i >>= λ b. store xs i (f b)

-- `dstp[j] |= bg` for so many bytes from `dp` on
unfoldable pub or_bytes : ℕ → ℕ → ℕ → List ℕ → Option (List ℕ)
unfolding poke
or_bytes zero bg dp dst = some dst
or_bytes (suc n) bg dp dst =
    poke dst dp (λ b. bit_or b bg % 256) >>= λ xs. or_bytes n bg (dp + 1) xs

-- the left pixel of the byte at `dp`, from the left one at `sp`
unfoldable pub left_pixel : ℕ → List ℕ → ℕ → List ℕ → ℕ → Option (List ℕ)
unfolding poke
left_pixel bg src sp dst dp = do
  s ← get_elem? src sp
  poke dst dp (λ d. bit_or (bit_or (bit_and d 0x0f) (bit_and s 0xf0)) (bit_and bg 0xf0))

-- a line at an even `dx`
unfoldable pub even_row : ℕ → ℕ → List ℕ → ℕ → List ℕ → ℕ → Option (List ℕ)
unfolding or_bytes left_pixel
even_row width bg src sp dst dp =
    let w = width / 2 in
    do
      xs ← copy dst dp src sp w
      ys ← if bg == 0 then some xs else or_bytes w bg dp xs
      if width % 2 == 1 then left_pixel bg src (sp + w) ys (dp + w) else some ys

-- the bytes from the second on, each of two bytes of the source
unfoldable pub shift_bytes : ℕ → ℕ → List ℕ → ℕ → List ℕ → ℕ → Option (List ℕ)
shift_bytes zero bg src sp dst dp = some dst
shift_bytes (suc n) bg src sp dst dp = do
  a ← get_elem? src (sp - 1)
  b ← get_elem? src sp
  xs ← store dst dp (bit_or (bit_or (a * 16) (b / 16)) bg % 256)
  shift_bytes n bg src (sp + 1) xs (dp + 1)

-- the right pixel of the first byte
unfoldable pub first_pixel : ℕ → List ℕ → ℕ → List ℕ → ℕ → Option (List ℕ)
unfolding poke
first_pixel bg src sp dst dp = do
  s ← get_elem? src sp
  poke dst dp (λ d. bit_or (bit_or (bit_and d 0xf0) (s / 16)) (bit_and bg 0x0f))

-- the left pixel of the last byte, from the right one in front of `sp`
unfoldable pub last_pixel : ℕ → List ℕ → ℕ → List ℕ → ℕ → Option (List ℕ)
unfolding poke
last_pixel bg src sp dst dp = do
  require (ltb 0 sp)
  s ← get_elem? src (sp - 1)
  poke dst dp (λ d. bit_or (bit_or (bit_and d 0x0f) (s * 16)) (bit_and bg 0xf0) % 256)

-- a line at an odd `dx`
unfoldable pub odd_row : ℕ → ℕ → List ℕ → ℕ → List ℕ → ℕ → Option (List ℕ)
unfolding first_pixel shift_bytes last_pixel
odd_row width bg src sp dst dp =
    let w = (width + 1) / 2 in
    do
      xs ← first_pixel bg src sp dst dp
      ys ← shift_bytes (w - 1) bg src (sp + 1) xs (dp + 1)
      if width % 2 == 0 then last_pixel bg src (sp + w) ys (dp + w) else some ys

unfoldable pub blt_row : ℕ → ℕ → ℕ → List ℕ → ℕ → List ℕ → ℕ → Option (List ℕ)
unfolding even_row odd_row
blt_row dx width bg src sp dst dp =
    if dx % 2 == 0 then even_row width bg src sp dst dp else odd_row width bg src sp dst dp

abbrev pub stride : Pixmap → ℕ
stride p = (p.width + 1) / 2

-- the loop over the lines
unfoldable pub blt_rows : ℕ → ℕ → ℕ → ℕ → ℕ → ℕ → List ℕ → ℕ → List ℕ → ℕ → Option (List ℕ)
unfolding blt_row
blt_rows zero dx width bg dst_stride src_stride src sp dst dp = some dst
blt_rows (suc height) dx width bg dst_stride src_stride src sp dst dp =
    blt_row dx width bg src sp dst dp >>= λ xs.
    blt_rows height dx width bg dst_stride src_stride src (sp + src_stride) xs (dp + dst_stride)

-- With a size. The result is the number of pixels, and the destination behind.
unfoldable pub blt_area : Pixmap → ℕ → ℕ → Pixmap → ℕ → ℕ → ℕ → ℕ → ℕ → Option (ℕ × Pixmap)
unfolding blt_rows
blt_area dst dx dy src sx sy width height bg =
    blt_rows height dx width bg (stride dst) (stride src) src.surface (sy * stride src + sx / 2)
      dst.surface (dy * stride dst + dx / 2)
    >>= λ xs. some (width * height, record dst { surface = xs })

-- A negative width, `none`, stands for the size of the source.
unfoldable pub pix_blt : Pixmap → ℕ → ℕ → Pixmap → ℕ → ℕ → Option ℕ → ℕ → ℕ → Option (ℕ × Pixmap)
unfolding blt_area
pix_blt dst dx dy src sx sy none height bg = blt_area dst dx dy src sx sy src.width src.height bg
pix_blt dst dx dy src sx sy (some width) height bg = blt_area dst dx dy src sx sy width height bg

-- `none` where there is no memory. `calloc` clears the surface, and `bpp` stays 0.
unfoldable pub pix_alloc : Bool → ℕ → ℕ → Option Pixmap
pix_alloc memory w h =
    if memory
    then some (record { width = w; height = h; bpp = 0; surface = replicate ((w + 1) / 2 * h) 0 })
    else none
