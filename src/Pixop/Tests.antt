-- ===== src/Pixop/Tests.antt =====
-- pixop.c: a character of three by two pixels on a pixmap of six by three.
use kindle_myts.Base.{◌≡◌, ◌/◌, refl, arith, [], ◌∷◌, some, Returns, copy, fill, splice, store}
use kindle_myts.Pixop.{Pixmap, pix_blt, stride}
use kindle_myts.Pixop.Rows.{row_bytes}
use kindle_myts.Pixop.Safety.{Keeps, pix_blt_inside}

abbrev glyph : Pixmap
glyph = record { width = 3; height = 2; bpp = 4; surface = 0x12 ∷ 0x30 ∷ 0x45 ∷ 0x60 ∷ [] }

abbrev screen : Pixmap
screen = record {
  width = 6;
  height = 3;
  bpp = 4;
  surface = 0xff ∷ 0xff ∷ 0xff ∷ 0xff ∷ 0xff ∷ 0xff ∷ 0xff ∷ 0xff ∷ 0xff ∷ [];
}

-- at an odd column, and at an even one
drawn_odd :
    pix_blt screen 1 1 glyph 0 0 (some 3) 2 0
    ≡ some (
      6,
      record screen { surface = 0xff ∷ 0xff ∷ 0xff ∷ 0xf1 ∷ 0x23 ∷ 0xff ∷ 0xf4 ∷ 0x56 ∷ 0xff ∷ [] },
    )
unfolding pix_blt store fill splice
drawn_odd = refl

drawn_even :
    pix_blt screen 2 1 glyph 0 0 (some 3) 2 0
    ≡ some (
      6,
      record screen { surface = 0xff ∷ 0xff ∷ 0xff ∷ 0xff ∷ 0x12 ∷ 0x3f ∷ 0xff ∷ 0x45 ∷ 0x6f ∷ [] },
    )
unfolding pix_blt copy store fill splice
drawn_even = refl

pix_blt_inside_example :
    Returns
      (pix_blt screen 1 1 glyph 0 0 (some 3) 2 0x88)
      (λ r. Keeps (stride screen) 1 2 (1 / 2) (row_bytes 1 3) screen.surface r.1.surface)
pix_blt_inside_example =
    pix_blt_inside screen 1 1 glyph 0 0 3 2 0x88 (omega arith) (omega arith) (omega arith) refl
      (omega arith) (omega arith) (omega arith) (omega arith)
