-- ===== src/Engine/Tests/Surfaces.antt =====
-- graphics/pixmap.hpp, graphics/font_renderer.hpp and core/byte_buffer.hpp on small surfaces and buffers.
use kindle_myts.Base.{
  ◌+◌, ◌-◌, ◌*◌, ◌≡◌, refl, arith, ◌==◌, true, ◌&&◌, [], ◌∷◌, none, some, ltb, leb, if◌then◌else◌,
  length, drop, Returns,
}
use kindle_myts.Base.Int.{pos}
use kindle_myts.Engine.Session.{blank, new_session}
use kindle_myts.Engine.Session.Feed.{new_session-IsWf}
use kindle_myts.Engine.Render.{render, fg_at, bg_at}
use kindle_myts.Engine.Render.Cells.{glyph_pixel}
use kindle_myts.Engine.Render.Shown.{render_pixel}
use kindle_myts.Engine.Tests.Sessions.{small}
use kindle_myts.Engine.Pixmap.{get_pixel, new_pixmap, put_pixel}
use kindle_myts.Engine.Pixmap.Pixels.{Painted, new_pixmap-IsWf, put_pixel-Painted}
use kindle_myts.Engine.Font.{
  Font, new_font, get_glyph, has_glyph, draw_glyph, parse_hex_line, load_hex_file, load_hex_data,
  load_lines, lines_from, parse_bitmap, read_codepoint, read_bytes, trimmed, hex_nibble, add_glyph,
}
use kindle_myts.Engine.Startup.{init}
use kindle_myts.Engine.Font.Drawing.{IsFont, Plotted, colour_at, draw_glyph-Plotted}
use kindle_myts.Engine.Font.Loading.{hex_value, hex_line, AllBelow, parse_hex_line-hex_line}
use kindle_myts.Engine.Buffer.{ByteBuffer, append}
use kindle_myts.Engine.Buffer.Contents
use kindle_myts.Engine.Buffer.Contents.{Appended, append-Appended}
use kindle_myts.Dynstring.Heap.{heap, heap-IsAllocator}

put_pixel-Painted_example :
    Returns (put_pixel 2 1 0x1f (new_pixmap 3 2)) (Painted (new_pixmap 3 2) 2 1 0x1f)
put_pixel-Painted_example = put_pixel-Painted 2 1 0x1f (new_pixmap 3 2) (new_pixmap-IsWf 3 2)

abbrev empty_font : Font
empty_font = new_font 8 2

empty_font-IsFont : IsFont empty_font
unfolding new_font get_glyph has_glyph
empty_font-IsFont = record {
  row_size = refl;
  glyph_size = refl;
  glyphs_in = λ cp at e. ground (arith, e);
}

parse_hex_line-hex_line_example :
    ((parse_hex_line (hex_line (4 ∷ 1 ∷ []) (0x18 ∷ 0xa5 ∷ [])) empty_font).0 ≡ true)
    × (get_glyph
          (hex_value 0 (4 ∷ 1 ∷ []))
          (parse_hex_line (hex_line (4 ∷ 1 ∷ []) (0x18 ∷ 0xa5 ∷ [])) empty_font).1
        ≡ some (length empty_font.storage))
    × (drop
          (length empty_font.storage)
          (parse_hex_line (hex_line (4 ∷ 1 ∷ []) (0x18 ∷ 0xa5 ∷ [])) empty_font).1.storage
        ≡ 0x18 ∷ 0xa5 ∷ [])
unfolding new_font AllBelow hex_value
parse_hex_line-hex_line_example =
    parse_hex_line-hex_line (4 ∷ 1 ∷ []) (0x18 ∷ 0xa5 ∷ []) empty_font empty_font-IsFont
      (omega arith) (omega arith, (omega arith, tt)) (omega arith, (omega arith, tt)) (omega arith)
      refl (omega arith)

-- a font with the letter A
abbrev font : Font
font = record {
  width = 8;
  height = 2;
  bytes_per_row = 1;
  glyph_bytes = 2;
  storage = 0x18 ∷ 0xa5 ∷ [];
  offsets = λ cp. if cp == 0x41 then 1 else 0;
}

font-IsFont : IsFont font
unfolding get_glyph has_glyph
font-IsFont = record {
  row_size = refl;
  glyph_size = refl;
  glyphs_in = λ cp at e. ground (arith, e);
}

draw_glyph-Plotted_example :
    Returns (draw_glyph (λ byte. byte) 15 0 font 0x41 1 1 (new_pixmap 6 4)) (λ out.
      (out.0 ≡ true)
      × Plotted
          (λ i j. (leb 1 i && ltb i (1 + font.width)) && (leb 1 j && ltb j (1 + font.height)))
          (λ i j. colour_at (λ byte. byte) 15 0 font (0 + (j - 1) * font.bytes_per_row) (i - 1))
          (new_pixmap 6 4)
          out.1)
unfolding get_glyph has_glyph
draw_glyph-Plotted_example =
    draw_glyph-Plotted (λ byte. byte) 15 0 font 0x41 0 1 1 (new_pixmap 6 4) font-IsFont
      (new_pixmap-IsWf 6 4) refl

-- two bytes in a block of three
abbrev filled : ByteBuffer
filled = record { bytes = b'h' ∷ b'i' ∷ 7 ∷ []; size = 2 }

filled-IsWf : Contents.IsWf filled
filled-IsWf = record { used = omega arith; sized = omega arith }

append-Appended_example :
    Returns (append heap (b'!' ∷ b'!' ∷ []) filled) (Appended heap (b'!' ∷ b'!' ∷ []) filled)
append-Appended_example =
    append-Appended heap (b'!' ∷ b'!' ∷ []) filled heap-IsAllocator filled-IsWf (omega arith)

-- the same glyph for the space
abbrev spaced : Font
spaced = record font { offsets = λ cp. if cp == 0x20 then 1 else 0 }

spaced-IsFont : IsFont spaced
unfolding get_glyph has_glyph
spaced-IsFont = record {
  row_size = refl;
  glyph_size = refl;
  glyphs_in = λ cp at e. ground (arith, e);
}

-- the second cell of the second row
render_pixel_example : Returns (render spaced true small none (new_pixmap 24 4)) (λ q.
    get_pixel q (1 * spaced.width + 3) (1 * spaced.height + 0)
    ≡ some (glyph_pixel spaced (fg_at spaced true small 1 1) (bg_at spaced true small 1 1) 0 3 0))
unfolding new_session get_glyph has_glyph new_pixmap
render_pixel_example =
    render_pixel spaced true small none (new_pixmap 24 4) 1 1 0 3 0 blank
      (new_session-IsWf (pos 2) (pos 3)) spaced-IsFont (new_pixmap-IsWf 24 4) (omega arith)
      (omega arith) refl refl refl (omega arith) (omega arith) (omega arith) (omega arith)

-- the font of a program that finds no font file
abbrev plain_font : Font
plain_font = (init none (new_font 8 12) (new_pixmap 2 2)).0

plain_font-loaded : (has_glyph 0x20 plain_font ≡ true) × (has_glyph 0x41 plain_font ≡ true)
unfolding init load_hex_file load_hex_data load_lines lines_from parse_hex_line parse_bitmap
    read_codepoint read_bytes trimmed hex_nibble add_glyph has_glyph new_font
plain_font-loaded = (refl, refl)
