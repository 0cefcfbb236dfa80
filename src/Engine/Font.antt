-- ===== src/Engine/Font.antt =====
-- graphics/font_renderer.hpp: the glyphs of a font, their lines in a hex file, and their drawing on a
-- surface at places that are not negative. `none` is an access outside the storage.
pub mod Drawing
pub mod Loading
use kindle_myts.Base.{
  ℕ, zero, suc, ◌+◌, ◌-◌, ◌*◌, ◌/◌, ◌%◌, ◌^◌, Bool, true, false, ◌&&◌, ◌||◌, List, [], ◌∷◌, ◌++◌,
  Option, none, some, ◌>>=◌, ltb, leb, ◌==◌, if◌then◌else◌, length, replicate, get_elem?, drop,
  bit_or,
}
use kindle_myts.Engine.Pixmap.{OwnedPixmap, put_pixel}

-- `FontRenderer`; an offset is 1 more than the place of the glyph, and 0 for none
pub record Font : Type 0 where
  pub width : ℕ
  pub height : ℕ
  pub bytes_per_row : ℕ
  pub glyph_bytes : ℕ
  pub storage : List ℕ
  pub offsets : ℕ → ℕ

unfoldable pub new_font : ℕ → ℕ → Font
new_font w h = record {
  width = w;
  height = h;
  bytes_per_row = (w + 7) / 8;
  glyph_bytes = h * ((w + 7) / 8);
  storage = [];
  offsets = λ cp. 0;
}

unfoldable pub has_glyph : ℕ → Font → Bool
has_glyph cp f = ltb cp 65536 && ltb 0 (f.offsets cp)

-- `get_glyph`: where the glyph begins
unfoldable pub get_glyph : ℕ → Font → Option ℕ
unfolding has_glyph
get_glyph cp f = if has_glyph cp f then some (f.offsets cp - 1) else none

-- the bit of a column, counted from the left
abbrev pub ink : ℕ → ℕ → Bool
ink byte c = byte / 2 ^ (7 - c % 8) % 2 == 1

-- `row_bytes | row_bytes >> 1`
abbrev pub smeared : ℕ → ℕ
smeared byte = bit_or byte (byte / 2)

module _ (shape : ℕ → ℕ) (fg bg : ℕ) (f : Font) where
  -- `n` columns from `c` on, of the row whose bytes begin at `row`
  unfoldable pub draw_columns : ℕ → ℕ → ℕ → ℕ → ℕ → OwnedPixmap → Option OwnedPixmap
  draw_columns zero c row x y dst = some dst
  draw_columns (suc n) c row x y dst = do
    byte ← get_elem? f.storage (row + c / 8)
    dst' ← put_pixel (x + c) y (if ink (shape byte) c then fg else bg) dst
    draw_columns n (c + 1) row x y dst'

  -- `n` rows from `r` on
  unfoldable pub draw_rows : ℕ → ℕ → ℕ → ℕ → ℕ → OwnedPixmap → Option OwnedPixmap
  unfolding draw_columns
  draw_rows zero r at x y dst = some dst
  draw_rows (suc n) r at x y dst =
      draw_columns f.width 0 (at + r * f.bytes_per_row) x (y + r) dst >>= draw_rows n (r + 1) at x y

  -- where the glyph begins, or that there is none
  unfoldable pub draw_found : Option ℕ → ℕ → ℕ → OwnedPixmap → Option (Bool × OwnedPixmap)
  unfolding draw_rows
  draw_found none x y dst = some (false, dst)
  draw_found (some at) x y dst = draw_rows f.height 0 at x y dst >>= λ dst'. some (true, dst')

  unfoldable pub draw_glyph : ℕ → ℕ → ℕ → OwnedPixmap → Option (Bool × OwnedPixmap)
  unfolding draw_found
  draw_glyph cp x y dst = draw_found (get_glyph cp f) x y dst

unfoldable pub draw_char : ℕ → ℕ → Font → ℕ → ℕ → ℕ → OwnedPixmap → Option (Bool × OwnedPixmap)
unfolding draw_glyph
draw_char fg bg f cp x y dst = draw_glyph (λ byte. byte) fg bg f cp x y dst

unfoldable pub draw_char_bold : ℕ → ℕ → Font → ℕ → ℕ → ℕ → OwnedPixmap → Option (Bool × OwnedPixmap)
unfolding draw_glyph
draw_char_bold fg bg f cp x y dst = draw_glyph smeared fg bg f cp x y dst

unfoldable pub hex_nibble : ℕ → Option ℕ
hex_nibble c =
    if leb b'0' c && leb c b'9'
    then some (c - b'0')
    else if leb b'a' c && leb c b'f'
    then some (c - b'a' + 10)
    else if leb b'A' c && leb c b'F'
    then some (c - b'A' + 10)
    else none

-- the code point in front of the colon, read on from `acc`, of 32 bits; and what stands behind the colon
unfoldable pub read_codepoint : ℕ → List ℕ → Option (ℕ × List ℕ)
unfolding hex_nibble
read_codepoint acc [] = none
read_codepoint acc (c ∷ cs) =
    if c == b':'
    then some (acc, cs)
    else (hex_nibble c >>= λ n. read_codepoint (acc * 16 % 2 ^ 32 + n) cs)

-- the text without `\r` and spaces at its end
unfoldable pub trimmed : List ℕ → List ℕ
trimmed [] = []
trimmed (c ∷ cs) =
    let rest = trimmed cs in if (c == b'\r' || c == b' ') && length rest == 0 then [] else c ∷ rest

-- `n` bytes, of two digits each
unfoldable pub read_bytes : ℕ → List ℕ → Option (List ℕ)
unfolding hex_nibble
read_bytes zero text = some []
read_bytes (suc n) [] = none
read_bytes (suc n) (a ∷ []) = none
read_bytes (suc n) (a ∷ b ∷ rest) = do
  hi ← hex_nibble a
  lo ← hex_nibble b
  bytes ← read_bytes n rest
  some ((hi * 16 + lo) ∷ bytes)

-- a glyph stored
unfoldable pub add_glyph : ℕ → List ℕ → Font → Font
add_glyph cp bytes f = record f {
  storage = f.storage ++ bytes;
  offsets = λ other. if other == cp then (length f.storage + 1) % 2 ^ 32 else f.offsets other;
}

-- behind the colon
unfoldable pub parse_bitmap : ℕ → List ℕ → Font → Bool × Font
unfolding trimmed read_bytes add_glyph
parse_bitmap cp text f =
    if leb 65536 cp || ltb (length (trimmed text)) (f.height * f.bytes_per_row * 2)
    then (false, f)
    else elim (read_bytes f.glyph_bytes (trimmed text)) [
      | none ↦ (false, f)
      | some bytes ↦ (true, add_glyph cp bytes f)
    ]

abbrev pub starts_with_colon : List ℕ → Bool
starts_with_colon [] = false
starts_with_colon (c ∷ cs) = c == b':'

unfoldable pub parse_hex_line : List ℕ → Font → Bool × Font
unfolding read_codepoint parse_bitmap
parse_hex_line line f =
    if starts_with_colon line then (false, f) else elim (read_codepoint 0 line) [
      | none ↦ (false, f)
      | some (cp, text) ↦ parse_bitmap cp text f
    ]

-- the lines of a text; none for a last line that is empty
unfoldable pub lines_from : List ℕ → List ℕ → List (List ℕ)
lines_from line [] = if length line == 0 then [] else line ∷ []
lines_from line (c ∷ cs) =
    let more = lines_from (line ++ (c ∷ [])) cs in
    let next = lines_from [] cs in if c == b'\n' then line ∷ next else more

-- a line that is looked at
abbrev pub has_text : List ℕ → Bool
has_text [] = false
has_text (c ∷ cs) = if c == b'#' then false else true

unfoldable pub load_lines : List (List ℕ) → Bool × Font → Bool × Font
unfolding parse_hex_line
load_lines [] (any, f) = (any, f)
load_lines (line ∷ rest) (any, f) =
    load_lines rest
      (if has_text line then (let (ok, g) = parse_hex_line line f in (any || ok, g)) else (any, f))

unfoldable pub load_hex_data : List ℕ → Font → Bool × Font
unfolding load_lines lines_from
load_hex_data text f = load_lines (lines_from [] text) (false, f)

-- `load_hex_file`, with what the file holds where it can be opened
unfoldable pub load_hex_file : Option (List ℕ) → Font → Bool × Font
unfolding load_hex_data
load_hex_file none f = (false, f)
load_hex_file (some text) f = if length text == 0 then (false, f) else load_hex_data text f
