-- ===== src/Engine/Font/Loading.antt =====
-- graphics/font_renderer.hpp: a line written for a glyph is read back.
use kindle_myts.Base.{
  ℕ, ◌+◌, ◌-◌, ◌*◌, ◌/◌, ◌%◌, ◌^◌, ◌≤◌, ◌<◌, ◌≡◌, refl, ap, ◌∙◌, arith, true, false, ◌||◌, List, [],
  ◌∷◌, ◌++◌, some, ltb, leb, ◌==◌, if◌then◌else◌, length, drop, drop-length,
}
use mathlib.Core.Path.{subst}
use kindle_myts.Engine.Font.{
  Font, has_glyph, get_glyph, hex_nibble, read_codepoint, trimmed, read_bytes, add_glyph,
  parse_bitmap, starts_with_colon, parse_hex_line,
}
use kindle_myts.Engine.Font.Drawing.{IsFont}

-- a number below 16 as a digit
unfoldable pub hex_digit : ℕ → ℕ
hex_digit n = if ltb n 10 then b'0' + n else b'a' + n - 10

unfoldable pub hex_digits : List ℕ → List ℕ
hex_digits [] = []
hex_digits (n ∷ ns) = hex_digit n ∷ hex_digits ns

-- two digits for each byte
unfoldable pub hex_bytes : List ℕ → List ℕ
hex_bytes [] = []
hex_bytes (b ∷ bs) = hex_digit (b / 16) ∷ hex_digit (b % 16) ∷ hex_bytes bs

-- the number of such digits, read on from `acc`
unfoldable pub hex_value : ℕ → List ℕ → ℕ
hex_value acc [] = acc
hex_value acc (n ∷ ns) = hex_value (acc * 16 + n) ns

unfoldable pub AllBelow : ℕ → List ℕ → Type 0
AllBelow limit [] = Unit
AllBelow limit (n ∷ ns) = (n < limit) × AllBelow limit ns

hex_nibble-hex_digit : (n : ℕ) → n < 16 → hex_nibble (hex_digit n) ≡ some n
unfolding hex_nibble hex_digit
hex_nibble-hex_digit n h = ground arith

digit_no_mark :
    (n : ℕ)
    → n < 16
    → ((hex_digit n == b':') ≡ false)
      × ((hex_digit n == b'\r') ≡ false)
      × ((hex_digit n == b' ') ≡ false)
unfolding hex_digit
digit_no_mark n h = (ground arith, ground arith, ground arith)

hex_value_grows : (acc : ℕ) (ns : List ℕ) → acc ≤ hex_value acc ns
unfolding hex_value
hex_value_grows acc [] = omega arith
hex_value_grows acc (n ∷ ns) = omega (arith, hex_value_grows (acc * 16 + n) ns)

read_codepoint-hex_digits :
    (acc : ℕ) (ns rest : List ℕ)
    → AllBelow 16 ns
    → hex_value acc ns < 65536
    → read_codepoint acc (hex_digits ns ++ (b':' ∷ rest)) ≡ some (hex_value acc ns, rest)
unfolding read_codepoint hex_digits hex_value AllBelow
read_codepoint-hex_digits acc [] rest h fits = refl
read_codepoint-hex_digits acc (n ∷ ns) rest (d, h) fits =
    let (colon, cr, sp) = digit_no_mark n d in
    let grows = hex_value_grows (acc * 16 + n) ns in
    let small : acc * 16 % 2 ^ 32 ≡ acc * 16 = omega (arith, grows, fits) in
    rw (colon, hex_nibble-hex_digit n d, small)
      (read_codepoint-hex_digits (acc * 16 + n) ns rest h fits)

trimmed-hex_bytes : (bs : List ℕ) → AllBelow 256 bs → trimmed (hex_bytes bs) ≡ hex_bytes bs
unfolding trimmed hex_bytes AllBelow
trimmed-hex_bytes [] h = refl
trimmed-hex_bytes (b ∷ bs) (d, h) =
    let (c, cr, sp) = digit_no_mark (b / 16) (omega (arith, d)) in
    let (c', cr', sp') = digit_no_mark (b % 16) (omega arith) in
    rw (trimmed-hex_bytes bs h) (ground (arith, cr, sp, cr', sp'))

read_bytes-hex_bytes :
    (bs : List ℕ) → AllBelow 256 bs → read_bytes (length bs) (hex_bytes bs) ≡ some bs
unfolding read_bytes hex_bytes AllBelow
read_bytes-hex_bytes [] h = refl
read_bytes-hex_bytes (b ∷ bs) (d, h) =
    let whole : b / 16 * 16 + b % 16 ≡ b = omega arith in
    rw
      (
        hex_nibble-hex_digit (b / 16) (omega (arith, d)),
        hex_nibble-hex_digit (b % 16) (omega arith),
        read_bytes-hex_bytes bs h,
        whole,
      )
      refl

length-hex_bytes : (bs : List ℕ) → length (hex_bytes bs) ≡ length bs * 2
unfolding hex_bytes
length-hex_bytes [] = omega arith
length-hex_bytes (b ∷ bs) = omega (arith, length-hex_bytes bs)

no_colon :
    (ns rest : List ℕ)
    → 0 < length ns
    → AllBelow 16 ns
    → starts_with_colon (hex_digits ns ++ (b':' ∷ rest)) ≡ false
unfolding hex_digits AllBelow
no_colon [] rest pos h = absurd (omega arith)
no_colon (n ∷ ns) rest pos (d, h) = (digit_no_mark n d).0

-- the line of a glyph
abbrev pub hex_line : List ℕ → List ℕ → List ℕ
hex_line ns bs = hex_digits ns ++ (b':' ∷ hex_bytes bs)

parse_bitmap-hex_bytes :
    (cp : ℕ) (bs : List ℕ) (f : Font)
    → IsFont f
    → AllBelow 256 bs
    → length bs ≡ f.glyph_bytes
    → cp < 65536
    → parse_bitmap cp (hex_bytes bs) f ≡ (true, add_glyph cp bs f)
unfolding parse_bitmap
parse_bitmap-hex_bytes cp bs f font h len fits =
    let long = length-hex_bytes bs in
    let tested : (leb 65536 cp || ltb (length (hex_bytes bs)) (f.height * f.bytes_per_row * 2))
        ≡ false =
      ground (arith, fits, long, len, font.glyph_size) in
    let read = subst (λ n. read_bytes n (hex_bytes bs) ≡ some bs) len (read_bytes-hex_bytes bs h) in
    rw (trimmed-hex_bytes bs h, tested, read) refl

add_glyph_found :
    (cp : ℕ) (bs : List ℕ) (f : Font)
    → cp < 65536
    → length f.storage + 1 < 2 ^ 32
    → get_glyph cp (add_glyph cp bs f) ≡ some (length f.storage)
unfolding get_glyph add_glyph has_glyph
add_glyph_found cp bs f fits room = ground arith

-- A glyph that is written as a line of a hex file is loaded from it: for a code point in hexadecimal
-- digits and as many bytes as a glyph of the font has, the line is taken, `get_glyph` finds the glyph at
-- the end of the storage, and the bytes there are those written.
pub parse_hex_line-hex_line :
    (ns bs : List ℕ) (f : Font)
    → IsFont f
    → 0 < length ns
    → AllBelow 16 ns
    → AllBelow 256 bs
    → hex_value 0 ns < 65536
    → length bs ≡ f.glyph_bytes
    → length f.storage + 1 < 2 ^ 32
    → ((parse_hex_line (hex_line ns bs) f).0 ≡ true)
      × (get_glyph (hex_value 0 ns) (parse_hex_line (hex_line ns bs) f).1 ≡ some (length f.storage))
      × (drop (length f.storage) (parse_hex_line (hex_line ns bs) f).1.storage ≡ bs)
unfolding parse_hex_line
parse_hex_line-hex_line ns bs f font pos h k fits len room =
    let e : parse_hex_line (hex_line ns bs) f ≡ (true, add_glyph (hex_value 0 ns) bs f) =
      rw (no_colon ns (hex_bytes bs) pos h, read_codepoint-hex_digits 0 ns (hex_bytes bs) h fits)
        (parse_bitmap-hex_bytes (hex_value 0 ns) bs f font k len fits) in
    (
      ap (λ out. out.0) e,
      ap (λ out. get_glyph (hex_value 0 ns) out.1) e
          ∙ add_glyph_found (hex_value 0 ns) bs f fits room,
      ap (λ out. drop (length f.storage) out.1.storage) e
          ∙ (unfold add_glyph in drop-length f.storage bs),
    )
