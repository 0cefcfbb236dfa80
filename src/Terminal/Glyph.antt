-- ===== src/Terminal/Glyph.antt =====
-- terminal.c, `page_append`: one character, control or printing, that is no escape.
pub mod Scrolling
pub mod Safety
pub mod Echo
use kindle_myts.Base.{
  ℕ, zero, suc, ◌+◌, ◌-◌, ◌%◌, ◌^◌, true, false, ◌&&◌, List, [], ◌∷◌, Option, some, ◌>>=◌, ltb, leb,
  ◌==◌, if◌then◌else◌, get_or, store,
}
use kindle_myts.Terminal.{Screen, region_end}
use kindle_myts.Terminal.Cursor.{bound, bound_sub}
use kindle_myts.Terminal.Page.{page_scroll}

-- the box drawing characters of codepage 437, for 0x60 to 0x7f
abbrev pub special : List ℕ
special =
    b'?' ∷ 0xb1 ∷ b'?' ∷ b'?' ∷ b'?' ∷ b'?' ∷ 0xf8 ∷ 0xf1 ∷ b'?' ∷ b'?' ∷ 0xd9 ∷ 0xbf ∷ 0xda ∷ 0xc0
    ∷ 0xc5 ∷ b'?' ∷ b'?' ∷ 0xc4 ∷ b'?' ∷ b'?' ∷ 0xc3 ∷ 0xb4 ∷ 0xc1 ∷ 0xc2 ∷ 0xb3 ∷ 0xf3 ∷ 0xf2
    ∷ 0xe3 ∷ b'?' ∷ 0x9c ∷ 0xfa ∷ b'?' ∷ []

-- the same in Unicode
abbrev pub special16 : List ℕ
special16 =
    0x25c6 ∷ 0x2592 ∷ 0x2409 ∷ 0x240c ∷ 0x240d ∷ 0x240a ∷ 0x00b0 ∷ 0x00b1 ∷ 0x2424 ∷ 0x240b ∷ 0x2518
    ∷ 0x2510 ∷ 0x250c ∷ 0x2514 ∷ 0x253c ∷ 0x23ba ∷ 0x23bb ∷ 0x2500 ∷ 0x23bc ∷ 0x23bd ∷ 0x251c
    ∷ 0x2524 ∷ 0x2534 ∷ 0x252c ∷ 0x2502 ∷ 0x2264 ∷ 0x2265 ∷ 0x03c0 ∷ 0x2260 ∷ 0x00a3 ∷ 0x00b7
    ∷ 0x0020 ∷ []

-- case '\r'
unfoldable pub carriage_return : Screen → ℕ → Screen
carriage_return s curcol = record s {
  cur = bound_sub s s.cur (curcol + (if s.wrapped then s.cols else 0));
  wrapped = false;
}

-- case '\t'
unfoldable pub tab : Screen → ℕ → Screen
tab s curcol =
    let step = if leb (s.cols - 8) curcol then s.cols - 1 - curcol else 8 - curcol % 8 in
    record s { cur = bound s (s.cur + step) }

-- case '\b'
unfoldable pub backspace : Screen → ℕ → Screen
backspace s curcol = record s { cur = bound s (if ltb 0 curcol then s.cur - 1 else s.cur) }

-- `if (kflags & kf_wrapped) ... else cur += cols`
unfoldable pub next_line : Screen → Screen
next_line s = if s.wrapped then record s { wrapped = false } else record s { cur = s.cur + s.cols }

-- One round of `while (cur >= scroll_bottom * cols)`: `B()` runs in origin mode.
unfoldable pub scroll_round : Screen → Option Screen
scroll_round s =
    page_scroll (record s { cur = bound_sub (record s { originmode = true }) s.cur s.cols })

-- The loop itself, for at most so many rounds.
unfoldable pub scroll_loop : ℕ → Screen → Option Screen
scroll_loop zero s = some s
scroll_loop (suc fuel) s =
    let more = scroll_round s >>= scroll_loop fuel in
    if leb (region_end s) s.cur then more else some s

-- Two rounds are enough (`scroll_loop_ends`).
abbrev pub rounds : ℕ
rounds = 2

-- `page[cur] = ...`, with the attributes unless the character is one of the graphic ones
unfoldable pub write_cell : Screen → ℕ → Option Screen
write_cell s c =
    let drawing = leb 0x60 c && (ltb c 0x7f && (s.dographic && s.graphics)) in
    let table = if s.utf8 then special16 else special in
    let drawn = (do
      page ← store s.page s.cur (get_or table (c - 0x60) 0)
      some (record s { page = page })) in
    let written = (do
      page ← store s.page s.cur (if s.utf8 then c % 2 ^ 16 else c % 2 ^ 8)
      attributes ← store s.attributes s.cur s.cur_attr
      some (record s { page = page; attributes = attributes; wrapped = false })) in
    if drawing then drawn else written

-- `if (curcol == cols - 1) kflags |= kf_wrapped; cur++; if (cur > pagelen) cur = 0;`
unfoldable pub advance : Screen → ℕ → Screen
advance s curcol =
    let next = if ltb s.pagelen (s.cur + 1) then 0 else s.cur + 1 in
    record s { wrapped = if curcol == s.cols - 1 then true else s.wrapped; cur = next }

-- the `default:` of the switch
unfoldable pub put_char : Screen → ℕ → ℕ → Option Screen
put_char s c curcol = do
  s₁ ← scroll_loop rounds (if c == b'\n' then next_line s else s)
  if c == b'\n' then some s₁ else (write_cell s₁ c >>= λ s₂. some (advance s₂ curcol))

-- the switch of `page_append`, less the escapes
unfoldable pub put_code : Screen → ℕ → ℕ → Option Screen
unfolding put_char carriage_return tab backspace
put_code s c curcol =
    if c == b'\r'
    then some (carriage_return s curcol)
    else if c == 0x0e
    then some (record s { dographic = true })
    else if c == 0x0f
    then some (record s { dographic = false })
    else if c == 7
    then some s
    else if c == b'\t'
    then some (tab s curcol)
    else if c == 8
    then some (backspace s curcol)
    else put_char s c curcol
