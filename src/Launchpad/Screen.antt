-- ===== src/Launchpad/Screen.antt =====
-- launchpad.c: `print_buf` and `process_screen`, which draw the terminal.
-- The size of a character of the font is a parameter.
pub mod View
pub mod Window
pub mod Shown
use kindle_myts.Base.{
  ℕ, zero, suc, ◌+◌, ◌-◌, ◌*◌, ◌/◌, ◌%◌, Bool, true, false, List, [], ◌∷◌, ◌++◌, Option, none, some,
  ◌>>=◌, ltb, leb, ◌==◌, if◌then◌else◌, drop, bit_and, bit_or, length,
}
use kindle_myts.Events.Timers.{Time}
use kindle_myts.Launchpad.State.{Terminal, Pixmap, Draw, put, area, LpState, set_shell}
use kindle_myts.Terminal.Shell.{Shell, TermState, term_state, state_set, state_get}

-- the background of a character with the attributes `bg`
unfoldable pub shade : ℕ → Bool → ℕ
shade bg is_cur =
    let colour = bit_or (bit_and bg 0x38 / 4) (bit_and bg 0x07) in
    let darker = bit_and (bit_or colour (colour / 2)) 0x7 in
    let both = bit_or darker (darker * 16) in if is_cur then bit_or both 0x88 else both

-- the first element, and the rest; `none` is a read behind the end
abbrev pub pop : List ℕ → Option (ℕ × List ℕ)
pop [] = none
pop (c ∷ cs) = some (c, cs)

-- `attr[i]` where there are attributes, else `bg0 << 2`
unfoldable pub pop_attr : ℕ → Option (List ℕ) → Option (ℕ × Option (List ℕ))
pop_attr bg0 none = some (bg0 * 4 % 256, none)
pop_attr bg0 (some attr) = do (a, rest) ← pop attr; some (a, some rest)

-- `cur`, where -1 is `none`
abbrev pub is_cur : Option ℕ → ℕ → Bool
is_cur none i = false
is_cur (some c) i = i == c

-- What the loop of `print_buf` leaves: what it has drawn, `y`, and the size of the last character.
pub record PrintedBuf : Type 0 where
  pub draws : List Draw
  pub y : ℕ
  pub last : Option (ℕ × ℕ)

-- `struct term_state st = { .flags = TS_MOD, .modified = 0}`
abbrev pub blank_state : TermState
blank_state = record {
  set_modified = true;
  set_cb = false;
  set_name = false;
  modified = false;
  cb = false;
  name = [];
  rows = 0;
  cols = 0;
  cur = some 0;
  top = 0;
  page_data = [];
  attr = [];
  sb_data = [];
  sb_attr = [];
}

-- `sb_pos`, at most as many lines as the scrollback area keeps
abbrev pub clamp : ℕ → ℕ → ℕ
clamp top sb_pos = if ltb top sb_pos then top else sb_pos

-- the lines from the scrollback area that are shown
abbrev pub back_rows : ℕ → ℕ → ℕ
back_rows sb_pos rows = if sb_pos == 0 then 0 else if leb rows sb_pos then rows else sb_pos

-- `fb != NULL`
abbrev pub is_open : Option Pixmap → Bool
is_open none = false
is_open (some p) = true

module _ (glyph_size : ℕ → ℕ × ℕ) where
  -- The loop, for so many characters from the `i`th on, which stands at `x` and `y`.
  unfoldable pub print_cells :
      ℕ
      → ℕ
      → ℕ
      → Option ℕ
      → ℕ
      → ℕ
      → ℕ
      → ℕ
      → List ℕ
      → Option (List ℕ)
      → Option (ℕ × ℕ)
      → Option PrintedBuf
  unfolding pop_attr shade
  print_cells zero x0 cols cur bg0 i x y buf attr last =
      some (record { draws = []; y = y; last = last })
  print_cells (suc len) x0 cols cur bg0 i x y buf attr last = do
    (cc, buf₁) ← pop buf
    (a, attr₁) ← pop_attr bg0 attr
    let size = glyph_size cc
    let ends = (i + 1) % cols == 0
    p ←
        print_cells len x0 cols cur bg0 (i + 1) (if ends then x0 else x + size.0)
          (if ends then y + size.1 else y) buf₁ attr₁ (some size)
    some (record p { draws = put x y cc (shade a (is_cur cur i)) ∷ p.draws })

  -- The height of the area is the one of the last character where no line has been filled. With no
  -- character at all `char_pixmap` is not set, `none`.
  unfoldable pub print_end : ℕ → ℕ → ℕ → PrintedBuf → Option (List Draw)
  print_end x0 y0 cols p = do
    (w, h) ← p.last
    let y = if p.y == y0 then p.y + h else p.y
    some (p.draws ++ (area x0 y0 (cols * w) (y - y0) ∷ []))

  unfoldable pub print_buf :
      ℕ → ℕ → ℕ → Option ℕ → List ℕ → ℕ → Option (List ℕ) → ℕ → Option (List Draw)
  unfolding print_cells print_end
  print_buf x0 y0 cols cur buf len attr bg0 =
      print_cells len x0 cols cur bg0 0 x0 y0 buf attr none >>= print_end x0 y0 cols

  unfoldable pub print_back : LpState → TermState → ℕ → Option (List Draw)
  unfolding print_buf
  print_back lps st r =
      let from = (lps.sb_lines - lps.sb_pos) * st.cols in
      print_buf lps.xofs lps.yofs st.cols none (drop from st.sb_data) (r * st.cols)
        (some (drop from st.sb_attr)) 0

  unfoldable pub print_page : LpState → TermState → ℕ → Option (List Draw)
  unfolding print_buf
  print_page lps st r =
      print_buf lps.xofs (lps.yofs + r * lps.fontheight) st.cols st.cur st.page_data
        ((st.rows - r) * st.cols) (some st.attr) 0

  -- what is drawn, with `sb_pos` already clamped
  unfoldable pub print_both : LpState → TermState → Option (List Draw)
  unfolding print_back print_page
  print_both lps st =
      let r = back_rows lps.sb_pos st.rows in
      do
        back ← if lps.sb_pos == 0 then some [] else print_back lps st r
        page ← if ltb r st.rows then print_page lps st r else some []
        some (back ++ page)

  -- with the session `sh` of the current terminal
  unfoldable pub show_shell : LpState → ℕ → Shell → Option LpState
  unfolding print_both term_state
  show_shell lps n sh =
      let (_, sh₁, st) = term_state sh blank_state in
      let lps₁ = record lps {
        sb_pos = clamp st.top lps.sb_pos;
        shells = set_shell lps.shells n (some sh₁);
      } in
      print_both lps₁ st >>= λ draws. some (record lps₁ { drawn = lps.drawn ++ draws })

  unfoldable pub show_terminal : LpState → Option Terminal → Option LpState
  unfolding show_shell
  show_terminal lps none = some lps
  show_terminal lps (some t) = lps.shells t.the_shell >>= show_shell lps t.the_shell

  unfoldable pub process_screen : LpState → Option LpState
  unfolding show_terminal
  process_screen lps =
      let lps₁ = record lps { screen_due = record { sec = 0; usec = 0 } } in
      if is_open lps.fb then show_terminal lps₁ lps.curterm else some lps₁
