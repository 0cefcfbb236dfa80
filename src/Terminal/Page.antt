-- ===== src/Terminal/Page.antt =====
-- terminal.c: `erase`, `page_scroll` and `page_scrolldown`.
pub mod Redraw
pub mod Scrolled
pub mod History
use kindle_myts.Base.{
  ℕ, ◌+◌, ◌-◌, ◌*◌, ◌≡◌, Bool, not, ◌&&◌, Option, some, ◌>>=◌, ◌>>◌, require, ltb, ◌==◌,
  if◌then◌else◌, fill, move, copy,
}
use kindle_myts.Terminal.{Screen, region_start}

-- blanks `len` cells from `start` on, with the current attributes
unfoldable pub erase : Screen → ℕ → ℕ → Option Screen
erase s start len = do
  page ← fill s.page start len 0x20
  attributes ← fill s.attributes start len s.cur_attr
  some (record s { page = page; attributes = attributes })

-- `if (sh->top > 1) { ... }`: the stored lines move up by one in the scrollback area.
unfoldable pub shift_history : Screen → Option Screen
shift_history s = do
  require (ltb s.top s.sb_lines)
  let t = (s.sb_lines - s.top) * s.cols
  sb_page ← move s.sb_page (t - s.cols) t (s.top * s.cols)
  sb_attributes ← move s.sb_attributes (t - s.cols) t (s.top * s.cols)
  some (record s { sb_page = sb_page; sb_attributes = sb_attributes })

-- The first line of the page becomes the last of the scrollback area.
unfoldable pub store_line : Screen → Option Screen
store_line s = do
  let t = (s.sb_lines - 1) * s.cols
  sb_page ← copy s.sb_page t s.page 0 s.cols
  sb_attributes ← copy s.sb_attributes t s.attributes 0 s.cols
  some (record s { sb_page = sb_page; sb_attributes = sb_attributes })

unfoldable pub count_line : Screen → Screen
count_line s = if ltb s.top (s.sb_lines - 1) then record s { top = s.top + 1 } else s

unfoldable pub save_line : Screen → Option Screen
save_line s =
    let s₁ = count_line s in
    let moved = if ltb 1 s₁.top then shift_history s₁ else some s₁ in
    if s.scroll_top == 0 && not (s.sb_lines == 0) then moved >>= store_line else some s

-- the `memmove` of `page` and of `attributes`: `n` cells from `src` to `dst`
unfoldable pub move_cells : Screen → ℕ → ℕ → ℕ → Option Screen
move_cells s dst src n = do
  page ← move s.page dst src n
  attributes ← move s.attributes dst src n
  some (record s { page = page; attributes = attributes })

-- `l` in both functions; a negative length is no valid size
unfoldable pub body_len : Screen → Option ℕ
body_len s = do
  require (ltb s.scroll_top s.scroll_bottom)
  some ((s.scroll_bottom - s.scroll_top - 1) * s.cols)

unfoldable pub page_scroll : Screen → Option Screen
page_scroll s = do
  l ← body_len s
  s₁ ← save_line s
  s₂ ← move_cells s₁ (region_start s) (region_start s + s.cols) l
  erase s₂ ((s.scroll_bottom - 1) * s.cols) s.cols

unfoldable pub page_scrolldown : Screen → Option Screen
page_scrolldown s = do
  l ← body_len s
  s₁ ← move_cells s (region_start s + s.cols) (region_start s) l
  erase s₁ (region_start s) s.cols
