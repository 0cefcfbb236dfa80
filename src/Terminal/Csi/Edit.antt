-- ===== src/Terminal/Csi/Edit.antt =====
-- terminal.c, `do_csi`: the commands that erase, insert and delete characters and lines.
use kindle_myts.Base.{
  ℕ, zero, suc, ◌+◌, ◌-◌, ◌/◌, ◌&&◌, Option, some, ◌>>=◌, ◌>>◌, require, int_value, ltb, leb, ◌==◌,
  if◌then◌else◌, move,
}
use kindle_myts.Terminal.{Screen, region_start, region_end}
use kindle_myts.Terminal.Page.{erase, move_cells, page_scroll, page_scrolldown}

-- case '@'. The attributes are moved from `a` cells before the cursor to the cursor.
unfoldable pub insert_chars : Screen → ℕ → ℕ → Option Screen
insert_chars s a1 curcol = do
  over ← int_value (curcol + a1)
  let a = if ltb s.cols over then s.cols - curcol else a1
  let l = s.cols - curcol - a
  page ← move s.page (s.cur + a) s.cur l
  require (leb a s.cur)
  attributes ← move s.attributes s.cur (s.cur - a) l
  erase (record s { page = page; attributes = attributes }) s.cur a

-- case 'P'
unfoldable pub delete_chars : Screen → ℕ → ℕ → Option Screen
delete_chars s a1 curcol = do
  over ← int_value (curcol + a1)
  let l = s.cols - curcol - a1
  let deleted = do s₁ ← move_cells s s.cur (s.cur + a1) l; erase s₁ (s.cur + l) a1
  if ltb over s.cols then deleted else erase s s.cur (s.cols - curcol)

-- case 'X'
unfoldable pub erase_chars : Screen → ℕ → ℕ → Option Screen
erase_chars s a1 curcol = do
  over ← int_value (a1 + curcol)
  erase s s.cur (if ltb s.cols over then s.cols - curcol else a1)

-- `if (n == 0) a1 = 0;`
abbrev pub or_zero : ℕ → ℕ → ℕ
or_zero n a1 = if n == 0 then 0 else a1

-- case 'J'
unfoldable pub erase_display : Screen → ℕ → ℕ → Option Screen
erase_display s n a1 =
    if or_zero n a1 == 1
    then erase s 0 (s.cur + 1)
    else if or_zero n a1 == 2
    then erase s 0 s.pagelen
    else erase s s.cur (s.pagelen - s.cur)

-- case 'K'
unfoldable pub erase_line : Screen → ℕ → ℕ → ℕ → Option Screen
erase_line s n a1 curcol =
    if or_zero n a1 == 1
    then erase s (s.cur - curcol) (curcol + 1)
    else if or_zero n a1 == 2
    then erase s (s.cur - curcol) s.cols
    else erase s s.cur (s.cols - curcol)

-- `while ((a1 > 0) & (scroll_top + 1 < scroll_bottom))` of case 'L'
unfoldable pub insert_loop : ℕ → Screen → Option Screen
insert_loop zero s = some s
insert_loop (suc a) s =
    let more = (do
      s₁ ← page_scrolldown s
      insert_loop a (record s₁ { scroll_top = s₁.scroll_top + 1 })) in
    if ltb (s.scroll_top + 1) s.scroll_bottom then more else some s

-- `while (a1 > 0)` of case 'M'
unfoldable pub delete_loop : ℕ → Screen → Option Screen
delete_loop zero s = some s
delete_loop (suc a) s = do s₁ ← page_scroll s; delete_loop a s₁

-- case 'L'
unfoldable pub insert_lines : Screen → ℕ → Option Screen
insert_lines s a1 =
    let inserted = (do
      s₁ ← insert_loop a1 (record s { scroll_top = s.cur / s.cols })
      some (record s₁ { scroll_top = s.scroll_top })) in
    if leb (region_start s) s.cur && ltb s.cur (region_end s) then inserted else some s

-- case 'M'
unfoldable pub delete_lines : Screen → ℕ → Option Screen
delete_lines s a1 =
    let s₀ = record s { scroll_top = s.cur / s.cols } in
    let deleted = (do
      s₁ ← (if ltb (s₀.scroll_top + 1) s₀.scroll_bottom then delete_loop a1 s₀ else some s₀)
      some (record s₁ { scroll_top = s.scroll_top })) in
    if leb (region_start s) s.cur && ltb s.cur (region_end s) then deleted else some s
