-- ===== src/Terminal/Csi/Motion.antt =====
-- terminal.c, `do_csi`: the commands that move the cursor or set the scroll region.
-- `curcol` is the cursor's column. An `int` expression that may pass the range is checked.
use kindle_myts.Base.{
  ℕ, ◌+◌, ◌-◌, ◌*◌, false, ◌&&◌, ◌||◌, Option, some, ◌>>=◌, int_value, ltb, leb, ◌==◌,
  if◌then◌else◌,
}
use kindle_myts.Terminal.{Screen}
use kindle_myts.Terminal.Cursor.{bound, bound_sub}

-- `if (a1 == 0) a1 = 1;`
abbrev pub at_least_one : ℕ → ℕ
at_least_one a = if a == 0 then 1 else a

-- case 'A'
unfoldable pub cursor_up : Screen → ℕ → ℕ → Option Screen
cursor_up s a1 curcol = do
  step ← int_value (s.cols * at_least_one a1)
  some (record s { cur = if ltb s.cur step then curcol else s.cur - step })

-- case 'B'
unfoldable pub cursor_down : Screen → ℕ → ℕ → Option Screen
cursor_down s a1 curcol = do
  step ← int_value (s.cols * at_least_one a1)
  c ← int_value (s.cur + step)
  some (record s { cur = if leb s.pagelen c then s.pagelen - s.cols + curcol else c })

-- case 'C'
unfoldable pub cursor_right : Screen → ℕ → ℕ → Screen
cursor_right s a1 curcol =
    let a = at_least_one a1 in
    let step = if leb (s.cols - curcol) a then s.cols - curcol - 1 else a in
    record s { cur = bound s (s.cur + step) }

-- case 'D'
unfoldable pub cursor_left : Screen → ℕ → ℕ → Screen
cursor_left s a1 curcol =
    let a = at_least_one a1 in
    let step = if ltb curcol a then curcol else a in record s { cur = bound_sub s s.cur step }

-- `if (y < scroll_top || y >= scroll_bottom)`, with y = a - 1: the region becomes the page
unfoldable pub leave_region : Screen → ℕ → Screen
leave_region s a =
    if leb a s.scroll_top || ltb s.scroll_bottom a
    then record s { scroll_top = 0; scroll_bottom = s.rows }
    else s

-- case 'd'
unfoldable pub row_absolute : Screen → ℕ → ℕ → Screen
unfolding leave_region
row_absolute s a1 curcol =
    let a = if leb s.rows a1 then s.rows else a1 in
    let s₁ = leave_region s a in record s₁ { cur = bound_sub s₁ (a * s.cols + curcol) s.cols }

-- cases 'G' and '`'
unfoldable pub column_absolute : Screen → ℕ → ℕ → Screen
column_absolute s a1 curcol =
    let a = if ltb s.cols a1 then s.cols else a1 in
    record s { cur = bound_sub s (s.cur + a) (1 + curcol) }

-- `if (a > most) a = most; else if (a < 1) a = 1;`
abbrev pub clamp_one : ℕ → ℕ → ℕ
clamp_one most a = if ltb most a then most else if ltb a 1 then 1 else a

-- cases 'H' and 'f'
unfoldable pub position : Screen → ℕ → ℕ → Screen
unfolding leave_region
position s a1 a2 =
    let row = clamp_one s.rows a1 in
    let line = if s.originmode then row + s.scroll_top else row in
    let s₁ = if s.originmode then s else leave_region s row in
    let column = clamp_one s.cols a2 in
    record s₁ { cur = bound s₁ ((line - 1) * s.cols + column - 1); wrapped = false }

-- case 'r'
unfoldable pub set_region : Screen → ℕ → ℕ → ℕ → Screen
set_region s n a1 a2 =
    let from = if n == 0 then 1 else a1 in
    let to = if n == 0 then s.rows else a2 in
    let s₁ = record s { scroll_top = from - 1; scroll_bottom = to } in
    if leb 1 from && ltb from to && leb to s.rows
    then record s₁ { cur = bound s₁ ((from - 1) * s.cols) }
    else s
