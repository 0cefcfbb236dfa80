-- ===== src/Terminal/Page/History.antt =====
-- terminal.c: the scrollback area holds the last lines that were scrolled off the page.
use kindle_myts.Base.{
  ℕ, ◌+◌, ◌-◌, ◌*◌, Option, none, ltb, if◌then◌else◌, get_elem?, List, drop, take, ◌++◌,
}
use kindle_myts.Terminal.{Screen}
use kindle_myts.Terminal.Page.Scrolled.{inside, moved_cell}

-- What the scrollback area holds once a line is stored.
stored_cell : Screen → ℕ → ℕ → Option ℕ
stored_cell s top i =
    let t = (s.sb_lines - 1) * s.cols in
    let u = (s.sb_lines - top) * s.cols in
    if inside t s.cols i
    then get_elem? s.page (0 + (i - t))
    else if ltb 1 top
    then moved_cell s.sb_page (u - s.cols) u (top * s.cols) i
    else get_elem? s.sb_page i

-- The lines that the scrollback area keeps, the oldest first: its last `top` lines.
abbrev pub history : Screen → List ℕ
history s = drop ((s.sb_lines - s.top) * s.cols) s.sb_page

-- The history with one more line, less the `drops` oldest cells.
abbrev pub next_history : Screen → ℕ → List ℕ
next_history s drops = drop drops (history s ++ take s.cols s.page)

-- The cell of the history with one more line, over the sizes of its parts: `kept` old cells that
-- begin at `first`, then a line of `c`.
abbrev joined : List ℕ → List ℕ → ℕ → ℕ → ℕ → ℕ → Option ℕ
joined sb page c kept first k =
    if ltb k kept
    then get_elem? sb (first + k)
    else if ltb (k - kept) c
    then get_elem? page (k - kept)
    else none
