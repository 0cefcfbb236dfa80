-- ===== src/Engine/Session.antt =====
-- terminal/terminal_session.hpp: a session, which is a grid of cells with a cursor. `none` is an access
-- outside a vector.
pub mod Marks
pub mod Invariant
pub mod Safety
pub mod Feed
pub mod Contents
pub mod Erased
pub mod Addressed
use kindle_myts.Base.{
  ℕ, zero, suc, ◌+◌, ◌-◌, ◌*◌, ◌/◌, Bool, true, false, ◌||◌, List, [], ◌∷◌, Option, some, ◌>>=◌,
  ltb, leb, ◌==◌, if◌then◌else◌, length, replicate, get_elem?, fill, store, move, min,
}
use kindle_myts.Base.Int.{ℤ, pos, negsuc}

pub record Cell : Type 0 where
  pub c : ℕ
  pub attr : ℕ

pub data ParseState : Type 0 where
  ground_state escape csi : ParseState

-- `TerminalSession`, with the fields of its `AnsiParser`
pub record Session : Type 0 where
  pub rows : ℕ
  pub cols : ℕ
  pub cursor_row : ℕ
  pub cursor_col : ℕ
  pub cells : List Cell
  pub dirty_rows : List Bool
  pub state : ParseState
  pub param_buf : List ℕ

abbrev pub blank : Cell
blank = record { c = b' '; attr = 0 }

-- `n > 0 ? n : d`
abbrev pub positive_or : ℕ → ℤ → ℕ
positive_or d (pos zero) = d
positive_or d (pos (suc n)) = suc n
positive_or d (negsuc n) = d

unfoldable pub new_session : ℤ → ℤ → Session
new_session rows cols = record {
  rows = positive_or 24 rows;
  cols = positive_or 80 cols;
  cursor_row = 0;
  cursor_col = 0;
  cells = replicate (positive_or 24 rows * positive_or 80 cols) blank;
  dirty_rows = replicate (positive_or 24 rows) true;
  state = ground_state;
  param_buf = [];
}

unfoldable pub take_dirty_rows : Session → List Bool × Session
take_dirty_rows s = (s.dirty_rows, record s { dirty_rows = replicate s.rows false })

unfoldable pub mark_all_dirty : Session → Session
mark_all_dirty s = record s { dirty_rows = replicate s.rows true }

-- `char_at`, for a row and a column that are not negative
unfoldable pub char_at : Session → ℕ → ℕ → Option ℕ
char_at s row col =
    if leb s.rows row || leb s.cols col
    then some b' '
    else (get_elem? s.cells (row * s.cols + col) >>= λ cell. some cell.c)

unfoldable pub mark_row_dirty : ℕ → Session → Option Session
mark_row_dirty row s =
    if ltb row s.rows
    then (store s.dirty_rows row true >>= λ d. some (record s { dirty_rows = d }))
    else some s

-- `for (r = row; r < row + n; ++r) mark_row_dirty(r)`
unfoldable pub mark_rows : ℕ → ℕ → Session → Option Session
unfolding mark_row_dirty
mark_rows row zero s = some s
mark_rows row (suc n) s = mark_row_dirty row s >>= mark_rows (row + 1) n

unfoldable pub scroll_up : Session → Option Session
unfolding mark_rows
scroll_up s =
    if leb s.rows 1
    then some s
    else (move s.cells 0 s.cols ((s.rows - 1) * s.cols) >>= λ xs.
        fill xs ((s.rows - 1) * s.cols) s.cols blank >>= λ ys.
        mark_rows 0 s.rows (record s { cells = ys }))

unfoldable pub advance_row : Session → Option Session
unfolding scroll_up
advance_row s =
    if ltb (s.cursor_row + 1) s.rows
    then some (record s { cursor_row = s.cursor_row + 1 })
    else scroll_up s

-- `row > 0 ? row - 1 : 0`
abbrev pub from_one : ℤ → ℕ
from_one (pos zero) = 0
from_one (pos (suc n)) = n
from_one (negsuc n) = 0

-- a target brought back into the grid
abbrev pub within : ℕ → ℕ → ℕ
within n size = if leb size n then size - 1 else n

unfoldable pub on_cursor_move : ℤ → ℤ → Session → Option Session
unfolding mark_row_dirty
on_cursor_move row col s = do
  t ← mark_row_dirty s.cursor_row s
  let u = record t {
    cursor_row = within (from_one row) s.rows;
    cursor_col = within (from_one col) s.cols;
  }
  mark_row_dirty (within (from_one row) s.rows) u

-- the index of the cursor
abbrev pub cursor_index : Session → ℕ
cursor_index s = s.cursor_row * s.cols + s.cursor_col

-- `on_erase_display(2)`
unfoldable pub erase_all : Session → Option Session
unfolding mark_rows
erase_all s =
    mark_rows 0 s.rows
      (record s { cells = replicate (length s.cells) blank; cursor_row = 0; cursor_col = 0 })

-- `on_erase_display(0)`
unfoldable pub erase_behind : Session → Option Session
unfolding mark_rows
erase_behind s =
    (if ltb (cursor_index s) (length s.cells)
      then fill s.cells (cursor_index s) (length s.cells - cursor_index s) blank
      else some s.cells)
    >>= λ xs. mark_rows s.cursor_row (s.rows - s.cursor_row) (record s { cells = xs })

-- `on_erase_display(1)`
unfoldable pub erase_before : Session → Option Session
unfolding mark_rows
erase_before s = fill s.cells 0 (min (cursor_index s + 1) (length s.cells)) blank >>= λ xs.
    mark_rows 0 (s.cursor_row + 1) (record s { cells = xs })

unfoldable pub on_erase_display : ℤ → Session → Option Session
unfolding erase_all erase_behind erase_before
on_erase_display (pos mode) s =
    if mode == 2
    then erase_all s
    else if mode == 0
    then erase_behind s
    else if mode == 1
    then erase_before s
    else some s
on_erase_display (negsuc mode) s = some s

-- a character at the cursor, which is in its row
unfoldable pub put_cell : ℕ → Session → Option Session
unfolding mark_row_dirty
put_cell c s = do
  xs ← store s.cells (cursor_index s) (record { c = c; attr = 0 })
  t ← mark_row_dirty s.cursor_row (record s { cells = xs })
  some (record t { cursor_col = t.cursor_col + 1 })

-- a new row, from its first column
unfoldable pub next_line : Session → Option Session
unfolding advance_row
next_line s = advance_row s >>= λ t. some (record t { cursor_col = 0 })

-- the default case of `on_print_char`
unfoldable pub print_plain : ℕ → Session → Option Session
unfolding put_cell next_line
print_plain c s =
    if ltb c 32
    then some s
    else if leb s.cols s.cursor_col
    then (next_line s >>= put_cell c)
    else put_cell c s

-- `(cursor_col + 8) & ~7`
abbrev pub next_tab : ℕ → ℕ
next_tab col = (col + 8) / 8 * 8

unfoldable pub on_print_char : ℕ → Session → Option Session
unfolding print_plain
on_print_char c s =
    if c == b'\r'
    then some (record s { cursor_col = 0 })
    else if c == b'\n'
    then advance_row s
    else if c == 8
    then some (record s { cursor_col = s.cursor_col - 1 })
    else if c == b'\t'
    then if leb s.cols (next_tab s.cursor_col)
      then next_line s
      else some (record s { cursor_col = next_tab s.cursor_col })
    else print_plain c s
