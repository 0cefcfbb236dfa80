-- ===== src/Engine/Render.antt =====
-- terminal/terminal_session.hpp: `render`, which draws the cells of a session on a surface.
pub mod Cells
pub mod Shown
use kindle_myts.Base.{
  ℕ, zero, suc, ◌+◌, ◌*◌, Bool, true, false, ◌&&◌, not, List, Option, none, some, ◌>>=◌, ◌==◌,
  if◌then◌else◌, get_elem?,
}
use kindle_myts.Engine.Session.{Session}
use kindle_myts.Engine.Pixmap.{OwnedPixmap}
use kindle_myts.Engine.Font.{Font, draw_char}

-- a mark that says false
abbrev pub is_unmarked : Option Bool → Bool
is_unmarked none = false
is_unmarked (some mark) = not mark

-- a row that is not drawn, where there are marks: those behind the last mark are
abbrev pub is_left_out : Option (List Bool) → ℕ → Bool
is_left_out none r = false
is_left_out (some marks) r = is_unmarked (get_elem? marks r)

module _ (f : Font) (show_cursor : Bool) (s : Session) where
  abbrev pub is_cursor : ℕ → ℕ → Bool
  is_cursor r c = show_cursor && (r == s.cursor_row && c == s.cursor_col)

  abbrev pub fg_at : ℕ → ℕ → ℕ
  fg_at r c = if is_cursor r c then 15 else 0

  abbrev pub bg_at : ℕ → ℕ → ℕ
  bg_at r c = if is_cursor r c then 0 else 15

  -- `n` cells of a row, from column `c` on
  unfoldable pub render_columns : ℕ → ℕ → ℕ → OwnedPixmap → Option OwnedPixmap
  render_columns zero c r dst = some dst
  render_columns (suc n) c r dst = do
    cell ← get_elem? s.cells (r * s.cols + c)
    out ← draw_char (fg_at r c) (bg_at r c) f cell.c (c * f.width) (r * f.height) dst
    render_columns n (c + 1) r out.1

  -- `n` rows, from row `r` on
  unfoldable pub render_rows : Option (List Bool) → ℕ → ℕ → OwnedPixmap → Option OwnedPixmap
  unfolding render_columns
  render_rows marks zero r dst = some dst
  render_rows marks (suc n) r dst =
      (if is_left_out marks r then some dst else render_columns s.cols 0 r dst)
      >>= render_rows marks n (r + 1)

  unfoldable pub render : Option (List Bool) → OwnedPixmap → Option OwnedPixmap
  unfolding render_rows
  render marks dst = render_rows marks s.rows 0 dst
