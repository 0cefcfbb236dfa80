-- ===== src/Engine/Session/Contents.antt =====
-- terminal/terminal_session.hpp: which character each cell has after a character, a control sequence, or
-- a scroll.
use kindle_myts.Base.{
  ℕ, ◌+◌, ◌-◌, ◌*◌, ◌≤◌, ◌<◌, ◌≡◌, refl, ◌∙◌, arith, false, [], ◌∷◌, Option, none, some, ltb, leb,
  ◌==◌, if◌then◌else◌, inl, inr, Bool-cases, get_elem?, store, Returns, fill_lem, get_elem?-fill,
  get_elem?-move, get_elem?_out, splice, returns_value, mul_mono, last_line_split, leb_false→lt,
}
use kindle_myts.Engine.Session.{
  Cell, Session, blank, cursor_index, scroll_up, advance_row, put_cell, next_line, print_plain,
}
use kindle_myts.Engine.Session.Marks.{mark_row_dirty-Marks, mark_rows-Marks}
use kindle_myts.Engine.Session.Invariant.{IsWf, Good}
use kindle_myts.Engine.Session.Safety.{scroll_up_cells, next_line-Good}

-- The rows move up by one, and the last is blank, where there is more than one row.
unfoldable pub scrolled : Session → ℕ → Option Cell
scrolled s i =
    if leb s.rows 1
    then get_elem? s.cells i
    else if ltb i ((s.rows - 1) * s.cols)
    then get_elem? s.cells (s.cols + i)
    else if ltb i (s.rows * s.cols)
    then some blank
    else none

-- the cells that `advance_row` leaves
unfoldable pub advanced : Session → ℕ → Option Cell
unfolding scrolled
advanced s i = if ltb (s.cursor_row + 1) s.rows then get_elem? s.cells i else scrolled s i

-- the row of the cursor behind `advance_row`
abbrev pub next_row : Session → ℕ
next_row s = if ltb (s.cursor_row + 1) s.rows then s.cursor_row + 1 else s.cursor_row

-- The cells of a session, by index, and where its cursor is.
pub record Holds (f : ℕ → Option Cell) (row col : ℕ) (s t : Session) : Type 0 where
  pub cells_at : (i : ℕ) → get_elem? t.cells i ≡ f i
  pub row_at : t.cursor_row ≡ row
  pub col_at : t.cursor_col ≡ col
  pub same_cols : t.cols ≡ s.cols
  pub same_rows : t.rows ≡ s.rows

pub as_before : (s : Session) → Holds (get_elem? s.cells) s.cursor_row s.cursor_col s s
as_before s = record {
  cells_at = λ i. refl;
  row_at = refl;
  col_at = refl;
  same_cols = refl;
  same_rows = refl;
}

scroll_up-Holds :
    (s : Session) → IsWf s → Returns (scroll_up s) (Holds (scrolled s) s.cursor_row s.cursor_col s)
unfolding scroll_up scrolled
scroll_up-Holds s w = elim (Bool-cases (leb s.rows 1)) [
  | inl one ↦ rw one (
    s,
    refl,
    record {
      cells_at = λ i. ground arith;
      row_at = refl;
      col_at = refl;
      same_cols = refl;
      same_rows = refl;
    },
  )
  | inr more ↦
      let (xs, ys, e, e', len) = scroll_up_cells s w (leb_false→lt s.rows 1 more) in
      let (d, m, marks) = mark_rows-Marks 0 s.rows (record s { cells = ys }) w.dirty_len in
      let split = last_line_split s.rows s.cols (omega (arith, leb_false→lt s.rows 1 more)) in
      rw more (
        rw e (
          rw e' (
            _,
            m,
            record {
              cells_at = λ i. ground (
                arith,
                split,
                w.cells_len,
                get_elem?-move s.cells 0 s.cols ((s.rows - 1) * s.cols) i e,
                get_elem?-fill xs ((s.rows - 1) * s.cols) s.cols blank i e',
                get_elem?_out s.cells i,
              );
              row_at = refl;
              col_at = refl;
              same_cols = refl;
              same_rows = refl;
            },
          )))
]

pub advance_row-Holds :
    (s : Session)
    → IsWf s
    → Returns (advance_row s) (Holds (advanced s) (next_row s) s.cursor_col s)
unfolding advance_row advanced
advance_row-Holds s w = elim (Bool-cases (ltb (s.cursor_row + 1) s.rows)) [
  | inl next ↦ rw next (
    _,
    refl,
    record {
      cells_at = λ i. ground arith;
      row_at = refl;
      col_at = refl;
      same_cols = refl;
      same_rows = refl;
    },
  )
  | inr last ↦
      let (t, e, h) = scroll_up-Holds s w in
      rw last (
        t,
        e,
        record {
          cells_at = λ i. ground (arith, h.cells_at i);
          row_at = h.row_at;
          col_at = h.col_at;
          same_cols = h.same_cols;
          same_rows = h.same_rows;
        },
      )
]

-- Where the next character goes: to the start of the next row, where the row of the cursor is full.
unfoldable pub print_row : Session → ℕ
print_row s = if leb s.cols s.cursor_col then next_row s else s.cursor_row

unfoldable pub print_col : Session → ℕ
print_col s = if leb s.cols s.cursor_col then 0 else s.cursor_col

-- the cells in front of it
unfoldable pub print_under : Session → ℕ → Option Cell
unfolding advanced
print_under s = if leb s.cols s.cursor_col then advanced s else get_elem? s.cells

-- a cell changed
abbrev pub with_cell : (ℕ → Option Cell) → ℕ → Cell → ℕ → Option Cell
with_cell f at cell i = if i == at then some cell else f i

put_cell-Holds :
    (c : ℕ) (s : Session)
    → IsWf s
    → s.cursor_col < s.cols
    → Returns (put_cell c s) (
        Holds
          (with_cell (get_elem? s.cells) (cursor_index s) (record { c = c; attr = 0 }))
          s.cursor_row
          (s.cursor_col + 1)
          s)
unfolding put_cell store
put_cell-Holds c s w h =
    let cell : Cell = record { c = c; attr = 0 } in
    let row_fits = mul_mono (s.cursor_row + 1) s.rows s.cols (omega (arith, w.row_in)) in
    let e = fill_lem s.cells (cursor_index s) 1 cell (omega (arith, w.cells_len, row_fits)) in
    let (d, e', m) =
      mark_row_dirty-Marks s.cursor_row
        (record s { cells = splice (cursor_index s) (record { c = c; attr = 0 } ∷ []) s.cells })
        w.dirty_len in
    rw e (
      rw e' (
        _,
        refl,
        record {
          cells_at = λ i. ground (arith, get_elem?-fill s.cells (cursor_index s) 1 cell i e);
          row_at = refl;
          col_at = refl;
          same_cols = refl;
          same_rows = refl;
        },
      ))

next_line-Holds :
    (s : Session) → IsWf s → Returns (next_line s) (Holds (advanced s) (next_row s) 0 s)
unfolding next_line
next_line-Holds s w =
    let (t, e, h) = advance_row-Holds s w in
    (
      record t { cursor_col = 0 },
      rw e refl,
      record {
        cells_at = h.cells_at;
        row_at = h.row_at;
        col_at = refl;
        same_cols = h.same_cols;
        same_rows = h.same_rows;
      },
    )

not_control : (c : ℕ) → 32 ≤ c → ltb c 32 ≡ false
not_control c h = ground arith

-- A character that can be printed goes to the next free place: at the cursor, or, where the row of the
-- cursor is full, to the start of the next row, for which the last row of the grid scrolls up. All other
-- cells keep their characters, and the cursor stands behind the new one. A grid of one row does not
-- scroll: the character then replaces the row's first.
pub print_plain-Holds :
    (c : ℕ) (s : Session)
    → IsWf s
    → 32 ≤ c
    → Returns (print_plain c s) (
        Holds
          (with_cell
            (print_under s)
            (print_row s * s.cols + print_col s)
            (record { c = c; attr = 0 }))
          (print_row s)
          (print_col s + 1)
          s)
unfolding print_plain print_under print_row print_col
print_plain-Holds c s w plain = elim (Bool-cases (leb s.cols s.cursor_col)) [
  | inr room ↦
      let (t, e, h) = put_cell-Holds c s w (leb_false→lt s.cols s.cursor_col room) in
      rw (not_control c plain) (
        rw room (
          t,
          e,
          record {
            cells_at = λ i. ground (arith, h.cells_at i);
            row_at = ground (arith, h.row_at);
            col_at = ground (arith, h.col_at);
            same_cols = h.same_cols;
            same_rows = h.same_rows;
          },
        ))
  | inl full ↦
      let (t, e, h) = next_line-Holds s w in
      let (w', d) = returns_value (Good s) (next_line-Good s w) e in
      let (u, e', h') = put_cell-Holds c t w' (omega (arith, h.col_at, w'.some_cols)) in
      rw (not_control c plain) (
        rw full (
          u,
          rw e e',
          record {
            cells_at =
                λ i. ground (arith, h.cells_at i, h'.cells_at i, h.row_at, h.col_at, h.same_cols);
            row_at = ground (arith, h'.row_at, h.row_at);
            col_at = ground (arith, h'.col_at, h.col_at);
            same_cols = h'.same_cols ∙ h.same_cols;
            same_rows = h'.same_rows ∙ h.same_rows;
          },
        ))
]
