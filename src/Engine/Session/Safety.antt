-- ===== src/Engine/Session/Safety.antt =====
-- terminal/terminal_session.hpp: the session stays well formed, no access leaves its vectors, and a
-- cell that changes lies in a row that is marked, but for one case of `erase_before`.
use kindle_myts.Base.{
  ℕ, ◌+◌, ◌-◌, ◌*◌, ◌/◌, ◌≤◌, ◌<◌, ◌≡◌, refl, ap, ◌∙◌, arith, List, [], ◌∷◌, some, ltb, leb, ◌==◌,
  inl, inr, Bool-cases, length, replicate, fill, store, move, min, Returns, returns_test, fill_lem,
  move_lem, length-fill, splice, take, drop, ==→eq, returns_either, length-move, get_elem?-fill,
  length-replicate, last_line_split, mul_mono, ltb→lt, leb→le, leb_false→lt, row_lt,
}
use kindle_myts.Engine.Session.{
  Cell, Session, blank, cursor_index, scroll_up, advance_row, put_cell, next_line, from_one, within,
  on_cursor_move, erase_all, erase_behind, erase_before, on_erase_display, print_plain, next_tab,
  on_print_char,
}
use kindle_myts.Base.Int.{ℤ, pos, negsuc}
use kindle_myts.Engine.Session.Invariant.{
  IsWf, Good, Drawn-refl, Drawn-trans, Good-move, redrawn, redraw, row_of_le,
}
use kindle_myts.Engine.Session.Marks.{mark_row_dirty-Marks, mark_rows-Marks}

pub scroll_up_cells :
    (s : Session)
    → IsWf s
    → 1 < s.rows
    → (xs ys : List Cell) × (move s.cells 0 s.cols ((s.rows - 1) * s.cols) ≡ some xs)
      × (fill xs ((s.rows - 1) * s.cols) s.cols blank ≡ some ys)
      × (length ys ≡ length s.cells)
scroll_up_cells s w h =
    let split = last_line_split s.rows s.cols (omega (arith, h)) in
    let e =
      move_lem s.cells 0 s.cols ((s.rows - 1) * s.cols) (omega (arith, w.cells_len))
        (omega (arith, w.cells_len)) in
    let len = length-move s.cells 0 s.cols ((s.rows - 1) * s.cols) e in
    let xs = splice 0 (take ((s.rows - 1) * s.cols) (drop s.cols s.cells)) s.cells in
    let e' = fill_lem xs ((s.rows - 1) * s.cols) s.cols blank (omega (arith, len, w.cells_len)) in
    (xs, _, e, e', length-fill xs ((s.rows - 1) * s.cols) s.cols blank e' ∙ len)

pub scroll_up-Good : (s : Session) → IsWf s → Returns (scroll_up s) (Good s)
unfolding scroll_up
scroll_up-Good s w = elim (Bool-cases (leb s.rows 1)) [
  | inl one ↦ rw one (s, refl, (w, Drawn-refl s))
  | inr more ↦
      let (xs, ys, e, e', len) = scroll_up_cells s w (leb_false→lt s.rows 1 more) in
      rw more (
        rw e (
          rw e' (
            redraw 0 s.rows s ys w len (λ i i_in.
              inr (omega arith, omega (arith, row_lt i s.rows s.cols w.some_cols i_in))))))
]

pub advance_row-Good : (s : Session) → IsWf s → Returns (advance_row s) (Good s)
unfolding advance_row
advance_row-Good s w = elim (Bool-cases (ltb (s.cursor_row + 1) s.rows)) [
  | inl next ↦ rw next (
    _,
    refl,
    Good-move (s.cursor_row + 1) s.cursor_col (w, Drawn-refl s)
        (ltb→lt (s.cursor_row + 1) s.rows next) w.col_in,
  )
  | inr last ↦ rw last (scroll_up-Good s w)
]

pub next_line_starts :
    (s : Session) → IsWf s → Returns (next_line s) (λ t. Good s t × (t.cursor_col ≡ 0))
unfolding next_line
next_line_starts s w =
    let (t, e, (w', d)) = advance_row-Good s w in
    (_, rw e refl, (Good-move t.cursor_row 0 (w', d) w'.row_in (omega arith), refl))

pub next_line-Good : (s : Session) → IsWf s → Returns (next_line s) (Good s)
next_line-Good s w = let (t, e, (g, z)) = next_line_starts s w in (t, e, g)

pub put_cell-Good :
    (c : ℕ) (s : Session) → IsWf s → s.cursor_col < s.cols → Returns (put_cell c s) (Good s)
unfolding put_cell store
put_cell-Good c s w h =
    let row_fits = mul_mono (s.cursor_row + 1) s.rows s.cols (omega (arith, w.row_in)) in
    let e =
      fill_lem s.cells (cursor_index s) 1 (record { c = c; attr = 0 })
        (omega (arith, w.cells_len, row_fits)) in
    let len = length-fill s.cells (cursor_index s) 1 (record { c = c; attr = 0 }) e in
    let (d, e', m) =
      mark_row_dirty-Marks s.cursor_row
        (record s { cells = splice (cursor_index s) (record { c = c; attr = 0 } ∷ []) s.cells })
        w.dirty_len in
    let good = redrawn s.cursor_row 1 s _ d w len m (λ i i_in.
      elim (Bool-cases (i == cursor_index s)) [
        | inl here ↦
            let z = ==→eq i (cursor_index s) here in
            inr (
              row_of_le s.cursor_row i s.cols w.some_cols (omega (arith, z)),
              row_lt i (s.cursor_row + 1) s.cols w.some_cols (omega (arith, z, h)),
            )
        | inr other ↦ inl (
            ground
              (arith, get_elem?-fill s.cells (cursor_index s) 1 (record { c = c; attr = 0 }) i e))
      ]) in
    rw e
      (rw e' (_, refl, Good-move s.cursor_row (s.cursor_col + 1) good w.row_in (omega (arith, h))))

pub on_cursor_move-Good :
    (row col : ℤ) (s : Session) → IsWf s → Returns (on_cursor_move row col s) (Good s)
unfolding on_cursor_move
on_cursor_move-Good row col s w =
    let (d, e, m) = mark_row_dirty-Marks s.cursor_row s w.dirty_len in
    let good = redrawn s.cursor_row 1 s s.cells d w refl m (λ i i_in. inl refl) in
    let there =
      Good-move (within (from_one row) s.rows) (within (from_one col) s.cols) good
        (ground (arith, w.row_in)) (ground (arith, w.some_cols)) in
    let (d', e', m') = mark_row_dirty-Marks (within (from_one row) s.rows) _ there.0.dirty_len in
    let good' =
      redrawn (within (from_one row) s.rows) 1 _ s.cells d' there.0 refl m' (λ i i_in. inl refl) in
    rw e (_, e', (good'.0, Drawn-trans there.1 good'.1))

erase_all-Good : (s : Session) → IsWf s → Returns (erase_all s) (Good s)
unfolding erase_all
erase_all-Good s w =
    let home = Good-move 0 0 (w, Drawn-refl s) (omega (arith, w.row_in)) (omega arith) in
    let (t, e, (w', d)) =
      redraw 0 s.rows (record s { cursor_row = 0; cursor_col = 0 })
        (replicate (length s.cells) blank) home.0 (length-replicate (length s.cells) blank)
        (λ i i_in. inr (omega arith, omega (arith, row_lt i s.rows s.cols w.some_cols i_in))) in
    (t, e, (w', Drawn-trans home.1 d))

-- the rows below those in front of the cursor
behind_row : (s : Session) (i : ℕ) → IsWf s → cursor_index s ≤ i → s.cursor_row ≤ i / s.cols
behind_row s i w h = row_of_le s.cursor_row i s.cols w.some_cols (omega (arith, h))

erase_behind-Good : (s : Session) → IsWf s → Returns (erase_behind s) (Good s)
unfolding erase_behind
erase_behind-Good s w = elim (Bool-cases (ltb (cursor_index s) (length s.cells))) [
  | inl some_left ↦
      let n = length s.cells - cursor_index s in
      let h = ltb→lt (cursor_index s) (length s.cells) some_left in
      let e = fill_lem s.cells (cursor_index s) n blank (omega (arith, h)) in
      rw some_left (
        rw e (
          redraw s.cursor_row (s.rows - s.cursor_row) s _ w
            (length-fill s.cells (cursor_index s) n blank e)
            (λ i i_in. elim (Bool-cases (leb (cursor_index s) i)) [
              | inl from ↦ inr (
                behind_row s i w (leb→le (cursor_index s) i from),
                omega (arith, w.row_in, row_lt i s.rows s.cols w.some_cols i_in),
              )
              | inr front ↦
                  inl (ground (arith, get_elem?-fill s.cells (cursor_index s) n blank i e))
            ])))
  | inr none_left ↦
      rw none_left
        (redraw s.cursor_row (s.rows - s.cursor_row) s s.cells w refl (λ i i_in. inl refl))
]

erase_before_fill :
    (s : Session)
    → (xs : List Cell) × (fill s.cells 0 (min (cursor_index s + 1) (length s.cells)) blank
        ≡ some xs)
      × (length xs ≡ length s.cells)
erase_before_fill s =
    let n = min (cursor_index s + 1) (length s.cells) in
    let e = fill_lem s.cells 0 n blank (omega arith) in (_, e, length-fill s.cells 0 n blank e)

erase_before-Good :
    (s : Session) → IsWf s → s.cursor_col < s.cols → Returns (erase_before s) (Good s)
unfolding erase_before
erase_before-Good s w h =
    let (xs, e, len) = erase_before_fill s in
    rw e (
      redraw 0 (s.cursor_row + 1) s xs w len (λ i i_in. elim (Bool-cases (leb i (cursor_index s))) [
        | inl front ↦ inr (
          omega arith,
          omega (
            arith,
            row_lt i (s.cursor_row + 1) s.cols w.some_cols
                (omega (arith, h, leb→le i (cursor_index s) front)),
          ),
        )
        | inr behind ↦ inl (
            ground (
              arith,
              get_elem?-fill s.cells 0 (min (cursor_index s + 1) (length s.cells)) blank i e,
            ))
      ]))

erase_before-IsWf : (s : Session) → IsWf s → Returns (erase_before s) IsWf
unfolding erase_before
erase_before-IsWf s w =
    let (xs, e, len) = erase_before_fill s in
    let (d, e', m) = mark_rows-Marks 0 (s.cursor_row + 1) (record s { cells = xs }) w.dirty_len in
    rw e (
      _,
      e',
      record {
        some_cols = w.some_cols;
        row_in = w.row_in;
        col_in = w.col_in;
        cells_len = len ∙ w.cells_len;
        dirty_len = m.kept_len ∙ w.dirty_len;
      },
    )

print_plain-Good : (c : ℕ) (s : Session) → IsWf s → Returns (print_plain c s) (Good s)
unfolding print_plain
print_plain-Good c s w = elim (Bool-cases (ltb c 32)) [
  | inl control ↦ rw control (s, refl, (w, Drawn-refl s))
  | inr plain ↦ elim (Bool-cases (leb s.cols s.cursor_col)) [
    | inl full ↦
        let (t, e, ((w', d), z)) = next_line_starts s w in
        let (u, e', (w'', d')) = put_cell-Good c t w' (omega (arith, z, w'.some_cols)) in
        rw plain (rw full (u, rw e e', (w'', Drawn-trans d d')))
    | inr room ↦ rw plain (rw room (put_cell-Good c s w (leb_false→lt s.cols s.cursor_col room)))
  ]
]

pub on_print_char-Good : (c : ℕ) (s : Session) → IsWf s → Returns (on_print_char c s) (Good s)
unfolding on_print_char
on_print_char-Good c s w =
    let put =
      λ (col : ℕ) (h : col ≤ s.cols). Good-move s.cursor_row col (w, Drawn-refl s) w.row_in h in
    returns_test (Good s) (c == b'\r') _ _ (λ _. (_, refl, put 0 (omega arith)))
      (λ _.
        returns_test (Good s) (c == b'\n') _ _ (λ _. advance_row-Good s w)
          (λ _.
            returns_test (Good s) (c == 8) _ _
              (λ _. (_, refl, put (s.cursor_col - 1) (omega (arith, w.col_in))))
              (λ _.
                returns_test (Good s) (c == b'\t') _ _
                  (λ _.
                    returns_test (Good s) (leb s.cols (next_tab s.cursor_col)) _ _
                      (λ _. next_line-Good s w)
                      (λ h. (
                        _,
                        refl,
                        put (next_tab s.cursor_col)
                            (omega (arith, leb_false→lt s.cols (next_tab s.cursor_col) h)),
                      )))
                  (λ _. print_plain-Good c s w))))

pub on_erase_display-IsWf :
    (mode : ℤ) (s : Session) → IsWf s → Returns (on_erase_display mode s) IsWf
unfolding on_erase_display
on_erase_display-IsWf (negsuc m) s w = (s, refl, w)
on_erase_display-IsWf (pos m) s w =
    returns_test IsWf (m == 2) _ _ (λ _. let (t, e, (v, d)) = erase_all-Good s w in (t, e, v))
      (λ _.
        returns_test IsWf (m == 0) _ _
          (λ _. let (t, e, (v, d)) = erase_behind-Good s w in (t, e, v))
          (λ _. returns_either IsWf (m == 1) _ _ (erase_before-IsWf s w) (s, refl, w)))

-- Mode 1, unless the cursor is behind the last column, and the others.
pub on_erase_display-Good :
    (mode : ℤ) (s : Session)
    → IsWf s
    → (mode ≡ pos 1 → s.cursor_col < s.cols)
    → Returns (on_erase_display mode s) (Good s)
unfolding on_erase_display
on_erase_display-Good (negsuc m) s w h = (s, refl, (w, Drawn-refl s))
on_erase_display-Good (pos m) s w h =
    returns_test (Good s) (m == 2) _ _ (λ _. erase_all-Good s w)
      (λ _.
        returns_test (Good s) (m == 0) _ _ (λ _. erase_behind-Good s w)
          (λ _.
            returns_test (Good s) (m == 1) _ _
              (λ e. erase_before-Good s w (h (ap pos (==→eq m 1 e))))
              (λ _. (s, refl, (w, Drawn-refl s)))))
