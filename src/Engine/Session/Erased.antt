-- ===== src/Engine/Session/Erased.antt =====
-- terminal/terminal_session.hpp: which cells `on_erase_display` blanks.
use kindle_myts.Base.{
  ℕ, ◌+◌, ◌-◌, ◌*◌, refl, arith, Bool, true, false, ◌&&◌, some, ltb, leb, ◌==◌, if◌then◌else◌, inl,
  inr, Bool-cases, ◌⊎◌, ◌||◌, ◌≡◌, ◌≤◌, ◌<◌, ◌∙◌, tests, ==→eq, mul_mono, length, replicate,
  get_elem?, min, Returns, fill_lem, get_elem?-fill, get_elem?-replicate, get_elem?_out, splice,
  ltb→lt, ltb_false→le,
}
use kindle_myts.Base.Int.{ℤ, pos, negsuc}
use kindle_myts.Engine.Session.{
  Session, blank, cursor_index, erase_behind, erase_before, erase_all, on_erase_display,
}
use kindle_myts.Engine.Session.Contents.{Holds, as_before}
use kindle_myts.Engine.Session.Marks.{mark_rows-Marks}
use kindle_myts.Engine.Session.Invariant.{IsWf}

-- the indices that `on_erase_display` blanks; for a cursor behind the last column they go on in the next row
unfoldable pub erased_index : ℤ → Session → ℕ → Bool
erased_index (pos m) s i =
    if m == 2
    then true
    else if m == 0
    then leb (cursor_index s) i
    else if m == 1
    then leb i (cursor_index s)
    else false
erased_index (negsuc m) s i = false

-- where the cursor stands afterwards: at home for mode 2
unfoldable pub erased_place : ℤ → ℕ → ℕ
erased_place (pos m) n = if m == 2 then 0 else n
erased_place (negsuc m) n = n

erase_behind-Holds :
    (s : Session)
    → IsWf s
    → Returns (erase_behind s) (
        Holds
          (λ i.
            if leb (cursor_index s) i && ltb i (s.rows * s.cols)
            then some blank
            else get_elem? s.cells i)
          s.cursor_row
          s.cursor_col
          s)
unfolding erase_behind
erase_behind-Holds s w = elim (Bool-cases (ltb (cursor_index s) (length s.cells))) [
  | inl some_left ↦
      let n = length s.cells - cursor_index s in
      let h = ltb→lt (cursor_index s) (length s.cells) some_left in
      let e = fill_lem s.cells (cursor_index s) n blank (omega (arith, h)) in
      let (d, e', k) =
        mark_rows-Marks s.cursor_row (s.rows - s.cursor_row)
          (record s { cells = splice (cursor_index s) (replicate n blank) s.cells }) w.dirty_len in
      rw some_left (
        rw e (
          _,
          e',
          record {
            cells_at = λ i.
                ground (arith, w.cells_len, get_elem?-fill s.cells (cursor_index s) n blank i e);
            row_at = refl;
            col_at = refl;
            same_cols = refl;
            same_rows = refl;
          },
        ))
  | inr none_left ↦
      let (d, e', k) = mark_rows-Marks s.cursor_row (s.rows - s.cursor_row) s w.dirty_len in
      rw none_left (
        _,
        e',
        record {
          cells_at = λ i.
              ground (arith, w.cells_len, ltb_false→le (cursor_index s) (length s.cells) none_left);
          row_at = refl;
          col_at = refl;
          same_cols = refl;
          same_rows = refl;
        },
      )
]

pub on_erase_display-Indexed :
    (mode : ℤ) (s : Session)
    → IsWf s
    → Returns (on_erase_display mode s) (
        Holds
          (λ i.
            if erased_index mode s i && ltb i (s.rows * s.cols)
            then some blank
            else get_elem? s.cells i)
          (erased_place mode s.cursor_row)
          (erased_place mode s.cursor_col)
          s)
unfolding on_erase_display erased_index erased_place erase_all erase_behind erase_before
on_erase_display-Indexed (negsuc m) s w = (s, refl, as_before s)
on_erase_display-Indexed (pos m) s w = elim (Bool-cases (m == 2)) [
  | inl all ↦
      let (d, e, k) =
        mark_rows-Marks 0 s.rows
          (record s { cells = replicate (length s.cells) blank; cursor_row = 0; cursor_col = 0 })
          w.dirty_len in
      rw all (
        _,
        e,
        record {
          cells_at = λ i. ground (
            arith,
            w.cells_len,
            get_elem?-replicate (length s.cells) blank i,
            get_elem?_out s.cells i,
          );
          row_at = ground arith;
          col_at = ground arith;
          same_cols = refl;
          same_rows = refl;
        },
      )
  | inr not_all ↦ elim (Bool-cases (m == 0)) [
    | inl behind ↦
        let (t, e, h) = erase_behind-Holds s w in
        rw not_all (
          rw behind (
            t,
            e,
            record {
              cells_at = λ i. ground (arith, h.cells_at i);
              row_at = h.row_at;
              col_at = h.col_at;
              same_cols = h.same_cols;
              same_rows = h.same_rows;
            },
          ))
    | inr not_behind ↦ elim (Bool-cases (m == 1)) [
      | inl front ↦
          let n = min (cursor_index s + 1) (length s.cells) in
          let e = fill_lem s.cells 0 n blank (omega arith) in
          let (d, e', k) =
            mark_rows-Marks 0 (s.cursor_row + 1)
              (record s { cells = splice 0 (replicate n blank) s.cells }) w.dirty_len in
          rw not_all (
            rw not_behind (
              rw front (
                rw e (
                  _,
                  e',
                  record {
                    cells_at =
                        λ i. ground (arith, w.cells_len, get_elem?-fill s.cells 0 n blank i e);
                    row_at = ground arith;
                    col_at = ground arith;
                    same_cols = refl;
                    same_rows = refl;
                  },
                ))))
      | inr other ↦ rw not_all (
          rw not_behind (
            rw other (
              s,
              refl,
              record {
                cells_at = λ i. ground arith;
                row_at = ground arith;
                col_at = ground arith;
                same_cols = refl;
                same_rows = refl;
              },
            )))
    ]
  ]
]

-- the cells that the display is to lose, by row and column: 0 is from the cursor to the end, 1 from the
-- start to the cursor, 2 all
unfoldable pub to_erase : ℤ → ℕ → ℕ → ℕ → ℕ → Bool
to_erase (pos m) row col r c =
    if m == 2
    then true
    else if m == 0
    then ltb row r || (r == row && leb col c)
    else if m == 1
    then ltb r row || (r == row && leb c col)
    else false
to_erase (negsuc m) row col r c = false

-- mode 1
abbrev pub is_to_cursor : ℤ → Bool
is_to_cursor (pos m) = m == 1
is_to_cursor (negsuc m) = false

-- two cells of rows of one length, in their order
cells_order :
    (size r c row col : ℕ)
    → c < size
    → col ≤ size
    → leb (row * size + col) (r * size + c) ≡ (ltb row r || (r == row && leb col c))
cells_order size r c row col h k = elim (Bool-cases (ltb row r)) [
  | inl later ↦
      let more = mul_mono (row + 1) r size (omega (tests, later)) in
      ground (arith, later, more, h, k)
  | inr not_later ↦ elim (Bool-cases (r == row)) [
    | inl same ↦ let z = ==→eq r row same in rw z (ground (arith, h, k))
    | inr other ↦
        let less = mul_mono (r + 1) row size (omega (tests, not_later, other)) in
        ground (arith, not_later, other, less, h, k)
  ]
]

cells_order_back :
    (size r c row col : ℕ)
    → c < size
    → col < size
    → leb (r * size + c) (row * size + col) ≡ (ltb r row || (r == row && leb c col))
cells_order_back size r c row col h k = elim (Bool-cases (ltb r row)) [
  | inl before ↦
      let more = mul_mono (r + 1) row size (omega (tests, before)) in
      ground (arith, before, more, h, k)
  | inr not_before ↦ elim (Bool-cases (r == row)) [
    | inl same ↦ let z = ==→eq r row same in rw z (ground (arith, h, k))
    | inr other ↦
        let less = mul_mono (row + 1) r size (omega (tests, not_before, other)) in
        ground (arith, not_before, other, less, h, k)
  ]
]

erased_index_lem :
    (mode : ℤ) (s : Session) (r c : ℕ)
    → s.cursor_col ≤ s.cols
    → c < s.cols
    → (s.cursor_col < s.cols) ⊎ (is_to_cursor mode ≡ false)
    → erased_index mode s (r * s.cols + c) ≡ to_erase mode s.cursor_row s.cursor_col r c
unfolding erased_index to_erase
erased_index_lem (negsuc m) s r c w h k = refl
erased_index_lem (pos m) s r c w h (inl inside) =
    rw
      (
        cells_order s.cols r c s.cursor_row s.cursor_col h w,
        cells_order_back s.cols r c s.cursor_row s.cursor_col h inside,
      )
      refl
erased_index_lem (pos m) s r c w h (inr other) =
    rw (other, cells_order s.cols r c s.cursor_row s.cursor_col h w) refl

-- `on_erase_display` blanks the cells of its mode, 0 from the cursor to the end, 1 from the start to the
-- cursor, 2 all; every other cell keeps its character, and only mode 2 moves the cursor, to the first
-- cell. For mode 1 the cursor must not stand behind the last column.
pub on_erase_display_blanks :
    (mode : ℤ) (s : Session) (r c : ℕ)
    → IsWf s
    → r < s.rows
    → c < s.cols
    → (s.cursor_col < s.cols) ⊎ (is_to_cursor mode ≡ false)
    → Returns (on_erase_display mode s) (λ t.
      (get_elem? t.cells (r * s.cols + c) ≡ (
        if to_erase mode s.cursor_row s.cursor_col r c
        then some blank
        else get_elem? s.cells (r * s.cols + c)))
      × (t.cursor_row ≡ erased_place mode s.cursor_row)
      × (t.cursor_col ≡ erased_place mode s.cursor_col))
on_erase_display_blanks mode s r c w h k inside =
    let (t, e, cells) = on_erase_display-Indexed mode s w in
    let i = erased_index_lem mode s r c w.col_in k inside in
    let in_grid : ltb (r * s.cols + c) (s.rows * s.cols) ≡ true =
      ground (arith, mul_mono (r + 1) s.rows s.cols (omega (arith, h)), k) in
    (
      t,
      e,
      (cells.cells_at (r * s.cols + c) ∙ ground (arith, i, in_grid), cells.row_at, cells.col_at),
    )

-- With the cursor behind the last column mode 1 blanks the first cell of the next row too.
erases_next_row :
    (s : Session)
    → IsWf s
    → s.cursor_col ≡ s.cols
    → s.cursor_row + 1 < s.rows
    → Returns
        (on_erase_display (pos 1) s)
        (λ t. get_elem? t.cells ((s.cursor_row + 1) * s.cols) ≡ some blank)
unfolding erased_index
erases_next_row s w h k =
    let (t, e, cells) = on_erase_display-Indexed (pos 1) s w in
    (
      t,
      e,
      cells.cells_at ((s.cursor_row + 1) * s.cols)
          ∙ ground (
            arith,
            h,
            mul_mono (s.cursor_row + 1 + 1) s.rows s.cols (omega (arith, k)),
            w.some_cols,
          ),
    )
