-- ===== src/Engine/Session/Invariant.antt =====
-- terminal/terminal_session.hpp: the invariant of a session, and what an operation may change with no
-- mark on a row.
use kindle_myts.Base.{
  ℕ, ◌+◌, ◌*◌, ◌/◌, ◌≤◌, ◌<◌, ◌≡◌, refl, sym, ◌∙◌, arith, Bool, true, List, Option, some, ◌>>=◌,
  ltb, leb, ◌⊎◌, inl, inr, Bool-cases, length, Returns, get_elem?, mul_mono, ltb→lt, ltb_false→le,
  leb→le, leb_false→lt, row_lt, get_elem?_out,
}
use native.Mathlib.Nat.{div-add-mod, mod-lt}
use kindle_myts.Engine.Session.{Cell, ParseState, Session, mark_rows}
use kindle_myts.Engine.Session.Marks.{Marks, mark_rows-Marks}

-- The cursor is in the grid or behind the last column of its row; the vectors fit the grid.
pub record IsWf (s : Session) : Type 0 where
  pub some_cols : 0 < s.cols
  pub row_in : s.cursor_row < s.rows
  pub col_in : s.cursor_col ≤ s.cols
  pub cells_len : length s.cells ≡ s.rows * s.cols
  pub dirty_len : length s.dirty_rows ≡ s.rows

-- A cell is as before, or its row is marked; and no mark is taken away.
pub record Drawn (s t : Session) : Type 0 where
  pub same_rows : t.rows ≡ s.rows
  pub same_cols : t.cols ≡ s.cols
  pub keeps : (r : ℕ) → get_elem? s.dirty_rows r ≡ some true → get_elem? t.dirty_rows r ≡ some true
  pub shows :
      (i : ℕ)
      → (get_elem? t.cells i ≡ get_elem? s.cells i)
        ⊎ (get_elem? t.dirty_rows (i / s.cols) ≡ some true)

pub Drawn-refl : (s : Session) → Drawn s s
Drawn-refl s = record {
  same_rows = refl;
  same_cols = refl;
  keeps = λ r h. h;
  shows = λ i. inl refl;
}

pub Drawn-trans : {s t u : Session} → Drawn s t → Drawn t u → Drawn s u
Drawn-trans {s} {t} {u} d e = record {
  same_rows = e.same_rows ∙ d.same_rows;
  same_cols = e.same_cols ∙ d.same_cols;
  keeps = λ r h. e.keeps r (d.keeps r h);
  shows = λ i. elim (d.shows i) [
    | inl same ↦ elim (e.shows i) [
      | inl again ↦ inl (again ∙ same)
      | inr marked ↦ inr (rw d.same_cols at marked)
    ]
    | inr marked ↦ inr (e.keeps (i / s.cols) marked)
  ];
}

-- What an operation of the session promises.
abbrev pub Good : Session → Session → Type 0
Good s t = IsWf t × Drawn s t

pub Good-bind :
    {s : Session} (m : Option Session) (f : Session → Option Session)
    → Returns m (Good s)
    → ((t : Session) → IsWf t → t.rows ≡ s.rows → t.cols ≡ s.cols → Returns (f t) (Good t))
    → Returns (m >>= f) (Good s)
Good-bind m f (t, e, (w, d)) next =
    let (u, e', (w', d')) = next t w d.same_rows d.same_cols in (u, rw e e', (w', Drawn-trans d d'))

-- the cursor at another place
pub Good-move :
    (row col : ℕ) {s t : Session}
    → Good s t
    → row < t.rows
    → col ≤ t.cols
    → Good s (record t { cursor_row = row; cursor_col = col })
Good-move row col (w, d) h k = (
  record {
    some_cols = w.some_cols;
    row_in = h;
    col_in = k;
    cells_len = w.cells_len;
    dirty_len = w.dirty_len;
  },
  record { same_rows = d.same_rows; same_cols = d.same_cols; keeps = d.keeps; shows = d.shows },
)

-- Other cells, and marks on the rows of those that changed.
pub redrawn :
    (row n : ℕ) (s : Session) (xs : List Cell) (d : List Bool)
    → IsWf s
    → length xs ≡ length s.cells
    → Marks (record s { cells = xs }) row n d
    → ((i : ℕ)
        → i < s.rows * s.cols
        → (get_elem? xs i ≡ get_elem? s.cells i) ⊎ ((row ≤ i / s.cols) × (i / s.cols < row + n)))
    → Good s (record s { cells = xs; dirty_rows = d })
redrawn row n s xs d w len m where_changed = (
  record {
    some_cols = w.some_cols;
    row_in = w.row_in;
    col_in = w.col_in;
    cells_len = len ∙ w.cells_len;
    dirty_len = m.kept_len ∙ w.dirty_len;
  },
  record {
    same_rows = refl;
    same_cols = refl;
    keeps = λ r h. ground (arith, m.flags r);
    shows = λ i. elim (Bool-cases (ltb i (s.rows * s.cols))) [
      | inl inside ↦
          let h = ltb→lt i (s.rows * s.cols) inside in
          elim (where_changed i h) [
            | inl same ↦ inl same
            | inr (lo, hi) ↦
                let r_in = row_lt i s.rows s.cols w.some_cols h in
                inr (ground (arith, m.flags (i / s.cols)))
          ]
      | inr out ↦
          let h = ltb_false→le i (s.rows * s.cols) out in
          inl (
            get_elem?_out xs i (omega (arith, len, w.cells_len))
            ∙ sym (get_elem?_out s.cells i (omega (arith, w.cells_len))))
    ];
  },
)

pub redraw :
    (row n : ℕ) (s : Session) (xs : List Cell)
    → IsWf s
    → length xs ≡ length s.cells
    → ((i : ℕ)
        → i < s.rows * s.cols
        → (get_elem? xs i ≡ get_elem? s.cells i) ⊎ ((row ≤ i / s.cols) × (i / s.cols < row + n)))
    → Returns (mark_rows row n (record s { cells = xs })) (Good s)
redraw row n s xs w len where_changed =
    let (d, e, m) = mark_rows-Marks row n (record s { cells = xs }) w.dirty_len in
    (_, e, redrawn row n s xs d w len m where_changed)

pub row_of_le : (row i c : ℕ) → 0 < c → row * c ≤ i → row ≤ i / c
row_of_le row i c h le = elim (Bool-cases (leb row (i / c))) [
  | inl fine ↦ leb→le row (i / c) fine
  | inr less ↦ absurd (
      omega (
        arith,
        leb_false→lt row (i / c) less,
        mul_mono (i / c + 1) row c (omega (arith, leb_false→lt row (i / c) less)),
        div-add-mod i c,
        mod-lt i h,
      ))
]

pub IsWf-parse :
    (st : ParseState) (buf : List ℕ) {s : Session}
    → IsWf s
    → IsWf (record s { state = st; param_buf = buf })
IsWf-parse st buf w = record {
  some_cols = w.some_cols;
  row_in = w.row_in;
  col_in = w.col_in;
  cells_len = w.cells_len;
  dirty_len = w.dirty_len;
}
