-- ===== src/Terminal/Start.antt =====
-- terminal.c: `term_new` up to `forkpty`: the block of memory of a session, and its first screen.
use kindle_myts.Base.{
  ℕ, ◌+◌, ◌-◌, ◌*◌, ◌%◌, ◌≤◌, ◌≡◌, refl, ap, ◌∙◌, arith, Bool, true, false, ◌||◌, Option, some,
  if◌then◌else◌, ltb, replicate, length-replicate, get_elem?-replicate, get_elem?_ext, splice,
  get_elem?-splice, Returns, fill, fill_lem,
}
use kindle_myts.Terminal.{Screen, IsWf}
use kindle_myts.Terminal.Page.{erase}

-- `rows < 4 || rows > 160`; a negative number takes the default too, as 0 does
unfoldable pub checked_rows : ℕ → ℕ
checked_rows rows = if ltb rows 4 || ltb 160 rows then 25 else rows

unfoldable pub checked_cols : ℕ → ℕ
checked_cols cols = if ltb cols 10 || ltb 320 cols then 80 else cols

abbrev pub cell_bytes : Bool → ℕ
cell_bytes utf8 = if utf8 then 2 else 1

-- The block of `new_sess`: `size` bytes, with the arrays at these offsets from its start. The block
-- starts at an even address, as every block of `calloc` does.
pub record Layout : Type 0 where
  pub name : ℕ
  pub page : ℕ
  pub attributes : ℕ
  pub sb_page : ℕ
  pub sb_attributes : ℕ
  pub size : ℕ

-- `ln`: the length of the name and its NUL, and a byte more where the page would be at an odd address
unfoldable pub name_bytes : Bool → ℕ → ℕ → ℕ
name_bytes utf8 header name_len =
    let ln = name_len + 1 in if utf8 then (if ltb 0 ((header + ln) % 2) then ln + 1 else ln) else ln

-- `header` is `sizeof(struct my_sess)`, `name_len` is `strlen(name)`.
unfoldable pub layout : Bool → ℕ → ℕ → ℕ → ℕ → ℕ → Layout
unfolding name_bytes
layout utf8 header name_len rows cols sb_lines =
    let b = cell_bytes utf8 in
    let l = rows * cols in
    let ln = name_bytes utf8 header name_len in
    let page = header + ln in
    let behind = page + l * (1 + b) + 1 in
    let sb_page = behind - behind % 2 in
    record {
      name = header;
      page = page;
      attributes = page + l * b;
      sb_page = sb_page;
      sb_attributes = sb_page + sb_lines * cols * b;
      size = header + ln + l * (1 + b) + cols * (1 + b) * sb_lines + 1;
    }

-- The fields that `term_new` sets; `calloc` has set the others to 0.
unfoldable pub cleared : Bool → ℕ → ℕ → ℕ → Screen
cleared utf8 rows cols sb_lines = record {
  utf8 = utf8;
  rows = rows;
  cols = cols;
  pagelen = rows * cols;
  cur = 0;
  nowrap = false;
  originmode = false;
  scroll_top = 0;
  scroll_bottom = rows;
  cur_attr = 0;
  priv = false;
  nocursor = false;
  graphics = false;
  dographic = false;
  wrapped = false;
  page = replicate (rows * cols) 0;
  attributes = replicate (rows * cols) 0;
  sb_lines = sb_lines;
  top = 0;
  sb_page = replicate (sb_lines * cols) 0;
  sb_attributes = replicate (sb_lines * cols) 0;
}

unfoldable pub term_new_screen : Bool → ℕ → ℕ → ℕ → Option Screen
unfolding checked_rows checked_cols cleared
term_new_screen utf8 rows cols sb_lines =
    let s = cleared utf8 (checked_rows rows) (checked_cols cols) sb_lines in erase s 0 s.pagelen

-- The page is as large as asked for where that is allowed, and has 4 to 160 rows of 10 to 320 cells.
pub record IsGeometry (rows cols : ℕ) (s : Screen) : Type 0 where
  few_rows : 4 ≤ s.rows
  many_rows : s.rows ≤ 160
  few_cols : 10 ≤ s.cols
  many_cols : s.cols ≤ 320
  rows_kept : 4 ≤ rows → rows ≤ 160 → s.rows ≡ rows
  cols_kept : 10 ≤ cols → cols ≤ 320 → s.cols ≡ cols

pub record Started (utf8 : Bool) (rows cols sb_lines : ℕ) (s : Screen) : Type 0 where
  wf : IsWf s
  geometry : IsGeometry rows cols s
  wide : s.utf8 ≡ utf8
  origin : s.cur ≡ 0
  no_history : s.top ≡ 0
  history_room : s.sb_lines ≡ sb_lines
  blank : s.page ≡ replicate s.pagelen 0x20
  plain : s.attributes ≡ replicate s.pagelen 0

rows_range :
    (r : ℕ) → (4 ≤ checked_rows r) × (checked_rows r ≤ 160) × (4 ≤ r → r ≤ 160 → checked_rows r ≡ r)
unfolding checked_rows
rows_range r = (ground arith, ground arith, λ lo hi. ground arith)

cols_range :
    (c : ℕ)
    → (10 ≤ checked_cols c) × (checked_cols c ≤ 320) × (10 ≤ c → c ≤ 320 → checked_cols c ≡ c)
unfolding checked_cols
cols_range r = (ground arith, ground arith, λ lo hi. ground arith)

fill_all : (n x v : ℕ) → fill (replicate n x) 0 n v ≡ some (replicate n v)
unfolding fill
fill_all n x v =
    fill_lem (replicate n x) 0 n v (omega (arith, length-replicate n x))
    ∙ ap some (
        get_elem?_ext (splice 0 (replicate n v) (replicate n x)) (replicate n v) λ i.
          rw
            (get_elem?-splice 0 (replicate n v) (replicate n x) i
              (omega (arith, length-replicate n x, length-replicate n v)))
            (ground
              (arith, length-replicate n v, get_elem?-replicate n v i, get_elem?-replicate n x i)))

-- A new session's screen is built for every size asked for: it is well-formed, of an allowed size
-- that is the one asked for where that is allowed, blank, with the cursor at its start and an empty
-- scrollback area.
pub term_new_screen_returns :
    (utf8 : Bool) (rows cols sb_lines : ℕ)
    → Returns (term_new_screen utf8 rows cols sb_lines) (Started utf8 rows cols sb_lines)
unfolding term_new_screen erase cleared
term_new_screen_returns utf8 rows cols sb_lines =
    let (r_lo, r_hi, r_eq) = rows_range rows in
    let (c_lo, c_hi, c_eq) = cols_range cols in
    let n = checked_rows rows * checked_cols cols in
    let zeros = length-replicate {A = ℕ} n 0 in
    (
      record (cleared utf8 (checked_rows rows) (checked_cols cols) sb_lines) {
        page = replicate n 0x20;
      },
      rw (fill_all n 0 0x20) (rw (fill_all n 0 0) refl),
      record {
        wf = record {
          some_cols = omega arith;
          area = refl;
          region = omega arith;
          region_in = omega arith;
          cur_in = omega arith;
          page_len = length-replicate n 0x20;
          attributes_len = length-replicate n 0;
          top_in = omega arith;
          sb_page_len = length-replicate (sb_lines * checked_cols cols) 0;
          sb_attributes_len = length-replicate (sb_lines * checked_cols cols) 0;
        };
        geometry = record {
          few_rows = r_lo;
          many_rows = r_hi;
          few_cols = c_lo;
          many_cols = c_hi;
          rows_kept = r_eq;
          cols_kept = c_eq;
        };
        wide = refl;
        origin = refl;
        no_history = refl;
        history_room = refl;
        blank = refl;
        plain = refl;
      },
    )

name_room :
    (utf8 : Bool) (header name_len : ℕ)
    → header + name_len + 1 ≤ header + name_bytes utf8 header name_len
unfolding name_bytes
name_room utf8 header name_len = ground arith

name_even : (header name_len : ℕ) → (header + name_bytes true header name_len) % 2 ≡ 0
unfolding name_bytes
name_even header name_len = ground arith

-- The arrays of a new session's block follow one another, each with the room it needs, inside the
-- block, and the cells of two bytes are at even offsets.
pub layout_fits :
    (utf8 : Bool) (header name_len rows cols sb_lines : ℕ)
    → let m = layout utf8 header name_len rows cols sb_lines in
      let b = cell_bytes utf8 in
      (m.name + name_len + 1 ≤ m.page)
      × (m.page + rows * cols * b ≤ m.attributes)
      × (m.attributes + rows * cols ≤ m.sb_page)
      × (m.sb_page + sb_lines * cols * b ≤ m.sb_attributes)
      × (m.sb_attributes + sb_lines * cols ≤ m.size)
      × (utf8 ≡ true → (m.page % 2 ≡ 0) × (m.sb_page % 2 ≡ 0))
unfolding layout name_bytes
layout_fits true header name_len rows cols sb_lines =
    let even = name_even header name_len in
    let room = name_room true header name_len in
    (room, omega arith, omega arith, omega arith, omega arith, λ _. (even, omega arith))
layout_fits false header name_len rows cols sb_lines =
    (omega arith, omega arith, omega arith, omega arith, omega arith, λ e. absurd (ground arith))
