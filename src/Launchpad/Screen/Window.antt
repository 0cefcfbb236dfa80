-- ===== src/Launchpad/Screen/Window.antt =====
-- launchpad.c, `process_screen`: what is shown is a window on the scrollback area and the page.
use kindle_myts.Base.{
  ℕ, ◌+◌, ◌-◌, ◌*◌, ◌≤◌, ◌≡◌, refl, ap, sym, ◌∙◌, arith, List, [], ◌++◌, none, some, ltb, ◌==◌,
  if◌then◌else◌, drop, take, length, Returns, ◌⊎◌, inl, inr, length-drop, length-take, mul_mono,
  add_rows, drop-drop, drop-append_left, take-split, returns_test,
}
use kindle_myts.Launchpad.State.{LpState}
use kindle_myts.Launchpad.Screen.{print_back, print_page, print_both, back_rows, blank_state}
use kindle_myts.Launchpad.Screen.View.{
  glyphs, glyphs-append, laid, laid_lower, laid-append, IsFixed, print_buf_lays,
}
use kindle_myts.Terminal.{Screen, IsWf}
use kindle_myts.Terminal.Page.History.{history}
use kindle_myts.Terminal.Shell.{Shell, state_get}

-- The cells of the screen as the user sees them, `pos` lines back.
abbrev pub window : Screen → ℕ → List ℕ
window s pos = take (s.rows * s.cols) (drop ((s.top - pos) * s.cols) (history s ++ s.page))

part_ends :
    (r pos rows c k : ℕ) → k ≡ pos * c → (r ≡ pos) ⊎ (r ≡ rows) → (r * c ≡ k) ⊎ ((rows - r) * c ≡ 0)
part_ends r pos rows c k e (inl same) = inl (omega (arith, e, ap (λ n. n * c) same))
part_ends r pos rows c k e (inr all) =
    let z : rows - r ≡ 0 = omega (arith, all) in inr (rw z (omega arith))

-- The lines of the scrollback area that are shown, and the lines of the page behind them.
window_parts :
    (s : Screen) (pos : ℕ)
    → IsWf s
    → pos ≤ s.top
    → let r = back_rows pos s.rows in
      window s pos
      ≡ take (r * s.cols) (drop ((s.sb_lines - pos) * s.cols) s.sb_page)
        ++ take ((s.rows - r) * s.cols) s.page
window_parts s pos w h =
    let r = back_rows pos s.rows in
    let le : r ≤ s.rows = ground arith in
    let full : (r ≡ pos) ⊎ (r ≡ s.rows) = ground arith in
    let below : r ≤ pos = ground arith in
    let kept = drop ((s.sb_lines - pos) * s.cols) s.sb_page in
    let start =
      add_rows (s.sb_lines - s.top) (s.top - pos) (s.sb_lines - pos) s.cols
        (omega (arith, w.top_in)) in
    let size = add_rows pos (s.sb_lines - pos) s.sb_lines s.cols (omega (arith, w.top_in)) in
    let old = add_rows (s.top - pos) pos s.top s.cols (omega arith) in
    let whole = add_rows r (s.rows - r) s.rows s.cols (omega arith) in
    let kept_len : length kept ≡ pos * s.cols =
      omega (arith, length-drop ((s.sb_lines - pos) * s.cols) s.sb_page, w.sb_page_len, size) in
    let history_len : length (history s) ≡ s.top * s.cols = omega (
      arith,
      length-drop ((s.sb_lines - s.top) * s.cols) s.sb_page,
      w.sb_page_len,
      add_rows s.top (s.sb_lines - s.top) s.sb_lines s.cols (omega (arith, w.top_in)),
    ) in
    let from : drop ((s.top - pos) * s.cols) (history s) ≡ kept =
      drop-drop ((s.top - pos) * s.cols) ((s.sb_lines - s.top) * s.cols) s.sb_page
      ∙ ap (λ n. drop n s.sb_page) start in
    let parts : drop ((s.top - pos) * s.cols) (history s ++ s.page) ≡ kept ++ s.page =
      drop-append_left ((s.top - pos) * s.cols) (history s) s.page (omega (arith, history_len, old))
      ∙ ap (λ k. k ++ s.page) from in
    ap (take (s.rows * s.cols)) parts
    ∙ ap (λ n. take n (kept ++ s.page)) (sym whole)
    ∙ take-split (r * s.cols) ((s.rows - r) * s.cols) kept s.page
        (omega (arith, kept_len, mul_mono r pos s.cols below))
        (part_ends r pos s.rows s.cols (length kept) kept_len full)

-- What the session's screen and the launchpad have in common: the size of the scrollback area, and
-- the font. `sb_pos` is a line that the area keeps.
pub record Fits (lps : LpState) (s : Screen) (h : ℕ) : Type 0 where
  pub same_lines : lps.sb_lines ≡ s.sb_lines
  pub same_height : lps.fontheight ≡ h
  pub pos_in : lps.sb_pos ≤ s.top

cells_there :
    (n c r m : ℕ) (cells : List ℕ)
    → length cells ≡ n * c
    → m + r ≤ n
    → r * c ≤ length (drop (m * c) cells)
cells_there n c r m cells e le =
    let sum = mul_mono (m + r) n c le in omega (arith, length-drop (m * c) cells, e, sum)

module _ (glyph_size : ℕ → ℕ × ℕ) (w h : ℕ) (lps : LpState) (sh : Shell) where
  back_part :
      IsFixed glyph_size w h
      → IsWf sh.screen
      → Fits lps sh.screen h
      → let s = sh.screen in
        let r = back_rows lps.sb_pos s.rows in
        let from = (lps.sb_lines - lps.sb_pos) * s.cols in
        Returns
          (if lps.sb_pos == 0
            then some []
            else print_back glyph_size lps (state_get sh blank_state) r)
          (λ ds.
            glyphs ds
            ≡ laid lps.xofs lps.yofs s.cols w h 0 (take (r * s.cols) (drop from s.sb_page)))
  unfolding print_back state_get
  back_part fixed wf f =
      let s = sh.screen in
      let r = back_rows lps.sb_pos s.rows in
      let from = (lps.sb_lines - lps.sb_pos) * s.cols in
      let shown = laid lps.xofs lps.yofs s.cols w h 0 (take (r * s.cols) (drop from s.sb_page)) in
      returns_test (λ ds. glyphs ds ≡ shown) (lps.sb_pos == 0) _ _
        (λ home.
          let z : r ≡ 0 = ground (arith, home) in
          let n : r * s.cols ≡ 0 = omega (arith, ap (λ k. k * s.cols) z) in ([], refl, rw n refl))
        (λ back.
          let some_rows : 1 ≤ r = ground (arith, back, wf.region, wf.region_in) in
          let le : r ≤ lps.sb_pos = ground arith in
          let room : lps.sb_lines - lps.sb_pos + r ≤ s.sb_lines =
            omega (arith, f.same_lines, f.pos_in, wf.top_in, le) in
          print_buf_lays glyph_size w h lps.xofs lps.yofs s.cols none (drop from s.sb_page)
            (r * s.cols) (drop from s.sb_attributes) 0 fixed wf.some_cols
            (omega (arith, mul_mono 1 r s.cols some_rows, wf.some_cols))
            (cells_there s.sb_lines s.cols r (lps.sb_lines - lps.sb_pos) s.sb_page wf.sb_page_len
              room)
            (cells_there s.sb_lines s.cols r (lps.sb_lines - lps.sb_pos) s.sb_attributes
              wf.sb_attributes_len room))

  page_part :
      IsFixed glyph_size w h
      → IsWf sh.screen
      → Fits lps sh.screen h
      → let s = sh.screen in
        let r = back_rows lps.sb_pos s.rows in
        Returns
          (if ltb r s.rows then print_page glyph_size lps (state_get sh blank_state) r else some [])
          (λ ds.
            glyphs ds
            ≡ laid lps.xofs lps.yofs s.cols w h (r * s.cols) (take ((s.rows - r) * s.cols) s.page))
  unfolding print_page state_get
  page_part fixed wf f =
      let s = sh.screen in
      let r = back_rows lps.sb_pos s.rows in
      let cells = take ((s.rows - r) * s.cols) s.page in
      let shown = laid lps.xofs lps.yofs s.cols w h (r * s.cols) cells in
      let cur = if s.nocursor then none else some s.cur in
      returns_test (λ ds. glyphs ds ≡ shown) (ltb r s.rows) _ _
        (λ some_page.
          let some_rows : 1 ≤ s.rows - r = ground (arith, some_page) in
          let fits = mul_mono (s.rows - r) s.rows s.cols (omega arith) in
          let (ds, e, lays) =
            print_buf_lays glyph_size w h lps.xofs (lps.yofs + r * lps.fontheight) s.cols cur s.page
              ((s.rows - r) * s.cols) s.attributes 0 fixed wf.some_cols
              (omega (arith, mul_mono 1 (s.rows - r) s.cols some_rows, wf.some_cols))
              (omega (arith, fits, wf.page_len, wf.area))
              (omega (arith, fits, wf.attributes_len, wf.area)) in
          let n : r * s.cols + 0 ≡ r * s.cols = omega arith in
          (
            ds,
            e,
            lays
                ∙ ap (λ k. laid lps.xofs (lps.yofs + r * k) s.cols w h 0 cells) f.same_height
                ∙ laid_lower lps.xofs lps.yofs s.cols w h r 0 cells wf.some_cols
                ∙ rw n refl,
          ))
        (λ no_page.
          let z : s.rows - r ≡ 0 = ground (arith, no_page) in
          let n : (s.rows - r) * s.cols ≡ 0 = omega (arith, ap (λ k. k * s.cols) z) in
          ([], refl, rw n refl))

  pub print_both_shows :
      IsFixed glyph_size w h
      → IsWf sh.screen
      → Fits lps sh.screen h
      → Returns (print_both glyph_size lps (state_get sh blank_state)) (λ ds.
        glyphs ds ≡ laid lps.xofs lps.yofs sh.screen.cols w h 0 (window sh.screen lps.sb_pos))
  unfolding print_both state_get
  print_both_shows fixed wf f =
      let s = sh.screen in
      let r = back_rows lps.sb_pos s.rows in
      let from = (lps.sb_lines - lps.sb_pos) * s.cols in
      let above = take (r * s.cols) (drop from s.sb_page) in
      let below = take ((s.rows - r) * s.cols) s.page in
      let (back, eb, lb) = back_part fixed wf f in
      let (page, ep, lp) = page_part fixed wf f in
      let le : r ≤ lps.sb_pos = ground arith in
      let room : lps.sb_lines - lps.sb_pos + r ≤ s.sb_lines =
        omega (arith, f.same_lines, f.pos_in, wf.top_in, le) in
      let there =
        cells_there s.sb_lines s.cols r (lps.sb_lines - lps.sb_pos) s.sb_page wf.sb_page_len room in
      let len : 0 + length above ≡ r * s.cols =
        omega (arith, length-take (r * s.cols) (drop from s.sb_page), there) in
      let lay = laid lps.xofs lps.yofs s.cols w h in
      let joined : lay 0 (above ++ below) ≡ lay 0 above ++ lay (r * s.cols) below =
        laid-append lps.xofs lps.yofs s.cols w h 0 above below
        ∙ ap (λ n. lay 0 above ++ lay n below) len in
      let parts = window_parts s lps.sb_pos wf f.pos_in in
      let same : (s.sb_lines - lps.sb_pos) * s.cols ≡ from =
        ap (λ n. (n - lps.sb_pos) * s.cols) (sym f.same_lines) in
      (
        back ++ page,
        rw (eb, ep) refl,
        glyphs-append back page
            ∙ ap (λ g. g ++ glyphs page) lb
            ∙ ap (λ g. lay 0 above ++ g) lp
            ∙ sym joined
            ∙ ap (λ n. lay 0 (take (r * s.cols) (drop n s.sb_page) ++ below)) (sym same)
            ∙ ap (lay 0) (sym parts),
      )
