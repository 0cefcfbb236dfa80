-- ===== src/Terminal/Glyph/Echo.antt =====
-- terminal.c: what a printing character does to the page.
use kindle_myts.Base.{
  ℕ, ◌+◌, ◌-◌, ◌%◌, ◌^◌, ◌≤◌, ◌<◌, ◌≡◌, refl, arith, true, false, some, List, Returns, ◌==◌,
  if◌then◌else◌, ◌&&◌, store, splice, replicate, fill_lem, get_elem?, get_elem?-fill, length,
}
use kindle_myts.Terminal.{Screen, IsWf, region_end}
use kindle_myts.Terminal.Cursor.{region_facts}
use kindle_myts.Terminal.Glyph.{rounds, write_cell, advance, put_char, put_code}
use kindle_myts.Terminal.Glyph.Scrolling.{scroll_loop_here}

-- One more than the greatest code that a cell holds.
abbrev pub cell_limit : Screen → ℕ
cell_limit s = if s.utf8 then 2 ^ 16 else 2 ^ 8

-- `t` is `s` with `c` at the cursor, and the cursor one further.
pub record Echoed (s : Screen) (c : ℕ) (t : Screen) : Type 0 where
  pub page_cells :
      (i : ℕ) → get_elem? t.page i ≡ (if i == s.cur then some c else get_elem? s.page i)
  pub attribute_cells :
      (i : ℕ)
      → get_elem? t.attributes i
        ≡ (if i == s.cur then some s.cur_attr else get_elem? s.attributes i)
  pub cursor : t.cur ≡ s.cur + 1
  pub wrap : t.wrapped ≡ (s.cur % s.cols == s.cols - 1)
  pub region_kept : (t.scroll_top ≡ s.scroll_top) × (t.scroll_bottom ≡ s.scroll_bottom)
  pub history_kept : (t.sb_page ≡ s.sb_page) × (t.sb_attributes ≡ s.sb_attributes) × (t.top ≡ s.top)

store_cells :
    (xs : List ℕ) (i v : ℕ)
    → i < length xs
    → Returns
        (store xs i v)
        (λ ys. (j : ℕ) → get_elem? ys j ≡ (if j == i then some v else get_elem? xs j))
unfolding store
store_cells xs i v h =
    let e = fill_lem xs i 1 v (omega arith) in
    (splice i (replicate 1 v) xs, e, λ j. ground (arith, get_elem?-fill xs i 1 v j e))

-- A character that is no control character, taken in on a well-formed screen with the cursor above
-- the end of the scroll region and the drawing characters off, stands in the cell at the cursor
-- with the current attributes; every other cell, the region and the scrollback area stay, the
-- cursor moves on by one, and the wrap mark says whether that cell was the last of its line.
pub put_code-Echoed :
    {s : Screen} (c : ℕ)
    → IsWf s
    → s.cur < region_end s
    → 0x20 ≤ c
    → c < cell_limit s
    → (s.dographic && s.graphics) ≡ false
    → Returns (put_code s c (s.cur % s.cols)) (Echoed s c)
unfolding put_code put_char write_cell advance
put_code-Echoed {s} c w h low high plain =
    let f = region_facts w in
    let v = if s.utf8 then c % 2 ^ 16 else c % 2 ^ 8 in
    let v_eq : v ≡ c = ground arith in
    let (p, ep, cp) = store_cells s.page s.cur c (omega arith) in
    let (a, ea, ca) = store_cells s.attributes s.cur s.cur_attr (omega arith) in
    (
      record s {
        page = p;
        attributes = a;
        wrapped = if s.cur % s.cols == s.cols - 1 then true else false;
        cur = s.cur + 1;
      },
      ground (arith, scroll_loop_here rounds s h, v_eq, ep, ea),
      record {
        page_cells = λ i. cp i;
        attribute_cells = ca;
        cursor = refl;
        wrap = ground arith;
        region_kept = (refl, refl);
        history_kept = (refl, refl, refl);
      },
    )
