-- ===== src/Terminal/Page/Scrolled.antt =====
-- terminal.c: what scrolling does to each cell.
use kindle_myts.Base.{
  ℕ, ◌+◌, ◌-◌, ◌*◌, ◌≡◌, arith, Bool, Option, ◌&&◌, some, >>=-eq-some, ltb, leb, if◌then◌else◌,
  get_elem?, List, fill, move, get_elem?-fill, get_elem?-move,
}
use kindle_myts.Terminal.{Screen, IsWf, region_start, region_end}
use kindle_myts.Terminal.Cursor.{region_facts}
use kindle_myts.Terminal.Page.{
  erase, shift_history, store_line, count_line, save_line, move_cells, body_len, page_scroll,
  page_scrolldown,
}

abbrev pub inside : ℕ → ℕ → ℕ → Bool
inside lo n i = leb lo i && ltb i (lo + n)

-- The cell `i` of an area after `erase` has written `v` over `n` cells from `start` on.
abbrev pub erased_cell : List ℕ → ℕ → ℕ → ℕ → ℕ → Option ℕ
erased_cell xs start n v i = if inside start n i then some v else get_elem? xs i

-- `erase` writes blanks and the current attributes into its range and leaves all else.
pub erase_cells :
    (s : Screen) (start n : ℕ) {s' : Screen} (i : ℕ)
    → erase s start n ≡ some s'
    → (get_elem? s'.page i ≡ erased_cell s.page start n 0x20 i)
      × (get_elem? s'.attributes i ≡ erased_cell s.attributes start n s.cur_attr i)
unfolding erase
erase_cells s start n i e =
    let (p, ep, e₁) = >>=-eq-some (fill s.page start n 0x20) _ e in
    let (a, ea, e₂) = >>=-eq-some (fill s.attributes start n s.cur_attr) _ e₁ in
    ground (
      arith,
      get_elem?-fill s.page start n 0x20 i ep,
      get_elem?-fill s.attributes start n s.cur_attr i ea,
    )

abbrev pub moved_cell : List ℕ → ℕ → ℕ → ℕ → ℕ → Option ℕ
moved_cell xs dst src n i =
    if inside dst n i then get_elem? xs (src + (i - dst)) else get_elem? xs i

move_cells_cells :
    (s : Screen) (dst src n : ℕ) {s' : Screen} (i : ℕ)
    → move_cells s dst src n ≡ some s'
    → (get_elem? s'.page i ≡ moved_cell s.page dst src n i)
      × (get_elem? s'.attributes i ≡ moved_cell s.attributes dst src n i)
      × (s'.cur_attr ≡ s.cur_attr)
unfolding move_cells
move_cells_cells s dst src n i e =
    let (p, ep, e₁) = >>=-eq-some (move s.page dst src n) _ e in
    let (a, ea, e₂) = >>=-eq-some (move s.attributes dst src n) _ e₁ in
    ground (arith, get_elem?-move s.page dst src n i ep, get_elem?-move s.attributes dst src n i ea)

pub save_line-page :
    (s : Screen) {s' : Screen}
    → save_line s ≡ some s'
    → (s'.page ≡ s.page) × (s'.attributes ≡ s.attributes) × (s'.cur_attr ≡ s.cur_attr)
unfolding save_line shift_history store_line count_line
save_line-page s e = ground arith

-- The cell `i` of an area whose scroll region has moved up by a line and ends in a line of `v`.
abbrev pub scrolled_cell : Screen → List ℕ → ℕ → ℕ → Option ℕ
scrolled_cell s xs v i =
    if leb (region_start s) i && ltb i (region_end s)
    then (if ltb (i + s.cols) (region_end s) then get_elem? xs (i + s.cols) else some v)
    else get_elem? xs i

-- The cell `i` of an area whose scroll region has moved down by a line and begins with a line of `v`.
abbrev pub scrolled_down_cell : Screen → List ℕ → ℕ → ℕ → Option ℕ
scrolled_down_cell s xs v i =
    if leb (region_start s) i && ltb i (region_end s)
    then (if ltb i (region_start s + s.cols) then some v else get_elem? xs (i - s.cols))
    else get_elem? xs i

body_len-value :
    (s : Screen) {l : ℕ} → body_len s ≡ some l → l ≡ (s.scroll_bottom - s.scroll_top - 1) * s.cols
unfolding body_len
body_len-value s e = ground arith

-- On a well-formed screen `page_scroll` moves each line of the scroll region up by one, blanks the
-- last line of the region, and leaves every cell outside the region; attributes go with the cells.
pub page_scroll_cells :
    {s : Screen} {s' : Screen} (i : ℕ)
    → IsWf s
    → page_scroll s ≡ some s'
    → (get_elem? s'.page i ≡ scrolled_cell s s.page 0x20 i)
      × (get_elem? s'.attributes i ≡ scrolled_cell s s.attributes s.cur_attr i)
unfolding page_scroll
page_scroll_cells {s} i w e =
    let f = region_facts w in
    let (l, el, e₁) = >>=-eq-some (body_len s) _ e in
    let (s₁, es, e₂) = >>=-eq-some (save_line s) _ e₁ in
    let (s₂, em, ee) =
      >>=-eq-some (move_cells s₁ (region_start s) (region_start s + s.cols) l) _ e₂ in
    ground (
      arith,
      body_len-value s el,
      save_line-page s es,
      move_cells_cells s₁ (region_start s) (region_start s + s.cols) l i em,
      erase_cells s₂ ((s.scroll_bottom - 1) * s.cols) s.cols i ee,
    )

-- On a well-formed screen `page_scrolldown` moves each line of the scroll region down by one,
-- blanks the first line of the region, and leaves every cell outside the region; attributes go
-- with the cells.
pub page_scrolldown_cells :
    {s : Screen} {s' : Screen} (i : ℕ)
    → IsWf s
    → page_scrolldown s ≡ some s'
    → (get_elem? s'.page i ≡ scrolled_down_cell s s.page 0x20 i)
      × (get_elem? s'.attributes i ≡ scrolled_down_cell s s.attributes s.cur_attr i)
unfolding page_scrolldown
page_scrolldown_cells {s} i w e =
    let f = region_facts w in
    let (l, el, e₁) = >>=-eq-some (body_len s) _ e in
    let (s₁, em, ee) =
      >>=-eq-some (move_cells s (region_start s + s.cols) (region_start s) l) _ e₁ in
    ground (
      arith,
      body_len-value s el,
      move_cells_cells s (region_start s + s.cols) (region_start s) l i em,
      erase_cells s₁ (region_start s) s.cols i ee,
    )
