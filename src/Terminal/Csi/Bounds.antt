-- ===== src/Terminal/Csi/Bounds.antt =====
-- terminal.c, `do_csi`: where the commands on characters stay inside the screen's memory, and where
-- they leave it.
use kindle_myts.Base.{
  ℕ, ◌+◌, ◌-◌, ◌%◌, ◌≤◌, ◌<◌, ◌≡◌, ap, ◌∙◌, arith, true, inl, inr, Bool-cases, none, Returns,
  returns_either, int_limit, ltb, ◌==◌, if◌then◌else◌, row_end, fill, lt→ltb, tests,
}
use native.Mathlib.Nat.{mod-lt, mul-mod_left}
use kindle_myts.Terminal.{Screen, IsWf}
use kindle_myts.Terminal.Csi.Edit.{delete_chars, erase_chars, or_zero, erase_display, erase_line}
use kindle_myts.Terminal.Page.{erase}
use kindle_myts.Terminal.Page.Redraw.{Redrawn, erase_returns, move_cells_returns, bind-Redrawn}

-- The column and the row of a cursor on the page.
pub record OnPage (s : Screen) : Type 0 where
  pub column : s.cur % s.cols < s.cols
  pub row_start : s.cur % s.cols ≤ s.cur
  pub row_stop : s.cur - s.cur % s.cols + s.cols ≤ s.pagelen

pub on_page : {s : Screen} → IsWf s → s.cur < s.pagelen → OnPage s
on_page {s} w h =
    let c = mod-lt s.cur w.some_cols in
    let r = row_end s.cur s.rows s.cols w.some_cols (omega arith) in omega arith

-- With the cursor on the page of a well-formed screen, 'J' and 'K' return for every parameter, and
-- 'X' and 'P' for every parameter that does not carry the column past an `int`; they change nothing
-- but cells and attributes.
pub erasing_returns :
    {s : Screen} (n a1 : ℕ)
    → IsWf s
    → s.cur < s.pagelen
    → a1 + s.cols < int_limit
    → Returns (erase_display s n a1) (Redrawn s)
      × Returns (erase_line s n a1 (s.cur % s.cols)) (Redrawn s)
      × Returns (erase_chars s a1 (s.cur % s.cols)) (Redrawn s)
      × Returns (delete_chars s a1 (s.cur % s.cols)) (Redrawn s)
unfolding erase_display erase_line erase_chars delete_chars
erasing_returns {s} n a1 w h small =
    let p = on_page w h in
    let col = s.cur % s.cols in
    let in_int : ltb (a1 + col) int_limit ≡ true = lt→ltb _ _ (omega arith) in
    let in_int' : ltb (col + a1) int_limit ≡ true = lt→ltb _ _ (omega arith) in
    (
      returns_either (Redrawn s) (or_zero n a1 == 1) _ _
          (erase_returns 0 (s.cur + 1) w (omega arith))
          (returns_either (Redrawn s) (or_zero n a1 == 2) _ _
            (erase_returns 0 s.pagelen w (omega arith))
            (erase_returns s.cur (s.pagelen - s.cur) w (omega arith))),
      returns_either (Redrawn s) (or_zero n a1 == 1) _ _
          (erase_returns (s.cur - col) (col + 1) w (omega arith))
          (returns_either (Redrawn s) (or_zero n a1 == 2) _ _
            (erase_returns (s.cur - col) s.cols w (omega arith))
            (erase_returns s.cur (s.cols - col) w (omega arith))),
      rw in_int (
          erase_returns s.cur (if ltb s.cols (a1 + col) then s.cols - col else a1) w
            (ground arith)),
      rw in_int' (elim (Bool-cases (ltb (col + a1) s.cols)) [
        | inl fits ↦ rw fits (
            bind-Redrawn
              (move_cells_returns s.cur (s.cur + a1) (s.cols - col - a1) w (omega tests)
                (omega tests))
              λ t r.
                let c = r.cur_eq in
                let l = r.pagelen_eq in
                erase_returns (s.cur + (s.cols - col - a1)) a1 r.wf (omega tests))
        | inr past ↦ rw past (erase_returns s.cur (s.cols - col) w (omega arith))
      ]),
    )

erase_past :
    (s : Screen) (start len : ℕ) → IsWf s → s.pagelen < start + len → erase s start len ≡ none
unfolding erase fill
erase_past s start len w h = ground arith

last_column : (s : Screen) → IsWf s → s.cur ≡ s.pagelen → s.cur % s.cols ≡ 0
last_column s w e = ap (λ x. x % s.cols) (e ∙ w.area) ∙ mul-mod_left s.rows s.cols

-- With the cursor one past the page of a well-formed screen, where the last cell's character leaves
-- it, 'K' goes past the end of the screen's memory for every parameter.
pub erase_line_past_page :
    (s : Screen) (n a1 : ℕ) → IsWf s → s.cur ≡ s.pagelen → erase_line s n a1 (s.cur % s.cols) ≡ none
unfolding erase_line
erase_line_past_page s n a1 w e =
    let c = last_column s w e in
    ground (
      arith,
      erase_past s (s.cur - s.cur % s.cols) (s.cur % s.cols + 1) w (omega arith),
      erase_past s (s.cur - s.cur % s.cols) s.cols w (omega arith),
      erase_past s s.cur (s.cols - s.cur % s.cols) w (omega arith),
    )
