-- ===== src/Terminal/Csi/Total.antt =====
-- terminal.c, `do_csi`: with the cursor on the page the commands are carried out with no fault.
use kindle_myts.Base.{
  ℕ, ◌+◌, ◌-◌, ◌*◌, ◌%◌, ◌≤◌, ◌<◌, ◌≡◌, refl, arith, Bool, true, Option, Returns, returns_either,
  int_limit, ltb, leb, lt→ltb, if◌then◌else◌, move_lem, length-move, splice, take, drop, mul_mono,
}
use native.Mathlib.Nat.{mod-lt}
use kindle_myts.Terminal.{Screen, IsWf}
use kindle_myts.Terminal.Csi.{
  Command, insert_char, up, down, right, left, row, column, pos, set_mode, display, line,
  reset_mode, insert_line, rendition, delete_line, delete_char, region, erase_char, ignored,
  run_command,
}
use kindle_myts.Terminal.Csi.Bounds.{on_page, erasing_returns}
use kindle_myts.Terminal.Csi.Commands.{
  page_has_row, move-IsWf, cursor_right_keeps, cursor_left_keeps, column_absolute_keeps,
  row_absolute_keeps, position_keeps, set_region_keeps, graphic_rendition_keeps,
  set_dec_mode_returns, reset_dec_mode_returns,
}
use kindle_myts.Terminal.Csi.Edit.{insert_chars}
use kindle_myts.Terminal.Csi.Lines.{insert_lines_returns, delete_lines_returns}
use kindle_myts.Terminal.Csi.Motion.{
  at_least_one, cursor_up, cursor_down, cursor_left, cursor_right, row_absolute, column_absolute,
  position, set_region,
}
use kindle_myts.Terminal.Csi.Modes.{graphic_rendition}
use kindle_myts.Terminal.Csi.Params.{Args}
use kindle_myts.Terminal.Page.Redraw.{Redrawn, erase_returns}

-- a step of so many lines, at least one, is an `int`
step_in_int :
    (s : Screen) (a1 : ℕ)
    → s.pagelen + s.cols * (a1 + 1) < int_limit
    → s.pagelen + s.cols * at_least_one a1 < int_limit
step_in_int s a1 h = ground arith

cursor_up_returns :
    {s : Screen} (a1 curcol : ℕ)
    → IsWf s
    → curcol < s.cols
    → s.pagelen + s.cols * (a1 + 1) < int_limit
    → Returns (cursor_up s a1 curcol) IsWf
unfolding cursor_up
cursor_up_returns {s} a1 curcol w h small =
    let row = page_has_row w in
    let fits : ltb (s.cols * at_least_one a1) int_limit ≡ true =
      lt→ltb _ _ (omega (arith, step_in_int s a1 small)) in
    let c =
      if ltb s.cur (s.cols * at_least_one a1) then curcol else s.cur - s.cols * at_least_one a1 in
    (record s { cur = c }, rw fits refl, move-IsWf w (ground arith))

cursor_down_returns :
    {s : Screen} (a1 curcol : ℕ)
    → IsWf s
    → curcol < s.cols
    → s.pagelen + s.cols * (a1 + 1) < int_limit
    → Returns (cursor_down s a1 curcol) IsWf
unfolding cursor_down
cursor_down_returns {s} a1 curcol w h small =
    let row = page_has_row w in
    let step = s.cols * at_least_one a1 in
    let fits : ltb step int_limit ≡ true = lt→ltb _ _ (omega (arith, step_in_int s a1 small)) in
    let fits' : ltb (s.cur + step) int_limit ≡ true =
      lt→ltb _ _ (omega (arith, step_in_int s a1 small)) in
    let c = if leb s.pagelen (s.cur + step) then s.pagelen - s.cols + curcol else s.cur + step in
    (record s { cur = c }, rw fits (rw fits' refl), move-IsWf w (ground arith))

insert_chars_returns :
    {s : Screen} (a1 : ℕ)
    → IsWf s
    → s.cur < s.pagelen
    → a1 + s.cols < int_limit
    → a1 ≤ s.cur
    → Returns (insert_chars s a1 (s.cur % s.cols)) IsWf
unfolding insert_chars
insert_chars_returns {s} a1 w h small behind =
    let p = on_page w h in
    let col = s.cur % s.cols in
    let in_int : ltb (col + a1) int_limit ≡ true = lt→ltb _ _ (omega arith) in
    let a = if ltb s.cols (col + a1) then s.cols - col else a1 in
    let l = s.cols - col - a in
    let before : leb a s.cur ≡ true = ground arith in
    let ep = move_lem s.page (s.cur + a) s.cur l (ground arith) (ground arith) in
    let ea = move_lem s.attributes s.cur (s.cur - a) l (ground arith) (ground arith) in
    let lp = length-move s.page (s.cur + a) s.cur l ep in
    let la = length-move s.attributes s.cur (s.cur - a) l ea in
    let t = record s {
      page = splice (s.cur + a) (take l (drop s.cur s.page)) s.page;
      attributes = splice s.cur (take l (drop (s.cur - a) s.attributes)) s.attributes;
    } in
    let v : IsWf t = ground arith in
    let (r, er, k) = erase_returns {s = t} s.cur a v (ground arith) in
    (r, rw in_int (rw ep (rw before (rw ea er))), k.wf)

column_in_int :
    (s : Screen) (a1 : ℕ)
    → IsWf s
    → s.pagelen + s.cols * (a1 + 1) < int_limit
    → a1 + s.cols < int_limit
column_in_int s a1 w h = omega (arith, mul_mono 1 s.cols a1 w.some_cols)

as_IsWf : {s : Screen} {m : Option Screen} → Returns m (Redrawn s) → Returns m IsWf
as_IsWf (t, e, r) = (t, e, r.wf)

-- With the cursor on the page of a well-formed screen and a first parameter that the arithmetic of
-- an `int` allows for, every command returns and leaves the screen well formed; '@' needs besides
-- that as many cells stand before the cursor as it inserts.
pub run_command_returns :
    (cmd : Command) {s : Screen} (dec : Bool) (a : Args)
    → IsWf s
    → s.cur < s.pagelen
    → s.pagelen + s.cols * (a.a1 + 1) < int_limit
    → (cmd ≡ insert_char → a.a1 ≤ s.cur)
    → Returns (run_command cmd s dec a (s.cur % s.cols)) IsWf
unfolding run_command
run_command_returns insert_char {s} dec a w h small behind =
    insert_chars_returns a.a1 w h (column_in_int s a.a1 w small) (behind refl)
run_command_returns up {s} dec a w h small behind =
    cursor_up_returns a.a1 (s.cur % s.cols) w (mod-lt s.cur w.some_cols) small
run_command_returns down {s} dec a w h small behind =
    cursor_down_returns a.a1 (s.cur % s.cols) w (mod-lt s.cur w.some_cols) small
run_command_returns right {s} dec a w h small behind =
    (cursor_right s a.a1 (s.cur % s.cols), refl, cursor_right_keeps a.a1 _ w)
run_command_returns left {s} dec a w h small behind =
    (cursor_left s a.a1 (s.cur % s.cols), refl, cursor_left_keeps a.a1 _ w)
run_command_returns row {s} dec a w h small behind =
    (row_absolute s a.a1 (s.cur % s.cols), refl, row_absolute_keeps a.a1 _ w)
run_command_returns column {s} dec a w h small behind =
    (column_absolute s a.a1 (s.cur % s.cols), refl, column_absolute_keeps a.a1 _ w)
run_command_returns pos {s} dec a w h small behind =
    (position s a.a1 a.a2, refl, position_keeps a.a1 a.a2 w)
run_command_returns set_mode {s} dec a w h small behind =
    returns_either IsWf dec _ _ (set_dec_mode_returns a.a1 w) (s, refl, w)
run_command_returns display {s} dec a w h small behind =
    as_IsWf (erasing_returns a.n a.a1 w h (column_in_int s a.a1 w small)).0
run_command_returns line {s} dec a w h small behind =
    as_IsWf (erasing_returns a.n a.a1 w h (column_in_int s a.a1 w small)).1
run_command_returns reset_mode {s} dec a w h small behind =
    returns_either IsWf dec _ _ (reset_dec_mode_returns a.a1 w) (s, refl, w)
run_command_returns insert_line dec a w h small behind = insert_lines_returns a.a1 w
run_command_returns rendition {s} dec a w h small behind =
    (graphic_rendition s a, refl, graphic_rendition_keeps a w)
run_command_returns delete_line dec a w h small behind = delete_lines_returns a.a1 w
run_command_returns delete_char {s} dec a w h small behind =
    as_IsWf (erasing_returns a.n a.a1 w h (column_in_int s a.a1 w small)).3
run_command_returns region {s} dec a w h small behind =
    (set_region s a.n a.a1 a.a2, refl, set_region_keeps a.n a.a1 a.a2 w)
run_command_returns erase_char {s} dec a w h small behind =
    as_IsWf (erasing_returns a.n a.a1 w h (column_in_int s a.a1 w small)).2
run_command_returns ignored {s} dec a w h small behind = (s, refl, w)
