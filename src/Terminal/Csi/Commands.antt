-- ===== src/Terminal/Csi/Commands.antt =====
-- terminal.c, `do_csi`: every command keeps the screen well formed.
use kindle_myts.Base.{
  ℕ, ◌+◌, ◌-◌, ◌*◌, ◌≤◌, ◌<◌, ◌≡◌, refl, arith, true, inl, inr, Bool, Bool-cases, List, [], ◌∷◌,
  some, Option, returns_value, Returns, returns_if, returns_either, false, >>=-eq-some, int_limit,
  require, leb, ltb, ◌==◌, if◌then◌else◌, ◌&&◌,
}
use kindle_myts.Terminal.{Screen, IsWf}
use kindle_myts.Terminal.Csi.{
  Command, insert_char, up, down, right, left, row, column, pos, set_mode, display, line,
  reset_mode, insert_line, rendition, delete_line, delete_char, region, erase_char, ignored,
  run_command, command, Sequence, incomplete, complete, csi_final, csi_params, do_csi,
}
use kindle_myts.Terminal.Csi.Cells.{
  insert_chars_keeps, delete_chars_keeps, erase_chars_keeps, erase_display_keeps, erase_line_keeps,
}
use kindle_myts.Terminal.Csi.Lines.{insert_lines_returns, delete_lines_returns}
use kindle_myts.Terminal.Csi.Modes.{set_dec_mode, reset_dec_mode, graphic_rendition}
use kindle_myts.Terminal.Csi.Motion.{
  at_least_one, cursor_up, cursor_down, cursor_right, cursor_left, leave_region, row_absolute,
  column_absolute, clamp_one, position, set_region,
}
use kindle_myts.Terminal.Csi.Params.{Args, span_params, scan_args, is_private}
use kindle_myts.Terminal.Cursor.{bound, bound-le-pagelen, bound_sub-le-pagelen, region_facts}
use kindle_myts.Terminal.Page.Redraw.{erase_returns}
use kindle_myts.Terminal.Page.{erase}
use mathlib.Core.Path.{subst}

pub page_has_row : {s : Screen} → IsWf s → s.cols ≤ s.pagelen
page_has_row w = let f = region_facts w in omega arith

cursor_up_keeps :
    {s t : Screen} (a1 curcol : ℕ)
    → IsWf s
    → curcol < s.cols
    → cursor_up s a1 curcol ≡ some t
    → IsWf t
unfolding cursor_up
cursor_up_keeps {s} a1 curcol w h e = ground (arith, page_has_row w)

cursor_down_keeps :
    {s t : Screen} (a1 curcol : ℕ)
    → IsWf s
    → curcol < s.cols
    → cursor_down s a1 curcol ≡ some t
    → IsWf t
unfolding cursor_down
cursor_down_keeps {s} a1 curcol w h e = ground (arith, page_has_row w)

pub move-IsWf : {s : Screen} {c : ℕ} → IsWf s → c ≤ s.pagelen → IsWf (record s { cur = c })
move-IsWf w h = ground arith

pub cursor_right_keeps : {s : Screen} (a1 curcol : ℕ) → IsWf s → IsWf (cursor_right s a1 curcol)
unfolding cursor_right
cursor_right_keeps {s} a1 curcol w = move-IsWf w (
    bound-le-pagelen
      (s.cur
        + (if leb (s.cols - curcol) (at_least_one a1)
            then s.cols - curcol - 1
            else at_least_one a1))
      w)

pub cursor_left_keeps : {s : Screen} (a1 curcol : ℕ) → IsWf s → IsWf (cursor_left s a1 curcol)
unfolding cursor_left
cursor_left_keeps {s} a1 curcol w = move-IsWf w (
    bound_sub-le-pagelen s.cur (if ltb curcol (at_least_one a1) then curcol else at_least_one a1) w)

pub column_absolute_keeps :
    {s : Screen} (a1 curcol : ℕ) → IsWf s → IsWf (column_absolute s a1 curcol)
unfolding column_absolute
column_absolute_keeps {s} a1 curcol w =
    move-IsWf w
      (bound_sub-le-pagelen (s.cur + (if ltb s.cols a1 then s.cols else a1)) (1 + curcol) w)

leave_region-IsWf : {s : Screen} (a : ℕ) → IsWf s → IsWf (leave_region s a)
unfolding leave_region
leave_region-IsWf a w = ground arith

pub row_absolute_keeps : {s : Screen} (a1 curcol : ℕ) → IsWf s → IsWf (row_absolute s a1 curcol)
unfolding row_absolute
row_absolute_keeps {s} a1 curcol w =
    let a = if leb s.rows a1 then s.rows else a1 in
    let v = leave_region-IsWf a w in
    move-IsWf v (bound_sub-le-pagelen (a * s.cols + curcol) s.cols v)

set_wrapped-IsWf : {s : Screen} (b : Bool) → IsWf s → IsWf (record s { wrapped = b })
set_wrapped-IsWf b w = ground arith

if-IsWf : (b : Bool) {u v : Screen} → IsWf u → IsWf v → IsWf (if b then u else v)
if-IsWf true p q = p
if-IsWf false p q = q

placed-IsWf : {s : Screen} (c : ℕ) → IsWf s → IsWf (record s { cur = bound s c; wrapped = false })
placed-IsWf c w = set_wrapped-IsWf false (move-IsWf w (bound-le-pagelen c w))

pub position_keeps : {s : Screen} (a1 a2 : ℕ) → IsWf s → IsWf (position s a1 a2)
unfolding position
position_keeps {s} a1 a2 w =
    let r = clamp_one s.rows a1 in
    placed-IsWf
      (((if s.originmode then r + s.scroll_top else r) - 1) * s.cols + clamp_one s.cols a2 - 1)
      (if-IsWf s.originmode w (leave_region-IsWf r w))

pub set_region_keeps : {s : Screen} (n a1 a2 : ℕ) → IsWf s → IsWf (set_region s n a1 a2)
unfolding set_region
set_region_keeps {s} n a1 a2 w =
    let from = if n == 0 then 1 else a1 in
    let to = if n == 0 then s.rows else a2 in
    elim (Bool-cases (leb 1 from && ltb from to && leb to s.rows)) [
      | inl fits ↦
          let v : IsWf (record s { scroll_top = from - 1; scroll_bottom = to }) = ground arith in
          rw fits (move-IsWf v (bound-le-pagelen ((from - 1) * s.cols) v))
      | inr not_fits ↦ rw not_fits w
    ]

cur_zero-IsWf : {s : Screen} → IsWf s → IsWf (record s { cur = 0 })
cur_zero-IsWf w = ground arith

erase_all_returns : {s : Screen} → IsWf s → Returns (erase s 0 s.pagelen) IsWf
erase_all_returns {s} w = let (t, e, r) = erase_returns 0 s.pagelen w (omega arith) in (t, e, r.wf)

pub set_dec_mode_returns : {s : Screen} (a1 : ℕ) → IsWf s → Returns (set_dec_mode s a1) IsWf
unfolding set_dec_mode
set_dec_mode_returns {s} a1 w = returns_if IsWf (a1 == 1) _ _ (ground arith) (
    returns_either IsWf (a1 == 3) _ _ (erase_all_returns (cur_zero-IsWf w)) (
      returns_if IsWf (a1 == 25) _ _ (ground arith) (
        returns_if IsWf (a1 == 6) _ _ (ground (arith, region_facts w))
          (returns_if IsWf (a1 == 7) _ _ (ground arith) (s, refl, w)))))

pub reset_dec_mode_returns : {s : Screen} (a1 : ℕ) → IsWf s → Returns (reset_dec_mode s a1) IsWf
unfolding reset_dec_mode
reset_dec_mode_returns {s} a1 w = returns_if IsWf (a1 == 1) _ _ (ground arith) (
    returns_either IsWf (a1 == 3) _ _ (erase_all_returns (cur_zero-IsWf w)) (
      returns_if IsWf (a1 == 25) _ _ (ground arith)
        (returns_if IsWf (a1 == 6) _ _ (ground arith) (s, refl, w))))

pub graphic_rendition_keeps : {s : Screen} (a : Args) → IsWf s → IsWf (graphic_rendition s a)
unfolding graphic_rendition
graphic_rendition_keeps a w = ground arith

if_dec_keeps :
    (dec : Bool) {s t : Screen} {m : Option Screen}
    → IsWf s
    → Returns m IsWf
    → (if dec then m else some s) ≡ some t
    → IsWf t
if_dec_keeps dec {s} w r e = returns_value IsWf (returns_either IsWf dec _ _ r (s, refl, w)) e

some_keeps : {s t : Screen} → IsWf s → some s ≡ some t → IsWf t
some_keeps {s} w e = returns_value IsWf (s, refl, w) e

-- Whatever its command, parameters and cursor, a control sequence that is carried out with no fault
-- leaves a well-formed screen well formed.
pub run_command-IsWf :
    (cmd : Command) {s t : Screen} (dec : Bool) (a : Args) (curcol : ℕ)
    → IsWf s
    → curcol < s.cols
    → run_command cmd s dec a curcol ≡ some t
    → IsWf t
unfolding run_command
run_command-IsWf insert_char dec a curcol w h e = insert_chars_keeps a.a1 curcol w e
run_command-IsWf up dec a curcol w h e = cursor_up_keeps a.a1 curcol w h e
run_command-IsWf down dec a curcol w h e = cursor_down_keeps a.a1 curcol w h e
run_command-IsWf right dec a curcol w h e = some_keeps (cursor_right_keeps a.a1 curcol w) e
run_command-IsWf left dec a curcol w h e = some_keeps (cursor_left_keeps a.a1 curcol w) e
run_command-IsWf row dec a curcol w h e = some_keeps (row_absolute_keeps a.a1 curcol w) e
run_command-IsWf column dec a curcol w h e = some_keeps (column_absolute_keeps a.a1 curcol w) e
run_command-IsWf pos dec a curcol w h e = some_keeps (position_keeps a.a1 a.a2 w) e
run_command-IsWf set_mode dec a curcol w h e = if_dec_keeps dec w (set_dec_mode_returns a.a1 w) e
run_command-IsWf display dec a curcol w h e = erase_display_keeps a.n a.a1 w e
run_command-IsWf line dec a curcol w h e = erase_line_keeps a.n a.a1 curcol w e
run_command-IsWf reset_mode dec a curcol w h e =
    if_dec_keeps dec w (reset_dec_mode_returns a.a1 w) e
run_command-IsWf insert_line dec a curcol w h e = returns_value IsWf (insert_lines_returns a.a1 w) e
run_command-IsWf rendition dec a curcol w h e = some_keeps (graphic_rendition_keeps a w) e
run_command-IsWf delete_line dec a curcol w h e = returns_value IsWf (delete_lines_returns a.a1 w) e
run_command-IsWf delete_char dec a curcol w h e = delete_chars_keeps a.a1 curcol w e
run_command-IsWf region dec a curcol w h e = some_keeps (set_region_keeps a.n a.a1 a.a2 w) e
run_command-IsWf erase_char dec a curcol w h e = erase_chars_keeps a.a1 curcol w e
run_command-IsWf ignored dec a curcol w h e = some_keeps w e

-- What holds of the screen that a sequence leaves behind.
abbrev pub Leaves : Sequence → Type 0
Leaves incomplete = Unit
Leaves (complete t rest) = IsWf t

csi_final-Leaves :
    {s : Screen} (dec : Bool) (a : Args) (rest : List ℕ) (curcol : ℕ) {q : Sequence}
    → IsWf s
    → curcol < s.cols
    → csi_final s dec a rest curcol ≡ some q
    → Leaves q
unfolding csi_final
csi_final-Leaves dec a [] curcol {q} w h e = let i : incomplete ≡ q = cc in subst Leaves i tt
csi_final-Leaves {s} dec a (cmd ∷ rest) curcol {q} w h e =
    let (u, _, e₁) =
      >>=-eq-some (require (ltb a.a1 int_limit && (ltb a.a2 int_limit && ltb a.a3 int_limit))) _
        e in
    let (t, et, e₂) = >>=-eq-some (run_command (command cmd) s dec a curcol) _ e₁ in
    let i : complete t rest ≡ q = cc in
    subst Leaves i (run_command-IsWf (command cmd) dec a curcol w h et)

csi_params-Leaves :
    {s : Screen} (dec : Bool) (base : List ℕ) (curcol : ℕ) {q : Sequence}
    → IsWf s
    → curcol < s.cols
    → csi_params s dec base curcol ≡ some q
    → Leaves q
unfolding csi_params
csi_params-Leaves dec base curcol w h e =
    csi_final-Leaves dec (scan_args (span_params base).0) (span_params base).1 curcol w h e

pub do_csi-Leaves :
    {s : Screen} (bytes : List ℕ) (curcol : ℕ) {q : Sequence}
    → IsWf s
    → curcol < s.cols
    → do_csi s bytes curcol ≡ some q
    → Leaves q
unfolding do_csi
do_csi-Leaves [] curcol {q} w h e = let i : incomplete ≡ q = cc in subst Leaves i tt
do_csi-Leaves (c ∷ cs) curcol w h e = elim (Bool-cases (is_private c)) [
  | inl private_mark ↦ csi_params-Leaves (c == b'?') cs curcol w h (rw private_mark at e)
  | inr plain ↦ csi_params-Leaves false (c ∷ cs) curcol w h (rw plain at e)
]
