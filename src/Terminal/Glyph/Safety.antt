-- ===== src/Terminal/Glyph/Safety.antt =====
-- terminal.c: no character leaves the screen's memory, wherever the cursor stands.
use kindle_myts.Base.{
  ℕ, ◌+◌, ◌-◌, ◌%◌, ◌^◌, ◌≤◌, ◌<◌, ◌≡◌, refl, arith, Bool, false, inl, inr, Bool-cases, Returns,
  ◌∙◌, leb, ltb, ◌==◌, if◌then◌else◌, ◌&&◌, store, splice, replicate, fill_lem, length-fill, get_or,
  List, length, returns_if,
}
use kindle_myts.Terminal.{Screen, IsWf}
use kindle_myts.Terminal.Cursor.{bound-le-pagelen, bound_sub-le-pagelen, region_facts}
use kindle_myts.Terminal.Glyph.{
  next_line, rounds, write_cell, advance, put_char, put_code, carriage_return, tab, backspace,
  special, special16,
}
use kindle_myts.Terminal.Glyph.Scrolling.{IsWfBut, IsWf-but, scroll_loop_ends}

next_line-IsWfBut : {s : Screen} → IsWf s → IsWfBut (next_line s)
unfolding next_line
next_line-IsWfBut w = record { at_home = ground arith }

store_lem :
    (xs : List ℕ) (i v : ℕ) → i < length xs → Returns (store xs i v) (λ ys. length ys ≡ length xs)
unfolding store
store_lem xs i v h =
    let e = fill_lem xs i 1 v (omega arith) in
    (splice i (replicate 1 v) xs, e, length-fill xs i 1 v e)

-- The write of `put_char` keeps the cursor in place and the screen well formed.
pub write_cell_returns :
    {s : Screen} (c : ℕ)
    → IsWf s
    → s.cur < s.pagelen
    → Returns (write_cell s c) (λ t. IsWf t × (t.cur ≡ s.cur) × (t.utf8 ≡ s.utf8))
unfolding write_cell
write_cell_returns {s} c w h =
    let table = if s.utf8 then special16 else special in
    let (p, ep, lp) = store_lem s.page s.cur (get_or table (c - 0x60) 0) (omega arith) in
    let (q, eq, lq) =
      store_lem s.page s.cur (if s.utf8 then c % 2 ^ 16 else c % 2 ^ 8) (omega arith) in
    let (a, ea, la) = store_lem s.attributes s.cur s.cur_attr (omega arith) in
    elim (Bool-cases (leb 0x60 c && (ltb c 0x7f && (s.dographic && s.graphics)))) [
      | inl graphic ↦ (record s { page = p }, rw (graphic, ep), ground arith)
      | inr plain ↦
          (record s { page = q; attributes = a; wrapped = false }, rw (plain, eq, ea), ground arith)
    ]

advance-IsWf : {s : Screen} (curcol : ℕ) → IsWf s → IsWf (advance s curcol)
unfolding advance
advance-IsWf curcol w = ground arith

next_line-utf8 : (s : Screen) → (next_line s).utf8 ≡ s.utf8
unfolding next_line
next_line-utf8 s = ground arith

advance-utf8 : (s : Screen) (curcol : ℕ) → (advance s curcol).utf8 ≡ s.utf8
unfolding advance
advance-utf8 s curcol = refl

-- `t` is well formed and has the width of characters of `s`.
abbrev pub IsFine : Screen → Screen → Type 0
IsFine s t = IsWf t × (t.utf8 ≡ s.utf8)

put_char_returns : {s : Screen} (c curcol : ℕ) → IsWf s → Returns (put_char s c curcol) (IsFine s)
unfolding put_char
put_char_returns {s} c curcol w = elim (Bool-cases (c == b'\n')) [
  | inl feed ↦
      let (t, e, g) = scroll_loop_ends rounds (omega arith) (next_line-IsWfBut w) in
      let same = g.shape.utf8_eq in (t, rw (feed, e), (g.wf, same ∙ next_line-utf8 s))
  | inr plain ↦
      let (t, e, g) = scroll_loop_ends rounds (omega arith) (IsWf-but w) in
      let f = region_facts g.wf in
      let (u, e', v) = write_cell_returns c g.wf (omega arith) in
      (
        advance u curcol,
        rw (plain, e, e'),
        (advance-IsWf curcol v.0, advance-utf8 u curcol ∙ v.2 ∙ g.shape.utf8_eq),
      )
]

move-IsWf :
    {s : Screen} {c : ℕ} {b : Bool}
    → IsWf s
    → c ≤ s.pagelen
    → IsWf (record s { cur = c; wrapped = b })
move-IsWf w h = ground arith

carriage_return-IsWf : {s : Screen} (curcol : ℕ) → IsWf s → IsWf (carriage_return s curcol)
unfolding carriage_return
carriage_return-IsWf {s} curcol w =
    move-IsWf w (bound_sub-le-pagelen s.cur (curcol + (if s.wrapped then s.cols else 0)) w)

tab-IsWf : {s : Screen} (curcol : ℕ) → IsWf s → IsWf (tab s curcol)
unfolding tab
tab-IsWf {s} curcol w = move-IsWf w (
    bound-le-pagelen
      (s.cur + (if leb (s.cols - 8) curcol then s.cols - 1 - curcol else 8 - curcol % 8)) w)

backspace-IsWf : {s : Screen} (curcol : ℕ) → IsWf s → IsWf (backspace s curcol)
unfolding backspace
backspace-IsWf {s} curcol w =
    move-IsWf w (bound-le-pagelen (if ltb 0 curcol then s.cur - 1 else s.cur) w)

-- On a well-formed screen every character that is no escape is taken in without an access outside
-- the screen's memory, and leaves the screen well formed and the width of characters as it was:
-- control characters and printing ones, with the cursor anywhere, also one past the page.
pub put_code_returns :
    {s : Screen} (c curcol : ℕ) → IsWf s → Returns (put_code s c curcol) (IsFine s)
unfolding put_code carriage_return tab backspace
put_code_returns {s} c curcol w =
    returns_if (IsFine s) (c == b'\r') _ _ (carriage_return-IsWf curcol w, refl)
      (returns_if (IsFine s) (c == 0x0e) _ _ (ground arith) (
        returns_if (IsFine s) (c == 0x0f) _ _ (ground arith) (
          returns_if (IsFine s) (c == 7) _ _ (w, refl)
            (returns_if (IsFine s) (c == b'\t') _ _ (tab-IsWf curcol w, refl)
              (returns_if (IsFine s) (c == 8) _ _ (backspace-IsWf curcol w, refl)
                (put_char_returns c curcol w))))))
