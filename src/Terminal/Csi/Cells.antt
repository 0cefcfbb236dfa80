-- ===== src/Terminal/Csi/Cells.antt =====
-- terminal.c, `do_csi`: the commands on characters keep the screen well formed, and where they
-- stay inside its memory.
use kindle_myts.Base.{
  ℕ, ◌+◌, ◌-◌, ◌≡◌, arith, inl, inr, Bool-cases, some, ◌>>=◌, >>=-eq-some, int_value, require, leb,
  ltb, ◌==◌, if◌then◌else◌, move, length-move,
}
use kindle_myts.Terminal.{Screen, IsWf}
use kindle_myts.Terminal.Csi.Edit.{
  insert_chars, delete_chars, erase_chars, or_zero, erase_display, erase_line,
}
use kindle_myts.Terminal.Page.{erase, move_cells}
use kindle_myts.Terminal.Page.Redraw.{erase_keeps, move_cells_keeps}

pub erase_keeps-IsWf : {s t : Screen} (start len : ℕ) → IsWf s → erase s start len ≡ some t → IsWf t
erase_keeps-IsWf start len w e = let r = erase_keeps start len w e in r.wf

pub insert_chars_keeps :
    {s t : Screen} (a1 curcol : ℕ) → IsWf s → insert_chars s a1 curcol ≡ some t → IsWf t
unfolding insert_chars
insert_chars_keeps {s} {t} a1 curcol w e =
    let (over, _, e₁) = >>=-eq-some (int_value (curcol + a1)) _ e in
    let a = if ltb s.cols over then s.cols - curcol else a1 in
    let l = s.cols - curcol - a in
    let (p, ep, e₂) = >>=-eq-some (move s.page (s.cur + a) s.cur l) _ e₁ in
    let (u, _, e₃) = >>=-eq-some (require (leb a s.cur)) _ e₂ in
    let (q, eq, e₄) = >>=-eq-some (move s.attributes s.cur (s.cur - a) l) _ e₃ in
    let w' : IsWf (record s { page = p; attributes = q }) = ground (
      arith,
      length-move s.page (s.cur + a) s.cur l ep,
      length-move s.attributes s.cur (s.cur - a) l eq,
    ) in
    erase_keeps-IsWf s.cur a w' e₄

deleted_keeps :
    {s t : Screen} (l a1 : ℕ)
    → IsWf s
    → (move_cells s s.cur (s.cur + a1) l >>= λ s₁. erase s₁ (s.cur + l) a1) ≡ some t
    → IsWf t
deleted_keeps {s} l a1 w e =
    let (s₁, em, e₁) = >>=-eq-some (move_cells s s.cur (s.cur + a1) l) _ e in
    let r = move_cells_keeps s.cur (s.cur + a1) l w em in erase_keeps-IsWf (s.cur + l) a1 r.wf e₁

pub delete_chars_keeps :
    {s t : Screen} (a1 curcol : ℕ) → IsWf s → delete_chars s a1 curcol ≡ some t → IsWf t
unfolding delete_chars
delete_chars_keeps {s} {t} a1 curcol w e =
    let (over, _, e₁) = >>=-eq-some (int_value (curcol + a1)) _ e in
    elim (Bool-cases (ltb over s.cols)) [
      | inl fits ↦ deleted_keeps (s.cols - curcol - a1) a1 w (rw fits at e₁)
      | inr past ↦ erase_keeps-IsWf s.cur (s.cols - curcol) w (rw past at e₁)
    ]

pub erase_chars_keeps :
    {s t : Screen} (a1 curcol : ℕ) → IsWf s → erase_chars s a1 curcol ≡ some t → IsWf t
unfolding erase_chars
erase_chars_keeps {s} a1 curcol w e =
    let (over, _, e₁) = >>=-eq-some (int_value (a1 + curcol)) _ e in
    erase_keeps-IsWf s.cur (if ltb s.cols over then s.cols - curcol else a1) w e₁

pub erase_display_keeps :
    {s t : Screen} (n a1 : ℕ) → IsWf s → erase_display s n a1 ≡ some t → IsWf t
unfolding erase_display
erase_display_keeps {s} n a1 w e = elim (Bool-cases (or_zero n a1 == 1)) [
  | inl one ↦ erase_keeps-IsWf 0 (s.cur + 1) w (rw one at e)
  | inr other ↦ elim (Bool-cases (or_zero n a1 == 2)) [
    | inl two ↦ erase_keeps-IsWf 0 s.pagelen w (rw (other, two) at e)
    | inr rest ↦ erase_keeps-IsWf s.cur (s.pagelen - s.cur) w (rw (other, rest) at e)
  ]
]

pub erase_line_keeps :
    {s t : Screen} (n a1 curcol : ℕ) → IsWf s → erase_line s n a1 curcol ≡ some t → IsWf t
unfolding erase_line
erase_line_keeps {s} n a1 curcol w e = elim (Bool-cases (or_zero n a1 == 1)) [
  | inl one ↦ erase_keeps-IsWf (s.cur - curcol) (curcol + 1) w (rw one at e)
  | inr other ↦ elim (Bool-cases (or_zero n a1 == 2)) [
    | inl two ↦ erase_keeps-IsWf (s.cur - curcol) s.cols w (rw (other, two) at e)
    | inr rest ↦ erase_keeps-IsWf s.cur (s.cols - curcol) w (rw (other, rest) at e)
  ]
]
