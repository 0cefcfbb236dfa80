-- ===== src/Terminal/Csi/Lines.antt =====
-- terminal.c, `do_csi`: inserting and deleting lines. The loops move `scroll_top` for a while.
use kindle_myts.Base.{
  ℕ, zero, suc, ◌+◌, ◌/◌, ◌<◌, ◌≡◌, refl, arith, true, inl, inr, Bool-cases, Returns, leb, ltb,
  ◌&&◌, row_lt, ltb→lt,
}
use kindle_myts.Terminal.{Screen, IsWf, region_start, region_end}
use kindle_myts.Terminal.Csi.Edit.{insert_loop, delete_loop, insert_lines, delete_lines}
use kindle_myts.Terminal.Page.Redraw.{Redrawn, page_scroll_returns, page_scrolldown_returns}

-- `t` is well formed and has the region's end and the size of `s`.
pub record SameEnd (s t : Screen) : Type 0 where
  pub wf : IsWf t
  pub bottom_eq : t.scroll_bottom ≡ s.scroll_bottom
  pub cur_eq : t.cur ≡ s.cur
  pub pagelen_eq : t.pagelen ≡ s.pagelen

SameEnd-trans : {a b c : Screen} → SameEnd a b → SameEnd b c → SameEnd a c
SameEnd-trans p q = ground arith

Redrawn-SameEnd : {s t : Screen} → Redrawn s t → SameEnd s t
Redrawn-SameEnd r = ground arith

set_top-IsWf :
    {s : Screen} (top : ℕ) → IsWf s → top < s.scroll_bottom → IsWf (record s { scroll_top = top })
set_top-IsWf top w h = ground arith

insert_step :
    {s t : Screen}
    → Redrawn s t
    → s.scroll_top + 1 < s.scroll_bottom
    → SameEnd s (record t { scroll_top = t.scroll_top + 1 })
insert_step r h = let w = r.wf in ground arith

insert_loop_returns : (a : ℕ) {s : Screen} → IsWf s → Returns (insert_loop a s) (SameEnd s)
unfolding insert_loop
insert_loop_returns zero {s} w = (s, refl, ground arith)
insert_loop_returns (suc a) {s} w = elim (Bool-cases (ltb (s.scroll_top + 1) s.scroll_bottom)) [
  | inl room ↦
      let (t, e, r) = page_scrolldown_returns w in
      let st = insert_step r (ltb→lt _ _ room) in
      let (u, e', g) =
        insert_loop_returns a {s = record t { scroll_top = t.scroll_top + 1 }} st.wf in
      (u, rw (room, e) e', SameEnd-trans st g)
  | inr none_left ↦ (s, rw none_left, ground arith)
]

delete_loop_returns : (a : ℕ) {s : Screen} → IsWf s → Returns (delete_loop a s) (SameEnd s)
unfolding delete_loop
delete_loop_returns zero {s} w = (s, refl, ground arith)
delete_loop_returns (suc a) {s} w =
    let (t, e, r) = page_scroll_returns w in
    let (u, e', g) = delete_loop_returns a r.wf in (u, rw e e', SameEnd-trans (Redrawn-SameEnd r) g)

restore_top :
    {s t : Screen} (row : ℕ)
    → IsWf s
    → SameEnd (record s { scroll_top = row }) t
    → IsWf (record t { scroll_top = s.scroll_top })
restore_top row w g = let v = g.wf in ground arith

top_at_cursor :
    {s : Screen}
    → IsWf s
    → (leb (region_start s) s.cur && ltb s.cur (region_end s)) ≡ true
    → IsWf (record s { scroll_top = s.cur / s.cols })
top_at_cursor {s} w h =
    set_top-IsWf (s.cur / s.cols) w (row_lt s.cur s.scroll_bottom s.cols w.some_cols (ground arith))

-- Inserting lines stays inside the screen's memory for every argument and cursor.
pub insert_lines_returns : {s : Screen} (a1 : ℕ) → IsWf s → Returns (insert_lines s a1) IsWf
unfolding insert_lines
insert_lines_returns {s} a1 w =
    elim (Bool-cases (leb (region_start s) s.cur && ltb s.cur (region_end s))) [
      | inl inside ↦
          let (t, e, g) = insert_loop_returns a1 (top_at_cursor w inside) in
          (record t { scroll_top = s.scroll_top }, rw (inside, e), restore_top (s.cur / s.cols) w g)
      | inr outside ↦ (s, rw outside, w)
    ]

-- Deleting lines likewise.
pub delete_lines_returns : {s : Screen} (a1 : ℕ) → IsWf s → Returns (delete_lines s a1) IsWf
unfolding delete_lines
delete_lines_returns {s} a1 w =
    elim (Bool-cases (leb (region_start s) s.cur && ltb s.cur (region_end s))) [
      | inl inside ↦
          let s₀ = record s { scroll_top = s.cur / s.cols } in
          let w₀ = top_at_cursor w inside in
          elim (Bool-cases (ltb (s.cur / s.cols + 1) s.scroll_bottom)) [
            | inl room ↦
                let (t, e, g) = delete_loop_returns a1 w₀ in
                (
                  record t { scroll_top = s.scroll_top },
                  rw (inside, room, e),
                  restore_top (s.cur / s.cols) w g,
                )
            | inr last ↦ (s, rw (inside, last), w)
          ]
      | inr outside ↦ (s, rw outside, w)
    ]
