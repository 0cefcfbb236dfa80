-- ===== src/Terminal/Page/Redraw.antt =====
-- terminal.c: erasing and scrolling stay inside the screen's memory and keep it well formed.
use kindle_myts.Base.{
  ℕ, ◌+◌, ◌-◌, ◌*◌, ◌≤◌, ◌<◌, ◌≡◌, refl, arith, inl, inr, Bool-cases, Option, not, ◌&&◌, some,
  ◌>>=◌, Returns, ltb, ◌==◌, if◌then◌else◌, take, drop, replicate, ap, lt→ltb, last_line_split,
  splice, fill, move, fill_fits, returns_value, >>=-eq-some, fill_lem, length-fill, move_lem,
  length-move, copy_lem, length-copy, mul_mono,
}
use kindle_myts.Terminal.{Screen, IsWf, region_start}
use kindle_myts.Terminal.Cursor.{region_facts}
use kindle_myts.Terminal.Page.{
  erase, shift_history, store_line, count_line, save_line, move_cells, body_len, page_scroll,
  page_scrolldown,
}

-- `s'` is well formed and differs from `s` in its cells and its scrollback area alone.
pub record Redrawn (s s' : Screen) : Type 0 where
  pub wf : IsWf s'
  pub utf8_eq : s'.utf8 ≡ s.utf8
  pub rows_eq : s'.rows ≡ s.rows
  pub cols_eq : s'.cols ≡ s.cols
  pub pagelen_eq : s'.pagelen ≡ s.pagelen
  pub cur_eq : s'.cur ≡ s.cur
  pub nowrap_eq : s'.nowrap ≡ s.nowrap
  pub originmode_eq : s'.originmode ≡ s.originmode
  pub scroll_top_eq : s'.scroll_top ≡ s.scroll_top
  pub scroll_bottom_eq : s'.scroll_bottom ≡ s.scroll_bottom
  pub cur_attr_eq : s'.cur_attr ≡ s.cur_attr
  pub wrapped_eq : s'.wrapped ≡ s.wrapped
  pub sb_lines_eq : s'.sb_lines ≡ s.sb_lines

pub Redrawn-trans : {a b c : Screen} → Redrawn a b → Redrawn b c → Redrawn a c
Redrawn-trans p q = ground arith

pub erase_returns :
    {s : Screen} (start len : ℕ)
    → IsWf s
    → start + len ≤ s.pagelen
    → Returns (erase s start len) (Redrawn s)
unfolding erase
erase_returns {s} start len w h =
    let p = fill_lem s.page start len 0x20 (omega arith) in
    let a = fill_lem s.attributes start len s.cur_attr (omega arith) in
    let page = splice start (replicate len 0x20) s.page in
    let attributes = splice start (replicate len s.cur_attr) s.attributes in
    (
      record s { page = page; attributes = attributes },
      rw (p, a),
      ground (
        arith,
        length-fill s.page start len 0x20 p,
        length-fill s.attributes start len s.cur_attr a,
      ),
    )

pub move_cells_returns :
    {s : Screen} (dst src n : ℕ)
    → IsWf s
    → dst + n ≤ s.pagelen
    → src + n ≤ s.pagelen
    → Returns (move_cells s dst src n) (Redrawn s)
unfolding move_cells
move_cells_returns {s} dst src n w h k =
    let p = move_lem s.page dst src n (omega arith) (omega arith) in
    let a = move_lem s.attributes dst src n (omega arith) (omega arith) in
    let page = splice dst (take n (drop src s.page)) s.page in
    let attributes = splice dst (take n (drop src s.attributes)) s.attributes in
    (
      record s { page = page; attributes = attributes },
      rw (p, a),
      ground (arith, length-move s.page dst src n p, length-move s.attributes dst src n a),
    )

-- The scrollback area in cells, where `top` lines are kept.
history_area :
    (n top c : ℕ)
    → top < n
    → (c ≤ (n - top) * c)
      × ((n - top) * c + top * c ≡ n * c)
      × ((n - top) * c - c + top * c ≤ n * c)
history_area n top c h =
    let e : n - top + top ≡ n = omega arith in
    let m = mul_mono 1 (n - top) c (omega arith) in omega (arith, ap (λ (t : ℕ). t * c) e)

shift_history_returns :
    {s : Screen} → IsWf s → s.top < s.sb_lines → Returns (shift_history s) (Redrawn s)
unfolding shift_history
shift_history_returns {s} w h =
    let t = (s.sb_lines - s.top) * s.cols in
    let area = history_area s.sb_lines s.top s.cols h in
    let p = move_lem s.sb_page (t - s.cols) t (s.top * s.cols) (omega arith) (omega arith) in
    let a = move_lem s.sb_attributes (t - s.cols) t (s.top * s.cols) (omega arith) (omega arith) in
    (
      record s {
        sb_page = splice (t - s.cols) (take (s.top * s.cols) (drop t s.sb_page)) s.sb_page;
        sb_attributes =
            splice (t - s.cols) (take (s.top * s.cols) (drop t s.sb_attributes)) s.sb_attributes;
      },
      rw (lt→ltb _ _ h, p, a),
      ground (
        arith,
        length-move s.sb_page (t - s.cols) t (s.top * s.cols) p,
        length-move s.sb_attributes (t - s.cols) t (s.top * s.cols) a,
      ),
    )

store_line_returns : {s : Screen} → IsWf s → 0 < s.sb_lines → Returns (store_line s) (Redrawn s)
unfolding store_line
store_line_returns {s} w h =
    let t = (s.sb_lines - 1) * s.cols in
    let room = last_line_split s.sb_lines s.cols h in
    let one = mul_mono 1 s.rows s.cols (omega arith) in
    let p = copy_lem s.sb_page t s.page 0 s.cols (omega arith) (omega arith) in
    let a = copy_lem s.sb_attributes t s.attributes 0 s.cols (omega arith) (omega arith) in
    (
      record s {
        sb_page = splice t (take s.cols (drop 0 s.page)) s.sb_page;
        sb_attributes = splice t (take s.cols (drop 0 s.attributes)) s.sb_attributes;
      },
      rw (p, a),
      ground (
        arith,
        length-copy s.sb_page t s.page 0 s.cols p,
        length-copy s.sb_attributes t s.attributes 0 s.cols a,
      ),
    )

count_line-Redrawn : {s : Screen} → IsWf s → Redrawn s (count_line s)
unfolding count_line
count_line-Redrawn w = ground arith

count_line-top-lt :
    {s : Screen} → IsWf s → 0 < s.sb_lines → (count_line s).top < (count_line s).sb_lines
unfolding count_line
count_line-top-lt w h = ground arith

-- A bind of two steps that redraw.
pub bind-Redrawn :
    {s : Screen} {m : Option Screen} {f : Screen → Option Screen}
    → Returns m (Redrawn s)
    → ((s₁ : Screen) → Redrawn s s₁ → Returns (f s₁) (Redrawn s₁))
    → Returns (m >>= f) (Redrawn s)
bind-Redrawn (s₁, e, r) k = let (s₂, e₂, r₂) = k s₁ r in (s₂, rw e e₂, Redrawn-trans r r₂)

Redrawn-refl : {s : Screen} → IsWf s → Redrawn s s
Redrawn-refl w = ground arith

shift_if_returns :
    {s : Screen}
    → IsWf s
    → s.top < s.sb_lines
    → Returns (if ltb 1 s.top then shift_history s else some s) (Redrawn s)
shift_if_returns {s} w h = elim (Bool-cases (ltb 1 s.top)) [
  | inl many ↦ rw many (shift_history_returns w h)
  | inr few ↦ rw few (s, refl, Redrawn-refl w)
]

store_history_returns :
    {s : Screen}
    → IsWf s
    → 0 < s.sb_lines
    → Returns
        ((if ltb 1 (count_line s).top then shift_history (count_line s) else some (count_line s))
          >>= store_line)
        (Redrawn s)
store_history_returns {s} w h =
    let counted = count_line-Redrawn w in
    let (s₁, e, r) = shift_if_returns counted.wf (count_line-top-lt w h) in
    let (s₂, e₂, r₂) =
      store_line_returns r.wf (omega (arith, r.sb_lines_eq, counted.sb_lines_eq)) in
    (s₂, rw e e₂, Redrawn-trans (Redrawn-trans counted r) r₂)

pub save_line_returns : {s : Screen} → IsWf s → Returns (save_line s) (Redrawn s)
unfolding save_line
save_line_returns {s} w = elim (Bool-cases (s.scroll_top == 0 && not (s.sb_lines == 0))) [
  | inl yes_store ↦ rw yes_store (store_history_returns w (ground arith))
  | inr none_store ↦ rw none_store (s, refl, Redrawn-refl w)
]

body_len_lem :
    (s : Screen)
    → s.scroll_top < s.scroll_bottom
    → body_len s ≡ some ((s.scroll_bottom - s.scroll_top - 1) * s.cols)
unfolding body_len
body_len_lem s h = rw (lt→ltb _ _ h)

-- On a well-formed screen `page_scroll` never leaves the screen's memory: it returns, keeps the
-- screen well formed, and changes nothing but cells, attributes and the scrollback area.
pub page_scroll_returns : {s : Screen} → IsWf s → Returns (page_scroll s) (Redrawn s)
unfolding page_scroll
page_scroll_returns {s} w =
    let f = region_facts w in
    rw (body_len_lem s w.region) (
      bind-Redrawn (save_line_returns w) λ s₁ r₁.
        bind-Redrawn
          (move_cells_returns (region_start s) (region_start s + s.cols)
            ((s.scroll_bottom - s.scroll_top - 1) * s.cols) r₁.wf (omega (arith, r₁.pagelen_eq))
            (omega (arith, r₁.pagelen_eq)))
          λ s₂ r₂.
            erase_returns ((s.scroll_bottom - 1) * s.cols) s.cols r₂.wf
              (omega (arith, r₂.pagelen_eq, r₁.pagelen_eq)))

-- The same of `page_scrolldown`.
pub page_scrolldown_returns : {s : Screen} → IsWf s → Returns (page_scrolldown s) (Redrawn s)
unfolding page_scrolldown
page_scrolldown_returns {s} w =
    let f = region_facts w in
    rw (body_len_lem s w.region) (
      bind-Redrawn
        (move_cells_returns (region_start s + s.cols) (region_start s)
          ((s.scroll_bottom - s.scroll_top - 1) * s.cols) w (omega arith) (omega arith))
        λ s₁ r₁. erase_returns (region_start s) s.cols r₁.wf (omega (arith, r₁.pagelen_eq)))

-- Where these two return at all, they keep the screen well formed.
pub erase_keeps : {s t : Screen} (start len : ℕ) → IsWf s → erase s start len ≡ some t → Redrawn s t
unfolding erase
erase_keeps {s} {t} start len w e =
    let (p, ep, _) = >>=-eq-some (fill s.page start len 0x20) _ e in
    returns_value (Redrawn s)
      (erase_returns start len w (omega (arith, fill_fits s.page start len 0x20 ep))) e

pub move_cells_keeps :
    {s t : Screen} (dst src n : ℕ) → IsWf s → move_cells s dst src n ≡ some t → Redrawn s t
unfolding move_cells
move_cells_keeps {s} dst src n w e =
    let (p, ep, e₁) = >>=-eq-some (move s.page dst src n) _ e in
    let (a, ea, _) = >>=-eq-some (move s.attributes dst src n) _ e₁ in
    ground (arith, length-move s.page dst src n ep, length-move s.attributes dst src n ea)
