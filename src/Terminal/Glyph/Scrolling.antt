-- ===== src/Terminal/Glyph/Scrolling.antt =====
-- terminal.c: the loop that scrolls the page until the cursor stands in the scroll region.
use kindle_myts.Base.{
  ℕ, zero, suc, ◌*◌, ◌≤◌, ◌<◌, ◌≡◌, refl, arith, true, false, le→leb, Returns, leb, some,
}
use mathlib.Core.Path.{ap₂}
use native.Mathlib.Decide.{dec_lt}
use kindle_myts.Terminal.{Screen, IsWf, region_start, region_end}
use kindle_myts.Terminal.Cursor.{bound_sub, region_facts}
use kindle_myts.Terminal.Glyph.{scroll_round, scroll_loop}
use kindle_myts.Terminal.Page.Redraw.{Redrawn, page_scroll_returns}

-- All of the screen is well formed but the cursor, which may stand anywhere.
pub record IsWfBut (s : Screen) : Type 0 where
  pub at_home : IsWf (record s { cur = 0 })

pub move_cursor : {s : Screen} (c : ℕ) → IsWfBut s → c ≤ s.pagelen → IsWf (record s { cur = c })
move_cursor c b h = let w = b.at_home in ground arith

pub IsWf-but : {s : Screen} → IsWf s → IsWfBut s
IsWf-but w = record { at_home = ground arith }

-- The cursor after the step of a round, from a place behind the region.
abbrev pub stepped : Screen → ℕ
stepped s = bound_sub (record s { originmode = true }) s.cur s.cols

stepped_facts :
    {s : Screen}
    → IsWfBut s
    → region_end s ≤ s.cur
    → (stepped s ≤ region_end s)
      × (region_start s ≤ stepped s)
      × (s.cur ≡ region_end s → stepped s < region_end s)
unfolding bound_sub
stepped_facts {s} b h = let w = b.at_home in ground (arith, region_facts w)

round_returns :
    {s : Screen}
    → IsWfBut s
    → region_end s ≤ s.cur
    → Returns (scroll_round s) (Redrawn (record s { cur = stepped s }))
unfolding scroll_round
round_returns {s} b h =
    let f = stepped_facts b h in
    page_scroll_returns (move_cursor (stepped s) b (omega (arith, f.0, region_facts b.at_home)))

-- `t` has the geometry, the scroll region, the attributes and the width of characters of `s`.
pub record SameShape (s t : Screen) : Type 0 where
  pub utf8_eq : t.utf8 ≡ s.utf8
  pub rows_eq : t.rows ≡ s.rows
  pub cols_eq : t.cols ≡ s.cols
  pub pagelen_eq : t.pagelen ≡ s.pagelen
  pub originmode_eq : t.originmode ≡ s.originmode
  pub scroll_top_eq : t.scroll_top ≡ s.scroll_top
  pub scroll_bottom_eq : t.scroll_bottom ≡ s.scroll_bottom
  pub cur_attr_eq : t.cur_attr ≡ s.cur_attr
  pub sb_lines_eq : t.sb_lines ≡ s.sb_lines

pub SameShape-refl : (s : Screen) → SameShape s s
SameShape-refl s = ground arith

pub SameShape-trans : {a b c : Screen} → SameShape a b → SameShape b c → SameShape a c
SameShape-trans p q = ground arith

pub Redrawn-SameShape : {s t : Screen} → Redrawn s t → SameShape s t
Redrawn-SameShape r = ground arith

-- A well-formed screen whose cursor stands above the end of the scroll region.
pub record Settled (s t : Screen) : Type 0 where
  pub wf : IsWf t
  pub cur_lt : t.cur < region_end t
  pub shape : SameShape s t

Settled-here : {s : Screen} → IsWfBut s → s.cur < region_end s → Settled s s
Settled-here {s} b h =
    let w = b.at_home in
    let f = region_facts w in
    record { wf = move_cursor s.cur b (omega arith); cur_lt = h; shape = SameShape-refl s }

moved_shape : (s : Screen) (c : ℕ) {t : Screen} → Redrawn (record s { cur = c }) t → SameShape s t
moved_shape s c r = ground arith

-- One more round, where the rounds left are known to end.
loop_step :
    (fuel : ℕ) {s : Screen}
    → IsWfBut s
    → region_end s ≤ s.cur
    → ((t : Screen)
        → Redrawn (record s { cur = stepped s }) t
        → Returns (scroll_loop fuel t) (Settled t))
    → Returns (scroll_loop (suc fuel) s) (Settled s)
unfolding scroll_loop
loop_step fuel {s} b h k =
    let (t, e, r) = round_returns b h in
    let (u, e', g) = k t r in
    (
      u,
      rw (le→leb _ _ h, e) e',
      record {
        wf = g.wf;
        cur_lt = g.cur_lt;
        shape = SameShape-trans (moved_shape s (stepped s) r) g.shape;
      },
    )

-- In the region there is nothing to do.
pub scroll_loop_here : (fuel : ℕ) (s : Screen) → s.cur < region_end s → scroll_loop fuel s ≡ some s
unfolding scroll_loop
scroll_loop_here zero s h = refl
scroll_loop_here (suc fuel) s h = let e : leb (region_end s) s.cur ≡ false = ground arith in rw e

loop_stops :
    (fuel : ℕ) {s : Screen}
    → IsWfBut s
    → s.cur < region_end s
    → Returns (scroll_loop fuel s) (Settled s)
loop_stops fuel {s} b h = (s, scroll_loop_here fuel s h, Settled-here b h)

loop_from_end :
    (fuel : ℕ) {s : Screen}
    → IsWfBut s
    → s.cur ≡ region_end s
    → Returns (scroll_loop (suc fuel) s) (Settled s)
loop_from_end fuel {s} b h =
    let f = stepped_facts b (omega arith) in
    loop_step fuel b (omega arith) λ t r.
      loop_stops fuel (IsWf-but r.wf)
        (omega (arith, f.2 h, r.cur_eq, ap₂ ◌*◌ r.scroll_bottom_eq r.cols_eq))

-- The loop ends: with two rounds or more it returns, the cursor stands above the end of the scroll
-- region, and the screen is well formed, wherever the cursor stood. Geometry, region and attributes
-- stay.
pub scroll_loop_ends :
    (fuel : ℕ) {s : Screen} → 2 ≤ fuel → IsWfBut s → Returns (scroll_loop fuel s) (Settled s)
scroll_loop_ends zero h b = absurd (omega arith)
scroll_loop_ends (suc zero) h b = absurd (omega arith)
scroll_loop_ends (suc (suc fuel)) {s} h b = elim (dec_lt s.cur (region_end s)) [
  | yes inside ↦ loop_stops (suc (suc fuel)) b inside
  | no behind ↦
      let f = stepped_facts b (omega arith) in
      loop_step (suc fuel) b (omega arith) λ t r.
        let ends = ap₂ ◌*◌ r.scroll_bottom_eq r.cols_eq in
        elim (dec_lt t.cur (region_end t)) [
          | yes inside ↦ loop_stops (suc fuel) (IsWf-but r.wf) inside
          | no still ↦ loop_from_end fuel (IsWf-but r.wf) (omega (arith, f.0, r.cur_eq, ends))
        ]
]
