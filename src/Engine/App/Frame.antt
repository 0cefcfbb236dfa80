-- ===== src/Engine/App/Frame.antt =====
-- app/application.hpp: from a changed cell to the driver.
use kindle_myts.Base.{
  ℕ, zero, suc, ◌+◌, ◌-◌, ◌*◌, ◌/◌, ◌≤◌, ◌<◌, ◌≡◌, ap, arith, Bool, true, false, List, [], ◌∷◌,
  Option, none, some, ◌⊎◌, inl, inr, Bool-cases, get_elem?, mul_mono, Returns,
}
use mathlib.Core.Path.{subst}
use kindle_myts.Base.Int.{ℤ, pos, int_laws}
use kindle_myts.Engine.Geometry.{Rect, is_empty}
use kindle_myts.Engine.Geometry.Clip.{Covers, covers_none}
use kindle_myts.Engine.Display.{Display, bounds}
use kindle_myts.Engine.Display.Region.{Refreshes, mark_all, flush-Refreshes, Covers-around_left}
use kindle_myts.Engine.Session.{Session}
use kindle_myts.Engine.Parser.{feed}
use kindle_myts.Engine.Session.Invariant.{IsWf}
use kindle_myts.Engine.Session.Feed.{never_behind, feed-Drawn}
use kindle_myts.Engine.App.{dirty_span, span_rect, compute_dirty_rect, with_overlay, render_frame}

-- a row of a span
unfoldable Reaches : Option (ℕ × ℕ) → ℕ → Type 0
Reaches none k = ⊥
Reaches (some (first, last)) k = (first ≤ k) × (k ≤ last)

span_keeps :
    (r first last : ℕ) (rows : List Bool) (k : ℕ)
    → last ≤ r
    → (first ≤ k) × (k ≤ last)
    → Reaches (dirty_span r (some (first, last)) rows) k
unfolding dirty_span Reaches
span_keeps r first last [] k h m = m
span_keeps r first last (false ∷ rows) k h m = span_keeps (r + 1) first last rows k (omega arith) m
span_keeps r first last (true ∷ rows) k h m =
    span_keeps (r + 1) first r rows k (omega arith) (m.0, omega (arith, m.1))

span_some :
    (r first last : ℕ) (rows : List Bool) (i : ℕ)
    → first ≤ r
    → last ≤ r
    → get_elem? rows i ≡ some true
    → Reaches (dirty_span r (some (first, last)) rows) (r + i)
unfolding dirty_span
span_some r first last [] i f l e = cc
span_some r first last (true ∷ rows) zero f l e =
    span_keeps (r + 1) first r rows (r + 0) (omega arith) (omega (arith, f), omega arith)
span_some r first last (false ∷ rows) zero f l e = cc
span_some r first last (true ∷ rows) (suc i) f l e =
    let z : r + 1 + i ≡ r + suc i = omega arith in
    subst (Reaches (dirty_span (r + 1) (some (first, r)) rows)) z
      (span_some (r + 1) first r rows i (omega (arith, f)) (omega arith) e)
span_some r first last (false ∷ rows) (suc i) f l e =
    let z : r + 1 + i ≡ r + suc i = omega arith in
    subst (Reaches (dirty_span (r + 1) (some (first, last)) rows)) z
      (span_some (r + 1) first last rows i (omega (arith, f)) (omega (arith, l)) e)

-- A row that is marked is in the span.
span-Reaches :
    (r : ℕ) (rows : List Bool) (i : ℕ)
    → get_elem? rows i ≡ some true
    → Reaches (dirty_span r none rows) (r + i)
unfolding dirty_span
span-Reaches r [] i e = cc
span-Reaches r (true ∷ rows) zero e =
    span_keeps (r + 1) r r rows (r + 0) (omega arith) (omega arith, omega arith)
span-Reaches r (false ∷ rows) zero e = cc
span-Reaches r (true ∷ rows) (suc i) e =
    let z : r + 1 + i ≡ r + suc i = omega arith in
    subst (Reaches (dirty_span (r + 1) (some (r, r)) rows)) z
      (span_some (r + 1) r r rows i (omega arith) (omega arith) e)
span-Reaches r (false ∷ rows) (suc i) e =
    let z : r + 1 + i ≡ r + suc i = omega arith in
    subst (Reaches (dirty_span (r + 1) none rows)) z (span-Reaches (r + 1) rows i e)

-- a pixel of a row of characters
abbrev pub InRow : ℕ → ℕ → ℕ → ℕ → ℕ → Type 0
InRow glyph_height width r px py =
    (px < width) × (r * glyph_height ≤ py) × (py < (r + 1) * glyph_height)

span-Covers :
    (glyph_height width : ℕ) (span : Option (ℕ × ℕ)) (r px py : ℕ)
    → Reaches span r
    → InRow glyph_height width r px py
    → Covers (span_rect glyph_height (pos width) span) (pos px) (pos py)
unfolding Reaches Covers
span-Covers g width none r px py h p = absurd h
span-Covers g width (some (first, last)) r px py (lo, hi) (x, y, z) =
    let a = mul_mono first r g lo in
    let b = mul_mono (r + 1) (last + 1) g (omega (arith, hi)) in
    let n : last - first + 1 + first ≡ last + 1 = omega (arith, lo, hi) in
    let c = ap (λ (t : ℕ). t * g) n in
    ((omega int_laws, omega int_laws), (omega int_laws, omega int_laws))

module _ (glyph_height : ℕ) (reaches : ℤ → ℤ → Bool) (overlay : Bool) where
  row-Covers :
      (rows : List Bool) (w : ℤ) (width r px py : ℕ)
      → w ≡ pos width
      → get_elem? rows r ≡ some true
      → InRow glyph_height width r px py
      → Covers (compute_dirty_rect glyph_height w rows) (pos px) (pos py)
  unfolding compute_dirty_rect
  row-Covers rows w width r px py e marked inside =
      let z : 0 + r ≡ r = omega arith in
      rw e (
        span-Covers glyph_height width (dirty_span 0 none rows) r px py
          (subst (Reaches (dirty_span 0 none rows)) z (span-Reaches 0 rows r marked)) inside)

  overlay-Covers :
      (width : ℤ) (r : Rect) (px py : ℤ)
      → Covers r px py
      → Covers (with_overlay glyph_height overlay width r) px py
  unfolding with_overlay
  overlay-Covers width r px py h = elim (Bool-cases overlay) [
    | inl on ↦ rw on (Covers-around_left r _ px py h)
    | inr off ↦ rw off h
  ]

  -- A frame refreshes every pixel of the screen that belongs to a marked row.
  frame-Refreshes :
      (s : Session) (d : Display) (width r px py : ℕ)
      → d.width ≡ pos width
      → get_elem? s.dirty_rows r ≡ some true
      → InRow glyph_height width r px py
      → Covers (bounds d) (pos px) (pos py)
      → Refreshes (render_frame glyph_height reaches overlay s d).0 (pos px) (pos py)
  unfolding render_frame
  frame-Refreshes s d width r px py w marked inside on_screen =
      let dirty = compute_dirty_rect glyph_height d.width s.dirty_rows in
      let inner = row-Covers s.dirty_rows d.width width r px py w marked inside in
      elim (Bool-cases (is_empty dirty)) [
        | inl void ↦ covers_none dirty (pos px) (pos py) void inner
        | inr some_left ↦ rw some_left (
            unfold mark_all in
            flush-Refreshes reaches [] (with_overlay glyph_height overlay d.width dirty) [] d
              (pos px) (pos py) (overlay-Covers d.width dirty (pos px) (pos py) inner) on_screen)
      ]

  -- From the shell to the driver: unless ESC [ 1 J comes while the cursor is behind the last column, the
  -- frame after any bytes refreshes every pixel of the screen that belongs to the row of a cell that
  -- is not as it was before them.
  pub feed-Refreshes :
      (too_large : ℕ → ℤ) (bytes : List ℕ) (s : Session) (d : Display) (width i px py : ℕ)
      → IsWf s
      → never_behind too_large bytes s ≡ true
      → d.width ≡ pos width
      → InRow glyph_height width (i / s.cols) px py
      → Covers (bounds d) (pos px) (pos py)
      → Returns (feed too_large bytes s) (λ t.
        (get_elem? t.cells i ≡ get_elem? s.cells i)
        ⊎ Refreshes (render_frame glyph_height reaches overlay t d).0 (pos px) (pos py))
  feed-Refreshes too_large bytes s d width i px py w quiet e inside on_screen =
      let (t, r, (v, drawn)) = feed-Drawn too_large bytes s w quiet in
      (
        t,
        r,
        elim (drawn.shows i) [
          | inl same ↦ inl same
          | inr marked ↦
              inr (frame-Refreshes t d width (i / s.cols) px py e marked inside on_screen)
        ],
      )
