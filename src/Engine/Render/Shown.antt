-- ===== src/Engine/Render/Shown.antt =====
-- terminal/terminal_session.hpp: the pixels that `render` sets.
use kindle_myts.Base.{
  ℕ, zero, suc, ◌+◌, ◌*◌, ◌≤◌, ◌<◌, ◌≡◌, refl, ap, ◌∙◌, arith, Bool, true, false, List, Option,
  some, if◌then◌else◌, inl, inr, Bool-cases, length, get_elem?, mul_mono, Returns,
}
use mathlib.Core.Path.{subst}
use kindle_myts.Engine.Session.{Cell, Session}
use kindle_myts.Engine.Session.Invariant
use kindle_myts.Engine.Pixmap.{OwnedPixmap, get_pixel}
use kindle_myts.Engine.Pixmap.Pixels.{IsWf}
use kindle_myts.Engine.Font.{Font, get_glyph}
use kindle_myts.Engine.Font.Drawing.{IsFont}
use kindle_myts.Engine.Render.Cells.{glyph_pixel, CellShown, Columns-shown, from_first}
use kindle_myts.Engine.Render.{is_left_out, fg_at, bg_at, render_columns, render_rows, render}

zero_first : (n : ℕ) → 0 + n ≡ n
zero_first n = omega arith

module _ (f : Font) (show_cursor : Bool) (s : Session) (marks : Option (List Bool)) where
  -- a row that is left out keeps its pixels
  abbrev pub RowKept : OwnedPixmap → OwnedPixmap → ℕ → Type 0
  RowKept p q x =
      is_left_out marks x ≡ true
      → (i b : ℕ) → b < f.height
      → get_pixel q i (x * f.height + b) ≡ get_pixel p i (x * f.height + b)

  -- the cells of a row that is drawn
  abbrev pub RowShown : OwnedPixmap → ℕ → Type 0
  RowShown q x =
      is_left_out marks x ≡ false → (c : ℕ) → c < s.cols → CellShown f show_cursor s x c q

  record OneRow (r : ℕ) (p q : OwnedPixmap) : Type 0 where
    wf : IsWf q
    same_width : q.width ≡ p.width
    same_height : q.height ≡ p.height
    above : (i j : ℕ) → j < r * f.height → get_pixel q i j ≡ get_pixel p i j
    below : (i j : ℕ) → (r + 1) * f.height ≤ j → get_pixel q i j ≡ get_pixel p i j
    kept : RowKept p q r
    shown : RowShown q r

  -- What `n` rows from row `r` on leave.
  record Rows (n r : ℕ) (p q : OwnedPixmap) : Type 0 where
    wf : IsWf q
    same_width : q.width ≡ p.width
    same_height : q.height ≡ p.height
    above : (i j : ℕ) → j < r * f.height → get_pixel q i j ≡ get_pixel p i j
    kept : (k : ℕ) → k < n → RowKept p q (r + k)
    shown : (k : ℕ) → k < n → RowShown q (r + k)

  one_row :
      (r : ℕ) (p : OwnedPixmap)
      → IsFont f
      → IsWf p
      → r * s.cols + s.cols ≤ length s.cells
      → Returns
          (if is_left_out marks r then some p else render_columns f show_cursor s s.cols 0 r p)
          (OneRow r p)
  one_row r p font w fits = elim (Bool-cases (is_left_out marks r)) [
    | inl out ↦ rw out (
      p,
      refl,
      record {
        wf = w;
        same_width = refl;
        same_height = refl;
        above = λ i j h. refl;
        below = λ i j h. refl;
        kept = λ o i b h. refl;
        shown = λ o. absurd cc;
      },
    )
    | inr drawn ↦
        let (q, e, cols) =
          Columns-shown f show_cursor s s.cols 0 r p font w (omega (arith, fits)) in
        rw drawn (
          q,
          e,
          record {
            wf = cols.wf;
            same_width = cols.same_width;
            same_height = cols.same_height;
            above = cols.above;
            below = cols.below;
            kept = λ o. absurd cc;
            shown = λ o c h.
                let z : 0 + c ≡ c = omega arith in
                subst (λ (x : ℕ). CellShown f show_cursor s r x q) z (cols.shown c h);
          },
        )
  ]

  next_row :
      (n r : ℕ) {p q t : OwnedPixmap} → OneRow r p q → Rows n (r + 1) q t → Rows (suc n) r p t
  unfolding CellShown
  next_row n r {p} {q} {t} one rest = record {
    wf = rest.wf;
    same_width = rest.same_width ∙ one.same_width;
    same_height = rest.same_height ∙ one.same_height;
    above = λ i j h. rest.above i j (omega (arith, h)) ∙ one.above i j h;
    kept =
        from_first (RowKept p t) n r
          (λ o i b h. rest.above i (r * f.height + b) (omega (arith, h)) ∙ one.kept o i b h)
          (λ k h o i b h'.
            rest.kept k h o i b h'
            ∙ one.below i ((r + 1 + k) * f.height + b)
                (omega (arith, mul_mono (r + 1) (r + 1 + k) f.height (omega arith))));
    shown =
        from_first (RowShown t) n r
          (λ o c h cell at a b e g h' k on on'.
            rest.above (c * f.width + a) (r * f.height + b) (omega (arith, k))
            ∙ one.shown o c h cell at a b e g h' k (omega (arith, on, rest.same_width))
                (omega (arith, on', rest.same_height)))
          rest.shown;
  }

  rows_shown :
      (n r : ℕ) (p : OwnedPixmap)
      → IsFont f
      → IsWf p
      → (r + n) * s.cols ≤ length s.cells
      → Returns (render_rows f show_cursor s marks n r p) (Rows n r p)
  unfolding render_rows
  rows_shown zero r p font w fits = (
    p,
    refl,
    record {
      wf = w;
      same_width = refl;
      same_height = refl;
      above = λ i j h. refl;
      kept = λ k h. absurd (omega (arith, h));
      shown = λ k h. absurd (omega (arith, h));
    },
  )
  rows_shown (suc n) r p font w fits =
      let (q, e, one) =
        one_row r p font w
          (omega (arith, fits, mul_mono (r + 1) (r + suc n) s.cols (omega arith))) in
      let z : r + 1 + n ≡ r + suc n = omega arith in
      let (t, e', rest) =
        rows_shown n (r + 1) q font one.wf (omega (arith, fits, ap (λ (x : ℕ). x * s.cols) z)) in
      (t, rw e e', next_row n r one rest)

  render-Rows :
      (p : OwnedPixmap)
      → Invariant.IsWf s
      → IsFont f
      → IsWf p
      → Returns (render f show_cursor s marks p) (Rows s.rows 0 p)
  unfolding render
  render-Rows p v font w =
      rows_shown s.rows 0 p font w
        (omega (arith, v.cells_len, ap (λ (x : ℕ). x * s.cols) (zero_first s.rows)))

  -- On a surface of any size `render` returns, and each of its pixels that belongs to a cell has the
  -- colour of its bit in the glyph of the character, reversed at the cursor: for every row that is
  -- drawn, and every character that has a glyph. No access leaves the session, the font or the surface.
  pub render_pixel :
      (p : OwnedPixmap) (r c at a b : ℕ) (cell : Cell)
      → Invariant.IsWf s
      → IsFont f
      → IsWf p
      → r < s.rows
      → c < s.cols
      → is_left_out marks r ≡ false
      → get_elem? s.cells (r * s.cols + c) ≡ some cell
      → get_glyph cell.c f ≡ some at
      → a < f.width
      → b < f.height
      → c * f.width + a < p.width
      → r * f.height + b < p.height
      → Returns (render f show_cursor s marks p) (λ q.
        get_pixel q (c * f.width + a) (r * f.height + b)
        ≡ some (glyph_pixel f (fg_at f show_cursor s r c) (bg_at f show_cursor s r c) at a b))
  unfolding CellShown
  render_pixel p r c at a b cell v font w in_rows in_cols drawn e g h k on on' =
      let (q, d, rows) = render-Rows p v font w in
      let z = zero_first r in
      (
        q,
        d,
        subst (RowShown q) z (rows.shown r in_rows) drawn c in_cols cell at a b e g h k
            (omega (arith, on, rows.same_width)) (omega (arith, on', rows.same_height)),
      )

  -- The rows that are left out keep their pixels.
  pub render_keeps :
      (p : OwnedPixmap) (r i b : ℕ)
      → Invariant.IsWf s
      → IsFont f
      → IsWf p
      → r < s.rows
      → is_left_out marks r ≡ true
      → b < f.height
      → Returns
          (render f show_cursor s marks p)
          (λ q. get_pixel q i (r * f.height + b) ≡ get_pixel p i (r * f.height + b))
  render_keeps p r i b v font w in_rows out h =
      let (q, d, rows) = render-Rows p v font w in
      (q, d, subst (RowKept p q) (zero_first r) (rows.kept r in_rows) out i b h)
