-- ===== src/Engine/Render/Cells.antt =====
-- terminal/terminal_session.hpp: the pixels that the cells of a row get from `render`.
use kindle_myts.Base.{
  ℕ, zero, suc, ◌+◌, ◌-◌, ◌*◌, ◌%◌, ◌≤◌, ◌<◌, ◌≡◌, ◌⊎◌, refl, ap, ◌∙◌, arith, Bool, true, false,
  ◌&&◌, Option, none, some, ltb, leb, inl, inr, length, get_elem?, get_elem?_in, Returns,
}
use mathlib.Core.Path.{subst}
use kindle_myts.Engine.Session.{Cell, Session}
use kindle_myts.Engine.Pixmap.{OwnedPixmap, get_pixel}
use kindle_myts.Engine.Pixmap.Pixels.{IsWf}
use kindle_myts.Engine.Font.{Font, get_glyph, draw_found, draw_glyph, draw_char}
use kindle_myts.Engine.Font.Drawing.{IsFont, Plotted, colour_at, draw_glyph-Plotted}
use kindle_myts.Engine.Render.{fg_at, bg_at, render_columns}

-- the box of a glyph
abbrev in_box : Font → ℕ → ℕ → ℕ → ℕ → Bool
in_box f x y i j = (leb x i && ltb i (x + f.width)) && (leb y j && ltb j (y + f.height))

-- the colour of a pixel of the glyph at `at`
abbrev pub glyph_pixel : Font → ℕ → ℕ → ℕ → ℕ → ℕ → ℕ
glyph_pixel f fg bg at a b = colour_at (λ byte. byte) fg bg f (at + b * f.bytes_per_row) a % 16

-- A character is drawn in its box, where it has a glyph, and all other pixels are kept.
record Boxed (f : Font) (fg bg cp x y : ℕ) (p q : OwnedPixmap) : Type 0 where
  wf : IsWf q
  same_width : q.width ≡ p.width
  same_height : q.height ≡ p.height
  kept : (i j : ℕ) → in_box f x y i j ≡ false → get_pixel q i j ≡ get_pixel p i j
  drawn :
      (at a b : ℕ)
      → get_glyph cp f ≡ some at
      → a < f.width
      → b < f.height
      → x + a < p.width
      → y + b < p.height
      → get_pixel q (x + a) (y + b) ≡ some (glyph_pixel f fg bg at a b)

no_glyph-Boxed :
    (f : Font) (fg bg cp x y : ℕ) (p : OwnedPixmap)
    → IsWf p
    → get_glyph cp f ≡ none
    → Boxed f fg bg cp x y p p
no_glyph-Boxed f fg bg cp x y p w e = record {
  wf = w;
  same_width = refl;
  same_height = refl;
  kept = λ i j h. refl;
  drawn = λ at a b g. absurd cc;
}

Plotted-Boxed :
    (f : Font) (fg bg cp at x y : ℕ) (p q : OwnedPixmap)
    → get_glyph cp f ≡ some at
    → Plotted
        (in_box f x y)
        (λ i j. colour_at (λ byte. byte) fg bg f (at + (j - y) * f.bytes_per_row) (i - x))
        p
        q
    → Boxed f fg bg cp x y p q
Plotted-Boxed f fg bg cp at x y p q e plot = record {
  wf = plot.wf;
  same_width = plot.same_width;
  same_height = plot.same_height;
  kept = λ i j h. ground (arith, h, plot.pixels i j);
  drawn = λ at' a b g h k on on'.
      let i : x + a - x ≡ a = omega arith in
      let j : y + b - y ≡ b = omega arith in
      let same : at ≡ at' = cc in
      let box : in_box f x y (x + a) (y + b) && (ltb (x + a) p.width && ltb (y + b) p.height)
          ≡ true =
        ground (arith, h, k, on, on') in
      rw (box, i, j, same) at (plot.pixels (x + a) (y + b));
}

glyph_cases : (m : Option ℕ) → (m ≡ none) ⊎ ((at : ℕ) × (m ≡ some at))
glyph_cases none = inl refl
glyph_cases (some at) = inr (at, refl)

draw_char-Boxed :
    (f : Font) (fg bg cp x y : ℕ) (p : OwnedPixmap)
    → IsFont f
    → IsWf p
    → Returns (draw_char fg bg f cp x y p) (λ out. Boxed f fg bg cp x y p out.1)
unfolding draw_char draw_glyph draw_found
draw_char-Boxed f fg bg cp x y p font w = elim (glyph_cases (get_glyph cp f)) [
  | inl e ↦ rw e (_, refl, no_glyph-Boxed f fg bg cp x y p w e)
  | inr (at, e) ↦
      let (out, r, (_, plot)) = draw_glyph-Plotted (λ byte. byte) fg bg f cp at x y p font w e in
      (out, r, Plotted-Boxed f fg bg cp at x y p out.1 e plot)
]

-- what holds of a number and of those that follow it
pub from_first :
    (P : ℕ → Type 0) (n c : ℕ)
    → P c
    → ((k : ℕ) → k < n → P (c + 1 + k))
    → (k : ℕ) → k < suc n
    → P (c + k)
from_first P n c first rest zero h = let e : c ≡ c + 0 = omega arith in subst P e first
from_first P n c first rest (suc k) h =
    let e : c + 1 + k ≡ c + suc k = omega arith in subst P e (rest k (omega (arith, h)))

module _ (f : Font) (show_cursor : Bool) (s : Session) where
  -- the pixels of the cell `c` of the row `r`, where its character has a glyph
  unfoldable pub CellShown : ℕ → ℕ → OwnedPixmap → Type 0
  CellShown r c q =
      (cell : Cell) (at a b : ℕ)
      → get_elem? s.cells (r * s.cols + c) ≡ some cell
      → get_glyph cell.c f ≡ some at
      → a < f.width
      → b < f.height
      → c * f.width + a < q.width
      → r * f.height + b < q.height
      → get_pixel q (c * f.width + a) (r * f.height + b)
        ≡ some (glyph_pixel f (fg_at f show_cursor s r c) (bg_at f show_cursor s r c) at a b)

  -- What `n` cells of the row `r` leave, from column `c` on.
  pub record Columns (n c r : ℕ) (p q : OwnedPixmap) : Type 0 where
    pub wf : IsWf q
    pub same_width : q.width ≡ p.width
    pub same_height : q.height ≡ p.height
    pub before : (i j : ℕ) → i < c * f.width → get_pixel q i j ≡ get_pixel p i j
    pub above : (i j : ℕ) → j < r * f.height → get_pixel q i j ≡ get_pixel p i j
    pub below : (i j : ℕ) → (r + 1) * f.height ≤ j → get_pixel q i j ≡ get_pixel p i j
    pub shown : (k : ℕ) → k < n → CellShown r (c + k) q

  first_cell :
      (n c r : ℕ) (cell : Cell) {p q t : OwnedPixmap}
      → get_elem? s.cells (r * s.cols + c) ≡ some cell
      → Boxed f
          (fg_at f show_cursor s r c)
          (bg_at f show_cursor s r c)
          cell.c
          (c * f.width)
          (r * f.height)
          p
          q
      → Columns n (c + 1) r q t
      → CellShown r c t
  unfolding CellShown
  first_cell n c r cell e one rest = λ cell' at a b e' g h k on on'.
      let same : cell ≡ cell' = cc in
      rest.before (c * f.width + a) (r * f.height + b) (omega (arith, h))
      ∙ one.drawn at a b (ap (λ (x : Cell). get_glyph x.c f) same ∙ g) h k
          (omega (arith, on, rest.same_width, one.same_width))
          (omega (arith, on', rest.same_height, one.same_height))

  -- a cell in front of the other ones
  next_column :
      (n c r : ℕ) (cell : Cell) {p q t : OwnedPixmap}
      → get_elem? s.cells (r * s.cols + c) ≡ some cell
      → Boxed f
          (fg_at f show_cursor s r c)
          (bg_at f show_cursor s r c)
          cell.c
          (c * f.width)
          (r * f.height)
          p
          q
      → Columns n (c + 1) r q t
      → Columns (suc n) c r p t
  next_column n c r cell {p} {q} {t} e one rest = record {
    wf = rest.wf;
    same_width = rest.same_width ∙ one.same_width;
    same_height = rest.same_height ∙ one.same_height;
    before = λ i j h. rest.before i j (omega (arith, h)) ∙ one.kept i j (ground (arith, h));
    above = λ i j h. rest.above i j h ∙ one.kept i j (ground (arith, h));
    below = λ i j h. rest.below i j h ∙ one.kept i j (ground (arith, h));
    shown =
        from_first (λ (x : ℕ). CellShown r x t) n c (first_cell n c r cell e one rest) rest.shown;
  }

  pub Columns-shown :
      (n c r : ℕ) (p : OwnedPixmap)
      → IsFont f
      → IsWf p
      → r * s.cols + c + n ≤ length s.cells
      → Returns (render_columns f show_cursor s n c r p) (Columns n c r p)
  unfolding render_columns
  Columns-shown zero c r p font w fits = (
    p,
    refl,
    record {
      wf = w;
      same_width = refl;
      same_height = refl;
      before = λ i j h. refl;
      above = λ i j h. refl;
      below = λ i j h. refl;
      shown = λ k h. absurd (omega (arith, h));
    },
  )
  Columns-shown (suc n) c r p font w fits =
      let (cell, e) = get_elem?_in s.cells (r * s.cols + c) (omega (arith, fits)) in
      let (out, d, one) =
        draw_char-Boxed f (fg_at f show_cursor s r c) (bg_at f show_cursor s r c) cell.c
          (c * f.width) (r * f.height) p font w in
      let (q, d', rest) = Columns-shown n (c + 1) r out.1 font one.wf (omega (arith, fits)) in
      rw e (rw d (q, d', next_column n c r cell e one rest))
