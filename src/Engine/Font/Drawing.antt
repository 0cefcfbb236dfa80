-- ===== src/Engine/Font/Drawing.antt =====
-- graphics/font_renderer.hpp: the pixels that `draw_char` and `draw_char_bold` set.
use kindle_myts.Base.{
  ℕ, zero, suc, ◌+◌, ◌-◌, ◌*◌, ◌/◌, ◌%◌, ◌≤◌, ◌<◌, ◌≡◌, refl, ap, ◌∙◌, arith, Bool, true, ◌&&◌,
  List, [], ◌∷◌, some, ltb, leb, ◌==◌, if◌then◌else◌, inl, inr, Bool-cases, length, get_elem?,
  get_or, mul_mono, Returns, tests,
}
use kindle_myts.Engine.Pixmap.{OwnedPixmap, get_pixel}
use kindle_myts.Engine.Pixmap.Pixels.{IsWf, put_pixel-Painted}
use kindle_myts.Engine.Font.{Font, ink, draw_columns, draw_rows, draw_glyph, get_glyph}

-- The pixels of an area have new colours, as far as they are on the surface; the others are as before.
pub record Plotted (area : ℕ → ℕ → Bool) (colour : ℕ → ℕ → ℕ) (p q : OwnedPixmap) : Type 0 where
  pub wf : IsWf q
  pub same_width : q.width ≡ p.width
  pub same_height : q.height ≡ p.height
  pub pixels :
      (i j : ℕ)
      → get_pixel q i j ≡ (
          if area i j && (ltb i p.width && ltb j p.height)
          then some (colour i j % 16)
          else get_pixel p i j)

-- the byte of the storage, or 0
abbrev pub stored_byte : Font → ℕ → ℕ
stored_byte f at = get_or f.storage at 0

get_or_in : (xs : List ℕ) (i : ℕ) → i < length xs → get_elem? xs i ≡ some (get_or xs i 0)
get_or_in [] i h = absurd (omega arith)
get_or_in (x ∷ xs) zero h = refl
get_or_in (x ∷ xs) (suc i) h = get_or_in xs i (omega arith)

shifted : (r n : ℕ) → r + 1 + n ≡ r + suc n
shifted r n = omega arith

module _ (shape : ℕ → ℕ) (fg bg : ℕ) (f : Font) where
  -- the colour of a column of a row whose bytes begin at `row`
  abbrev pub colour_at : ℕ → ℕ → ℕ
  colour_at row c = if ink (shape (stored_byte f (row + c / 8))) c then fg else bg

  columns_plot :
      (n c row x y : ℕ) (p : OwnedPixmap)
      → IsWf p
      → row + (c + n + 7) / 8 ≤ length f.storage
      → Returns (draw_columns shape fg bg f n c row x y p) (
          Plotted
            (λ i j. (leb (x + c) i && ltb i (x + c + n)) && j == y)
            (λ i j. colour_at row (i - x))
            p)
  unfolding draw_columns
  columns_plot zero c row x y p w fits = (
    p,
    refl,
    record { wf = w; same_width = refl; same_height = refl; pixels = λ i j. ground arith },
  )
  columns_plot (suc n) c row x y p w fits =
      let e = get_or_in f.storage (row + c / 8) (omega (arith, fits)) in
      let (q, eq, painted) = put_pixel-Painted (x + c) y (colour_at row c) p w in
      let (r, er, plotted) = columns_plot n (c + 1) row x y q painted.wf (omega (arith, fits)) in
      rw e (
        rw eq (
          r,
          er,
          record {
            wf = plotted.wf;
            same_width = plotted.same_width ∙ painted.same_width;
            same_height = plotted.same_height ∙ painted.same_height;
            pixels = λ i j. elim (Bool-cases (i == x + c)) [
              | inl here ↦
                  let z : i - x ≡ c = omega (tests, here) in
                  let k = ap (colour_at row) z in
                  ground (
                    arith,
                    here,
                    k,
                    painted.pixels i j,
                    plotted.pixels i j,
                    painted.same_width,
                    painted.same_height,
                  )
              | inr there ↦ ground (
                arith,
                there,
                painted.pixels i j,
                plotted.pixels i j,
                painted.same_width,
                painted.same_height,
              )
            ];
          },
        ))

  rows_plot :
      (n r at x y : ℕ) (p : OwnedPixmap)
      → IsWf p
      → f.bytes_per_row ≡ (f.width + 7) / 8
      → at + (r + n) * f.bytes_per_row ≤ length f.storage
      → Returns (draw_rows shape fg bg f n r at x y p) (
          Plotted
            (λ i j. (leb x i && ltb i (x + f.width)) && (leb (y + r) j && ltb j (y + r + n)))
            (λ i j. colour_at (at + (j - y) * f.bytes_per_row) (i - x))
            p)
  unfolding draw_rows
  rows_plot zero r at x y p w e fits = (
    p,
    refl,
    record { wf = w; same_width = refl; same_height = refl; pixels = λ i j. ground arith },
  )
  rows_plot (suc n) r at x y p w e fits =
      let below = mul_mono (r + 1) (r + suc n) f.bytes_per_row (omega arith) in
      let (q, eq, row) =
        columns_plot f.width 0 (at + r * f.bytes_per_row) x (y + r) p w
          (omega (arith, fits, below, e)) in
      let next : at + (r + 1 + n) * f.bytes_per_row ≤ length f.storage =
        omega (arith, fits, ap (λ (t : ℕ). t * f.bytes_per_row) (shifted r n)) in
      let (s, es, rest) = rows_plot n (r + 1) at x y q row.wf e next in
      rw eq (
        s,
        es,
        record {
          wf = rest.wf;
          same_width = rest.same_width ∙ row.same_width;
          same_height = rest.same_height ∙ row.same_height;
          pixels = λ i j. elim (Bool-cases (j == y + r)) [
            | inl here ↦
                let z : j - y ≡ r = omega (tests, here) in
                let k = ap (λ (t : ℕ). colour_at (at + t * f.bytes_per_row) (i - x)) z in
                ground
                  (arith, here, k, row.pixels i j, rest.pixels i j, row.same_width, row.same_height)
            | inr there ↦
                ground
                  (arith, there, row.pixels i j, rest.pixels i j, row.same_width, row.same_height)
          ];
        },
      )

-- The storage holds the rows of each glyph.
pub record IsFont (f : Font) : Type 0 where
  pub row_size : f.bytes_per_row ≡ (f.width + 7) / 8
  pub glyph_size : f.glyph_bytes ≡ f.height * f.bytes_per_row
  pub glyphs_in : (cp at : ℕ) → get_glyph cp f ≡ some at → at + f.glyph_bytes ≤ length f.storage

-- Each pixel of the box of a glyph that is on the surface gets the colour of its bit; all other pixels
-- keep theirs; no access leaves the font or the surface.
pub draw_glyph-Plotted :
    (shape : ℕ → ℕ) (fg bg : ℕ) (f : Font) (cp at x y : ℕ) (p : OwnedPixmap)
    → IsFont f
    → IsWf p
    → get_glyph cp f ≡ some at
    → Returns (draw_glyph shape fg bg f cp x y p) (λ out.
      (out.0 ≡ true)
      × Plotted
          (λ i j. (leb x i && ltb i (x + f.width)) && (leb y j && ltb j (y + f.height)))
          (λ i j. colour_at shape fg bg f (at + (j - y) * f.bytes_per_row) (i - x))
          p
          out.1)
unfolding draw_glyph
draw_glyph-Plotted shape fg bg f cp at x y p font w e =
    let room = font.glyphs_in cp at e in
    let z : 0 + f.height ≡ f.height = omega arith in
    let (q, eq, plot) =
      rows_plot shape fg bg f f.height 0 at x y p w font.row_size
        (rw z (omega (arith, room, font.glyph_size))) in
    rw e (
      rw eq (
        _,
        refl,
        (
          refl,
          record {
            wf = plot.wf;
            same_width = plot.same_width;
            same_height = plot.same_height;
            pixels = λ i j. ground (arith, plot.pixels i j);
          },
        ),
      ))
