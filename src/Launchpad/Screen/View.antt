-- ===== src/Launchpad/Screen/View.antt =====
-- launchpad.c, `print_buf`: the characters of a buffer are laid out in lines.
use kindle_myts.Base.{
  ℕ, zero, suc, ◌+◌, ◌-◌, ◌*◌, ◌/◌, ◌%◌, ◌≤◌, ◌<◌, ◌≡◌, refl, ap, ◌∙◌, arith, false, List, [], ◌∷◌,
  ◌++◌, Option, none, some, ◌==◌, if◌then◌else◌, take, length, Returns, ◌⊎◌, inl, inr, Bool-cases,
  append_nil, next_cell_line, next_cell_column,
}
use native.Mathlib.Nat.{zero-mod, zero-div, mul-add-div_right, mul-add-mod_self_right}
use kindle_myts.Launchpad.State.{Draw, put, area, restored}
use kindle_myts.Launchpad.Screen.{
  pop_attr, is_cur, shade, PrintedBuf, print_cells, print_end, print_buf,
}

-- the characters drawn, each with its place
abbrev pub glyphs : List Draw → List (ℕ × ℕ × ℕ)
glyphs [] = []
glyphs (put x y c bg ∷ ds) = (x, y, c) ∷ glyphs ds
glyphs (area x y w h ∷ ds) = glyphs ds
glyphs (restored p ∷ ds) = glyphs ds

pub glyphs-append : (xs ys : List Draw) → glyphs (xs ++ ys) ≡ glyphs xs ++ glyphs ys
glyphs-append [] ys = refl
glyphs-append (put x y c bg ∷ ds) ys = ap (◌∷◌ (x, y, c)) (glyphs-append ds ys)
glyphs-append (area x y w h ∷ ds) ys = glyphs-append ds ys
glyphs-append (restored p ∷ ds) ys = glyphs-append ds ys

-- Cells in lines of `cols`, of the size `w` by `h`, the first being the `i`th from the corner.
abbrev pub laid : ℕ → ℕ → ℕ → ℕ → ℕ → ℕ → List ℕ → List (ℕ × ℕ × ℕ)
laid x0 y0 cols w h i [] = []
laid x0 y0 cols w h i (c ∷ cs) =
    (x0 + i % cols * w, y0 + i / cols * h, c) ∷ laid x0 y0 cols w h (i + 1) cs

-- `x` and `y` behind a character, over the column `r` and the line `q` of the next one
step_x :
    (x0 r r₁ cols w x : ℕ)
    → r₁ ≡ (if r + 1 == cols then 0 else r + 1)
    → x ≡ x0 + r * w
    → (if r₁ == 0 then x0 else x + w) ≡ x0 + r₁ * w
step_x x0 r r₁ cols w x e ex = elim (Bool-cases (r + 1 == cols)) [
  | inl last ↦ let z : r₁ ≡ 0 = e ∙ rw last refl in rw z (omega arith)
  | inr inner ↦
      let z : r₁ ≡ r + 1 = e ∙ rw inner refl in
      let n : (r + 1 == 0) ≡ false = ground arith in rw (z, n) (omega (arith, ex))
]

step_y :
    (y0 r r₁ q q₁ cols h y : ℕ)
    → r₁ ≡ (if r + 1 == cols then 0 else r + 1)
    → q₁ ≡ (if r + 1 == cols then q + 1 else q)
    → y ≡ y0 + q * h
    → (if r₁ == 0 then y + h else y) ≡ y0 + q₁ * h
step_y y0 r r₁ q q₁ cols h y e f ey = elim (Bool-cases (r + 1 == cols)) [
  | inl last ↦
      let z : r₁ ≡ 0 = e ∙ rw last refl in
      let d : q₁ ≡ q + 1 = f ∙ rw last refl in rw (z, d) (omega (arith, ey))
  | inr inner ↦
      let z : r₁ ≡ r + 1 = e ∙ rw inner refl in
      let n : (r + 1 == 0) ≡ false = ground arith in
      let d : q₁ ≡ q = f ∙ rw inner refl in rw (z, n, d) ey
]

module _ (glyph_size : ℕ → ℕ × ℕ) (w h : ℕ) where
  -- Every character of the font has the size `w` by `h`.
  abbrev pub IsFixed : Type 0
  IsFixed = (c : ℕ) → glyph_size c ≡ (w, h)

  print_cells_lays :
      (len x0 y0 cols : ℕ) (cur : Option ℕ) (bg0 i x y : ℕ) (buf attr : List ℕ)
      → (last : Option (ℕ × ℕ)) → IsFixed
      → 0 < cols
      → len ≤ length buf
      → len ≤ length attr
      → x ≡ x0 + i % cols * w
      → y ≡ y0 + i / cols * h
      → Returns (print_cells glyph_size len x0 cols cur bg0 i x y buf (some attr) last) (λ p.
        (glyphs p.draws ≡ laid x0 y0 cols w h i (take len buf))
        × (0 < len ⊎ last ≡ some (w, h) → p.last ≡ some (w, h)))
  unfolding print_cells pop_attr
  print_cells_lays zero x0 y0 cols cur bg0 i x y buf attr last fixed pos a b ex ey = (
    record { draws = []; y = y; last = last },
    refl,
    (refl, λ o. elim o [ inl n ↦ absurd (omega arith) | inr e ↦ e ]),
  )
  print_cells_lays (suc len) x0 y0 cols cur bg0 i x y [] attr last fixed pos a b ex ey =
      absurd (omega arith)
  print_cells_lays (suc len) x0 y0 cols cur bg0 i x y (c ∷ buf) [] last fixed pos a b ex ey =
      absurd (omega arith)
  print_cells_lays (suc len) x0 y0 cols cur bg0 i x y (c ∷ buf) (t ∷ attr) last fixed pos a b ex
        ey =
      let ends = (i + 1) % cols == 0 in
      let x₁ = if ends then x0 else x + w in
      let y₁ = if ends then y + h else y in
      let (p, e, (lays, l)) =
        print_cells_lays len x0 y0 cols cur bg0 (i + 1) x₁ y₁ buf attr (some (w, h)) fixed pos
          (omega arith) (omega arith)
          (step_x x0 (i % cols) ((i + 1) % cols) cols w x (next_cell_column i cols pos) ex)
          (step_y y0 (i % cols) ((i + 1) % cols) (i / cols) ((i + 1) / cols) cols h y
            (next_cell_column i cols pos) (next_cell_line i cols pos) ey) in
      (
        record p { draws = put x y c (shade t (is_cur cur i)) ∷ p.draws },
        rw (fixed c, e) refl,
        (rw (ex, ey, lays) refl, λ o. l (inr refl)),
      )

  print_end_lays :
      (x0 y0 cols : ℕ) (p : PrintedBuf)
      → p.last ≡ some (w, h)
      → Returns (print_end glyph_size x0 y0 cols p) (λ ds. glyphs ds ≡ glyphs p.draws)
  unfolding print_end
  print_end_lays x0 y0 cols p e =
      let y = if p.y == y0 then p.y + h else p.y in
      let box = area x0 y0 (cols * w) (y - y0) ∷ [] in
      (p.draws ++ box, rw e refl, glyphs-append p.draws box ∙ append_nil (glyphs p.draws))

  -- `print_buf` of cells and attributes that are there draws its cells in lines.
  pub print_buf_lays :
      (x0 y0 cols : ℕ) (cur : Option ℕ) (buf : List ℕ) (len : ℕ) (attr : List ℕ) (bg0 : ℕ)
      → IsFixed
      → 0 < cols
      → 0 < len
      → len ≤ length buf
      → len ≤ length attr
      → Returns
          (print_buf glyph_size x0 y0 cols cur buf len (some attr) bg0)
          (λ ds. glyphs ds ≡ laid x0 y0 cols w h 0 (take len buf))
  unfolding print_buf
  print_buf_lays x0 y0 cols cur buf len attr bg0 fixed pos some_cells a b =
      let col : 0 % cols ≡ 0 = zero-mod cols in
      let row : 0 / cols ≡ 0 = zero-div cols in
      let (p, e, (lays, l)) =
        print_cells_lays len x0 y0 cols cur bg0 0 x0 y0 buf attr none fixed pos a b
          (rw col (omega arith)) (rw row (omega arith)) in
      let (ds, e', same) = print_end_lays x0 y0 cols p (l (inl some_cells)) in
      (ds, rw (e, e') refl, same ∙ lays)

-- The cells that begin a line lower, as cells further on.
pub laid_lower :
    (x0 y0 cols w h r i : ℕ) (cs : List ℕ)
    → 0 < cols
    → laid x0 (y0 + r * h) cols w h i cs ≡ laid x0 y0 cols w h (r * cols + i) cs
laid_lower x0 y0 cols w h r i [] pos = refl
laid_lower x0 y0 cols w h r i (c ∷ cs) pos =
    let col : (r * cols + i) % cols ≡ i % cols = mul-add-mod_self_right r cols i in
    let row : (r * cols + i) / cols ≡ r + i / cols = mul-add-div_right pos r i in
    let y : y0 + r * h + i / cols * h ≡ y0 + (r + i / cols) * h = omega arith in
    let later = laid_lower x0 y0 cols w h r (i + 1) cs pos in
    let n : r * cols + i + 1 ≡ r * cols + (i + 1) = omega arith in rw (col, row, y, n, later) refl

pub laid-append :
    (x0 y0 cols w h i : ℕ) (xs ys : List ℕ)
    → laid x0 y0 cols w h i (xs ++ ys)
      ≡ laid x0 y0 cols w h i xs ++ laid x0 y0 cols w h (i + length xs) ys
laid-append x0 y0 cols w h i [] ys = let n : i + 0 ≡ i = omega arith in rw n refl
laid-append x0 y0 cols w h i (c ∷ xs) ys =
    let n : i + suc (length xs) ≡ i + 1 + length xs = omega arith in
    rw n (
      ap (◌∷◌ (x0 + i % cols * w, y0 + i / cols * h, c)) (laid-append x0 y0 cols w h (i + 1) xs ys))
