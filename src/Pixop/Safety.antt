-- ===== src/Pixop/Safety.antt =====
-- pixop.c: `pix_blt` stays in both pixmaps, and changes the rectangle only.
use kindle_myts.Base.{
  ℕ, Bool, true, false, replicate, length-replicate, zero, suc, ◌+◌, ◌*◌, ◌/◌, ◌%◌, ◌≤◌, ◌<◌, ◌≡◌,
  ◌⊎◌, inl, inr, refl, ◌∙◌, arith, List, some, get_elem?, length, Returns, mul_mono,
}
use mathlib.Core.Path.{subst}
use native.Mathlib.Decide.{dec_lt}
use kindle_myts.Pixop.{Pixmap, stride, blt_rows, pix_blt, pix_alloc}
use kindle_myts.Pixop.Rows.{row_bytes, blt_row_changes}

-- The byte `x` of line `y` is outside `height` lines from `top` on, or outside `n` bytes of a line
-- from `c` on.
abbrev pub IsOutside : ℕ → ℕ → ℕ → ℕ → ℕ → ℕ → Type 0
IsOutside top height c n y x = (y < top) ⊎ (top + height ≤ y) ⊎ (x < c) ⊎ (c + n ≤ x)

-- The bytes behind, in lines of `w`, are as many, and the same outside a rectangle.
pub record Keeps (w top height c n : ℕ) (xs ys : List ℕ) : Type 0 where
  pub len : length ys ≡ length xs
  pub same :
      (y x : ℕ)
      → x < w
      → IsOutside top height c n y x
      → get_elem? ys (y * w + x) ≡ get_elem? xs (y * w + x)

-- The byte is no byte of the line `top`.
off_line :
    (w top c n y x : ℕ)
    → c + n ≤ w
    → x < w
    → (y < top) ⊎ (top < y) ⊎ (x < c) ⊎ (c + n ≤ x)
    → (y * w + x < top * w + c) ⊎ (top * w + c + n ≤ y * w + x)
off_line w top c n y x fit lt (inl above) =
    inl (omega (arith, mul_mono (y + 1) top w (omega arith)))
off_line w top c n y x fit lt (inr (inl below)) =
    inr (omega (arith, mul_mono (top + 1) y w (omega arith)))
off_line w top c n y x fit lt (inr (inr side)) = elim (dec_lt y top) [
  | yes above ↦ inl (omega (arith, mul_mono (y + 1) top w (omega arith)))
  | no other ↦ elim (dec_lt top y) [
    | yes below ↦ inr (omega (arith, mul_mono (top + 1) y w (omega arith)))
    | no here ↦
        let e : y ≡ top = omega arith in
        rw e (elim side [ inl left ↦ inl (omega arith) | inr right ↦ inr (omega arith) ])
  ]
]

outside_first :
    (top height c n y x : ℕ)
    → IsOutside top (suc height) c n y x
    → (y < top) ⊎ (top < y) ⊎ (x < c) ⊎ (c + n ≤ x)
outside_first top height c n y x (inl a) = inl a
outside_first top height c n y x (inr (inl b)) = inr (inl (omega arith))
outside_first top height c n y x (inr (inr s)) = inr (inr s)

IsOutside-rest :
    (top height c n y x : ℕ)
    → IsOutside top (suc height) c n y x
    → IsOutside (top + 1) height c n y x
IsOutside-rest top height c n y x (inl a) = inl (omega arith)
IsOutside-rest top height c n y x (inr (inl b)) = inr (inl (omega arith))
IsOutside-rest top height c n y x (inr (inr s)) = inr (inr s)

blt_rows_keep :
    (height dx width bg dw sw : ℕ) (src : List ℕ) (sy e sp : ℕ) (dst : List ℕ) (dy c dp : ℕ)
    → 0 < width
    → sp ≡ sy * sw + e
    → dp ≡ dy * dw + c
    → e + (width + 1) / 2 ≤ sw
    → c + row_bytes dx width ≤ dw
    → (sy + height) * sw ≤ length src
    → (dy + height) * dw ≤ length dst
    → Returns
        (blt_rows height dx width bg dw sw src sp dst dp)
        (Keeps dw dy height c (row_bytes dx width) dst)
unfolding blt_rows
blt_rows_keep zero dx width bg dw sw src sy e sp dst dy c dp pos es ed fs fd ls ld =
    (dst, refl, record { len = refl; same = λ y x lt o. refl })
blt_rows_keep (suc height) dx width bg dw sw src sy e sp dst dy c dp pos es ed fs fd ls ld =
    let n = row_bytes dx width in
    let src_room = mul_mono (sy + 1) (sy + suc height) sw (omega arith) in
    let dst_room = mul_mono (dy + 1) (dy + suc height) dw (omega arith) in
    let (xs, ex, row) =
      blt_row_changes dx width bg src sp dst dp pos (omega (arith, es, src_room, ls, fs))
        (omega (arith, ed, dst_room, ld, fd)) in
    let s : sy + 1 + height ≡ sy + suc height = omega arith in
    let d : dy + 1 + height ≡ dy + suc height = omega arith in
    let (ys, ey, rest) =
      blt_rows_keep height dx width bg dw sw src (sy + 1) e (sp + sw) xs (dy + 1) c (dp + dw) pos
        (omega (arith, es)) (omega (arith, ed)) fs fd (rw s ls) (rw (d, row.len) ld) in
    (
      ys,
      rw (ex, ey) refl,
      record {
        len = rest.len ∙ row.len;
        same = λ y x lt o.
            rest.same y x lt (IsOutside-rest dy height c n y x o)
            ∙ row.same (y * dw + x)
                (rw ed (off_line dw dy c n y x fd lt (outside_first dy height c n y x o)));
      },
    )

-- The surface has its lines.
abbrev pub IsPixmap : Pixmap → Type 0
IsPixmap p = p.height * stride p ≤ length p.surface

-- `pix_blt` of a rectangle that is not empty, begins at an even column of the source and lies in both
-- pixmaps returns and stays inside their surfaces, and outside the bytes of the rectangle no byte of
-- the destination changes.
pub pix_blt_inside :
    (dst : Pixmap) (dx dy : ℕ) (src : Pixmap) (sx sy width height bg : ℕ)
    → IsPixmap dst
    → IsPixmap src
    → 0 < width
    → sx % 2 ≡ 0
    → dx + width ≤ dst.width
    → dy + height ≤ dst.height
    → sx + width ≤ src.width
    → sy + height ≤ src.height
    → Returns
        (pix_blt dst dx dy src sx sy (some width) height bg)
        (λ r. Keeps (stride dst) dy height (dx / 2) (row_bytes dx width) dst.surface r.1.surface)
unfolding pix_blt
pix_blt_inside dst dx dy src sx sy width height bg wd ws pos even a b c d =
    let (ys, e, k) =
      blt_rows_keep height dx width bg (stride dst) (stride src) src.surface sy (sx / 2)
        (sy * stride src + sx / 2) dst.surface dy (dx / 2) (dy * stride dst + dx / 2) pos refl refl
        (omega arith) (ground arith)
        (omega (arith, ws, mul_mono (sy + height) src.height (stride src) d))
        (omega (arith, wd, mul_mono (dy + height) dst.height (stride dst) b)) in
    ((width * height, record dst { surface = ys }), rw e refl, k)

pub pix_alloc-IsPixmap :
    (memory : Bool) (w h : ℕ) {p : Pixmap}
    → pix_alloc memory w h ≡ some p
    → IsPixmap p × (p.width ≡ w) × (p.height ≡ h)
unfolding pix_alloc
pix_alloc-IsPixmap true w h {p} e =
    let made : Pixmap = record {
      width = w;
      height = h;
      bpp = 0;
      surface = replicate ((w + 1) / 2 * h) 0;
    } in
    let i : made ≡ p = cc in
    subst (λ (q : Pixmap). IsPixmap q × (q.width ≡ w) × (q.height ≡ h)) i
      (omega (arith, length-replicate {A = ℕ} ((w + 1) / 2 * h) 0), refl, refl)
pix_alloc-IsPixmap false w h e = cc
