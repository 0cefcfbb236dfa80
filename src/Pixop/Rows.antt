-- ===== src/Pixop/Rows.antt =====
-- pixop.c: a line that is drawn changes its own bytes only.
use kindle_myts.Base.{
  ℕ, zero, suc, ◌+◌, ◌-◌, ◌*◌, ◌/◌, ◌%◌, ◌≤◌, ◌<◌, ◌≡◌, ◌⊎◌, inl, inr, refl, ◌∙◌, arith, List,
  Option, ◌>>=◌, ltb, leb, ◌==◌, if◌then◌else◌, get_elem?, get_elem?_in, store, fill_lem,
  length-fill, get_elem?-fill, copy, copy_lem, length-copy, get_elem?-copy, bit_and, bit_or, length,
  Returns, returns_bind, returns_test, Bool-cases, lt→ltb, splice, replicate, take, drop, ◌&&◌,
  false,
}
use kindle_myts.Pixop.{
  poke, or_bytes, left_pixel, even_row, shift_bytes, first_pixel, last_pixel, odd_row, blt_row,
}

-- The bytes behind are as many, and the same but for `n` from `lo` on.
pub record Changed (lo n : ℕ) (xs ys : List ℕ) : Type 0 where
  pub len : length ys ≡ length xs
  pub same : (k : ℕ) → (k < lo) ⊎ (lo + n ≤ k) → get_elem? ys k ≡ get_elem? xs k

pub Changed-refl : (lo n : ℕ) (xs : List ℕ) → Changed lo n xs xs
Changed-refl lo n xs = record { len = refl; same = λ k o. refl }

pub Changed-trans :
    {lo n : ℕ} {xs ys zs : List ℕ} → Changed lo n xs ys → Changed lo n ys zs → Changed lo n xs zs
Changed-trans c d = record { len = d.len ∙ c.len; same = λ k o. d.same k o ∙ c.same k o }

outside :
    (lo n i m k : ℕ)
    → lo ≤ i
    → i + m ≤ lo + n
    → (k < lo) ⊎ (lo + n ≤ k)
    → (leb i k && ltb k (i + m)) ≡ false
outside lo n i m k a b (inl low) = ground arith
outside lo n i m k a b (inr high) = ground arith

store_changes :
    (lo n : ℕ) (xs : List ℕ) (i v : ℕ)
    → i < length xs
    → lo ≤ i
    → i < lo + n
    → Returns (store xs i v) (Changed lo n xs)
unfolding store
store_changes lo n xs i v h a b =
    let e = fill_lem xs i 1 v (omega arith) in
    (
      splice i (replicate 1 v) xs,
      e,
      record {
        len = length-fill xs i 1 v e;
        same = λ k o. get_elem?-fill xs i 1 v k e ∙ rw (outside lo n i 1 k a (omega arith) o) refl;
      },
    )

poke_changes :
    (lo n : ℕ) (xs : List ℕ) (i : ℕ) (f : ℕ → ℕ)
    → i < length xs
    → lo ≤ i
    → i < lo + n
    → Returns (poke xs i f) (Changed lo n xs)
unfolding poke
poke_changes lo n xs i f h a b =
    let (v, e) = get_elem?_in xs i h in
    let (ys, e', c) = store_changes lo n xs i (f v) h a b in (ys, rw (e, e') refl, c)

or_bytes_change :
    (lo n w bg dp : ℕ) (dst : List ℕ)
    → dp + w ≤ length dst
    → lo ≤ dp
    → dp + w ≤ lo + n
    → Returns (or_bytes w bg dp dst) (Changed lo n dst)
unfolding or_bytes
or_bytes_change lo n zero bg dp dst h a b = (dst, refl, Changed-refl lo n dst)
or_bytes_change lo n (suc w) bg dp dst h a b =
    let (xs, e, c) =
      poke_changes lo n dst dp (λ b. bit_or b bg % 256) (omega arith) a (omega arith) in
    let (ys, e', d) =
      or_bytes_change lo n w bg (dp + 1) xs (omega (arith, c.len, h)) (omega arith) (omega arith) in
    (ys, rw (e, e') refl, Changed-trans c d)

copy_changes :
    (lo n w : ℕ) (dst : List ℕ) (dp : ℕ) (src : List ℕ) (sp : ℕ)
    → dp + w ≤ length dst
    → sp + w ≤ length src
    → lo ≤ dp
    → dp + w ≤ lo + n
    → Returns (copy dst dp src sp w) (Changed lo n dst)
copy_changes lo n w dst dp src sp h j a b =
    let e = copy_lem dst dp src sp w h j in
    (
      splice dp (take w (drop sp src)) dst,
      e,
      record {
        len = length-copy dst dp src sp w e;
        same = λ k o. get_elem?-copy dst dp src sp w k e ∙ rw (outside lo n dp w k a b o) refl;
      },
    )

-- a byte changed with one of the source
poke_from :
    (lo n : ℕ) (src : List ℕ) (sp : ℕ) (dst : List ℕ) (dp : ℕ) (f : ℕ → ℕ → ℕ)
    → sp < length src
    → dp < length dst
    → lo ≤ dp
    → dp < lo + n
    → Returns (get_elem? src sp >>= λ s. poke dst dp (f s)) (Changed lo n dst)
poke_from lo n src sp dst dp f j h a b =
    let (v, e) = get_elem?_in src sp j in
    let (ys, e', c) = poke_changes lo n dst dp (f v) h a b in (ys, rw (e, e') refl, c)

-- Behind one change, another.
then-Changed :
    {lo n : ℕ} {xs : List ℕ} {m : Option (List ℕ)} (g : List ℕ → Option (List ℕ))
    → Returns m (Changed lo n xs)
    → ((ys : List ℕ) → Changed lo n xs ys → Returns (g ys) (Changed lo n ys))
    → Returns (m >>= g) (Changed lo n xs)
then-Changed {lo} {n} {xs} {m} g r k =
    returns_bind (Changed lo n xs) (Changed lo n xs) m g r
      (λ ys c. let (zs, e, d) = k ys c in (zs, e, Changed-trans c d))

even_row_changes :
    (width bg : ℕ) (src : List ℕ) (sp : ℕ) (dst : List ℕ) (dp : ℕ)
    → sp + (width + 1) / 2 ≤ length src
    → dp + (width + 1) / 2 ≤ length dst
    → Returns (even_row width bg src sp dst dp) (Changed dp ((width + 1) / 2) dst)
unfolding even_row left_pixel
even_row_changes width bg src sp dst dp j h =
    let n = (width + 1) / 2 in
    let w = width / 2 in
    then-Changed _
      (copy_changes dp n w dst dp src sp (omega arith) (omega arith) (omega arith) (omega arith))
      (λ xs c.
        then-Changed _
          (returns_test (Changed dp n xs) (bg == 0) _ _ (λ plain. (xs, refl, Changed-refl dp n xs))
            (λ shaded.
              or_bytes_change dp n w bg dp xs (omega (arith, c.len)) (omega arith) (omega arith)))
          (λ ys d.
            returns_test (Changed dp n ys) (width % 2 == 1) _ _
              (λ odd.
                poke_from dp n src (sp + w) ys (dp + w)
                  (λ s d. bit_or (bit_or (bit_and d 0x0f) (bit_and s 0xf0)) (bit_and bg 0xf0))
                  (ground (arith, odd)) (ground (arith, odd, c.len, d.len)) (omega arith)
                  (ground (arith, odd)))
              (λ even. (ys, refl, Changed-refl dp n ys))))

shift_bytes_change :
    (lo n count bg : ℕ) (src : List ℕ) (sp : ℕ) (dst : List ℕ) (dp : ℕ)
    → sp + count ≤ length src
    → dp + count ≤ length dst
    → lo ≤ dp
    → dp + count ≤ lo + n
    → Returns (shift_bytes count bg src sp dst dp) (Changed lo n dst)
unfolding shift_bytes
shift_bytes_change lo n zero bg src sp dst dp j h a b = (dst, refl, Changed-refl lo n dst)
shift_bytes_change lo n (suc count) bg src sp dst dp j h a b =
    let (s, es) = get_elem?_in src (sp - 1) (omega arith) in
    let (t, et) = get_elem?_in src sp (omega arith) in
    let v = bit_or (bit_or (s * 16) (t / 16)) bg % 256 in
    let (xs, e, c) = store_changes lo n dst dp v (omega arith) a (omega arith) in
    let (ys, e', d) =
      shift_bytes_change lo n count bg src (sp + 1) xs (dp + 1) (omega arith)
        (omega (arith, c.len, h)) (omega arith) (omega arith) in
    (ys, rw (es, et, e, e') refl, Changed-trans c d)

last_pixel_changes :
    (lo n bg : ℕ) (src : List ℕ) (sp : ℕ) (dst : List ℕ) (dp : ℕ)
    → 0 < sp
    → sp ≤ length src
    → dp < length dst
    → lo ≤ dp
    → dp < lo + n
    → Returns (last_pixel bg src sp dst dp) (Changed lo n dst)
unfolding last_pixel
last_pixel_changes lo n bg src sp dst dp pos j h a b =
    let f = λ (s : ℕ) (d : ℕ). bit_or (bit_or (bit_and d 0x0f) (s * 16)) (bit_and bg 0xf0) % 256 in
    let (ys, e, c) = poke_from lo n src (sp - 1) dst dp f (omega arith) h a b in
    (ys, rw (lt→ltb 0 sp pos) e, c)

odd_row_changes :
    (width bg : ℕ) (src : List ℕ) (sp : ℕ) (dst : List ℕ) (dp : ℕ)
    → 0 < width
    → sp + (width + 1) / 2 ≤ length src
    → dp + (width / 2 + 1) ≤ length dst
    → Returns (odd_row width bg src sp dst dp) (Changed dp (width / 2 + 1) dst)
unfolding odd_row first_pixel
odd_row_changes width bg src sp dst dp pos j h =
    let n = width / 2 + 1 in
    let w = (width + 1) / 2 in
    then-Changed _
      (poke_from dp n src sp dst dp
        (λ s d. bit_or (bit_or (bit_and d 0xf0) (s / 16)) (bit_and bg 0x0f)) (omega arith)
        (omega arith) (omega arith) (omega arith))
      (λ xs c.
        then-Changed _
          (shift_bytes_change dp n (w - 1) bg src (sp + 1) xs (dp + 1) (omega arith)
            (omega (arith, c.len, h)) (omega arith) (omega arith))
          (λ ys d.
            returns_test (Changed dp n ys) (width % 2 == 0) _ _
              (λ even.
                last_pixel_changes dp n bg src (sp + w) ys (dp + w) (omega arith) (omega arith)
                  (ground (arith, even, c.len, d.len)) (omega arith) (ground (arith, even)))
              (λ odd. (ys, refl, Changed-refl dp n ys))))

-- the bytes of a line that `width` pixels from `dx` on take part in
abbrev pub row_bytes : ℕ → ℕ → ℕ
row_bytes dx width = if dx % 2 == 0 then (width + 1) / 2 else width / 2 + 1

pub blt_row_changes :
    (dx width bg : ℕ) (src : List ℕ) (sp : ℕ) (dst : List ℕ) (dp : ℕ)
    → 0 < width
    → sp + (width + 1) / 2 ≤ length src
    → dp + row_bytes dx width ≤ length dst
    → Returns (blt_row dx width bg src sp dst dp) (Changed dp (row_bytes dx width) dst)
unfolding blt_row
blt_row_changes dx width bg src sp dst dp pos j h = elim (Bool-cases (dx % 2 == 0)) [
  | inl even ↦
      let n : row_bytes dx width ≡ (width + 1) / 2 = rw even refl in
      let (ys, e, c) = even_row_changes width bg src sp dst dp j (omega (arith, n, h)) in
      (ys, rw even e, rw n c)
  | inr odd ↦
      let n : row_bytes dx width ≡ width / 2 + 1 = rw odd refl in
      let (ys, e, c) = odd_row_changes width bg src sp dst dp pos j (omega (arith, n, h)) in
      (ys, rw odd e, rw n c)
]
