-- ===== src/Base/Products.antt =====
-- Products of variables: rows of a grid, measured in cells.
use Prim.Native.Nat.{ℕ, ◌+◌, ◌-◌, ◌*◌, ◌/◌, ◌%◌, ◌≤◌, ◌<◌}
use mathlib.Core.Path.{◌≡◌, ap, sym, ◌∙◌}
use mathlib.Core.Logic.{inl, inr}
use kindle_myts.Base.Tests.{◌==◌, if◌then◌else◌, Bool-cases, ==→eq, ==_false→ne}
use native.Mathlib.Decide.{dec_lt}
use native.Mathlib.Nat.{div-add-mod, mod-add-mod, mod_self, mod-lt, mod-eq_of_lt, div-eq_of_lt-le}
use native.Mathlib.Omega.{arith}

pub mul_mono : (a b c : ℕ) → a ≤ b → a * c ≤ b * c
mul_mono a b c h = grind arith

pub line_split : (a b c : ℕ) → a < b → a * c + (c + (b - a - 1) * c) ≡ b * c
line_split a b c h =
    let e : a + 1 + (b - a - 1) ≡ b = omega arith in omega (arith, ap (λ (t : ℕ). t * c) e)

pub last_line_split : (b c : ℕ) → 0 < b → (b - 1) * c + c ≡ b * c
last_line_split b c h =
    let e : b - 1 + 1 ≡ b = omega arith in omega (arith, ap (λ (t : ℕ). t * c) e)

-- Two rows counts that make up a third.
pub add_rows : (a b n c : ℕ) → a + b ≡ n → a * c + b * c ≡ n * c
add_rows a b n c e = omega (arith, ap (λ (t : ℕ). t * c) e)

-- The row of a cell.
pub row_lt : (x b c : ℕ) → 0 < c → x < b * c → x / c < b
row_lt x b c h lt = elim (dec_lt (x / c) b) [
  | yes inside ↦ inside
  | no behind ↦ absurd (omega (arith, mul_mono b (x / c) c (omega arith), div-add-mod x c))
]

-- The whole row of a cell of a grid lies in the grid.
pub row_end : (x b c : ℕ) → 0 < c → x < b * c → x - x % c + c ≤ b * c
row_end x b c h lt =
    omega (arith, mul_mono (x / c + 1) b c (omega (arith, row_lt x b c h lt)), div-add-mod x c)

-- The column and the line of the next cell of a grid of `c` columns.
pub next_cell_column : (i c : ℕ) → 0 < c → (i + 1) % c ≡ (if i % c + 1 == c then 0 else i % c + 1)
next_cell_column i c h =
    let e : (i + 1) % c ≡ (i % c + 1) % c = sym (mod-add-mod i c 1) in
    elim (Bool-cases (i % c + 1 == c)) [
      | inl last ↦
          let z : i % c + 1 ≡ c = ==→eq (i % c + 1) c last in
          rw last (e ∙ ap (λ n. n % c) z ∙ mod_self c)
      | inr inner ↦
          let lt : i % c + 1 < c = omega (arith, mod-lt i h, ==_false→ne (i % c + 1) c inner) in
          rw inner (e ∙ mod-eq_of_lt lt)
    ]

pub next_cell_line : (i c : ℕ) → 0 < c → (i + 1) / c ≡ (if i % c + 1 == c then i / c + 1 else i / c)
next_cell_line i c h = elim (Bool-cases (i % c + 1 == c)) [
  | inl last ↦
      let z : i % c + 1 ≡ c = ==→eq (i % c + 1) c last in
      let lo : (i / c + 1) * c ≤ i + 1 = omega (arith, z, div-add-mod i c) in
      let hi : i + 1 < (i / c + 1 + 1) * c = omega (arith, z, div-add-mod i c) in
      rw last (div-eq_of_lt-le c lo hi)
  | inr inner ↦
      let n = ==_false→ne (i % c + 1) c inner in
      let lo : i / c * c ≤ i + 1 = omega (arith, div-add-mod i c) in
      let hi : i + 1 < (i / c + 1) * c = omega (arith, n, mod-lt i h, div-add-mod i c) in
      rw inner (div-eq_of_lt-le c lo hi)
]
