-- ===== src/Engine/Pixmap/Pixels.antt =====
-- graphics/pixmap.hpp: `get_pixel` after `set_pixel`.
use kindle_myts.Base.{
  ℕ, ◌+◌, ◌*◌, ◌/◌, ◌%◌, ◌<◌, ◌≡◌, refl, ap, ◌∙◌, arith, Bool, true, false, not, ◌&&◌, ◌||◌, List,
  some, ltb, leb, ◌==◌, if◌then◌else◌, inl, inr, Bool-cases, length, get_elem?, store, get_elem?_in,
  fill_lem, length-fill, get_elem?-fill, length-replicate, mul_mono, Returns, ==→eq, ltb→lt, tests,
}
use native.Mathlib.Nat.{mul_comm}
use kindle_myts.Engine.Pixmap.{
  OwnedPixmap, new_pixmap, byte_index, is_even, with_half, half, put_pixel, get_pixel,
}

-- The storage has a byte for each two pixels of a row.
pub record IsWf (p : OwnedPixmap) : Type 0 where
  pub strided : p.stride ≡ (p.width + 1) / 2
  pub filled : length p.storage ≡ p.stride * p.height

pub new_pixmap-IsWf : (w h : ℕ) → IsWf (new_pixmap w h)
unfolding new_pixmap
new_pixmap-IsWf w h = record { strided = refl; filled = length-replicate ((w + 1) / 2 * h) 0 }

byte_in :
    (p : OwnedPixmap) (x y : ℕ)
    → IsWf p
    → x < p.width
    → y < p.height
    → byte_index p x y < length p.storage
byte_in p x y w h k =
    let rows = mul_mono (y + 1) p.height p.stride (omega (arith, k)) in
    let col : x / 2 < p.stride = omega (arith, h, w.strided) in
    omega (arith, w.filled, rows, col, mul_comm p.stride p.height)

rows_apart : (s a b y z : ℕ) → a < s → y < z → y * s + a < z * s + b
rows_apart s a b y z h k = omega (arith, mul_mono (y + 1) z s (omega (arith, k)), h)

-- Two pixels that share a byte are neighbours in one row.
same_byte : (s a b y z : ℕ) → a < s → b < s → y * s + a ≡ z * s + b → (y ≡ z) × (a ≡ b)
same_byte s a b y z h k e = elim (Bool-cases (ltb y z)) [
  | inl above ↦ absurd (omega (arith, e, rows_apart s a b y z h (ltb→lt y z above)))
  | inr down ↦ elim (Bool-cases (ltb z y)) [
    | inl below ↦ absurd (omega (arith, e, rows_apart s b a z y k (ltb→lt z y below)))
    | inr up ↦
        let f : y ≡ z = omega (tests, down, up) in (f, omega (arith, e, ap (λ (t : ℕ). t * s) f))
  ]
]

half-with_half :
    (at high : Bool) (byte color : ℕ)
    → half at (with_half high byte color)
      ≡ (if at && high || (not at && not high) then color % 16 else half at byte)
half-with_half true true byte color = omega arith
half-with_half true false byte color = omega arith
half-with_half false true byte color = omega arith
half-with_half false false byte color = omega arith

-- One pixel has a new colour, where it is on the surface.
pub record Painted (p : OwnedPixmap) (x y color : ℕ) (q : OwnedPixmap) : Type 0 where
  pub wf : IsWf q
  pub same_width : q.width ≡ p.width
  pub same_height : q.height ≡ p.height
  pub pixels :
      (i j : ℕ)
      → get_pixel q i j ≡ (
          if (i == x && j == y) && (ltb i p.width && ltb j p.height)
          then some (color % 16)
          else get_pixel p i j)

stored :
    (xs : List ℕ) (i v : ℕ)
    → i < length xs
    → (ys : List ℕ) × (store xs i v ≡ some ys) × (length ys ≡ length xs)
unfolding store
stored xs i v h = let s = fill_lem xs i 1 v (omega (arith, h)) in (_, s, length-fill xs i 1 v s)

painted_pixel :
    (p : OwnedPixmap) (x y color byte : ℕ) (s : List ℕ) (i j : ℕ)
    → IsWf p
    → x < p.width
    → y < p.height
    → get_elem? p.storage (byte_index p x y) ≡ some byte
    → store p.storage (byte_index p x y) (with_half (is_even x) byte color) ≡ some s
    → get_pixel (record p { storage = s }) i j ≡ (
        if (i == x && j == y) && (ltb i p.width && ltb j p.height)
        then some (color % 16)
        else get_pixel p i j)
unfolding get_pixel store
painted_pixel p x y color byte s i j w h k e st =
    elim (Bool-cases (leb p.width i || leb p.height j)) [
      | inl out ↦ rw out (ground (arith, out))
      | inr on ↦
          let h' : i < p.width = ground (arith, on) in
          let k' : j < p.height = ground (arith, on) in
          let at =
            get_elem?-fill p.storage (byte_index p x y) 1 (with_half (is_even x) byte color)
              (byte_index p i j) st in
          elim (Bool-cases (byte_index p i j == byte_index p x y)) [
            | inl same ↦
                let (row, col) =
                  same_byte p.stride (i / 2) (x / 2) j y (omega (arith, h', w.strided))
                    (omega (arith, h, w.strided))
                    (==→eq (byte_index p i j) (byte_index p x y) same) in
                let z =
                  ap (get_elem? p.storage) (==→eq (byte_index p i j) (byte_index p x y) same) in
                ground
                  (arith, on, at, e, z, row, col, half-with_half (is_even i) (is_even x) byte color)
            | inr other ↦ ground (arith, on, at, other)
          ]
    ]

-- A pixel that is set has the low four bits of its colour, where it is on the surface, and every other
-- pixel keeps its own, also the one in the same byte; no access leaves the storage.
pub put_pixel-Painted :
    (x y color : ℕ) (p : OwnedPixmap)
    → IsWf p
    → Returns (put_pixel x y color p) (Painted p x y color)
unfolding put_pixel
put_pixel-Painted x y color p w = elim (Bool-cases (leb p.width x || leb p.height y)) [
  | inl out ↦ rw out (
    p,
    refl,
    record { wf = w; same_width = refl; same_height = refl; pixels = λ i j. ground (arith, out) },
  )
  | inr on ↦
      let h : x < p.width = ground (arith, on) in
      let k : y < p.height = ground (arith, on) in
      let fits = byte_in p x y w h k in
      let (byte, e) = get_elem?_in p.storage (byte_index p x y) fits in
      let (s, st, len) =
        stored p.storage (byte_index p x y) (with_half (is_even x) byte color) fits in
      rw on (
        rw e (
          rw st (
            _,
            refl,
            record {
              wf = record { strided = w.strided; filled = len ∙ w.filled };
              same_width = refl;
              same_height = refl;
              pixels = λ i j. painted_pixel p x y color byte s i j w h k e st;
            },
          )))
]
