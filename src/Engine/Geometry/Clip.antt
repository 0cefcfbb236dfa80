-- ===== src/Engine/Geometry/Clip.antt =====
-- graphics/geometry.hpp: `Rect::clip` is the intersection of two rectangles.
use kindle_myts.Base.{◌≡◌, refl, arith, true, ◌||◌, ◌↔◌, inl, inr, Bool-cases}
use kindle_myts.Base.Int.{ℤ, pos, ◌+ℤ◌, ◌-ℤ◌, ◌≤ℤ◌, ◌<ℤ◌, ltz, lez, ltz→lt, ltz_false→le, int_laws}
use kindle_myts.Engine.Geometry.{
  Rect, no_rect, is_empty, clip_start, clip_low, clip_high, clipped, clip,
}

-- a coordinate on an edge of a length
abbrev pub Between : ℤ → ℤ → ℤ → Type 0
Between x size p = (x ≤ℤ p) × (p <ℤ (x +ℤ size))

-- a point of a rectangle
unfoldable pub Covers : Rect → ℤ → ℤ → Type 0
Covers r px py = Between r.x r.width px × Between r.y r.height py

clip_high_axis :
    (start size low extent p : ℤ)
    → low ≤ℤ start
    → Between start (clip_high start size (low +ℤ extent)) p
      ↔ (Between start size p × Between low extent p)
unfolding clip_high
clip_high_axis start size low extent p h = elim (Bool-cases (ltz (low +ℤ extent) (start +ℤ size))) [
  | inl beyond ↦
      let b = ltz→lt (low +ℤ extent) (start +ℤ size) beyond in
      rw beyond (
        (λ (a, c). ((omega int_laws, omega int_laws), (omega int_laws, omega int_laws))),
        (λ ((a, c), (d, e)). (omega int_laws, omega int_laws)),
      )
  | inr inside ↦
      let b = ltz_false→le (low +ℤ extent) (start +ℤ size) inside in
      rw inside (
        (λ (a, c). ((omega int_laws, omega int_laws), (omega int_laws, omega int_laws))),
        (λ ((a, c), (d, e)). (omega int_laws, omega int_laws)),
      )
]

clip_axis :
    (x size low extent p : ℤ)
    → Between
        (clip_start x low)
        (clip_high (clip_start x low) (clip_low x size low) (low +ℤ extent))
        p
      ↔ (Between x size p × Between low extent p)
unfolding clip_start clip_low
clip_axis x size low extent p = elim (Bool-cases (ltz x low)) [
  | inl below ↦
      let b = ltz→lt x low below in
      let (to, from) = clip_high_axis low (size -ℤ (low -ℤ x)) low extent p (omega arith) in
      rw below (
        (λ h. let ((a, c), (d, e)) = to h in ((omega int_laws, omega int_laws), (d, e))),
        (λ ((a, c), (d, e)). from ((omega int_laws, omega int_laws), (d, e))),
      )
  | inr fine ↦ rw fine (clip_high_axis x size low extent p (ltz_false→le x low fine))
]

lez→le : (a b : ℤ) → lez a b ≡ true → a ≤ℤ b
lez→le a b h = ground arith

-- an empty rectangle has no point
pub covers_none : (r : Rect) (px py : ℤ) {A : Type 0} → is_empty r ≡ true → Covers r px py → A
unfolding is_empty Covers
covers_none r px py h ((a, b), (c, d)) = elim (Bool-cases (lez r.width (pos 0))) [
  | inl w ↦ let e = lez→le r.width (pos 0) w in absurd (omega int_laws)
  | inr w ↦ let e = lez→le r.height (pos 0) (rw w at h) in absurd (omega int_laws)
]

clipped_lem :
    (r bounds : Rect) (px py : ℤ)
    → Covers (clipped r bounds) px py ↔ (Covers r px py × Covers bounds px py)
unfolding clipped Covers
clipped_lem r bounds px py =
    let (to, from) = clip_axis r.x r.width bounds.x bounds.width px in
    let (to', from') = clip_axis r.y r.height bounds.y bounds.height py in
    (
      (λ (h, k). let (a, b) = to h in let (c, d) = to' k in ((a, c), (b, d))),
      (λ ((a, c), (b, d)). (from (a, b), from' (c, d))),
    )

-- `clip` is the intersection: a point lies in the clipped rectangle exactly when it lies in both, for
-- all places and sizes, also where one is empty or they do not meet.
pub clip_lem :
    (r bounds : Rect) (px py : ℤ)
    → Covers (clip r bounds) px py ↔ (Covers r px py × Covers bounds px py)
unfolding clip
clip_lem r bounds px py = elim (Bool-cases (is_empty r || is_empty bounds)) [
  | inl void ↦ rw void (
    (λ h. covers_none no_rect px py refl h),
    (λ (h, k). elim (Bool-cases (is_empty r)) [
      | inl e ↦ covers_none r px py e h
      | inr e ↦ covers_none bounds px py (rw e at void) k
    ]),
  )
  | inr full ↦ elim (Bool-cases (is_empty (clipped r bounds))) [
    | inl void ↦ rw full (
        rw void (
          (λ h. covers_none no_rect px py refl h),
          (λ hk. covers_none (clipped r bounds) px py void ((clipped_lem r bounds px py).1 hk)),
        ))
    | inr some_left ↦ rw full (rw some_left (clipped_lem r bounds px py))
  ]
]
