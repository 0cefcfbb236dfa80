-- ===== src/Engine/Display/Region.antt =====
-- graphics/eink_display.hpp: the waiting region has every point of the screen that was marked.
use kindle_myts.Base.{
  ◌≡◌, arith, Bool, Option, none, some, List, [], ◌∷◌, ◌++◌, inl, inr, Bool-cases,
}
use kindle_myts.Base.Int.{ℤ, pos, negsuc, ◌+ℤ◌, ◌≤ℤ◌, ◌<ℤ◌, min_ℤ, max_ℤ, int_laws}
use kindle_myts.Engine.Geometry.{Rect, is_empty, clip}
use kindle_myts.Engine.Geometry.Clip.{Covers, clip_lem, covers_none}
use kindle_myts.Engine.Display.{
  Display, Update, full, area, bounds, even_floor, aligned, around, joined, mark_dirty, flush,
  flush_from, flush_region, should_escalate_to_full,
}

even_floor_below : (n : ℤ) → even_floor n ≤ℤ n
unfolding even_floor
even_floor_below (pos n) = omega arith
even_floor_below (negsuc n) = omega arith

even_floor_above : (n : ℤ) → n <ℤ even_floor n +ℤ pos 2
unfolding even_floor
even_floor_above (pos n) = omega int_laws
even_floor_above (negsuc n) = omega int_laws

min_ℤ_left : (a b : ℤ) → min_ℤ a b ≤ℤ a
min_ℤ_left a b = ground arith

min_ℤ_right : (a b : ℤ) → min_ℤ a b ≤ℤ b
min_ℤ_right a b = ground arith

max_ℤ_left : (a b : ℤ) → a ≤ℤ max_ℤ a b
max_ℤ_left a b = ground arith

max_ℤ_right : (a b : ℤ) → b ≤ℤ max_ℤ a b
max_ℤ_right a b = ground arith

Covers-aligned : (r : Rect) (px py : ℤ) → Covers r px py → Covers (aligned r) px py
unfolding Covers aligned
Covers-aligned r px py ((a, b), (c, d)) =
    let lo = even_floor_below r.x in
    let hi = even_floor_above (r.x +ℤ r.width +ℤ pos 1) in
    ((omega int_laws, omega int_laws), (omega int_laws, omega int_laws))

pub Covers-around_left : (r s : Rect) (px py : ℤ) → Covers r px py → Covers (around r s) px py
unfolding Covers around
Covers-around_left r s px py ((a, b), (c, d)) =
    let x1 = min_ℤ_left r.x s.x in
    let y1 = min_ℤ_left r.y s.y in
    let x2 = max_ℤ_left (r.x +ℤ r.width) (s.x +ℤ s.width) in
    let y2 = max_ℤ_left (r.y +ℤ r.height) (s.y +ℤ s.height) in
    ((omega int_laws, omega int_laws), (omega int_laws, omega int_laws))

Covers-around_right : (r s : Rect) (px py : ℤ) → Covers s px py → Covers (around r s) px py
unfolding Covers around
Covers-around_right r s px py ((a, b), (c, d)) =
    let x1 = min_ℤ_right r.x s.x in
    let y1 = min_ℤ_right r.y s.y in
    let x2 = max_ℤ_right (r.x +ℤ r.width) (s.x +ℤ s.width) in
    let y2 = max_ℤ_right (r.y +ℤ r.height) (s.y +ℤ s.height) in
    ((omega int_laws, omega int_laws), (omega int_laws, omega int_laws))

-- a point that waits for a refresh
unfoldable pub Waits : Option Rect → ℤ → ℤ → Type 0
Waits none px py = ⊥
Waits (some r) px py = Covers r px py

-- a point that a call of the driver draws anew
unfoldable pub Refreshes : Option Update → ℤ → ℤ → Type 0
Refreshes none px py = ⊥
Refreshes (some full) px py = Unit
Refreshes (some (area r)) px py = Covers r px py

joined_new :
    (old : Option Rect) (r : Rect) (px py : ℤ) → Covers r px py → Covers (joined old r) px py
unfolding joined
joined_new none r px py h = h
joined_new (some s) r px py h = Covers-around_right s r px py h

joined_old :
    (old : Option Rect) (r : Rect) (px py : ℤ) → Waits old px py → Covers (joined old r) px py
unfolding joined Waits
joined_old none r px py h = absurd h
joined_old (some s) r px py h = Covers-around_left s r px py h

mark_dirty_keeps :
    (box : Rect) (d : Display) (px py : ℤ)
    → Waits d.dirty_region px py
    → Waits (mark_dirty box d).dirty_region px py
unfolding mark_dirty
mark_dirty_keeps box d px py h = elim (Bool-cases (is_empty (clip box (bounds d)))) [
  | inl void ↦ rw void h
  | inr some_left ↦
      rw some_left
        (unfold Waits in joined_old d.dirty_region (aligned (clip box (bounds d))) px py h)
]

mark_dirty-Covers :
    (box : Rect) (d : Display) (px py : ℤ)
    → Covers box px py
    → Covers (bounds d) px py
    → Waits (mark_dirty box d).dirty_region px py
unfolding mark_dirty
mark_dirty-Covers box d px py h k =
    let inside = (clip_lem box (bounds d) px py).1 (h, k) in
    elim (Bool-cases (is_empty (clip box (bounds d)))) [
      | inl void ↦ covers_none (clip box (bounds d)) px py void inside
      | inr some_left ↦ rw some_left (
          unfold Waits in
          joined_new d.dirty_region (aligned (clip box (bounds d))) px py
            (Covers-aligned (clip box (bounds d)) px py inside))
    ]

same_bounds : (box : Rect) (d : Display) → bounds (mark_dirty box d) ≡ bounds d
unfolding mark_dirty
same_bounds box d = ground arith

-- several boxes, one after another
unfoldable pub mark_all : List Rect → Display → Display
mark_all [] d = d
mark_all (box ∷ boxes) d = mark_all boxes (mark_dirty box d)

mark_all_keeps :
    (boxes : List Rect) (d : Display) (px py : ℤ)
    → Waits d.dirty_region px py
    → Waits (mark_all boxes d).dirty_region px py
unfolding mark_all
mark_all_keeps [] d px py h = h
mark_all_keeps (box ∷ boxes) d px py h =
    mark_all_keeps boxes (mark_dirty box d) px py (mark_dirty_keeps box d px py h)

mark_all-Covers :
    (front : List Rect) (box : Rect) (rest : List Rect) (d : Display) (px py : ℤ)
    → Covers box px py
    → Covers (bounds d) px py
    → Waits (mark_all (front ++ (box ∷ rest)) d).dirty_region px py
unfolding mark_all
mark_all-Covers [] box rest d px py h k =
    mark_all_keeps rest (mark_dirty box d) px py (mark_dirty-Covers box d px py h k)
mark_all-Covers (f ∷ front) box rest d px py h k =
    mark_all-Covers front box rest (mark_dirty f d) px py h (rw (same_bounds f d) k)

module _ (reaches : ℤ → ℤ → Bool) where
  flush_from-Refreshes :
      (region : Option Rect) (d : Display) (px py : ℤ)
      → Waits region px py
      → Refreshes (flush_from reaches region d).0 px py
  unfolding flush_from flush_region Waits Refreshes
  flush_from-Refreshes none d px py h = absurd h
  flush_from-Refreshes (some r) d px py h =
      elim (Bool-cases (should_escalate_to_full reaches r d)) [
        | inl all ↦ rw all tt
        | inr part ↦ rw part h
      ]

  -- No change is left out: whatever boxes are marked dirty, in whatever order and over one another, the
  -- next `flush` draws every point of the screen anew that lies in one of them, by an area update around
  -- it or by an update of the whole screen.
  pub flush-Refreshes :
      (front : List Rect) (box : Rect) (rest : List Rect) (d : Display) (px py : ℤ)
      → Covers box px py
      → Covers (bounds d) px py
      → Refreshes (flush reaches (mark_all (front ++ (box ∷ rest)) d)).0 px py
  unfolding flush
  flush-Refreshes front box rest d px py h k =
      flush_from-Refreshes _ (mark_all (front ++ (box ∷ rest)) d) px py
        (mark_all-Covers front box rest d px py h k)
