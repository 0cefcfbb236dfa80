-- ===== src/Engine/Display.antt =====
-- graphics/eink_display.hpp: the region that waits for a refresh, and when a refresh is of the whole
-- screen. The driver's answers and the comparison of the shares of `float` type are parameters.
pub mod Region
pub mod Flashes
use kindle_myts.Base.{
  ℕ, ◌+◌, ◌*◌, ◌/◌, Bool, true, false, ◌||◌, ◌&&◌, Option, none, some, List, [], ◌∷◌, ◌++◌, leb,
  if◌then◌else◌,
}
use kindle_myts.Base.Int.{ℤ, pos, negsuc, ◌+ℤ◌, ◌-ℤ◌, ◌*ℤ◌, lez, min_ℤ, max_ℤ}
use kindle_myts.Engine.Geometry.{Rect, is_empty, clip}

-- `RefreshConfig`; the threshold is part of the parameter `reaches` below
pub record RefreshConfig : Type 0 where
  pub partial_limit : ℕ
  pub auto_full_refresh : Bool

-- `EinkDisplay`
pub record Display : Type 0 where
  pub width : ℤ
  pub height : ℤ
  pub dirty_region : Option Rect
  pub config : RefreshConfig
  pub partial_updates_count : ℕ

-- a call of the driver
pub data Update : Type 0 where
  full : Update
  area : Rect → Update

abbrev pub bounds : Display → Rect
bounds d = record { x = pos 0; y = pos 0; width = d.width; height = d.height }

unfoldable pub new_display : ℤ → ℤ → Display
new_display width height = record {
  width = width;
  height = height;
  dirty_region = none;
  config = record { partial_limit = 40; auto_full_refresh = true };
  partial_updates_count = 0;
}

unfoldable pub set_refresh_config : RefreshConfig → Display → Display
set_refresh_config cfg d = record d { config = cfg }

-- `n & ~1`
unfoldable pub even_floor : ℤ → ℤ
even_floor (pos n) = pos (n / 2 * 2)
even_floor (negsuc n) = negsuc (n / 2 * 2 + 1)

-- the rectangle from one point to another
abbrev pub spanned : ℤ → ℤ → ℤ → ℤ → Rect
spanned x1 y1 x2 y2 = record { x = x1; y = y1; width = x2 -ℤ x1; height = y2 -ℤ y1 }

unfoldable pub aligned : Rect → Rect
unfolding even_floor
aligned r = spanned (even_floor r.x) r.y (even_floor (r.x +ℤ r.width +ℤ pos 1)) (r.y +ℤ r.height)

-- the smallest rectangle around two
unfoldable pub around : Rect → Rect → Rect
around a b =
    spanned (min_ℤ a.x b.x) (min_ℤ a.y b.y) (max_ℤ (a.x +ℤ a.width) (b.x +ℤ b.width))
      (max_ℤ (a.y +ℤ a.height) (b.y +ℤ b.height))

unfoldable pub joined : Option Rect → Rect → Rect
unfolding around
joined none box = box
joined (some r) box = around r box

unfoldable pub mark_dirty : Rect → Display → Display
unfolding joined aligned
mark_dirty box d =
    let c = clip box (bounds d) in
    if is_empty c then d else record d { dirty_region = some (joined d.dirty_region (aligned c)) }

module _ (reaches : ℤ → ℤ → Bool) where
  unfoldable pub should_escalate_to_full : Rect → Display → Bool
  should_escalate_to_full r d =
      if d.config.auto_full_refresh
      then if leb d.config.partial_limit (d.partial_updates_count + 1)
        then true
        else if lez (d.width *ℤ d.height) (pos 0)
        then false
        else reaches (r.width *ℤ r.height) (d.width *ℤ d.height)
      else false

  -- `flush` with a region that waits
  unfoldable pub flush_region : Rect → Display → Update × Display
  unfolding should_escalate_to_full
  flush_region r d =
      if should_escalate_to_full r d
      then (full, record d { dirty_region = none; partial_updates_count = 0 })
      else (
        area r,
        record d { dirty_region = none; partial_updates_count = d.partial_updates_count + 1 },
      )

  -- the call of the driver, whose answer is the answer of `flush`, or none, for which that is true
  unfoldable pub flush_from : Option Rect → Display → Option Update × Display
  unfolding flush_region
  flush_from none d = (none, d)
  flush_from (some r) d = let (u, e) = flush_region r d in (some u, e)

  unfoldable pub flush : Display → Option Update × Display
  unfolding flush_from
  flush d = flush_from d.dirty_region d

unfoldable pub refresh_full : Display → Option Update × Display
refresh_full d = (some full, record d { dirty_region = none; partial_updates_count = 0 })
