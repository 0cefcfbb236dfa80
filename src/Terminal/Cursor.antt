-- ===== src/Terminal/Cursor.antt =====
-- terminal.c: the macro `B()`, which moves the cursor back into its bounds.
use kindle_myts.Base.{
  ℕ, ◌+◌, ◌-◌, ◌*◌, ◌≤◌, ◌≡◌, arith, true, ltb, if◌then◌else◌, mul_mono, line_split,
  last_line_split,
}
use kindle_myts.Terminal.{Screen, IsWf, region_start, region_end}

-- `B()` at a cursor that is not negative.
unfoldable pub bound : Screen → ℕ → ℕ
bound s c =
    if s.originmode
    then (if ltb c (region_start s)
        then region_start s
        else if ltb (region_end s) c
        then region_end s
        else c)
    else if ltb s.pagelen c
    then s.pagelen
    else c

-- `B()` at the cursor a - b, which may be negative.
unfoldable pub bound_sub : Screen → ℕ → ℕ → ℕ
unfolding bound
bound_sub s a b = if ltb a b then (if s.originmode then region_start s else 0) else bound s (a - b)

-- The lines of the scroll region, measured in cells.
pub record RegionFacts (s : Screen) : Type 0 where
  pub start_lt_end : region_start s + s.cols ≤ region_end s
  pub end_in : region_end s ≤ s.pagelen
  pub last_line : (s.scroll_bottom - 1) * s.cols + s.cols ≡ region_end s
  pub body :
      region_start s + (s.cols + (s.scroll_bottom - s.scroll_top - 1) * s.cols) ≡ region_end s

pub region_facts : {s : Screen} → IsWf s → RegionFacts s
region_facts {s} w = omega (
  arith,
  line_split s.scroll_top s.scroll_bottom s.cols w.region,
  mul_mono s.scroll_bottom s.rows s.cols w.region_in,
  last_line_split s.scroll_bottom s.cols (omega arith),
)

pub bound-le-pagelen : {s : Screen} (c : ℕ) → IsWf s → bound s c ≤ s.pagelen
unfolding bound
bound-le-pagelen c w = ground (arith, region_facts w)

pub bound_sub-le-pagelen : {s : Screen} (a b : ℕ) → IsWf s → bound_sub s a b ≤ s.pagelen
unfolding bound_sub
bound_sub-le-pagelen a b w = ground (arith, region_facts w)

-- Under origin mode the cursor is brought into the scroll region, or one past it.
pub bound-origin :
    {s : Screen} (c : ℕ)
    → IsWf s
    → s.originmode ≡ true
    → (region_start s ≤ bound s c) × (bound s c ≤ region_end s)
unfolding bound
bound-origin c w o = ground (arith, region_facts w)
