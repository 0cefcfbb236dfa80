-- ===== src/Engine/Tests/Screens.antt =====
-- graphics/geometry.hpp, graphics/eink_display.hpp and the frames of app/application.hpp on a small screen.
use kindle_myts.Base.{
  ◌≡◌, refl, arith, Bool, true, false, List, [], ◌∷◌, ◌++◌, none, ◌⊎◌, ◌↔◌, get_elem?, Returns,
}
use kindle_myts.Base.Int.{ℤ, pos, negsuc, ◌+ℤ◌, ◌-ℤ◌, ◌*ℤ◌}
use kindle_myts.Engine.Geometry.{Rect, is_empty, clip, clipped, clip_start, clip_low, clip_high}
use kindle_myts.Engine.Geometry.Clip.{Covers, clip_lem}
use kindle_myts.Engine.Display.{
  Display, full, area, bounds, mark_dirty, joined, aligned, even_floor, flush, flush_from,
  flush_region, should_escalate_to_full,
}
use kindle_myts.Engine.Display.Region.{Refreshes, mark_all, flush-Refreshes}
use kindle_myts.Engine.Display.Flashes.{
  DisplayOp, mark, flush_op, operate, calls, few_in_row, few_areas_in_row,
}
use kindle_myts.Engine.Session.{new_session}
use kindle_myts.Engine.Parser.{feed}
use kindle_myts.Engine.Session.Feed.{new_session-IsWf}
use kindle_myts.Engine.App.{render_frame}
use kindle_myts.Engine.App.Frame.{InRow, feed-Refreshes}
use kindle_myts.Engine.Tests.Sessions.{small, text, text_quiet, saturated}

abbrev box : Rect
box = record { x = negsuc 0; y = pos 1; width = pos 4; height = pos 3 }

abbrev other : Rect
other = record { x = pos 5; y = pos 6; width = pos 2; height = pos 9 }

-- two updates of an area at most
abbrev screen : Display
screen = record {
  width = pos 12;
  height = pos 8;
  dirty_region = none;
  config = record { partial_limit = 2; auto_full_refresh = true };
  partial_updates_count = 0;
}

-- an area is never too large
abbrev never : ℤ → ℤ → Bool
never part whole = false

box-Covers : Covers box (pos 2) (pos 1)
unfolding Covers ◌+ℤ◌
box-Covers = ((omega arith, omega arith), (omega arith, omega arith))

on_screen : Covers (bounds screen) (pos 2) (pos 1)
unfolding Covers ◌+ℤ◌
on_screen = ((omega arith, omega arith), (omega arith, omega arith))

clip_lem_example :
    Covers (clip box (bounds screen)) (pos 2) (pos 1)
    ↔ (Covers box (pos 2) (pos 1) × Covers (bounds screen) (pos 2) (pos 1))
clip_lem_example = clip_lem box (bounds screen) (pos 2) (pos 1)

box_clipped :
    clip box (bounds screen) ≡ record { x = pos 0; y = pos 1; width = pos 3; height = pos 3 }
unfolding clip clipped clip_start clip_low clip_high is_empty ◌+ℤ◌ ◌-ℤ◌
box_clipped = refl

flush-Refreshes_example :
    Refreshes
      (flush never (mark_all ((other ∷ []) ++ (box ∷ (other ∷ []))) screen)).0
      (pos 2)
      (pos 1)
flush-Refreshes_example =
    flush-Refreshes never (other ∷ []) box (other ∷ []) screen (pos 2) (pos 1) box-Covers on_screen

abbrev work : List DisplayOp
work = mark box ∷ flush_op ∷ flush_op ∷ mark other ∷ flush_op ∷ mark box ∷ flush_op ∷ []

few_areas_in_row_example :
    few_in_row screen.config.partial_limit screen.partial_updates_count (calls never work screen)
    ≡ true
few_areas_in_row_example = few_areas_in_row never work screen refl

-- the second update is of the whole screen
work-calls :
    calls never work screen
    ≡ area (record { x = pos 0; y = pos 1; width = pos 4; height = pos 3 })
      ∷ full
      ∷ area (record { x = pos 0; y = pos 1; width = pos 4; height = pos 3 })
      ∷ []
unfolding calls operate mark_dirty joined aligned even_floor clip clipped clip_start clip_low
    clip_high is_empty flush flush_from flush_region should_escalate_to_full ◌+ℤ◌ ◌-ℤ◌ ◌*ℤ◌
work-calls = refl

first_row : InRow 4 12 0 2 1
first_row = (omega arith, omega arith, omega arith)

-- rows of four pixels, and the cell at index 0
feed-Refreshes_example : Returns (feed saturated text small) (λ t.
    (get_elem? t.cells 0 ≡ get_elem? small.cells 0)
    ⊎ Refreshes (render_frame 4 never false t screen).0 (pos 2) (pos 1))
unfolding new_session
feed-Refreshes_example =
    feed-Refreshes 4 never false saturated text small screen 12 0 2 1
      (new_session-IsWf (pos 2) (pos 3)) text_quiet refl first_row on_screen
