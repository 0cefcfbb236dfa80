-- ===== src/Engine/App.antt =====
-- app/application.hpp: an input event on its way to the help or to the shell, and a frame on its way from
-- the dirty rows to the driver. The drawing on the canvas is left out; `write` takes what it is given.
pub mod Modal
pub mod Shown
pub mod Frame
use kindle_myts.Base.{
  ℕ, zero, suc, ◌+◌, ◌-◌, ◌*◌, ◌/◌, Bool, true, false, List, [], ◌∷◌, Option, none, some, ◌&&◌,
  ◌>>=◌, ltb, if◌then◌else◌,
}
use kindle_myts.Base.Int.{ℤ, pos, ◌+ℤ◌, ◌-ℤ◌}
use kindle_myts.Engine.Geometry.{Rect, no_rect, is_empty}
use kindle_myts.Engine.Display.{Display, Update, around, mark_dirty, flush, refresh_full}
use kindle_myts.Engine.Help.{
  HelpRoute, pass, consume, open_after_write, redraw_full, redraw_delta, exit, HelpScreen, Tracker,
  before_terminal_write, after_terminal_write,
}
use kindle_myts.Engine.Input.{InputEvent, ModifierState, process_event}
use kindle_myts.Engine.Session.{Session, take_dirty_rows, mark_all_dirty}

-- what the program draws and where, and what it writes to the shell
pub data Effect : Type 0 where
  help_full help_delta terminal_restored : Effect
  written : List ℕ → Effect

-- the input of `Application`: its `InputManager` and its `HelpController`, and whether there is a shell
pub record Inputs : Type 0 where
  pub mods : ModifierState
  pub screen : HelpScreen
  pub tracker : Tracker
  pub has_pty : Bool

abbrev pub is_nil : List ℕ → Bool
is_nil [] = true
is_nil (c ∷ cs) = false

-- what is drawn after a sequence was written
abbrev pub drawn_after : HelpRoute → List Effect
drawn_after redraw_full = help_full ∷ []
drawn_after pass = []
drawn_after consume = []
drawn_after open_after_write = []
drawn_after redraw_delta = []
drawn_after exit = []

-- an event that the help lets through
unfoldable pub to_shell : List ℕ → Inputs → Option (List ℕ × List Effect × Inputs)
unfolding after_terminal_write
to_shell seq a =
    if is_nil seq
    then some (seq, [], a)
    else (after_terminal_write seq a.screen a.tracker >>= λ (route, screen, tracker). some (
      seq,
      if a.has_pty then written seq ∷ drawn_after route else drawn_after route,
      record a { screen = screen; tracker = tracker },
    ))

unfoldable pub follow_route : HelpRoute → List ℕ → Inputs → Option (List ℕ × List Effect × Inputs)
unfolding to_shell
follow_route exit seq a = some ([], terminal_restored ∷ [], a)
follow_route redraw_full seq a = some ([], help_full ∷ [], a)
follow_route redraw_delta seq a = some ([], help_delta ∷ [], a)
follow_route consume seq a = some ([], [], a)
follow_route pass seq a = to_shell seq a
follow_route open_after_write seq a = to_shell seq a

-- the bytes of the event, what is drawn and written for it, and the state behind it
unfoldable pub handle_input_event : InputEvent → Inputs → Option (List ℕ × List Effect × Inputs)
unfolding process_event before_terminal_write follow_route
handle_input_event ev a =
    let (seq, mods) = process_event ev a.mods in
    let (route, screen) = before_terminal_write ev mods seq a.screen in
    follow_route route seq (record a { mods = mods; screen = screen })

-- `first` and `last` of `compute_dirty_rect`, where they are not -1, from row `r` on
unfoldable pub dirty_span : ℕ → Option (ℕ × ℕ) → List Bool → Option (ℕ × ℕ)
dirty_span r span [] = span
dirty_span r span (false ∷ rows) = dirty_span (r + 1) span rows
dirty_span r none (true ∷ rows) = dirty_span (r + 1) (some (r, r)) rows
dirty_span r (some (first, last)) (true ∷ rows) = dirty_span (r + 1) (some (first, r)) rows

module _ (glyph_height : ℕ) where
  abbrev pub span_rect : ℤ → Option (ℕ × ℕ) → Rect
  span_rect width none = no_rect
  span_rect width (some (first, last)) = record {
    x = pos 0;
    y = pos (first * glyph_height);
    width = width;
    height = pos ((last - first + 1) * glyph_height);
  }

  unfoldable pub compute_dirty_rect : ℤ → List Bool → Rect
  unfolding dirty_span
  compute_dirty_rect width rows = span_rect width (dirty_span 0 none rows)

  -- the region with that of the overlay, which is two lines at the top
  unfoldable pub with_overlay : Bool → ℤ → Rect → Rect
  unfolding around
  with_overlay overlay width r =
      if overlay
      then around r
          (record { x = pos 0; y = pos 0; width = width; height = pos (glyph_height * 2) })
      else r

  module _ (reaches : ℤ → ℤ → Bool) (overlay : Bool) where
    unfoldable pub render_frame : Session → Display → Option Update × Session × Display
    unfolding take_dirty_rows
    render_frame s d =
        let (rows, s') = take_dirty_rows s in
        let dirty = compute_dirty_rect d.width rows in
        if is_empty dirty
        then (none, s', d)
        else (let (u, e) = flush reaches (mark_dirty (with_overlay overlay d.width dirty) d) in
            (u, s', e))

-- `restore_terminal_display`
unfoldable pub restore_terminal_display : Session → Display → Option Update × Session × Display
restore_terminal_display s d = let (u, e) = refresh_full d in (u, mark_all_dirty s, e)

-- `resolve_rows` and `resolve_cols`
unfoldable pub resolve : ℕ → ℕ → ℕ → ℕ → ℕ
resolve requested screen glyph default_size =
    if ltb 0 requested
    then requested
    else if ltb 0 screen && ltb 0 glyph
    then screen / glyph
    else default_size
