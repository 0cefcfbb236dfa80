-- ===== src/Engine/Run.antt =====
-- app/application.hpp: what `run` does when a shell has written and when a key event comes. Which region the
-- help has drawn is a parameter.
pub mod Safe
pub mod Closing
use kindle_myts.Base.{
  ℕ, Bool, true, false, List, [], ◌∷◌, ◌++◌, Option, none, some, ◌>>=◌, if◌then◌else◌,
}
use kindle_myts.Base.Int.{ℤ}
use kindle_myts.Engine.Geometry.{Rect}
use kindle_myts.Engine.Display.{Display, Update, mark_dirty, flush}
use kindle_myts.Engine.Help.{HelpScreen}
use kindle_myts.Engine.Input.{InputEvent}
use kindle_myts.Engine.Session.{Session}
use kindle_myts.Engine.Parser.{feed}
use kindle_myts.Engine.App.{
  Effect, help_full, help_delta, terminal_restored, written, Inputs, is_nil, handle_input_event,
  render_frame, restore_terminal_display,
}

-- `Application`, and whether its loop runs
pub record Application : Type 0 where
  pub session : Session
  pub display : Display
  pub inputs : Inputs
  pub running : Bool

-- what `select` reports: what `read` gave of the shell, none of it at its end, or a key event
pub data Event : Type 0 where
  output : List ℕ → Event
  key : InputEvent → Event

-- the calls of the driver, and the state behind them
abbrev pub Done : Type 0
Done = List (Option Update) × Application

module _ (too_large : ℕ → ℤ) (glyph_height : ℕ) (reaches : ℤ → ℤ → Bool) (overlay : Bool)
    (help_rect : Bool → HelpScreen → Rect) where
  unfoldable pub render_help : Bool → Application → Done
  render_help is_full a =
      let (u, d) = flush reaches (mark_dirty (help_rect is_full a.inputs.screen) a.display) in
      (u ∷ [], record a { display = d })

  unfoldable pub perform : Effect → Application → Done
  unfolding render_help
  perform help_full a = render_help true a
  perform help_delta a = render_help false a
  perform terminal_restored a =
      let (u, s, d) = restore_terminal_display a.session a.display in
      (u ∷ [], record a { session = s; display = d })
  perform (written bytes) a = ([], a)

  unfoldable pub perform_all : List Effect → Application → Done
  unfolding perform
  perform_all [] a = ([], a)
  perform_all (e ∷ es) a =
      let (us, b) = perform e a in let (vs, c) = perform_all es b in (us ++ vs, c)

  -- a frame, unless the help is shown
  unfoldable pub frame_unless_help : Application → Done
  frame_unless_help a =
      if a.inputs.screen.active
      then ([], a)
      else (let (u, s, d) = render_frame glyph_height reaches overlay a.session a.display in
          (u ∷ [], record a { session = s; display = d }))

  -- the callback of the shell
  unfoldable pub on_output : List ℕ → Application → Option Done
  unfolding frame_unless_help
  on_output bytes a =
      if is_nil bytes
      then some ([], record a { running = false })
      else (feed too_large bytes a.session >>= λ s.
          some (frame_unless_help (record a { session = s })))

  -- the callback of a keyboard, for one event
  unfoldable pub on_key : InputEvent → Application → Option Done
  unfolding perform_all
  on_key ev a = do
    out ← handle_input_event ev a.inputs
    some (perform_all out.1 (record a { inputs = out.2 }))

  unfoldable pub handle_event : Event → Application → Option Done
  unfolding on_output on_key
  handle_event (output bytes) a = on_output bytes a
  handle_event (key ev) a = on_key ev a

  -- the callbacks of any events, in their order
  unfoldable pub handle_events : List Event → Application → Option Done
  unfolding handle_event
  handle_events [] a = some ([], a)
  handle_events (e ∷ es) a = do
    first ← handle_event e a
    rest ← handle_events es first.1
    some (first.0 ++ rest.0, rest.1)
