-- ===== src/Engine/Run/Closing.antt =====
-- app/application.hpp: the help is shown while the shell writes, and is closed.
use kindle_myts.Base.{
  ℕ, ◌≡◌, refl, ◌∙◌, ap, arith, append_nil, Bool, true, false, List, [], ◌∷◌, ◌++◌, some, ◌==◌, inl,
  inr, Bool-cases, Returns,
}
use kindle_myts.Base.Int.{ℤ}
use kindle_myts.Engine.Geometry.{Rect}
use kindle_myts.Engine.Display.{full, refresh_full}
use kindle_myts.Engine.Help.{
  HelpScreen, before_terminal_write, handle_active_key, is_exit_key, exit,
}
use kindle_myts.Engine.Input.{InputEvent, ModifierState, process_event}
use kindle_myts.Engine.Session.Invariant.{IsWf}
use kindle_myts.Engine.Session.Feed.{feed-IsWf}
use kindle_myts.Engine.App.{
  Inputs, terminal_restored, handle_input_event, follow_route, restore_terminal_display, is_nil,
}
use kindle_myts.Engine.App.Shown.{closes_help}
use kindle_myts.Engine.Run.{
  Application, Done, Event, output, key, perform, perform_all, frame_unless_help, on_output, on_key,
  handle_event, handle_events,
}

-- what the shell writes, piece by piece
unfoldable pub outputs : List (List ℕ) → List Event
outputs [] = []
outputs (bytes ∷ rest) = output bytes ∷ outputs rest

-- The help takes such a key and is shown no more.
closing_route :
    (ev : InputEvent) (mods : ModifierState) (seq : List ℕ) (screen : HelpScreen)
    → screen.active ≡ true
    → (ev.type == 1) ≡ true
    → (ev.value == 0) ≡ false
    → is_exit_key ev mods seq ≡ true
    → before_terminal_write ev mods seq screen ≡ (exit, record screen { active = false })
unfolding before_terminal_write handle_active_key
closing_route ev mods seq screen h t v e = ground (arith, h, t, v, e)

closing_parts :
    (ev : InputEvent) (a : Inputs)
    → closes_help ev a ≡ true
    → ((ev.type == 1) ≡ true)
      × ((ev.value == 0) ≡ false)
      × (is_exit_key ev (process_event ev a.mods).1 (process_event ev a.mods).0 ≡ true)
unfolding closes_help
closing_parts ev a h = (ground (arith, h), ground (arith, h), ground (arith, h))

closing_event :
    (ev : InputEvent) (a : Inputs)
    → a.screen.active ≡ true
    → closes_help ev a ≡ true
    → handle_input_event ev a
      ≡ some (
        [],
        terminal_restored ∷ [],
        record a {
          mods = (process_event ev a.mods).1;
          screen = record a.screen { active = false };
        },
      )
unfolding handle_input_event follow_route
closing_event ev a shown closes =
    let (t, v, e) = closing_parts ev a closes in
    let route =
      closing_route ev (process_event ev a.mods).1 (process_event ev a.mods).0 a.screen shown t v
        e in
    rw route refl

module _ (too_large : ℕ → ℤ) (glyph_height : ℕ) (reaches : ℤ → ℤ → Bool) (overlay : Bool)
    (help_rect : Bool → HelpScreen → Rect) where
  -- The closing key has one call of the driver, for the whole screen.
  abbrev Closes : Done → Type 0
  Closes out = (out.0 ≡ some full ∷ []) × (out.1.inputs.screen.active ≡ false)

  key-Closes :
      (ev : InputEvent) (a : Application)
      → a.inputs.screen.active ≡ true
      → closes_help ev a.inputs ≡ true
      → Returns (on_key too_large glyph_height reaches overlay help_rect ev a) Closes
  unfolding on_key perform_all perform restore_terminal_display refresh_full
  key-Closes ev a shown closes = rw (closing_event ev a.inputs shown closes) (_, refl, (refl, refl))

  no_frame :
      (a : Application)
      → a.inputs.screen.active ≡ true
      → frame_unless_help too_large glyph_height reaches overlay help_rect a ≡ ([], a)
  unfolding frame_unless_help
  no_frame a shown = ground (arith, shown)

  -- While the help is shown the callback of the shell calls no driver.
  output_hidden :
      (bytes : List ℕ) (a : Application)
      → IsWf a.session
      → a.inputs.screen.active ≡ true
      → Returns
          (on_output too_large glyph_height reaches overlay help_rect bytes a)
          (λ out. (out.0 ≡ []) × (out.1.inputs ≡ a.inputs) × IsWf out.1.session)
  unfolding on_output
  output_hidden bytes a w shown = elim (Bool-cases (is_nil bytes)) [
    | inl end ↦ rw end (_, refl, (refl, refl, w))
    | inr more ↦
        let (s, e, v) = feed-IsWf too_large bytes a.session w in
        rw (more, e, no_frame (record a { session = s }) shown) (_, refl, (refl, refl, v))
  ]

  -- Whatever the shell writes while the help is shown, the driver is not called until the help is
  -- closed; then there is one call, for the whole screen, and the help is shown no more.
  pub help_closes :
      (pieces : List (List ℕ)) (ev : InputEvent) (a : Application)
      → IsWf a.session
      → a.inputs.screen.active ≡ true
      → closes_help ev a.inputs ≡ true
      → Returns
          (handle_events too_large glyph_height reaches overlay help_rect
            (outputs pieces ++ (key ev ∷ []))
            a)
          (λ out. (out.0 ≡ some full ∷ []) × (out.1.inputs.screen.active ≡ false))
  unfolding handle_events handle_event outputs
  help_closes [] ev a w shown closes =
      let (out, e, (c, n)) = key-Closes ev a shown closes in
      rw e (_, refl, (append_nil out.0 ∙ c, n))
  help_closes (bytes ∷ rest) ev a w shown closes =
      let (out, e, (c, i, v)) = output_hidden bytes a w shown in
      let (last, e', (c', n)) =
        help_closes rest ev out.1 v (ap (λ (x : Inputs). x.screen.active) i ∙ shown)
          (ap (λ (x : Inputs). closes_help ev x) i ∙ closes) in
      rw e (rw e' (_, refl, (ap (λ us. us ++ last.0) c ∙ c', n)))
