-- ===== src/Engine/App/Modal.antt =====
-- app/application.hpp: which events reach the shell.
use kindle_myts.Base.{
  ℕ, ◌≡◌, refl, ◌∙◌, arith, Bool, true, false, ◌&&◌, ◌||◌, not, List, [], ◌∷◌, ◌++◌, Option, none,
  some, ◌==◌, if◌then◌else◌, Returns, if_cases, append_nil, ap,
}
use mathlib.Core.Path.{subst}
use kindle_myts.Engine.Help.{
  HelpPage, HelpRoute, pass, consume, open_after_write, redraw_full, redraw_delta, exit, HelpScreen,
  Tracker, before_terminal_write, after_terminal_write, handle_inactive_event, handle_active_key,
  handle_navigation_key, code_h, show_page, record_key,
}
use kindle_myts.Engine.Help.Safety.{IsReady, track-IsReady}
use kindle_myts.Engine.Input.{InputEvent, ModifierState, process_event, is_menu_key}
use kindle_myts.Engine.App.{
  Effect, help_full, help_delta, terminal_restored, written, Inputs, drawn_after, to_shell,
  follow_route, handle_input_event,
}

-- the bytes that are written to the shell
unfoldable pub written_bytes : List Effect → List ℕ
written_bytes [] = []
written_bytes (help_full ∷ es) = written_bytes es
written_bytes (help_delta ∷ es) = written_bytes es
written_bytes (terminal_restored ∷ es) = written_bytes es
written_bytes (written bytes ∷ es) = bytes ++ written_bytes es

-- The press of a key that opens the help by itself.
unfoldable pub is_help_key : InputEvent → ModifierState → Bool
is_help_key ev mods =
    (ev.type == 1 && ev.value == 1) && (is_menu_key ev.code || (mods.shift && ev.code == code_h))

-- what an event should write
unfoldable pub due_bytes : InputEvent → Inputs → List ℕ
unfolding is_help_key
due_bytes ev a =
    let (seq, mods) = process_event ev a.mods in
    if a.screen.active || (is_help_key ev mods || not a.has_pty) then [] else seq

written_after : (route : HelpRoute) → written_bytes (drawn_after route) ≡ []
unfolding written_bytes
written_after pass = refl
written_after consume = refl
written_after open_after_write = refl
written_after redraw_full = refl
written_after redraw_delta = refl
written_after exit = refl

-- the routes on which an event goes no further
abbrev pub takes : HelpRoute → Bool
takes pass = false
takes consume = true
takes open_after_write = false
takes redraw_full = true
takes redraw_delta = true
takes exit = true

page_takes : (page : Option HelpPage) (s t : HelpScreen) → takes (show_page page s t).0 ≡ true
unfolding show_page
page_takes none s t = refl
page_takes (some p) s t = refl

active_takes :
    (ev : InputEvent) (mods : ModifierState) (seq : List ℕ) (screen : HelpScreen)
    → takes (handle_active_key ev mods seq screen).0 ≡ true
unfolding handle_active_key
active_takes ev mods seq screen =
    let page =
      page_takes (handle_navigation_key ev seq screen.page) screen
        (record_key ev mods seq screen) in
    ground (arith, page)

-- While the help is shown it takes every event.
shown_takes :
    (ev : InputEvent) (mods : ModifierState) (seq : List ℕ) (screen : HelpScreen)
    → screen.active ≡ true
    → takes (before_terminal_write ev mods seq screen).0 ≡ true
unfolding before_terminal_write
shown_takes ev mods seq screen shown =
    let key = active_takes ev mods seq screen in ground (arith, key)

-- Otherwise it takes those that open it.
hidden_takes :
    (ev : InputEvent) (mods : ModifierState) (seq : List ℕ) (screen : HelpScreen)
    → screen.active ≡ false
    → takes (before_terminal_write ev mods seq screen).0 ≡ is_help_key ev mods
unfolding before_terminal_write handle_inactive_event is_help_key
hidden_takes ev mods seq screen hidden = ground arith

-- What is written, and an observer that stays inside its buffer.
pub record Writes (bytes : List ℕ) (out : List ℕ × List Effect × Inputs) : Type 0 where
  pub bytes_out : written_bytes out.1 ≡ bytes
  pub tracker_ready : IsReady out.2.tracker

taken-Writes :
    (route : HelpRoute) (seq : List ℕ) (a : Inputs)
    → IsReady a.tracker
    → takes route ≡ true
    → Returns (follow_route route seq a) (Writes [])
unfolding follow_route written_bytes
taken-Writes pass seq a r h = cc
taken-Writes open_after_write seq a r h = cc
taken-Writes consume seq a r h = (_, refl, record { bytes_out = refl; tracker_ready = r })
taken-Writes redraw_full seq a r h = (_, refl, record { bytes_out = refl; tracker_ready = r })
taken-Writes redraw_delta seq a r h = (_, refl, record { bytes_out = refl; tracker_ready = r })
taken-Writes exit seq a r h = (_, refl, record { bytes_out = refl; tracker_ready = r })

sent_bytes :
    (pty : Bool) (seq : List ℕ) (route : HelpRoute)
    → written_bytes (if pty then written seq ∷ drawn_after route else drawn_after route)
      ≡ (if pty then seq else [])
unfolding written_bytes
sent_bytes true seq route = ap (◌++◌ seq) (written_after route) ∙ append_nil seq
sent_bytes false seq route = written_after route

to_shell-Writes :
    (seq : List ℕ) (a : Inputs)
    → IsReady a.tracker
    → Returns (to_shell seq a) (Writes (if a.has_pty then seq else []))
unfolding to_shell after_terminal_write written_bytes
to_shell-Writes [] a r = (_, refl, record { bytes_out = ground arith; tracker_ready = r })
to_shell-Writes (c ∷ cs) a r =
    let (out, e, s) = track-IsReady (c ∷ cs) a.tracker r in
    rw e (
      _,
      refl,
      record {
        bytes_out = sent_bytes a.has_pty (c ∷ cs) _;
        tracker_ready =
            if_cases (λ (p : HelpRoute × HelpScreen × Tracker). IsReady p.2) out.0 _ _ (λ _. s)
              (λ _. s);
      },
    )

passed-Writes :
    (route : HelpRoute) (seq : List ℕ) (a : Inputs)
    → IsReady a.tracker
    → takes route ≡ false
    → Returns (follow_route route seq a) (Writes (if a.has_pty then seq else []))
unfolding follow_route
passed-Writes pass seq a r h = to_shell-Writes seq a r
passed-Writes open_after_write seq a r h = to_shell-Writes seq a r
passed-Writes consume seq a r h = cc
passed-Writes redraw_full seq a r h = cc
passed-Writes redraw_delta seq a r h = cc
passed-Writes exit seq a r h = cc

-- the bytes due, by what the help does with the event
due_if :
    (shown opens pty : Bool) (seq : List ℕ)
    → (if shown || opens then [] else if pty then seq else [])
      ≡ (if shown || (opens || not pty) then [] else seq)
due_if shown opens pty seq = ground arith

routed-Writes :
    (shown opens : Bool) (route : HelpRoute) (seq : List ℕ) (a : Inputs)
    → IsReady a.tracker
    → takes route ≡ (shown || opens)
    → Returns
        (follow_route route seq a)
        (Writes (if shown || opens then [] else if a.has_pty then seq else []))
routed-Writes true opens route seq a r h = taken-Writes route seq a r h
routed-Writes false true route seq a r h = taken-Writes route seq a r h
routed-Writes false false route seq a r h = passed-Writes route seq a r h

pub help_takes :
    (ev : InputEvent) (mods : ModifierState) (seq : List ℕ) (screen : HelpScreen)
    → takes (before_terminal_write ev mods seq screen).0 ≡ (screen.active || is_help_key ev mods)
help_takes ev mods seq screen =
    let shown = shown_takes ev mods seq screen in
    let hidden = hidden_takes ev mods seq screen in ground (arith, shown, hidden)

pub handle_input_event-Writes :
    (ev : InputEvent) (a : Inputs)
    → IsReady a.tracker
    → Returns (handle_input_event ev a) (Writes (due_bytes ev a))
unfolding handle_input_event due_bytes
handle_input_event-Writes ev a r =
    let seq = (process_event ev a.mods).0 in
    let mods = (process_event ev a.mods).1 in
    let out = before_terminal_write ev mods seq a.screen in
    subst (λ bytes. Returns (handle_input_event ev a) (Writes bytes))
      (due_if a.screen.active (is_help_key ev mods) a.has_pty seq)
      (routed-Writes a.screen.active (is_help_key ev mods) out.0 seq
        (record a { mods = mods; screen = out.1 }) r (help_takes ev mods seq a.screen))
