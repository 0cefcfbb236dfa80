-- ===== src/Engine/App/Shown.antt =====
-- app/application.hpp: whether the help is shown behind an event.
use kindle_myts.Base.{
  ℕ, ◌≡◌, refl, ◌∙◌, arith, Bool, true, false, ◌&&◌, ◌||◌, not, List, [], ◌∷◌, Option, none, some,
  ◌>>=◌, ◌==◌, if◌then◌else◌, Returns,
}
use mathlib.Core.Path.{subst}
use kindle_myts.Engine.Help.{
  HelpPage, HelpRoute, pass, consume, open_after_write, redraw_full, redraw_delta, exit, HelpScreen,
  opened, Tracker, track, before_terminal_write, after_terminal_write, handle_inactive_event,
  handle_active_key, handle_navigation_key, is_exit_key, show_page, record_key,
}
use kindle_myts.Engine.Help.Safety.{IsReady}
use kindle_myts.Engine.Input.{InputEvent, ModifierState, process_event}
use kindle_myts.Engine.App.{
  Effect, help_full, help_delta, terminal_restored, written, drawn_after, Inputs, to_shell,
  follow_route, handle_input_event,
}
use kindle_myts.Engine.App.Modal.{
  is_help_key, due_bytes, written_bytes, takes, help_takes, handle_input_event-Writes,
}

-- The press, or the repeat, of a key that closes the help.
unfoldable pub closes_help : InputEvent → Inputs → Bool
closes_help ev a =
    if ev.type == 1
    then if ev.value == 0
      then false
      else is_exit_key ev (process_event ev a.mods).1 (process_event ev a.mods).0
    else false

-- what the observer has seen
abbrev seen_in : Option (Bool × Tracker) → Bool
seen_in none = false
seen_in (some (seen, u)) = seen

-- whether the observer sees the command
unfoldable pub sees_help : List ℕ → Tracker → Bool
sees_help seq t = seen_in (track seq t)

-- whether the help is shown behind an event
unfoldable pub shown_after : InputEvent → Inputs → Bool
unfolding closes_help is_help_key sees_help
shown_after ev a =
    if a.screen.active
    then not (closes_help ev a)
    else is_help_key ev (process_event ev a.mods).1
      || sees_help (process_event ev a.mods).0 a.tracker

page_keeps :
    (page : Option HelpPage) (s t : HelpScreen)
    → t.active ≡ s.active
    → (show_page page s t).1.active ≡ s.active
unfolding show_page
page_keeps none s t h = h
page_keeps (some p) s t h = refl

active_key :
    (ev : InputEvent) (mods : ModifierState) (seq : List ℕ) (screen : HelpScreen)
    → screen.active ≡ true
    → (handle_active_key ev mods seq screen).1.active ≡ not (is_exit_key ev mods seq)
unfolding handle_active_key record_key
active_key ev mods seq screen shown =
    let page =
      page_keeps (handle_navigation_key ev seq screen.page) screen (record_key ev mods seq screen)
        refl in
    ground (arith, page, shown)

active_before :
    (ev : InputEvent) (mods : ModifierState) (seq : List ℕ) (screen : HelpScreen)
    → (before_terminal_write ev mods seq screen).1.active ≡ (
        if screen.active
        then not (
            if ev.type == 1
            then if ev.value == 0 then false else is_exit_key ev mods seq
            else false)
        else is_help_key ev mods)
unfolding before_terminal_write handle_inactive_event is_help_key
active_before ev mods seq screen = let key = active_key ev mods seq screen in ground (arith, key)

-- an answer whose inputs are known
answered :
    (seq : List ℕ) (es : List Effect) (a b : Inputs) {out : List ℕ × List Effect × Inputs}
    (shown : Bool)
    → b.screen.active ≡ shown
    → some (seq, es, b) ≡ some out
    → out.2.screen.active ≡ shown
answered seq es a b {out} shown h e =
    let i : (seq, es, b) ≡ out = cc in
    subst (λ (o : List ℕ × List Effect × Inputs). o.2.screen.active ≡ shown) i h

taken :
    (seq : List ℕ) (es : List Effect) (a : Inputs) {out : List ℕ × List Effect × Inputs}
    → some (seq, es, a) ≡ some out
    → out.2.screen.active ≡ (a.screen.active || false)
taken seq es a e = answered seq es a a (a.screen.active || false) (ground arith) e

observed :
    (seq : List ℕ) (a : Inputs) (m : Option (Bool × Tracker)) {out : List ℕ × List Effect × Inputs}
    → ((m >>= λ (seen, u). some (if seen then (redraw_full, opened, u) else (pass, a.screen, u)))
        >>= λ (route, screen, tracker). some (
          seq,
          if a.has_pty then written seq ∷ drawn_after route else drawn_after route,
          record a { screen = screen; tracker = tracker },
        ))
      ≡ some out
    → out.2.screen.active ≡ (a.screen.active || seen_in m)
observed seq a none e = absurd cc
observed seq a (some (true, u)) e =
    answered seq _ a (record a { screen = opened; tracker = u }) (a.screen.active || true)
      (ground arith) e
observed seq a (some (false, u)) e =
    answered seq _ a (record a { tracker = u }) (a.screen.active || false) (ground arith) e

behind_shell :
    (seq : List ℕ) (a : Inputs) {out : List ℕ × List Effect × Inputs}
    → to_shell seq a ≡ some out
    → out.2.screen.active ≡ (a.screen.active || sees_help seq a.tracker)
unfolding to_shell after_terminal_write sees_help
behind_shell [] a e = taken [] [] a e
behind_shell (c ∷ cs) a e = observed (c ∷ cs) a (track (c ∷ cs) a.tracker) e

active_behind :
    (route : HelpRoute) (seq : List ℕ) (a : Inputs) {out : List ℕ × List Effect × Inputs}
    → follow_route route seq a ≡ some out
    → out.2.screen.active ≡ (a.screen.active || (not (takes route) && sees_help seq a.tracker))
unfolding follow_route
active_behind pass seq a e = behind_shell seq a e
active_behind open_after_write seq a e = behind_shell seq a e
active_behind consume seq a e = taken [] [] a e
active_behind redraw_full seq a e = taken [] (help_full ∷ []) a e
active_behind redraw_delta seq a e = taken [] (help_delta ∷ []) a e
active_behind exit seq a e = taken [] (terminal_restored ∷ []) a e

shown_if :
    (before takes_it shown closing key seen : Bool)
    → before ≡ (if shown then not closing else key)
    → takes_it ≡ (shown || key)
    → (before || (not takes_it && seen)) ≡ (if shown then not closing else key || seen)
shown_if before takes_it shown closing key seen h k = ground (arith, h, k)

-- What an event leaves: the bytes written, whether the help is shown, and an observer that stays inside
-- its buffer.
pub record Settled (bytes : List ℕ) (shown : Bool) (out : List ℕ × List Effect × Inputs)
    : Type 0 where
  pub bytes_out : written_bytes out.1 ≡ bytes
  pub help_shown : out.2.screen.active ≡ shown
  pub tracker_ready : IsReady out.2.tracker

-- An event writes its bytes to the shell, in full, where there is a shell, unless the help is shown or the
-- event is the press of a key that opens it, the menu key or H with shift: then nothing is written. The
-- return key behind a typed help is written too, and then the help is shown. Behind the event the help
-- is shown where it was and the key does not close it, and where such a key or the command has opened
-- it. Whatever is typed, no access leaves the buffer of the observer.
pub handle_input_event-Settled :
    (ev : InputEvent) (a : Inputs)
    → IsReady a.tracker
    → Returns (handle_input_event ev a) (Settled (due_bytes ev a) (shown_after ev a))
unfolding handle_input_event shown_after closes_help
handle_input_event-Settled ev a r =
    let (out, e, w) = handle_input_event-Writes ev a r in
    let seq = (process_event ev a.mods).0 in
    let mods = (process_event ev a.mods).1 in
    let shown =
      active_behind (before_terminal_write ev mods seq a.screen).0 seq
        (record a { mods = mods; screen = (before_terminal_write ev mods seq a.screen).1 }) e in
    let before = active_before ev mods seq a.screen in
    let takes_it = help_takes ev mods seq a.screen in
    (
      out,
      e,
      record {
        bytes_out = w.bytes_out;
        help_shown =
            shown
            ∙ shown_if _ _ a.screen.active (closes_help ev a) (is_help_key ev mods)
                (sees_help seq a.tracker) before takes_it;
        tracker_ready = w.tracker_ready;
      },
    )
