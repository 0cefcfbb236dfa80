-- ===== src/Engine/Tests/Keys.antt =====
-- input, help and app/application.hpp on single events and typed lines.
use kindle_myts.Base.{
  ℕ, ◌≡◌, refl, arith, Bool, true, false, List, [], ◌∷◌, ◌++◌, Option, some, ◌>>=◌, ◌↔◌, inl,
  Returns, store, fill, splice,
}
use kindle_myts.Base.Int.{ℤ, pos}
use kindle_myts.Engine.Geometry.{Rect}
use kindle_myts.Engine.Display.{new_display, full}
use kindle_myts.Engine.Session.Feed.{new_session-IsWf}
use kindle_myts.Engine.Run.{Application, output, key, handle_events}
use kindle_myts.Engine.Run.Safe.{IsSafe, handle_events-IsSafe}
use kindle_myts.Engine.Run.Closing.{outputs, help_closes}
use kindle_myts.Engine.Tests.Sessions.{small, text, saturated}
use kindle_myts.Engine.Input.{
  InputEvent, no_modifiers, process_event, translate_keycode, special_key, letter_key,
  code_to_letter, row_letter, is_modifier, is_menu_key, is_exit_trigger, is_back_key,
}
use kindle_myts.Engine.Help.{
  overview, no_key, opened, is_exit_key, HelpScreen, Tracker, new_tracker, track, help_word,
  process_char, append_char, check_and_reset, handle_backspace, reset, same_text,
}
use kindle_myts.Engine.Help.Safety.{IsReady}
use kindle_myts.Engine.Help.Typed.{AllPlain, is_plain, track_command}
use kindle_myts.Engine.App.{Inputs, handle_input_event}
use kindle_myts.Engine.App.Modal.{due_bytes, is_help_key}
use kindle_myts.Engine.App.Shown.{
  closes_help, sees_help, shown_after, Settled, handle_input_event-Settled,
}

new_tracker-IsReady : IsReady new_tracker
new_tracker-IsReady = record { room = refl; flagged = inl (omega arith) }

-- an arrow key in the middle of a line
abbrev line : List ℕ
line = b'h' ∷ 0x1b ∷ b'[' ∷ b'D' ∷ b'x' ∷ 0x7f ∷ b'\r' ∷ []

help_word-AllPlain : AllPlain help_word
unfolding AllPlain is_plain
help_word-AllPlain = (refl, (refl, (refl, (refl, tt))))

track_command_example :
    Returns
      (track (help_word ++ (b'\r' ∷ [])) new_tracker)
      (λ out. (out.0 ≡ true) ↔ (help_word ≡ help_word))
track_command_example = track_command help_word help_word-AllPlain

-- Of a line that is too long seven deletions forget all, also what was typed first: the line xhelp is
-- taken for the command.
abbrev long_line : List ℕ
long_line =
    b'x' ∷ b'y' ∷ b'y' ∷ b'y' ∷ b'y' ∷ b'y' ∷ b'y' ∷ b'y' ∷ 0x7f ∷ 0x7f ∷ 0x7f ∷ 0x7f ∷ 0x7f ∷ 0x7f
    ∷ 0x7f ∷ b'h' ∷ b'e' ∷ b'l' ∷ b'p' ∷ b'\r' ∷ []

abbrev taken : Option (Bool × Tracker) → Option Bool
taken m = m >>= λ out. some out.0

long_line-taken : taken (track long_line new_tracker) ≡ some true
unfolding track process_char append_char check_and_reset handle_backspace reset same_text store fill
    splice
long_line-taken = refl

abbrev idle : Inputs
idle = record {
  mods = no_modifiers;
  screen = record { active = false; page = overview; last_key = no_key };
  tracker = new_tracker;
  has_pty = true;
}

-- the key A is pressed
abbrev key_a : InputEvent
key_a = record { type = 1; code = 30; value = 1 }

key_a-due : due_bytes key_a idle ≡ b'a' ∷ []
unfolding due_bytes is_help_key process_event translate_keycode special_key letter_key
    code_to_letter row_letter is_modifier is_menu_key
key_a-due = refl

handle_input_event-Settled_example :
    Returns
      (handle_input_event key_a idle)
      (Settled (due_bytes key_a idle) (shown_after key_a idle))
handle_input_event-Settled_example = handle_input_event-Settled key_a idle new_tracker-IsReady

-- the return key
abbrev key_return : InputEvent
key_return = record { type = 1; code = 28; value = 1 }

-- the word help is typed
abbrev asked : Inputs
asked = record idle {
  tracker = record { buffer = b'h' ∷ b'e' ∷ b'l' ∷ b'p' ∷ 0 ∷ 0 ∷ 0 ∷ 0 ∷ []; len = 4 };
}

-- The return key is written, and opens the help.
asked-answered : (due_bytes key_return asked ≡ b'\r' ∷ []) × (shown_after key_return asked ≡ true)
unfolding due_bytes shown_after is_help_key process_event translate_keycode special_key is_modifier
    is_menu_key sees_help track process_char check_and_reset reset same_text store fill splice
asked-answered = (refl, refl)

-- the help is shown, on a session of two rows and three columns
abbrev shown : Application
shown = record {
  session = small;
  display = new_display (pos 24) (pos 8);
  inputs = record idle { screen = opened };
  running = true;
}

-- the help draws on the whole screen
abbrev all_of_it : Bool → HelpScreen → Rect
all_of_it is_full screen = record { x = pos 0; y = pos 0; width = pos 24; height = pos 8 }

abbrev never : ℤ → ℤ → Bool
never part whole = false

shown-IsSafe : IsSafe shown
shown-IsSafe = record {
  session_wf = new_session-IsWf (pos 2) (pos 3);
  tracker_ready = new_tracker-IsReady;
}

handle_events-IsSafe_example :
    Returns
      (handle_events saturated 4 never false all_of_it
        (output text ∷ key key_return ∷ output text ∷ key key_a ∷ [])
        shown)
      (λ out. IsSafe out.1)
handle_events-IsSafe_example =
    handle_events-IsSafe saturated 4 never false all_of_it
      (output text ∷ key key_return ∷ output text ∷ key key_a ∷ []) shown shown-IsSafe

help_closes_example :
    Returns
      (handle_events saturated 4 never false all_of_it
        (outputs (text ∷ text ∷ []) ++ (key key_return ∷ []))
        shown)
      (λ out. (out.0 ≡ some full ∷ []) × (out.1.inputs.screen.active ≡ false))
unfolding closes_help is_exit_key is_exit_trigger is_back_key is_menu_key
help_closes_example =
    help_closes saturated 4 never false all_of_it (text ∷ text ∷ []) key_return shown
      (new_session-IsWf (pos 2) (pos 3)) refl refl
