-- ===== src/Engine/Help.antt =====
-- help/help_types.hpp, help/help_screen.hpp, help/help_command_tracker.hpp and help/help_controller.hpp: the
-- pages of the help, the observer of typed commands, and which events the help takes.
pub mod Safety
pub mod Typed
use kindle_myts.Base.{
  ℕ, zero, suc, ◌+◌, ◌-◌, ◌*◌, ◌/◌, ◌%◌, Bool, true, false, ◌&&◌, ◌||◌, not, List, [], ◌∷◌, Option,
  none, some, ◌>>=◌, ltb, leb, ◌==◌, if◌then◌else◌, take, length, store,
}
use kindle_myts.Engine.Input.{InputEvent, ModifierState, is_menu_key, is_exit_trigger}

pub data HelpPage : Type 0 where
  overview keypad sym_page fn_page : HelpPage

pub data HelpRoute : Type 0 where
  pass consume open_after_write redraw_full redraw_delta exit : HelpRoute

pub record KeySnapshot : Type 0 where
  pub code : ℕ
  pub character : ℕ
  pub modifiers : ℕ

-- `HelpScreen`, with the fields of its `HelpNavigationState`
pub record HelpScreen : Type 0 where
  pub active : Bool
  pub page : HelpPage
  pub last_key : KeySnapshot

abbrev pub no_key : KeySnapshot
no_key = record { code = 0; character = 0; modifiers = 0 }

abbrev pub opened : HelpScreen
opened = record { active = true; page = overview; last_key = no_key }

unfoldable pub next_page : HelpPage → HelpPage
next_page overview = keypad
next_page keypad = sym_page
next_page sym_page = fn_page
next_page fn_page = overview

unfoldable pub prev_page : HelpPage → HelpPage
prev_page overview = fn_page
prev_page keypad = overview
prev_page sym_page = keypad
prev_page fn_page = sym_page

-- `HelpCommandTracker`: `len`, a byte with two flags, and the 8 bytes of `buffer_`
pub record Tracker : Type 0 where
  pub buffer : List ℕ
  pub len : ℕ

-- `len_ & LEN_MASK` and `len_ & FLAG_MASK`, of a byte
abbrev pub text_len : Tracker → ℕ
text_len t = t.len % 16

abbrev pub flags : Tracker → ℕ
flags t = t.len / 64 * 64

unfoldable pub same_text : List ℕ → List ℕ → Bool
same_text [] [] = true
same_text [] (y ∷ ys) = false
same_text (x ∷ xs) [] = false
same_text (x ∷ xs) (y ∷ ys) = x == y && same_text xs ys

abbrev pub current_text : Tracker → List ℕ
current_text t = take (text_len t) t.buffer

abbrev pub help_word : List ℕ
help_word = b'h' ∷ b'e' ∷ b'l' ∷ b'p' ∷ []

unfoldable pub reset : Tracker → Option Tracker
reset t = store t.buffer 0 0 >>= λ b. some (record { buffer = b; len = 0 })

unfoldable pub handle_backspace : Tracker → Option Tracker
handle_backspace t =
    if text_len t == 0
    then some t
    else (store t.buffer (text_len t - 1) 0 >>= λ b.
        some (record { buffer = b; len = text_len t - 1 }))

unfoldable pub append_char : ℕ → Tracker → Option Tracker
append_char c t =
    if ltb (text_len t) 7
    then (store t.buffer (text_len t) c >>= λ b.
        store b (text_len t + 1) 0 >>= λ b'. some (record { buffer = b'; len = text_len t + 1 }))
    else (store t.buffer 0 b'~' >>= λ b. some (record { buffer = b; len = 7 }))

-- a result with no command seen
abbrev pub unseen : Option Tracker → Option (Bool × Tracker)
unseen m = m >>= λ t. some (false, t)

unfoldable pub check_and_reset : Tracker → Option (Bool × Tracker)
unfolding same_text reset
check_and_reset t = reset t >>= λ u. some (same_text (current_text t) help_word, u)

unfoldable pub process_escape_char : ℕ → Tracker → Option (Bool × Tracker)
unfolding reset
process_escape_char c t =
    if c == b'\r' || c == b'\n'
    then unseen (reset t)
    else if flags t == 0x80
    then if c == b'[' then some (false, record t { len = 0x40 }) else unseen (reset t)
    else if leb 0x40 c && leb c 0x7e
    then unseen (reset t)
    else some (false, t)

unfoldable pub process_char : ℕ → Tracker → Option (Bool × Tracker)
unfolding process_escape_char check_and_reset handle_backspace append_char
process_char c t =
    if not (flags t == 0)
    then process_escape_char c t
    else if c == 0x1b
    then (store t.buffer 0 0 >>= λ b. some (false, record { buffer = b; len = 0x80 }))
    else if c == b'\r' || c == b'\n'
    then check_and_reset t
    else if c == 0x7f || c == 8
    then unseen (handle_backspace t)
    else if ltb c 32
    then unseen (reset t)
    else unseen (append_char c t)

-- `HelpCommandTracker::feed`
unfoldable pub track : List ℕ → Tracker → Option (Bool × Tracker)
unfolding process_char
track [] t = some (false, t)
track (c ∷ cs) t =
    process_char c t >>= λ (seen, u). track cs u >>= λ (later, v). some (seen || later, v)

abbrev pub new_tracker : Tracker
new_tracker = record { buffer = 0 ∷ 0 ∷ 0 ∷ 0 ∷ 0 ∷ 0 ∷ 0 ∷ 0 ∷ []; len = 0 }

abbrev pub code_h : ℕ
code_h = 35

unfoldable pub handle_inactive_event :
    InputEvent → ModifierState → HelpScreen → HelpRoute × HelpScreen
handle_inactive_event ev mods screen =
    if not (ev.type == 1) || not (ev.value == 1)
    then (pass, screen)
    else if is_menu_key ev.code
    then (redraw_full, opened)
    else if mods.shift && ev.code == code_h
    then (redraw_full, opened)
    else (pass, screen)

unfoldable pub is_exit_key : InputEvent → ModifierState → List ℕ → Bool
unfolding same_text
is_exit_key ev mods seq =
    is_exit_trigger ev.code
    || (ev.code == 28
        || (same_text seq (b'\r' ∷ [])
            || (same_text seq (b'q' ∷ []) || (ev.code == 16 || (mods.shift && ev.code == code_h)))))

unfoldable pub is_prev_key : InputEvent → List ℕ → Bool
unfolding same_text
is_prev_key ev seq =
    ev.code == 105
    || (ev.code == 193 || (ev.code == 104 || same_text seq (0x1b ∷ b'[' ∷ b'D' ∷ [])))

unfoldable pub is_next_key : InputEvent → List ℕ → Bool
unfolding same_text
is_next_key ev seq = ev.code == 106 || (ev.code == 109 || same_text seq (0x1b ∷ b'[' ∷ b'C' ∷ []))

-- `handle_navigation_key`: the page to show, where the key is for one
unfoldable pub handle_navigation_key : InputEvent → List ℕ → HelpPage → Option HelpPage
unfolding same_text is_prev_key is_next_key next_page prev_page
handle_navigation_key ev seq page =
    if ev.code == 2 || same_text seq (b'1' ∷ [])
    then some overview
    else if ev.code == 3 || same_text seq (b'2' ∷ [])
    then some keypad
    else if ev.code == 4 || same_text seq (b'3' ∷ [])
    then some sym_page
    else if ev.code == 5 || same_text seq (b'4' ∷ [])
    then some fn_page
    else if is_prev_key ev seq
    then some (prev_page page)
    else if is_next_key ev seq
    then some (next_page page)
    else none

abbrev pub bit : Bool → ℕ → ℕ
bit b n = if b then n else 0

-- a text of one byte, or NUL
unfoldable pub only_char : List ℕ → ℕ
only_char [] = 0
only_char (c ∷ []) = c
only_char (c ∷ d ∷ rest) = 0

unfoldable pub record_key : InputEvent → ModifierState → List ℕ → HelpScreen → HelpScreen
unfolding only_char
record_key ev mods seq screen = record screen {
  last_key = record {
    code = ev.code;
    character = only_char seq;
    modifiers = bit mods.shift 1 + bit mods.ctrl 2 + bit mods.alt 4 + bit mods.sym 8;
  };
}

-- another page, or the key that was pressed
unfoldable pub show_page : Option HelpPage → HelpScreen → HelpScreen → HelpRoute × HelpScreen
show_page (some page) screen keyed = (redraw_full, record screen { page = page })
show_page none screen keyed = (redraw_delta, keyed)

-- the help is shown and a key is pressed
unfoldable pub handle_active_key :
    InputEvent → ModifierState → List ℕ → HelpScreen → HelpRoute × HelpScreen
unfolding is_exit_key handle_navigation_key show_page record_key
handle_active_key ev mods seq screen =
    if is_exit_key ev mods seq
    then (exit, record screen { active = false })
    else show_page (handle_navigation_key ev seq screen.page) screen (record_key ev mods seq screen)

unfoldable pub before_terminal_write :
    InputEvent → ModifierState → List ℕ → HelpScreen → HelpRoute × HelpScreen
unfolding handle_inactive_event handle_active_key
before_terminal_write ev mods seq screen =
    if not screen.active
    then handle_inactive_event ev mods screen
    else if not (ev.type == 1)
    then (consume, screen)
    else if ev.value == 0
    then (consume, screen)
    else handle_active_key ev mods seq screen

-- `after_terminal_write`, with the screen and the observer of the controller
unfoldable pub after_terminal_write :
    List ℕ → HelpScreen → Tracker → Option (HelpRoute × HelpScreen × Tracker)
unfolding track
after_terminal_write seq screen t =
    track seq t >>= λ (seen, u). some (if seen then (redraw_full, opened, u) else (pass, screen, u))
