-- ===== src/Engine/Input.antt =====
-- input/key_catalog.hpp and input/input_manager.hpp: the codes of the keys, and the bytes that a key event
-- gives. `EV_KEY` is 1; a `string_view` is the list of its bytes.
use kindle_myts.Base.{
  ℕ, ◌+◌, ◌-◌, Bool, false, ◌&&◌, ◌||◌, not, List, [], ◌∷◌, Option, none, some, leb, ◌==◌,
  if◌then◌else◌, take, get_or,
}

-- `struct input_event` without its time; a negative value stands for none that the program tells apart
pub record InputEvent : Type 0 where
  pub type : ℕ
  pub code : ℕ
  pub value : ℕ

pub record ModifierState : Type 0 where
  pub shift : Bool
  pub ctrl : Bool
  pub alt : Bool
  pub sym : Bool

abbrev pub no_modifiers : ModifierState
no_modifiers = record { shift = false; ctrl = false; alt = false; sym = false }

unfoldable pub is_back_key : ℕ → Bool
is_back_key code = code == 158 || code == 91

unfoldable pub is_menu_key : ℕ → Bool
is_menu_key code = code == 139

-- `is_exit_trigger`, with the modifiers left out in the call, so that the test for H is never true
unfoldable pub is_exit_trigger : ℕ → Bool
unfolding is_back_key is_menu_key
is_exit_trigger code =
    is_back_key code
    || (is_menu_key code || (code == 191 || (code == 124 || (code == 16 || code == 28))))

abbrev pub is_shift : ℕ → Bool
is_shift code = code == 42 || code == 54

abbrev pub is_ctrl : ℕ → Bool
is_ctrl code = code == 29 || (code == 97 || (code == 190 || code == 90))

abbrev pub is_alt : ℕ → Bool
is_alt code = code == 56 || code == 100

abbrev pub is_sym : ℕ → Bool
is_sym code = code == 126 || code == 94

unfoldable pub is_modifier : ℕ → Bool
is_modifier code = is_shift code || (is_ctrl code || (is_alt code || is_sym code))

unfoldable pub update_modifier : ℕ → Bool → ModifierState → ModifierState
update_modifier code active m =
    if is_shift code
    then record m { shift = active }
    else if is_ctrl code
    then record m { ctrl = active }
    else if is_alt code
    then record m { alt = active }
    else if is_sym code
    then record m { sym = active }
    else m

-- `emit`, through a buffer of 16 bytes
abbrev pub emit : List ℕ → List ℕ
emit str = take 15 str

-- the letter of a code in one of three rows
unfoldable pub row_letter : ℕ → List ℕ → ℕ → Option ℕ
row_letter first [] code = none
row_letter first (c ∷ cs) code = if code == first then some c else row_letter (first + 1) cs code

abbrev first_of : Option ℕ → ℕ → ℕ
first_of none d = d
first_of (some c) d = c

-- the rows q to p, a to l and z to m; 0 for no letter
unfoldable pub code_to_letter : ℕ → ℕ
unfolding row_letter
code_to_letter code =
    let bottom = row_letter 44 (b'z' ∷ b'x' ∷ b'c' ∷ b'v' ∷ b'b' ∷ b'n' ∷ b'm' ∷ []) code in
    let middle =
      row_letter 30 (b'a' ∷ b's' ∷ b'd' ∷ b'f' ∷ b'g' ∷ b'h' ∷ b'j' ∷ b'k' ∷ b'l' ∷ []) code in
    let top =
      row_letter 16 (b'q' ∷ b'w' ∷ b'e' ∷ b'r' ∷ b't' ∷ b'y' ∷ b'u' ∷ b'i' ∷ b'o' ∷ b'p' ∷ [])
        code in
    first_of top (first_of middle (first_of bottom 0))

-- `")!@#$%^&*("`
abbrev pub shift_digits : List ℕ
shift_digits = b')' ∷ b'!' ∷ b'@' ∷ b'#' ∷ b'$' ∷ b'%' ∷ b'^' ∷ b'&' ∷ b'*' ∷ b'(' ∷ []

-- the keys of the first `switch`
unfoldable pub special_key : ModifierState → ℕ → Option (List ℕ)
special_key m code =
    if code == 28
    then some (b'\r' ∷ [])
    else if code == 57
    then some (b' ' ∷ [])
    else if code == 14
    then some (0x7f ∷ [])
    else if code == 103 || code == 122
    then some (if m.shift then 0x1b ∷ b'[' ∷ b'5' ∷ b'~' ∷ [] else 0x1b ∷ b'[' ∷ b'A' ∷ [])
    else if code == 108 || code == 123
    then some (if m.shift then 0x1b ∷ b'[' ∷ b'6' ∷ b'~' ∷ [] else 0x1b ∷ b'[' ∷ b'B' ∷ [])
    else if code == 105
    then some (0x1b ∷ b'[' ∷ b'D' ∷ [])
    else if code == 106
    then some (0x1b ∷ b'[' ∷ b'C' ∷ [])
    else if code == 52
    then some (if m.shift then b'>' ∷ [] else b'.' ∷ [])
    else if code == 53
    then some (if m.shift then b'?' ∷ [] else b'/' ∷ [])
    else none

-- the codes 2 to 11
unfoldable pub digit_key : ModifierState → ℕ → List ℕ
digit_key m code =
    let digit = if code == 11 then 0 else code - 1 in
    if m.shift then get_or shift_digits digit 0 ∷ [] else (b'0' + digit) ∷ []

unfoldable pub letter_key : ModifierState → ℕ → List ℕ
letter_key m c =
    if c == 0
    then []
    else if m.ctrl
    then (c - b'a' + 1) ∷ []
    else if m.shift
    then (c - b'a' + b'A') ∷ []
    else c ∷ []

unfoldable pub translate_keycode : ModifierState → ℕ → List ℕ
unfolding special_key digit_key letter_key code_to_letter
translate_keycode m code = elim (special_key m code) [
  | some str ↦ emit str
  | none ↦
      if leb 2 code && leb code 11 then digit_key m code else letter_key m (code_to_letter code)
]

unfoldable pub process_event : InputEvent → ModifierState → List ℕ × ModifierState
unfolding is_modifier update_modifier translate_keycode
process_event ev m =
    if not (ev.type == 1)
    then ([], m)
    else if is_modifier ev.code
    then ([], update_modifier ev.code (not (ev.value == 0)) m)
    else if ev.value == 0
    then ([], m)
    else (translate_keycode m ev.code, m)
