-- ===== src/Launchpad/Typing.antt =====
-- launchpad.c, `process_term`: the bytes that a key stands for, and the keys held down.
pub mod Bounds
pub mod Letters
use kindle_myts.Base.{
  ℕ, zero, suc, ◌+◌, ◌-◌, ◌%◌, Bool, true, false, not, ◌&&◌, ◌||◌, List, [], ◌∷◌, Option, none,
  some, ◌>>=◌, ltb, leb, ◌==◌, if◌then◌else◌, get_elem?, length,
}
use kindle_myts.Launchpad.{KeyEntry, Keymap, e_is, first_byte}

-- the static variables of `process_term`, but for `home`, which nothing reads
pub record Mods : Type 0 where
  pub ctrl : Bool
  pub shift : Bool
  pub sym : Bool
  pub fn : Bool
  pub lang : Bool
  pub langlock : Bool
  pub help : Bool

-- The table `fnk`: the key, and the bytes with FN. F1 to F5, F6 to F10, signs, F11, F12, signs.
abbrev pub fnk : List (ℕ × List ℕ)
fnk =
    (b'q', 0x1b ∷ b'[' ∷ b'1' ∷ b'1' ∷ b'~' ∷ [])
    ∷ (b'w', 0x1b ∷ b'[' ∷ b'1' ∷ b'2' ∷ b'~' ∷ [])
    ∷ (b'e', 0x1b ∷ b'[' ∷ b'1' ∷ b'3' ∷ b'~' ∷ [])
    ∷ (b'r', 0x1b ∷ b'[' ∷ b'1' ∷ b'4' ∷ b'~' ∷ [])
    ∷ (b't', 0x1b ∷ b'[' ∷ b'1' ∷ b'5' ∷ b'~' ∷ [])
    ∷ (b'y', 0x1b ∷ b'[' ∷ b'1' ∷ b'7' ∷ b'~' ∷ [])
    ∷ (b'u', 0x1b ∷ b'[' ∷ b'1' ∷ b'8' ∷ b'~' ∷ [])
    ∷ (b'i', 0x1b ∷ b'[' ∷ b'1' ∷ b'9' ∷ b'~' ∷ [])
    ∷ (b'o', 0x1b ∷ b'[' ∷ b'2' ∷ b'0' ∷ b'~' ∷ [])
    ∷ (b'p', 0x1b ∷ b'[' ∷ b'2' ∷ b'1' ∷ b'~' ∷ [])
    ∷ (b'a', b'`' ∷ [])
    ∷ (b's', b'%' ∷ [])
    ∷ (b'd', b'^' ∷ [])
    ∷ (b'f', b'<' ∷ [])
    ∷ (b'g', b'>' ∷ [])
    ∷ (b'h', b'[' ∷ [])
    ∷ (b'j', b']' ∷ [])
    ∷ (b'k', b'=' ∷ [])
    ∷ (b'l', 0x1b ∷ b'[' ∷ b'2' ∷ b'3' ∷ b'~' ∷ [])
    ∷ (b'D', 0x1b ∷ b'[' ∷ b'2' ∷ b'4' ∷ b'~' ∷ [])
    ∷ (b'z', 9 ∷ [])
    ∷ (b'x', b';' ∷ [])
    ∷ (b'c', b',' ∷ [])
    ∷ (b'v', b'(' ∷ [])
    ∷ (b'b', b')' ∷ [])
    ∷ (b'n', b'{' ∷ [])
    ∷ (b'm', b'}' ∷ [])
    ∷ (b'.', b',' ∷ [])
    ∷ []

abbrev pub escape_bracket : List ℕ → List ℕ
escape_bracket bytes = 0x1b ∷ b'[' ∷ bytes

-- ESC [ Z instead of a tab, with SHIFT
unfoldable pub backtab : Bool → List ℕ → List ℕ
backtab shift [] = []
backtab shift (c ∷ cs) = if c == 9 && shift then escape_bracket (b'Z' ∷ []) else c ∷ cs

unfoldable pub find_fnk : List (ℕ × List ℕ) → ℕ → List ℕ
find_fnk [] c = []
find_fnk ((key, bytes) ∷ table) c = let rest = find_fnk table c in if key == c then bytes else rest

-- the words "Del", "Enter" and so on
abbrev pub del : List ℕ
del = b'D' ∷ b'e' ∷ b'l' ∷ []

abbrev pub enter : List ℕ
enter = b'E' ∷ b'n' ∷ b't' ∷ b'e' ∷ b'r' ∷ []

abbrev pub space : List ℕ
space = b'S' ∷ b'p' ∷ b'a' ∷ b'c' ∷ b'e' ∷ []

abbrev pub up : List ℕ
up = b'U' ∷ b'p' ∷ []

abbrev pub down : List ℕ
down = b'D' ∷ b'o' ∷ b'w' ∷ b'n' ∷ []

abbrev pub right : List ℕ
right = b'R' ∷ b'i' ∷ b'g' ∷ b'h' ∷ b't' ∷ []

abbrev pub left : List ℕ
left = b'L' ∷ b'e' ∷ b'f' ∷ b't' ∷ []

-- with FN
unfoldable pub fn_bytes : Mods → KeyEntry → List ℕ
unfolding find_fnk backtab
fn_bytes m e =
    let c = if e.namelen == 1 then first_byte e.name else if e_is e del then b'D' else b' ' in
    backtab m.shift (find_fnk fnk c)

-- the keys that SYM maps: "qwertyuiopasdfghjklDzxcvbnm."
abbrev pub sym_keys : List ℕ
sym_keys =
    b'q' ∷ b'w' ∷ b'e' ∷ b'r' ∷ b't' ∷ b'y' ∷ b'u' ∷ b'i' ∷ b'o' ∷ b'p' ∷ b'a' ∷ b's' ∷ b'd' ∷ b'f'
    ∷ b'g' ∷ b'h' ∷ b'j' ∷ b'k' ∷ b'l' ∷ b'D' ∷ b'z' ∷ b'x' ∷ b'c' ∷ b'v' ∷ b'b' ∷ b'n' ∷ b'm'
    ∷ b'.' ∷ []

-- `index`, for a byte that is not NUL
unfoldable pub place : List ℕ → ℕ → Option ℕ
place [] c = none
place (k ∷ keys) c =
    let later = (do i ← place keys c; some (suc i)) in if k == c then some 0 else later

-- one byte in `k`, which is the end of the string where it is 0
abbrev pub byte_string : ℕ → List ℕ
byte_string c = if c == 0 then [] else c ∷ []

-- `symbols[i]`: the byte, or the NUL behind the last
unfoldable pub symbol_at : List ℕ → ℕ → Option ℕ
symbol_at symbols i = if i == length symbols then some 0 else get_elem? symbols i

unfoldable pub mapped_symbol : Keymap → Mods → ℕ → Option ℕ → Option (List ℕ)
unfolding symbol_at backtab
mapped_symbol km m c none = some (byte_string c)
mapped_symbol km m c (some i) = do
  s ← symbol_at km.symbols i
  some (backtab m.shift (byte_string s))

-- with SYM
unfoldable pub sym_bytes : Keymap → Mods → KeyEntry → Option (List ℕ)
unfolding mapped_symbol place
sym_bytes km m e =
    let c = if e.namelen == 1 then first_byte e.name else if e_is e del then b'D' else 0 in
    mapped_symbol km m c (if c == 0 then none else place sym_keys c)

-- the keys that are handled before FN and SYM and put nothing into `k`
abbrev pub is_silent : Keymap → ℕ → Bool
is_silent km code =
    code == km.term_shift
    || code == km.term_ctrl
    || code == km.term_sym
    || code == km.term_fn
    || code == km.term_lang
    || code == km.term_scrollup
    || code == km.term_scrolldown

-- `k` behind the first part, `none` being a read behind the end of `symbols`
unfoldable pub mapped_bytes : Keymap → Mods → ℕ → KeyEntry → Option (List ℕ)
unfolding fn_bytes sym_bytes
mapped_bytes km m code e =
    if is_silent km code
    then some []
    else if code == km.term_home
    then some (if m.shift then 0x1b ∷ b'O' ∷ b'F' ∷ [] else 0x1b ∷ b'O' ∷ b'H' ∷ [])
    else if m.fn
    then some (fn_bytes m e)
    else if m.sym
    then sym_bytes km m e
    else some []

abbrev pub isalpha : ℕ → Bool
isalpha c = (leb b'a' c && leb c b'z') || (leb b'A' c && leb c b'Z')

abbrev pub isdigit : ℕ → Bool
isdigit c = leb b'0' c && leb c b'9'

-- ")!@#$%^&*("
abbrev pub shifted_digits : List ℕ
shifted_digits = b')' ∷ b'!' ∷ b'@' ∷ b'#' ∷ b'$' ∷ b'%' ∷ b'^' ∷ b'&' ∷ b'*' ∷ b'(' ∷ []

-- the sign at a digit with SHIFT
unfoldable pub shifted_digit : ℕ → List ℕ → ℕ
shifted_digit i [] = 0
shifted_digit zero (s ∷ _) = s
shifted_digit (suc i) (_ ∷ signs) = shifted_digit i signs

-- `k[0] += 'A' - 'a'` and `k[0] += 1 - 'a'`, in a byte
unfoldable pub plain_byte : Mods → ℕ → ℕ
unfolding shifted_digit
plain_byte m c =
    if isalpha c
    then (if m.shift then (c + 224) % 256 else if m.ctrl then (c + 160) % 256 else c)
    else if isdigit c
    then (if m.shift
        then shifted_digit (c - b'0') shifted_digits
        else if m.ctrl
        then (c + 160) % 256
        else c)
    else c

-- ESC before a byte, with LANG
abbrev pub with_lang : Mods → ℕ → List ℕ
with_lang m c = if m.lang || m.langlock then 0x1b ∷ byte_string c else byte_string c

-- `k` where the first part leaves it empty
unfoldable pub plain_bytes : Keymap → Mods → ℕ → KeyEntry → List ℕ
unfolding plain_byte
plain_bytes km m code e =
    if e.namelen == 1
    then with_lang m (plain_byte m (first_byte e.name))
    else if e_is e enter
    then 13 ∷ []
    else if code == km.term_esc
    then 0x1b ∷ []
    else if e_is e space
    then b' ' ∷ []
    else if e_is e del
    then 0x7f ∷ []
    else if e_is e up
    then escape_bracket (if m.shift then b'5' ∷ b'~' ∷ [] else b'A' ∷ [])
    else if e_is e down
    then escape_bracket (if m.shift then b'6' ∷ b'~' ∷ [] else b'B' ∷ [])
    else if e_is e right
    then escape_bracket (b'C' ∷ [])
    else if e_is e left
    then escape_bracket (b'D' ∷ [])
    else []

-- `if (!k[0])`
unfoldable pub or_plain : Keymap → Mods → ℕ → KeyEntry → List ℕ → List ℕ
unfolding plain_bytes
or_plain km m code e [] = plain_bytes km m code e
or_plain km m code e (c ∷ cs) = c ∷ cs

-- The string in `k` for a key that is pressed, `m` being the keys held with it.
unfoldable pub key_bytes : Keymap → Mods → ℕ → KeyEntry → Option (List ℕ)
unfolding mapped_bytes or_plain
key_bytes km m code e = do k ← mapped_bytes km m code e; some (or_plain km m code e k)

-- the keys held, behind a press of a key other than `term_end`
unfoldable pub press_mods : Keymap → Mods → ℕ → Mods
press_mods km m code =
    if code == km.term_shift
    then record m { shift = true }
    else if code == km.term_ctrl
    then record m { ctrl = true }
    else if code == km.term_sym
    then record m { sym = true }
    else if code == km.term_fn
    then record m { fn = true }
    else if code == km.term_lang
    then (if m.shift then record m { langlock = not m.langlock } else record m { lang = true })
    else m

-- and behind its release
unfoldable pub release_mods : Keymap → Mods → ℕ → Mods
release_mods km m code =
    if code == km.term_shift
    then record m { shift = false }
    else if code == km.term_ctrl
    then record m { ctrl = false }
    else if code == km.term_sym
    then record m { sym = false }
    else if code == km.term_fn
    then record m { fn = false }
    else if code == km.term_lang
    then record m { lang = false }
    else m
