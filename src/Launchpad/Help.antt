-- ===== src/Launchpad/Help.antt =====
-- launchpad.c: `print_buf8` and `print_keymap`, the help that shows the keys.
use kindle_myts.Base.{
  ℕ, zero, suc, ◌+◌, ◌-◌, ◌*◌, List, [], ◌∷◌, ◌++◌, Option, none, some, ◌>>=◌, ltb, ◌==◌,
  if◌then◌else◌, get_elem?, store, replicate,
}
use kindle_myts.Launchpad.State.{Terminal, Draw, LpState, set_shell}
use kindle_myts.Launchpad.Screen.{print_buf, blank_state, is_open}
use kindle_myts.Launchpad.Typing.{fnk, symbol_at}
use kindle_myts.Terminal.Shell.{Shell, TermState, term_state}

abbrev pub blanks : ℕ → List ℕ
blanks n = replicate n b' '

-- a line of the help, of 64 characters: a letter every six characters, behind four blanks
unfoldable pub letter_line : List ℕ → ℕ → List ℕ
letter_line [] rest = blanks rest
letter_line (c ∷ cs) rest = c ∷ (blanks 5 ++ letter_line cs rest)

abbrev pub letters : ℕ → List ℕ
unfolding letter_line
letters zero =
    blanks 4
    ++ letter_line (b'q' ∷ b'w' ∷ b'e' ∷ b'r' ∷ b't' ∷ b'y' ∷ b'u' ∷ b'i' ∷ b'o' ∷ b'p' ∷ []) 0
letters (suc zero) =
    blanks 4
    ++ letter_line (b'a' ∷ b's' ∷ b'd' ∷ b'f' ∷ b'g' ∷ b'h' ∷ b'j' ∷ b'k' ∷ b'l' ∷ b'D' ∷ []) 0
letters (suc (suc _)) =
    blanks 4 ++ letter_line (b'z' ∷ b'x' ∷ b'c' ∷ b'v' ∷ b'b' ∷ b'n' ∷ b'm' ∷ b'.' ∷ []) 12

-- "9a bc"
abbrev pub high_keys : List ℕ
high_keys = b'9' ∷ b'a' ∷ b' ' ∷ b'b' ∷ b'c' ∷ []

-- the number of a function key: from the last digit of its sequence, and the one before
unfoldable pub fn_number : ℕ → ℕ → Option ℕ
fn_number tens digit =
    if tens == b'2'
    then get_elem? high_keys (digit - b'0')
    else some (if ltb b'5' digit then digit - 1 else digit)

-- F and the number, in the `i`th place of the line
unfoldable pub put_fn_number : List ℕ → ℕ → List ℕ → Option (List ℕ)
unfolding fn_number
put_fn_number buf i bytes = do
  tens ← get_elem? bytes 2
  digit ← get_elem? bytes 3
  number ← fn_number tens digit
  with_f ← store buf (i * 6 + 5) b'F'
  store with_f (i * 6 + 6) number

-- what FN makes of a key
unfoldable pub put_label : List ℕ → ℕ → List ℕ → Option (List ℕ)
unfolding put_fn_number
put_label buf i bytes = get_elem? bytes 0 >>= λ first.
    if first == 0x1b then put_fn_number buf i bytes else store buf (i * 6 + 5) first

-- the loop over `i`, for so many keys, of which the first is the `k`th of the table
unfoldable pub put_labels : List ℕ → ℕ → ℕ → ℕ → List ℕ → Option (List ℕ)
unfolding put_label symbol_at
put_labels symbols zero i k buf = some buf
put_labels symbols (suc count) i k buf = do
  s ← symbol_at symbols k
  buf₁ ← store buf (i * 6 + 3) s
  (key, bytes) ← get_elem? fnk k
  buf₂ ← put_label buf₁ i bytes
  put_labels symbols count (i + 1) (k + 1) buf₂

module _ (glyph_size : ℕ → ℕ × ℕ) where
  -- `print_buf8` widens its bytes to cells, which is nothing here.
  unfoldable pub print_line : LpState → TermState → ℕ → List ℕ → Option (List Draw)
  unfolding print_buf
  print_line lps st line buf =
      print_buf glyph_size 0 (lps.yofs + lps.fontheight * line) st.cols none buf 64 none 0

  unfoldable pub print_labels : LpState → TermState → ℕ → ℕ → ℕ → Option (List Draw)
  unfolding put_labels print_line
  print_labels lps st line j count = do
    buf ← put_labels lps.keymap.symbols count 0 j (blanks 64)
    print_line lps st line buf

  unfoldable pub print_help : LpState → TermState → Option (List Draw)
  unfolding print_line print_labels
  print_help lps st = do
    a ← print_line lps st 1 (letters 0)
    b ← print_line lps st 4 (letters 1)
    c ← print_line lps st 7 (letters 2)
    d ← print_line lps st 0 (blanks 64)
    e ← print_line lps st 3 (blanks 64)
    f ← print_line lps st 6 (blanks 64)
    g ← print_line lps st 9 (blanks 64)
    h ← print_labels lps st 2 0 10
    i ← print_labels lps st 5 10 10
    j ← print_labels lps st 8 20 8
    some (a ++ (b ++ (c ++ (d ++ (e ++ (f ++ (g ++ (h ++ (i ++ j)))))))))

  unfoldable pub help_shell : LpState → ℕ → Shell → Option LpState
  unfolding print_help term_state
  help_shell lps n sh =
      let (_, sh₁, st) = term_state sh blank_state in
      let lps₁ = record lps { shells = set_shell lps.shells n (some sh₁) } in
      print_help lps₁ st >>= λ draws. some (record lps₁ { drawn = lps.drawn ++ draws })

  unfoldable pub help_terminal : LpState → Option Terminal → Option LpState
  unfolding help_shell
  help_terminal lps none = some lps
  help_terminal lps (some t) = lps.shells t.the_shell >>= help_shell lps t.the_shell

  unfoldable pub print_keymap : LpState → Option LpState
  unfolding help_terminal
  print_keymap lps =
      let lps₁ = record lps { screen_due = record { sec = 0; usec = 0 } } in
      if is_open lps.fb then help_terminal lps₁ lps.curterm else some lps₁
