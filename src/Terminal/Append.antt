-- ===== src/Terminal/Append.antt =====
-- terminal.c: `page_append`, which takes in the bytes that the shell has written.
pub mod Invariant
pub mod Fuel
pub mod Text
pub mod Wide
pub mod Reads
use kindle_myts.Base.{
  ℕ, zero, suc, ◌+◌, ◌-◌, ◌%◌, Bool, true, false, ◌||◌, List, [], ◌∷◌, Option, none, some, ◌>>=◌,
  ltb, ◌==◌, if◌then◌else◌, fill, length,
}
use kindle_myts.Terminal.{Screen, region_start}
use kindle_myts.Terminal.Csi.{Sequence, incomplete, complete, do_csi}
use kindle_myts.Terminal.Cursor.{bound}
use kindle_myts.Terminal.Decode.{utf8_to_ucs2}
use kindle_myts.Terminal.Glyph.{next_line, scroll_loop, rounds, put_code}
use kindle_myts.Terminal.Page.{page_scrolldown}

-- One round of the loop goes on with a screen and the bytes behind, or leaves its bytes for later.
pub data Round : Type 0 where
  next : Screen → List ℕ → Round
  stop : Round

-- ESC ( and ESC ), at the byte behind
unfoldable pub charset : Screen → ℕ → ℕ → Screen
charset s paren c =
    if c == b'0'
    then record s { graphics = if paren == b'(' then true else s.graphics; dographic = true }
    else if c == b'B'
    then record s { graphics = false; dographic = false }
    else s

-- ESC E
unfoldable pub new_line : Screen → ℕ → Option Screen
new_line s curcol = scroll_loop rounds (next_line (record s { cur = s.cur - curcol }))

-- ESC M
unfoldable pub reverse_index : Screen → Option Screen
reverse_index s =
    let settle = λ (t : Screen) (c : ℕ). record t { cur = bound t c; wrapped = false } in
    if ltb s.cur (region_start s + s.cols)
    then (page_scrolldown s >>= λ t. some (settle t t.cur))
    else some (settle s (s.cur - s.cols))

-- ESC # 8
unfoldable pub alignment : Screen → Option Screen
alignment s = do
  page ← fill s.page 0 s.pagelen b'E'
  attributes ← fill s.attributes 0 s.pagelen s.cur_attr
  some (record s { page = page; attributes = attributes })

-- the escapes that take one byte behind ESC, `c`
unfoldable pub short_escape : Screen → ℕ → ℕ → Option Screen
short_escape s c curcol =
    if c == b'c'
    then some (record s { cur = 0; top = 0 })
    else if c == b'D'
    then some (record s { cur = bound s (s.cur + s.cols) })
    else if c == b'E'
    then new_line s curcol
    else if c == b'M'
    then reverse_index s
    else some s

unfoldable pub csi_round : Option Sequence → Option Round
csi_round none = none
csi_round (some incomplete) = some stop
csi_round (some (complete s rest)) = some (next s rest)

-- `ns += k` or `s += k` over what is left of the string; past its end it is a fault.
unfoldable pub skip : ℕ → List ℕ → Option (List ℕ)
skip zero bytes = some bytes
skip (suc k) [] = none
skip (suc k) (b ∷ bytes) = skip k bytes

unfoldable pub leave : Option Screen → ℕ → List ℕ → Option Round
unfolding skip
leave m k behind = m >>= λ t. (skip k behind >>= λ bytes. some (next t bytes))

-- `s[2] == '8'`
unfoldable pub is_eight : List ℕ → Bool
is_eight [] = false
is_eight (d ∷ _) = d == b'8'

-- ESC ( and ESC ), with what stands behind the parenthesis
unfoldable pub charset_round : Screen → ℕ → List ℕ → List ℕ → Option Round
unfolding leave charset
charset_round s paren [] behind = some stop
charset_round s paren (d ∷ _) behind = leave (some (charset s paren d)) 2 behind

-- The case of ESC. `rest` is what stands behind the first byte, `behind` what stands behind the
-- whole character, which is the same unless the character is an overlong form of ESC.
unfoldable pub escape : Screen → List ℕ → List ℕ → ℕ → Option Round
unfolding csi_round short_escape leave is_eight charset_round
escape s [] behind curcol = some stop
escape s (c ∷ rest) behind curcol =
    if c == b'['
    then csi_round (do_csi s rest curcol)
    else if c == b'(' || c == b')'
    then charset_round s c rest behind
    else if c == b'#'
    then leave (if is_eight rest then alignment s else some s) 2 behind
    else leave (short_escape s c curcol) 1 behind

-- The switch on the code `c`.
unfoldable pub dispatch : Screen → ℕ → List ℕ → List ℕ → Option Round
unfolding escape put_code leave
dispatch s c rest behind =
    let curcol = s.cur % s.cols in
    if c == 0x1b then escape s rest behind curcol else leave (put_code s c curcol) 0 behind

-- `c = utf8_to_ucs2(s, &ns)`, and what is done where it fails
unfoldable pub wide_round : Screen → ℕ → List ℕ → Option (ℕ × List ℕ) → Option Round
unfolding dispatch
wide_round s pos rest (some (c, behind)) = dispatch s c rest behind
wide_round s pos rest none = if ltb 8 pos then some stop else dispatch s 0xfffd rest rest

-- One round of the loop, `pos` bytes behind the start of the buffer, at the bytes `a ∷ rest`.
unfoldable pub append_round : Screen → ℕ → ℕ → List ℕ → Option Round
unfolding dispatch wide_round
append_round s pos a rest =
    if s.utf8 then wide_round s pos rest (utf8_to_ucs2 (a ∷ rest)) else dispatch s a rest rest

-- How the loop goes on behind a round: `go` is the rest of it, at a place, a screen and bytes.
unfoldable pub after_round :
    (ℕ → Screen → List ℕ → Option (Screen × List ℕ))
    → Screen
    → ℕ
    → List ℕ
    → Round
    → Option (Screen × List ℕ)
after_round go s pos bytes stop = some (s, bytes)
after_round go s pos bytes (next t behind) = go (pos + (length bytes - length behind)) t behind

-- The loop, for at most so many rounds: the screen and the bytes that are left over.
-- As many rounds as there are bytes are enough (`append_loop_fuel`).
unfoldable pub append_loop : ℕ → ℕ → Screen → List ℕ → Option (Screen × List ℕ)
unfolding append_round after_round
append_loop zero pos s bytes = some (s, bytes)
append_loop (suc fuel) pos s [] = some (s, [])
append_loop (suc fuel) pos s (a ∷ rest) =
    append_round s pos a rest >>= after_round (append_loop fuel) s pos (a ∷ rest)

unfoldable pub page_append : Screen → List ℕ → Option (Screen × List ℕ)
unfolding append_loop
page_append s bytes = append_loop (length bytes) 0 s bytes
