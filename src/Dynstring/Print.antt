-- ===== src/Dynstring/Print.antt =====
-- dynstring.c: `__dynstr_helper` and `dsprintf`.
pub mod Retry
use kindle_myts.Base.{
  ℕ, zero, suc, ◌+◌, ◌-◌, ◌/◌, not, ◌&&◌, ◌||◌, List, Option, none, some, ◌>>=◌, ltb, ◌==◌,
  if◌then◌else◌, store,
}
use kindle_myts.Dynstring.{Dynstr, Allocator, Code, value, error, make_space, opened}

-- `vsnprintf(block + offset, size, fmt, ap)`, with the block: the result and the block behind the
-- call; `none` is a negative result.
abbrev pub Formatter : Type 0
Formatter = List ℕ → ℕ → ℕ → Option (ℕ × List ℕ)

-- DYNSTR_BUILD_RETRY, or another result, with the string
pub data Round : Type 0 where
  retry : Dynstr → Round
  finished : Code → Option Dynstr → Round

-- the size asked for where there is not enough space
abbrev pub asked : ℕ → ℕ → ℕ
asked max_len need =
    if not (max_len == 0) && ltb max_len need
    then max_len
    else if max_len == 0
    then need + (16 + need / 4)
    else need

-- `if (dynstr_make_space(buf, need)) ... (*buf)->str[offset] = '\0';`
unfoldable pub grow_round : Dynstr → ℕ → Option Dynstr → Option Round
grow_round b offset none = some (finished error (some b))
grow_round b offset (some c) = do str ← store c.str offset 0; some (retry (record c { str = str }))

-- behind `vsnprintf`
unfoldable pub printed : Allocator → ℕ → Dynstr → ℕ → Option (ℕ × List ℕ) → Option Round
unfolding grow_round
printed m max_len b offset none = some (finished error (some b))
printed m max_len b offset (some (res, str)) =
    let need = res + offset + 1 in
    let b₁ = record b { str = str } in
    let short = ltb b.len need && (max_len == 0 || ltb b.len max_len) in
    let used = if ltb b.len (res + offset) then b.len else res + offset in
    let grown = grow_round b₁ offset (make_space m b₁ (asked max_len need)) in
    if short then grown else some (finished (value res) (some (record b₁ { used = used })))

-- `append` is 1
abbrev pub print_offset : Dynstr → ℕ
print_offset b = if ltb 0 b.len then b.used else 0

unfoldable pub print_with : Allocator → Formatter → ℕ → Option Dynstr → Option Round
unfolding printed
print_with m v max_len none = some (finished error none)
print_with m v max_len (some b) =
    printed m max_len b (print_offset b) (v b.str (print_offset b) (b.len - print_offset b))

unfoldable pub dynstr_helper : Allocator → Formatter → ℕ → Option Dynstr → Option Round
unfolding print_with
dynstr_helper m v max_len s = print_with m v max_len (opened m s)

-- How `vadsprintf` goes on behind a round: `go` is the rest of the loop.
unfoldable pub after_retry :
    (Option Dynstr → Option (Code × Option Dynstr)) → Round → Option (Code × Option Dynstr)
after_retry go (retry b) = go (some b)
after_retry go (finished c t) = some (c, t)

-- `vadsprintf`, for at most so many rounds; a loop that is not at its end then is `none`.
unfoldable pub print_loop :
    ℕ → Allocator → Formatter → ℕ → Option Dynstr → Option (Code × Option Dynstr)
unfolding dynstr_helper after_retry
print_loop zero m v max_len s = none
print_loop (suc fuel) m v max_len s =
    dynstr_helper m v max_len s >>= after_retry (print_loop fuel m v max_len)

-- Two rounds are enough (`dsprintf-Printed`).
unfoldable pub dsprintf : Allocator → Formatter → Option Dynstr → Option (Code × Option Dynstr)
unfolding print_loop
dsprintf m v s = print_loop 2 m v 0 s
