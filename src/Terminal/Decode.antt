-- ===== src/Terminal/Decode.antt =====
-- terminal.c: `utf8_to_ucs2`. The bytes of a C string are below 256 and not 0; its end is the list's.
-- The fields that `|` joins are disjoint, so `|` is `+`; `& 0x3f` is `% 64`, and so on.
pub mod RoundTrip
use kindle_myts.Base.{
  ℕ, ◌+◌, ◌*◌, ◌%◌, List, [], ◌∷◌, Option, none, some, ltb, ◌==◌, if◌then◌else◌, bit_and,
}

abbrev pub low6 : ℕ → ℕ
low6 b = b % 64

-- a lead byte of three and its two others
three_bytes : ℕ → List ℕ → Option (ℕ × List ℕ)
three_bytes a [] = none
three_bytes a (b ∷ []) = none
three_bytes a (b ∷ c ∷ rest) = some (a % 16 * 4096 + low6 b * 64 + low6 c, rest)

two_bytes : ℕ → List ℕ → Option (ℕ × List ℕ)
two_bytes a [] = none
two_bytes a (b ∷ rest) = some (a % 32 * 64 + low6 b, rest)

-- The code and the place behind it; `none` is -1, with `*end_ptr` at the input.
unfoldable pub utf8_to_ucs2 : List ℕ → Option (ℕ × List ℕ)
unfolding three_bytes two_bytes
utf8_to_ucs2 [] = none
utf8_to_ucs2 (a ∷ rest) =
    if ltb a 0x80
    then some (a, rest)
    else if bit_and a 0xe0 == 0xe0
    then three_bytes a rest
    else if bit_and a 0xc0 == 0xc0
    then two_bytes a rest
    else none
