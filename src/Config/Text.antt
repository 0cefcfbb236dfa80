-- ===== src/Config/Text.antt =====
-- config.c: `skipws`, `trimws`, `parse_name` and the name of a section.
use kindle_myts.Base.{
  ℕ, ◌+◌, Bool, true, false, not, ◌&&◌, ◌||◌, List, [], ◌∷◌, Option, none, some, ◌>>=◌, leb, ◌==◌,
  take, drop, if◌then◌else◌,
}

-- `index(" \t\r\n", c)` of a byte that is not 0
abbrev pub is_space : ℕ → Bool
is_space c = c == b' ' || c == 9 || c == 13 || c == 10

unfoldable pub skipws : List ℕ → List ℕ
skipws [] = []
skipws (c ∷ cs) = let rest = skipws cs in if is_space c then rest else c ∷ cs

abbrev pub is_quote : ℕ → Bool
is_quote c = c == b'"' || c == 39

abbrev pub or_else : Option ℕ → ℕ → ℕ
or_else none n = n
or_else (some m) n = m

-- The loop of `trimws`, at the place `at` behind the start: how many bytes are kept.
unfoldable pub trim_loop : Bool → Option ℕ → ℕ → List ℕ → ℕ
trim_loop in_quote last_ws at [] = or_else last_ws at
trim_loop in_quote last_ws at (c ∷ []) =
    if c == 92
    then at + 1
    else if in_quote
    then or_else last_ws (at + 1)
    else if is_quote c
    then at + 1
    else if c == b';' || (at == 0 && c == b'#')
    then or_else last_ws at
    else if is_space c
    then or_else last_ws at
    else at + 1
trim_loop in_quote last_ws at (c ∷ d ∷ cs) =
    let escaped = trim_loop in_quote none (at + 2) cs in
    let quoted = trim_loop (not (is_quote c)) last_ws (at + 1) (d ∷ cs) in
    let opening = trim_loop true none (at + 1) (d ∷ cs) in
    let spaced = trim_loop in_quote (some (or_else last_ws at)) (at + 1) (d ∷ cs) in
    let plain = trim_loop in_quote none (at + 1) (d ∷ cs) in
    if c == 92
    then escaped
    else if in_quote
    then quoted
    else if is_quote c
    then opening
    else if c == b';' || (at == 0 && c == b'#')
    then or_else last_ws at
    else if is_space c
    then spaced
    else plain

-- `trimws(s, end)`, with the bytes up to `end`
unfoldable pub trimws : List ℕ → List ℕ
unfolding trim_loop
trimws s = take (trim_loop false none 0 s) s

-- The loop of `parse_name`: how many bytes stand before the separator.
unfoldable pub name_length : (ℕ → Bool) → List ℕ → ℕ
name_length sep [] = 0
name_length sep (c ∷ []) = if sep c then 0 else 1
name_length sep (c ∷ d ∷ cs) =
    let escaped = name_length sep cs + 2 in
    let plain = name_length sep (d ∷ cs) + 1 in
    if sep c then 0 else if c == 92 then escaped else plain

-- "=\r\n" and "\r\n"
abbrev pub to_equals : ℕ → Bool
to_equals c = c == b'=' || c == 13 || c == 10

abbrev pub to_end : ℕ → Bool
to_end c = c == 13 || c == 10

abbrev pub starts_equals : List ℕ → Bool
starts_equals [] = false
starts_equals (c ∷ _) = c == b'='

-- `parse_name(p, sep)` at the text `p`: the name and the text behind; `is_key` says that sep[0] is '='.
unfoldable pub parse_name : Bool → List ℕ → Option (List ℕ × List ℕ)
unfolding skipws name_length trimws
parse_name is_key [] = none
parse_name is_key (c ∷ cs) =
    let q = skipws (c ∷ cs) in
    let l = name_length (if is_key then to_equals else to_end) q in
    if is_key && not (starts_equals (drop l q))
    then none
    else some (trimws (take l q), drop (l + 1) q)

-- `isalnum(c) || index("-_", c)`, in the C locale
abbrev pub is_section_byte : ℕ → Bool
is_section_byte c =
    (leb b'0' c && leb c b'9')
    || (leb b'A' c && leb c b'Z')
    || (leb b'a' c && leb c b'z')
    || c == b'-'
    || c == b'_'

-- The name of a section behind '[': `some none` where it does not end in ']'. `index` finds the NUL
-- too, so a name that ends with the line is read on behind it.
unfoldable pub section_name : List ℕ → Option (Option (List ℕ))
section_name [] = none
section_name (c ∷ cs) =
    let rest = (section_name cs >>= λ r. some (r >>= λ name. some (c ∷ name))) in
    if is_section_byte c then rest else if c == b']' then some (some []) else some none
