-- ===== src/Config.antt =====
-- config.c: the lines of a configuration file, and the sections and entries they make.
-- A string is the list of its bytes, less the NUL. Reading behind the end of a line is `none`.
pub mod Text
pub mod Lookup
pub mod Pairs
mod Tests
use kindle_myts.Base.{
  ℕ, ◌+◌, Bool, true, false, not, ◌&&◌, ◌||◌, List, [], ◌∷◌, Option, none, some, ◌>>=◌, leb, ◌==◌,
  if◌then◌else◌,
}
use kindle_myts.Config.Text.{skipws, trimws, parse_name, section_name}

pub record Entry : Type 0 where
  pub key : List ℕ
  pub value : List ℕ

pub record Section : Type 0 where
  pub name : List ℕ
  pub keys : List Entry

-- `tolower`
abbrev pub lower : ℕ → ℕ
lower c = if leb b'A' c && leb c b'Z' then c + 32 else c

-- `strcasecmp(a, b) == 0`
unfoldable pub same_name : List ℕ → List ℕ → Bool
same_name [] [] = true
same_name [] (d ∷ ds) = false
same_name (c ∷ cs) [] = false
same_name (c ∷ cs) (d ∷ ds) = lower c == lower d && same_name cs ds

unfoldable pub cfg_find_section : List Section → List ℕ → Option Section
unfolding same_name
cfg_find_section [] name = none
cfg_find_section (s ∷ db) name =
    let rest = cfg_find_section db name in if same_name name s.name then some s else rest

unfoldable pub find_key : List Entry → List ℕ → Option Entry
unfolding same_name
find_key [] name = none
find_key (k ∷ keys) name =
    let rest = find_key keys name in if same_name name k.key then some k else rest

unfoldable pub cfg_find_val : List Section → List ℕ → List ℕ → Option (List ℕ)
unfolding cfg_find_section find_key
cfg_find_val db sec name = do s ← cfg_find_section db sec; k ← find_key s.keys name; some k.value

-- `kcur->value = val` at the entry that `cfg_find_entry` finds for `name`
unfoldable pub replace_value : List Entry → List ℕ → List ℕ → List Entry
unfolding same_name
replace_value [] name val = []
replace_value (k ∷ keys) name val =
    let rest = replace_value keys name val in
    if same_name name k.key then record k { value = val } ∷ keys else k ∷ rest

-- The entry of a pair: `looked_up` is the text behind the pair, by which the code looks for an entry.
unfoldable pub set_at : List Entry → List ℕ → List ℕ → List ℕ → Option Entry → List Entry
unfolding replace_value
set_at keys looked_up key val none = record { key = key; value = val } ∷ keys
set_at keys looked_up key val (some k) = replace_value keys looked_up val

unfoldable pub set_entry : List Entry → List ℕ → List ℕ → List ℕ → List Entry
unfolding set_at find_key
set_entry keys looked_up key val = set_at keys looked_up key val (find_key keys looked_up)

-- the same at the section `cur` of the database
unfoldable pub set_pair : List Section → List ℕ → List ℕ → List ℕ → List ℕ → List Section
unfolding set_entry
set_pair [] cur looked_up key val = []
set_pair (s ∷ db) cur looked_up key val =
    let rest = set_pair db cur looked_up key val in
    if same_name cur s.name
    then record s { keys = set_entry s.keys looked_up key val } ∷ db
    else s ∷ rest

-- where the parser is: the sections, the newest first, and the name of the current one
pub record Parser : Type 0 where
  pub db : List Section
  pub cur : Option (List ℕ)

-- `cur = cfg_find_section(db, start)`, or a new section
unfoldable pub open_section : Parser → List ℕ → Parser
unfolding cfg_find_section
open_section p name = elim (cfg_find_section p.db name) [
  | some s ↦ record p { cur = some s.name }
  | none ↦ record { db = record { name = name; keys = [] } ∷ p.db; cur = some name }
]

unfoldable pub add_pair : Parser → List ℕ → List ℕ → List ℕ → Parser
unfolding set_pair
add_pair p looked_up key val = elim p.cur [
  | none ↦ p
  | some cur ↦ record p { db = set_pair p.db cur looked_up key val }
]

-- a line is done, or `return -1`
pub data Step : Type 0 where
  next : Parser → Step
  abort : Step

unfoldable pub section_line : Parser → Option (List ℕ) → Step
unfolding open_section
section_line p none = next p
section_line p (some name) = next (open_section p name)

-- `strcmp(key, "include") == 0`
unfoldable pub same_bytes : List ℕ → List ℕ → Bool
same_bytes [] [] = true
same_bytes [] (d ∷ ds) = false
same_bytes (c ∷ cs) [] = false
same_bytes (c ∷ cs) (d ∷ ds) = c == d && same_bytes cs ds

abbrev pub include_key : List ℕ
include_key = b'i' ∷ b'n' ∷ b'c' ∷ b'l' ∷ b'u' ∷ b'd' ∷ b'e' ∷ []

-- What `cfg_read` makes of the sections for an included file of that name; files are not part of the
-- program.
abbrev pub Include : Type 0
Include = List ℕ → List Section → List Section

-- behind the parse of the value
unfoldable pub value_line : Include → Parser → List ℕ → Option (List ℕ × List ℕ) → Step
unfolding add_pair same_bytes
value_line include p key none = abort
value_line include p key (some (val, rest)) =
    if same_bytes key include_key
    then next (record p { db = include val p.db })
    else next (add_pair p rest key val)

-- behind the parse of the key
unfoldable pub key_line : Include → Parser → Option (List ℕ × List ℕ) → Step
unfolding value_line parse_name
key_line include p none = next p
key_line include p (some (key, rest)) = value_line include p key (parse_name false rest)

-- the switch on the first byte of a trimmed line
unfoldable pub trimmed_line : Include → Parser → List ℕ → Option Step
unfolding section_line key_line section_name parse_name
trimmed_line include p [] = some (next p)
trimmed_line include p (c ∷ cs) =
    if c == b';' || c == b'#'
    then some (next p)
    else if c == b'['
    then (section_name cs >>= λ name. some (section_line p name))
    else some (key_line include p (parse_name true (c ∷ cs)))

unfoldable pub parse_line : Include → Parser → List ℕ → Option Step
unfolding trimmed_line skipws trimws
parse_line include p line = trimmed_line include p (trimws (skipws line))

unfoldable pub after_line : (Parser → Option (Option Parser)) → Step → Option (Option Parser)
after_line go abort = some none
after_line go (next p) = go p

-- `cfg_parse` on the lines that end in a newline and the text behind the last one; `some none` is -1.
-- For a last line with no newline `trimws` is given an end that is not in the text.
unfoldable pub cfg_parse : Include → Parser → List (List ℕ) → List ℕ → Option (Option Parser)
unfolding parse_line after_line
cfg_parse include p [] [] = some (some p)
cfg_parse include p [] (c ∷ cs) = none
cfg_parse include p (line ∷ lines) tail =
    parse_line include p line >>= after_line (λ p₁. cfg_parse include p₁ lines tail)
