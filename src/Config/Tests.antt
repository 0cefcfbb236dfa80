-- ===== src/Config/Tests.antt =====
-- config.c on concrete lines.
use kindle_myts.Base.{ℕ, ◌≡◌, ◌∷◌, [], refl, false, List, some, none}
use kindle_myts.Config.{
  Section, Include, Parser, abort, same_name, same_bytes, include_key, cfg_find_section, find_key,
  cfg_find_val, set_at, set_entry, set_pair, add_pair, open_section, section_line, value_line,
  key_line, trimmed_line, parse_line, after_line, cfg_parse,
}
use kindle_myts.Config.Lookup.{cfg_find_val-set_pair}
use kindle_myts.Config.Text.{skipws, trimws, trim_loop, parse_name, name_length, section_name}

-- no file can be read
abbrev no_files : Include
no_files = λ name db. db

abbrev empty : Parser
empty = record { db = []; cur = none }

abbrev general : Section
general = record {
  name = b'g' ∷ b'e' ∷ b'n' ∷ b'e' ∷ b'r' ∷ b'a' ∷ b'l' ∷ [];
  keys =
      record { key = b'd' ∷ b'e' ∷ b'v' ∷ b'i' ∷ b'c' ∷ b'e' ∷ []; value = b'k' ∷ b'3' ∷ [] } ∷ [];
}

-- two lines of tests/test_config.c
abbrev lines : List (List ℕ)
lines =
    (b'[' ∷ b'g' ∷ b'e' ∷ b'n' ∷ b'e' ∷ b'r' ∷ b'a' ∷ b'l' ∷ b']' ∷ [])
    ∷ (b' ' ∷ b'd' ∷ b'e' ∷ b'v' ∷ b'i' ∷ b'c' ∷ b'e' ∷ b' ' ∷ b'=' ∷ b' ' ∷ b'k' ∷ b'3' ∷ b' '
        ∷ b';' ∷ b' ' ∷ b'i' ∷ b't' ∷ [])
    ∷ []

read_file :
    cfg_parse no_files empty lines []
    ≡ some (
        some (record {
          db = general ∷ [];
          cur = some (b'g' ∷ b'e' ∷ b'n' ∷ b'e' ∷ b'r' ∷ b'a' ∷ b'l' ∷ []);
        }))
unfolding cfg_parse after_line parse_line trimmed_line section_line key_line value_line open_section
    cfg_find_section same_name same_bytes add_pair set_pair set_entry set_at find_key skipws trimws
    trim_loop parse_name name_length section_name
read_file = refl

-- a quoted ';' is kept, and a comment is cut
quoted :
    trimws (34 ∷ b'a' ∷ b';' ∷ b'b' ∷ 34 ∷ b' ' ∷ b';' ∷ b'c' ∷ [])
    ≡ 34 ∷ b'a' ∷ b';' ∷ b'b' ∷ 34 ∷ []
unfolding trimws trim_loop
quoted = refl

-- a pair with no value ends the parse
no_value : parse_line no_files empty (b'k' ∷ b'e' ∷ b'y' ∷ b' ' ∷ b'=' ∷ []) ≡ some abort
unfolding parse_line trimmed_line section_line key_line value_line same_bytes add_pair skipws trimws
    trim_loop parse_name name_length section_name
no_value = refl

found_general :
    cfg_find_section (general ∷ []) (b'g' ∷ b'e' ∷ b'n' ∷ b'e' ∷ b'r' ∷ b'a' ∷ b'l' ∷ [])
    ≡ some general
unfolding cfg_find_section same_name
found_general = refl

no_empty_key : find_key general.keys [] ≡ none
unfolding find_key same_name
no_empty_key = refl

not_include : same_bytes (b'b' ∷ b'p' ∷ b'p' ∷ []) include_key ≡ false
unfolding same_bytes
not_include = refl

cfg_find_val-set_pair_example :
    (cfg_find_val
        (set_pair
          (general ∷ [])
          (b'g' ∷ b'e' ∷ b'n' ∷ b'e' ∷ b'r' ∷ b'a' ∷ b'l' ∷ [])
          []
          (b'b' ∷ b'p' ∷ b'p' ∷ [])
          (b'4' ∷ []))
        (b'g' ∷ b'e' ∷ b'n' ∷ b'e' ∷ b'r' ∷ b'a' ∷ b'l' ∷ [])
        (b'b' ∷ b'p' ∷ b'p' ∷ [])
      ≡ some (b'4' ∷ []))
    × ((other : List ℕ)
        → same_name other (b'b' ∷ b'p' ∷ b'p' ∷ []) ≡ false
        → cfg_find_val
            (set_pair
              (general ∷ [])
              (b'g' ∷ b'e' ∷ b'n' ∷ b'e' ∷ b'r' ∷ b'a' ∷ b'l' ∷ [])
              []
              (b'b' ∷ b'p' ∷ b'p' ∷ [])
              (b'4' ∷ []))
            (b'g' ∷ b'e' ∷ b'n' ∷ b'e' ∷ b'r' ∷ b'a' ∷ b'l' ∷ [])
            other
          ≡ cfg_find_val (general ∷ []) (b'g' ∷ b'e' ∷ b'n' ∷ b'e' ∷ b'r' ∷ b'a' ∷ b'l' ∷ []) other)
cfg_find_val-set_pair_example =
    cfg_find_val-set_pair (general ∷ []) (b'g' ∷ b'e' ∷ b'n' ∷ b'e' ∷ b'r' ∷ b'a' ∷ b'l' ∷ [])
      general [] (b'b' ∷ b'p' ∷ b'p' ∷ []) (b'4' ∷ []) found_general no_empty_key
