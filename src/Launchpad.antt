-- ===== src/Launchpad.antt =====
-- launchpad.c: the entries of the key table, and the codes of the keys that are read from the
-- configuration.
pub mod Table
pub mod Typing
pub mod State
pub mod Screen
pub mod Help
pub mod Term
pub mod Shells
pub mod Input
mod Tests
use kindle_myts.Base.{
  ℕ, Bool, true, false, ◌&&◌, List, [], ◌∷◌, Option, none, some, ◌==◌, take, length, if◌then◌else◌,
}
use kindle_myts.Config.{same_name}

-- `struct key_entry`; `name` is the text at the pointer, up to its NUL.
pub record KeyEntry : Type 0 where
  pub name : List ℕ
  pub namelen : ℕ
  pub type : ℕ
  pub code : ℕ
  pub ysteps : ℕ

-- the parts of `struct lp_state` that say what a key is: `by_code`, and the codes of the keys
pub record Keymap : Type 0 where
  pub by_code : ℕ → Option KeyEntry
  pub term_end : ℕ
  pub term_esc : ℕ
  pub term_shift : ℕ
  pub term_ctrl : ℕ
  pub term_sym : ℕ
  pub term_lang : ℕ
  pub term_fn : ℕ
  pub term_home : ℕ
  pub term_scrollup : ℕ
  pub term_scrolldown : ℕ
  -- `symbols`, the bytes for the keys pressed with SYM
  pub symbols : List ℕ

-- `E_IS`: the name of the entry is the word, but for case.
abbrev pub e_is : KeyEntry → List ℕ → Bool
e_is e word = e.namelen == length word && same_name (take e.namelen e.name) word

-- the first byte of the name
abbrev pub first_byte : List ℕ → ℕ
first_byte [] = 0
first_byte (c ∷ _) = c
