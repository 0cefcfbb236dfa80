-- ===== src/Terminal/Tests.antt =====
-- A concrete screen for the tests of terminal.c.
mod Pages
mod Texts
mod Sequences
mod Sessions
mod Shells
mod Rounds
use kindle_myts.Base.{refl, arith, false, List, [], ◌∷◌, ◌++◌, replicate}
use kindle_myts.Terminal.{Screen, IsWf}
use kindle_myts.Terminal.Glyph.Scrolling.{move_cursor, IsWf-but}

-- three lines of four cells, with three lines of scrollback of which one is kept
abbrev pub small : Screen
small = record {
  utf8 = false;
  rows = 3;
  cols = 4;
  pagelen = 12;
  cur = 5;
  nowrap = false;
  originmode = false;
  scroll_top = 0;
  scroll_bottom = 3;
  cur_attr = 7;
  priv = false;
  nocursor = false;
  graphics = false;
  dographic = false;
  wrapped = false;
  page = b'a' ∷ b'b' ∷ b'c' ∷ b'd' ∷ b'e' ∷ b'f' ∷ b'g' ∷ b'h' ∷ b'i' ∷ b'j' ∷ b'k' ∷ b'l' ∷ [];
  attributes = 1 ∷ 1 ∷ 1 ∷ 1 ∷ 2 ∷ 2 ∷ 2 ∷ 2 ∷ 3 ∷ 3 ∷ 3 ∷ 3 ∷ [];
  sb_lines = 3;
  top = 1;
  sb_page = replicate 8 0 ++ (b'w' ∷ b'x' ∷ b'y' ∷ b'z' ∷ []);
  sb_attributes = replicate 12 0;
}

pub small-IsWf : IsWf small
small-IsWf = record {
  some_cols = omega arith;
  area = refl;
  region = omega arith;
  region_in = omega arith;
  cur_in = omega arith;
  page_len = refl;
  attributes_len = refl;
  top_in = omega arith;
  sb_page_len = refl;
  sb_attributes_len = refl;
}

abbrev pub scrolled : Screen
scrolled = record small {
  page = b'e' ∷ b'f' ∷ b'g' ∷ b'h' ∷ b'i' ∷ b'j' ∷ b'k' ∷ b'l' ∷ b' ' ∷ b' ' ∷ b' ' ∷ b' ' ∷ [];
  attributes = 2 ∷ 2 ∷ 2 ∷ 2 ∷ 3 ∷ 3 ∷ 3 ∷ 3 ∷ 7 ∷ 7 ∷ 7 ∷ 7 ∷ [];
  top = 2;
  sb_page = 0 ∷ 0 ∷ 0 ∷ 0 ∷ b'w' ∷ b'x' ∷ b'y' ∷ b'z' ∷ b'a' ∷ b'b' ∷ b'c' ∷ b'd' ∷ [];
  sb_attributes = replicate 8 0 ++ (1 ∷ 1 ∷ 1 ∷ 1 ∷ []);
}

-- the cursor one past the page, where the character of the last cell leaves it
abbrev pub past_page : Screen
past_page = record small { cur = 12 }

pub past_page-IsWf : IsWf past_page
past_page-IsWf = move_cursor 12 (IsWf-but small-IsWf) (omega arith)
