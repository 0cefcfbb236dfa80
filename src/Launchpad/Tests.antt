-- ===== src/Launchpad/Tests.antt =====
-- launchpad.c: a launchpad that shows a terminal of two lines of two cells, with three lines of
-- scrollback of which one is kept, and keys a, volume up, and end.
mod Inputs
mod Tables
use kindle_myts.Base.{
  ℕ, ◌+◌, ◌≤◌, ◌≡◌, ◌==◌, refl, arith, true, false, List, [], ◌∷◌, ◌++◌, Option, none, some,
  if◌then◌else◌, replicate, length, Returns, min,
}
use kindle_myts.Config.{same_name}
use kindle_myts.Launchpad.{KeyEntry, Keymap}
use kindle_myts.Launchpad.Table.{ecmp, ecmp1, flip, not_after, ecmp_sorts}
use kindle_myts.Launchpad.State.{Terminal, Pixmap, LpState, set_shell}
use kindle_myts.Launchpad.Typing.{Mods, key_bytes}
use kindle_myts.Launchpad.Typing.Bounds.{key_bytes_returns}
use kindle_myts.Launchpad.Typing.Letters.{IsPlain, prefixed, letter_key}
use kindle_myts.Launchpad.Screen.{process_screen}
use kindle_myts.Launchpad.Screen.View.{glyphs, laid}
use kindle_myts.Launchpad.Screen.Window.{window}
use kindle_myts.Launchpad.Screen.Shown.{Shows, process_screen_lem}
use kindle_myts.Launchpad.Term.{process_term}
use kindle_myts.Launchpad.Term.Keys.{IsPress, process_term_letter}
use kindle_myts.Launchpad.Term.Back.{process_term_scrolls}
use kindle_myts.Terminal.{Screen, IsWf}
use kindle_myts.Terminal.Shell.{Shell, type_keys}

abbrev pub two_lines : Screen
two_lines = record {
  utf8 = false;
  rows = 2;
  cols = 2;
  pagelen = 4;
  cur = 3;
  nowrap = false;
  originmode = false;
  scroll_top = 0;
  scroll_bottom = 2;
  cur_attr = 0;
  priv = false;
  nocursor = false;
  graphics = false;
  dographic = false;
  wrapped = false;
  page = b'c' ∷ b'd' ∷ b'e' ∷ b'f' ∷ [];
  attributes = replicate 4 0;
  sb_lines = 3;
  top = 1;
  sb_page = 0 ∷ 0 ∷ 0 ∷ 0 ∷ b'a' ∷ b'b' ∷ [];
  sb_attributes = replicate 6 0;
}

two_lines-IsWf : IsWf two_lines
two_lines-IsWf = record {
  some_cols = omega arith;
  area = refl;
  region = omega arith;
  region_in = omega arith;
  cur_in = omega arith;
  page_len = refl;
  attributes_len = refl;
  top_in = omega arith;
  sb_page_len = refl;
  sb_attributes_len = refl;
}

abbrev pub session : Shell
session = record {
  screen = two_lines;
  keys = b'l' ∷ [];
  sbuf = [];
  modified = true;
  fd = some 5;
  cb = true;
  name = b'A' ∷ b'1' ∷ [];
}

abbrev key_a : KeyEntry
key_a = record { name = b'a' ∷ b' ' ∷ b's' ∷ []; namelen = 1; type = 0; code = 30; ysteps = 0 }

abbrev key_volume : KeyEntry
key_volume = record { name = b'V' ∷ b'+' ∷ []; namelen = 2; type = 2; code = 115; ysteps = 0 }

abbrev pub keys : Keymap
keys = record {
  by_code =
      λ code. if code == 30 then some key_a else if code == 115 then some key_volume else none;
  term_end = 1;
  term_esc = 2;
  term_shift = 3;
  term_ctrl = 4;
  term_sym = 5;
  term_lang = 6;
  term_fn = 7;
  term_home = 8;
  term_scrollup = 115;
  term_scrolldown = 114;
  symbols = replicate 28 b'!';
}

abbrev pub no_mods : Mods
no_mods = record {
  ctrl = false;
  shift = false;
  sym = false;
  fn = false;
  lang = false;
  langlock = false;
  help = false;
}

abbrev pub terminal : Terminal
terminal = record { the_shell = 1; name = b'A' ∷ b'1' ∷ [] }

abbrev pub surface : Pixmap
surface = record { width = 2; height = 2; bpp = 4; surface = 0 ∷ 0 ∷ [] }

abbrev pub shown : LpState
shown = record {
  keymap = keys;
  mods = no_mods;
  refresh_delay = 100;
  kpad = record { fdin = some 3; fdout = none };
  fw = record { fdin = none; fdout = none };
  vol = record { fdin = none; fdout = none };
  special = record { fdin = none; fdout = none };
  fontheight = 16;
  fontwidth = 8;
  xofs = 0;
  yofs = 40;
  curterm = some terminal;
  fb = some surface;
  save_pixmap = [];
  screen_due = record { sec = 0; usec = 0 };
  got_signal = 0;
  sb_lines = 3;
  sb_pos = 0;
  sb_step = 1;
  allterm = terminal ∷ [];
  shells = λ n. if n == 1 then some session else none;
  drawn = [];
  captured = true;
  killed = [];
}

abbrev pub size : ℕ → ℕ × ℕ
size c = (8, 16)

IsPress-a : IsPress shown 1 30 key_a
IsPress-a = record { pressed = refl; in_table = omega arith; known = refl; not_end = refl }

-- CTRL and a
abbrev ctrl : Mods
ctrl = record no_mods { ctrl = true }

key_bytes_returns_example : Returns (key_bytes keys ctrl 30 key_a) (λ k. length k ≤ 5)
key_bytes_returns_example = key_bytes_returns keys ctrl 30 key_a (omega arith)

IsPlain-a : IsPlain keys ctrl 30 key_a b'a'
IsPlain-a = record {
  one_byte = refl;
  its_byte = refl;
  not_silent = refl;
  not_home = refl;
  no_fn = refl;
  no_sym = refl;
}

IsPlain-key_a : IsPlain keys no_mods 30 key_a b'a'
IsPlain-key_a = record {
  one_byte = refl;
  its_byte = refl;
  not_silent = refl;
  not_home = refl;
  no_fn = refl;
  no_sym = refl;
}

process_term_letter_example :
    process_term size shown 1 30
    ≡ some (record shown {
      shells =
          set_shell shown.shells 1
            (some (record session { keys = session.keys ++ prefixed shown.mods (b'a') }));
    })
process_term_letter_example =
    process_term_letter size IsPress-a IsPlain-key_a (omega arith) (omega arith) refl refl refl
      (omega arith)

look_back : Shows shown terminal surface session
look_back = record { opened = refl; current = refl; linked = refl }

process_screen_lem_example : Returns (process_screen size shown) (λ l.
    (glyphs l.drawn ≡ glyphs shown.drawn ++ laid 0 40 2 8 16 0 (window two_lines 0))
    × (l.sb_pos ≡ 0))
process_screen_lem_example =
    process_screen_lem size 8 16 shown (λ c. refl) look_back two_lines-IsWf refl refl

IsPress-volume : IsPress shown 1 115 key_volume
IsPress-volume = record { pressed = refl; in_table = omega arith; known = refl; not_end = refl }

volume_silent : key_bytes keys no_mods 115 key_volume ≡ some []
unfolding key_bytes same_name
volume_silent = refl

-- one line back: the line kept, and the first line of the page
window_back : window two_lines 1 ≡ b'a' ∷ b'b' ∷ b'c' ∷ b'd' ∷ []
window_back = refl
